-- ===== src/Audit.antt =====
-- services/remediation_audit_service.py: the rows of the audit trail, `ALLOWED_TRANSITIONS` and
-- `transition_action_status`, and the operations of `RemediationAuditService`.
--
-- The database is a record of tables, a new row first. A row is found by its primary key or by its
-- unique idempotency key. Times are microseconds. An operation that raises leaves no change, so its
-- outcome is the exception or the returned row with the new store.
pub mod Operations
pub mod Rows
pub mod Steps
pub mod Consistency
pub mod Lifecycle
pub mod Evolution
pub mod Progress
pub mod Claims
pub mod Decisions
use fault_warden.Base.{
  ℕ, Bool, Option, List, [], ◌∷◌, String, str_eq, if◌then◌else◌, any, Outcome, error, ok,
}
use fault_warden.Schemas.{SafetyLevel, IdempotencyKey, Parameters, Reason}

pub data RemediationStatus : Type 0 where
  proposed approved rejected executing succeeded failed rolled_back awaiting_approval :
      RemediationStatus

abbrev pub status_value : RemediationStatus → String
status_value proposed = "PROPOSED"
status_value approved = "APPROVED"
status_value rejected = "REJECTED"
status_value executing = "EXECUTING"
status_value succeeded = "SUCCEEDED"
status_value failed = "FAILED"
status_value rolled_back = "ROLLED_BACK"
status_value awaiting_approval = "AWAITING_APPROVAL"

-- `==` on the members of the StrEnum
abbrev pub status_eq : RemediationStatus → RemediationStatus → Bool
status_eq s t = str_eq (status_value s) (status_value t)

-- `ALLOWED_TRANSITIONS`
abbrev pub allowed_transitions : RemediationStatus → List RemediationStatus
allowed_transitions proposed = approved ∷ awaiting_approval ∷ rejected ∷ []
allowed_transitions awaiting_approval = approved ∷ rejected ∷ []
allowed_transitions approved = executing ∷ []
allowed_transitions executing = succeeded ∷ failed ∷ []
allowed_transitions succeeded = []
allowed_transitions failed = []
allowed_transitions rejected = []
allowed_transitions rolled_back = []

pub data PolicyDecisionType : Type 0 where
  allowed_decision approval_required_decision rejected_decision : PolicyDecisionType

-- `RemediationProposalModel`, the columns that later code reads.
pub record ProposalRow : Type 0 where
  pub id : ℕ
  pub incident_id : ℕ
  pub action_type : String
  pub title : String
  pub proposed_risk : SafetyLevel
  pub requires_approval : Bool
  pub parameters : Parameters

-- `RemediationActionModel`
pub record ActionRow : Type 0 where
  pub id : ℕ
  pub proposal_id : ℕ
  pub incident_id : ℕ
  pub decision : PolicyDecisionType
  pub action_type : String
  pub policy_level : Option SafetyLevel
  pub approval_required : Option Bool
  pub executor : Option String
  pub validated_parameters : Option Parameters
  pub reason : Option Reason
  pub idempotency_key : Option IdempotencyKey
  pub claim_expires_at : Option ℕ
  pub status : RemediationStatus
  pub approved_by : Option String
  pub approved_at : Option ℕ

pub data RemediationExecutionStatus : Type 0 where
  execution_pending execution_succeeded execution_failed execution_timed_out :
      RemediationExecutionStatus

-- `RemediationResult`, and its row with the id that the row is given.
pub record RemediationResult : Type 0 where
  pub action_id : ℕ
  pub status : RemediationExecutionStatus
  pub started_at : ℕ
  pub completed_at : Option ℕ
  pub success : Bool
  pub summary : String
  pub error : Option String

pub record ResultRow : Type 0 where
  pub id : ℕ
  pub result : RemediationResult

pub data RemediationValidationStatus : Type 0 where
  validation_passed validation_failed validation_error : RemediationValidationStatus

-- `RemediationValidationResult`; its checks are kept as their names and whether they passed.
pub record RemediationValidationResult : Type 0 where
  pub action_id : ℕ
  pub passed : Bool
  pub status : RemediationValidationStatus
  pub started_at : ℕ
  pub completed_at : Option ℕ
  pub summary : String
  pub checks : List (String × Bool)

pub record ValidationRow : Type 0 where
  pub id : ℕ
  pub incident_id : ℕ
  pub validation : RemediationValidationResult

pub record Store : Type 0 where
  pub proposals : List ProposalRow
  pub actions : List ActionRow
  pub results : List ResultRow
  pub validations : List ValidationRow

pub data AuditError : Type 0 where
  action_not_found proposal_not_found : (id : ℕ) → AuditError
  not_awaiting_approval : (incident_id : ℕ) (current_status : RemediationStatus) → AuditError
  invalid_state_transition :
      (action_id : ℕ) (current_status target_status : RemediationStatus) → AuditError
  active_lease : (action_id lease : ℕ) → AuditError
  wrong_status : (action_id : ℕ) (status : RemediationStatus) → AuditError

unfoldable pub transition_action_status :
    ActionRow → (target_status : RemediationStatus) → Outcome AuditError ActionRow
transition_action_status action target_status =
    if status_eq action.status target_status
    then ok action
    else if any (status_eq target_status) (allowed_transitions action.status)
    then ok (record action { status = target_status })
    else error (invalid_state_transition action.id action.status target_status)
