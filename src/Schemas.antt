-- ===== src/Schemas.antt =====
-- schemas/remediation.py, schemas/hypothesis.py and schemas/evidence.py: the enums and the models
-- that the policy engine, the graph and the audit trail exchange.
--
-- A UUID is the 128-bit number that its text spells. Free texts that no code reads (titles,
-- descriptions) are left out; a message built from values is a constructor that holds them.
-- A confidence or a score is a float from 0.0 to 1.0, so it is a whole number of units of
-- 2 ^ -1074, and its order is the order of these numbers.
pub mod Alert
pub mod Change
use fault_warden.Base.{ℕ, String, ◌^◌, Bool, Option, List}

pub data SafetyLevel : Type 0 where
  level_0_read_only level_1_safe_automatic level_2_human_approval_required : SafetyLevel

-- `RemediationSafetyLevel` is an IntEnum.
abbrev pub level_value : SafetyLevel → ℕ
level_value level_0_read_only = 0
level_value level_1_safe_automatic = 1
level_value level_2_human_approval_required = 2

pub data ActionType : Type 0 where
  reset_demo_failure restart_registered_service : ActionType

-- `ActionType.value`; a member of a StrEnum is equal to its text.
abbrev pub action_value : ActionType → String
action_value reset_demo_failure = "RESET_DEMO_FAILURE"
action_value restart_registered_service = "RESTART_REGISTERED_SERVICE"

-- What `proposal.parameters` may hold: one of the two parameter models, a dict whose values are
-- texts or None, or an object that has neither attribute and is no dict.
pub data Parameters : Type 0 where
  reset_demo_failure_parameters : (service : String) → Parameters
  restart_registered_service_parameters : (service_id : String) → Parameters
  dict : List (String × Option String) → Parameters
  opaque : Parameters

-- `proposed_risk` and `requires_approval` are what the LLM suggests.
pub record RemediationProposal : Type 0 where
  pub id : ℕ
  pub incident_id : ℕ
  pub title : String
  pub expected_effect : String
  pub supporting_evidence_ids : List String
  pub proposed_risk : SafetyLevel
  pub requires_approval : Bool
  pub action_type : String
  pub parameters : Parameters

-- The text f"rem-exec-{id}".
pub data IdempotencyKey : Type 0 where
  rem_exec : ℕ → IdempotencyKey

pub record RemediationAction : Type 0 where
  pub id : ℕ
  pub proposal_id : ℕ
  pub policy_level : SafetyLevel
  pub approval_required : Bool
  pub executor : String
  pub idempotency_key : Option IdempotencyKey
  pub action_type : ActionType
  pub validated_parameters : Parameters

-- The messages of the policy engine and of the limits.
pub data Reason : Type 0 where
  pipeline_disabled : Reason
  not_registered : (action_type : String) → Reason
  target_not_allowed : (target : Option String) (action_type : String) → Reason
  validation_failed : Reason
  unsupported : (action_type : String) → Reason
  exceeds_threshold : (level : SafetyLevel) (threshold : ℕ) → Reason
  max_attempts_reached : (max_attempts : ℕ) → Reason
  max_auto_executions_reached : (max_auto_executions : ℕ) → Reason

-- `action_type` of a rejection may be a text that names no action type (`model_construct`).
pub data PolicyResult : Type 0 where
  allowed_action : RemediationAction → PolicyResult
  approval_required_action : RemediationAction → Reason → PolicyResult
  rejected_action : (proposal_id : ℕ) (action_type : String) (reason : Reason) → PolicyResult

pub data HypothesisStatus : Type 0 where
  proposed testing verified refuted inconclusive : HypothesisStatus

pub record Hypothesis : Type 0 where
  pub id : ℕ
  pub title : String
  pub description : String
  pub affected_component : String
  pub confidence_score : ℕ
  pub status : HypothesisStatus
  pub supporting_evidence_ids : List String
  pub refuting_evidence_ids : List String
  pub historical_reference_ids : List String
  pub related_change_ids : List String
  pub reasoning_summary : String

pub record RootCauseAnalysis : Type 0 where
  pub primary_hypothesis_id : ℕ
  pub summary : String
  pub root_cause_category : String
  pub culprit_service : String
  pub supporting_evidence_ids : List String
  pub causal_change_ids : List String
  pub confidence : ℕ

pub data EvidenceType : Type 0 where
  alert metric log trace deployment system_state : EvidenceType

pub record EvidenceItem : Type 0 where
  pub id : String
  pub evidence_type : EvidenceType
  pub source : String
  pub summary : String

pub data EligibilityReason : Type 0 where
  eligible_reason no_root_cause root_cause_unverified insufficient_confidence insufficient_evidence
        investigation_exhausted :
      EligibilityReason

pub record EligibilityResult : Type 0 where
  pub eligible : Bool
  pub reason : EligibilityReason

-- `category.value` of an `IncidentClassification`.
pub record IncidentClassification : Type 0 where
  pub category : String

-- `RemediationSettings`, the fields that the modelled code reads; durations in seconds.
pub record RemediationSettings : Type 0 where
  pub enabled : Bool
  pub auto_execute_max_safety_level : ℕ
  pub approval_timeout_seconds : ℕ
  pub max_remediation_attempts_per_incident : ℕ
  pub max_auto_remediations_per_incident : ℕ
  pub min_root_cause_confidence : ℕ
  pub job_lease_seconds : ℕ

-- The score 1.0 in these units.
abbrev pub score_one : ℕ
score_one = 2 ^ 1074
