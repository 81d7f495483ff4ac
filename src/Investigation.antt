-- ===== src/Investigation.antt =====
-- services/investigation_service.py: the terminal status of an incident, the history that the limits
-- read, what is persisted after a run of the graph, and the checks before a paused run is resumed.
pub mod Persistence
pub mod Resume
pub mod Status
use fault_warden.Base.{
  ℕ, suc, ◌-◌, ◌*◌, Bool, true, false, not, Option, none, some, List, [], ◌∷◌, String, ltb,
  if◌then◌else◌, is_some, nonempty, keep, length, count_if, Outcome, error, ok, then_do,
}
use fault_warden.Schemas.{RemediationProposal, PolicyResult, RootCauseAnalysis}
use fault_warden.Audit.{
  awaiting_approval, status_eq, PolicyDecisionType, allowed_decision, approval_required_decision,
  rejected_decision, ActionRow, RemediationResult, RemediationValidationResult, Store, AuditError,
}
use fault_warden.Audit.Operations.{
  get_proposal, list_actions_for_incident, create_proposal, create_action_decision,
  ApprovalDecision, approve, reject, cancel, record_approval_decision, record_execution_result,
  record_validation_result, second,
}

pub data IncidentStatus : Type 0 where
  detected triaging investigating root_cause_identified remediation_proposed
        incident_awaiting_approval remediating validating resolved incident_failed :
      IncidentStatus

-- `_decide_terminal_status`, with whether a resolution text goes with the status.
unfoldable pub decide_terminal_status :
    (validation_passed : Option Bool)
    → List RemediationProposal
    → Option RootCauseAnalysis
    → IncidentStatus × Bool
decide_terminal_status (some true) proposals cause = (resolved, true)
decide_terminal_status (some false) proposals cause = (remediation_proposed, true)
decide_terminal_status none proposals cause =
    if nonempty proposals
    then (remediation_proposed, false)
    else if is_some cause
    then (root_cause_identified, false)
    else (incident_failed, false)

abbrev pub is_allowed_decision : PolicyDecisionType → Bool
is_allowed_decision allowed_decision = true
is_allowed_decision approval_required_decision = false
is_allowed_decision rejected_decision = false

-- `_count_prior_remediations`
unfoldable pub count_prior_remediations : (incident_id : ℕ) → Store → ℕ × ℕ
count_prior_remediations incident_id store =
    let actions = list_actions_for_incident incident_id store in
    (length actions, count_if (λ a. is_allowed_decision a.decision) actions)

-- What `_persist_remediation` reads of the state.
pub record RemediationState : Type 0 where
  pub remediation_proposals : List RemediationProposal
  pub remediation_all_policy_results : List PolicyResult
  pub remediation_policy_result : Option PolicyResult
  pub remediation_result : Option RemediationResult
  pub remediation_validation_result : Option RemediationValidationResult

unfoldable pub persist_proposals : List RemediationProposal → Store → Store
persist_proposals [] store = store
persist_proposals (p ∷ ps) store =
    persist_proposals ps
      (if is_some (get_proposal p.id store) then store else create_proposal p store)

-- All results where there are any, and the selected one where there are none.
abbrev pub results_of : List PolicyResult → Option PolicyResult → List PolicyResult
results_of (r ∷ rs) selected = r ∷ rs
results_of [] (some r) = r ∷ []
results_of [] none = []

abbrev pub persist_result :
    (fresh : ℕ) → Option RemediationResult → Store → Outcome AuditError Store
persist_result fresh none store = ok store
persist_result fresh (some result) store = record_execution_result fresh result store

abbrev pub persist_validation :
    (fresh incident_id : ℕ) → Option RemediationValidationResult → Store → Store
persist_validation fresh incident_id none store = store
persist_validation fresh incident_id (some v) store =
    record_validation_result fresh v incident_id store

module _ (uuid : ℕ → ℕ) where
  unfoldable pub persist_decisions : ℕ → List PolicyResult → Store → Outcome AuditError Store
  persist_decisions n [] store = ok store
  persist_decisions n (r ∷ rs) store =
      then_do (create_action_decision (uuid n) r store)
        (λ pair. persist_decisions (suc n) rs pair.1)

  -- The uuid4 draws are those for the rejections, the result and the validation.
  unfoldable pub persist_remediation :
      RemediationState → (incident_id : ℕ) → Store → Outcome AuditError Store
  persist_remediation state incident_id store =
      let results =
        results_of state.remediation_all_policy_results state.remediation_policy_result in
      then_do (persist_decisions 2 results (persist_proposals state.remediation_proposals store))
        (λ decided. then_do (persist_result (uuid 0) state.remediation_result decided) (λ finished.
          ok
            (persist_validation (uuid 1) incident_id state.remediation_validation_result finished)))

pub record Incident : Type 0 where
  pub id : ℕ
  pub status : IncidentStatus
  pub langgraph_thread_id : Option ℕ

pub data ResumeError : Type 0 where
  not_awaiting : IncidentStatus → ResumeError
  missing_thread no_awaiting_action : ResumeError
  multiple_awaiting_actions : ℕ → ResumeError
  stale_approval : (action_id pending timeout_seconds : ℕ) → ResumeError
  audit_error : AuditError → ResumeError

abbrev pub is_awaiting_operator : IncidentStatus → Bool
is_awaiting_operator incident_awaiting_approval = true
is_awaiting_operator _ = false

abbrev pub awaiting_actions : (incident_id : ℕ) → Store → List ActionRow
awaiting_actions incident_id store =
    keep (λ a. status_eq a.status awaiting_approval) (list_actions_for_incident incident_id store)

-- `decision == ApprovalDecision.APPROVE`
abbrev pub approves : ApprovalDecision → Bool
approves approve = true
approves reject = false
approves cancel = false

abbrev pub as_resume :
    Outcome AuditError (ActionRow × Store) → Outcome ResumeError (ActionRow × Store)
as_resume (error e) = error (audit_error e)
as_resume (ok pair) = ok pair

module _ (upper : String → String) (created_at : ℕ → ℕ) (timeout_seconds : ℕ) where
  -- The one action that waits, unless it has waited too long. `created_at` gives the time at which
  -- the database made the row; a clock that runs backwards counts as no time.
  abbrev pub answer_action :
      (now : ℕ)
      → ApprovalDecision
      → (approved_by : String) → Store
      → List ActionRow
      → Outcome ResumeError (ActionRow × Store)
  answer_action now decision approved_by store [] = error no_awaiting_action
  answer_action now decision approved_by store (a ∷ b ∷ rest) =
      error (multiple_awaiting_actions (length (a ∷ b ∷ rest)))
  answer_action now decision approved_by store (a ∷ []) =
      if ltb (timeout_seconds * second) (now - created_at a.id)
      then error (stale_approval a.id (now - created_at a.id) timeout_seconds)
      else as_resume (
          record_approval_decision upper now a.id none (some (approves decision)) approved_by store)

  -- `resume_remediation_approval`, up to the graph's resumption.
  unfoldable pub resume_remediation_approval :
      Incident
      → (now : ℕ) → ApprovalDecision
      → (approved_by : String) → Store
      → Outcome ResumeError (ActionRow × Store)
  resume_remediation_approval incident now decision approved_by store =
      if not (is_awaiting_operator incident.status)
      then error (not_awaiting incident.status)
      else if not (is_some incident.langgraph_thread_id)
      then error missing_thread
      else answer_action now decision approved_by store (awaiting_actions incident.id store)
