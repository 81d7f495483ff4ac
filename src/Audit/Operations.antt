-- ===== src/Audit/Operations.antt =====
-- services/remediation_audit_service.py: the operations of `RemediationAuditService`.
use fault_warden.Base.{
  ℕ, ◌+◌, ◌*◌, Bool, false, Option, none, some, List, [], ◌∷◌, String, ltb, ◌==◌, ◌||◌, str_eq,
  if◌then◌else◌, any, find, keep, map, Outcome, error, ok, then_do,
}
use fault_warden.Schemas.{
  IdempotencyKey, rem_exec, RemediationAction, RemediationProposal, Reason, PolicyResult,
  allowed_action, approval_required_action, rejected_action, action_value,
}
use fault_warden.Audit.{
  RemediationStatus, approved, rejected, executing, succeeded, failed, awaiting_approval, status_eq,
  PolicyDecisionType, allowed_decision, approval_required_decision, rejected_decision, ProposalRow,
  ActionRow, RemediationResult, RemediationValidationResult, Store, AuditError, action_not_found,
  proposal_not_found, not_awaiting_approval, active_lease, wrong_status, transition_action_status,
}

abbrev pub get_action : ℕ → Store → Option ActionRow
get_action action_id store = find (λ a. a.id == action_id) store.actions

abbrev pub get_proposal : ℕ → Store → Option ProposalRow
get_proposal proposal_id store = find (λ p. p.id == proposal_id) store.proposals

-- `==` on idempotency keys; None is equal to no key in SQL.
abbrev pub has_key : IdempotencyKey → Option IdempotencyKey → Bool
has_key key none = false
has_key (rem_exec i) (some (rem_exec j)) = j == i

abbrev pub get_by_key : Option IdempotencyKey → Store → Option ActionRow
get_by_key none store = none
get_by_key (some key) store = find (λ a. has_key key a.idempotency_key) store.actions

-- `list_actions_for_incident`, the most recent first.
abbrev pub list_actions_for_incident : ℕ → Store → List ActionRow
list_actions_for_incident incident_id store = keep (λ a. a.incident_id == incident_id) store.actions

unfoldable pub create_proposal : RemediationProposal → Store → Store
create_proposal p store = record store {
  proposals =
      record {
        id = p.id;
        incident_id = p.incident_id;
        action_type = p.action_type;
        title = p.title;
        proposed_risk = p.proposed_risk;
        requires_approval = p.requires_approval;
        parameters = p.parameters;
      }
      ∷ store.proposals;
}

-- f"rem-exec-{action_id_str}" where the action has no key
abbrev key_or_default : Option IdempotencyKey → ℕ → IdempotencyKey
key_or_default none id = rem_exec id
key_or_default (some key) id = key

abbrev executable_row :
    RemediationAction
    → (incident_id : ℕ) → PolicyDecisionType
    → RemediationStatus
    → Option Reason
    → ActionRow
executable_row a incident_id decision status reason = record {
  id = a.id;
  proposal_id = a.proposal_id;
  incident_id = incident_id;
  decision = decision;
  action_type = action_value a.action_type;
  policy_level = some a.policy_level;
  approval_required = some a.approval_required;
  executor = some a.executor;
  validated_parameters = some a.validated_parameters;
  reason = reason;
  idempotency_key = some (key_or_default a.idempotency_key a.id);
  claim_expires_at = none;
  status = status;
  approved_by = none;
  approved_at = none;
}

-- The row of a decision. `fresh` is the uuid4 that a rejection is given.
abbrev pub action_row : (fresh : ℕ) → PolicyResult → (incident_id : ℕ) → ActionRow
action_row fresh (rejected_action proposal_id action_type reason) incident_id = record {
  id = fresh;
  proposal_id = proposal_id;
  incident_id = incident_id;
  decision = rejected_decision;
  action_type = action_type;
  policy_level = none;
  approval_required = none;
  executor = none;
  validated_parameters = none;
  reason = some reason;
  idempotency_key = none;
  claim_expires_at = none;
  status = rejected;
  approved_by = none;
  approved_at = none;
}
action_row fresh (allowed_action a) incident_id =
    executable_row a incident_id allowed_decision approved none
action_row fresh (approval_required_action a reason) incident_id =
    executable_row a incident_id approval_required_decision awaiting_approval (some reason)

-- `session.add(model)`
abbrev pub add_action : ActionRow → Store → Store
add_action row store = record store { actions = row ∷ store.actions }

-- The first lookup that finds a row.
abbrev pub first_found : Option ActionRow → Option ActionRow → Option ActionRow
first_found none other = other
first_found (some found) other = some found

-- The lookups by id and by key before the insertion.
abbrev pub existing_action : ActionRow → Store → Option ActionRow
existing_action row store =
    first_found (get_action row.id store) (get_by_key row.idempotency_key store)

abbrev pub insert_decision : ActionRow → Store → Option ActionRow → ActionRow × Store
insert_decision row store (some found) = (found, store)
insert_decision row store none = (row, add_action row store)

abbrev pub decision_for :
    (fresh : ℕ)
    → PolicyResult
    → Store
    → (proposal_id : ℕ) → Option ProposalRow
    → Outcome AuditError (ActionRow × Store)
decision_for fresh r store proposal_id none = error (proposal_not_found proposal_id)
decision_for fresh r store proposal_id (some p) =
    let row = action_row fresh r p.incident_id in
    ok (insert_decision row store (existing_action row store))

abbrev pub proposal_of : PolicyResult → ℕ
proposal_of (rejected_action proposal_id action_type reason) = proposal_id
proposal_of (allowed_action a) = a.proposal_id
proposal_of (approval_required_action a reason) = a.proposal_id

unfoldable pub create_action_decision :
    (fresh : ℕ) → PolicyResult → Store → Outcome AuditError (ActionRow × Store)
create_action_decision fresh r store =
    decision_for fresh r store (proposal_of r) (get_proposal (proposal_of r) store)

-- The columns of a row are set in place.
abbrev pub save_action : ActionRow → Store → Store
save_action row store = record store {
  actions = map (λ a. if a.id == row.id then row else a) store.actions;
}

-- `get_action`, the exception for a missing row, a change of the row, and the flush.
abbrev pub found_action : ℕ → Option ActionRow → Outcome AuditError ActionRow
found_action action_id none = error (action_not_found action_id)
found_action action_id (some a) = ok a

abbrev pub saved : Store → ActionRow → Outcome AuditError (ActionRow × Store)
saved store row = ok (row, save_action row store)

abbrev pub with_action :
    ℕ → (ActionRow → Outcome AuditError ActionRow) → Store → Outcome AuditError (ActionRow × Store)
with_action action_id change store =
    then_do (then_do (found_action action_id (get_action action_id store)) change) (saved store)

-- What a caller passes as `decision`: a bool, an `ApprovalDecision`, or another value by its text.
pub data ApprovalDecision : Type 0 where
  approve reject cancel : ApprovalDecision

pub data DecisionArgument : Type 0 where
  flag : Bool → DecisionArgument
  choice : ApprovalDecision → DecisionArgument
  text : String → DecisionArgument

abbrev pub decision_value : ApprovalDecision → String
decision_value approve = "APPROVE"
decision_value reject = "REJECT"
decision_value cancel = "CANCEL"

abbrev pub approve_row :
    (now : ℕ) (approved_by : String) (approves : Bool) → ActionRow → Outcome AuditError ActionRow
approve_row now approved_by approves a =
    if status_eq a.status awaiting_approval
    then then_do (transition_action_status a (if approves then approved else rejected))
        (λ b. ok (record b { approved_by = some approved_by; approved_at = some now }))
    else error (not_awaiting_approval a.incident_id a.status)

module _ (upper : String → String) where
  -- `is_approved`
  abbrev pub is_approved : Option DecisionArgument → (approved : Option Bool) → Bool
  is_approved none none = false
  is_approved none (some b) = b
  is_approved (some (flag b)) given = b
  is_approved (some (choice d)) given =
      str_eq (decision_value d) "approve" || str_eq (decision_value d) "APPROVE"
  is_approved (some (text t)) given = any (str_eq (upper t)) ("APPROVE" ∷ "APPROVED" ∷ "TRUE" ∷ [])

  unfoldable pub record_approval_decision :
      (now action_id : ℕ) (decision : Option DecisionArgument) (approved : Option Bool)
      (approved_by : String)
      → Store
      → Outcome AuditError (ActionRow × Store)
  record_approval_decision now action_id decision given approved_by store =
      with_action action_id (approve_row now approved_by (is_approved decision given)) store

-- `claim_exp and claim_exp > now`
abbrev pub is_leased : Option ℕ → (now : ℕ) → Bool
is_leased none now = false
is_leased (some lease) now = ltb now lease

abbrev pub lease_of : Option ℕ → ℕ
lease_of none = 0
lease_of (some lease) = lease

abbrev pub second : ℕ
second = 1000000

-- `transition_action_status` and the new lease
abbrev pub start_claim : (now lease_seconds : ℕ) → ActionRow → Outcome AuditError ActionRow
start_claim now lease_seconds a =
    then_do (transition_action_status a executing)
      (λ b. ok (record b { claim_expires_at = some (now + lease_seconds * second) }))

abbrev pub claim_row : (now lease_seconds : ℕ) → ActionRow → Outcome AuditError ActionRow
claim_row now lease_seconds a =
    if status_eq a.status executing
    then (if is_leased a.claim_expires_at now
        then error (active_lease a.id (lease_of a.claim_expires_at))
        else start_claim now lease_seconds a)
    else if status_eq a.status approved
    then start_claim now lease_seconds a
    else error (wrong_status a.id a.status)

unfoldable pub claim_action_for_execution :
    (now action_id lease_seconds : ℕ) → Store → Outcome AuditError (ActionRow × Store)
claim_action_for_execution now action_id lease_seconds store =
    with_action action_id (claim_row now lease_seconds) store

-- From APPROVED the row passes through EXECUTING.
abbrev pub reach_outcome : RemediationStatus → ActionRow → Outcome AuditError ActionRow
reach_outcome target_status a =
    then_do (if status_eq a.status approved then transition_action_status a executing else ok a)
      (λ b. transition_action_status b target_status)

abbrev pub finish_row : (success : Bool) → ActionRow → Outcome AuditError ActionRow
finish_row success a =
    then_do (reach_outcome (if success then succeeded else failed) a)
      (λ b. ok (record b { claim_expires_at = none }))

abbrev pub add_result : (fresh : ℕ) → RemediationResult → Store → Store
add_result fresh result store = record store {
  results = record { id = fresh; result = result } ∷ store.results;
}

-- A result for no known action is recorded all the same.
abbrev pub finish_found : RemediationResult → Store → Option ActionRow → Outcome AuditError Store
finish_found result store none = ok store
finish_found result store (some a) =
    then_do (finish_row result.success a) (λ b. ok (save_action b store))

unfoldable pub record_execution_result :
    (fresh : ℕ) → RemediationResult → Store → Outcome AuditError Store
record_execution_result fresh result store =
    then_do (finish_found result store (get_action result.action_id store))
      (λ changed. ok (add_result fresh result changed))

unfoldable pub record_validation_result :
    (fresh : ℕ) → RemediationValidationResult → (incident_id : ℕ) → Store → Store
record_validation_result fresh validation incident_id store = record store {
  validations =
      record { id = fresh; incident_id = incident_id; validation = validation } ∷ store.validations;
}
