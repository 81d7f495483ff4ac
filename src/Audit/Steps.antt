-- ===== src/Audit/Steps.antt =====
-- The runs of the audit service of services/remediation_audit_service.py: each successful call of
-- an operation is a step from one state of the tables to the next.
use fault_warden.Base.{
  ℕ, ◌≡◌, refl, sym, Bool, Option, none, some, [], String, Outcome, ok, then_do, then_do_inv,
  ok_injective, arith, ◌∙◌, ap,
}
use fault_warden.Schemas.{PolicyResult, RemediationProposal}
use fault_warden.Audit.{
  ActionRow, RemediationResult, RemediationValidationResult, Store, AuditError,
}
use fault_warden.Audit.Operations.{
  get_action, found_action, saved, save_action, with_action, DecisionArgument, create_proposal,
  create_action_decision, record_approval_decision, claim_action_for_execution,
  record_execution_result, record_validation_result,
}

abbrev pub empty_store : Store
empty_store = record { proposals = []; actions = []; results = []; validations = [] }

pub data Step (upper : String → String) : Store → Store → Type 0 where
  proposes : {s : Store} (p : RemediationProposal) → Step upper s (create_proposal p s)
  decides :
      {s t : Store} (fresh : ℕ) (r : PolicyResult) (row : ActionRow)
      → create_action_decision fresh r s ≡ ok (row, t)
      → Step upper s t
  answers :
      {s t : Store} (now action_id : ℕ) (decision : Option DecisionArgument) (given : Option Bool)
      (by : String) (row : ActionRow)
      → record_approval_decision upper now action_id decision given by s ≡ ok (row, t)
      → Step upper s t
  claims :
      {s t : Store} (now action_id lease_seconds : ℕ) (row : ActionRow)
      → claim_action_for_execution now action_id lease_seconds s ≡ ok (row, t)
      → Step upper s t
  ends :
      {s t : Store} (fresh : ℕ) (result : RemediationResult)
      → record_execution_result fresh result s ≡ ok t
      → Step upper s t
  validates :
      {s : Store} (fresh : ℕ) (v : RemediationValidationResult) (incident_id : ℕ)
      → Step upper s (record_validation_result fresh v incident_id s)

-- Any number of steps.
pub data Run (upper : String → String) : Store → Store → Type 0 where
  done : {s : Store} → Run upper s s
  more : {s t u : Store} → Run upper s t → Step upper t u → Run upper s u

found_action_inv :
    (action_id : ℕ) (o : Option ActionRow) (a : ActionRow)
    → found_action action_id o ≡ ok a
    → o ≡ some a
found_action_inv action_id none a h = absurd (ground arith)
found_action_inv action_id (some b) a h = ap some (ok_injective b a _ refl h)

-- A change of one row: the row was found, changed and saved.
pub with_action_inv :
    (action_id : ℕ) (change : ActionRow → Outcome AuditError ActionRow) (s t : Store)
    (row : ActionRow)
    → with_action action_id change s ≡ ok (row, t)
    → (a : ActionRow) × (get_action action_id s ≡ some a)
      × (change a ≡ ok row)
      × (t ≡ save_action row s)
with_action_inv action_id change s t row h =
    let (b, changed, kept) =
      then_do_inv (then_do (found_action action_id (get_action action_id s)) change) (saved s)
        (row, t) h in
    let (a, found, set) =
      then_do_inv (found_action action_id (get_action action_id s)) change b changed in
    let pairs : (b, save_action b s) ≡ (row, t) = ok_injective _ _ _ refl kept in
    let same : b ≡ row = ap (λ x. x.0) pairs in
    (
      a,
      found_action_inv action_id _ a found,
      set ∙ ap ok same,
      sym (ap (λ x. x.1) pairs) ∙ ap (λ x. save_action x s) same,
    )
