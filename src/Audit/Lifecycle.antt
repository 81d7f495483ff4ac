-- ===== src/Audit/Lifecycle.antt =====
-- The invariant of the rows of `RemediationActionModel` under every operation of
-- services/remediation_audit_service.py.
use fault_warden.Base.{
  ap, ok_injective, then_do_inv, ℕ, ◌≡◌, refl, sym, subst, Option, none, some, String, Outcome, ok,
  All, All-if, find-All, ◌==◌, arith,
}
use fault_warden.Schemas.{PolicyResult}
use fault_warden.Audit.{ActionRow, ProposalRow, RemediationResult, Store, AuditError}
use fault_warden.Audit.Operations.{
  get_action, action_row, existing_action, insert_decision, decision_for, with_action, finish_row,
  finish_found, create_proposal, create_action_decision, record_approval_decision,
  claim_action_for_execution, record_execution_result, record_validation_result,
}
use fault_warden.Audit.Steps.{
  Step, proposes, decides, answers, claims, ends, validates, Run, done, more, empty_store,
  with_action_inv,
}
use fault_warden.Audit.Consistency.{
  IsConsistent, approve_row-IsConsistent, claim_row-IsConsistent, finish_row-IsConsistent,
  action_row-IsConsistent,
}

abbrev pub Consistent : Store → Type 0
Consistent s = All IsConsistent s.actions

insert-Consistent :
    (row : ActionRow) (s : Store) (o : Option ActionRow)
    → IsConsistent row
    → Consistent s
    → Consistent (insert_decision row s o).1
insert-Consistent row s none h c = (h, c)
insert-Consistent row s (some found) h c = c

decides-Consistent :
    (fresh : ℕ) (r : PolicyResult) (s t : Store) (i : ℕ) (o : Option ProposalRow) (row : ActionRow)
    → decision_for fresh r s i o ≡ ok (row, t)
    → Consistent s
    → Consistent t
decides-Consistent fresh r s t i none row h c = absurd (ground arith)
decides-Consistent fresh r s t i (some p) row h c =
    let new = action_row fresh r p.incident_id in
    subst Consistent (ap (λ x. x.1) (ok_injective _ _ _ refl h)) (
      insert-Consistent new s (existing_action new s)
        (action_row-IsConsistent fresh r p.incident_id) c)

saved-Consistent :
    (action_id : ℕ) (change : ActionRow → Outcome AuditError ActionRow) (s t : Store)
    (row : ActionRow)
    → ((a b : ActionRow) → change a ≡ ok b → IsConsistent a → IsConsistent b)
    → with_action action_id change s ≡ ok (row, t)
    → Consistent s
    → Consistent t
saved-Consistent action_id change s t row keeps h c =
    let (a, found, changed, t≡) = with_action_inv action_id change s t row h in
    subst Consistent (sym t≡) (
      All-if IsConsistent (λ x. x.id == row.id) row s.actions
        (keeps a row changed (find-All IsConsistent (λ x. x.id == action_id) s.actions a c found))
        c)

finish-Consistent :
    (result : RemediationResult) (s t : Store) (o : Option ActionRow)
    → get_action result.action_id s ≡ o
    → finish_found result s o ≡ ok t
    → Consistent s
    → Consistent t
finish-Consistent result s t none e h c = subst Consistent (ok_injective _ _ _ refl h) c
finish-Consistent result s t (some a) e h c =
    let (b, changed, kept) = then_do_inv (finish_row result.success a) _ t h in
    let old = find-All IsConsistent (λ x. x.id == result.action_id) s.actions a c e in
    subst Consistent (ok_injective _ _ _ refl kept) (
      All-if IsConsistent (λ x. x.id == b.id) b s.actions
        (finish_row-IsConsistent result.success a b changed old) c)

module _ (upper : String → String) where
  -- Every operation keeps the rows consistent.
  pub Step-Consistent : {s t : Store} → Step upper s t → Consistent s → Consistent t
  unfolding create_proposal create_action_decision record_approval_decision
      claim_action_for_execution record_execution_result record_validation_result
  Step-Consistent (proposes p) c = c
  Step-Consistent {s} {t} (decides fresh r row h) c = decides-Consistent fresh r s t _ _ row h c
  Step-Consistent {s} {t} (answers now i decision given by row h) c =
      saved-Consistent i _ s t row (approve_row-IsConsistent now by _) h c
  Step-Consistent {s} {t} (claims now i lease_seconds row h) c =
      saved-Consistent i _ s t row (claim_row-IsConsistent now lease_seconds) h c
  Step-Consistent {s} {t} (ends fresh result h) c =
      let (u, finished, added) =
        then_do_inv (finish_found result s (get_action result.action_id s)) _ t h in
      subst Consistent (ok_injective _ _ _ refl added)
        (finish-Consistent result s u _ refl finished c)
  Step-Consistent (validates fresh v i) c = c

  pub Run-Consistent : {s t : Store} → Run upper s t → Consistent s → Consistent t
  Run-Consistent done c = c
  Run-Consistent (more run step) c = Step-Consistent step (Run-Consistent run c)

  -- Whatever calls of the service are made from empty tables on, in whatever order, each row of an
  -- action is consistent: a rejected decision stays rejected, an action that was decided to need an
  -- approval is approved, executing or finished only with a recorded operator, and an action holds a
  -- lease exactly while it is executing.
  pub reachable-IsConsistent :
      (s : Store) (action_id : ℕ) (a : ActionRow)
      → Run upper empty_store s
      → get_action action_id s ≡ some a
      → IsConsistent a
  reachable-IsConsistent s action_id a run found =
      find-All IsConsistent (λ x. x.id == action_id) s.actions a (Run-Consistent run tt) found
