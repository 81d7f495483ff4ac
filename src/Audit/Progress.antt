-- ===== src/Audit/Progress.antt =====
-- How the row of one action changes over the calls of services/remediation_audit_service.py.
use fault_warden.Base.{
  ℕ, ◌≡◌, inl, inr, refl, sym, ap, ◌∙◌, subst, Option, none, some, String, Outcome, ok,
  ok_injective, then_do_inv, find-key, find-replaced, find-kept, ◌==◌, arith, Bool-cases,
  equal_or_not, some_unique,
}
use fault_warden.Schemas.{PolicyResult}
use fault_warden.Audit.{
  RemediationStatus, rejected, succeeded, failed, rolled_back, ActionRow, ProposalRow,
  RemediationResult, Store, AuditError,
}
use fault_warden.Audit.Operations.{
  get_action, action_row, existing_action, insert_decision, decision_for, save_action, with_action,
  get_by_key, first_found, finish_row, finish_found, create_proposal, create_action_decision,
  record_approval_decision, claim_action_for_execution, record_execution_result,
  record_validation_result,
}
use fault_warden.Audit.Rows.{
  Move, stays, is_granted, is_denied, starts, succeeds, fails, approves, waits, rejects,
}
use fault_warden.Audit.Steps.{
  Step, proposes, decides, answers, claims, ends, validates, Run, done, more, with_action_inv,
}
use fault_warden.Audit.Evolution.{
  Moves, Evolves, Evolves-refl, Evolves-trans, Persists, approve_row-Evolves, claim_row-Evolves,
  finish_row-Evolves, here, then_move,
}

-- Saving a row that evolved from the one that is found under its id.
save-Persists :
    (i : ℕ) (s : Store) (a b : ActionRow)
    → get_action b.id s ≡ some a
    → Evolves a b
    → Persists i s (save_action b s)
save-Persists i s a b found e c h = elim (equal_or_not i b.id) [
  | inl same ↦ (
    b,
    subst (λ k. get_action k (save_action b s) ≡ some b) (sym same)
        (find-replaced (λ x. x.id) b a s.actions found),
    subst (λ x. Evolves x b)
        (some_unique a c (get_action b.id s) found (subst (λ k. get_action k s ≡ some c) same h)) e,
  )
  | inr other ↦ (c, find-kept (λ x. x.id) i b s.actions other ∙ h, Evolves-refl c)
]

change-Persists :
    (i j : ℕ) (s : Store) (a b : ActionRow)
    → get_action j s ≡ some a
    → Evolves a b
    → Persists i s (save_action b s)
change-Persists i j s a b found e =
    let same : j ≡ b.id = sym (e.same_id ∙ find-key (λ x. x.id) j s.actions a found) in
    save-Persists i s a b (subst (λ k. get_action k s ≡ some a) same found) e

saved-Persists :
    (i j : ℕ) (change : ActionRow → Outcome AuditError ActionRow) (s t : Store) (row : ActionRow)
    → ((a b : ActionRow) → change a ≡ ok b → Evolves a b)
    → with_action j change s ≡ ok (row, t)
    → Persists i s t
saved-Persists i j change s t row evolves h =
    let (a, found, changed, t≡) = with_action_inv j change s t row h in
    subst (Persists i s) (sym t≡) (change-Persists i j s a row found (evolves a row changed))

-- Nothing is found under the id of a new row.
existing-none :
    (row : ActionRow) (s : Store) → existing_action row s ≡ none → get_action row.id s ≡ none
existing-none row s h = first_none (get_action row.id s) (get_by_key row.idempotency_key s) h
  where
    first_none : (o p : Option ActionRow) → first_found o p ≡ none → o ≡ none
    first_none none p h = refl
    first_none (some a) p h = absurd (ground arith)

insert-Persists :
    (i : ℕ) (row : ActionRow) (s : Store) (o : Option ActionRow)
    → existing_action row s ≡ o
    → Persists i s (insert_decision row s o).1
insert-Persists i row s none e c h = elim (Bool-cases (row.id == i)) [
  | inl same ↦
      (let at : row.id ≡ i = ground arith in
        let missing : get_action i s ≡ none =
          subst (λ k. get_action k s ≡ none) at (existing-none row s e) in
        absurd (ground arith))
  | inr other ↦ (c, ground arith, Evolves-refl c)
]
insert-Persists i row s (some found) e c h = (c, h, Evolves-refl c)

decides-Persists :
    (i fresh : ℕ) (r : PolicyResult) (s t : Store) (j : ℕ) (o : Option ProposalRow)
    (row : ActionRow)
    → decision_for fresh r s j o ≡ ok (row, t)
    → Persists i s t
decides-Persists i fresh r s t j none row h = absurd (ground arith)
decides-Persists i fresh r s t j (some p) row h =
    let new = action_row fresh r p.incident_id in
    subst (Persists i s) (ap (λ x. x.1) (ok_injective _ _ _ refl h))
      (insert-Persists i new s (existing_action new s) refl)

finish-Persists :
    (i : ℕ) (result : RemediationResult) (s t : Store) (o : Option ActionRow)
    → get_action result.action_id s ≡ o
    → finish_found result s o ≡ ok t
    → Persists i s t
finish-Persists i result s t none e h =
    subst (Persists i s) (ok_injective _ _ _ refl h) (λ c found. (c, found, Evolves-refl c))
finish-Persists i result s t (some a) e h =
    let (b, changed, kept) = then_do_inv (finish_row result.success a) _ t h in
    subst (Persists i s) (ok_injective _ _ _ refl kept)
      (change-Persists i result.action_id s a b e (finish_row-Evolves result.success a b changed))

module _ (upper : String → String) (i : ℕ) where
  Step-Persists : {s t : Store} → Step upper s t → Persists i s t
  unfolding create_proposal create_action_decision record_approval_decision
      claim_action_for_execution record_execution_result record_validation_result
  Step-Persists (proposes p) = λ c h. (c, h, Evolves-refl c)
  Step-Persists {s} {t} (decides fresh r row h) = decides-Persists i fresh r s t _ _ row h
  Step-Persists {s} {t} (answers now j decision given by row h) =
      saved-Persists i j _ s t row (approve_row-Evolves now by _) h
  Step-Persists {s} {t} (claims now j lease_seconds row h) =
      saved-Persists i j _ s t row (claim_row-Evolves now lease_seconds) h
  Step-Persists {s} {t} (ends fresh result h) =
      let (u, finished, added) =
        then_do_inv (finish_found result s (get_action result.action_id s)) _ t h in
      subst (Persists i s) (ok_injective _ _ _ refl added)
        (finish-Persists i result s u _ refl finished)
  Step-Persists (validates fresh v j) = λ c h. (c, h, Evolves-refl c)

  -- Over any calls of the service an action that can be looked up stays: it keeps its id, its
  -- proposal, its decision and its idempotency key, and its status moves along the lifecycle only.
  pub Run-Persists : {s t : Store} → Run upper s t → Persists i s t
  Run-Persists done c h = (c, h, Evolves-refl c)
  Run-Persists (more run step) c h =
      let (b, found, first) = Run-Persists run c h in
      let (d, later, second) = Step-Persists step b found in
      (d, later, Evolves-trans c b d first second)

abbrev pub IsFinal : RemediationStatus → Type 0
IsFinal succeeded = Unit
IsFinal failed = Unit
IsFinal rejected = Unit
IsFinal rolled_back = Unit
IsFinal _ = ⊥

Move-final : {s t : RemediationStatus} → IsFinal s → Move s t → t ≡ s
Move-final f stays = refl
Move-final f is_granted = absurd f
Move-final f is_denied = absurd f
Move-final f starts = absurd f
Move-final f succeeds = absurd f
Move-final f fails = absurd f
Move-final f approves = absurd f
Move-final f waits = absurd f
Move-final f rejects = absurd f

Moves-final : {s t : RemediationStatus} → IsFinal s → Moves s t → t ≡ s
Moves-final f here = refl
Moves-final f (then_move m k) =
    let e = Moves-final f m in Move-final (subst IsFinal (sym e) f) k ∙ e

-- Once an action has succeeded, failed or been rejected, no later calls of the service change its
-- status.
pub final_status_stays :
    (upper : String → String) (i : ℕ) (s t : Store) (a : ActionRow)
    → Run upper s t
    → get_action i s ≡ some a
    → IsFinal a.status
    → (b : ActionRow) × (get_action i t ≡ some b) × (b.status ≡ a.status)
final_status_stays upper i s t a run found f =
    let (b, later, e) = Run-Persists upper i run a found in (b, later, Moves-final f e.moves)
