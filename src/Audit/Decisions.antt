-- ===== src/Audit/Decisions.antt =====
-- `create_action_decision` of services/remediation_audit_service.py, called again.
use fault_warden.Base.{
  ℕ, ◌≡◌, refl, sym, ap, ◌∙◌, Option, none, some, find, ok, ok_injective, arith, ◌==◌,
}
use fault_warden.Schemas.{PolicyResult, allowed_action, approval_required_action, rejected_action}
use fault_warden.Audit.{ActionRow, ProposalRow, Store}
use fault_warden.Audit.Operations.{
  get_action, get_proposal, get_by_key, first_found, action_row, existing_action, insert_decision,
  add_action, decision_for, proposal_of, create_action_decision,
}

-- A decision that carries an action.
abbrev pub CarriesAction : PolicyResult → Type 0
CarriesAction (allowed_action a) = Unit
CarriesAction (approval_required_action a reason) = Unit
CarriesAction (rejected_action id name reason) = ⊥

-- The row of such a decision does not depend on the fresh id.
same_row :
    (fresh fresh' : ℕ) (r : PolicyResult) (incident_id : ℕ)
    → CarriesAction r
    → action_row fresh r incident_id ≡ action_row fresh' r incident_id
same_row fresh fresh' (allowed_action a) i h = refl
same_row fresh fresh' (approval_required_action a reason) i h = refl
same_row fresh fresh' (rejected_action id name reason) i h = absurd h

added-found : (row : ActionRow) (s : Store) → get_action row.id (add_action row s) ≡ some row
added-found row s = ground arith

added-existing : (row : ActionRow) (s : Store) → existing_action row (add_action row s) ≡ some row
added-existing row s =
    ap (λ o. first_found o (get_by_key row.idempotency_key (add_action row s))) (added-found row s)

-- Inserted a second time, a row is found.
insert_again :
    (row : ActionRow) (s : Store) (o : Option ActionRow)
    → existing_action row s ≡ o
    → insert_decision row
        (insert_decision row s o).1
        (existing_action row (insert_decision row s o).1)
      ≡ insert_decision row s o
insert_again row s (some found) e = rw e refl
insert_again row s none e = ap (insert_decision row (add_action row s)) (added-existing row s)

insert-proposals :
    (row : ActionRow) (s : Store) (o : Option ActionRow)
    → (insert_decision row s o).1.proposals ≡ s.proposals
insert-proposals row s none = refl
insert-proposals row s (some found) = refl

decide_again :
    (fresh fresh' : ℕ) (r : PolicyResult) (s t : Store) (i : ℕ) (o : Option ProposalRow)
    (row : ActionRow)
    → CarriesAction r
    → decision_for fresh r s i o ≡ ok (row, t)
    → (t.proposals ≡ s.proposals) × (decision_for fresh' r t i o ≡ ok (row, t))
decide_again fresh fresh' r s t i none row c h = absurd (ground arith)
decide_again fresh fresh' r s t i (some p) row c h =
    let new = action_row fresh r p.incident_id in
    let once : insert_decision new s (existing_action new s) ≡ (row, t) =
      ok_injective _ _ _ refl h in
    let t≡ : t ≡ (insert_decision new s (existing_action new s)).1 = sym (ap (λ x. x.1) once) in
    (
      ap (λ x. x.proposals) t≡ ∙ insert-proposals new s (existing_action new s),
      ap (λ x. ok (insert_decision x t (existing_action x t)))
            (same_row fresh' fresh r p.incident_id c)
          ∙ (ap (λ u. ok (insert_decision new u (existing_action new u))) t≡
              ∙ (ap ok (insert_again new s _ refl) ∙ h)),
    )

-- Deciding on an action is idempotent: when a decision that carries an action has been recorded, or
-- was found recorded under its id or its idempotency key, then recording it once more returns the
-- same row and changes nothing.
pub create_action_decision-idempotent :
    (fresh fresh' : ℕ) (r : PolicyResult) (s t : Store) (row : ActionRow)
    → CarriesAction r
    → create_action_decision fresh r s ≡ ok (row, t)
    → create_action_decision fresh' r t ≡ ok (row, t)
unfolding create_action_decision
create_action_decision-idempotent fresh fresh' r s t row c h =
    let (same, again) =
      decide_again fresh fresh' r s t (proposal_of r) (get_proposal (proposal_of r) s) row c h in
    ap (λ ps. decision_for fresh' r t (proposal_of r) (find (λ p. p.id == proposal_of r) ps)) same
    ∙ again
