-- ===== src/Audit/Evolution.antt =====
-- How one row of an action may change.
use fault_warden.Base.{
  ℕ, ◌≡◌, ◌⊎◌, inl, inr, refl, sym, ◌∙◌, subst, Bool, true, false, some, String, ok, if◌then◌else◌,
}
use fault_warden.Audit.{
  RemediationStatus, approved, rejected, executing, awaiting_approval, ActionRow, Store,
}
use fault_warden.Audit.Operations.{get_action, approve_row, claim_row, finish_row}
use fault_warden.Audit.Rows.{
  Move, is_granted, is_denied, starts, Finishes, at_once, after, approve_row_inv, claim_row_inv,
  finish_row_inv,
}

-- Any number of moves of the lifecycle.
pub data Moves : RemediationStatus → RemediationStatus → Type 0 where
  here : {s : RemediationStatus} → Moves s s
  then_move : {s t u : RemediationStatus} → Moves s t → Move t u → Moves s u

Moves-trans : {s t u : RemediationStatus} → Moves s t → Moves t u → Moves s u
Moves-trans m here = m
Moves-trans m (then_move n k) = then_move (Moves-trans m n) k

-- The later row is of the same decision on the same proposal, further in the lifecycle.
pub record Evolves (a b : ActionRow) : Type 0 where
  pub same_id : b.id ≡ a.id
  pub same_proposal : b.proposal_id ≡ a.proposal_id
  pub same_decision : b.decision ≡ a.decision
  pub same_key : b.idempotency_key ≡ a.idempotency_key
  pub moves : Moves a.status b.status

pub Evolves-refl : (a : ActionRow) → Evolves a a
Evolves-refl a = record {
  same_id = refl;
  same_proposal = refl;
  same_decision = refl;
  same_key = refl;
  moves = here;
}

pub Evolves-trans : (a b c : ActionRow) → Evolves a b → Evolves b c → Evolves a c
Evolves-trans a b c h i = record {
  same_id = i.same_id ∙ h.same_id;
  same_proposal = i.same_proposal ∙ h.same_proposal;
  same_decision = i.same_decision ∙ h.same_decision;
  same_key = i.same_key ∙ h.same_key;
  moves = Moves-trans h.moves i.moves;
}

-- The action can be looked up later, and its row has evolved.
abbrev pub Persists : ℕ → Store → Store → Type 0
Persists i s t =
    (a : ActionRow)
    → get_action i s ≡ some a
    → (b : ActionRow) × (get_action i t ≡ some b) × Evolves a b

pub approve_row-Evolves :
    (now : ℕ) (by : String) (grant : Bool) (a b : ActionRow)
    → approve_row now by grant a ≡ ok b
    → Evolves a b
approve_row-Evolves now by grant a b h =
    let (waiting, b≡) = approve_row_inv now by grant a b h in
    subst (Evolves a) (sym b≡) (record {
      same_id = refl;
      same_proposal = refl;
      same_decision = refl;
      same_key = refl;
      moves =
          subst (λ s. Moves s (if grant then approved else rejected)) (sym waiting)
            (answered grant);
    })
  where
    answered : (g : Bool) → Moves awaiting_approval (if g then approved else rejected)
    answered true = then_move here is_granted
    answered false = then_move here is_denied

pub claim_row-Evolves :
    (now lease_seconds : ℕ) (a b : ActionRow) → claim_row now lease_seconds a ≡ ok b → Evolves a b
claim_row-Evolves now lease_seconds a b h =
    let claimed = claim_row_inv now lease_seconds a b h in
    subst (Evolves a) (sym claimed.changed) (record {
      same_id = refl;
      same_proposal = refl;
      same_decision = refl;
      same_key = refl;
      moves = started a.status claimed.claimable;
    })
  where
    started :
        (s : RemediationStatus) {A : Type 0}
        → (s ≡ approved) ⊎ ((s ≡ executing) × A)
        → Moves s executing
    started s (inl e) = subst (λ x. Moves x executing) (sym e) (then_move here starts)
    started s (inr e) = subst (λ x. Moves x executing) (sym e.0) here

Finishes-Moves : {s t : RemediationStatus} → Finishes s t → Moves s t
Finishes-Moves (at_once m) = then_move (then_move here starts) m
Finishes-Moves (after m) = then_move here m

pub finish_row-Evolves :
    (success : Bool) (a b : ActionRow) → finish_row success a ≡ ok b → Evolves a b
finish_row-Evolves success a b h =
    let (finishes, b≡) = finish_row_inv success a b h in
    subst (Evolves a) (sym b≡) (record {
      same_id = refl;
      same_proposal = refl;
      same_decision = refl;
      same_key = refl;
      moves = Finishes-Moves finishes;
    })
