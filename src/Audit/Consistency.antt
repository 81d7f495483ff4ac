-- ===== src/Audit/Consistency.antt =====
-- The consistency of one row of an action, under the operations on a row.
use fault_warden.Base.{
  ℕ, ◌≡◌, ◌⊎◌, inl, inr, refl, sym, subst, Bool, true, false, Option, none, some, String, ok,
  is_some, if◌then◌else◌, arith,
}
use fault_warden.Schemas.{PolicyResult, allowed_action, approval_required_action, rejected_action}
use fault_warden.Audit.{
  RemediationStatus, approved, rejected, executing, succeeded, failed, awaiting_approval,
  PolicyDecisionType, allowed_decision, approval_required_decision, rejected_decision, ActionRow,
}
use fault_warden.Audit.Operations.{action_row, approve_row, claim_row, finish_row}
use fault_warden.Audit.Rows.{
  Move, stays, succeeds, fails, Finishes, at_once, after, outcome_status, approve_row_inv,
  claim_row_inv, finish_row_inv,
}

-- The statuses of an action that may run, runs, or has run.
abbrev pub Runs : RemediationStatus → Type 0
Runs approved = Unit
Runs executing = Unit
Runs succeeded = Unit
Runs failed = Unit
Runs _ = ⊥

-- What stands behind the status of an action: an automatic decision, or the answer of a human.
abbrev pub IsBacked :
    PolicyDecisionType → RemediationStatus → (approved_by : Option String) → Type 0
IsBacked rejected_decision s by = s ≡ rejected
IsBacked allowed_decision s by = Runs s
IsBacked approval_required_decision awaiting_approval by = Unit
IsBacked approval_required_decision rejected by = is_some by ≡ true
IsBacked approval_required_decision s by = Runs s × (is_some by ≡ true)

-- A lease is held while an action executes, and only then.
abbrev pub HasLease : RemediationStatus → Option ℕ → Type 0
HasLease executing claim = is_some claim ≡ true
HasLease _ claim = claim ≡ none

abbrev pub IsConsistent : ActionRow → Type 0
IsConsistent a = IsBacked a.decision a.status a.approved_by × HasLease a.status a.claim_expires_at

has_approver :
    (s : RemediationStatus) (by : Option String)
    → IsBacked approval_required_decision s by
    → Runs s
    → is_some by ≡ true
has_approver approved by h r = h.1
has_approver executing by h r = h.1
has_approver succeeded by h r = h.1
has_approver failed by h r = h.1
has_approver _ by h r = absurd r

approver-IsBacked :
    (t : RemediationStatus) (by : Option String)
    → is_some by ≡ true
    → Runs t
    → IsBacked approval_required_decision t by
approver-IsBacked approved by h r = (tt, h)
approver-IsBacked executing by h r = (tt, h)
approver-IsBacked succeeded by h r = (tt, h)
approver-IsBacked failed by h r = (tt, h)
approver-IsBacked _ by h r = absurd r

Runs-IsBacked :
    (d : PolicyDecisionType) (s t : RemediationStatus) (by : Option String)
    → IsBacked d s by
    → Runs s
    → Runs t
    → IsBacked d t by
Runs-IsBacked rejected_decision s t by h r q = absurd (subst Runs h r)
Runs-IsBacked allowed_decision s t by h r q = q
Runs-IsBacked approval_required_decision s t by h r q =
    approver-IsBacked t by (has_approver s by h r) q

IsBacked-answered :
    (d : PolicyDecisionType) (grant : Bool) (x : String) (by : Option String)
    → IsBacked d awaiting_approval by
    → IsBacked d (if grant then approved else rejected) (some x)
IsBacked-answered rejected_decision grant x by h = absurd (ground arith)
IsBacked-answered allowed_decision grant x by h = absurd h
IsBacked-answered approval_required_decision true x by h = (tt, refl)
IsBacked-answered approval_required_decision false x by h = refl

HasLease-answered :
    (grant : Bool) (claim : Option ℕ)
    → HasLease awaiting_approval claim
    → HasLease (if grant then approved else rejected) claim
HasLease-answered true claim h = h
HasLease-answered false claim h = h

outcome-Runs : (success : Bool) → Runs (outcome_status success)
outcome-Runs true = tt
outcome-Runs false = tt

outcome-HasLease : (success : Bool) → HasLease (outcome_status success) none
outcome-HasLease true = refl
outcome-HasLease false = refl

Move-Runs : (success : Bool) {s : RemediationStatus} → Move s (outcome_status success) → Runs s
Move-Runs true stays = tt
Move-Runs true succeeds = tt
Move-Runs false stays = tt
Move-Runs false fails = tt

Finishes-Runs :
    (success : Bool) {s : RemediationStatus} → Finishes s (outcome_status success) → Runs s
Finishes-Runs success (at_once m) = tt
Finishes-Runs success (after m) = Move-Runs success m

claimable-Runs :
    (s : RemediationStatus) {A : Type 0} → (s ≡ approved) ⊎ ((s ≡ executing) × A) → Runs s
claimable-Runs s (inl e) = subst Runs (sym e) tt
claimable-Runs s (inr e) = subst Runs (sym e.0) tt

pub approve_row-IsConsistent :
    (now : ℕ) (by : String) (grant : Bool) (a b : ActionRow)
    → approve_row now by grant a ≡ ok b
    → IsConsistent a
    → IsConsistent b
approve_row-IsConsistent now by grant a b h c =
    let (waits, b≡) = approve_row_inv now by grant a b h in
    subst IsConsistent (sym b≡) (
      IsBacked-answered a.decision grant by a.approved_by
          (subst (λ s. IsBacked a.decision s a.approved_by) waits c.0),
      HasLease-answered grant a.claim_expires_at
          (subst (λ s. HasLease s a.claim_expires_at) waits c.1),
    )

pub claim_row-IsConsistent :
    (now lease_seconds : ℕ) (a b : ActionRow)
    → claim_row now lease_seconds a ≡ ok b
    → IsConsistent a
    → IsConsistent b
claim_row-IsConsistent now lease_seconds a b h c =
    let claimed = claim_row_inv now lease_seconds a b h in
    subst IsConsistent (sym claimed.changed) (
      Runs-IsBacked a.decision a.status executing a.approved_by c.0
          (claimable-Runs a.status claimed.claimable) tt,
      refl,
    )

pub finish_row-IsConsistent :
    (success : Bool) (a b : ActionRow)
    → finish_row success a ≡ ok b
    → IsConsistent a
    → IsConsistent b
finish_row-IsConsistent success a b h c =
    let (finishes, b≡) = finish_row_inv success a b h in
    subst IsConsistent (sym b≡) (
      Runs-IsBacked a.decision a.status (outcome_status success) a.approved_by c.0
          (Finishes-Runs success finishes) (outcome-Runs success),
      outcome-HasLease success,
    )

pub action_row-IsConsistent :
    (fresh : ℕ) (r : PolicyResult) (incident_id : ℕ) → IsConsistent (action_row fresh r incident_id)
action_row-IsConsistent fresh (allowed_action a) i = (tt, refl)
action_row-IsConsistent fresh (approval_required_action a w) i = (tt, refl)
action_row-IsConsistent fresh (rejected_action p t w) i = (refl, refl)
