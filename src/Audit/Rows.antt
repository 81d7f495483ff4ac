-- ===== src/Audit/Rows.antt =====
-- What the operations of services/remediation_audit_service.py do to one row, in one equation each.
use fault_warden.Base.{
  ℕ, ◌+◌, ◌*◌, ◌≡◌, ◌⊎◌, inl, inr, refl, sym, ap, subst, ◌∙◌, Bool, true, false, Option, none, some,
  [], ◌∷◌, String, str_eq, eq_iff, arith, if◌then◌else◌, any, find, error, ok, then_do,
  ok_injective, then_do_inv, guard_inv,
}
use fault_warden.Audit.{
  RemediationStatus, proposed, approved, rejected, executing, succeeded, failed, rolled_back,
  awaiting_approval, status_value, status_eq, allowed_transitions, ActionRow, AuditError,
  transition_action_status,
}
use fault_warden.Audit.Operations.{
  approve_row, claim_row, finish_row, start_claim, reach_outcome, is_leased, second,
}

-- The moves of the lifecycle, a status being able to stay.
pub data Move : RemediationStatus → RemediationStatus → Type 0 where
  stays : {s : RemediationStatus} → Move s s
  is_granted : Move awaiting_approval approved
  is_denied : Move awaiting_approval rejected
  starts : Move approved executing
  succeeds : Move executing succeeded
  fails : Move executing failed
  approves : Move proposed approved
  waits : Move proposed awaiting_approval
  rejects : Move proposed rejected

pub transition_sound :
    (s t : RemediationStatus) → any (status_eq t) (allowed_transitions s) ≡ true → Move s t
transition_sound proposed approved h = approves
transition_sound proposed awaiting_approval h = waits
transition_sound proposed rejected h = rejects
transition_sound awaiting_approval approved h = is_granted
transition_sound awaiting_approval rejected h = is_denied
transition_sound approved executing h = starts
transition_sound executing succeeded h = succeeds
transition_sound executing failed h = fails
transition_sound _ _ h = absurd (ground arith)

-- The status that a text names.
parse_status : String → Option RemediationStatus
parse_status text =
    find (λ s. str_eq (status_value s) text)
      (proposed ∷ approved ∷ rejected ∷ executing ∷ succeeded ∷ failed ∷ rolled_back
        ∷ awaiting_approval ∷ [])

parse-status_value : (s : RemediationStatus) → parse_status (status_value s) ≡ some s
unfolding parse_status
parse-status_value proposed = refl
parse-status_value approved = refl
parse-status_value rejected = refl
parse-status_value executing = refl
parse-status_value succeeded = refl
parse-status_value failed = refl
parse-status_value rolled_back = refl
parse-status_value awaiting_approval = refl

pub status_eq_sound : (s t : RemediationStatus) → status_eq s t ≡ true → s ≡ t
status_eq_sound s t h =
    let texts : status_value s ≡ status_value t =
      ground (arith, eq_iff (status_value s) (status_value t)) in
    cc (parse-status_value s, parse-status_value t, ap parse_status texts)

set_same : (a : ActionRow) (t : RemediationStatus) → a.status ≡ t → a ≡ record a { status = t }
set_same a t e = ap (λ s. record a { status = s }) e

stays_at : (s t : RemediationStatus) → s ≡ t → Move s t
stays_at s t e = rw e stays

transition_step :
    (a b : ActionRow) (t : RemediationStatus) (same may : Bool) (e : AuditError)
    → status_eq a.status t ≡ same
    → any (status_eq t) (allowed_transitions a.status) ≡ may
    → (if same then ok a else if may then ok (record a { status = t }) else error e) ≡ ok b
    → Move a.status t × (b ≡ record a { status = t })
transition_step a b t true may e s m h =
    let at_target = status_eq_sound a.status t s in
    (stays_at a.status t at_target, sym (ok_injective _ _ _ refl h) ∙ set_same a t at_target)
transition_step a b t false true e s m h =
    (transition_sound a.status t m, sym (ok_injective _ _ _ refl h))
transition_step a b t false false e s m h = absurd (ground arith)

-- A transition sets the status and nothing else, and follows the lifecycle.
pub transition_inv :
    (a b : ActionRow) (t : RemediationStatus)
    → transition_action_status a t ≡ ok b
    → Move a.status t × (b ≡ record a { status = t })
unfolding transition_action_status
transition_inv a b t h = transition_step a b t _ _ _ refl refl h

-- The operator's decision applies to a waiting row only.
pub approve_row_inv :
    (now : ℕ) (by : String) (grant : Bool) (a b : ActionRow)
    → approve_row now by grant a ≡ ok b
    → (a.status ≡ awaiting_approval)
      × (b ≡ record a {
        status = if grant then approved else rejected;
        approved_by = some by;
        approved_at = some now;
      })
approve_row_inv now by grant a b h =
    let (waiting, changed) = guard_inv (status_eq a.status awaiting_approval) _ _ b h in
    let (c, moved, set) =
      then_do_inv (transition_action_status a (if grant then approved else rejected)) _ b changed in
    let (move, eq) = transition_inv a c _ moved in
    (
      status_eq_sound a.status awaiting_approval waiting,
      sym (ok_injective _ _ _ refl set)
          ∙ ap {A = ActionRow} (λ x. record x { approved_by = some by; approved_at = some now }) eq,
    )

start_claim_inv :
    (now lease_seconds : ℕ) (a b : ActionRow)
    → start_claim now lease_seconds a ≡ ok b
    → b ≡ record a { status = executing; claim_expires_at = some (now + lease_seconds * second) }
start_claim_inv now lease_seconds a b h =
    let (c, moved, set) = then_do_inv (transition_action_status a executing) _ b h in
    sym (ok_injective _ _ _ refl set)
    ∙ ap {A = ActionRow} (λ x. record x { claim_expires_at = some (now + lease_seconds * second) })
        (transition_inv a c _ moved).1

-- What may be claimed: an approved row, or one whose lease is over.
pub record IsClaimed (now lease_seconds : ℕ) (a b : ActionRow) : Type 0 where
  pub claimable :
      (a.status ≡ approved) ⊎ ((a.status ≡ executing) × (is_leased a.claim_expires_at now ≡ false))
  pub changed :
      b ≡ record a { status = executing; claim_expires_at = some (now + lease_seconds * second) }

claim_step :
    (now lease_seconds : ℕ) (a b : ActionRow) (runs leased free : Bool) (e e' : AuditError)
    → status_eq a.status executing ≡ runs
    → is_leased a.claim_expires_at now ≡ leased
    → status_eq a.status approved ≡ free
    → (if runs
        then (if leased then error e else start_claim now lease_seconds a)
        else if free
        then start_claim now lease_seconds a
        else error e')
      ≡ ok b
    → IsClaimed now lease_seconds a b
claim_step now lease_seconds a b true true free e e' r l f h = absurd (ground arith)
claim_step now lease_seconds a b true false free e e' r l f h = record {
  claimable = inr (status_eq_sound a.status executing r, l);
  changed = start_claim_inv now lease_seconds a b h;
}
claim_step now lease_seconds a b false leased true e e' r l f h = record {
  claimable = inl (status_eq_sound a.status approved f);
  changed = start_claim_inv now lease_seconds a b h;
}
claim_step now lease_seconds a b false leased false e e' r l f h = absurd (ground arith)

pub claim_row_inv :
    (now lease_seconds : ℕ) (a b : ActionRow)
    → claim_row now lease_seconds a ≡ ok b
    → IsClaimed now lease_seconds a b
claim_row_inv now lease_seconds a b h = claim_step now lease_seconds a b _ _ _ _ _ refl refl refl h

abbrev pub outcome_status : (success : Bool) → RemediationStatus
outcome_status success = if success then succeeded else failed

-- The result of an execution applies to an approved or executing row, and once more to a row that
-- has this outcome already.
pub data Finishes : RemediationStatus → RemediationStatus → Type 0 where
  at_once : {t : RemediationStatus} → Move executing t → Finishes approved t
  after : {s t : RemediationStatus} → Move s t → Finishes s t

finish_step :
    (a c : ActionRow) (t : RemediationStatus) (free : Bool)
    → status_eq a.status approved ≡ free
    → then_do
        (if free then transition_action_status a executing else ok a)
        (λ b. transition_action_status b t)
      ≡ ok c
    → Finishes a.status t × (c ≡ record a { status = t })
finish_step a c t true f h =
    let (b, started, ended) = then_do_inv (transition_action_status a executing) _ c h in
    let (first, b≡) = transition_inv a b executing started in
    let (last, c≡) = transition_inv b c t ended in
    (
      subst (λ s. Finishes s t) (sym (status_eq_sound a.status approved f))
          (at_once (subst (λ x. Move x.status t) b≡ last)),
      c≡ ∙ ap {A = ActionRow} (λ x. record x { status = t }) b≡,
    )
finish_step a c t false f h = let (move, c≡) = transition_inv a c t h in (after move, c≡)

pub finish_row_inv :
    (success : Bool) (a b : ActionRow)
    → finish_row success a ≡ ok b
    → Finishes a.status (outcome_status success)
      × (b ≡ record a { status = outcome_status success; claim_expires_at = none })
finish_row_inv success a b h =
    let (c, moved, set) = then_do_inv (reach_outcome (outcome_status success) a) _ b h in
    let (finishes, c≡) = finish_step a c (outcome_status success) _ refl moved in
    (
      finishes,
      sym (ok_injective _ _ _ refl set)
          ∙ ap {A = ActionRow} (λ x. record x { claim_expires_at = none }) c≡,
    )
