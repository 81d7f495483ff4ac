-- ===== src/Audit/Claims.antt =====
-- The execution claim of services/remediation_audit_service.py: who may run an action, and when.
use fault_warden.Base.{
  ℕ, ◌+◌, ◌*◌, ◌≡◌, ◌≤◌, ◌<◌, ◌⊎◌, inl, inr, String, lt_or_le, refl, sym, ap, ◌∙◌, subst, false,
  some, ltb, lt→ltb, Outcome, error, ok, then_do, find-key, find-replaced, arith,
}
use fault_warden.Audit.{
  RemediationStatus, rejected, executing, succeeded, failed, rolled_back, ActionRow, Store,
  AuditError, active_lease, wrong_status, transition_action_status,
}
use fault_warden.Audit.Operations.{
  get_action, found_action, saved, save_action, with_action, claim_row, second,
  claim_action_for_execution,
}
use fault_warden.Audit.Rows.{claim_row_inv}
use fault_warden.Audit.Steps.{Run, with_action_inv}
use fault_warden.Audit.Progress.{IsFinal, final_status_stays}

-- A claimed row.
abbrev pub claimed_row : (now lease_seconds : ℕ) → ActionRow → ActionRow
claimed_row now lease_seconds a = record a {
  status = executing;
  claim_expires_at = some (now + lease_seconds * second);
}

reclaim-early :
    (now lease_seconds now' lease_seconds' : ℕ) (a : ActionRow)
    → now' < now + lease_seconds * second
    → claim_row now' lease_seconds' (claimed_row now lease_seconds a)
      ≡ error (active_lease a.id (now + lease_seconds * second))
reclaim-early now lease_seconds now' lease_seconds' a h = rw (lt→ltb now' _ h)

reclaim-late :
    (now lease_seconds now' lease_seconds' : ℕ) (a : ActionRow)
    → now + lease_seconds * second ≤ now'
    → claim_row now' lease_seconds' (claimed_row now lease_seconds a)
      ≡ ok (claimed_row now' lease_seconds' a)
unfolding transition_action_status
reclaim-late now lease_seconds now' lease_seconds' a h =
    let over : ltb now' (now + lease_seconds * second) ≡ false = ground arith in rw over

with_found :
    (i : ℕ) (change : ActionRow → Outcome AuditError ActionRow) (s : Store) (a : ActionRow)
    → get_action i s ≡ some a
    → with_action i change s ≡ then_do (change a) (saved s)
with_found i change s a found =
    ap (λ o. then_do (then_do (found_action i o) change) (saved s)) found

save_found :
    (i : ℕ) (s : Store) (a row : ActionRow)
    → get_action i s ≡ some a
    → row.id ≡ i
    → get_action i (save_action row s) ≡ some row
save_found i s a row found e =
    subst (λ k. get_action k (save_action row s) ≡ some row) e
      (find-replaced (λ x. x.id) row a s.actions
        (subst (λ k. get_action k s ≡ some a) (sym e) found))

-- The row that a claim leaves behind.
claim_inv :
    (now i lease_seconds : ℕ) (s t : Store) (row : ActionRow)
    → claim_action_for_execution now i lease_seconds s ≡ ok (row, t)
    → (a : ActionRow) × (row ≡ claimed_row now lease_seconds a)
      × (row.id ≡ i)
      × (get_action i t ≡ some (claimed_row now lease_seconds a))
unfolding claim_action_for_execution
claim_inv now i lease_seconds s t row h =
    let (a, found, changed, t≡) = with_action_inv i (claim_row now lease_seconds) s t row h in
    let row≡ = (claim_row_inv now lease_seconds a row changed).changed in
    let id≡ : row.id ≡ i = ap (λ x. x.id) row≡ ∙ find-key (λ x. x.id) i s.actions a found in
    (a, row≡, id≡, ap (get_action i) t≡ ∙ (save_found i s a row found id≡ ∙ ap some row≡))

-- A claim of a claimed row.
again :
    (now i lease_seconds now' lease_seconds' : ℕ) (a : ActionRow) (t : Store)
    → get_action i t ≡ some (claimed_row now lease_seconds a)
    → claim_action_for_execution now' i lease_seconds' t
      ≡ then_do (claim_row now' lease_seconds' (claimed_row now lease_seconds a)) (saved t)
unfolding claim_action_for_execution
again now i lease_seconds now' lease_seconds' a t found =
    with_found i (claim_row now' lease_seconds') t _ found

-- After a successful claim until the lease ends every further claim of the action is refused, with
-- the end of the lease in the exception, however long a lease it asks for; from the end of the lease
-- on the action can be claimed again, and is then leased from that time on.
pub claim_action_for_execution-excludes :
    (now i lease_seconds : ℕ) (s t : Store) (row : ActionRow) (now' lease_seconds' : ℕ)
    → claim_action_for_execution now i lease_seconds s ≡ ok (row, t)
    → ((now' < now + lease_seconds * second)
        × (claim_action_for_execution now' i lease_seconds' t
            ≡ error (active_lease i (now + lease_seconds * second))))
      ⊎ ((now + lease_seconds * second ≤ now')
          × (claim_action_for_execution now' i lease_seconds' t
              ≡ saved t (claimed_row now' lease_seconds' row)))
claim_action_for_execution-excludes now i lease_seconds s t row now' lease_seconds' h =
    let (a, row≡, id≡, found) = claim_inv now i lease_seconds s t row h in
    let next = again now i lease_seconds now' lease_seconds' a t found in
    let a_id : a.id ≡ i = sym (ap (λ x. x.id) row≡) ∙ id≡ in
    elim (lt_or_le now' (now + lease_seconds * second)) [
      | inl early ↦ inl (
        early,
        next
            ∙ (ap (λ o. then_do o (saved t))
                  (reclaim-early now lease_seconds now' lease_seconds' a early)
                ∙ ap (λ k. error (active_lease k (now + lease_seconds * second))) a_id),
      )
      | inr late ↦ inr (
        late,
        next
            ∙ (ap (λ o. then_do o (saved t))
                  (reclaim-late now lease_seconds now' lease_seconds' a late)
                ∙ ap (λ x. saved t (claimed_row now' lease_seconds' x)) (sym row≡)),
      )
    ]

final_refused :
    (now lease_seconds : ℕ) (a : ActionRow) (s : RemediationStatus)
    → a.status ≡ s
    → IsFinal s
    → claim_row now lease_seconds a ≡ error (wrong_status a.id a.status)
final_refused now lease_seconds a succeeded e f = simp e refl
final_refused now lease_seconds a failed e f = simp e refl
final_refused now lease_seconds a rejected e f = simp e refl
final_refused now lease_seconds a rolled_back e f = simp e refl
final_refused now lease_seconds a _ e f = absurd f

-- Once an action has succeeded, failed or been rejected, then after any further calls of the
-- service, in whatever order, a claim to execute it is refused at every time, with its unchanged
-- status in the exception.
pub final_action_is_never_claimed :
    (upper : String → String) (i : ℕ) (s t : Store) (a : ActionRow) (now lease_seconds : ℕ)
    → Run upper s t
    → get_action i s ≡ some a
    → IsFinal a.status
    → claim_action_for_execution now i lease_seconds t ≡ error (wrong_status i a.status)
unfolding claim_action_for_execution
final_action_is_never_claimed upper i s t a now lease_seconds run found f =
    let (b, later, same) = final_status_stays upper i s t a run found f in
    with_found i (claim_row now lease_seconds) t b later
    ∙ ap (λ o. then_do o (saved t))
        (final_refused now lease_seconds b a.status same f
          ∙ ap (λ x. error x)
              (ap (λ k. wrong_status k b.status) (find-key (λ x. x.id) i t.actions b later)
                ∙ ap (wrong_status i) same))
