-- ===== src/Executors/Contract.antt =====
-- What the executors under integrations/executors/ report.
use fault_warden.Base.{
  ℕ, ◌+◌, ◌≡◌, ◌≤◌, ◌↔◌, inl, inr, refl, Bool, true, false, Option, none, some, arith, ◌==◌, ==_iff,
  if◌then◌else◌,
}
use fault_warden.Schemas.{reset_demo_failure, restart_registered_service}
use fault_warden.Audit.{RemediationExecutionStatus, execution_succeeded, execution_failed}
use fault_warden.Executors.{
  Reply, Requested, exhausted, raised, received, ExecutorResult, request_with_retry, before_of,
  verify_reset, after_post, disable, after_get, reset_failure_mode, after_health, restart,
  execute_remediation_action,
}
use fault_warden.Executors.Requests.{request_attempts-IsBoundedRequest}

-- The service has answered with status 200 that error_mode is now False.
abbrev pub ConfirmsReset : Requested → Type 0
ConfirmsReset (received r) = (r.status_code ≡ 200) × (r.error_mode_model ≡ some false)
ConfirmsReset exhausted = ⊥
ConfirmsReset raised = ⊥

-- The service has answered with status 200 and a state that can be read.
abbrev pub Inspected : Requested → Type 0
Inspected (received r) = (r.status_code ≡ 200) × ((b : Bool) × (before_of r.json ≡ some b))
Inspected exhausted = ⊥
Inspected raised = ⊥

-- The result says succeeded, and its two fields agree.
abbrev pub Succeeds : Option ExecutorResult → Type 0
Succeeds none = ⊥
Succeeds (some result) = (result.success ≡ true) × (result.status ≡ execution_succeeded)

confirmed :
    (action_id : ℕ) (b c : Bool) (m : Option Bool)
    → Succeeds (
        some (
          if c then verify_reset action_id b m else record {
            action_id = action_id;
            status = execution_failed;
            success = false;
            before_state = some b;
            after_state = none;
          }))
      ↔ ((c ≡ true) × (m ≡ some false))
confirmed action_id b false m = ((λ h. absurd (ground arith)), (λ h. absurd (ground arith)))
confirmed action_id b true none = ((λ h. absurd (ground arith)), (λ h. absurd (ground arith)))
confirmed action_id b true (some true) =
    ((λ h. absurd (ground arith)), (λ h. absurd (ground arith)))
confirmed action_id b true (some false) = ((λ h. (refl, refl)), (λ h. (refl, refl)))

post-Succeeds :
    (action_id : ℕ) (b : Bool) (p : Requested × ℕ)
    → Succeeds (after_post action_id b p).0 ↔ ConfirmsReset p.0
post-Succeeds action_id b (exhausted, sent) = ((λ h. absurd (ground arith)), (λ h. absurd h))
post-Succeeds action_id b (raised, sent) = ((λ h. h), (λ h. h))
post-Succeeds action_id b (received r, sent) =
    let both = confirmed action_id b (r.status_code == 200) r.error_mode_model in
    let at = ==_iff r.status_code 200 in
    ((λ h. (let (c, m) = both.0 h in (at.0 c, m))), (λ h. both.1 (at.1 h.0, h.1)))

module _ (server : ℕ → Reply) where
  disable-Succeeds :
      (action_id sent : ℕ) (o : Option Bool)
      → Succeeds (disable server action_id sent o).0
        ↔ (((b : Bool) × (o ≡ some b)) × ConfirmsReset (request_with_retry server sent).0)
  disable-Succeeds action_id sent none =
      ((λ h. absurd (ground arith)), (λ h. absurd (let e = h.0.1 in ground arith)))
  disable-Succeeds action_id sent (some b) =
      let both = post-Succeeds action_id b (request_with_retry server sent) in
      ((λ h. ((b, refl), both.0 h)), (λ h. both.1 h.1))

  inspected :
      (action_id sent : ℕ) (c : Bool) (o : Option Bool)
      → Succeeds
          (if c then disable server action_id sent o else (
            some (record {
              action_id = action_id;
              status = execution_failed;
              success = false;
              before_state = none;
              after_state = none;
            }),
            sent,
          )).0
        ↔ ((c ≡ true)
            × ((b : Bool) × (o ≡ some b))
            × ConfirmsReset (request_with_retry server sent).0)
  inspected action_id sent false o = ((λ h. absurd (ground arith)), (λ h. absurd (ground arith)))
  inspected action_id sent true o =
      let both = disable-Succeeds action_id sent o in
      ((λ h. (refl, (both.0 h).0, (both.0 h).1)), (λ h. both.1 (h.1, h.2)))

  get-Succeeds :
      (action_id : ℕ) (p : Requested × ℕ)
      → Succeeds (after_get server action_id p).0
        ↔ (Inspected p.0 × ConfirmsReset (request_with_retry server p.1).0)
  get-Succeeds action_id (exhausted, sent) = ((λ h. absurd (ground arith)), (λ h. absurd h.0))
  get-Succeeds action_id (raised, sent) = ((λ h. absurd h), (λ h. absurd h.0))
  get-Succeeds action_id (received r, sent) =
      let both = inspected action_id sent (r.status_code == 200) (before_of r.json) in
      let at = ==_iff r.status_code 200 in
      (
        (λ h. (let (c, o, p) = both.0 h in ((at.0 c, o), p))),
        (λ h. both.1 (at.1 h.0.0, h.0.1, h.1)),
      )

  sent_within : (first : ℕ) → (request_with_retry server first).1 ≤ first + 3
  sent_within first = elim (request_attempts-IsBoundedRequest server 3 first) [
    | inl (all, count, failed) ↦ ground arith
    | inr (k, less, count, failed, last) ↦ ground arith
  ]

  post-sent : (action_id : ℕ) (b : Bool) (p : Requested × ℕ) → (after_post action_id b p).1 ≡ p.1
  post-sent action_id b (exhausted, sent) = refl
  post-sent action_id b (raised, sent) = refl
  post-sent action_id b (received r, sent) = refl

  disable-sent :
      (action_id sent : ℕ) (o : Option Bool) → (disable server action_id sent o).1 ≤ sent + 3
  disable-sent action_id sent none = ground arith
  disable-sent action_id sent (some b) =
      let same = post-sent action_id b (request_with_retry server sent) in
      let within = sent_within sent in ground arith

  get-sent : (action_id : ℕ) (p : Requested × ℕ) → (after_get server action_id p).1 ≤ p.1 + 3
  get-sent action_id (exhausted, sent) = ground arith
  get-sent action_id (raised, sent) = ground arith
  get-sent action_id (received r, sent) = go (r.status_code == 200)
    where
      go :
          (c : Bool)
          → (if c then disable server action_id sent (before_of r.json) else (
            some (record {
              action_id = action_id;
              status = execution_failed;
              success = false;
              before_state = none;
              after_state = none;
            }),
            sent,
          )).1
            ≤ sent + 3
      go true = disable-sent action_id sent (before_of r.json)
      go false = ground arith

  -- The contract of the reset alone.
  pub reset_failure_mode-Succeeds :
      (action_id : ℕ)
      → let (inspection, sent) = request_with_retry server 0 in
        (Succeeds (reset_failure_mode server action_id).0
          ↔ (Inspected inspection × ConfirmsReset (request_with_retry server sent).0))
        × ((reset_failure_mode server action_id).1 ≤ 6)
  unfolding reset_failure_mode
  reset_failure_mode-Succeeds action_id =
      let within = sent_within 0 in
      let more_sent = get-sent action_id (request_with_retry server 0) in
      (get-Succeeds action_id (request_with_retry server 0), ground arith)

-- The health endpoint has answered with status 200 and a valid body.
abbrev pub IsHealthy : Requested → Type 0
IsHealthy (received r) = (r.status_code ≡ 200) × (r.health_model ≡ true)
IsHealthy exhausted = ⊥
IsHealthy raised = ⊥

healthy :
    (action_id : ℕ) (p : Requested × ℕ) → Succeeds (after_health action_id p).0 ↔ IsHealthy p.0
healthy action_id (exhausted, sent) = ((λ h. absurd (ground arith)), (λ h. absurd h))
healthy action_id (raised, sent) = ((λ h. h), (λ h. h))
healthy action_id (received r, sent) =
    let both = answered_well (r.status_code == 200) r.health_model in
    let at = ==_iff r.status_code 200 in
    ((λ h. (let (c, m) = both.0 h in (at.0 c, m))), (λ h. both.1 (at.1 h.0, h.1)))
  where
    report : Bool → RemediationExecutionStatus → ExecutorResult
    report success status = record {
      action_id = action_id;
      status = status;
      success = success;
      before_state = none;
      after_state = none;
    }

    answered_well :
        (c m : Bool)
        → Succeeds (
            some (
              if c
              then (if m then report true execution_succeeded else report false execution_failed)
              else report false execution_failed))
          ↔ ((c ≡ true) × (m ≡ true))
    answered_well false m = ((λ h. absurd (ground arith)), (λ h. absurd (ground arith)))
    answered_well true false = ((λ h. absurd (ground arith)), (λ h. absurd (ground arith)))
    answered_well true true = ((λ h. (refl, refl)), (λ h. (refl, refl)))

health-sent : (action_id : ℕ) (p : Requested × ℕ) → (after_health action_id p).1 ≡ p.1
health-sent action_id (exhausted, sent) = refl
health-sent action_id (raised, sent) = refl
health-sent action_id (received r, sent) = refl

-- The dispatch runs each action by its own executor. A reset reports success exactly if the
-- inspection was answered with status 200 and a readable state and then the change with status 200
-- and error_mode False, and sends at most six requests; a simulated restart reports success exactly
-- if the health endpoint was answered with status 200 and a valid body, and sends at most three.
pub execute_remediation_action-Succeeds :
    (server : ℕ → Reply) (action_id : ℕ)
    → let (first, sent) = request_with_retry server 0 in
      let reset = execute_remediation_action server reset_demo_failure action_id in
      let restarted = execute_remediation_action server restart_registered_service action_id in
      (Succeeds reset.0 ↔ (Inspected first × ConfirmsReset (request_with_retry server sent).0))
      × (reset.1 ≤ 6)
      × (Succeeds restarted.0 ↔ IsHealthy first)
      × (restarted.1 ≤ 3)
unfolding execute_remediation_action restart
execute_remediation_action-Succeeds server action_id =
    let reset = reset_failure_mode-Succeeds server action_id in
    let within = sent_within server 0 in
    let same = health-sent action_id (request_with_retry server 0) in
    (reset.0, reset.1, healthy action_id (request_with_retry server 0), ground arith)
