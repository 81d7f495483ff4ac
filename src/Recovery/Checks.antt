-- ===== src/Recovery/Checks.antt =====
-- The checks of the recovery validator that ask the service: when they pass.
use fault_warden.Base.{
  ◌≡◌, ◌≢◌, ◌↔◌, refl, Bool, true, false, Option, none, some, arith, ◌==◌, ==_iff, if◌then◌else◌,
  not,
}
use fault_warden.Schemas.{ActionType, reset_demo_failure, restart_registered_service}
use fault_warden.Executors.{missing, flag_value, other_value}
use fault_warden.Recovery.{
  Body, invalid_json, not_dict, dict, HttpResponse, target_postcondition, ValidationCheckResult,
  check_error_mode, check_target_postcondition, read_health, check_service_health, failed_check,
  unexpected_status,
}

-- The target answers 200, and after a reset its error mode is False.
abbrev pub TargetRestored : ActionType → Option HttpResponse → Type 0
TargetRestored action_type none = ⊥
TargetRestored reset_demo_failure (some r) =
    (r.status_code ≡ 200) × (r.body ≡ dict (flag_value false))
TargetRestored restart_registered_service (some r) = r.status_code ≡ 200

-- The health endpoint answers 200, and not with broken JSON.
abbrev pub ServiceAnswers : Option HttpResponse → Type 0
ServiceAnswers none = ⊥
ServiceAnswers (some r) =
    (r.status_code ≡ 200) × ((r.content_type_is_json ≡ true) → r.body ≢ invalid_json)

module _ (Rate : Type 0) where
  error_mode-passes :
      (b : Body) → ((check_error_mode Rate b).passed ≡ true) ↔ (b ≡ dict (flag_value false))
  error_mode-passes invalid_json = ((λ h. absurd (ground arith)), (λ h. absurd (ground arith)))
  error_mode-passes not_dict = ((λ h. absurd (ground arith)), (λ h. absurd (ground arith)))
  error_mode-passes (dict missing) = ((λ h. absurd (ground arith)), (λ h. absurd (ground arith)))
  error_mode-passes (dict (flag_value true)) =
      ((λ h. absurd (ground arith)), (λ h. absurd (ground arith)))
  error_mode-passes (dict (flag_value false)) = ((λ h. refl), (λ h. refl))
  error_mode-passes (dict (other_value truth)) =
      ((λ h. absurd (ground arith)), (λ h. absurd (ground arith)))

  -- A check behind a test of the status.
  tested-passes :
      (b : Bool) (c d : ValidationCheckResult Rate)
      → d.passed ≡ false
      → ((if b then c else d).passed ≡ true) ↔ ((b ≡ true) × (c.passed ≡ true))
  tested-passes true c d h = ((λ e. (refl, e)), (λ e. e.1))
  tested-passes false c d h = ((λ e. absurd (ground arith)), (λ e. absurd (ground arith)))

  pub target-passes :
      (t : ActionType) (o : Option HttpResponse)
      → ((check_target_postcondition Rate t o).passed ≡ true) ↔ TargetRestored t o
  unfolding check_target_postcondition
  target-passes reset_demo_failure none = ((λ h. absurd (ground arith)), (λ h. absurd h))
  target-passes restart_registered_service none = ((λ h. absurd (ground arith)), (λ h. absurd h))
  target-passes reset_demo_failure (some r) = by_status (r.status_code == 200) refl
    where
      by_status :
          (b : Bool)
          → (r.status_code == 200) ≡ b
          → ((if not b
                then failed_check Rate target_postcondition "demo-service"
                    (unexpected_status r.status_code)
                else check_error_mode Rate r.body).passed
              ≡ true)
            ↔ ((r.status_code ≡ 200) × (r.body ≡ dict (flag_value false)))
      by_status true e =
          let both = error_mode-passes r.body in
          ((λ h. ((==_iff r.status_code 200).0 e, both.0 h)), (λ h. both.1 h.1))
      by_status false e = ((λ h. absurd (ground arith)), (λ h. absurd (ground arith)))
  target-passes restart_registered_service (some r) =
      let both = tested-passes (r.status_code == 200) _ _ refl in
      let at = ==_iff r.status_code 200 in ((λ h. at.0 (both.0 h).0), (λ h. both.1 (at.1 h, refl)))

  body-passes :
      (json : Bool) (b : Body)
      → ((read_health Rate json b).passed ≡ true) ↔ ((json ≡ true) → b ≢ invalid_json)
  body-passes true invalid_json = ((λ h. absurd (ground arith)), (λ h. absurd (h refl refl)))
  body-passes true not_dict = ((λ h e f. absurd (ground arith)), (λ h. refl))
  body-passes true (dict f) = ((λ h e g. absurd (ground arith)), (λ h. refl))
  body-passes false b = ((λ h e. absurd (ground arith)), (λ h. refl))

  pub health-passes :
      (o : Option HttpResponse) → ((check_service_health Rate o).passed ≡ true) ↔ ServiceAnswers o
  unfolding check_service_health
  health-passes none = ((λ h. absurd (ground arith)), (λ h. absurd h))
  health-passes (some r) =
      let both = tested-passes (r.status_code == 200) _ _ refl in
      let body = body-passes r.content_type_is_json r.body in
      let at = ==_iff r.status_code 200 in
      ((λ h. (at.0 (both.0 h).0, body.0 (both.0 h).1)), (λ h. both.1 (at.1 h.0, body.1 h.1)))
