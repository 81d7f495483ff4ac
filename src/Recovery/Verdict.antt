-- ===== src/Recovery/Verdict.antt =====
-- The verdict of `RecoveryValidator.validate_recovery`.
use fault_warden.Base.{◌≡◌, ◌↔◌, Bool, true, List, All, map}
use fault_warden.Schemas.{ActionType}
use fault_warden.Audit.{validation_passed}
use fault_warden.Recovery.{Signals, RecoveryResult, ValidationCheckResult, run_checks}
use fault_warden.Recovery.Checks.{TargetRestored, ServiceAnswers}
use fault_warden.Recovery.Rates.{IsBelow}
use fault_warden.Recovery.Errors.{check_names, Explained, Summarises}

module _ {Rate : Type 0} (nought : Rate) (add : Rate → Rate → Rate) (at_most : Rate → Rate → Bool)
    (threshold : Rate) where
  -- All four signals are good.
  abbrev pub IsRecovered : ActionType → Signals Rate → Type 0
  IsRecovered action_type signals =
      TargetRestored action_type signals.target_reply
      × ServiceAnswers signals.health_reply
      × IsBelow nought add at_most threshold signals.error_rate_reply
      × IsBelow nought add at_most threshold signals.alert_reply

  abbrev checks_of : ActionType → Signals Rate → List (ValidationCheckResult Rate)
  checks_of = run_checks Rate nought add at_most threshold

  -- What `result` says of an action and its signals.
  abbrev pub IsVerdict : ActionType → Signals Rate → RecoveryResult Rate → Type 0
  IsVerdict action_type signals result =
      ((result.passed ≡ true) ↔ IsRecovered action_type signals)
      × ((result.status ≡ validation_passed) ↔ (result.passed ≡ true))
      × (map (λ c. c.name) result.checks ≡ check_names)
      × All (Explained Rate) result.checks
      × Summarises Rate result.passed result.summary
