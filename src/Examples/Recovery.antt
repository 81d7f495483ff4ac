-- ===== src/Examples/Recovery.antt =====
-- The theorems on services/recovery_validator.py: a reset whose series have fallen to zero, with
-- the rates as natural numbers.
use fault_warden.Base.{ℕ, zero, suc, ◌≡◌, ◌↔◌, refl, true, false, some, [], ◌∷◌}
use fault_warden.Executors.{
  flag_value, Reply, transient_error, answered, check_recovered, request_attempts,
}
use fault_warden.Graph.{validate_remediation_node}
use fault_warden.Recovery.{dict, HttpResponse, Signals, check_remediation_recovered}
use fault_warden.Recovery.Service.{IsConfirmed, service_check_resolves_iff}
use fault_warden.Investigation.Status.{Resolves}
use fault_warden.Examples.{reset_proposal, sample_cause}
use fault_warden.Examples.Graph.{reset_action, reset_outcome}
use fault_warden.Examples.Service.{executed_state, validated_state}

abbrev error_mode_off : HttpResponse
error_mode_off = record {
  status_code = 200;
  content_type_is_json = true;
  body = dict (flag_value false);
}

-- Two series, the second without a value; the alert's rate is still too high.
abbrev mixed_signals : Signals ℕ
mixed_signals = record {
  target_reply = some error_mode_off;
  health_reply = some error_mode_off;
  error_rate_reply = some (record { values = 4 ∷ 1 ∷ [] } ∷ record { values = [] } ∷ []);
  alert_reply = some (record { values = 9 ∷ [] } ∷ []);
}

abbrev reset_service : ℕ → Reply
reset_service zero = transient_error
reset_service (suc n) = answered (record {
  status_code = 200;
  json = some (flag_value false);
  error_mode_model = some false;
  health_model = true;
})

confirmed :
    validate_remediation_node executed_state
      (check_remediation_recovered reset_service reset_action.action_type)
    ≡ some validated_state
unfolding validate_remediation_node check_remediation_recovered check_recovered request_attempts
confirmed = refl

service_check_resolves_iff_example :
    Resolves (reset_proposal ∷ []) (some sample_cause) (some true)
    ↔ IsConfirmed reset_service reset_action.action_type (some reset_outcome)
service_check_resolves_iff_example =
    service_check_resolves_iff reset_service (reset_proposal ∷ []) (some sample_cause)
      executed_state validated_state reset_action refl confirmed
