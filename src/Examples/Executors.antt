-- ===== src/Examples/Executors.antt =====
-- The theorems on integrations/executors/: one transient error, then the service answers.
use fault_warden.Base.{ℕ, zero, suc, ◌≤◌, ◌↔◌, true, false, some}
use fault_warden.Schemas.{reset_demo_failure, restart_registered_service}
use fault_warden.Executors.{
  flag_value, Response, Reply, transient_error, answered, request_with_retry,
  execute_remediation_action,
}
use fault_warden.Executors.Contract.{
  Succeeds, Inspected, ConfirmsReset, IsHealthy, execute_remediation_action-Succeeds,
}

abbrev good_response : Response
good_response = record {
  status_code = 200;
  json = some (flag_value true);
  error_mode_model = some false;
  health_model = true;
}

abbrev flaky : ℕ → Reply
flaky zero = transient_error
flaky (suc n) = answered good_response

execute_remediation_action-Succeeds_example :
    let (first, sent) = request_with_retry flaky 0 in
    let reset = execute_remediation_action flaky reset_demo_failure 100 in
    let restarted = execute_remediation_action flaky restart_registered_service 100 in
    (Succeeds reset.0 ↔ (Inspected first × ConfirmsReset (request_with_retry flaky sent).0))
    × (reset.1 ≤ 6)
    × (Succeeds restarted.0 ↔ IsHealthy first)
    × (restarted.1 ≤ 3)
execute_remediation_action-Succeeds_example = execute_remediation_action-Succeeds flaky 100
