-- ===== src/Recovery.antt =====
-- services/recovery_validator.py: `RecoveryValidator`, and `check_remediation_recovered` of
-- integrations/executors/__init__.py.
--
-- A call that raises is none. Of a response the code reads the status, whether its content type is
-- JSON, and the body. The floats of the rates are an argument, with their zero, addition and `<=`.
-- The observed and expected values of a check and the texts of responses and exceptions are left
-- out; a time is a number of microseconds.
pub mod Checks
pub mod Rates
pub mod Errors
pub mod Service
pub mod Verdict
use fault_warden.Base.{
  ℕ, Bool, true, false, Option, none, some, List, [], ◌∷◌, ◌&&◌, not, ◌==◌, if◌then◌else◌, keep,
  length, map, String,
}
use fault_warden.Schemas.{
  ActionType, reset_demo_failure, restart_registered_service, RemediationAction,
}
use fault_warden.Audit.{RemediationValidationStatus, validation_passed, validation_failed}
use fault_warden.Executors.{
  Field, missing, flag_value, other_value, Reply, check_recovered, Requested, exhausted, raised,
  received, request_with_retry,
}

-- What `resp.json()` gives: an exception, no dict, or a dict with this value of "error_mode".
pub data Body : Type 0 where
  invalid_json not_dict : Body
  dict : Field → Body

pub record HttpResponse : Type 0 where
  pub status_code : ℕ
  pub content_type_is_json : Bool
  pub body : Body

pub data CheckName : Type 0 where
  target_postcondition service_health http_5xx_rate alert_cleared : CheckName

abbrev pub status_of : Bool → RemediationValidationStatus
status_of true = validation_passed
status_of false = validation_failed

module _ (Rate : Type 0) where
  -- The error of a check, with the values that its text shows.
  pub data CheckError : Type 0 where
    unexpected_status : (status_code : ℕ) → CheckError
    error_mode_is : (error_mode : Option Field) → CheckError
    raised_exception no_metric_data : CheckError
    rate_too_high : Rate → CheckError

  pub record ValidationCheckResult : Type 0 where
    pub name : CheckName
    pub source : String
    pub passed : Bool
    pub error : Option CheckError

  -- The points of a series are their values.
  pub record MetricData : Type 0 where
    pub values : List Rate

  -- What the calls of one validation give, in their order.
  pub record Signals : Type 0 where
    pub target_reply : Option HttpResponse
    pub health_reply : Option HttpResponse
    pub error_rate_reply : Option (List MetricData)
    pub alert_reply : Option (List MetricData)

  pub data Summary : Type 0 where
    all_healthy : (total : ℕ) (passed_names : List CheckName) → Summary
    some_failed :
        (failed total : ℕ) (failed_checks : List (CheckName × Option CheckError)) → Summary

  pub record RecoveryResult : Type 0 where
    pub action_id : ℕ
    pub passed : Bool
    pub status : RemediationValidationStatus
    pub started_at : ℕ
    pub completed_at : ℕ
    pub summary : Summary
    pub checks : List ValidationCheckResult

  abbrev pub passed_check : CheckName → String → ValidationCheckResult
  passed_check name source = record { name = name; source = source; passed = true; error = none }

  abbrev pub failed_check : CheckName → String → CheckError → ValidationCheckResult
  failed_check name source e = record {
    name = name;
    source = source;
    passed = false;
    error = some e;
  }

  -- `payload.get("error_mode") is False`, and the answer for any other payload.
  abbrev pub check_error_mode : Body → ValidationCheckResult
  check_error_mode invalid_json = failed_check target_postcondition "demo-service" raised_exception
  check_error_mode not_dict = failed_check target_postcondition "demo-service" (error_mode_is none)
  check_error_mode (dict missing) =
      failed_check target_postcondition "demo-service" (error_mode_is none)
  check_error_mode (dict (flag_value false)) = passed_check target_postcondition "demo-service"
  check_error_mode (dict (flag_value true)) =
      failed_check target_postcondition "demo-service" (error_mode_is (some (flag_value true)))
  check_error_mode (dict (other_value truth)) =
      failed_check target_postcondition "demo-service" (error_mode_is (some (other_value truth)))

  -- `_check_target_postcondition`, on the action's type and the reply to its request.
  unfoldable pub check_target_postcondition :
      ActionType → Option HttpResponse → ValidationCheckResult
  check_target_postcondition reset_demo_failure none =
      failed_check target_postcondition "demo-service" raised_exception
  check_target_postcondition reset_demo_failure (some r) =
      if not (r.status_code == 200)
      then failed_check target_postcondition "demo-service" (unexpected_status r.status_code)
      else check_error_mode r.body
  check_target_postcondition restart_registered_service none =
      failed_check target_postcondition "demo-service" raised_exception
  check_target_postcondition restart_registered_service (some r) =
      if r.status_code == 200
      then passed_check target_postcondition "demo-service"
      else failed_check target_postcondition "demo-service" (unexpected_status r.status_code)

  -- `resp.json()` is called only on a JSON content type, and raises on an invalid body.
  abbrev pub read_health : Bool → Body → ValidationCheckResult
  read_health true invalid_json = failed_check service_health "demo-service" raised_exception
  read_health true _ = passed_check service_health "demo-service"
  read_health false _ = passed_check service_health "demo-service"

  unfoldable pub check_service_health : Option HttpResponse → ValidationCheckResult
  check_service_health none = failed_check service_health "demo-service" raised_exception
  check_service_health (some r) =
      if r.status_code == 200
      then read_health r.content_type_is_json r.body
      else failed_check service_health "demo-service" (unexpected_status r.status_code)

  -- `values[-1]`
  abbrev pub last_value : Rate → List Rate → Rate
  last_value v [] = v
  last_value v (w ∷ ws) = last_value w ws

  -- `all(c.passed for c in checks)`
  abbrev pub all_checks_pass : List ValidationCheckResult → Bool
  all_checks_pass [] = true
  all_checks_pass (c ∷ cs) = c.passed && all_checks_pass cs

  abbrev pub summarise : (all_passed : Bool) → List ValidationCheckResult → Summary
  summarise true checks =
      all_healthy (length checks) (map (λ c. c.name) (keep (λ c. c.passed) checks))
  summarise false checks =
      let failed = keep (λ c. not c.passed) checks in
      some_failed (length failed) (length checks) (map (λ c. (c.name, c.error)) failed)

  module _ (nought : Rate) (add : Rate → Rate → Rate) (at_most : Rate → Rate → Bool) where
    -- One round of the loop over the metrics.
    abbrev pub add_latest : Rate → List Rate → Rate
    add_latest total [] = total
    add_latest total (v ∷ vs) = add total (last_value v vs)

    unfoldable pub total_rate : Rate → List MetricData → Rate
    total_rate total [] = total
    total_rate total (m ∷ ms) = total_rate (add_latest total m.values) ms

    -- The common body of `_check_http_5xx_rate` and `_check_alert_cleared`.
    abbrev pub check_rate :
        CheckName → (threshold : Rate) → Option (List MetricData) → ValidationCheckResult
    check_rate name threshold none = failed_check name "prometheus" raised_exception
    check_rate name threshold (some []) = failed_check name "prometheus" no_metric_data
    check_rate name threshold (some (m ∷ ms)) =
        let total = total_rate nought (m ∷ ms) in
        if at_most total threshold
        then passed_check name "prometheus"
        else failed_check name "prometheus" (rate_too_high total)

    abbrev pub check_http_5xx_rate :
        (threshold : Rate) → Option (List MetricData) → ValidationCheckResult
    check_http_5xx_rate = check_rate http_5xx_rate

    abbrev pub check_alert_cleared :
        (threshold : Rate) → Option (List MetricData) → ValidationCheckResult
    check_alert_cleared = check_rate alert_cleared

    abbrev pub run_checks : (threshold : Rate) → ActionType → Signals → List ValidationCheckResult
    run_checks threshold action_type signals =
        check_target_postcondition action_type signals.target_reply
        ∷ check_service_health signals.health_reply
        ∷ check_http_5xx_rate threshold signals.error_rate_reply
        ∷ check_alert_cleared threshold signals.alert_reply
        ∷ []

    unfoldable pub validate_recovery :
        (threshold : Rate) (started_at completed_at : ℕ)
        → RemediationAction
        → Signals
        → RecoveryResult
    validate_recovery threshold started_at completed_at action signals =
        let checks = run_checks threshold action.action_type signals in
        let all_passed = all_checks_pass checks in
        record {
          action_id = action.id;
          passed = all_passed;
          status = status_of all_passed;
          started_at = started_at;
          completed_at = completed_at;
          summary = summarise all_passed checks;
          checks = checks;
        }

-- `check_recovered` of the registered service, none where it raises.
abbrev pub reached : Requested × ℕ → Option Bool
reached (exhausted, sent) = some false
reached (raised, sent) = none
reached (received r, sent) = some (r.status_code == 200)

unfoldable pub check_remediation_recovered : (server : ℕ → Reply) → ActionType → Option Bool
check_remediation_recovered server reset_demo_failure = (check_recovered server).0
check_remediation_recovered server restart_registered_service =
    reached (request_with_retry server 0)
