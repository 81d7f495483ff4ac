-- ===== src/Executors.antt =====
-- integrations/executors/demo_service.py, registered_service.py and the dispatch of their package:
-- the bounded executors.
--
-- The n-th request that an execution sends has the n-th reply of `server`, and an execution gives
-- its outcome, none where it raises, with the number of requests sent. Of a response the code reads the status, and of its
-- body what httpx and pydantic make of it. Texts and times of a result are left out, and
-- so is the health data that a restart reports as its state.
pub mod Requests
pub mod Contract
use fault_warden.Base.{ℕ, zero, suc, Bool, true, false, Option, none, some, ◌==◌, if◌then◌else◌}
use fault_warden.Schemas.{ActionType, reset_demo_failure, restart_registered_service}
use fault_warden.Audit.{
  RemediationExecutionStatus, execution_succeeded, execution_failed, execution_timed_out,
}

-- The value of the key "error_mode" of a JSON dict.
pub data Field : Type 0 where
  missing : Field
  flag_value : Bool → Field
  other_value : (truth : Bool) → Field

-- `json` is none where `resp.json()` raises or gives no dict; `error_mode_model` and `health_model`
-- are what `DemoServiceErrorModeResponse` and `DemoServiceHealthResponse` validate.
pub record Response : Type 0 where
  pub status_code : ℕ
  pub json : Option Field
  pub error_mode_model : Option Bool
  pub health_model : Bool

-- A request raises a transient error, raises another one, or is answered.
pub data Reply : Type 0 where
  transient_error other_error : Reply
  answered : Response → Reply

-- The outcome of a request with retries; another error is not caught.
pub data Requested : Type 0 where
  exhausted raised : Requested
  received : Response → Requested

pub record ExecutorResult : Type 0 where
  pub action_id : ℕ
  pub status : RemediationExecutionStatus
  pub success : Bool
  pub before_state : Option Bool
  pub after_state : Option Bool

abbrev pub max_retries : ℕ
max_retries = 2

abbrev pub failure :
    ℕ → RemediationExecutionStatus → (before_state after_state : Option Bool) → ExecutorResult
failure action_id status before_state after_state = record {
  action_id = action_id;
  status = status;
  success = false;
  before_state = before_state;
  after_state = after_state;
}

-- What one attempt comes to, with the outcome of the attempts after it.
abbrev pub after_reply : Reply → (sent : ℕ) → (later : Requested × ℕ) → Requested × ℕ
after_reply transient_error sent later = later
after_reply other_error sent later = (raised, sent)
after_reply (answered r) sent later = (received r, sent)

-- `check_recovered` of the demo service; none where it raises.
abbrev pub is_reset : Option Field → Bool
is_reset (some (flag_value false)) = true
is_reset _ = false

abbrev pub recovered_after : Requested × ℕ → Option Bool × ℕ
recovered_after (exhausted, sent) = (some false, sent)
recovered_after (raised, sent) = (none, sent)
recovered_after (received r, sent) =
    (some (if r.status_code == 200 then is_reset r.json else false), sent)

-- The end of `reset_failure_mode`, on the answer to the POST.
abbrev pub verify_reset : (action_id : ℕ) (before_state : Bool) → Option Bool → ExecutorResult
verify_reset action_id before_state none =
    failure action_id execution_failed (some before_state) none
verify_reset action_id before_state (some true) =
    failure action_id execution_failed (some before_state) (some true)
verify_reset action_id before_state (some false) = record {
  action_id = action_id;
  status = execution_succeeded;
  success = true;
  before_state = some before_state;
  after_state = some false;
}

abbrev pub after_post :
    (action_id : ℕ) (before_state : Bool) → Requested × ℕ → Option ExecutorResult × ℕ
after_post action_id before_state (exhausted, sent) =
    (some (failure action_id execution_timed_out (some before_state) none), sent)
after_post action_id before_state (raised, sent) = (none, sent)
after_post action_id before_state (received r, sent) = (
  some (
      if r.status_code == 200
      then verify_reset action_id before_state r.error_mode_model
      else failure action_id execution_failed (some before_state) none),
  sent,
)

-- `bool(before_json["error_mode"])`, none where the key is missing.
abbrev pub before_of : Option Field → Option Bool
before_of none = none
before_of (some missing) = none
before_of (some (flag_value b)) = some b
before_of (some (other_value truth)) = some truth

-- `restart`, a simulation: only the health endpoint is asked.
abbrev pub restart_answer : (action_id : ℕ) → Response → ExecutorResult
restart_answer action_id r =
    if r.status_code == 200
    then (if r.health_model
        then record {
          action_id = action_id;
          status = execution_succeeded;
          success = true;
          before_state = none;
          after_state = none;
        }
        else failure action_id execution_failed none none)
    else failure action_id execution_failed none none

abbrev pub after_health : (action_id : ℕ) → Requested × ℕ → Option ExecutorResult × ℕ
after_health action_id (exhausted, sent) =
    (some (failure action_id execution_timed_out none none), sent)
after_health action_id (raised, sent) = (none, sent)
after_health action_id (received r, sent) = (some (restart_answer action_id r), sent)

module _ (server : ℕ → Reply) where
  -- The loop over the attempts that are left; `sent` requests have been sent.
  unfoldable pub request_attempts : (attempts sent : ℕ) → Requested × ℕ
  request_attempts zero sent = (exhausted, sent)
  request_attempts (suc n) sent =
      after_reply (server sent) (suc sent) (request_attempts n (suc sent))

  -- `_request_with_retry`, and `_check_health_with_retry`
  abbrev pub request_with_retry : (sent : ℕ) → Requested × ℕ
  request_with_retry sent = request_attempts (suc max_retries) sent

  unfoldable pub check_recovered : Option Bool × ℕ
  check_recovered = recovered_after (request_with_retry 0)

  abbrev pub disable :
      (action_id sent : ℕ) → (before_state : Option Bool) → Option ExecutorResult × ℕ
  disable action_id sent none = (some (failure action_id execution_failed none none), sent)
  disable action_id sent (some before_state) =
      after_post action_id before_state (request_with_retry sent)

  abbrev pub after_get : (action_id : ℕ) → Requested × ℕ → Option ExecutorResult × ℕ
  after_get action_id (exhausted, sent) =
      (some (failure action_id execution_timed_out none none), sent)
  after_get action_id (raised, sent) = (none, sent)
  after_get action_id (received r, sent) =
      if r.status_code == 200
      then disable action_id sent (before_of r.json)
      else (some (failure action_id execution_failed none none), sent)

  unfoldable pub reset_failure_mode : (action_id : ℕ) → Option ExecutorResult × ℕ
  reset_failure_mode action_id = after_get action_id (request_with_retry 0)

  unfoldable pub restart : (action_id : ℕ) → Option ExecutorResult × ℕ
  restart action_id = after_health action_id (request_with_retry 0)

  unfoldable pub execute_remediation_action :
      ActionType → (action_id : ℕ) → Option ExecutorResult × ℕ
  execute_remediation_action reset_demo_failure action_id = reset_failure_mode action_id
  execute_remediation_action restart_registered_service action_id = restart action_id
