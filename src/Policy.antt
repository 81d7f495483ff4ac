-- ===== src/Policy.antt =====
-- core/policy.py: the registry and `evaluate_policy`. Eligibility and ranking are child modules.
pub mod Eligibility
pub mod Ranking
pub mod Selection
pub mod Advisory
pub mod Targets
pub mod Decisions
use fault_warden.Base.{
  ℕ, Bool, true, false, ◌&&◌, not, Option, none, some, List, [], ◌∷◌, String, ltb, str_eq,
  if◌then◌else◌, any,
}
use fault_warden.Schemas.{
  SafetyLevel, level_1_safe_automatic, level_2_human_approval_required, level_value, ActionType,
  reset_demo_failure, restart_registered_service, Parameters, reset_demo_failure_parameters,
  restart_registered_service_parameters, dict, opaque, RemediationProposal, rem_exec,
  RemediationAction, pipeline_disabled, not_registered, target_not_allowed, validation_failed,
  exceeds_threshold, PolicyResult, allowed_action, approval_required_action, rejected_action,
  RemediationSettings,
}

pub data ActionIdempotency : Type 0 where
  idempotent non_idempotent manual_reconciliation : ActionIdempotency

pub record PolicyRegistryEntry : Type 0 where
  pub policy_level : SafetyLevel
  pub executor : String
  pub allowed_targets : List String
  pub idempotency : ActionIdempotency

-- `POLICY_REGISTRY`, by its key.
abbrev pub registry_entry : ActionType → PolicyRegistryEntry
registry_entry reset_demo_failure = record {
  policy_level = level_1_safe_automatic;
  executor = "demo_service.reset_failure_mode";
  allowed_targets = "demo-service" ∷ [];
  idempotency = idempotent;
}
registry_entry restart_registered_service = record {
  policy_level = level_2_human_approval_required;
  executor = "registered_service.restart_simulated";
  allowed_targets = "demo-service" ∷ [];
  idempotency = idempotent;
}

-- The member of the StrEnum that is equal to a text, `ActionType(text)`.
abbrev pub parse_action_type : String → Option ActionType
parse_action_type text =
    if str_eq text "RESET_DEMO_FAILURE"
    then some reset_demo_failure
    else if str_eq text "RESTART_REGISTERED_SERVICE"
    then some restart_registered_service
    else none

-- `parameters.get(key)` of a dict; a missing key is None.
abbrev pub dict_get : String → List (String × Option String) → Option String
dict_get key [] = none
dict_get key ((k, v) ∷ entries) = if str_eq k key then v else dict_get key entries

-- `a or b` on texts and None: the empty text is false too.
abbrev pub or_else : Option String → Option String → Option String
or_else none b = b
or_else (some text) b = if str_eq text "" then b else some text

-- `_extract_target`
abbrev pub extract_target : Parameters → Option String
extract_target (reset_demo_failure_parameters service) = some service
extract_target (restart_registered_service_parameters service_id) = some service_id
extract_target (dict entries) = or_else (dict_get "service" entries) (dict_get "service_id" entries)
extract_target opaque = none

-- `target in entry.allowed_targets`; None is in no set of texts.
abbrev pub is_allowed_target : Option String → List String → Bool
is_allowed_target none allowed = false
is_allowed_target (some target) allowed = any (str_eq target) allowed

-- `Literal["demo-service"]`: a dict entry of another name is refused (`extra="forbid"`), and so is
-- another value; a missing key takes the default, "demo-service".
abbrev pub dict_fits : String → List (String × Option String) → Bool
dict_fits field [] = true
dict_fits field ((k, none) ∷ entries) = false
dict_fits field ((k, some v) ∷ entries) =
    str_eq k field && (str_eq v "demo-service" && dict_fits field entries)

-- `model_validate` of the parameters, unless they are of the class already. The result is the
-- validated model, or none where pydantic raises.
abbrev pub validate_parameters : ActionType → Parameters → Option Parameters
validate_parameters reset_demo_failure (reset_demo_failure_parameters service) =
    some (reset_demo_failure_parameters service)
validate_parameters reset_demo_failure (dict entries) =
    if dict_fits "service" entries
    then some (reset_demo_failure_parameters "demo-service")
    else none
validate_parameters restart_registered_service (restart_registered_service_parameters service_id) =
    some (restart_registered_service_parameters service_id)
validate_parameters restart_registered_service (dict entries) =
    if dict_fits "service_id" entries
    then some (restart_registered_service_parameters "demo-service")
    else none
validate_parameters _ _ = none

-- Step 5 of `evaluate_policy`.
abbrev pub decide_action : RemediationSettings → RemediationAction → PolicyResult
decide_action settings action =
    if action.approval_required
    then approval_required_action action
        (exceeds_threshold action.policy_level settings.auto_execute_max_safety_level)
    else allowed_action action

-- Step 4: the action, with the validated parameters.
abbrev pub build_action :
    RemediationSettings
    → (action_id : ℕ) → RemediationProposal
    → ActionType
    → Parameters
    → RemediationAction
build_action settings action_id proposal action_type parameters = record {
  id = action_id;
  proposal_id = proposal.id;
  policy_level = (registry_entry action_type).policy_level;
  approval_required =
      ltb settings.auto_execute_max_safety_level
        (level_value (registry_entry action_type).policy_level);
  executor = (registry_entry action_type).executor;
  idempotency_key = some (rem_exec proposal.id);
  action_type = action_type;
  validated_parameters = parameters;
}

-- Steps 4 and 5 for a registered action type.
abbrev pub evaluate_validated :
    RemediationSettings
    → (action_id : ℕ) → RemediationProposal
    → ActionType
    → Option Parameters
    → PolicyResult
evaluate_validated settings action_id proposal action_type none =
    rejected_action proposal.id proposal.action_type validation_failed
evaluate_validated settings action_id proposal action_type (some parameters) =
    decide_action settings (build_action settings action_id proposal action_type parameters)

-- Steps 3 to 5, after the registry lookup.
abbrev pub evaluate_registered :
    RemediationSettings → (action_id : ℕ) → RemediationProposal → Option ActionType → PolicyResult
evaluate_registered settings action_id proposal none =
    rejected_action proposal.id proposal.action_type (not_registered proposal.action_type)
evaluate_registered settings action_id proposal (some action_type) =
    let target = extract_target proposal.parameters in
    if is_allowed_target target (registry_entry action_type).allowed_targets
    then evaluate_validated settings action_id proposal action_type
        (validate_parameters action_type proposal.parameters)
    else rejected_action proposal.id proposal.action_type
        (target_not_allowed target proposal.action_type)

-- `action_id` is the uuid4 that the action is given.
unfoldable pub evaluate_policy :
    RemediationSettings → (action_id : ℕ) → RemediationProposal → PolicyResult
evaluate_policy settings action_id proposal =
    if not settings.enabled
    then rejected_action proposal.id proposal.action_type pipeline_disabled
    else evaluate_registered settings action_id proposal (parse_action_type proposal.action_type)
