-- ===== src/Policy/Targets.antt =====
-- The target check and the parameter validation of core/policy.py, against a description of what
-- parameters are accepted.
use fault_warden.Base.{
  ◌≡◌, refl, true, Option, none, some, List, [], ◌∷◌, String, str_eq, eq_iff, arith, if◌then◌else◌,
  All, nonempty,
}
use fault_warden.Schemas.{
  ActionType, reset_demo_failure, restart_registered_service, action_value, Parameters,
  reset_demo_failure_parameters, restart_registered_service_parameters, dict, opaque,
  RemediationProposal, RemediationSettings,
}
use fault_warden.Policy.{
  registry_entry, parse_action_type, extract_target, dict_fits, dict_get, validate_parameters,
  is_allowed_target,
}

-- Every entry of the dict sets the one field to the one target.
abbrev pub FitsEntry : String → String × Option String → Type 0
FitsEntry field (k, v) = (k ≡ field) × (v ≡ some "demo-service")

-- Parameters that name the demo service, and nothing else, in the form that the action wants.
abbrev pub TargetsDemo : ActionType → Parameters → Type 0
TargetsDemo reset_demo_failure (reset_demo_failure_parameters service) = service ≡ "demo-service"
TargetsDemo reset_demo_failure (dict entries) =
    (nonempty entries ≡ true) × All (FitsEntry "service") entries
TargetsDemo restart_registered_service (restart_registered_service_parameters service_id) =
    service_id ≡ "demo-service"
TargetsDemo restart_registered_service (dict entries) =
    (nonempty entries ≡ true) × All (FitsEntry "service_id") entries
TargetsDemo _ _ = ⊥

-- What makes a proposal for `action_type` acceptable at all.
pub record IsAdmissible (settings : RemediationSettings) (proposal : RemediationProposal)
    (action_type : ActionType) : Type 0 where
  pub enabled : settings.enabled ≡ true
  pub names : proposal.action_type ≡ action_value action_type
  pub targets : TargetsDemo action_type proposal.parameters

pub parse-action_value : (t : ActionType) → parse_action_type (action_value t) ≡ some t
parse-action_value reset_demo_failure = refl
parse-action_value restart_registered_service = refl

pub parse_inverse :
    (text : String) {t : ActionType} → parse_action_type text ≡ some t → text ≡ action_value t
parse_inverse text {t = reset_demo_failure} h =
    ground (arith, eq_iff text "RESET_DEMO_FAILURE", eq_iff text "RESTART_REGISTERED_SERVICE")
parse_inverse text {t = restart_registered_service} h =
    ground (arith, eq_iff text "RESET_DEMO_FAILURE", eq_iff text "RESTART_REGISTERED_SERVICE")

dict_fits_sound :
    (field : String) (es : List (String × Option String))
    → dict_fits field es ≡ true
    → All (FitsEntry field) es
dict_fits_sound field [] h = tt
dict_fits_sound field ((k, none) ∷ es) h = absurd (grind arith)
dict_fits_sound field ((k, some v) ∷ es) h =
    ground (arith, dict_fits_sound field es, eq_iff k field, eq_iff v "demo-service")

dict_fits_complete :
    (field : String) (es : List (String × Option String))
    → All (FitsEntry field) es
    → dict_fits field es ≡ true
dict_fits_complete field [] h = refl
dict_fits_complete field ((k, none) ∷ es) h = absurd (ground arith)
dict_fits_complete field ((k, some v) ∷ es) h =
    ground (arith, dict_fits_complete field es, eq_iff k field, eq_iff v "demo-service")

-- The model that validation returns.
abbrev pub demo_parameters : ActionType → Parameters
demo_parameters reset_demo_failure = reset_demo_failure_parameters "demo-service"
demo_parameters restart_registered_service = restart_registered_service_parameters "demo-service"

dict_get-fits :
    (field key : String) (es : List (String × Option String))
    → All (FitsEntry field) es
    → nonempty es ≡ true
    → dict_get key es ≡ (if str_eq field key then some "demo-service" else none)
dict_get-fits field key [] h ne = cc
dict_get-fits field key ((k, v) ∷ []) h ne = ground (arith, eq_iff k key, eq_iff field key)
dict_get-fits field key ((k, v) ∷ e ∷ es) h ne =
    ground (arith, eq_iff k key, eq_iff field key, dict_get-fits field key (e ∷ es) h.1 refl)

-- The two checks of `evaluate_policy` pass.
abbrev pub Accepts : ActionType → Parameters → Type 0
Accepts t p =
    (is_allowed_target (extract_target p) (registry_entry t).allowed_targets ≡ true)
    × (validate_parameters t p ≡ some (demo_parameters t))

pub TargetsDemo-Accepts : (t : ActionType) (p : Parameters) → TargetsDemo t p → Accepts t p
TargetsDemo-Accepts reset_demo_failure (reset_demo_failure_parameters s) h =
    ground (arith, eq_iff s "demo-service")
TargetsDemo-Accepts reset_demo_failure (dict es) h =
    ground
      (arith, dict_fits_complete "service" es h.1, dict_get-fits "service" "service" es h.1 h.0)
TargetsDemo-Accepts restart_registered_service (restart_registered_service_parameters s) h =
    ground (arith, eq_iff s "demo-service")
TargetsDemo-Accepts restart_registered_service (dict es) h = ground (
  arith,
  dict_fits_complete "service_id" es h.1,
  dict_get-fits "service_id" "service" es h.1 h.0,
  dict_get-fits "service_id" "service_id" es h.1 h.0,
)
TargetsDemo-Accepts reset_demo_failure (restart_registered_service_parameters s) h = absurd h
TargetsDemo-Accepts reset_demo_failure opaque h = absurd h
TargetsDemo-Accepts restart_registered_service (reset_demo_failure_parameters s) h = absurd h
TargetsDemo-Accepts restart_registered_service opaque h = absurd h

nonempty-extract_target :
    (es : List (String × Option String))
    → is_allowed_target (extract_target (dict es)) ("demo-service" ∷ []) ≡ true
    → nonempty es ≡ true
nonempty-extract_target [] h = cc
nonempty-extract_target (e ∷ es) h = refl

pub Accepts-TargetsDemo :
    (t : ActionType) (p : Parameters) {q : Parameters}
    → is_allowed_target (extract_target p) (registry_entry t).allowed_targets ≡ true
    → validate_parameters t p ≡ some q
    → TargetsDemo t p
Accepts-TargetsDemo reset_demo_failure (reset_demo_failure_parameters s) h v =
    ground (arith, eq_iff s "demo-service")
Accepts-TargetsDemo reset_demo_failure (dict es) h v =
    ground (arith, dict_fits_sound "service" es, nonempty-extract_target es h)
Accepts-TargetsDemo restart_registered_service (restart_registered_service_parameters s) h v =
    ground (arith, eq_iff s "demo-service")
Accepts-TargetsDemo restart_registered_service (dict es) h v =
    ground (arith, dict_fits_sound "service_id" es, nonempty-extract_target es h)
Accepts-TargetsDemo reset_demo_failure (restart_registered_service_parameters s) h v = cc
Accepts-TargetsDemo reset_demo_failure opaque h v = cc
Accepts-TargetsDemo restart_registered_service (reset_demo_failure_parameters s) h v = cc
Accepts-TargetsDemo restart_registered_service opaque h v = cc
