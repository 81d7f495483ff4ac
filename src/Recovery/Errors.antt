-- ===== src/Recovery/Errors.antt =====
-- The names, errors and summary of the recovery validator's checks.
use fault_warden.Base.{
  ◌<◌, ℕ, suc, ◌≡◌, refl, ap, ◌∙◌, Bool, true, false, Option, none, some, List, [], ◌∷◌, arith,
  if◌then◌else◌, is_some, map, length, not, keep, ◌==◌,
}
use fault_warden.Schemas.{ActionType, reset_demo_failure, restart_registered_service}
use fault_warden.Executors.{missing, flag_value, other_value}
use fault_warden.Recovery.{
  failed_check, passed_check, unexpected_status, rate_too_high, total_rate, Body, check_error_mode,
  read_health, invalid_json, not_dict, dict, CheckName, target_postcondition, HttpResponse,
  MetricData, service_health, http_5xx_rate, alert_cleared, ValidationCheckResult, Summary,
  all_healthy, some_failed, all_checks_pass, summarise, check_target_postcondition,
  check_service_health, check_rate,
}

abbrev pub check_names : List CheckName
check_names = target_postcondition ∷ service_health ∷ http_5xx_rate ∷ alert_cleared ∷ []

length-map : {A B : Type 0} (f : A → B) (xs : List A) → length xs ≡ length (map f xs)
length-map f [] = refl
length-map f (x ∷ xs) = ap suc (length-map f xs)

module _ (Rate : Type 0) where
  -- A check that fails has an error, and one that passes has none.
  abbrev pub Explained : ValidationCheckResult Rate → Type 0
  Explained c = c.passed ≡ not (is_some c.error)

  -- The summary of a validation with this outcome.
  abbrev pub Summarises : (passed : Bool) → Summary Rate → Type 0
  Summarises true s = s ≡ all_healthy 4 check_names
  Summarises false s =
      (failed : ℕ) × (checks : List _) × (s ≡ some_failed failed 4 checks)
      × (failed ≡ length checks)
      × (0 < failed)

  -- A check with this name, which says why it failed if it did.
  abbrev pub IsNamed : CheckName → ValidationCheckResult Rate → Type 0
  IsNamed n c = (c.name ≡ n) × Explained c

  if-IsNamed :
      (b : Bool) {n : CheckName} (c d : ValidationCheckResult Rate)
      → IsNamed n c
      → IsNamed n d
      → IsNamed n (if b then c else d)
  if-IsNamed true c d h i = h
  if-IsNamed false c d h i = i

  error_mode-IsNamed : (b : Body) → IsNamed target_postcondition (check_error_mode Rate b)
  error_mode-IsNamed invalid_json = (refl, refl)
  error_mode-IsNamed not_dict = (refl, refl)
  error_mode-IsNamed (dict missing) = (refl, refl)
  error_mode-IsNamed (dict (flag_value true)) = (refl, refl)
  error_mode-IsNamed (dict (flag_value false)) = (refl, refl)
  error_mode-IsNamed (dict (other_value truth)) = (refl, refl)

  pub target-IsNamed :
      (t : ActionType) (o : Option HttpResponse)
      → IsNamed target_postcondition (check_target_postcondition Rate t o)
  unfolding check_target_postcondition
  target-IsNamed reset_demo_failure none = (refl, refl)
  target-IsNamed restart_registered_service none = (refl, refl)
  target-IsNamed restart_registered_service (some r) =
      if-IsNamed (r.status_code == 200) (passed_check Rate target_postcondition "demo-service")
        (failed_check Rate target_postcondition "demo-service" (unexpected_status r.status_code))
        (refl, refl) (refl, refl)
  target-IsNamed reset_demo_failure (some r) =
      if-IsNamed (not (r.status_code == 200))
        (failed_check Rate target_postcondition "demo-service" (unexpected_status r.status_code))
        (check_error_mode Rate r.body) (refl, refl) (error_mode-IsNamed r.body)

  body-IsNamed : (json : Bool) (b : Body) → IsNamed service_health (read_health Rate json b)
  body-IsNamed true invalid_json = (refl, refl)
  body-IsNamed true not_dict = (refl, refl)
  body-IsNamed true (dict f) = (refl, refl)
  body-IsNamed false b = (refl, refl)

  pub health-IsNamed :
      (o : Option HttpResponse) → IsNamed service_health (check_service_health Rate o)
  unfolding check_service_health
  health-IsNamed none = (refl, refl)
  health-IsNamed (some r) =
      if-IsNamed (r.status_code == 200) (read_health Rate r.content_type_is_json r.body)
        (failed_check Rate service_health "demo-service" (unexpected_status r.status_code))
        (body-IsNamed r.content_type_is_json r.body) (refl, refl)

  passing_kept :
      (cs : List (ValidationCheckResult Rate))
      → all_checks_pass Rate cs ≡ true
      → keep (λ c. c.passed) cs ≡ cs
  passing_kept [] h = refl
  passing_kept (c ∷ cs) h = ground (arith, passing_kept cs)

  failing_counted :
      (cs : List (ValidationCheckResult Rate))
      → all_checks_pass Rate cs ≡ false
      → 0 < length (keep (λ c. not c.passed) cs)
  failing_counted [] h = absurd (ground arith)
  failing_counted (c ∷ cs) h = ground (arith, failing_counted cs)

  pub summarises :
      (cs : List (ValidationCheckResult Rate))
      → length cs ≡ 4
      → map (λ c. c.name) cs ≡ check_names
      → (b : Bool) → all_checks_pass Rate cs ≡ b
      → Summarises b (summarise Rate b cs)
  summarises cs size names true h =
      ap (λ n. all_healthy n (map (λ c. c.name) (keep (λ c. c.passed) cs))) size
      ∙ ap (all_healthy 4) (ap (map (λ c. c.name)) (passing_kept cs h) ∙ names)
  summarises cs size names false h =
      let failing = keep (λ c. not c.passed) cs in
      let failed_checks = map (λ c. (c.name, c.error)) failing in
      (
        length failing,
        failed_checks,
        ap (λ n. some_failed (length failing) n failed_checks) size,
        length-map (λ c. (c.name, c.error)) failing,
        failing_counted cs h,
      )

  module _ (nought : Rate) (add : Rate → Rate → Rate) (at_most : Rate → Rate → Bool) where
    pub rate-IsNamed :
        (n : CheckName) (threshold : Rate) (o : Option (List (MetricData Rate)))
        → IsNamed n (check_rate Rate nought add at_most n threshold o)
    rate-IsNamed n threshold none = (refl, refl)
    rate-IsNamed n threshold (some []) = (refl, refl)
    rate-IsNamed n threshold (some (m ∷ ms)) =
        let total = total_rate Rate nought add at_most nought (m ∷ ms) in
        if-IsNamed (at_most total threshold) (passed_check Rate n "prometheus")
          (failed_check Rate n "prometheus" (rate_too_high total)) (refl, refl) (refl, refl)
