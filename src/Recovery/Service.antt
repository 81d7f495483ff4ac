-- ===== src/Recovery/Service.antt =====
-- The recovery checks of the executors, which the investigation service hands to the graph.
use fault_warden.Base.{
  List, ℕ, ◌≡◌, ◌↔◌, Bool, true, false, Option, none, some, ◌==◌, ==_iff, if◌then◌else◌, arith,
  refl, ap,
}
use fault_warden.Schemas.{
  RemediationProposal, RemediationAction, RootCauseAnalysis, ActionType, reset_demo_failure,
  restart_registered_service,
}
use fault_warden.Executors.{
  Field, missing, flag_value, other_value, Reply, Requested, exhausted, raised, received, is_reset,
  recovered_after, request_with_retry, check_recovered,
}
use fault_warden.Audit.{RemediationResult}
use fault_warden.Recovery.{reached, check_remediation_recovered}
use fault_warden.Graph.{action_of, State, validate_remediation_node}
use fault_warden.Investigation.Status.{Resolves, HasRecovered, incident_is_resolved_iff}

-- The service has answered 200, and to a reset that its error mode is False.
abbrev pub ConfirmsRecovery : ActionType → Requested → Type 0
ConfirmsRecovery reset_demo_failure (received r) =
    (r.status_code ≡ 200) × (r.json ≡ some (flag_value false))
ConfirmsRecovery restart_registered_service (received r) = r.status_code ≡ 200
ConfirmsRecovery _ _ = ⊥

tested_iff : (b c : Bool) → (some (if b then c else false) ≡ some true) ↔ ((b ≡ true) × (c ≡ true))
tested_iff true c = ((λ h. (refl, ground arith)), (λ h. ap some h.1))
tested_iff false c = ((λ h. absurd (ground arith)), (λ h. absurd (ground arith)))

is_reset_iff : (o : Option Field) → (is_reset o ≡ true) ↔ (o ≡ some (flag_value false))
is_reset_iff none = ((λ h. absurd (ground arith)), (λ h. absurd (ground arith)))
is_reset_iff (some missing) = ((λ h. absurd (ground arith)), (λ h. absurd (ground arith)))
is_reset_iff (some (flag_value true)) = ((λ h. absurd (ground arith)), (λ h. absurd (ground arith)))
is_reset_iff (some (flag_value false)) = ((λ h. refl), (λ h. refl))
is_reset_iff (some (other_value truth)) =
    ((λ h. absurd (ground arith)), (λ h. absurd (ground arith)))

reset_confirmed :
    (p : Requested × ℕ)
    → ((recovered_after p).0 ≡ some true) ↔ ConfirmsRecovery reset_demo_failure p.0
reset_confirmed (exhausted, sent) = ((λ h. absurd (ground arith)), (λ h. absurd h))
reset_confirmed (raised, sent) = ((λ h. absurd (ground arith)), (λ h. absurd h))
reset_confirmed (received r, sent) =
    let at = ==_iff r.status_code 200 in
    let flag = is_reset_iff r.json in
    let both = tested_iff (r.status_code == 200) (is_reset r.json) in
    (
      (λ h. (let (status, value) = both.0 h in (at.0 status, flag.0 value))),
      (λ h. both.1 (at.1 h.0, flag.1 h.1)),
    )

restart_confirmed :
    (p : Requested × ℕ) → (reached p ≡ some true) ↔ ConfirmsRecovery restart_registered_service p.0
restart_confirmed (exhausted, sent) = ((λ h. absurd (ground arith)), (λ h. absurd h))
restart_confirmed (raised, sent) = ((λ h. absurd (ground arith)), (λ h. absurd h))
restart_confirmed (received r, sent) =
    let at = ==_iff r.status_code 200 in ((λ h. at.0 (ground arith)), (λ h. ap some (at.1 h)))

module _ (server : ℕ → Reply) where
  check_recovered_iff :
      (action_type : ActionType)
      → (check_remediation_recovered server action_type ≡ some true)
        ↔ ConfirmsRecovery action_type (request_with_retry server 0).0
  unfolding check_remediation_recovered check_recovered
  check_recovered_iff reset_demo_failure = reset_confirmed (request_with_retry server 0)
  check_recovered_iff restart_registered_service = restart_confirmed (request_with_retry server 0)

  -- The execution succeeded, and the requests that follow it confirm the recovery.
  abbrev pub IsConfirmed : ActionType → Option RemediationResult → Type 0
  IsConfirmed action_type none = ⊥
  IsConfirmed action_type (some result) =
      (result.success ≡ true) × ConfirmsRecovery action_type (request_with_retry server 0).0

  IsConfirmed-iff :
      (action_type : ActionType) (o : Option RemediationResult)
      → HasRecovered o (check_remediation_recovered server action_type) ↔ IsConfirmed action_type o
  IsConfirmed-iff action_type none = ((λ h. h), (λ h. h))
  IsConfirmed-iff action_type (some result) =
      let both = check_recovered_iff action_type in
      ((λ h. (h.0, both.0 h.1)), (λ h. (h.0, both.1 h.1)))

  -- With the recovery check that the investigation service hands to the graph, the incident is set
  -- to resolved after the validation node exactly if the executor reported success and one of the
  -- three requests of the check was answered 200, to a reset also that the error mode is False.
  pub service_check_resolves_iff :
      (proposals : List RemediationProposal) (cause : Option RootCauseAnalysis) (s t : State)
      (a : RemediationAction)
      → action_of s.remediation_policy_result ≡ some a
      → validate_remediation_node s (check_remediation_recovered server a.action_type) ≡ some t
      → Resolves proposals cause t.remediation_validation_passed
        ↔ IsConfirmed a.action_type s.remediation_result
  service_check_resolves_iff proposals cause s t a e h =
      let answer = check_remediation_recovered server a.action_type in
      let resolves = incident_is_resolved_iff proposals cause s t answer h in
      let confirmed = IsConfirmed-iff a.action_type s.remediation_result in
      ((λ r. confirmed.0 (resolves.0 r)), (λ c. resolves.1 (confirmed.1 c)))
