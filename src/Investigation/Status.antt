-- ===== src/Investigation/Status.antt =====
-- When services/investigation_service.py resolves an incident.
use fault_warden.Base.{
  ◌≡◌, ◌↔◌, refl, sym, ap, subst, Bool, true, false, not, Option, none, some, List, arith,
  if◌then◌else◌, nonempty, is_some, some_unique,
}
use fault_warden.Schemas.{RemediationProposal, RemediationAction, RootCauseAnalysis}
use fault_warden.Audit.{RemediationResult}
use fault_warden.Graph.{
  State, action_of, validate_action, validate_result, validate_remediation_node,
}
use fault_warden.Investigation.{
  IncidentStatus, remediation_proposed, root_cause_identified, resolved, incident_failed,
  decide_terminal_status,
}

-- The execution succeeded, and the validator confirmed the recovery.
abbrev pub HasRecovered : Option RemediationResult → (answer : Option Bool) → Type 0
HasRecovered none answer = ⊥
HasRecovered (some result) answer = (result.success ≡ true) × (answer ≡ some true)

module _ (proposals : List RemediationProposal) (cause : Option RootCauseAnalysis) where
  -- The incident is resolved with a resolution text.
  abbrev pub Resolves : Option Bool → Type 0
  Resolves passed = decide_terminal_status passed proposals cause ≡ (resolved, true)

  unchecked_not_resolved : ¬ Resolves none
  unfolding decide_terminal_status
  unchecked_not_resolved h = go (nonempty proposals) (is_some cause) h
    where
      unvalidated : Bool → Bool → IncidentStatus × Bool
      unvalidated b c =
          if b
          then (remediation_proposed, false)
          else if c
          then (root_cause_identified, false)
          else (incident_failed, false)

      go : (b c : Bool) → unvalidated b c ≡ (resolved, true) → ⊥
      go true c h = absurd (ground arith)
      go false true h = absurd (ground arith)
      go false false h = absurd (ground arith)

  Resolves-some : (b : Bool) → Resolves (some b) ↔ (b ≡ true)
  unfolding decide_terminal_status
  Resolves-some true = ((λ h. refl), (λ h. refl))
  Resolves-some false = ((λ h. absurd (ground arith)), (λ h. absurd (ground arith)))

  module _ (s : State) where
    acted :
        (t : State) (answer : Option Bool) (o : Option RemediationAction)
        → validate_action s answer o ≡ some t
        → Resolves t.remediation_validation_passed ↔ (answer ≡ some true)
    acted t answer none h = absurd (ground arith)
    acted t none (some a) h =
        let passed = ap (λ x. x.remediation_validation_passed) (some_unique t _ _ h refl) in
        (
          λ r. absurd (let no = (Resolves-some false).0 (subst Resolves passed r) in ground arith),
          λ e. absurd (ground arith),
        )
    acted t (some b) (some a) h =
        let passed = ap (λ x. x.remediation_validation_passed) (some_unique t _ _ h refl) in
        (
          λ r. ap some ((Resolves-some b).0 (subst Resolves passed r)),
          λ e. subst Resolves (sym passed) ((Resolves-some b).1 (ground arith)),
        )

    unchecked :
        (t : State)
        → some (record s { remediation_validation_passed = none }) ≡ some t
        → ¬ Resolves t.remediation_validation_passed
    unchecked t h r =
        unchecked_not_resolved
          (subst Resolves (ap (λ x. x.remediation_validation_passed) (some_unique t _ _ h refl)) r)

    checked :
        (t : State) (answer : Option Bool) (success : Bool)
        → (if not success
            then some (record s { remediation_validation_passed = none })
            else validate_action s answer (action_of s.remediation_policy_result))
          ≡ some t
        → Resolves t.remediation_validation_passed ↔ ((success ≡ true) × (answer ≡ some true))
    checked t answer true h =
        let both = acted t answer (action_of s.remediation_policy_result) h in
        ((λ r. (refl, both.0 r)), (λ e. both.1 e.1))
    checked t answer false h = ((λ r. absurd (unchecked t h r)), (λ e. absurd (ground arith)))

    resulted :
        (t : State) (answer : Option Bool) (o : Option RemediationResult)
        → validate_result s answer o ≡ some t
        → Resolves t.remediation_validation_passed ↔ HasRecovered o answer
    resulted t answer none h = ((λ r. absurd (unchecked t h r)), (λ e. absurd e))
    resulted t answer (some result) h = checked t answer result.success h

    -- After the validation node the incident is set to resolved, with a resolution text, exactly if
    -- the executor reported success and the validator confirmed the recovery: a validator that
    -- raises or denies, a failed execution and no execution leave it unresolved.
    pub incident_is_resolved_iff :
        (t : State) (answer : Option Bool)
        → validate_remediation_node s answer ≡ some t
        → Resolves t.remediation_validation_passed ↔ HasRecovered s.remediation_result answer
    unfolding validate_remediation_node
    incident_is_resolved_iff t answer h = resulted t answer s.remediation_result h
