-- ===== src/Limits/Gate.antt =====
-- When the policy node of graph/nodes/remediation_policy.py lets an action through.
use fault_warden.Base.{
  ℕ, sym, ◌∙◌, ap, subst, ◌≡◌, ◌≤◌, ◌<◌, ◌⊎◌, refl, Bool, true, false, not, Option, none, some,
  List, [], ◌∷◌, String, arith, if◌then◌else◌, nonempty, In,
}
use fault_warden.Schemas.{
  RemediationProposal, RemediationAction, PolicyResult, allowed_action, approval_required_action,
  rejected_action, RootCauseAnalysis, RemediationSettings, EligibilityResult, eligible_reason,
}
use fault_warden.Policy.{evaluate_policy}
use fault_warden.Policy.Decisions.{IsDecision, evaluate_policy-IsDecision}
use fault_warden.Policy.Eligibility.{
  NoUnverified, Explains, check_remediation_eligibility, check_remediation_eligibility-Explains,
}
use fault_warden.Policy.Ranking.{
  ineligible_incident, Candidate, collect_candidates, evaluate_all, evaluate_and_rank_proposals,
}
use fault_warden.Policy.Selection.{IsSelection, evaluate_and_rank-IsSelection}
use fault_warden.Limits.{
  PolicyInput, enforce_remediation_limits, limit_selected, blocked, select_remediation,
  evaluate_remediation_policy_node,
}
use fault_warden.Limits.Enforcement.{
  IsExecutable, collect_candidates-IsEvaluated, AutoWithin, enforce-IsExecutable, some_inj,
  only_eligible, first_rejected,
}

module _ (lower : String → String) (settings : RemediationSettings) (max_iterations : ℕ)
    (uuid : ℕ → ℕ) (input : PolicyInput) where
  -- Everything that must hold before an action is executed, or offered to a human.
  pub record Permits (r : PolicyResult) : Type 0 where
    pub proposal : RemediationProposal
    pub proposed : In proposal input.remediation_proposals
    pub decided : IsDecision settings proposal r
    pub cause : RootCauseAnalysis
    pub has_cause : input.root_cause ≡ some cause
    pub confident : settings.min_root_cause_confidence ≤ cause.confidence
    pub not_unverified : NoUnverified input.selected_hypothesis
    pub has_evidence :
        (nonempty cause.supporting_evidence_ids ≡ true) ⊎ (nonempty input.evidence ≡ true)
    pub attempts_left : input.prior_attempt_count < settings.max_remediation_attempts_per_incident
    pub autos_left :
        AutoWithin r input.prior_auto_execution_count settings.max_auto_remediations_per_incident

  -- `r` is the policy's result for one of the proposals.
  abbrev IsResultOf : List RemediationProposal → PolicyResult → Type 0
  IsResultOf ps r =
      (p : RemediationProposal) × In p ps × ((n : ℕ) × (evaluate_policy settings n p ≡ r))

  chosen-IsResultOf :
      (p : RemediationProposal) (ps : List RemediationProposal) (cs : List Candidate)
      (r : PolicyResult) (a : RemediationAction) (selected : Option PolicyResult)
      → collect_candidates settings uuid 0 (p ∷ ps) ≡ cs
      → IsSelection lower input.root_cause input.classification cs
          (evaluate_all settings uuid 0 (p ∷ ps))
          selected
      → selected ≡ some r
      → IsExecutable a r
      → IsResultOf (p ∷ ps) r
  unfolding collect_candidates evaluate_all
  chosen-IsResultOf p ps [] r a selected left s e h = absurd (
      first_rejected p (evaluate_policy settings (uuid 0) p) _ a left
        (subst (IsExecutable a) (cc (s, e)) h))
  chosen-IsResultOf p ps (c ∷ cs) r a selected left (d, found, same, least) e h =
      let known = collect_candidates-IsEvaluated settings uuid 0 (p ∷ ps) d (rw left found) in
      (d.proposal, known.0, (known.1.0, cc (known.1.1, same, e)))

  selection-IsResultOf :
      (p : RemediationProposal) (ps : List RemediationProposal) (r : PolicyResult)
      (a : RemediationAction)
      → (evaluate_and_rank_proposals lower input.root_cause input.classification settings uuid
          (p ∷ ps)).0
        ≡ some r
      → IsExecutable a r
      → IsResultOf (p ∷ ps) r
  selection-IsResultOf p ps r a e h =
      chosen-IsResultOf p ps _ r a _ refl
        (evaluate_and_rank-IsSelection lower input.root_cause input.classification settings uuid
          (p ∷ ps)).0
        e h

  -- What the limits have let through.
  abbrev IsWithin : Option PolicyResult → PolicyResult → Type 0
  IsWithin o r =
      (o ≡ some r)
      × (input.prior_attempt_count < settings.max_remediation_attempts_per_incident)
      × AutoWithin r input.prior_auto_execution_count settings.max_auto_remediations_per_incident

  enforced :
      (q r : PolicyResult) (a : RemediationAction)
      → enforce_remediation_limits q input.prior_attempt_count input.prior_auto_execution_count
          settings.max_remediation_attempts_per_incident settings.max_auto_remediations_per_incident
        ≡ r
      → IsExecutable a r
      → IsWithin (some q) r
  enforced q r a e h =
      let (same, attempts, autos) =
        enforce-IsExecutable q _ _ _ _ a (subst (IsExecutable a) (sym e) h) in
      let q≡r = sym same ∙ e in
      (
        ap some q≡r,
        attempts,
        subst
            (λ x.
              AutoWithin x input.prior_auto_execution_count
                settings.max_auto_remediations_per_incident)
            q≡r autos,
      )

  limited :
      (o : Option PolicyResult) (r : PolicyResult) (a : RemediationAction)
      → limit_selected lower settings max_iterations uuid input o ≡ some r
      → IsExecutable a r
      → IsWithin o r
  unfolding limit_selected
  limited none r a e h = absurd (ground arith)
  limited (some (rejected_action id name reason)) r a e h =
      absurd (subst (IsExecutable a) (sym (some_inj e)) h)
  limited (some (allowed_action b)) r a e h = enforced _ r a (some_inj e) h
  limited (some (approval_required_action b w)) r a e h = enforced _ r a (some_inj e) h

  selected-Permits :
      (eligibility : EligibilityResult) (ps : List RemediationProposal) (r : PolicyResult)
      (a : RemediationAction)
      → (select_remediation lower settings max_iterations uuid input eligibility
          ps).remediation_policy_result
        ≡ some r
      → IsExecutable a r
      → IsWithin (some r) r × IsResultOf ps r
  unfolding select_remediation blocked
  selected-Permits eligibility [] r a e h = absurd (ground arith)
  selected-Permits eligibility (p ∷ ps) r a e h =
      let (chosen, attempts, autos) = limited _ r a e h in
      ((refl, attempts, autos), selection-IsResultOf p ps r a chosen h)

  build_Permits :
      (o : Option RootCauseAnalysis) (r : PolicyResult)
      → input.root_cause ≡ o
      → Explains eligible_reason o input.selected_hypothesis input.evidence input.iteration_count
          max_iterations settings.min_root_cause_confidence
      → IsWithin (some r) r
      → IsResultOf input.remediation_proposals r
      → Permits r
  build_Permits none r e x within result = absurd x
  build_Permits (some cause) r e x within (p, found, (n, decided)) = record {
    proposal = p;
    proposed = found;
    decided = subst (IsDecision settings p) decided (evaluate_policy-IsDecision settings n p);
    cause = cause;
    has_cause = e;
    confident = x.1;
    not_unverified = x.0;
    has_evidence = x.2;
    attempts_left = within.1;
    autos_left = within.2;
  }

  node-Permits :
      (eligibility : EligibilityResult) (b : Bool) (r : PolicyResult) (a : RemediationAction)
      → check_remediation_eligibility input.root_cause input.selected_hypothesis input.evidence
          input.iteration_count max_iterations settings.min_root_cause_confidence
        ≡ eligibility
      → eligibility.eligible ≡ b
      → (if not b
          then blocked lower settings max_iterations uuid eligibility ineligible_incident
          else select_remediation lower settings max_iterations uuid input eligibility
              input.remediation_proposals).remediation_policy_result
        ≡ some r
      → IsExecutable a r
      → Permits r
  unfolding blocked
  node-Permits eligibility false r a same b e h = absurd (ground arith)
  node-Permits eligibility true r a same b e h =
      let explained =
        check_remediation_eligibility-Explains input.root_cause input.selected_hypothesis
          input.evidence input.iteration_count max_iterations settings.min_root_cause_confidence in
      let (within, result) = selected-Permits eligibility input.remediation_proposals r a e h in
      build_Permits input.root_cause r refl
        (only_eligible _ _ _ _ _ _ _ explained.0 (sym explained.1 ∙ ap (λ x. x.eligible) same ∙ b))
        within result

  -- An action that the policy node lets through, for execution at once or after an approval, is the
  -- decision that the policy promises on one of the proposals; the incident has a root cause at or
  -- above the minimal confidence, no unverified selected hypothesis and some evidence; and the
  -- attempts made, and for execution at once also the automatic executions, are below their limits.
  pub evaluate_remediation_policy_node-Permits :
      (r : PolicyResult) (a : RemediationAction)
      → (evaluate_remediation_policy_node lower settings max_iterations uuid
          input).remediation_policy_result
        ≡ some r
      → IsExecutable a r
      → Permits r
  unfolding evaluate_remediation_policy_node
  evaluate_remediation_policy_node-Permits r a e h = node-Permits _ _ r a refl refl e h
