-- ===== src/Limits.antt =====
-- graph/nodes/remediation_policy.py: `_enforce_remediation_limits` and
-- `evaluate_remediation_policy_node`.
pub mod Enforcement
pub mod Gate
use fault_warden.Base.{ℕ, not, Option, none, some, List, [], ◌∷◌, String, leb, if◌then◌else◌}
use fault_warden.Schemas.{
  action_value, RemediationProposal, PolicyResult, allowed_action, approval_required_action,
  rejected_action, max_attempts_reached, max_auto_executions_reached, Hypothesis, RootCauseAnalysis,
  EvidenceItem, EligibilityResult, IncidentClassification, RemediationSettings,
}
use fault_warden.Policy.Eligibility.{check_remediation_eligibility}
use fault_warden.Policy.Ranking.{
  SelectionReason, ineligible_incident, no_proposals_generated, evaluate_and_rank_proposals,
}

-- `_extract_proposal_id_and_action_type`
abbrev pub extract_proposal_id_and_action_type : PolicyResult → ℕ × String
extract_proposal_id_and_action_type (rejected_action id name reason) = (id, name)
extract_proposal_id_and_action_type (allowed_action a) = (a.proposal_id, action_value a.action_type)
extract_proposal_id_and_action_type (approval_required_action a reason) =
    (a.proposal_id, action_value a.action_type)

-- The second limit, on automatic executions.
unfoldable pub enforce_auto_limit :
    PolicyResult → (prior_auto_execution_count max_auto_executions : ℕ) → PolicyResult
enforce_auto_limit (allowed_action a) prior_auto_execution_count max_auto_executions =
    if leb max_auto_executions prior_auto_execution_count
    then rejected_action a.proposal_id (action_value a.action_type)
        (max_auto_executions_reached max_auto_executions)
    else allowed_action a
enforce_auto_limit r prior_auto_execution_count max_auto_executions = r

unfoldable pub enforce_remediation_limits :
    PolicyResult
    → (prior_attempt_count prior_auto_execution_count max_attempts max_auto_executions : ℕ)
    → PolicyResult
unfolding enforce_auto_limit
enforce_remediation_limits r prior_attempt_count prior_auto_execution_count max_attempts max_autos =
    if leb max_attempts prior_attempt_count
    then (let (id, name) = extract_proposal_id_and_action_type r in
        rejected_action id name (max_attempts_reached max_attempts))
    else enforce_auto_limit r prior_auto_execution_count max_autos

-- What the node reads of the state.
pub record PolicyInput : Type 0 where
  pub remediation_proposals : List RemediationProposal
  pub root_cause : Option RootCauseAnalysis
  pub selected_hypothesis : Option Hypothesis
  pub evidence : List EvidenceItem
  pub classification : Option IncidentClassification
  pub iteration_count : ℕ
  pub prior_attempt_count : ℕ
  pub prior_auto_execution_count : ℕ

-- The keys of the returned dict.
pub record PolicyOutput : Type 0 where
  pub remediation_eligibility : EligibilityResult
  pub remediation_policy_result : Option PolicyResult
  pub remediation_all_policy_results : List PolicyResult
  pub remediation_selection_reason : SelectionReason

module _ (lower : String → String) (settings : RemediationSettings) (max_iterations : ℕ)
    (uuid : ℕ → ℕ) where
  -- Step 3; a rejection is left as it is.
  unfoldable pub limit_selected : PolicyInput → Option PolicyResult → Option PolicyResult
  limit_selected input none = none
  limit_selected input (some (rejected_action id name reason)) =
      some (rejected_action id name reason)
  limit_selected input (some r) = some (
      enforce_remediation_limits r input.prior_attempt_count input.prior_auto_execution_count
        settings.max_remediation_attempts_per_incident settings.max_auto_remediations_per_incident)

  unfoldable pub blocked : EligibilityResult → SelectionReason → PolicyOutput
  blocked eligibility reason = record {
    remediation_eligibility = eligibility;
    remediation_policy_result = none;
    remediation_all_policy_results = [];
    remediation_selection_reason = reason;
  }

  -- Steps 2 and 3 for an eligible incident.
  unfoldable pub select_remediation :
      PolicyInput → EligibilityResult → List RemediationProposal → PolicyOutput
  unfolding limit_selected blocked
  select_remediation input eligibility [] = blocked eligibility no_proposals_generated
  select_remediation input eligibility (p ∷ ps) =
      let (selected, all_results, reason) =
        evaluate_and_rank_proposals lower input.root_cause input.classification settings uuid
          (p ∷ ps) in
      record {
        remediation_eligibility = eligibility;
        remediation_policy_result = limit_selected input selected;
        remediation_all_policy_results = all_results;
        remediation_selection_reason = reason;
      }

  unfoldable pub evaluate_remediation_policy_node : PolicyInput → PolicyOutput
  unfolding select_remediation blocked
  evaluate_remediation_policy_node input =
      let eligibility =
        check_remediation_eligibility input.root_cause input.selected_hypothesis input.evidence
          input.iteration_count max_iterations settings.min_root_cause_confidence in
      if not eligibility.eligible
      then blocked eligibility ineligible_incident
      else select_remediation input eligibility input.remediation_proposals
