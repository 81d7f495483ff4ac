-- ===== src/Examples/Policy.antt =====
-- The theorems on core/policy.py and graph/nodes/remediation_policy.py at the sample incident.
use fault_warden.Base.{◌≡◌, refl, true, none, some, List, [], ◌∷◌, map}
use fault_warden.Schemas.{
  level_2_human_approval_required, RemediationProposal, PolicyResult, verified, reset_demo_failure,
  allowed_action, reset_demo_failure_parameters,
}
use fault_warden.Policy.{evaluate_policy, build_action}
use fault_warden.Policy.Decisions.{IsDecision, evaluate_policy-IsDecision}
use fault_warden.Policy.Eligibility.{
  Explains, check_remediation_eligibility, is_eligible_reason,
  check_remediation_eligibility-Explains,
}
use fault_warden.Policy.Ranking.{
  insert_candidate, sort_candidates, evaluate_all, collect_candidates, evaluate_and_rank_proposals,
}
use fault_warden.Policy.Advisory.{Suggestion, suggest, evaluate_and_rank-suggest}
use fault_warden.Limits.{
  PolicyInput, enforce_auto_limit, enforce_remediation_limits, limit_selected, select_remediation,
  evaluate_remediation_policy_node,
}
use fault_warden.Limits.Gate.{Permits, evaluate_remediation_policy_node-Permits}
use fault_warden.Examples.{
  same_case, next_uuid, sample_settings, reset_proposal, restart_proposal, sample_evidence,
  sample_hypothesis, sample_cause,
}

abbrev both_proposals : List RemediationProposal
both_proposals = restart_proposal ∷ reset_proposal ∷ []

-- The restart asks for approval, whatever the LLM suggests.
evaluate_policy-IsDecision_example :
    IsDecision sample_settings restart_proposal
      (evaluate_policy sample_settings 100 restart_proposal)
evaluate_policy-IsDecision_example = evaluate_policy-IsDecision sample_settings 100 restart_proposal

check_remediation_eligibility-Explains_example :
    let result =
      check_remediation_eligibility (some sample_cause) (some sample_hypothesis) [] 2 3 7 in
    Explains result.reason (some sample_cause) (some sample_hypothesis) [] 2 3 7
    × (result.eligible ≡ is_eligible_reason result.reason)
check_remediation_eligibility-Explains_example =
    check_remediation_eligibility-Explains (some sample_cause) (some sample_hypothesis) [] 2 3 7

abbrev cautious : RemediationProposal → Suggestion
cautious p = record {
  title = "Take care";
  expected_effect = "None";
  supporting_evidence_ids = [];
  proposed_risk = level_2_human_approval_required;
  requires_approval = true;
}

evaluate_and_rank-suggest_example :
    ((evaluate_and_rank_proposals same_case
        (some sample_cause)
        none
        sample_settings
        next_uuid
        (map (suggest cautious) both_proposals)).0
      ≡ (evaluate_and_rank_proposals same_case
          (some sample_cause)
          none
          sample_settings
          next_uuid
          both_proposals).0)
    × (evaluate_all sample_settings next_uuid 0 (map (suggest cautious) both_proposals)
        ≡ evaluate_all sample_settings next_uuid 0 both_proposals)
evaluate_and_rank-suggest_example =
    evaluate_and_rank-suggest cautious same_case (some sample_cause) none sample_settings next_uuid
      both_proposals

abbrev sample_input : PolicyInput
sample_input = record {
  remediation_proposals = reset_proposal ∷ [];
  root_cause = some sample_cause;
  selected_hypothesis = some (record sample_hypothesis { status = verified });
  evidence = sample_evidence ∷ [];
  classification = none;
  iteration_count = 2;
  prior_attempt_count = 1;
  prior_auto_execution_count = 0;
}

abbrev reset_result : PolicyResult
reset_result = allowed_action (
    build_action sample_settings 100 reset_proposal reset_demo_failure
      (reset_demo_failure_parameters "demo-service"))

-- The reset is let through.
reset_is_selected :
    (evaluate_remediation_policy_node same_case sample_settings 3 next_uuid
      sample_input).remediation_policy_result
    ≡ some reset_result
unfolding evaluate_remediation_policy_node select_remediation limit_selected
    enforce_remediation_limits enforce_auto_limit check_remediation_eligibility
    evaluate_and_rank_proposals evaluate_all collect_candidates sort_candidates insert_candidate
    evaluate_policy
reset_is_selected = refl

evaluate_remediation_policy_node-Permits_example :
    Permits same_case sample_settings 3 next_uuid sample_input reset_result
evaluate_remediation_policy_node-Permits_example =
    evaluate_remediation_policy_node-Permits same_case sample_settings 3 next_uuid sample_input
      reset_result
      (build_action sample_settings 100 reset_proposal reset_demo_failure
        (reset_demo_failure_parameters "demo-service"))
      reset_is_selected refl
