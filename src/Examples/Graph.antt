-- ===== src/Examples/Graph.antt =====
-- The theorems on graph/builder.py: the reset is executed at once, and the restart waits.
use fault_warden.Base.{◌+◌, ◌*◌, ◌≡◌, ◌≢◌, ◌≤◌, ◌↔◌, ◌⊎◌, refl, true, none, some, [], ◌∷◌, arith}
use fault_warden.Schemas.{
  RemediationProposal, RemediationAction, approval_required_action, exceeds_threshold,
  level_2_human_approval_required, reset_demo_failure, restart_registered_service,
  reset_demo_failure_parameters, restart_registered_service_parameters,
}
use fault_warden.Policy.{build_action, evaluate_policy}
use fault_warden.Policy.Eligibility.{check_remediation_eligibility}
use fault_warden.Policy.Ranking.{
  evaluate_all, collect_candidates, sort_candidates, insert_candidate, evaluate_and_rank_proposals,
}
use fault_warden.Limits.{
  enforce_auto_limit, enforce_remediation_limits, limit_selected, select_remediation,
  evaluate_remediation_policy_node,
}
use fault_warden.Verify.{
  best_of, evaluate_candidate, change_of, correlation_of, promote_change, causal_changes, promote,
  verify_candidate, verify_from, verify_hypothesis_node,
}
use fault_warden.Audit.{RemediationResult, execution_succeeded}
use fault_warden.Graph.{
  State, classify_incident, await_remediation_approval, validate_remediation, execute_remediation,
  finalize_investigation, end_node, should_continue_investigation, route_remediation_policy_result,
  route_approval_decision, plain_text, await_remediation_approval_node, execute_remediation_node,
}
use fault_warden.Graph.Steps.{
  Config, at, Step, classifies, measures, reads_logs, remembers, lists_changes, correlates,
  hypothesizes, verifies, suggests, evaluates, executes, Walk, stop, go, verified_state,
  evaluated_state,
}
use fault_warden.Graph.Safety.{IsJustified, executions-IsJustified}
use fault_warden.Graph.Termination.{runs_are_bounded}
use fault_warden.Graph.Progress.{runs_go_on}
use fault_warden.Graph.Approval.{Approves, resumed_action_runs_iff}
use fault_warden.Examples.{
  same_case, next_uuid, sample_settings, sample_investigation, reset_proposal, restart_proposal,
  sample_evidence, sample_hypothesis, sample_answer,
}

abbrev pub start_state : State
start_state = record {
  classification = none;
  evidence = [];
  recent_changes = [];
  change_correlations = [];
  hypotheses = [];
  selected_hypothesis = none;
  selected_causal_change = none;
  root_cause = none;
  missing_evidence_queries = [];
  iteration_count = 1;
  remediation_proposals = [];
  remediation_prior_attempt_count = 0;
  remediation_prior_auto_execution_count = 0;
  remediation_eligibility = none;
  remediation_policy_result = none;
  remediation_approval_decision = none;
  remediation_result = none;
  remediation_validation_passed = none;
  investigation_status = none;
}

abbrev hypothesized : State
hypothesized = record start_state {
  evidence = sample_evidence ∷ [];
  hypotheses = sample_hypothesis ∷ [];
  investigation_status = some "INVESTIGATING";
}

abbrev checked : State
checked =
    verified_state same_case same_case sample_investigation sample_settings next_uuid hypothesized
      (some sample_answer)

abbrev evaluated : RemediationProposal → State
evaluated p =
    evaluated_state same_case same_case sample_investigation sample_settings next_uuid
      (record checked { remediation_proposals = p ∷ [] })

abbrev pub reset_action : RemediationAction
reset_action =
    build_action sample_settings 100 reset_proposal reset_demo_failure
      (reset_demo_failure_parameters "demo-service")

abbrev pub reset_outcome : RemediationResult
reset_outcome = record {
  action_id = 100;
  status = execution_succeeded;
  started_at = 1;
  completed_at = some 2;
  success = true;
  summary = "reset";
  error = none;
}

abbrev reset_config : Config
reset_config =
    at validate_remediation
      (record (evaluated reset_proposal) { remediation_result = some reset_outcome })
      (reset_action ∷ [])

reset-Walk :
    Walk same_case same_case sample_investigation sample_settings next_uuid 11
      (at classify_incident start_state [])
      reset_config
unfolding should_continue_investigation verify_hypothesis_node verify_from verify_candidate promote
    best_of evaluate_candidate causal_changes promote_change change_of correlation_of
    evaluate_remediation_policy_node select_remediation limit_selected enforce_remediation_limits
    enforce_auto_limit check_remediation_eligibility evaluate_and_rank_proposals evaluate_all
    collect_candidates sort_candidates insert_candidate evaluate_policy
    route_remediation_policy_result execute_remediation_node
reset-Walk = go (classifies start_state [] none []) (
    go (measures _ [] (sample_evidence ∷ [])) (
      go (reads_logs _ [] []) (
        go (remembers _ []) (
          go (lists_changes _ [] []) (
            go (correlates _ [] []) (
              go (hypothesizes _ [] (sample_hypothesis ∷ [])) (
                go (verifies hypothesized [] (some sample_answer)) (
                  go (suggests checked [] (reset_proposal ∷ [])) (
                    go (evaluates _ []) (
                      go (executes (evaluated reset_proposal) _ [] reset_outcome reset_action refl)
                        stop))))))))))

executions-IsJustified_example :
    IsJustified same_case same_case sample_investigation sample_settings next_uuid
      reset_config.state
      (reset_action ∷ [])
executions-IsJustified_example =
    executions-IsJustified same_case same_case sample_investigation sample_settings next_uuid 11
      start_state reset_config reset-Walk

runs_are_bounded_example : 11 ≤ 14 + 3 * 3
runs_are_bounded_example =
    runs_are_bounded same_case same_case sample_investigation sample_settings next_uuid 11
      start_state [] reset_config reset-Walk

abbrev waiting_config : Config
waiting_config = at await_remediation_approval (evaluated restart_proposal) []

waiting-Walk :
    Walk same_case same_case sample_investigation sample_settings next_uuid 10
      (at classify_incident start_state [])
      waiting_config
unfolding should_continue_investigation verify_hypothesis_node verify_from verify_candidate promote
    best_of evaluate_candidate causal_changes promote_change change_of correlation_of
    evaluate_remediation_policy_node select_remediation limit_selected enforce_remediation_limits
    enforce_auto_limit check_remediation_eligibility evaluate_and_rank_proposals evaluate_all
    collect_candidates sort_candidates insert_candidate evaluate_policy
    route_remediation_policy_result
waiting-Walk = go (classifies start_state [] none []) (
    go (measures _ [] (sample_evidence ∷ [])) (
      go (reads_logs _ [] []) (
        go (remembers _ []) (
          go (lists_changes _ [] []) (
            go (correlates _ [] []) (
              go (hypothesizes _ [] (sample_hypothesis ∷ [])) (
                go (verifies hypothesized [] (some sample_answer)) (
                  go (suggests checked [] (restart_proposal ∷ []))
                    (go (evaluates _ []) stop)))))))))

waiting_is_not_the_end : waiting_config.node ≢ end_node
waiting_is_not_the_end e = ground arith

runs_go_on_example :
    (e : Config) × Step same_case same_case sample_investigation sample_settings next_uuid
      waiting_config e
runs_go_on_example =
    runs_go_on same_case same_case sample_investigation sample_settings next_uuid 10 start_state
      waiting_config waiting-Walk waiting_is_not_the_end

abbrev waiting_state : State
waiting_state = record start_state {
  remediation_policy_result = some (
      approval_required_action
        (build_action sample_settings 100 restart_proposal restart_registered_service
          (restart_registered_service_parameters "demo-service"))
        (exceeds_threshold level_2_human_approval_required 1));
}

abbrev approved_state : State
approved_state = record waiting_state { remediation_approval_decision = some "APPROVE" }

resumed :
    await_remediation_approval_node same_case waiting_state (plain_text "APPROVE")
    ≡ some approved_state
unfolding await_remediation_approval_node
resumed = refl

resumed_action_runs_iff_example :
    ((route_approval_decision approved_state ≡ execute_remediation)
      ↔ Approves same_case (plain_text "APPROVE"))
    × ((route_approval_decision approved_state ≡ execute_remediation)
        ⊎ (route_approval_decision approved_state ≡ finalize_investigation))
resumed_action_runs_iff_example =
    resumed_action_runs_iff same_case waiting_state approved_state (plain_text "APPROVE") resumed
