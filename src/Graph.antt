-- ===== src/Graph.antt =====
-- graph/builder.py with the nodes of graph/nodes/ that decide: verify.py, remediation_policy.py,
-- remediation_approval.py, remediation_execution.py and finalize.py; graph/state.py gives the state.
--
-- A node is a function from the state to the state with its keys set, or none where it raises.
pub mod Steps
pub mod Routes
pub mod Termination
pub mod Progress
pub mod Approval
pub mod Safety
use fault_warden.Base.{
  ℕ, ◌+◌, Bool, false, not, Option, none, some, List, [], ◌++◌, String, str_eq, leb, if◌then◌else◌,
  nonempty, is_some,
}
use fault_warden.Schemas.{
  RemediationProposal, RemediationAction, PolicyResult, allowed_action, approval_required_action,
  Hypothesis, RootCauseAnalysis, EvidenceItem, EligibilityResult, IncidentClassification,
}
use fault_warden.Schemas.Change.{OperationalChange, ChangeCorrelation}
use fault_warden.Verify.{InvestigationSettings, VerifyInput, VerifyOutput}
use fault_warden.Limits.{PolicyInput, PolicyOutput}
use fault_warden.Audit.{RemediationResult}

-- `IncidentInvestigationState`, the keys that the routing and these nodes read or set.
pub record State : Type 0 where
  pub classification : Option IncidentClassification
  pub evidence : List EvidenceItem
  pub recent_changes : List OperationalChange
  pub change_correlations : List ChangeCorrelation
  pub hypotheses : List Hypothesis
  pub selected_hypothesis : Option Hypothesis
  pub selected_causal_change : Option OperationalChange
  pub root_cause : Option RootCauseAnalysis
  pub missing_evidence_queries : List String
  pub iteration_count : ℕ
  pub remediation_proposals : List RemediationProposal
  pub remediation_prior_attempt_count : ℕ
  pub remediation_prior_auto_execution_count : ℕ
  pub remediation_eligibility : Option EligibilityResult
  pub remediation_policy_result : Option PolicyResult
  pub remediation_approval_decision : Option String
  pub remediation_result : Option RemediationResult
  pub remediation_validation_passed : Option Bool
  pub investigation_status : Option String

-- The names of the nodes, and END.
pub data Node : Type 0 where
  classify_incident collect_initial_metrics collect_initial_logs retrieve_incident_memory
        collect_recent_changes correlate_evidence generate_hypotheses verify_hypothesis
        collect_additional_telemetry propose_remediation evaluate_remediation_policy
        await_remediation_approval execute_remediation validate_remediation finalize_investigation
        end_node :
      Node

module _ (settings : InvestigationSettings) where
  unfoldable pub should_continue_investigation : State → Node
  should_continue_investigation s =
      if is_some s.root_cause
      then propose_remediation
      else if leb settings.max_iterations s.iteration_count
      then propose_remediation
      else if not (nonempty s.missing_evidence_queries)
      then propose_remediation
      else collect_additional_telemetry

-- The second half of `route_remediation_policy_result`.
abbrev pub route_result : Option PolicyResult → Node
route_result (some (allowed_action a)) = execute_remediation
route_result (some (approval_required_action a reason)) = await_remediation_approval
route_result _ = finalize_investigation

abbrev pub is_ineligible : Option EligibilityResult → Bool
is_ineligible none = false
is_ineligible (some e) = not e.eligible

unfoldable pub route_remediation_policy_result : State → Node
route_remediation_policy_result s =
    if is_ineligible s.remediation_eligibility
    then finalize_investigation
    else route_result s.remediation_policy_result

abbrev pub is_text : String → Option String → Bool
is_text text none = false
is_text text (some t) = str_eq t text

unfoldable pub route_approval_decision : State → Node
route_approval_decision s =
    if is_text "APPROVE" s.remediation_approval_decision
    then execute_remediation
    else finalize_investigation

-- What the graph is resumed with: a dict with a decision, as its text, a text, or anything else.
pub data ResumeValue : Type 0 where
  with_decision : String → ResumeValue
  plain_text : String → ResumeValue
  unrecognized : ResumeValue

-- `ApprovalDecision(text).value`, and REJECT where that raises.
abbrev pub decision_or_reject : String → String
decision_or_reject t =
    if str_eq t "APPROVE"
    then "APPROVE"
    else if str_eq t "REJECT"
    then "REJECT"
    else if str_eq t "CANCEL"
    then "CANCEL"
    else "REJECT"

module _ (upper : String → String) where
  abbrev pub parse_resume : ResumeValue → String
  parse_resume (with_decision t) = decision_or_reject (upper t)
  parse_resume (plain_text t) = decision_or_reject (upper t)
  parse_resume unrecognized = "REJECT"

  abbrev pub await_result : State → ResumeValue → Option PolicyResult → Option State
  await_result s resume (some (approval_required_action a reason)) =
      some (record s { remediation_approval_decision = some (parse_resume resume) })
  await_result s resume _ = none

  unfoldable pub await_remediation_approval_node : State → ResumeValue → Option State
  await_remediation_approval_node s resume = await_result s resume s.remediation_policy_result

-- The action of an `AllowedAction` or an `ApprovalRequiredAction`.
abbrev pub action_of : Option PolicyResult → Option RemediationAction
action_of (some (allowed_action a)) = some a
action_of (some (approval_required_action a reason)) = some a
action_of _ = none

-- The executor is called with the action; its result is an argument. The node gives the action that
-- was run, and the state.
abbrev pub execute_action :
    State → RemediationResult → Option RemediationAction → Option (RemediationAction × State)
execute_action s result none = none
execute_action s result (some a) = some (a, record s { remediation_result = some result })

unfoldable pub execute_remediation_node :
    State → RemediationResult → Option (RemediationAction × State)
execute_remediation_node s result = execute_action s result (action_of s.remediation_policy_result)

-- The validator's answer, none where it raises.
abbrev pub is_recovered : Option Bool → Bool
is_recovered none = false
is_recovered (some passed) = passed

abbrev pub validate_action : State → Option Bool → Option RemediationAction → Option State
validate_action s answer none = none
validate_action s answer (some a) =
    some (record s { remediation_validation_passed = some (is_recovered answer) })

abbrev pub validate_result : State → Option Bool → Option RemediationResult → Option State
validate_result s answer none = some (record s { remediation_validation_passed = none })
validate_result s answer (some result) =
    if not result.success
    then some (record s { remediation_validation_passed = none })
    else validate_action s answer (action_of s.remediation_policy_result)

unfoldable pub validate_remediation_node : State → Option Bool → Option State
validate_remediation_node s answer = validate_result s answer s.remediation_result

-- The status that `finalize_investigation_node` sets.
abbrev pub final_status : Option RootCauseAnalysis → Option Hypothesis → String
final_status (some cause) h = "COMPLETED"
final_status none (some h) = "INCONCLUSIVE"
final_status none none = "FAILED"

unfoldable pub finalize_investigation_node : State → State
finalize_investigation_node s = record s {
  investigation_status = some (final_status s.root_cause s.selected_hypothesis);
}

-- What the verification node reads, and its keys in the state.
abbrev pub verify_input : State → VerifyInput
verify_input s = record {
  hypotheses = s.hypotheses;
  evidence = s.evidence;
  recent_changes = s.recent_changes;
  change_correlations = s.change_correlations;
  classification = s.classification;
  iteration_count = s.iteration_count;
  selected_causal_change = s.selected_causal_change;
}

abbrev pub with_verdict : State → VerifyOutput → State
with_verdict s output = record s {
  hypotheses = output.hypotheses;
  selected_hypothesis = output.selected_hypothesis;
  selected_causal_change = output.selected_causal_change;
  root_cause = output.root_cause;
  missing_evidence_queries = output.missing_evidence_queries;
  investigation_status =
      if is_some output.root_cause then some "ROOT_CAUSE_IDENTIFIED" else s.investigation_status;
}

-- What the policy node reads, and its keys in the state.
abbrev pub policy_input : State → PolicyInput
policy_input s = record {
  remediation_proposals = s.remediation_proposals;
  root_cause = s.root_cause;
  selected_hypothesis = s.selected_hypothesis;
  evidence = s.evidence;
  classification = s.classification;
  iteration_count = s.iteration_count;
  prior_attempt_count = s.remediation_prior_attempt_count;
  prior_auto_execution_count = s.remediation_prior_auto_execution_count;
}

abbrev pub with_policy : State → PolicyOutput → State
with_policy s output = record s {
  remediation_eligibility = some output.remediation_eligibility;
  remediation_policy_result = output.remediation_policy_result;
}

-- The keys of `collect_additional_telemetry_node`; the new evidence is added (operator.add).
abbrev pub with_telemetry : State → (new_evidence : List EvidenceItem) → State
with_telemetry s new_evidence = record s {
  iteration_count = s.iteration_count + 1;
  evidence = s.evidence ++ new_evidence;
  missing_evidence_queries = [];
}
