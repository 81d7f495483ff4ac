-- ===== src/Graph/Progress.antt =====
-- No node of the graph of graph/builder.py raises, and none but the last one is without a successor.
use fault_warden.Base.{
  ℕ, ◌≡◌, ◌≢◌, refl, ap, ◌∙◌, Bool, true, false, not, Option, none, some, List, [], String,
  if◌then◌else◌,
}
use fault_warden.Schemas.{RemediationAction, RemediationSettings}
use fault_warden.Verify.{InvestigationSettings}
use fault_warden.Audit.{RemediationResult, execution_failed}
use fault_warden.Graph.{
  State, Node, classify_incident, collect_initial_metrics, collect_initial_logs,
  retrieve_incident_memory, collect_recent_changes, correlate_evidence, generate_hypotheses,
  verify_hypothesis, collect_additional_telemetry, propose_remediation, evaluate_remediation_policy,
  await_remediation_approval, execute_remediation, validate_remediation, finalize_investigation,
  end_node, action_of, unrecognized, await_result, await_remediation_approval_node, execute_action,
  execute_remediation_node, validate_action, validate_result, validate_remediation_node,
}
use fault_warden.Graph.Steps.{
  Config, at, Step, classifies, measures, reads_logs, remembers, lists_changes, correlates,
  hypothesizes, verifies, collects, suggests, evaluates, resumes, executes, validates, finalizes,
  Walk,
}
use fault_warden.Graph.Safety.{IsGranted, Holds, Walk-IsSafe, executable_action}

validate_answers :
    (s : State) (answer : Option Bool) (a : RemediationAction)
    → action_of s.remediation_policy_result ≡ some a
    → (t : State) × (validate_remediation_node s answer ≡ some t)
unfolding validate_remediation_node
validate_answers s answer a found = check s.remediation_result
  where
    checked :
        (b : Bool)
        → (t : State) × ((if not b
              then some (record s { remediation_validation_passed = none })
              else validate_action s answer (action_of s.remediation_policy_result))
            ≡ some t)
    checked true = (_, ap (validate_action s answer) found)
    checked false = (_, refl)

    check : (o : Option RemediationResult) → (t : State) × (validate_result s answer o ≡ some t)
    check none = (_, refl)
    check (some result) = checked result.success

module _ (lower upper : String → String) (investigation : InvestigationSettings)
    (settings : RemediationSettings) (uuid : ℕ → ℕ) where
  granted_found :
      (s : State) (a : RemediationAction)
      → IsGranted lower upper investigation settings uuid s a
      → action_of s.remediation_policy_result ≡ some a
  granted_found s a (r, permitted, answered) =
      ap action_of permitted.holds
      ∙ executable_action lower upper investigation settings uuid a r permitted.executable

  advance :
      (result : RemediationResult) (n : Node) (s : State) (log : List RemediationAction)
      → Holds lower upper investigation settings uuid n s log
      → n ≢ end_node
      → (e : Config) × Step lower upper investigation settings uuid (at n s log) e
  unfolding await_remediation_approval_node execute_remediation_node
  advance result classify_incident s log h ne = (_, classifies s log none [])
  advance result collect_initial_metrics s log h ne = (_, measures s log [])
  advance result collect_initial_logs s log h ne = (_, reads_logs s log [])
  advance result retrieve_incident_memory s log h ne = (_, remembers s log)
  advance result collect_recent_changes s log h ne = (_, lists_changes s log [])
  advance result correlate_evidence s log h ne = (_, correlates s log [])
  advance result generate_hypotheses s log h ne = (_, hypothesizes s log [])
  advance result verify_hypothesis s log h ne = (_, verifies s log none)
  advance result collect_additional_telemetry s log h ne = (_, collects s log [])
  advance result propose_remediation s log h ne = (_, suggests s log [])
  advance result evaluate_remediation_policy s log h ne = (_, evaluates s log)
  advance result await_remediation_approval s log (empty, (a, why, p)) ne =
      (_, resumes s _ log unrecognized (ap (await_result upper s unrecognized) p.holds))
  advance result execute_remediation s log (empty, (a, granted)) ne =
      (_, executes s _ log result a (ap (execute_action s result) (granted_found s a granted)))
  advance result validate_remediation s log (justified, (a, granted)) ne =
      let (t, done) = validate_answers s none a (granted_found s a granted) in
      (_, validates s t log none done)
  advance result finalize_investigation s log h ne = (_, finalizes s log)
  advance result end_node s log h ne = absurd (ne refl)

  -- Wherever a run of the graph stands, there is a next step unless it has ended: no run is stuck at
  -- the approval, the execution or the validation node, which are entered only with a policy result
  -- for which they do not raise.
  pub runs_go_on :
      (n : ℕ) (s : State) (d : Config)
      → Walk lower upper investigation settings uuid n (at classify_incident s []) d
      → d.node ≢ end_node
      → (e : Config) × Step lower upper investigation settings uuid d e
  runs_go_on n s d path ne =
      advance failed_result d.node d.state d.executed
        (Walk-IsSafe lower upper investigation settings uuid path refl) ne
    where
      failed_result : RemediationResult
      failed_result = record {
        action_id = 0;
        status = execution_failed;
        started_at = 0;
        completed_at = none;
        success = false;
        summary = "";
        error = none;
      }
