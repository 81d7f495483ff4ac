-- ===== src/Graph/Steps.antt =====
-- The runs of the graph of graph/builder.py: one step for each node, along its edge or its route.
--
-- The LLM, the telemetry, the executor, the validator and the operator may answer anything. Of the
-- nodes that gather and propose (classify.py, collect_*.py, retrieve_memory.py, correlate.py,
-- hypothesize.py, propose_remediation.py) a step sets the keys that the node returns, the collected
-- ones to any value.
use fault_warden.Base.{ℕ, suc, ◌≡◌, Option, some, List, [], ◌∷◌, ◌++◌, String, Bool}
use fault_warden.Schemas.{
  RemediationProposal, RemediationAction, Hypothesis, EvidenceItem, IncidentClassification,
  RemediationSettings,
}
use fault_warden.Schemas.Change.{OperationalChange, ChangeCorrelation}
use fault_warden.Verify.{InvestigationSettings, VerificationResponse, verify_hypothesis_node}
use fault_warden.Limits.{evaluate_remediation_policy_node}
use fault_warden.Audit.{RemediationResult}
use fault_warden.Graph.{
  State, Node, classify_incident, collect_initial_metrics, collect_initial_logs,
  retrieve_incident_memory, collect_recent_changes, correlate_evidence, generate_hypotheses,
  verify_hypothesis, collect_additional_telemetry, propose_remediation, evaluate_remediation_policy,
  await_remediation_approval, execute_remediation, validate_remediation, finalize_investigation,
  end_node, should_continue_investigation, route_remediation_policy_result, route_approval_decision,
  ResumeValue, await_remediation_approval_node, execute_remediation_node, validate_remediation_node,
  finalize_investigation_node, verify_input, with_verdict, policy_input, with_policy,
  with_telemetry,
}

-- The node that is run next, the state, and the actions that the executor was called with.
pub record Config : Type 0 where
  pub node : Node
  pub state : State
  pub executed : List RemediationAction

abbrev pub at : Node → State → List RemediationAction → Config
at n s log = record { node = n; state = s; executed = log }

module _ (lower upper : String → String) (investigation : InvestigationSettings)
    (settings : RemediationSettings) (uuid : ℕ → ℕ) where
  abbrev pub verified_state : State → Option VerificationResponse → State
  verified_state s answer =
      with_verdict s (verify_hypothesis_node lower investigation (verify_input s) answer)

  abbrev pub evaluated_state : State → State
  evaluated_state s = with_policy s (
      evaluate_remediation_policy_node lower settings investigation.max_iterations uuid
        (policy_input s))

  pub data Step : Config → Config → Type 0 where
    classifies :
        (s : State) (log : List RemediationAction) (c : Option IncidentClassification)
        (e : List EvidenceItem)
        → Step (at classify_incident s log) (
            at collect_initial_metrics
              (record s {
                classification = c;
                evidence = s.evidence ++ e;
                iteration_count = 1;
                investigation_status = some "INVESTIGATING";
                missing_evidence_queries = [];
              })
              log)
    measures :
        (s : State) (log : List RemediationAction) (e : List EvidenceItem)
        → Step
            (at collect_initial_metrics s log)
            (at collect_initial_logs (record s { evidence = s.evidence ++ e }) log)
    reads_logs :
        (s : State) (log : List RemediationAction) (e : List EvidenceItem)
        → Step
            (at collect_initial_logs s log)
            (at retrieve_incident_memory (record s { evidence = s.evidence ++ e }) log)
    remembers :
        (s : State) (log : List RemediationAction)
        → Step (at retrieve_incident_memory s log) (at collect_recent_changes s log)
    lists_changes :
        (s : State) (log : List RemediationAction) (changes : List OperationalChange)
        → Step
            (at collect_recent_changes s log)
            (at correlate_evidence (record s { recent_changes = changes }) log)
    correlates :
        (s : State) (log : List RemediationAction) (c : List ChangeCorrelation)
        → Step
            (at correlate_evidence s log)
            (at generate_hypotheses (record s { change_correlations = c }) log)
    hypothesizes :
        (s : State) (log : List RemediationAction) (h : List Hypothesis)
        → Step
            (at generate_hypotheses s log)
            (at verify_hypothesis (record s { hypotheses = h }) log)
    verifies :
        (s : State) (log : List RemediationAction) (answer : Option VerificationResponse)
        → Step (at verify_hypothesis s log) (
            at
              (should_continue_investigation investigation (verified_state s answer))
              (verified_state s answer)
              log)
    collects :
        (s : State) (log : List RemediationAction) (e : List EvidenceItem)
        → Step
            (at collect_additional_telemetry s log)
            (at generate_hypotheses (with_telemetry s e) log)
    suggests :
        (s : State) (log : List RemediationAction) (ps : List RemediationProposal)
        → Step
            (at propose_remediation s log)
            (at evaluate_remediation_policy (record s { remediation_proposals = ps }) log)
    evaluates :
        (s : State) (log : List RemediationAction)
        → Step
            (at evaluate_remediation_policy s log)
            (at (route_remediation_policy_result (evaluated_state s)) (evaluated_state s) log)
    resumes :
        (s t : State) (log : List RemediationAction) (resume : ResumeValue)
        → await_remediation_approval_node upper s resume ≡ some t
        → Step (at await_remediation_approval s log) (at (route_approval_decision t) t log)
    executes :
        (s t : State) (log : List RemediationAction) (result : RemediationResult)
        (a : RemediationAction)
        → execute_remediation_node s result ≡ some (a, t)
        → Step (at execute_remediation s log) (at validate_remediation t (a ∷ log))
    validates :
        (s t : State) (log : List RemediationAction) (answer : Option Bool)
        → validate_remediation_node s answer ≡ some t
        → Step (at validate_remediation s log) (at finalize_investigation t log)
    finalizes :
        (s : State) (log : List RemediationAction)
        → Step (at finalize_investigation s log) (at end_node (finalize_investigation_node s) log)

  -- A run of `n` steps.
  pub data Walk : ℕ → Config → Config → Type 0 where
    stop : {c : Config} → Walk 0 c c
    go : {n : ℕ} {c d e : Config} → Step c d → Walk n d e → Walk (suc n) c e
