-- ===== src/Graph/Termination.antt =====
-- The graph of graph/builder.py ends.
use fault_warden.Base.{
  ℕ, ◌+◌, ◌-◌, ◌*◌, ◌≡◌, ◌≤◌, ◌<◌, inl, inr, refl, sym, ap, subst, List, String, arith,
}
use fault_warden.Schemas.{RemediationAction, RemediationSettings}
use fault_warden.Verify.{InvestigationSettings}
use fault_warden.Graph.{
  State, Node, classify_incident, collect_initial_metrics, collect_initial_logs,
  retrieve_incident_memory, collect_recent_changes, correlate_evidence, generate_hypotheses,
  verify_hypothesis, collect_additional_telemetry, propose_remediation, evaluate_remediation_policy,
  await_remediation_approval, execute_remediation, validate_remediation, finalize_investigation,
  end_node, should_continue_investigation, route_remediation_policy_result, route_approval_decision,
  finalize_investigation_node,
}
use fault_warden.Graph.Routes.{
  continue-cases, policy-route, approval-route, await_inv, execute_inv, validate_inv,
}
use fault_warden.Graph.Steps.{
  Config, at, Step, classifies, measures, reads_logs, remembers, lists_changes, correlates,
  hypothesizes, verifies, collects, suggests, evaluates, resumes, executes, validates, finalizes,
  Walk, stop, go,
}

-- How far a node is from the end without another round.
abbrev pub rank : Node → ℕ
rank end_node = 0
rank finalize_investigation = 1
rank validate_remediation = 2
rank execute_remediation = 3
rank await_remediation_approval = 4
rank evaluate_remediation_policy = 5
rank propose_remediation = 6
rank collect_additional_telemetry = 6
rank verify_hypothesis = 7
rank generate_hypotheses = 8
rank correlate_evidence = 9
rank collect_recent_changes = 10
rank retrieve_incident_memory = 11
rank collect_initial_logs = 12
rank collect_initial_metrics = 13
rank classify_incident = 14

-- The rounds that are left; the first node starts to count.
abbrev pub rounds : ℕ → Node → State → ℕ
rounds max_iterations classify_incident s = max_iterations
rounds max_iterations _ s = max_iterations - s.iteration_count

abbrev pub measure : ℕ → Config → ℕ
measure max_iterations c = rank c.node + 3 * rounds max_iterations c.node c.state

-- More telemetry is collected only while iterations are left.
abbrev pub HasRound : ℕ → Node → State → Type 0
HasRound max_iterations collect_additional_telemetry s = s.iteration_count < max_iterations
HasRound max_iterations _ s = Unit

abbrev pub IsReady : ℕ → Config → Type 0
IsReady max_iterations c = HasRound max_iterations c.node c.state

-- The next configuration is ready, and nearer to the end.
abbrev IsNearer : ℕ → Config → Config → Type 0
IsNearer m c d = IsReady m d × (measure m d < measure m c)

verified-IsNearer :
    (settings : InvestigationSettings) (s t : State) (log : List RemediationAction)
    → t.iteration_count ≡ s.iteration_count
    → IsNearer settings.max_iterations
        (at verify_hypothesis s log)
        (at (should_continue_investigation settings t) t log)
verified-IsNearer settings s t log same = elim (continue-cases settings t) [
  | inl propose ↦
      subst (λ n. IsNearer settings.max_iterations (at verify_hypothesis s log) (at n t log))
        (sym propose) (tt, ground arith)
  | inr again ↦
      subst (λ n. IsNearer settings.max_iterations (at verify_hypothesis s log) (at n t log))
        (sym again.0) (again.1, ground arith)
]

evaluated-IsNearer :
    (m : ℕ) (s t : State) (log : List RemediationAction)
    → t.iteration_count ≡ s.iteration_count
    → IsNearer m
        (at evaluate_remediation_policy s log)
        (at (route_remediation_policy_result t) t log)
evaluated-IsNearer m s t log same = elim (policy-route t) [
  | inl run ↦
      subst (λ n. IsNearer m (at evaluate_remediation_policy s log) (at n t log)) (sym run.0)
        (tt, ground arith)
  | inr (inl wait) ↦
      subst (λ n. IsNearer m (at evaluate_remediation_policy s log) (at n t log)) (sym wait.0)
        (tt, ground arith)
  | inr (inr final) ↦
      subst (λ n. IsNearer m (at evaluate_remediation_policy s log) (at n t log)) (sym final)
        (tt, ground arith)
]

resumed-IsNearer :
    (m : ℕ) (s t : State) (log : List RemediationAction)
    → t.iteration_count ≡ s.iteration_count
    → IsNearer m (at await_remediation_approval s log) (at (route_approval_decision t) t log)
resumed-IsNearer m s t log same = elim (approval-route t) [
  | inl run ↦
      subst (λ n. IsNearer m (at await_remediation_approval s log) (at n t log)) (sym run.0)
        (tt, ground arith)
  | inr final ↦
      subst (λ n. IsNearer m (at await_remediation_approval s log) (at n t log)) (sym final)
        (tt, ground arith)
]

final_iterations : (s : State) → (finalize_investigation_node s).iteration_count ≡ s.iteration_count
unfolding finalize_investigation_node
final_iterations s = refl

module _ (lower upper : String → String) (investigation : InvestigationSettings)
    (settings : RemediationSettings) (uuid : ℕ → ℕ) where
  abbrev pub bound : Config → ℕ
  bound = measure investigation.max_iterations

  Step-IsNearer :
      {c d : Config}
      → Step lower upper investigation settings uuid c d
      → IsReady investigation.max_iterations c
      → IsNearer investigation.max_iterations c d
  Step-IsNearer (classifies s log c e) r = (tt, ground arith)
  Step-IsNearer (measures s log e) r = (tt, ground arith)
  Step-IsNearer (reads_logs s log e) r = (tt, ground arith)
  Step-IsNearer (remembers s log) r = (tt, ground arith)
  Step-IsNearer (lists_changes s log changes) r = (tt, ground arith)
  Step-IsNearer (correlates s log c) r = (tt, ground arith)
  Step-IsNearer (hypothesizes s log h) r = (tt, ground arith)
  Step-IsNearer (verifies s log answer) r = verified-IsNearer investigation s _ log refl
  Step-IsNearer (collects s log e) r = (tt, ground arith)
  Step-IsNearer (suggests s log ps) r = (tt, ground arith)
  Step-IsNearer (evaluates s log) r = evaluated-IsNearer investigation.max_iterations s _ log refl
  Step-IsNearer (resumes s t log resume h) r =
      resumed-IsNearer investigation.max_iterations s t log
        (ap (λ x. x.iteration_count) (await_inv upper s t resume h))
  Step-IsNearer (executes s t log result a h) r =
      (tt, (let same = ap (λ x. x.iteration_count) (execute_inv s t result a h).1 in ground arith))
  Step-IsNearer (validates s t log answer h) r =
      (tt, (let same = ap (λ x. x.iteration_count) (validate_inv s t answer h).1 in ground arith))
  Step-IsNearer (finalizes s log) r = (tt, (let same = final_iterations s in ground arith))

  Walk-bound :
      {n : ℕ} {c d : Config}
      → Walk lower upper investigation settings uuid n c d
      → IsReady investigation.max_iterations c
      → n + bound d ≤ bound c
  Walk-bound stop r = ground arith
  Walk-bound (go step path) r =
      let (r', nearer) = Step-IsNearer step r in let rest = Walk-bound path r' in ground arith

  -- However the LLM, the telemetry, the executor, the validator and the operator answer, a run of
  -- the graph from its first node has at most 14 steps and 3 more for each iteration that the
  -- settings allow.
  pub runs_are_bounded :
      (n : ℕ) (s : State) (log : List RemediationAction) (d : Config)
      → Walk lower upper investigation settings uuid n (at classify_incident s log) d
      → n ≤ 14 + 3 * investigation.max_iterations
  runs_are_bounded n s log d path = let rest = Walk-bound path tt in ground arith
