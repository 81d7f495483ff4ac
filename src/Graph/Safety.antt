-- ===== src/Graph/Safety.antt =====
-- Which actions the graph of graph/builder.py executes.
use fault_warden.Base.{
  ℕ, ◌≡◌, inl, inr, refl, sym, ap, ◌∙◌, subst, Bool, Option, some, List, [], ◌∷◌, String,
  some_unique,
}
use fault_warden.Schemas.{
  RemediationAction, PolicyResult, RemediationSettings, Reason, allowed_action,
  approval_required_action, rejected_action,
}
use fault_warden.Verify.{InvestigationSettings}
use fault_warden.Audit.{RemediationResult}
use fault_warden.Limits.Gate.{Permits, evaluate_remediation_policy_node-Permits}
use fault_warden.Limits.Enforcement.{IsExecutable}
use fault_warden.Graph.{
  State, Node, classify_incident, await_remediation_approval, execute_remediation,
  validate_remediation, finalize_investigation, end_node, should_continue_investigation,
  route_remediation_policy_result, route_approval_decision, action_of, policy_input, ResumeValue,
  parse_resume, finalize_investigation_node,
}
use fault_warden.Graph.Routes.{
  continue-cases, policy-route, approval-route, await_inv, execute_inv, validate_inv,
}
use fault_warden.Graph.Steps.{
  Config, at, Step, classifies, measures, reads_logs, remembers, lists_changes, correlates,
  hypothesizes, verifies, collects, suggests, evaluates, resumes, executes, validates, finalizes,
  Walk, stop, go, evaluated_state,
}

-- An allowed action needs no answer; the other ones need the operator's APPROVE.
abbrev pub IsAnswered : PolicyResult → (decision : Option String) → Type 0
IsAnswered (allowed_action a) decision = Unit
IsAnswered (approval_required_action a why) decision = decision ≡ some "APPROVE"
IsAnswered (rejected_action id name why) decision = ⊥

module _ (lower upper : String → String) (investigation : InvestigationSettings)
    (settings : RemediationSettings) (uuid : ℕ → ℕ) where
  -- The result in the state is the policy's, and permits the action.
  pub record IsPermitted (s : State) (a : RemediationAction) (r : PolicyResult) : Type 0 where
    pub holds : s.remediation_policy_result ≡ some r
    pub executable : IsExecutable a r
    pub permits : Permits lower settings investigation.max_iterations uuid (policy_input s) r

  -- The action may be executed in this state.
  abbrev pub IsGranted : State → RemediationAction → Type 0
  IsGranted s a =
      (r : PolicyResult) × IsPermitted s a r × IsAnswered r s.remediation_approval_decision

  -- At most one action has been executed, and it was granted.
  abbrev pub IsJustified : State → List RemediationAction → Type 0
  IsJustified s [] = Unit
  IsJustified s (a ∷ []) = IsGranted s a
  IsJustified s (a ∷ b ∷ log) = ⊥

  -- What holds when a node is run next.
  abbrev pub Holds : Node → State → List RemediationAction → Type 0
  Holds await_remediation_approval s log =
      (log ≡ [])
      × ((a : RemediationAction) × (why : Reason) × IsPermitted s a
            (approval_required_action a why))
  Holds execute_remediation s log = (log ≡ []) × ((a : RemediationAction) × IsGranted s a)
  Holds validate_remediation s log = IsJustified s log × ((a : RemediationAction) × IsGranted s a)
  Holds finalize_investigation s log = IsJustified s log
  Holds end_node s log = IsJustified s log
  Holds _ s log = log ≡ []

  abbrev pub IsSafe : Config → Type 0
  IsSafe c = Holds c.node c.state c.executed

  pub executable_action :
      (a : RemediationAction) (r : PolicyResult) → IsExecutable a r → action_of (some r) ≡ some a
  executable_action a (allowed_action b) h = ap some h
  executable_action a (approval_required_action b why) h = ap some h
  executable_action a (rejected_action id name why) h = absurd h

  granted_action :
      (s : State) (a b : RemediationAction)
      → IsGranted s a
      → action_of s.remediation_policy_result ≡ some b
      → b ≡ a
  granted_action s a b (r, permitted, answered) h =
      some_unique b a (action_of s.remediation_policy_result) h
        (ap action_of permitted.holds ∙ executable_action a r permitted.executable)

  IsPermitted-result :
      (s : State) (a : RemediationAction) (r : PolicyResult)
      → (evaluated_state lower upper investigation settings uuid s).remediation_policy_result
        ≡ some r
      → IsExecutable a r
      → IsPermitted (evaluated_state lower upper investigation settings uuid s) a r
  IsPermitted-result s a r e h = record {
    holds = e;
    executable = h;
    permits =
        evaluate_remediation_policy_node-Permits lower settings investigation.max_iterations uuid
          (policy_input s) r a e h;
  }

  verified-IsSafe :
      (s : State) (log : List RemediationAction)
      → log ≡ []
      → Holds (should_continue_investigation investigation s) s log
  verified-IsSafe s log h = elim (continue-cases investigation s) [
    | inl propose ↦ subst (λ n. Holds n s log) (sym propose) h
    | inr again ↦ subst (λ n. Holds n s log) (sym again.0) h
  ]

  evaluated-IsSafe :
      (s : State) (log : List RemediationAction)
      → log ≡ []
      → (let t = evaluated_state lower upper investigation settings uuid s in
          Holds (route_remediation_policy_result t) t log)
  evaluated-IsSafe s log h =
      let t = evaluated_state lower upper investigation settings uuid s in
      elim (policy-route t) [
        | inl (route, (a, e)) ↦
            subst (λ n. Holds n t log) (sym route)
              (h, (a, (allowed_action a, IsPermitted-result s a (allowed_action a) e refl, tt)))
        | inr (inl (route, (a, why, e))) ↦
            subst (λ n. Holds n t log) (sym route)
              (h, (a, why, IsPermitted-result s a (approval_required_action a why) e refl))
        | inr (inr route) ↦
            subst (λ n. Holds n t log) (sym route) (subst (IsJustified t) (sym h) tt)
      ]

  -- The keys that the later nodes set say nothing of the grant.
  rewrap :
      (s : State) (decision : Option String) (result : Option RemediationResult)
      (passed : Option Bool) (status : Option String) (a : RemediationAction) (r : PolicyResult)
      → IsPermitted s a r
      → IsPermitted
          (record s {
            remediation_approval_decision = decision;
            remediation_result = result;
            remediation_validation_passed = passed;
            investigation_status = status;
          })
          a
          r
  rewrap s decision result passed status a r p = record {
    holds = p.holds;
    executable = p.executable;
    permits = p.permits;
  }

  regrant :
      (s : State) (result : Option RemediationResult) (passed : Option Bool)
      (status : Option String) (a : RemediationAction)
      → IsGranted s a
      → IsGranted
          (record s {
            remediation_result = result;
            remediation_validation_passed = passed;
            investigation_status = status;
          })
          a
  regrant s result passed status a (r, p, answered) =
      (r, rewrap s s.remediation_approval_decision result passed status a r p, answered)

  rejustify :
      (s : State) (passed : Option Bool) (status : Option String) (log : List RemediationAction)
      → IsJustified s log
      → IsJustified
          (record s { remediation_validation_passed = passed; investigation_status = status })
          log
  rejustify s passed status [] h = tt
  rejustify s passed status (a ∷ []) h = regrant s s.remediation_result passed status a h
  rejustify s passed status (a ∷ b ∷ log) h = absurd h

  resumed-IsSafe :
      (s t : State) (log : List RemediationAction) (resume : ResumeValue)
      → t ≡ record s { remediation_approval_decision = some (parse_resume upper resume) }
      → Holds await_remediation_approval s log
      → Holds (route_approval_decision t) t log
  resumed-IsSafe s t log resume e (empty, (a, why, p)) = elim (approval-route t) [
    | inl (route, approve) ↦
        subst (λ n. Holds n t log) (sym route)
          (
            empty,
            (
              a,
              (
                approval_required_action a why,
                subst (λ x. IsPermitted x a (approval_required_action a why)) (sym e)
                    (rewrap s (some (parse_resume upper resume)) s.remediation_result
                      s.remediation_validation_passed s.investigation_status a _ p),
                approve,
              ),
            ),
          )
    | inr route ↦ subst (λ n. Holds n t log) (sym route) (subst (IsJustified t) (sym empty) tt)
  ]

  executed-IsSafe :
      (s t : State) (log : List RemediationAction) (result : RemediationResult)
      (b : RemediationAction)
      → (action_of s.remediation_policy_result ≡ some b)
        × (t ≡ record s { remediation_result = some result })
      → Holds execute_remediation s log
      → Holds validate_remediation t (b ∷ log)
  executed-IsSafe s t log result b (found, e) (empty, (a, granted)) =
      let mine = subst (IsGranted s) (sym (granted_action s a b granted found)) granted in
      let later =
        subst (λ x. IsGranted x b) (sym e)
          (regrant s (some result) s.remediation_validation_passed s.investigation_status b mine) in
      (subst (λ l. IsJustified t (b ∷ l)) (sym empty) later, (b, later))

  Step-IsSafe :
      {c d : Config} → Step lower upper investigation settings uuid c d → IsSafe c → IsSafe d
  unfolding finalize_investigation_node
  Step-IsSafe (classifies s log c e) h = h
  Step-IsSafe (measures s log e) h = h
  Step-IsSafe (reads_logs s log e) h = h
  Step-IsSafe (remembers s log) h = h
  Step-IsSafe (lists_changes s log changes) h = h
  Step-IsSafe (correlates s log c) h = h
  Step-IsSafe (hypothesizes s log x) h = h
  Step-IsSafe (verifies s log answer) h = verified-IsSafe _ log h
  Step-IsSafe (collects s log e) h = h
  Step-IsSafe (suggests s log ps) h = h
  Step-IsSafe (evaluates s log) h = evaluated-IsSafe s log h
  Step-IsSafe (resumes s t log resume e) h =
      resumed-IsSafe s t log resume (await_inv upper s t resume e) h
  Step-IsSafe (executes s t log result a e) h =
      executed-IsSafe s t log result a (execute_inv s t result a e) h
  Step-IsSafe (validates s t log answer e) h =
      let (passed, t≡) = validate_inv s t answer e in
      subst (λ x. IsJustified x log) (sym t≡) (rejustify s passed s.investigation_status log h.0)
  Step-IsSafe (finalizes s log) h = rejustify s s.remediation_validation_passed _ log h

  pub Walk-IsSafe :
      {n : ℕ} {c d : Config}
      → Walk lower upper investigation settings uuid n c d
      → IsSafe c
      → IsSafe d
  Walk-IsSafe stop h = h
  Walk-IsSafe (go step path) h = Walk-IsSafe path (Step-IsSafe step h)

  Holds-IsJustified :
      (n : Node) (s : State) (log : List RemediationAction) → Holds n s log → IsJustified s log
  Holds-IsJustified await_remediation_approval s log h = subst (IsJustified s) (sym h.0) tt
  Holds-IsJustified execute_remediation s log h = subst (IsJustified s) (sym h.0) tt
  Holds-IsJustified validate_remediation s log h = h.0
  Holds-IsJustified finalize_investigation s log h = h
  Holds-IsJustified end_node s log h = h
  Holds-IsJustified _ s log h = subst (IsJustified s) (sym h) tt

  -- In a run of the graph from its first node, whatever the LLM, the telemetry, the executor and the
  -- operator answer and wherever it stands, at most one action has been executed; it is the action
  -- of the policy result in the state, that result meets all that the policy node asks of an action
  -- it lets through, and it is an automatic one or the operator answered APPROVE.
  pub executions-IsJustified :
      (n : ℕ) (s : State) (d : Config)
      → Walk lower upper investigation settings uuid n (at classify_incident s []) d
      → IsJustified d.state d.executed
  executions-IsJustified n s d path =
      Holds-IsJustified d.node d.state d.executed (Walk-IsSafe path refl)
