-- ===== src/Graph/Approval.antt =====
-- How graph/nodes/remediation_approval.py reads the operator's answer, and where graph/builder.py
-- goes on it.
use fault_warden.Base.{◌≡◌, ◌↔◌, ◌⊎◌, inl, inr, ap, some, String, arith, eq_iff}
use fault_warden.Graph.{
  State, execute_remediation, finalize_investigation, route_approval_decision, ResumeValue,
  with_decision, plain_text, unrecognized, decision_or_reject, parse_resume, is_text,
  await_remediation_approval_node,
}
use fault_warden.Graph.Routes.{await_inv, approval-route}

-- The answer says APPROVE, in letters of any case.
abbrev pub Approves : (upper : String → String) → ResumeValue → Type 0
Approves upper (with_decision t) = upper t ≡ "APPROVE"
Approves upper (plain_text t) = upper t ≡ "APPROVE"
Approves upper unrecognized = ⊥

-- The answer is one of the four that the node can give.
decision-Approves : (t : String) → (decision_or_reject t ≡ "APPROVE") ↔ (t ≡ "APPROVE")
decision-Approves t = ground (
  arith,
  eq_iff t "APPROVE",
  eq_iff t "REJECT",
  eq_iff t "CANCEL",
  eq_iff "REJECT" "APPROVE",
  eq_iff "CANCEL" "APPROVE",
)

parse-Approves :
    (upper : String → String) (v : ResumeValue)
    → (parse_resume upper v ≡ "APPROVE") ↔ Approves upper v
parse-Approves upper (with_decision t) = decision-Approves (upper t)
parse-Approves upper (plain_text t) = decision-Approves (upper t)
parse-Approves upper unrecognized =
    (λ e. absurd (ground (arith, eq_iff "REJECT" "APPROVE")), λ h. absurd h)

routed_iff :
    (s : State) (d : String)
    → s.remediation_approval_decision ≡ some d
    → (route_approval_decision s ≡ execute_remediation) ↔ (d ≡ "APPROVE")
unfolding route_approval_decision
routed_iff s d e = let test = ap (is_text "APPROVE") e in ground (arith, eq_iff d "APPROVE")

-- When the graph is resumed after the approval node, the action is executed next exactly if the
-- operator's answer, a text or the decision in a dict, says APPROVE; every other answer, an unknown
-- word or a value of another kind included, leads to the end without an execution.
pub resumed_action_runs_iff :
    (upper : String → String) (s t : State) (v : ResumeValue)
    → await_remediation_approval_node upper s v ≡ some t
    → ((route_approval_decision t ≡ execute_remediation) ↔ Approves upper v)
      × ((route_approval_decision t ≡ execute_remediation)
          ⊎ (route_approval_decision t ≡ finalize_investigation))
resumed_action_runs_iff upper s t v h =
    let set = ap (λ x. x.remediation_approval_decision) (await_inv upper s t v h) in
    let routed = routed_iff t (parse_resume upper v) set in
    let parsed = parse-Approves upper v in
    (
      (λ run. parsed.0 (routed.0 run), λ yes_answer. routed.1 (parsed.1 yes_answer)),
      either (approval-route t),
    )
  where
    either :
        {A B : Type 0}
        → ((route_approval_decision t ≡ execute_remediation) × A) ⊎ B
        → (route_approval_decision t ≡ execute_remediation) ⊎ B
    either (inl run) = inl run.0
    either (inr final) = inr final
