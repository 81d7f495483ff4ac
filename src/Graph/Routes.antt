-- ===== src/Graph/Routes.antt =====
-- Where the routes of graph/builder.py lead, and what the nodes that may raise do otherwise.
use fault_warden.Base.{
  some_unique, eq_iff, ◌≡◌, ◌<◌, ◌⊎◌, inl, inr, refl, sym, ap, Bool, true, false, not, Option, none,
  some, String, arith, if◌then◌else◌,
}
use fault_warden.Schemas.{
  RemediationAction, PolicyResult, Reason, allowed_action, approval_required_action,
  rejected_action,
}
use fault_warden.Verify.{InvestigationSettings}
use fault_warden.Audit.{RemediationResult}
use fault_warden.Graph.{
  State, collect_additional_telemetry, propose_remediation, await_remediation_approval,
  execute_remediation, finalize_investigation, should_continue_investigation, route_result,
  route_remediation_policy_result, route_approval_decision, action_of, ResumeValue, parse_resume,
  await_result, execute_action, validate_action, validate_result, is_text,
  await_remediation_approval_node, execute_remediation_node, validate_remediation_node,
}

pub continue-cases :
    (settings : InvestigationSettings) (s : State)
    → (should_continue_investigation settings s ≡ propose_remediation)
      ⊎ ((should_continue_investigation settings s ≡ collect_additional_telemetry)
          × (s.iteration_count < settings.max_iterations))
unfolding should_continue_investigation
continue-cases settings s = ground arith

route_cases :
    (b : Bool) (o : Option PolicyResult)
    → (((if b then finalize_investigation else route_result o) ≡ execute_remediation)
        × ((a : RemediationAction) × (o ≡ some (allowed_action a))))
      ⊎ (((if b then finalize_investigation else route_result o) ≡ await_remediation_approval)
          × ((a : RemediationAction) × (why : Reason) × (o
                ≡ some (approval_required_action a why))))
      ⊎ ((if b then finalize_investigation else route_result o) ≡ finalize_investigation)
route_cases true o = inr (inr refl)
route_cases false none = inr (inr refl)
route_cases false (some (allowed_action a)) = inl (refl, (a, refl))
route_cases false (some (approval_required_action a why)) = inr (inl (refl, (a, why, refl)))
route_cases false (some (rejected_action id name why)) = inr (inr refl)

-- The executor is next only for an allowed action, a human only for one that needs an approval.
pub policy-route :
    (s : State)
    → ((route_remediation_policy_result s ≡ execute_remediation)
        × ((a : RemediationAction) × (s.remediation_policy_result ≡ some (allowed_action a))))
      ⊎ ((route_remediation_policy_result s ≡ await_remediation_approval)
          × ((a : RemediationAction) × (why : Reason) × (s.remediation_policy_result
                ≡ some (approval_required_action a why))))
      ⊎ (route_remediation_policy_result s ≡ finalize_investigation)
unfolding route_remediation_policy_result
policy-route s = route_cases _ s.remediation_policy_result

text_cases :
    (o : Option String) (text : String)
    → ((is_text text o ≡ true) × (o ≡ some text)) ⊎ (is_text text o ≡ false)
text_cases none text = inr refl
text_cases (some t) text = ground (arith, eq_iff t text)

-- After the approval node the executor is next only on APPROVE.
pub approval-route :
    (s : State)
    → ((route_approval_decision s ≡ execute_remediation)
        × (s.remediation_approval_decision ≡ some "APPROVE"))
      ⊎ (route_approval_decision s ≡ finalize_investigation)
unfolding route_approval_decision
approval-route s = elim (text_cases s.remediation_approval_decision "APPROVE") [
  | inl yes_text ↦ inl (rw yes_text.0, yes_text.1)
  | inr other ↦ inr (rw other)
]

pub await_inv :
    (upper : String → String) (s t : State) (resume : ResumeValue)
    → await_remediation_approval_node upper s resume ≡ some t
    → t ≡ record s { remediation_approval_decision = some (parse_resume upper resume) }
unfolding await_remediation_approval_node
await_inv upper s t resume h = go s.remediation_policy_result h
  where
    go :
        (o : Option PolicyResult)
        → await_result upper s resume o ≡ some t
        → t ≡ record s { remediation_approval_decision = some (parse_resume upper resume) }
    go none h = absurd (ground arith)
    go (some (allowed_action a)) h = absurd (ground arith)
    go (some (rejected_action id name why)) h = absurd (ground arith)
    go (some (approval_required_action a why)) h = some_unique _ _ _ h refl

pub execute_inv :
    (s t : State) (result : RemediationResult) (a : RemediationAction)
    → execute_remediation_node s result ≡ some (a, t)
    → (action_of s.remediation_policy_result ≡ some a)
      × (t ≡ record s { remediation_result = some result })
unfolding execute_remediation_node
execute_inv s t result a h = go (action_of s.remediation_policy_result) h
  where
    go :
        (o : Option RemediationAction)
        → execute_action s result o ≡ some (a, t)
        → (o ≡ some a) × (t ≡ record s { remediation_result = some result })
    go none h = absurd (ground arith)
    go (some b) h =
        let pairs = some_unique _ _ _ h refl in
        (ap some (sym (ap (λ x. x.0) pairs)), ap (λ x. x.1) pairs)

pub validate_inv :
    (s t : State) (answer : Option Bool)
    → validate_remediation_node s answer ≡ some t
    → (b : Option Bool) × (t ≡ record s { remediation_validation_passed = b })
unfolding validate_remediation_node
validate_inv s t answer h = go s.remediation_result h
  where
    act :
        (o : Option RemediationAction)
        → validate_action s answer o ≡ some t
        → (b : Option Bool) × (t ≡ record s { remediation_validation_passed = b })
    act none h = absurd (ground arith)
    act (some a) h = (_, some_unique _ _ _ h refl)

    check :
        (b : Bool)
        → (if not b
            then some (record s { remediation_validation_passed = none })
            else validate_action s answer (action_of s.remediation_policy_result))
          ≡ some t
        → (b : Option Bool) × (t ≡ record s { remediation_validation_passed = b })
    check true h = act (action_of s.remediation_policy_result) h
    check false h = (_, some_unique _ _ _ h refl)

    go :
        (o : Option RemediationResult)
        → validate_result s answer o ≡ some t
        → (b : Option Bool) × (t ≡ record s { remediation_validation_passed = b })
    go none h = (_, some_unique _ _ _ h refl)
    go (some result) h = check result.success h
