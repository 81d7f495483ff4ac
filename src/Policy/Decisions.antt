-- ===== src/Policy/Decisions.antt =====
-- What `evaluate_policy` of core/policy.py decides, on every branch.
use fault_warden.Base.{
  ℕ, ◌≡◌, refl, ◌≤◌, ◌<◌, inl, inr, true, false, Option, none, some, ltb, ltb→lt, ap, ◌∙◌, arith,
  Bool-cases, sym, subst,
}
use fault_warden.Schemas.{
  level_value, ActionType, action_value, Parameters, RemediationProposal, RemediationAction,
  PolicyResult, allowed_action, rem_exec, approval_required_action, rejected_action,
  RemediationSettings,
}
use fault_warden.Policy.{
  registry_entry, decide_action, build_action, parse_action_type, evaluate_policy,
  is_allowed_target, extract_target, validate_parameters, evaluate_registered, evaluate_validated,
}
use fault_warden.Policy.Targets.{
  IsAdmissible, TargetsDemo, parse-action_value, parse_inverse, TargetsDemo-Accepts,
  Accepts-TargetsDemo,
}

-- The action is the proposal's, at the level of the registry, for the demo service's parameters.
pub record IsActionFor (proposal : RemediationProposal) (action : RemediationAction) : Type 0 where
  pub of_proposal : action.proposal_id ≡ proposal.id
  pub at_level : action.policy_level ≡ (registry_entry action.action_type).policy_level
  pub by_executor : action.executor ≡ (registry_entry action.action_type).executor
  pub with_key : action.idempotency_key ≡ some (rem_exec proposal.id)

-- The result that the policy promises: automatic execution up to the threshold, a human's approval
-- above it, and a rejection of exactly what is not admissible.
abbrev pub IsDecision : RemediationSettings → RemediationProposal → PolicyResult → Type 0
IsDecision settings proposal (allowed_action a) =
    IsAdmissible settings proposal a.action_type
    × IsActionFor proposal a
    × (a.approval_required ≡ false)
    × (level_value a.policy_level ≤ settings.auto_execute_max_safety_level)
IsDecision settings proposal (approval_required_action a reason) =
    IsAdmissible settings proposal a.action_type
    × IsActionFor proposal a
    × (a.approval_required ≡ true)
    × (settings.auto_execute_max_safety_level < level_value a.policy_level)
IsDecision settings proposal (rejected_action id name reason) =
    (¬ ((t : ActionType) × IsAdmissible settings proposal t))
    × (id ≡ proposal.id)
    × (name ≡ proposal.action_type)

-- An action type is found again from its text, so two with one text are the same.
action_value-injective : (t u : ActionType) → action_value t ≡ action_value u → t ≡ u
action_value-injective t u e =
    cc (parse-action_value t, parse-action_value u, ap parse_action_type e)

module _ (settings : RemediationSettings) (action_id : ℕ) (proposal : RemediationProposal) where
  not_admissible :
      (t : ActionType)
      → proposal.action_type ≡ action_value t
      → ((u : ActionType) × IsAdmissible settings proposal u)
      → TargetsDemo t proposal.parameters
  not_admissible t e (u, h) =
      subst (λ v. TargetsDemo v proposal.parameters) (action_value-injective u t (sym h.names ∙ e))
        h.targets

  decide_action-IsDecision :
      (a : RemediationAction)
      → IsAdmissible settings proposal a.action_type
      → IsActionFor proposal a
      → a.approval_required
        ≡ ltb settings.auto_execute_max_safety_level (level_value a.policy_level)
      → IsDecision settings proposal (decide_action settings a)
  decide_action-IsDecision a h built e = elim (Bool-cases a.approval_required) [
    | inl above ↦ simp above (h, built, refl, ltb→lt _ _ (sym e ∙ above))
    | inr within ↦ simp within (h, built, refl, ground arith)
  ]

  accepted-IsDecision :
      (t : ActionType) (q : Parameters)
      → IsAdmissible settings proposal t
      → IsDecision settings proposal (evaluate_validated settings action_id proposal t (some q))
  accepted-IsDecision t q h =
      decide_action-IsDecision (build_action settings action_id proposal t q) h
        (record { of_proposal = refl; at_level = refl; by_executor = refl; with_key = refl }) refl

  validated-IsDecision :
      (t : ActionType) (q : Option Parameters)
      → settings.enabled ≡ true
      → proposal.action_type ≡ action_value t
      → is_allowed_target (extract_target proposal.parameters) (registry_entry t).allowed_targets
        ≡ true
      → validate_parameters t proposal.parameters ≡ q
      → IsDecision settings proposal (evaluate_validated settings action_id proposal t q)
  validated-IsDecision t none on e ok v = (
    λ adm. cc (v, (TargetsDemo-Accepts t proposal.parameters (not_admissible t e adm)).1),
    refl,
    refl,
  )
  validated-IsDecision t (some q) on e ok v =
      accepted-IsDecision t q (record {
        enabled = on;
        names = e;
        targets = Accepts-TargetsDemo t proposal.parameters ok v;
      })

  targeted-IsDecision :
      (t : ActionType)
      → settings.enabled ≡ true
      → proposal.action_type ≡ action_value t
      → IsDecision settings proposal (evaluate_registered settings action_id proposal (some t))
  targeted-IsDecision t on e =
      elim (Bool-cases (
        is_allowed_target (extract_target proposal.parameters)
          (registry_entry t).allowed_targets)) [
            | inl ok ↦ rw ok (validated-IsDecision t _ on e ok refl)
            | inr bad ↦ rw bad (
              λ adm.
                  cc (bad, (TargetsDemo-Accepts t proposal.parameters (not_admissible t e adm)).0),
              refl,
              refl,
            )
          ]

  registered-IsDecision :
      (parsed : Option ActionType)
      → settings.enabled ≡ true
      → parse_action_type proposal.action_type ≡ parsed
      → IsDecision settings proposal (evaluate_registered settings action_id proposal parsed)
  registered-IsDecision none on e =
      (λ adm. cc (e, parse-action_value adm.0, ap parse_action_type adm.1.names), refl, refl)
  registered-IsDecision (some t) on e =
      targeted-IsDecision t on (parse_inverse proposal.action_type e)

  -- On every input `evaluate_policy` allows the action automatically exactly if the pipeline is
  -- enabled, the action type is registered, the parameters name the demo service and nothing else,
  -- and the registry's level is at most the threshold; above the threshold it asks for approval, and
  -- it rejects exactly the proposals that are not admissible. An action carries the registry's level
  -- and executor, whatever the proposal suggests.
  pub evaluate_policy-IsDecision :
      IsDecision settings proposal (evaluate_policy settings action_id proposal)
  unfolding evaluate_policy
  evaluate_policy-IsDecision = elim (Bool-cases settings.enabled) [
    | inl on ↦ simp on (registered-IsDecision _ on refl)
    | inr off ↦ simp off (λ adm. cc (off, adm.1.enabled), refl, refl)
  ]
