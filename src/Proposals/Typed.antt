-- ===== src/Proposals/Typed.antt =====
-- What graph/nodes/propose_remediation.py proposes, and what becomes of it.
use fault_warden.Base.{
  ℕ, suc, ◌≡◌, ◌≢◌, refl, sym, subst, Bool, true, false, Option, none, some, List, [], ◌∷◌, String,
  All, arith,
}
use fault_warden.Schemas.{
  ActionType, reset_demo_failure, restart_registered_service, action_value, Parameters, dict,
  RemediationProposal, RemediationSettings, PolicyResult, RootCauseAnalysis, allowed_action,
  approval_required_action, rejected_action,
}
use fault_warden.Policy.{parse_action_type, validate_parameters, evaluate_policy}
use fault_warden.Policy.Targets.{TargetsDemo, IsAdmissible, demo_parameters, parse_inverse}
use fault_warden.Policy.Decisions.{IsDecision, evaluate_policy-IsDecision}
use fault_warden.Investigation.{incident_failed, decide_terminal_status}
use fault_warden.Proposals.{
  RemediationActionCandidate, RemediationProposalResponse, ProposalInput, typed_proposal, validated,
  parse_remediation_proposal, proposal_evidence, with_proposal, parse_all, answered_proposals,
  or_fallback_proposals, propose_remediation_node,
}

-- A proposal of a registered action on the demo service, for this incident and its evidence.
pub record IsTyped (input : ProposalInput) (p : RemediationProposal) : Type 0 where
  pub kind : ActionType
  pub names : p.action_type ≡ action_value kind
  pub targets : p.parameters ≡ demo_parameters kind
  pub of_incident : p.incident_id ≡ input.incident_id
  pub supported : p.supporting_evidence_ids ≡ proposal_evidence input
  pub wants_approval : p.requires_approval ≡ true

validate_dict :
    (t : ActionType) (es : List (String × Option String)) (q : Parameters)
    → validate_parameters t (dict es) ≡ some q
    → q ≡ demo_parameters t
validate_dict reset_demo_failure es q h = ground arith
validate_dict restart_registered_service es q h = ground arith

-- What stands in an option.
abbrev InOption : (RemediationProposal → Type 0) → Option RemediationProposal → Type 0
InOption P none = Unit
InOption P (some p) = P p

parse-IsTyped :
    (input : ProposalInput) (id : ℕ) (effect : String) (c : RemediationActionCandidate)
    → InOption
        (IsTyped input)
        (parse_remediation_proposal id input.incident_id (proposal_evidence input) effect c)
unfolding parse_remediation_proposal
parse-IsTyped input id effect c = by_type (parse_action_type c.action_type) refl
  where
    by_parameters :
        (t : ActionType) (o : Option Parameters)
        → c.action_type ≡ action_value t
        → validate_parameters t (dict c.parameters) ≡ o
        → InOption
            (IsTyped input)
            (typed_proposal id input.incident_id (proposal_evidence input) effect c o)
    by_parameters t none e h = tt
    by_parameters t (some q) e h = record {
      kind = t;
      names = e;
      targets = validate_dict t c.parameters q h;
      of_incident = refl;
      supported = refl;
      wants_approval = refl;
    }

    by_type :
        (o : Option ActionType)
        → parse_action_type c.action_type ≡ o
        → InOption (IsTyped input) (
            typed_proposal id input.incident_id
              (proposal_evidence input)
              effect
              c
              (validated o c.parameters))
    by_type none h = tt
    by_type (some t) h =
        by_parameters t (validate_parameters t (dict c.parameters)) (parse_inverse c.action_type h)
          refl

module _ (uuid : ℕ → ℕ) (input : ProposalInput) where
  with_proposal-All :
      (o : Option RemediationProposal) (rest : List RemediationProposal)
      → InOption (IsTyped input) o
      → All (IsTyped input) rest
      → All (IsTyped input) (with_proposal uuid o rest)
  with_proposal-All none rest h all = all
  with_proposal-All (some p) rest h all = (h, all)

  parse_all-All :
      (effect : String) (n : ℕ) (cs : List RemediationActionCandidate)
      → All (IsTyped input) (parse_all uuid input effect n cs)
  unfolding parse_all
  parse_all-All effect n [] = tt
  parse_all-All effect n (c ∷ cs) =
      with_proposal-All
        (parse_remediation_proposal (uuid n) input.incident_id (proposal_evidence input) effect c)
        (parse_all uuid input effect (suc n) cs) (parse-IsTyped input (uuid n) effect c)
        (parse_all-All effect (suc n) cs)

  answered-All :
      (response : Option RemediationProposalResponse)
      → All (IsTyped input) (answered_proposals uuid input response)
  answered-All none = tt
  answered-All (some response) = parse_all-All _ 2 response.actions

  fallback-All :
      (ps : List RemediationProposal)
      → All (IsTyped input) ps
      → All (IsTyped input) (or_fallback_proposals uuid input ps)
        × (or_fallback_proposals uuid input ps ≢ [])
  fallback-All (p ∷ ps) h = (h, λ e. ground arith)
  fallback-All [] h = (
    (
      record {
        kind = reset_demo_failure;
        names = refl;
        targets = refl;
        of_incident = refl;
        supported = refl;
        wants_approval = refl;
      },
      (
        record {
          kind = restart_registered_service;
          names = refl;
          targets = refl;
          of_incident = refl;
          supported = refl;
          wants_approval = refl;
        },
        tt,
      ),
    ),
    λ e. ground arith,
  )

-- With proposals a completed run never ends as FAILED.
some_proposal-status :
    (passed : Option Bool) (ps : List RemediationProposal) (cause : Option RootCauseAnalysis)
    → ps ≢ []
    → (decide_terminal_status passed ps cause).0 ≢ incident_failed
unfolding decide_terminal_status
some_proposal-status (some true) ps cause ne = λ e. ground arith
some_proposal-status (some false) ps cause ne = λ e. ground arith
some_proposal-status none [] cause ne = absurd (ne refl)
some_proposal-status none (p ∷ ps) cause ne = λ e. ground arith

-- A typed proposal that the policy does not reject.
abbrev pub IsNotRejected : PolicyResult → Type 0
IsNotRejected (rejected_action id name reason) = ⊥
IsNotRejected _ = Unit

demo_parameters-TargetsDemo : (t : ActionType) → TargetsDemo t (demo_parameters t)
demo_parameters-TargetsDemo reset_demo_failure = refl
demo_parameters-TargetsDemo restart_registered_service = refl

decision-IsNotRejected :
    (settings : RemediationSettings) (p : RemediationProposal) (t : ActionType) (r : PolicyResult)
    → IsAdmissible settings p t
    → IsDecision settings p r
    → IsNotRejected r
decision-IsNotRejected settings p t (allowed_action a) ok h = tt
decision-IsNotRejected settings p t (approval_required_action a reason) ok h = tt
decision-IsNotRejected settings p t (rejected_action id name reason) ok h = h.0 (t, ok)

-- What the policy and the service make of it.
abbrev pub IsUsable :
    ProposalInput → RemediationSettings → (action_id : ℕ) → RemediationProposal → Type 0
IsUsable input settings action_id p =
    IsTyped input p × IsNotRejected (evaluate_policy settings action_id p)

typed-IsUsable :
    (input : ProposalInput) (settings : RemediationSettings) (action_id : ℕ)
    (ps : List RemediationProposal)
    → settings.enabled ≡ true
    → All (IsTyped input) ps
    → All (IsUsable input settings action_id) ps
typed-IsUsable input settings action_id [] on h = tt
typed-IsUsable input settings action_id (p ∷ ps) on h = (
  (
    h.0,
    decision-IsNotRejected settings p (h.0.kind) (evaluate_policy settings action_id p)
        (record {
          enabled = on;
          names = h.0.names;
          targets =
              subst (TargetsDemo h.0.kind) (sym h.0.targets) (demo_parameters-TargetsDemo h.0.kind);
        })
        (evaluate_policy-IsDecision settings action_id p),
  ),
  typed-IsUsable input settings action_id ps on h.1,
)

-- Whatever the LLM answers, there is a proposal, and each is of a registered action on the demo
-- service, for this incident, with the evidence of its cause and in want of an approval. With the
-- pipeline enabled the policy rejects none of them, and a completed run never ends as FAILED.
pub propose_remediation_node-IsUsable :
    (uuid : ℕ → ℕ) (input : ProposalInput) (settings : RemediationSettings) (action_id : ℕ)
    (response : Option RemediationProposalResponse)
    → settings.enabled ≡ true
    → All (IsUsable input settings action_id) (propose_remediation_node uuid input response)
      × (propose_remediation_node uuid input response ≢ [])
      × ((passed : Option Bool) (cause : Option RootCauseAnalysis)
          → (decide_terminal_status passed (propose_remediation_node uuid input response) cause).0
            ≢ incident_failed)
unfolding propose_remediation_node
propose_remediation_node-IsUsable uuid input settings action_id response on =
    let made =
      fallback-All uuid input (answered_proposals uuid input response)
        (answered-All uuid input response) in
    (
      typed-IsUsable input settings action_id _ on made.0,
      made.1,
      λ passed cause. some_proposal-status passed _ cause made.1,
    )
