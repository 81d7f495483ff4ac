-- ===== src/Proposals.antt =====
-- graph/nodes/propose_remediation.py: `propose_remediation_node`, and `parse_remediation_proposal` of
-- schemas/remediation.py, which the LLM's candidates go through.
--
-- The LLM's answer is an argument, none where the call raises. pydantic's validation of a candidate
-- is the one of the parameter models, whose values other than texts count as None: both are refused.
pub mod Typed
use fault_warden.Base.{
  ℕ, zero, suc, true, Option, none, some, List, [], ◌∷◌, map, if◌then◌else◌, nonempty, String,
}
use fault_warden.Schemas.{
  SafetyLevel, level_0_read_only, level_1_safe_automatic, level_2_human_approval_required,
  Parameters, dict, reset_demo_failure_parameters, restart_registered_service_parameters,
  RemediationProposal, RootCauseAnalysis, Hypothesis, EvidenceItem, ActionType,
}
use fault_warden.Schemas.Alert.{or_default, truthy}
use fault_warden.Policy.{parse_action_type, validate_parameters}

pub record RemediationActionCandidate : Type 0 where
  pub name : String
  pub safety_level : ℕ
  pub action_type : String
  pub parameters : List (String × Option String)

pub record RemediationProposalResponse : Type 0 where
  pub actions : List RemediationActionCandidate
  pub estimated_impact : String

-- What the node reads of the state.
pub record ProposalInput : Type 0 where
  pub incident_id : ℕ
  pub root_cause : Option RootCauseAnalysis
  pub selected_hypothesis : Option Hypothesis
  pub evidence : List EvidenceItem

abbrev pub risk_of : (safety_level : ℕ) → SafetyLevel
risk_of zero = level_0_read_only
risk_of (suc zero) = level_1_safe_automatic
risk_of (suc (suc n)) = level_2_human_approval_required

abbrev pub typed_proposal :
    (id incident_id : ℕ) (evidence_ids : List String) (expected_effect : String)
    → RemediationActionCandidate
    → Option Parameters
    → Option RemediationProposal
typed_proposal id incident_id evidence_ids expected_effect candidate none = none
typed_proposal id incident_id evidence_ids expected_effect candidate (some parameters) =
    some (record {
      id = id;
      incident_id = incident_id;
      title = candidate.name;
      expected_effect = expected_effect;
      supporting_evidence_ids = evidence_ids;
      proposed_risk = risk_of candidate.safety_level;
      requires_approval = true;
      action_type = candidate.action_type;
      parameters = parameters;
    })

-- The parameters of the member of the union that the action type names.
abbrev pub validated : Option ActionType → List (String × Option String) → Option Parameters
validated none parameters = none
validated (some t) parameters = validate_parameters t (dict parameters)

unfoldable pub parse_remediation_proposal :
    (id incident_id : ℕ) (evidence_ids : List String) (expected_effect : String)
    → RemediationActionCandidate
    → Option RemediationProposal
parse_remediation_proposal id incident_id evidence_ids expected_effect candidate =
    typed_proposal id incident_id evidence_ids expected_effect candidate
      (validated (parse_action_type candidate.action_type) candidate.parameters)

-- The ids of the root cause, else of the selected hypothesis, else of all evidence.
abbrev pub cause_ids : Option RootCauseAnalysis → List String
cause_ids none = []
cause_ids (some cause) = cause.supporting_evidence_ids

abbrev pub hypothesis_ids : Option Hypothesis → List String
hypothesis_ids none = []
hypothesis_ids (some h) = h.supporting_evidence_ids

abbrev pub proposal_evidence : ProposalInput → List String
proposal_evidence input =
    if nonempty (cause_ids input.root_cause)
    then cause_ids input.root_cause
    else if nonempty (hypothesis_ids input.selected_hypothesis)
    then hypothesis_ids input.selected_hypothesis
    else map (λ e. e.id) input.evidence

abbrev pub fallback_reset : (id : ℕ) → ProposalInput → RemediationProposal
fallback_reset id input = record {
  id = id;
  incident_id = input.incident_id;
  title = "Reset Fault Injection State";
  expected_effect = "Eliminates simulated 500 error faults on demo-service.";
  supporting_evidence_ids = proposal_evidence input;
  proposed_risk = level_1_safe_automatic;
  requires_approval = true;
  action_type = "RESET_DEMO_FAILURE";
  parameters = reset_demo_failure_parameters "demo-service";
}

abbrev pub fallback_restart : (id : ℕ) → ProposalInput → RemediationProposal
fallback_restart id input = record {
  id = id;
  incident_id = input.incident_id;
  title = "Simulate Service Restart";
  expected_effect = "Simulated restart of the registered demo service";
  supporting_evidence_ids = proposal_evidence input;
  proposed_risk = level_2_human_approval_required;
  requires_approval = true;
  action_type = "RESTART_REGISTERED_SERVICE";
  parameters = restart_registered_service_parameters "demo-service";
}

module _ (uuid : ℕ → ℕ) where
  abbrev pub with_proposal :
      Option RemediationProposal → List RemediationProposal → List RemediationProposal
  with_proposal none rest = rest
  with_proposal (some p) rest = p ∷ rest

  -- A candidate that does not validate is left out. `n` counts the uuid4 draws.
  unfoldable pub parse_all :
      ProposalInput
      → (expected_effect : String) (n : ℕ) → List RemediationActionCandidate
      → List RemediationProposal
  parse_all input expected_effect n [] = []
  parse_all input expected_effect n (c ∷ cs) =
      with_proposal
        (parse_remediation_proposal (uuid n) input.incident_id (proposal_evidence input)
          expected_effect c)
        (parse_all input expected_effect (suc n) cs)

  abbrev pub answered_proposals :
      ProposalInput → Option RemediationProposalResponse → List RemediationProposal
  answered_proposals input none = []
  answered_proposals input (some response) =
      parse_all input
        (or_default (truthy (some response.estimated_impact)) "Restores normal service operations.")
        2 response.actions

  abbrev pub or_fallback_proposals :
      ProposalInput → List RemediationProposal → List RemediationProposal
  or_fallback_proposals input (p ∷ ps) = p ∷ ps
  or_fallback_proposals input [] =
      fallback_reset (uuid 0) input ∷ fallback_restart (uuid 1) input ∷ []

  unfoldable pub propose_remediation_node :
      ProposalInput → Option RemediationProposalResponse → List RemediationProposal
  propose_remediation_node input response =
      or_fallback_proposals input (answered_proposals input response)
