-- ===== src/Examples/Nodes.antt =====
-- The theorems on graph/nodes/correlate.py, hypothesize.py and propose_remediation.py: a smaller connection pool, ten
-- minutes before the errors. Scores are added and multiplied without rounding.
use fault_warden.Base.{
  ℕ, ◌+◌, ◌-◌, ◌*◌, ◌/◌, ◌≢◌, refl, Bool, false, Option, none, some, [], ◌∷◌, String, All,
}
use fault_warden.Schemas.{RootCauseAnalysis, EvidenceItem, log, score_one}
use fault_warden.Schemas.Change.{OperationalChange, configuration}
use fault_warden.Correlations.{microsecond}
use fault_warden.Hypotheses.{GenerationInput, HypothesisCandidate, generate_hypotheses_node}
use fault_warden.Investigation.{incident_failed, decide_terminal_status}
use fault_warden.Proposals.{RemediationProposalResponse, ProposalInput, propose_remediation_node}
use fault_warden.Proposals.Typed.{IsUsable, propose_remediation_node-IsUsable}
use fault_warden.Examples.{sample_cause, sample_settings}
use fault_warden.Hypotheses.Grounding.{IsGrounded, generate_hypotheses_node-IsGrounded}

abbrev same_text : String → String
same_text text = text

abbrev plus : ℕ → ℕ → ℕ
plus a b = a + b

abbrev minus : ℕ → ℕ → ℕ
minus a b = a - b

abbrev times : ℕ → ℕ → ℕ
times a b = a * b / score_one

abbrev over : ℕ → ℕ → ℕ
over a b = a * score_one / b

abbrev round2 : ℕ → ℕ
round2 a = a

abbrev seconds : ℕ → ℕ
seconds delta = delta * score_one / microsecond

abbrev pool_log : EvidenceItem
pool_log = record { id = "e1"; evidence_type = log; source = "loki"; summary = "pool exhausted" }

abbrev smaller_pool : OperationalChange
smaller_pool = record {
  id = "c1";
  change_type = configuration;
  service = "demo-service";
  timestamp = 0;
  title = "smaller pool";
  description = none;
  files_changed = [];
  config_changes =
      record { key = "db_pool"; old_value = none; new_value = none; sensitive = false } ∷ [];
}

abbrev incident_start : ℕ
incident_start = 600 * microsecond

abbrev pool_input : GenerationInput
pool_input = record {
  evidence = pool_log ∷ [];
  similar_incident_ids = "i7" ∷ [];
  recent_changes = smaller_pool ∷ [];
  candidate_causal_changes = smaller_pool ∷ [];
  service_name = "demo-service";
}

-- The LLM names the past incident and an unknown id as evidence.
abbrev pool_candidate : HypothesisCandidate
pool_candidate = record {
  title = "pool";
  description = "";
  affected_component = "demo-service";
  confidence_score = score_one / 2;
  supporting_evidence_ids = "e1" ∷ "i7" ∷ "x" ∷ [];
  refuting_evidence_ids = [];
  historical_reference_ids = [];
  related_change_ids = "c1" ∷ "c2" ∷ [];
  reasoning_summary = "";
}

abbrev next_id : ℕ → ℕ
next_id n = n

generate_hypotheses_node-IsGrounded_example :
    All
      (IsGrounded pool_input)
      (generate_hypotheses_node same_text next_id pool_input (some (pool_candidate ∷ [])))
    × (generate_hypotheses_node same_text next_id pool_input (some (pool_candidate ∷ [])) ≢ [])
generate_hypotheses_node-IsGrounded_example =
    generate_hypotheses_node-IsGrounded same_text next_id pool_input (some (pool_candidate ∷ []))

abbrev proposal_input : ProposalInput
proposal_input = record {
  incident_id = 1;
  root_cause = some sample_cause;
  selected_hypothesis = none;
  evidence = pool_log ∷ [];
}

-- The second candidate names an action that does not exist.
abbrev sample_response : RemediationProposalResponse
sample_response = record {
  actions =
      record {
        name = "reset";
        safety_level = 0;
        action_type = "RESET_DEMO_FAILURE";
        parameters = ("service", some "demo-service") ∷ [];
      }
      ∷ record { name = "delete"; safety_level = 0; action_type = "DELETE"; parameters = [] }
      ∷ [];
  estimated_impact = "";
}

propose_remediation_node-IsUsable_example :
    All
      (IsUsable proposal_input sample_settings 5)
      (propose_remediation_node next_id proposal_input (some sample_response))
    × (propose_remediation_node next_id proposal_input (some sample_response) ≢ [])
    × ((passed : Option Bool) (cause : Option RootCauseAnalysis)
        → (decide_terminal_status passed
            (propose_remediation_node next_id proposal_input (some sample_response))
            cause).0
          ≢ incident_failed)
propose_remediation_node-IsUsable_example =
    propose_remediation_node-IsUsable next_id proposal_input sample_settings 5
      (some sample_response) refl
