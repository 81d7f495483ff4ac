-- ===== src/Examples.antt =====
-- Concrete inputs at which the theorems are applied: an incident of the demo service with one
-- proposal for each action.
pub mod Policy
pub mod Investigation
pub mod Audit
pub mod Jobs
pub mod Graph
pub mod Service
pub mod Executors
pub mod Recovery
pub mod Alerts
pub mod Changes
pub mod Nodes
pub mod Memory
pub mod Postmortems
pub mod Runs
use fault_warden.Base.{ℕ, ◌+◌, Bool, true, false, none, some, [], ◌∷◌, String}
use fault_warden.Schemas.{
  level_1_safe_automatic, level_2_human_approval_required, RemediationProposal,
  reset_demo_failure_parameters, restart_registered_service_parameters, RemediationSettings,
  Hypothesis, proposed, RootCauseAnalysis, EvidenceItem, metric,
}
use fault_warden.Schemas.Change.{
  OperationalChange, configuration, ChangeCorrelation, config_regression,
}
use fault_warden.Verify.{InvestigationSettings, VerificationResponse}
use fault_warden.Causality.{min_temporal_score}

-- The case mapping of texts that are in one case already.
abbrev pub same_case : String → String
same_case text = text

abbrev pub next_uuid : ℕ → ℕ
next_uuid n = 100 + n

abbrev pub sample_settings : RemediationSettings
sample_settings = record {
  enabled = true;
  auto_execute_max_safety_level = 1;
  approval_timeout_seconds = 3600;
  max_remediation_attempts_per_incident = 3;
  max_auto_remediations_per_incident = 1;
  min_root_cause_confidence = 7;
  job_lease_seconds = 300;
}

abbrev pub sample_investigation : InvestigationSettings
sample_investigation = record {
  max_iterations = 3;
  confidence_threshold = 7;
  correlation_threshold = 5;
}

abbrev pub reset_proposal : RemediationProposal
reset_proposal = record {
  id = 11;
  incident_id = 1;
  title = "Reset the fault";
  expected_effect = "The error rate drops";
  supporting_evidence_ids = "e1" ∷ [];
  proposed_risk = level_1_safe_automatic;
  requires_approval = false;
  action_type = "RESET_DEMO_FAILURE";
  parameters = reset_demo_failure_parameters "demo-service";
}

-- The LLM calls the restart safe; the registry does not.
abbrev pub restart_proposal : RemediationProposal
restart_proposal = record {
  id = 12;
  incident_id = 1;
  title = "Restart the service";
  expected_effect = "The service starts anew";
  supporting_evidence_ids = "e1" ∷ [];
  proposed_risk = level_1_safe_automatic;
  requires_approval = false;
  action_type = "RESTART_REGISTERED_SERVICE";
  parameters = restart_registered_service_parameters "demo-service";
}

abbrev pub sample_evidence : EvidenceItem
sample_evidence = record {
  id = "e1";
  evidence_type = metric;
  source = "prometheus";
  summary = "error rate";
}

abbrev pub sample_hypothesis : Hypothesis
sample_hypothesis = record {
  id = 21;
  title = "fault injection";
  description = "error-mode is on";
  affected_component = "demo-service";
  confidence_score = 8;
  status = proposed;
  supporting_evidence_ids = "e1" ∷ "e9" ∷ [];
  refuting_evidence_ids = [];
  historical_reference_ids = [];
  related_change_ids = "c1" ∷ [];
  reasoning_summary = "";
}

abbrev pub sample_cause : RootCauseAnalysis
sample_cause = record {
  primary_hypothesis_id = 21;
  summary = "error-mode is on";
  root_cause_category = "UNKNOWN";
  culprit_service = "demo-service";
  supporting_evidence_ids = "e1" ∷ [];
  causal_change_ids = [];
  confidence = 8;
}

abbrev pub sample_answer : VerificationResponse
sample_answer = record { is_verified = true; confidence_score = 9; additional_queries_needed = [] }

abbrev pub sample_change : OperationalChange
sample_change = record {
  id = "c1";
  change_type = configuration;
  service = "demo-service";
  timestamp = 5;
  title = "error-mode";
  description = none;
  files_changed = [];
  config_changes = [];
}

abbrev pub sample_correlation : ChangeCorrelation
sample_correlation = record {
  change_id = "c1";
  temporal_score = min_temporal_score;
  component_match = true;
  symptom_match = true;
  evidence_links = "e1" ∷ [];
  relevance_score = 6;
  causal_category = config_regression;
  is_causal_candidate = true;
}
