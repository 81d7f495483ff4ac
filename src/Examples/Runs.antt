-- ===== src/Examples/Runs.antt =====
-- The theorems on the runs of services/investigation_service.py: an incident of the demo service
-- whose graph proposes a remediation, and pauses for its approval.
use fault_warden.Base.{ℕ, true, false, Option, none, some, List, [], ◌∷◌}
use fault_warden.Audit.Operations.{ApprovalDecision, approve}
use fault_warden.Investigation.{detected, incident_awaiting_approval, RemediationState}
use fault_warden.Incidents.{IncidentModel}
use fault_warden.Runs.Tables.{Database, FinalState, Call}
use fault_warden.Runs.Transactions.{commit, resume_run}
use fault_warden.Jobs.{InvestigationJob, new_job}
use fault_warden.Runs.Resumption.{IsResumption, resume_run-IsResumption}
use fault_warden.Examples.{same_case, next_uuid, restart_proposal, sample_evidence}
use fault_warden.Examples.Audit.{decided_store}
use fault_warden.Examples.Memory.{no_rows, resolved_incident, embed_text}
use fault_warden.Examples.Postmortems.{made_at}

abbrev new_incident_row : IncidentModel
new_incident_row = record resolved_incident {
  status = detected;
  root_cause = none;
  resolution = none;
  evidence = [];
}

abbrev sample_database : Database (List ℕ)
sample_database = record {
  incidents = new_incident_row ∷ [];
  audit = no_rows;
  jobs = [];
  postmortems = [];
  memories = [];
}

abbrev sample_call : Call (List ℕ)
sample_call = record {
  lower = same_case;
  embed = embed_text;
  proposal_created_at = made_at;
  uuid = next_uuid;
  report_id = 3;
  memory_id = 7;
  faults = record {
    first_commit = false;
    final_commit = false;
    report_commit = false;
    failure_record = false;
  };
  now = 30;
}

abbrev no_remediation : RemediationState
no_remediation = record {
  remediation_proposals = restart_proposal ∷ [];
  remediation_all_policy_results = [];
  remediation_policy_result = none;
  remediation_result = none;
  remediation_validation_result = none;
}

abbrev paused_state : FinalState
paused_state = record {
  paused = true;
  evidence = sample_evidence ∷ [];
  hypotheses = [];
  root_cause = none;
  remediation = no_remediation;
  remediation_validation_passed = none;
  recent_changes = [];
  candidate_causal_changes = [];
  summary = "";
  classification = none;
  iteration_count = 1;
  similar_incidents = [];
}

abbrev sample_graph : ℕ × ℕ → Option FinalState
sample_graph counts = some paused_state

-- The incident as it waits, with its action in the audit trail.
abbrev waiting_database : Database (List ℕ)
waiting_database = record sample_database {
  incidents =
      record new_incident_row { status = incident_awaiting_approval; langgraph_thread_id = some 1 }
      ∷ [];
  audit = decided_store;
}

abbrev resumed_graph : ApprovalDecision → Option FinalState
resumed_graph decision = some (record paused_state { paused = false })

resume_run-IsResumption_example :
    IsResumption sample_call same_case made_at 3600 resumed_graph approve "operator"
      (commit waiting_database)
      1
      (resume_run sample_call same_case made_at 3600 resumed_graph none approve "operator" 1
        (commit waiting_database))
resume_run-IsResumption_example =
    resume_run-IsResumption sample_call same_case made_at 3600 resumed_graph approve "operator"
      (commit waiting_database) none 1

abbrev queued_job : InvestigationJob
queued_job = new_job 4 1 20 3

abbrev queued_database : Database (List ℕ)
queued_database = record sample_database { jobs = queued_job ∷ [] }
