-- ===== src/Runs/Transactions.antt =====
-- `run_investigation` and `resume_remediation_approval` of services/investigation_service.py.
use fault_warden.Base.{
  ℕ, Bool, true, false, Option, none, some, List, if◌then◌else◌, String, Outcome, error, ok,
}
use fault_warden.Audit.{ActionRow, Store, AuditError}
use fault_warden.Audit.Operations.{ApprovalDecision}
use fault_warden.Investigation.{
  count_prior_remediations, persist_remediation, ResumeError, resume_remediation_approval,
}
use fault_warden.Incidents.{IncidentModel}
use fault_warden.Memory.Quality.{is_resolved_status}
use fault_warden.Memory.Index.{index_incident_memory}
use fault_warden.Postmortems.Generation.{
  PostmortemSynthesisResponse, generate_and_persist_postmortem,
}
use fault_warden.Runs.Tables.{
  Call, Database, Faults, FinalState, ResumptionError, RunError, Session, execution_failed, failure,
  get_incident, incident_not_found, not_resumed, resume_failed, started, status_after,
  unknown_incident, update_row, with_outcome,
}

module _ {Vector : Type 0} where
  abbrev pub commit : Database Vector → Session Vector
  commit db = record { committed = db; working = db }

  abbrev pub change_incidents :
      (List IncidentModel → List IncidentModel) → Database Vector → Database Vector
  change_incidents f db = record db { incidents = f db.incidents }

  -- The failure record in a session of its own, after the rollback.
  abbrev pub record_failure :
      Faults → (id now : ℕ) (message : String) → Session Vector → Session Vector
  record_failure faults id now message s = commit (
      if faults.failure_record
      then s.committed
      else change_incidents (update_row id now (failure message)) s.committed)

  module _ (call : Call Vector) where
    -- `_generate_postmortem_and_memory`, where nothing raises but the commit.
    abbrev pub with_report :
        Option PostmortemSynthesisResponse
        → (similar : List ℕ) → IncidentModel
        → Database Vector
        → Database Vector
    with_report answer similar i db =
        let report =
          generate_and_persist_postmortem call.proposal_created_at call.report_id call.now answer
            similar db.audit i db.postmortems in
        record db {
          postmortems = report.1;
          memories =
              (index_incident_memory call.lower call.embed call.memory_id (some report.0.id)
                db.audit i db.memories).1;
        }

    abbrev pub generate_postmortem_and_memory :
        Option PostmortemSynthesisResponse
        → (similar : List ℕ) → IncidentModel
        → Database Vector
        → Session Vector
    generate_postmortem_and_memory answer similar i db =
        commit (if call.faults.report_commit then db else with_report answer similar i db)

    abbrev pub report_if :
        (is_resolved : Bool)
        → Option PostmortemSynthesisResponse
        → (similar : List ℕ) → Option IncidentModel
        → Database Vector
        → Session Vector
    report_if true answer similar (some i) db = generate_postmortem_and_memory answer similar i db
    report_if true answer similar none db = commit db
    report_if false answer similar i db = commit db

    -- The database after the persistence of the remediation and the update of the incident.
    unfoldable pub outcome_saved :
        FinalState → (before : IncidentModel) → Store → Database Vector → Database Vector
    outcome_saved state before audit db =
        change_incidents (update_row before.id call.now (with_outcome state before))
          (record db { audit = audit })

    abbrev pub commit_outcome :
        Option PostmortemSynthesisResponse
        → FinalState
        → (before : IncidentModel) → Database Vector
        → Session Vector
    commit_outcome answer state before db =
        report_if (if state.paused then false else is_resolved_status (status_after state)) answer
          state.similar_incidents (get_incident before.id db.incidents) db

    -- From the graph's answer on; none where something raises.
    abbrev pub persist_then_commit :
        Option PostmortemSynthesisResponse
        → FinalState
        → (before : IncidentModel) → Database Vector
        → Outcome AuditError Store
        → Option (Session Vector)
    persist_then_commit answer state before db (error e) = none
    persist_then_commit answer state before db (ok audit) =
        if call.faults.final_commit
        then none
        else some (commit_outcome answer state before (outcome_saved state before audit db))

    abbrev pub save_outcome :
        Option PostmortemSynthesisResponse
        → Option FinalState
        → (before : IncidentModel) → Database Vector
        → Option (Session Vector)
    save_outcome answer none before db = none
    save_outcome answer (some state) before db =
        persist_then_commit answer state before db
          (persist_remediation call.uuid state.remediation before.id db.audit)

    -- The rest of `run_investigation` from a session on, as it was after the first commit.
    abbrev pub end_run :
        (message : String)
        → (id : ℕ) → Session Vector
        → Option (Session Vector)
        → Outcome RunError Unit × Session Vector
    end_run message id s none =
        (error execution_failed, record_failure call.faults id call.now message s)
    end_run message id s (some after) = (ok tt, after)

    unfoldable pub investigate :
        (graph : ℕ × ℕ → Option FinalState) (thread_id : ℕ) (message : String)
        → Option PostmortemSynthesisResponse
        → (before : IncidentModel) → Session Vector
        → Outcome RunError Unit × Session Vector
    investigate graph thread_id message answer before s =
        let db = change_incidents (update_row before.id call.now (started thread_id)) s.working in
        let counts = count_prior_remediations before.id s.working.audit in
        if call.faults.first_commit
        then end_run message before.id s none
        else end_run message before.id (commit db) (save_outcome answer (graph counts) before db)

    abbrev pub investigate_found :
        (graph : ℕ × ℕ → Option FinalState) (thread_id : ℕ) (message : String)
        → Option PostmortemSynthesisResponse
        → (id : ℕ) → Session Vector
        → Option IncidentModel
        → Outcome RunError Unit × Session Vector
    investigate_found graph thread_id message answer id s none = (error (incident_not_found id), s)
    investigate_found graph thread_id message answer id s (some before) =
        investigate graph thread_id message answer before s

    -- `run_investigation`; the graph is given the counts of earlier attempts for its limits.
    unfoldable pub run_investigation :
        (graph : ℕ × ℕ → Option FinalState) (thread_id : ℕ) (message : String)
        → Option PostmortemSynthesisResponse
        → (id : ℕ) → Session Vector
        → Outcome RunError Unit × Session Vector
    run_investigation graph thread_id message answer id s =
        investigate_found graph thread_id message answer id s (get_incident id s.working.incidents)

    abbrev pub end_resumption :
        Session Vector → Option (Session Vector) → Outcome ResumptionError Unit × Session Vector
    end_resumption s none = (error resume_failed, commit s.committed)
    end_resumption s (some after) = (ok tt, after)

    -- After the checks: the answer is recorded, but not yet committed, when the graph goes on.
    abbrev pub resume_answered :
        (graph : ApprovalDecision → Option FinalState)
        → Option PostmortemSynthesisResponse
        → ApprovalDecision
        → (before : IncidentModel) → Session Vector
        → Outcome ResumeError (ActionRow × Store)
        → Outcome ResumptionError Unit × Session Vector
    resume_answered graph answer decision before s (error e) = (error (not_resumed e), s)
    resume_answered graph answer decision before s (ok (action, audit)) =
        end_resumption s
          (save_outcome answer (graph decision) before (record (s.working) { audit = audit }))

    module _ (upper : String → String) (created_at : ℕ → ℕ) (timeout_seconds : ℕ) where
      abbrev pub resume_found :
          (graph : ApprovalDecision → Option FinalState)
          → Option PostmortemSynthesisResponse
          → ApprovalDecision
          → (approved_by : String) (id : ℕ) → Session Vector
          → Option IncidentModel
          → Outcome ResumptionError Unit × Session Vector
      resume_found graph answer decision approved_by id s none = (error (unknown_incident id), s)
      resume_found graph answer decision approved_by id s (some before) =
          resume_answered graph answer decision before s (
            resume_remediation_approval upper created_at timeout_seconds
              (record {
                id = before.id;
                status = before.status;
                langgraph_thread_id = before.langgraph_thread_id;
              })
              call.now decision approved_by s.working.audit)

      -- `resume_remediation_approval`; the graph is given the decision.
      unfoldable pub resume_run :
          (graph : ApprovalDecision → Option FinalState)
          → Option PostmortemSynthesisResponse
          → ApprovalDecision
          → (approved_by : String) (id : ℕ) → Session Vector
          → Outcome ResumptionError Unit × Session Vector
      resume_run graph answer decision approved_by id s =
          resume_found graph answer decision approved_by id s (get_incident id s.working.incidents)
