-- ===== src/Runs/Completion.antt =====
-- How `run_background_investigation` of services/investigation_service.py leaves its job.
use fault_warden.Base.{ℕ, ◌≡◌, ◌⊎◌, Option, some, List, String, Distinct}
use fault_warden.Jobs.{completed, failed, InvestigationJob, save_job, get_job}
use fault_warden.Incidents.{IncidentModel}
use fault_warden.Investigation.{count_prior_remediations}
use fault_warden.Runs.Tables.{Database, Session, FinalState, Call}
use fault_warden.Runs.Saved.{IsSaved}
use fault_warden.Runs.Failures.{begun}
use fault_warden.Runs.Background.{open_job, as_running, change_job, change_jobs}

-- The row is the job as it was, or it is FAILED.
abbrev IsFailedOr : InvestigationJob → InvestigationJob → Type 0
IsFailedOr j row = (row ≡ j) ⊎ (row.status ≡ failed)

module _ {Vector : Type 0} (call : Call Vector) (graph : ℕ × ℕ → Option FinalState) (thread_id : ℕ)
    (db : Database Vector) where
  -- The session in which the run begins, with its job RUNNING.
  abbrev pub opened : Option InvestigationJob → Session Vector
  opened o = record {
    committed = db;
    working = change_jobs (change_job (as_running call.now) o) db;
  }

  -- The outcome of a final state of the graph is saved.
  pub record IsRecorded (o : Option InvestigationJob) (after : Database Vector) : Type 0 where
    pub before : IncidentModel
    pub state : FinalState
    pub answered : graph (count_prior_remediations before.id db.audit) ≡ some state
    pub session : Session Vector
    pub saved : IsSaved call before (begun call graph thread_id (opened o) before) state session
    pub same_incidents : after.incidents ≡ session.committed.incidents
    pub same_audit : after.audit ≡ session.committed.audit

  abbrev pub IsSettled : InvestigationJob → Database Vector → Type 0
  IsSettled j after =
      (row : InvestigationJob) × (get_job j.id after.jobs ≡ some row)
      × (((row.status ≡ completed) × IsRecorded (some j) after)
          ⊎ (IsFailedOr j row × (after.audit ≡ db.audit)))

  module _ (error_text : String) (id : ℕ) (j : InvestigationJob) (d : Distinct (λ k. k.id) db.jobs)
      (h : open_job id db.jobs ≡ some j) where
    abbrev started_jobs : List InvestigationJob
    started_jobs = save_job (as_running call.now j) db.jobs
