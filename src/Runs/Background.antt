-- ===== src/Runs/Background.antt =====
-- `run_background_investigation` of services/investigation_service.py: the job of a run that the API
-- starts.
--
-- The run has a session of its own, whose end rolls back what is not committed. The commits of the
-- job's last status do not raise. Of the rows that a query fits, it gives the first of the table.
use fault_warden.Base.{
  ℕ, ◌&&◌, Bool, true, false, Option, none, some, List, ◌==◌, find, String, Outcome, error, ok,
}
use fault_warden.Jobs.{
  InvestigationJobStatus, pending, running, completed, failed, InvestigationJob, save_job, get_job,
}
use fault_warden.Postmortems.Generation.{PostmortemSynthesisResponse}
use fault_warden.Runs.Tables.{Database, Session, FinalState, Call, RunError}
use fault_warden.Runs.Transactions.{run_investigation}

abbrev pub is_running : InvestigationJobStatus → Bool
is_running running = true
is_running _ = false

abbrev pub is_open : InvestigationJobStatus → Bool
is_open pending = true
is_open running = true
is_open completed = false
is_open failed = false

abbrev pub open_job : (incident_id : ℕ) → List InvestigationJob → Option InvestigationJob
open_job incident_id jobs = find (λ j. (j.incident_id == incident_id) && is_open j.status) jobs

abbrev pub running_job : (incident_id : ℕ) → List InvestigationJob → Option InvestigationJob
running_job incident_id jobs =
    find (λ j. (j.incident_id == incident_id) && is_running j.status) jobs

abbrev pub as_running : (now : ℕ) → InvestigationJob → InvestigationJob
as_running now j = record j { status = running; claimed_at = some now }

abbrev pub as_completed : (now : ℕ) → InvestigationJob → InvestigationJob
as_completed now j = record j { status = completed; completed_at = some now }

abbrev pub as_failed : (now : ℕ) (message : String) → InvestigationJob → InvestigationJob
as_failed now message j = record j {
  status = failed;
  last_error = some message;
  completed_at = some now;
}

abbrev pub change_job :
    (InvestigationJob → InvestigationJob)
    → Option InvestigationJob
    → List InvestigationJob
    → List InvestigationJob
change_job change none jobs = jobs
change_job change (some j) jobs = save_job (change j) jobs

module _ {Vector : Type 0} where
  abbrev pub change_jobs :
      (List InvestigationJob → List InvestigationJob) → Database Vector → Database Vector
  change_jobs f db = record db { jobs = f db.jobs }

  module _ (call : Call Vector) where
    abbrev pub complete_job :
        Option InvestigationJob → List InvestigationJob → List InvestigationJob
    complete_job none jobs = jobs
    complete_job (some j) jobs = change_job (as_completed call.now) (get_job j.id jobs) jobs

    -- After the run: the job's end, in this session, or in another one where the run has raised.
    abbrev pub end_background :
        (error_text : String) (id : ℕ)
        → Option InvestigationJob
        → Outcome RunError Unit × Session Vector
        → Database Vector
    end_background error_text id job (ok done, s) = change_jobs (complete_job job) s.committed
    end_background error_text id job (error e, s) =
        change_jobs (change_job (as_failed call.now error_text) (running_job id s.committed.jobs))
          s.committed

    -- `error_text` is the text of the error that the run raises.
    unfoldable pub run_background_investigation :
        (graph : ℕ × ℕ → Option FinalState) (thread_id : ℕ) (message error_text : String)
        → Option PostmortemSynthesisResponse
        → (id : ℕ) → Database Vector
        → Database Vector
    run_background_investigation graph thread_id message error_text answer id db =
        let job = open_job id db.jobs in
        end_background error_text id job (
          run_investigation call graph thread_id message answer id (record {
            committed = db;
            working = change_jobs (change_job (as_running call.now) job) db;
          }))
