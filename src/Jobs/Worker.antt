-- ===== src/Jobs/Worker.antt =====
-- One round of the worker of services/job_worker.py, `run_once`, as a run of the queue.
use fault_warden.Base.{ℕ, Option, List, String}
use fault_warden.Jobs.{InvestigationJob}
use fault_warden.Jobs.Retries.{Run}

module _
    (run_investigation : ℕ
      → List InvestigationJob
      → Option String × List InvestigationJob × ℕ) where
  -- While an investigation runs, other workers work on the queue.
  abbrev pub Interleaves : Type 0
  Interleaves = (i : ℕ) (jobs : List InvestigationJob) → Run jobs (run_investigation i jobs).1
