-- ===== src/Jobs.antt =====
-- services/job_worker.py: the durable job queue, `JobWorker`. `db/models/job.py` and
-- `schemas/job.py` give the row.
--
-- The table is a list of rows; times are microseconds. `is_locked` tells which rows another
-- transaction holds (FOR UPDATE SKIP LOCKED). Among jobs with one `available_at`, which the query
-- leaves open, the first of the list is taken.
pub mod Claim
pub mod Queue
pub mod Retries
pub mod Worker
use fault_warden.Base.{
  ℕ, ◌+◌, ◌*◌, ◌^◌, Bool, true, false, ◌&&◌, not, Option, none, some, List, [], ◌∷◌, String, ltb,
  leb, ◌==◌, if◌then◌else◌, find, keep, map,
}

pub data InvestigationJobStatus : Type 0 where
  pending running completed failed : InvestigationJobStatus

pub record InvestigationJob : Type 0 where
  pub id : ℕ
  pub incident_id : ℕ
  pub status : InvestigationJobStatus
  pub attempt_count : ℕ
  pub max_attempts : ℕ
  pub available_at : ℕ
  pub claimed_at : Option ℕ
  pub lease_expires_at : Option ℕ
  pub claimed_by : Option String
  pub last_error : Option String
  pub completed_at : Option ℕ

abbrev pub microseconds : ℕ
microseconds = 1000000

-- The job that `services/alert_service.py` puts in the queue.
abbrev pub new_job : (id incident_id now max_attempts : ℕ) → InvestigationJob
new_job id incident_id now max_attempts = record {
  id = id;
  incident_id = incident_id;
  status = pending;
  attempt_count = 0;
  max_attempts = max_attempts;
  available_at = now;
  claimed_at = none;
  lease_expires_at = none;
  claimed_by = none;
  last_error = none;
  completed_at = none;
}

-- `lease_expires_at < now` in SQL, where NULL is smaller than nothing.
abbrev pub is_expired : Option ℕ → (now : ℕ) → Bool
is_expired none now = false
is_expired (some lease) now = ltb lease now

-- The WHERE clause.
abbrev pub is_claimable : InvestigationJobStatus → (now : ℕ) → InvestigationJob → Bool
is_claimable pending now job = leb job.available_at now
is_claimable running now job =
    is_expired job.lease_expires_at now && ltb job.attempt_count job.max_attempts
is_claimable completed now job = false
is_claimable failed now job = false

abbrev pub is_eligible : (is_locked : ℕ → Bool) (now : ℕ) → InvestigationJob → Bool
is_eligible is_locked now job = is_claimable job.status now job && not (is_locked job.id)

-- ORDER BY available_at LIMIT 1
abbrev pub earlier : InvestigationJob → Option InvestigationJob → InvestigationJob
earlier job none = job
earlier job (some other) = if ltb other.available_at job.available_at then other else job

unfoldable pub earliest : List InvestigationJob → Option InvestigationJob
earliest [] = none
earliest (job ∷ jobs) = some (earlier job (earliest jobs))

unfoldable pub next_job : (ℕ → Bool) → (now : ℕ) → List InvestigationJob → Option InvestigationJob
next_job is_locked now jobs = earliest (keep (is_eligible is_locked now) jobs)

-- The columns that a claim sets.
abbrev pub claimed :
    (worker_id : String) (lease_seconds now : ℕ) → InvestigationJob → InvestigationJob
claimed worker_id lease_seconds now job = record job {
  status = running;
  claimed_at = some now;
  claimed_by = some worker_id;
  lease_expires_at = some (now + lease_seconds * microseconds);
  attempt_count = job.attempt_count + 1;
}

abbrev pub save_job : InvestigationJob → List InvestigationJob → List InvestigationJob
save_job row jobs = map (λ job. if job.id == row.id then row else job) jobs

abbrev pub claim_found :
    (worker_id : String) (lease_seconds now : ℕ)
    → List InvestigationJob
    → Option InvestigationJob
    → Option InvestigationJob × List InvestigationJob
claim_found worker_id lease_seconds now jobs none = (none, jobs)
claim_found worker_id lease_seconds now jobs (some job) =
    let row = claimed worker_id lease_seconds now job in (some row, save_job row jobs)

unfoldable pub claim_next_job :
    (worker_id : String) (lease_seconds : ℕ) (is_locked : ℕ → Bool) (now : ℕ)
    → List InvestigationJob
    → Option InvestigationJob × List InvestigationJob
claim_next_job worker_id lease_seconds is_locked now jobs =
    claim_found worker_id lease_seconds now jobs (next_job is_locked now jobs)

abbrev pub get_job : ℕ → List InvestigationJob → Option InvestigationJob
get_job job_id jobs = find (λ job. job.id == job_id) jobs

-- The outcome of the investigation: none, or the message of the exception that it raised.
abbrev pub is_success : Option String → Bool
is_success none = true
is_success (some message) = false

-- After an error: another attempt with a backoff in seconds, or the end.
abbrev pub retried :
    (has_attempts : Bool) (now : ℕ) (message : String) → InvestigationJob → InvestigationJob
retried true now message job = record job {
  status = pending;
  available_at = now + 2 ^ job.attempt_count * microseconds;
  last_error = some message;
}
retried false now message job = record job {
  status = failed;
  completed_at = some now;
  last_error = some message;
}

-- The end of `process_job`.
unfoldable pub finished : (now : ℕ) → Option String → InvestigationJob → InvestigationJob
finished now none job = record job {
  status = completed;
  completed_at = some now;
  last_error = none;
}
finished now (some message) job = retried (ltb job.attempt_count job.max_attempts) now message job

abbrev pub finish_found :
    (now : ℕ)
    → Option String
    → List InvestigationJob
    → Option InvestigationJob
    → List InvestigationJob
finish_found now outcome jobs none = jobs
finish_found now outcome jobs (some job) = save_job (finished now outcome job) jobs

-- The transaction that records the outcome.
unfoldable pub finish_job :
    (now : ℕ) → Option String → (job_id : ℕ) → List InvestigationJob → List InvestigationJob
finish_job now outcome job_id jobs = finish_found now outcome jobs (get_job job_id jobs)

-- `run_investigation` of an incident gives its outcome, the table as other workers left it
-- meanwhile, and the time of its end.
module _
    (run_investigation : ℕ
      → List InvestigationJob
      → Option String × List InvestigationJob × ℕ) where
  unfoldable pub process_found :
      (job_id : ℕ) → List InvestigationJob → Option InvestigationJob → Bool × List InvestigationJob
  process_found job_id jobs none = (false, jobs)
  process_found job_id jobs (some job) =
      let (outcome, later, now) = run_investigation job.incident_id jobs in
      (is_success outcome, finish_job now outcome job_id later)

  unfoldable pub process_job : (job_id : ℕ) → List InvestigationJob → Bool × List InvestigationJob
  unfolding process_found
  process_job job_id jobs = process_found job_id jobs (get_job job_id jobs)

  unfoldable pub run_claimed :
      Option InvestigationJob × List InvestigationJob → Bool × List InvestigationJob
  run_claimed (none, jobs) = (false, jobs)
  run_claimed (some job, jobs) = (true, (process_job job.id jobs).1)

  unfoldable pub run_once :
      (worker_id : String) (lease_seconds : ℕ) (is_locked : ℕ → Bool) (now : ℕ)
      → List InvestigationJob
      → Bool × List InvestigationJob
  unfolding run_claimed
  run_once worker_id lease_seconds is_locked now jobs =
      run_claimed (claim_next_job worker_id lease_seconds is_locked now jobs)
