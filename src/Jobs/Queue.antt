-- ===== src/Jobs/Queue.antt =====
-- The well-formed queue of services/job_worker.py, and what a claim and an outcome do to a row.
use fault_warden.Base.{
  ℕ, ◌≡◌, ◌≤◌, ◌<◌, refl, Bool, true, false, Option, none, some, List, String, ltb, All, arith,
  ltb→lt, Distinct,
}
use fault_warden.Jobs.{
  InvestigationJobStatus, pending, running, completed, failed, InvestigationJob, claimed, retried,
  finished,
}
use fault_warden.Jobs.Claim.{IsDue}

-- A job that waits has an attempt left, and no job has made more attempts than it may.
abbrev pub IsBounded : InvestigationJob → Type 0
IsBounded job =
    (job.attempt_count ≤ job.max_attempts)
    × (job.status ≡ pending → job.attempt_count < job.max_attempts)

abbrev pub IsQueue : List InvestigationJob → Type 0
IsQueue jobs = Distinct (λ job. job.id) jobs × All IsBounded jobs

pub due-attempt :
    (s : InvestigationJobStatus) (now : ℕ) (job : InvestigationJob)
    → job.status ≡ s
    → IsDue s now job
    → IsBounded job
    → job.attempt_count < job.max_attempts
due-attempt pending now job e due h = h.1 e
due-attempt running now job e due h = due.1
due-attempt completed now job e due h = absurd due
due-attempt failed now job e due h = absurd due

pub claimed-IsBounded :
    (worker_id : String) (lease_seconds now : ℕ) (job : InvestigationJob)
    → job.attempt_count < job.max_attempts
    → IsBounded (claimed worker_id lease_seconds now job)
claimed-IsBounded worker_id lease_seconds now job h = (ground arith, λ e. absurd (ground arith))

retried-IsBounded :
    (b : Bool) (now : ℕ) (message : String) (job : InvestigationJob)
    → ltb job.attempt_count job.max_attempts ≡ b
    → IsBounded job
    → IsBounded (retried b now message job)
retried-IsBounded true now message job e h = (h.0, λ s. ltb→lt _ _ e)
retried-IsBounded false now message job e h = (h.0, λ s. absurd (ground arith))

pub finished-IsBounded :
    (now : ℕ) (outcome : Option String) (job : InvestigationJob)
    → IsBounded job
    → IsBounded (finished now outcome job)
unfolding finished
finished-IsBounded now none job h = (h.0, λ e. absurd (ground arith))
finished-IsBounded now (some message) job h = retried-IsBounded _ now message job refl h

-- The outcome changes neither the id nor the counters.
pub finished-counters :
    (now : ℕ) (outcome : Option String) (job : InvestigationJob)
    → ((finished now outcome job).id ≡ job.id)
      × ((finished now outcome job).attempt_count ≡ job.attempt_count)
      × ((finished now outcome job).max_attempts ≡ job.max_attempts)
unfolding finished
finished-counters now none job = (refl, refl, refl)
finished-counters now (some message) job = go (ltb job.attempt_count job.max_attempts)
  where
    go :
        (b : Bool)
        → ((retried b now message job).id ≡ job.id)
          × ((retried b now message job).attempt_count ≡ job.attempt_count)
          × ((retried b now message job).max_attempts ≡ job.max_attempts)
    go true = (refl, refl, refl)
    go false = (refl, refl, refl)
