-- ===== src/Examples/Jobs.antt =====
-- The theorems on services/job_worker.py at a queue of one job.
use fault_warden.Base.{
  ℕ, ◌+◌, ◌≡◌, ◌≤◌, refl, Bool, false, Option, some, List, [], ◌∷◌, String, arith,
}
use fault_warden.Jobs.{
  InvestigationJob, new_job, get_job, earliest, next_job, claim_next_job, finished, finish_job,
}
use fault_warden.Jobs.Claim.{IsClaimOf, claim_next_job-IsClaimOf}
use fault_warden.Jobs.Queue.{IsQueue}
use fault_warden.Jobs.Retries.{Run, done, more, claims, ends, run_claims, attempts_are_bounded}

abbrev sample_job : InvestigationJob
sample_job = new_job 5 1 10 3

abbrev sample_queue : List InvestigationJob
sample_queue = sample_job ∷ []

abbrev unlocked : ℕ → Bool
unlocked i = false

-- A claim, a failed investigation, and a claim after the backoff.
abbrev first_claim : List InvestigationJob
first_claim = (claim_next_job "w" 300 unlocked 20 sample_queue).1

abbrev first_failure : List InvestigationJob
first_failure = finish_job 30 (some "ProviderError") 5 first_claim

abbrev second_claim : List InvestigationJob
second_claim = (claim_next_job "v" 300 unlocked 9000000 first_failure).1

abbrev sample_run : Run sample_queue second_claim
sample_run =
    more (more (more done (claims "w" 300 unlocked 20)) (ends 30 (some "ProviderError") 5))
      (claims "v" 300 unlocked 9000000)

sample_queue-IsQueue : IsQueue sample_queue
sample_queue-IsQueue = ((refl, tt), ((ground arith, λ e. ground arith), tt))

two_claims : run_claims 5 sample_run ≡ 2
unfolding claim_next_job next_job earliest finish_job finished
two_claims = refl

attempts_are_bounded_example :
    (b : InvestigationJob) × (get_job 5 second_claim ≡ some b)
    × (b.attempt_count ≡ 0 + run_claims 5 sample_run)
    × (b.max_attempts ≡ 3)
    × (0 + run_claims 5 sample_run ≤ 3)
attempts_are_bounded_example =
    attempts_are_bounded 5 sample_queue second_claim sample_run sample_job sample_queue-IsQueue refl

claim_next_job-IsClaimOf_example :
    IsClaimOf unlocked 20 "w" 300 sample_queue (claim_next_job "w" 300 unlocked 20 sample_queue)
claim_next_job-IsClaimOf_example = claim_next_job-IsClaimOf unlocked 20 "w" 300 sample_queue

-- An investigation that fails while no other worker is at work.
abbrev failing : ℕ → List InvestigationJob → Option String × List InvestigationJob × ℕ
failing incident_id jobs = (some "ProviderError", jobs, 30)
