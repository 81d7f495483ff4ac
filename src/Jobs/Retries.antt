-- ===== src/Jobs/Retries.antt =====
-- How often services/job_worker.py can run one job.
use fault_warden.Base.{
  ℕ, ◌+◌, ◌≡◌, ◌≤◌, ◌<◌, inl, inr, refl, sym, ap, ◌∙◌, subst, Bool, true, false, Option, none, some,
  List, ◌∷◌, String, if◌then◌else◌, All-if, All-In, arith, equal_or_not, some_unique, find-key,
  find-replaced, find-kept, find-All, Distinct-find, Distinct-replaced, ◌==◌,
}
use fault_warden.Jobs.{
  InvestigationJob, new_job, claimed, save_job, get_job, finished, finish_found, finish_job,
  claim_next_job,
}
use fault_warden.Jobs.Claim.{IsClaimOf, claim_next_job-IsClaimOf}
use fault_warden.Jobs.Queue.{
  IsBounded, IsQueue, due-attempt, claimed-IsBounded, finished-IsBounded, finished-counters,
}

-- A job is put in the queue, claimed by any worker at any time, or given any outcome at any time,
-- also by a worker whose lease is over.
pub data Step : List InvestigationJob → List InvestigationJob → Type 0 where
  enqueues :
      {jobs : List InvestigationJob} (id incident_id now max_attempts : ℕ)
      → get_job id jobs ≡ none
      → 0 < max_attempts
      → Step jobs (new_job id incident_id now max_attempts ∷ jobs)
  claims :
      {jobs : List InvestigationJob} (worker_id : String) (lease_seconds : ℕ) (is_locked : ℕ → Bool)
      (now : ℕ)
      → Step jobs (claim_next_job worker_id lease_seconds is_locked now jobs).1
  ends :
      {jobs : List InvestigationJob} (now : ℕ) (outcome : Option String) (job_id : ℕ)
      → Step jobs (finish_job now outcome job_id jobs)

pub data Run : List InvestigationJob → List InvestigationJob → Type 0 where
  done : {jobs : List InvestigationJob} → Run jobs jobs
  more : {s t u : List InvestigationJob} → Run s t → Step t u → Run s u

abbrev claims_job : ℕ → Option InvestigationJob → ℕ
claims_job i none = 0
claims_job i (some job) = if job.id == i then 1 else 0

-- How often the job is claimed.
abbrev pub step_claims : ℕ → {s t : List InvestigationJob} → Step s t → ℕ
step_claims i (enqueues id incident_id now max_attempts missing some_attempt) = 0
step_claims i {s} (claims worker_id lease_seconds is_locked now) =
    claims_job i (claim_next_job worker_id lease_seconds is_locked now s).0
step_claims i (ends now outcome job_id) = 0

abbrev pub run_claims : ℕ → {s t : List InvestigationJob} → Run s t → ℕ
run_claims i done = 0
run_claims i (more run step) = run_claims i run + step_claims i step

-- The job stays in the table, with `n` more attempts.
abbrev pub Counts : ℕ → ℕ → (s t : List InvestigationJob) → Type 0
Counts i n s t =
    (a : InvestigationJob)
    → get_job i s ≡ some a
    → (b : InvestigationJob) × (get_job i t ≡ some b)
      × (b.attempt_count ≡ a.attempt_count + n)
      × (b.max_attempts ≡ a.max_attempts)

unchanged : (i : ℕ) (s : List InvestigationJob) → Counts i 0 s s
unchanged i s a h = (a, h, ground arith, refl)

-- A row is replaced by one with the same id and limit and `n` more attempts.
save-Counts :
    (i n : ℕ) (s : List InvestigationJob) (a b : InvestigationJob)
    → get_job b.id s ≡ some a
    → b.attempt_count ≡ a.attempt_count + n
    → b.max_attempts ≡ a.max_attempts
    → Counts i (if b.id == i then n else 0) s (save_job b s)
save-Counts i n s a b found count limit c h = elim (equal_or_not i b.id) [
  | inl same ↦
      (let own : (b.id == i) ≡ true = ground arith in
        let a≡c : a ≡ c =
          some_unique a c (get_job b.id s) found (subst (λ k. get_job k s ≡ some c) same h) in
        (
          b,
          subst (λ k. get_job k (save_job b s) ≡ some b) (sym same)
              (find-replaced (λ x. x.id) b a s found),
          subst (λ x. b.attempt_count ≡ x.attempt_count + (if b.id == i then n else 0)) a≡c
              (ground arith),
          limit ∙ ap (λ x. x.max_attempts) a≡c,
        ))
  | inr other ↦ (c, find-kept (λ x. x.id) i b s other ∙ h, ground arith, refl)
]

save-IsQueue :
    (s : List InvestigationJob) (b : InvestigationJob)
    → IsBounded b
    → IsQueue s
    → IsQueue (save_job b s)
save-IsQueue s b bounded q =
    (Distinct-replaced (λ x. x.id) b s q.0, All-if IsBounded (λ x. x.id == b.id) b s bounded q.1)

-- One step: the queue stays well formed, and the attempts are counted.
abbrev Steps : ℕ → ℕ → (s t : List InvestigationJob) → Type 0
Steps i n s t = IsQueue t × Counts i n s t

finish-Steps :
    (i now : ℕ) (outcome : Option String) (job_id : ℕ) (s : List InvestigationJob)
    (o : Option InvestigationJob)
    → get_job job_id s ≡ o
    → IsQueue s
    → Steps i 0 s (finish_found now outcome s o)
finish-Steps i now outcome job_id s none e q = (q, unchanged i s)
finish-Steps i now outcome job_id s (some a) e q =
    let b = finished now outcome a in
    let (same, attempts, limit) = finished-counters now outcome a in
    let at : job_id ≡ b.id = sym (same ∙ find-key (λ x. x.id) job_id s a e) in
    let bounded =
      finished-IsBounded now outcome a (find-All IsBounded (λ x. x.id == job_id) s a q.1 e) in
    (
      save-IsQueue s b bounded q,
      subst (λ n. Counts i n s (save_job b s)) (zero_either (b.id == i))
          (save-Counts i 0 s a b (subst (λ k. get_job k s ≡ some a) at e) (ground arith) limit),
    )
  where
    zero_either : (c : Bool) → ◌≡◌ {A = ℕ} (if c then 0 else 0) 0
    zero_either true = refl
    zero_either false = refl

claim-Steps :
    (i : ℕ) (worker_id : String) (lease_seconds : ℕ) (is_locked : ℕ → Bool) (now : ℕ)
    (s : List InvestigationJob) (result : Option InvestigationJob × List InvestigationJob)
    → IsClaimOf is_locked now worker_id lease_seconds s result
    → IsQueue s
    → Steps i (claims_job i result.0) s result.1
claim-Steps i worker_id lease_seconds is_locked now s (row, t) (inl (missed, same, all)) q =
    rw missed (rw same (q, unchanged i s))
claim-Steps i worker_id lease_seconds is_locked now s (row, t)
      (inr (job, taken, saved, found, free, first)) q =
    let b = claimed worker_id lease_seconds now job in
    let attempt = due-attempt job.status now job refl free.0 (All-In IsBounded s job q.1 found) in
    rw taken (
      rw saved (
        save-IsQueue s b (claimed-IsBounded worker_id lease_seconds now job attempt) q,
        save-Counts i 1 s job b (Distinct-find (λ x. x.id) job s q.0 found) refl refl,
      ))

enqueue-Counts :
    (i id incident_id now max_attempts : ℕ) (s : List InvestigationJob)
    → get_job id s ≡ none
    → Counts i 0 s (new_job id incident_id now max_attempts ∷ s)
enqueue-Counts i id incident_id now max_attempts s missing a h = elim (equal_or_not id i) [
  | inl same ↦ absurd (let gone = subst (λ k. get_job k s ≡ none) same missing in ground arith)
  | inr other ↦ (a, ground arith, ground arith, refl)
]

Step-Steps :
    (i : ℕ) {s t : List InvestigationJob} (step : Step s t)
    → IsQueue s
    → Steps i (step_claims i step) s t
unfolding finish_job
Step-Steps i {s} (enqueues id incident_id now max_attempts missing some_attempt) q = (
  ((missing, q.0), ((ground arith, λ e. some_attempt), q.1)),
  enqueue-Counts i id incident_id now max_attempts s missing,
)
Step-Steps i {s} (claims worker_id lease_seconds is_locked now) q =
    claim-Steps i worker_id lease_seconds is_locked now s _
      (claim_next_job-IsClaimOf is_locked now worker_id lease_seconds s) q
Step-Steps i {s} (ends now outcome job_id) q =
    finish-Steps i now outcome job_id s (get_job job_id s) refl q

Run-Steps :
    (i : ℕ) {s t : List InvestigationJob} (run : Run s t)
    → IsQueue s
    → Steps i (run_claims i run) s t
Run-Steps i {s} done q = (q, unchanged i s)
Run-Steps i (more run step) q =
    let (q', first) = Run-Steps i run q in
    let (q'', last) = Step-Steps i step q' in
    (
      q'',
      λ a h.
          (let (b, found, count, limit) = first a h in
            let (c, found', count', limit') = last b found in
            (c, found', ground arith, limit' ∙ limit)),
    )

-- Retries end: from any well-formed queue on, whatever the workers do in whatever order and whatever
-- the investigations give, a job stays in the table with its limit, each claim counts as one
-- attempt, and the attempts never exceed the limit; so the job is claimed at most as often as its
-- limit leaves attempts.
pub attempts_are_bounded :
    (i : ℕ) (s t : List InvestigationJob) (run : Run s t) (a : InvestigationJob)
    → IsQueue s
    → get_job i s ≡ some a
    → (b : InvestigationJob) × (get_job i t ≡ some b)
      × (b.attempt_count ≡ a.attempt_count + run_claims i run)
      × (b.max_attempts ≡ a.max_attempts)
      × (a.attempt_count + run_claims i run ≤ a.max_attempts)
attempts_are_bounded i s t run a q h =
    let (q', counts) = Run-Steps i run q in
    let (b, found, count, limit) = counts a h in
    let bounded = find-All IsBounded (λ x. x.id == i) t b q'.1 found in
    let within = bounded.0 in (b, found, count, limit, ground arith)
