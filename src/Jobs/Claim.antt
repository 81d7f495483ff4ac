-- ===== src/Jobs/Claim.antt =====
-- Which job `claim_next_job` of services/job_worker.py takes.
use fault_warden.Base.{
  ℕ, ◌≡◌, ◌≤◌, ◌<◌, ◌⊎◌, inl, inr, refl, sym, ap, ◌∙◌, subst, Bool, true, false, Option, none, some,
  List, [], ◌∷◌, String, ltb, if◌then◌else◌, All, In, arith, Bool-cases,
}
use fault_warden.Jobs.{
  InvestigationJobStatus, pending, running, completed, failed, InvestigationJob, is_expired,
  is_claimable, is_eligible, earlier, earliest, next_job, claimed, save_job, claim_found,
  claim_next_job,
}

-- A job that waits and is due, or one that runs past its lease and has an attempt left.
abbrev pub IsDue : InvestigationJobStatus → (now : ℕ) → InvestigationJob → Type 0
IsDue pending now job = job.available_at ≤ now
IsDue running now job =
    ((lease : ℕ) × (job.lease_expires_at ≡ some lease) × (lease < now))
    × (job.attempt_count < job.max_attempts)
IsDue completed now job = ⊥
IsDue failed now job = ⊥

abbrev pub IsFree : (is_locked : ℕ → Bool) (now : ℕ) → InvestigationJob → Type 0
IsFree is_locked now job = IsDue job.status now job × (is_locked job.id ≡ false)

-- No free job of the list is due before `job`.
abbrev pub IsFirst :
    (is_locked : ℕ → Bool) (now : ℕ) → InvestigationJob → List InvestigationJob → Type 0
IsFirst is_locked now job =
    All (λ other. IsFree is_locked now other → job.available_at ≤ other.available_at)

expired_sound :
    (o : Option ℕ) (now : ℕ)
    → is_expired o now ≡ true
    → (lease : ℕ) × (o ≡ some lease) × (lease < now)
expired_sound none now h = absurd (ground arith)
expired_sound (some lease) now h = (lease, refl, ground arith)

IsDue-sound :
    (s : InvestigationJobStatus) (now : ℕ) (job : InvestigationJob)
    → is_claimable s now job ≡ true
    → IsDue s now job
IsDue-sound pending now job h = ground arith
IsDue-sound running now job h =
    (expired_sound job.lease_expires_at now (ground arith), ground arith)
IsDue-sound completed now job h = absurd (ground arith)
IsDue-sound failed now job h = absurd (ground arith)

due_complete :
    (s : InvestigationJobStatus) (now : ℕ) (job : InvestigationJob)
    → IsDue s now job
    → is_claimable s now job ≡ true
due_complete pending now job h = ground arith
due_complete running now job h =
    let past : is_expired job.lease_expires_at now ≡ true =
      ap (λ o. is_expired o now) h.0.1 ∙ ground arith in
    ground arith
due_complete completed now job h = absurd h
due_complete failed now job h = absurd h

eligible_sound :
    (is_locked : ℕ → Bool) (now : ℕ) (job : InvestigationJob)
    → is_eligible is_locked now job ≡ true
    → IsFree is_locked now job
eligible_sound is_locked now job h = (IsDue-sound job.status now job (ground arith), ground arith)

eligible_complete :
    (is_locked : ℕ → Bool) (now : ℕ) (job : InvestigationJob)
    → IsFree is_locked now job
    → is_eligible is_locked now job ≡ true
eligible_complete is_locked now job h =
    let due = due_complete job.status now job h.0 in ground arith

-- `job` is a free job of the list that no other precedes; without one, no job is free.
abbrev pub IsNext :
    (is_locked : ℕ → Bool) (now : ℕ) → Option InvestigationJob → List InvestigationJob → Type 0
IsNext is_locked now none jobs = All (λ job. ¬ IsFree is_locked now job) jobs
IsNext is_locked now (some job) jobs =
    In job jobs × IsFree is_locked now job × IsFirst is_locked now job jobs

module _ (is_locked : ℕ → Bool) (now : ℕ) where
  none-IsFirst :
      (job : InvestigationJob) (jobs : List InvestigationJob)
      → All (λ other. ¬ IsFree is_locked now other) jobs
      → IsFirst is_locked now job jobs
  none-IsFirst job [] h = tt
  none-IsFirst job (x ∷ xs) h = (λ free. absurd (h.0 free), none-IsFirst job xs h.1)

  IsFirst-before :
      (job other : InvestigationJob) (jobs : List InvestigationJob)
      → job.available_at ≤ other.available_at
      → IsFirst is_locked now other jobs
      → IsFirst is_locked now job jobs
  IsFirst-before job other [] le h = tt
  IsFirst-before job other (x ∷ xs) le h =
      (λ free. (let later = h.0 free in ground arith), IsFirst-before job other xs le h.1)

  earlier-IsNext :
      (job : InvestigationJob) (o : Option InvestigationJob) (jobs : List InvestigationJob)
      → IsFree is_locked now job
      → IsNext is_locked now o jobs
      → IsNext is_locked now (some (earlier job o)) (job ∷ jobs)
  earlier-IsNext job none jobs free h =
      (inl refl, free, ((λ f. ground arith), none-IsFirst job jobs h))
  earlier-IsNext job (some other) jobs free (found, other_free, first) =
      elim (Bool-cases (ltb other.available_at job.available_at)) [
        | inl less ↦
            subst (λ j. IsNext is_locked now (some j) (job ∷ jobs))
              (ap (λ b. if b then other else job) (sym less))
              (inr found, other_free, ((λ f. ground arith), first))
        | inr not_less ↦
            subst (λ j. IsNext is_locked now (some j) (job ∷ jobs))
              (ap (λ b. if b then other else job) (sym not_less))
              (
                inl refl,
                free,
                ((λ f. ground arith), IsFirst-before job other jobs (ground arith) first),
              )
      ]

  skip-IsNext :
      (job : InvestigationJob) (o : Option InvestigationJob) (jobs : List InvestigationJob)
      → ¬ IsFree is_locked now job
      → IsNext is_locked now o jobs
      → IsNext is_locked now o (job ∷ jobs)
  skip-IsNext job none jobs busy h = (busy, h)
  skip-IsNext job (some other) jobs busy (found, free, first) =
      (inr found, free, ((λ f. absurd (busy f)), first))

  next_job-IsNext :
      (jobs : List InvestigationJob) → IsNext is_locked now (next_job is_locked now jobs) jobs
  unfolding next_job earliest
  next_job-IsNext [] = tt
  next_job-IsNext (job ∷ jobs) = elim (Bool-cases (is_eligible is_locked now job)) [
    | inl eligible ↦ rw eligible (
        earlier-IsNext job (next_job is_locked now jobs) jobs
          (eligible_sound is_locked now job eligible) (next_job-IsNext jobs))
    | inr other ↦ rw other (
        skip-IsNext job (next_job is_locked now jobs) jobs
          (λ free. (let passes = eligible_complete is_locked now job free in ground arith))
          (next_job-IsNext jobs))
  ]

  -- A claim: the free job that is due first is set running, with a lease and one more attempt, in
  -- its row and in the result; without a free job nothing changes.
  abbrev pub IsClaimOf :
      (worker_id : String) (lease_seconds : ℕ)
      → List InvestigationJob
      → Option InvestigationJob × List InvestigationJob
      → Type 0
  IsClaimOf worker_id lease_seconds jobs (row, later) =
      ((row ≡ none) × (later ≡ jobs) × All (λ job. ¬ IsFree is_locked now job) jobs)
      ⊎ ((job : InvestigationJob) × (row ≡ some (claimed worker_id lease_seconds now job))
          × (later ≡ save_job (claimed worker_id lease_seconds now job) jobs)
          × In job jobs
          × IsFree is_locked now job
          × IsFirst is_locked now job jobs)

  claim_found-IsClaimOf :
      (worker_id : String) (lease_seconds : ℕ) (jobs : List InvestigationJob)
      (o : Option InvestigationJob)
      → IsNext is_locked now o jobs
      → IsClaimOf worker_id lease_seconds jobs (claim_found worker_id lease_seconds now jobs o)
  claim_found-IsClaimOf worker_id lease_seconds jobs none h = inl (refl, refl, h)
  claim_found-IsClaimOf worker_id lease_seconds jobs (some job) (found, free, first) =
      inr (job, refl, refl, found, free, first)

  -- A worker claims a job exactly if one is free: one that no other transaction holds and that is
  -- pending and due, or running past its lease with an attempt left. It takes one with the least
  -- `available_at`, sets it running under its own lease and counts the attempt; otherwise it
  -- changes nothing.
  pub claim_next_job-IsClaimOf :
      (worker_id : String) (lease_seconds : ℕ) (jobs : List InvestigationJob)
      → IsClaimOf worker_id lease_seconds jobs
          (claim_next_job worker_id lease_seconds is_locked now jobs)
  unfolding claim_next_job
  claim_next_job-IsClaimOf worker_id lease_seconds jobs =
      claim_found-IsClaimOf worker_id lease_seconds jobs (next_job is_locked now jobs)
        (next_job-IsNext jobs)
