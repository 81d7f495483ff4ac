-- ===== src/Executors/Requests.antt =====
-- The bounded retries of the executors under integrations/executors/.
use fault_warden.Base.{ℕ, zero, suc, ◌+◌, ◌≡◌, ◌<◌, refl, sym, ap, ◌∙◌, subst, arith, ◌⊎◌, inl, inr}
use fault_warden.Executors.{
  Reply, transient_error, other_error, answered, Requested, exhausted, raised, received,
  after_reply, request_attempts,
}

-- A reply ends the retries with this outcome.
abbrev pub EndsWith : Reply → Requested → Type 0
EndsWith transient_error o = ⊥
EndsWith other_error o = o ≡ raised
EndsWith (answered r) o = o ≡ received r

module _ (server : ℕ → Reply) where
  -- The requests from the `first` on were all transient errors, `n` of them.
  abbrev pub Transient : (n first : ℕ) → Type 0
  Transient zero first = Unit
  Transient (suc n) first = (server first ≡ transient_error) × Transient n (suc first)

  -- All attempts failed, or after some of them one ended the loop.
  abbrev pub IsBoundedRequest : (n first : ℕ) → Requested × ℕ → Type 0
  IsBoundedRequest n first (o, sent) =
      ((o ≡ exhausted) × (sent ≡ first + n) × Transient n first)
      ⊎ ((k : ℕ) × (k < n)
          × (sent ≡ first + k + 1)
          × Transient k first
          × EndsWith (server (first + k)) o)

  ended :
      (n first : ℕ) (r : Reply) (o : Requested)
      → server first ≡ r
      → EndsWith r o
      → IsBoundedRequest (suc n) first (o, suc first)
  ended n first r o e h = inr (
    0,
    ground arith,
    ground arith,
    tt,
    subst (λ x. EndsWith x o) (sym (ap server (first_alone first) ∙ e)) h,
  )
    where
      first_alone : (m : ℕ) → m + 0 ≡ m
      first_alone m = ground arith

  retried :
      (n first : ℕ) (p : Requested × ℕ)
      → server first ≡ transient_error
      → IsBoundedRequest n (suc first) p
      → IsBoundedRequest (suc n) first p
  retried n first (o, sent) e (inl (all, count, failed)) = inl (all, ground arith, (e, failed))
  retried n first (o, sent) e (inr (k, less, count, failed, last)) = inr (
    suc k,
    ground arith,
    ground arith,
    (e, failed),
    subst (λ m. EndsWith (server m) o) (shift first k) last,
  )
    where
      shift : (a b : ℕ) → suc a + b ≡ a + suc b
      shift a b = ground arith

  reply_step :
      (n first : ℕ) (r : Reply)
      → server first ≡ r
      → IsBoundedRequest n (suc first) (request_attempts server n (suc first))
      → IsBoundedRequest
          (suc n)
          first
          (after_reply r (suc first) (request_attempts server n (suc first)))
  reply_step n first transient_error e later =
      retried n first (request_attempts server n (suc first)) e later
  reply_step n first other_error e later = ended n first other_error raised e refl
  reply_step n first (answered r) e later = ended n first (answered r) (received r) e refl

  -- From any point on, `n` attempts send at most `n` requests: either all of them fail with a
  -- transient error and the outcome is exhausted, or the first that does not fail so ends the loop,
  -- with its response or its uncaught exception.
  pub request_attempts-IsBoundedRequest :
      (n first : ℕ) → IsBoundedRequest n first (request_attempts server n first)
  unfolding request_attempts
  request_attempts-IsBoundedRequest zero first = inl (refl, ground arith, tt)
  request_attempts-IsBoundedRequest (suc n) first =
      reply_step n first (server first) refl (request_attempts-IsBoundedRequest n (suc first))
