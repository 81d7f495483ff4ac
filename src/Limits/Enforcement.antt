-- ===== src/Limits/Enforcement.antt =====
-- `_enforce_remediation_limits` of graph/nodes/remediation_policy.py, and the candidates it is called on.
use fault_warden.Base.{
  ℕ, suc, ◌≡◌, ◌<◌, inl, inr, refl, true, Option, some, List, [], ◌∷◌, arith, In,
}
use fault_warden.Schemas.{
  RemediationProposal, RemediationAction, PolicyResult, allowed_action, approval_required_action,
  rejected_action, RootCauseAnalysis, RemediationSettings, EligibilityReason, eligible_reason,
  Hypothesis, EvidenceItem,
}
use fault_warden.Policy.{evaluate_policy}
use fault_warden.Policy.Eligibility.{Explains, is_eligible_reason}
use fault_warden.Policy.Ranking.{Candidate, as_candidates, collect_candidates}
use fault_warden.Limits.{enforce_auto_limit, enforce_remediation_limits}

-- The action of a result that is no rejection is executed at once, or after an approval.
abbrev pub IsExecutable : RemediationAction → PolicyResult → Type 0
IsExecutable a (allowed_action b) = b ≡ a
IsExecutable a (approval_required_action b reason) = b ≡ a
IsExecutable a (rejected_action id name reason) = ⊥

-- A candidate is a proposal of the list with what the policy says of it, which is no rejection.
abbrev pub IsEvaluated : RemediationSettings → List RemediationProposal → Candidate → Type 0
IsEvaluated settings ps c =
    In c.proposal ps
    × ((n : ℕ) × (evaluate_policy settings n c.proposal ≡ c.result))
    × IsExecutable c.action c.result

IsEvaluated-tail :
    (settings : RemediationSettings) (p : RemediationProposal) (ps : List RemediationProposal)
    (c : Candidate)
    → IsEvaluated settings ps c
    → IsEvaluated settings (p ∷ ps) c
IsEvaluated-tail settings p ps c h = (inr h.0, h.1, h.2)

as_candidates-IsEvaluated :
    (settings : RemediationSettings) (p : RemediationProposal) (ps : List RemediationProposal)
    (n : ℕ) (r : PolicyResult) (rest : List Candidate) (c : Candidate)
    → evaluate_policy settings n p ≡ r
    → (In c rest → IsEvaluated settings ps c)
    → In c (as_candidates p r rest)
    → IsEvaluated settings (p ∷ ps) c
as_candidates-IsEvaluated settings p ps n (allowed_action a) rest c e h (inl i) =
    rw i (inl refl, (n, e), refl)
as_candidates-IsEvaluated settings p ps n (allowed_action a) rest c e h (inr i) =
    IsEvaluated-tail settings p ps c (h i)
as_candidates-IsEvaluated settings p ps n (approval_required_action a w) rest c e h (inl i) =
    rw i (inl refl, (n, e), refl)
as_candidates-IsEvaluated settings p ps n (approval_required_action a w) rest c e h (inr i) =
    IsEvaluated-tail settings p ps c (h i)
as_candidates-IsEvaluated settings p ps n (rejected_action id name w) rest c e h i =
    IsEvaluated-tail settings p ps c (h i)

pub collect_candidates-IsEvaluated :
    (settings : RemediationSettings) (uuid : ℕ → ℕ) (n : ℕ) (ps : List RemediationProposal)
    (c : Candidate)
    → In c (collect_candidates settings uuid n ps)
    → IsEvaluated settings ps c
unfolding collect_candidates
collect_candidates-IsEvaluated settings uuid n [] c h = absurd h.1
collect_candidates-IsEvaluated settings uuid n (p ∷ ps) c h =
    as_candidates-IsEvaluated settings p ps (uuid n) _ _ c refl
      (collect_candidates-IsEvaluated settings uuid (suc n) ps c) h

-- An automatic execution is within the limit on automatic executions.
abbrev pub AutoWithin : PolicyResult → (prior_auto_execution_count max_auto_executions : ℕ) → Type 0
AutoWithin (allowed_action a) n m = n < m
AutoWithin (approval_required_action a reason) n m = Unit
AutoWithin (rejected_action id name reason) n m = Unit

-- A limit lets a result through unchanged, or replaces it by a rejection.
pub enforce-IsExecutable :
    (r : PolicyResult) (attempts autos max_attempts max_autos : ℕ) (a : RemediationAction)
    → IsExecutable a (enforce_remediation_limits r attempts autos max_attempts max_autos)
    → (enforce_remediation_limits r attempts autos max_attempts max_autos ≡ r)
      × (attempts < max_attempts)
      × AutoWithin r autos max_autos
unfolding enforce_remediation_limits enforce_auto_limit
enforce-IsExecutable (allowed_action b) n m k l a h = ground arith
enforce-IsExecutable (approval_required_action b reason) n m k l a h = ground arith
enforce-IsExecutable (rejected_action id name reason) n m k l a h = ground arith

pub some_inj : {A : Type 0} {x y : A} → some x ≡ some y → x ≡ y
some_inj e = ground arith

pub only_eligible :
    (reason : EligibilityReason) (cause : Option RootCauseAnalysis) (h : Option Hypothesis)
    (evidence : List EvidenceItem) (n m c : ℕ)
    → Explains reason cause h evidence n m c
    → is_eligible_reason reason ≡ true
    → Explains eligible_reason cause h evidence n m c
only_eligible eligible_reason cause h evidence n m c x e = x
only_eligible _ cause h evidence n m c x e = absurd (ground arith)

-- With no candidate the first result is a rejection.
pub first_rejected :
    (p : RemediationProposal) (r : PolicyResult) (rest : List Candidate) (a : RemediationAction)
    → as_candidates p r rest ≡ []
    → IsExecutable a r
    → ⊥
first_rejected p (allowed_action b) rest a e h = cc
first_rejected p (approval_required_action b reason) rest a e h = cc
first_rejected p (rejected_action id name reason) rest a e h = h
