-- ===== src/Policy/Eligibility.antt =====
-- core/policy.py: `check_remediation_eligibility`, the gate before any automation.
use fault_warden.Base.{
  ℕ, ◌≡◌, ◌≤◌, ◌<◌, ◌⊎◌, Bool, true, false, ◌||◌, not, Option, none, some, List, ltb, leb, arith,
  if◌then◌else◌, nonempty,
}
use fault_warden.Schemas.{
  HypothesisStatus, verified, Hypothesis, RootCauseAnalysis, EvidenceItem, EligibilityReason,
  eligible_reason, no_root_cause, root_cause_unverified, insufficient_confidence,
  insufficient_evidence, investigation_exhausted, EligibilityResult,
}

abbrev pub is_verified_status : HypothesisStatus → Bool
is_verified_status verified = true
is_verified_status _ = false

-- `selected_hypothesis is not None and selected_hypothesis.status != VERIFIED`
abbrev pub is_unverified : Option Hypothesis → Bool
is_unverified none = false
is_unverified (some h) = not (is_verified_status h.status)

abbrev pub ineligible : EligibilityReason → EligibilityResult
ineligible reason = record { eligible = false; reason = reason }

unfoldable pub check_remediation_eligibility :
    Option RootCauseAnalysis
    → (selected_hypothesis : Option Hypothesis) → List EvidenceItem
    → (iteration_count max_iterations min_confidence : ℕ) → EligibilityResult
check_remediation_eligibility none h evidence iteration_count max_iterations min_confidence =
    if leb max_iterations iteration_count
    then ineligible investigation_exhausted
    else ineligible no_root_cause
check_remediation_eligibility (some cause) h evidence iteration_count max_iterations
      min_confidence =
    if is_unverified h
    then ineligible root_cause_unverified
    else if ltb cause.confidence min_confidence
    then ineligible insufficient_confidence
    else if not (nonempty cause.supporting_evidence_ids || nonempty evidence)
    then ineligible insufficient_evidence
    else record { eligible = true; reason = eligible_reason }

-- The hypothesis, where one is selected, has been verified.
abbrev pub NoUnverified : Option Hypothesis → Type 0
NoUnverified none = Unit
NoUnverified (some h) = h.status ≡ verified

-- What each reason tells of the arguments.
abbrev pub Explains :
    EligibilityReason
    → Option RootCauseAnalysis
    → Option Hypothesis
    → List EvidenceItem
    → (iteration_count max_iterations min_confidence : ℕ) → Type 0
Explains investigation_exhausted cause h evidence n m c = (cause ≡ none) × (m ≤ n)
Explains no_root_cause cause h evidence n m c = (cause ≡ none) × (n < m)
Explains root_cause_unverified none h evidence n m c = ⊥
Explains root_cause_unverified (some cause) h evidence n m c = ¬ NoUnverified h
Explains insufficient_confidence none h evidence n m c = ⊥
Explains insufficient_confidence (some cause) h evidence n m c =
    NoUnverified h × (cause.confidence < c)
Explains insufficient_evidence none h evidence n m c = ⊥
Explains insufficient_evidence (some cause) h evidence n m c =
    NoUnverified h
    × (c ≤ cause.confidence)
    × (nonempty cause.supporting_evidence_ids ≡ false)
    × (nonempty evidence ≡ false)
Explains eligible_reason none h evidence n m c = ⊥
Explains eligible_reason (some cause) h evidence n m c =
    NoUnverified h
    × (c ≤ cause.confidence)
    × ((nonempty cause.supporting_evidence_ids ≡ true) ⊎ (nonempty evidence ≡ true))

abbrev pub is_eligible_reason : EligibilityReason → Bool
is_eligible_reason eligible_reason = true
is_eligible_reason _ = false

is_unverified_iff :
    (h : Option Hypothesis)
    → ((is_unverified h ≡ true) × (¬ NoUnverified h)) ⊎ ((is_unverified h ≡ false) × NoUnverified h)
is_unverified_iff none = ground arith
is_unverified_iff (some h) = grind arith

-- The gate answers on every input, and its reason tells why: without a root cause it is
-- `investigation_exhausted` exactly from the last iteration on; with one, the first of an
-- unverified hypothesis, a confidence below the minimum and a lack of any evidence is named, and
-- the incident is eligible exactly if none of the three holds.
pub check_remediation_eligibility-Explains :
    (cause : Option RootCauseAnalysis) (h : Option Hypothesis) (evidence : List EvidenceItem)
    (n m c : ℕ)
    → let result = check_remediation_eligibility cause h evidence n m c in
      Explains result.reason cause h evidence n m c
      × (result.eligible ≡ is_eligible_reason result.reason)
unfolding check_remediation_eligibility
check_remediation_eligibility-Explains none h evidence n m c = ground arith
check_remediation_eligibility-Explains (some cause) h evidence n m c =
    ground (arith, is_unverified_iff h)
