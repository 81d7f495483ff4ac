-- ===== src/Causality.antt =====
-- core/causality.py: `verify_causal_change_association`, the gate that promotes a change to a
-- verified cause. `lower` is Python's `str.lower`; a set of ids is a list.
pub mod Gate
pub mod Ids
use fault_warden.Base.{
  ℕ, ◌*◌, ◌^◌, Bool, false, not, Option, none, some, List, String, ltb, str_eq, if◌then◌else◌, any,
  keep, nonempty,
}
use fault_warden.Schemas.{Hypothesis}
use fault_warden.Schemas.Change.{OperationalChange, ChangeCorrelation}

-- The float 0.30 is 5404319552844595 * 2 ^ -54.
abbrev pub min_temporal_score : ℕ
min_temporal_score = 5404319552844595 * 2 ^ 1020

-- `x in xs` for texts
abbrev pub contains_text : List String → String → Bool
contains_text xs x = any (str_eq x) xs

module _ (lower : String → String) where
  -- The tests on the correlation record, from the candidate flag (3) to the last (10).
  unfoldable pub passes_gate :
      Hypothesis
      → OperationalChange
      → ChangeCorrelation
      → (current_evidence_ids : List String) → (correlation_threshold : ℕ) → Bool
  passes_gate hypothesis change correlation current_evidence_ids correlation_threshold =
      if not correlation.is_causal_candidate
      then false
      else if not correlation.component_match
      then false
      else if not (str_eq (lower change.service) (lower hypothesis.affected_component))
      then false
      else if not correlation.symptom_match
      then false
      else if ltb correlation.relevance_score correlation_threshold
      then false
      else if not (nonempty correlation.evidence_links)
      then false
      else if not (nonempty (keep (contains_text current_evidence_ids) correlation.evidence_links))
      then false
      else if ltb correlation.temporal_score min_temporal_score
      then false
      else contains_text hypothesis.related_change_ids change.id

  unfoldable pub verify_causal_change_association :
      Hypothesis
      → OperationalChange
      → Option ChangeCorrelation
      → (current_evidence_ids : List String) → (correlation_threshold : ℕ) → Bool
  unfolding passes_gate
  verify_causal_change_association hypothesis change none current_evidence_ids threshold = false
  verify_causal_change_association hypothesis change (some correlation) current_evidence_ids
        threshold =
      if str_eq change.id ""
      then false
      else if not (str_eq correlation.change_id change.id)
      then false
      else passes_gate hypothesis change correlation current_evidence_ids threshold
