-- ===== src/Verify.antt =====
-- graph/nodes/verify.py: `verify_hypothesis_node`. The LLM's answer is an argument, `none` where the
-- call raises; what the node returns is a record of the state keys that it sets.
pub mod Promotion
pub mod Verdict
use Prim.Native.String as Text
use fault_warden.Base.{
  ℕ, Bool, ◌&&◌, Option, none, some, List, [], ◌∷◌, map, String, ltb, leb, ◌==◌, str_eq,
  if◌then◌else◌, any, keep,
}
use fault_warden.Schemas.{
  HypothesisStatus, testing, verified, inconclusive, Hypothesis, RootCauseAnalysis, EvidenceItem,
  IncidentClassification,
}
use fault_warden.Schemas.Change.{OperationalChange, ChangeCorrelation}
use fault_warden.Causality.{contains_text, verify_causal_change_association}

-- `settings.investigation`, and the threshold of `settings.change`.
pub record InvestigationSettings : Type 0 where
  pub max_iterations : ℕ
  pub confidence_threshold : ℕ
  pub correlation_threshold : ℕ

-- `HypothesisVerificationResponse`
pub record VerificationResponse : Type 0 where
  pub is_verified : Bool
  pub confidence_score : ℕ
  pub additional_queries_needed : List String

-- `max(hypotheses, key=...)`: the first of the greatest, from `best` on.
unfoldable pub better : Hypothesis → Hypothesis → Hypothesis
better best h = if ltb best.confidence_score h.confidence_score then h else best

unfoldable pub best_of : Hypothesis → List Hypothesis → Hypothesis
best_of best [] = best
best_of best (h ∷ hs) = best_of (better best h) hs

-- What the evaluation of the candidate comes to.
pub record Evaluation : Type 0 where
  pub is_verified : Bool
  pub confidence : ℕ
  pub missing_queries : List String

-- The `try` around the LLM call, with the fallback.
unfoldable pub evaluate_candidate :
    InvestigationSettings → Hypothesis → Option VerificationResponse → Evaluation
evaluate_candidate settings best (some answer) = record {
  is_verified = answer.is_verified;
  confidence = answer.confidence_score;
  missing_queries = answer.additional_queries_needed;
}
evaluate_candidate settings best none = record {
  is_verified = leb settings.confidence_threshold best.confidence_score;
  confidence = best.confidence_score;
  missing_queries = [];
}

-- `[updated if h.id == best.id else h for h in hypotheses]`
abbrev pub replace_hypothesis : Hypothesis → List Hypothesis → List Hypothesis
replace_hypothesis updated hs = map (λ h. if h.id == updated.id then updated else h) hs

-- `_with_updated_candidate`
abbrev pub with_updated_candidate : Hypothesis → Evaluation → HypothesisStatus → Hypothesis
with_updated_candidate best evaluation status = record best {
  confidence_score = evaluation.confidence;
  status = status;
}

abbrev pub evidence_ids : List EvidenceItem → List String
evidence_ids items = map (λ e. e.id) items

-- `{ch.id: ch for ch in changes}[cid]`: of equal ids the last one stays.
unfoldable pub change_of : String → List OperationalChange → Option OperationalChange
change_of cid [] = none
change_of cid (ch ∷ chs) = elim (change_of cid chs) [
  | some later ↦ some later
  | none ↦ if str_eq ch.id cid then some ch else none
]

unfoldable pub correlation_of : String → List ChangeCorrelation → Option ChangeCorrelation
correlation_of cid [] = none
correlation_of cid (c ∷ cs) = elim (correlation_of cid cs) [
  | some later ↦ some later
  | none ↦ if str_eq c.change_id cid then some c else none
]

module _ (lower : String → String) where
  -- One round of the loop over `related_change_ids`.
  unfoldable pub promote_change :
      Hypothesis
      → Option OperationalChange
      → Option ChangeCorrelation
      → List String
      → ℕ
      → List OperationalChange
      → List OperationalChange
  promote_change hypothesis none correlation current threshold rest = rest
  promote_change hypothesis (some ch) correlation current threshold rest =
      if verify_causal_change_association lower hypothesis ch correlation current threshold
      then ch ∷ rest
      else rest

  -- `causal_changes`
  unfoldable pub causal_changes :
      Hypothesis
      → List OperationalChange
      → List ChangeCorrelation
      → List String
      → ℕ
      → List String
      → List OperationalChange
  unfolding promote_change
  causal_changes hypothesis changes correlations current threshold [] = []
  causal_changes hypothesis changes correlations current threshold (cid ∷ cids) =
      promote_change hypothesis (change_of cid changes) (correlation_of cid correlations) current
        threshold (causal_changes hypothesis changes correlations current threshold cids)

-- The keys of the returned dict; `selected_causal_change` is set on promotion only.
pub record VerifyOutput : Type 0 where
  pub hypotheses : List Hypothesis
  pub selected_hypothesis : Option Hypothesis
  pub selected_causal_change : Option OperationalChange
  pub root_cause : Option RootCauseAnalysis
  pub missing_evidence_queries : List String

abbrev pub head_change : List OperationalChange → Option OperationalChange
head_change [] = none
head_change (ch ∷ chs) = some ch

-- `missing_queries or ["sum(rate(http_requests_total[1m]))"]`
abbrev pub or_default_query : List String → List String
or_default_query [] = "sum(rate(http_requests_total[1m]))" ∷ []
or_default_query (q ∷ qs) = q ∷ qs

abbrev pub category_name : Option IncidentClassification → String
category_name none = "UNKNOWN"
category_name (some c) = c.category

-- What the node reads of the state.
pub record VerifyInput : Type 0 where
  pub hypotheses : List Hypothesis
  pub evidence : List EvidenceItem
  pub recent_changes : List OperationalChange
  pub change_correlations : List ChangeCorrelation
  pub classification : Option IncidentClassification
  pub iteration_count : ℕ
  pub selected_causal_change : Option OperationalChange

module _ (lower : String → String) (settings : InvestigationSettings) where
  -- The branch that promotes the candidate to the root cause.
  unfoldable pub promote : VerifyInput → Hypothesis → Evaluation → VerifyOutput
  unfolding causal_changes
  promote input best evaluation =
      let current = evidence_ids input.evidence in
      let candidate = record (with_updated_candidate best evaluation verified) {
        supporting_evidence_ids = keep (contains_text current) best.supporting_evidence_ids;
      } in
      let causal =
        causal_changes lower candidate input.recent_changes input.change_correlations current
          settings.correlation_threshold candidate.related_change_ids in
      record {
        hypotheses = replace_hypothesis candidate input.hypotheses;
        selected_hypothesis = some candidate;
        selected_causal_change = head_change causal;
        root_cause = some (record {
          primary_hypothesis_id = candidate.id;
          summary =
              Text.◌++◌ "Root cause verified: "
                (Text.◌++◌ candidate.title (Text.◌++◌ ". " candidate.description));
          root_cause_category = category_name input.classification;
          culprit_service = candidate.affected_component;
          supporting_evidence_ids = candidate.supporting_evidence_ids;
          causal_change_ids = map (λ ch. ch.id) causal;
          confidence = evaluation.confidence;
        });
        missing_evidence_queries = [];
      }

  -- The branch without a verified candidate.
  unfoldable pub keep_testing : VerifyInput → Hypothesis → Evaluation → VerifyOutput
  keep_testing input best evaluation =
      let at_max_iterations = leb settings.max_iterations input.iteration_count in
      let candidate =
        with_updated_candidate best evaluation
          (if at_max_iterations then inconclusive else testing) in
      record {
        hypotheses = replace_hypothesis candidate input.hypotheses;
        selected_hypothesis = some candidate;
        selected_causal_change = input.selected_causal_change;
        root_cause = none;
        missing_evidence_queries =
            if at_max_iterations then [] else or_default_query evaluation.missing_queries;
      }

  -- "Application code owns the transition policy".
  abbrev pub is_promoted : VerifyInput → Hypothesis → Evaluation → Bool
  is_promoted input best evaluation =
      evaluation.is_verified
      && (leb settings.confidence_threshold evaluation.confidence
          && any (contains_text (evidence_ids input.evidence)) best.supporting_evidence_ids)

  unfoldable pub verify_candidate : VerifyInput → Hypothesis → Evaluation → VerifyOutput
  unfolding promote keep_testing
  verify_candidate input best evaluation =
      if is_promoted input best evaluation
      then promote input best evaluation
      else keep_testing input best evaluation

  unfoldable pub verify_from :
      VerifyInput → List Hypothesis → Option VerificationResponse → VerifyOutput
  unfolding verify_candidate
  verify_from input [] answer = record {
    hypotheses = input.hypotheses;
    selected_hypothesis = none;
    selected_causal_change = input.selected_causal_change;
    root_cause = none;
    missing_evidence_queries = [];
  }
  verify_from input (h ∷ hs) answer =
      let best = best_of h hs in
      verify_candidate input best (evaluate_candidate settings best answer)

  -- The node. The keys that the dict leaves out keep their values.
  unfoldable pub verify_hypothesis_node : VerifyInput → Option VerificationResponse → VerifyOutput
  unfolding verify_from
  verify_hypothesis_node input answer = verify_from input input.hypotheses answer
