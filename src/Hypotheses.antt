-- ===== src/Hypotheses.antt =====
-- graph/nodes/hypothesize.py: `generate_hypotheses_node`.
--
-- The LLM's answer is an argument, none where the call raises; the prompt is left out. `lower` is
-- Python's `str.lower`, `uuid` the uuid4 draws, and a set of ids is a list.
pub mod Grounding
use fault_warden.Base.{
  ℕ, suc, ◌*◌, ◌^◌, Bool, true, false, not, ◌&&◌, Option, none, some, List, [], ◌∷◌, ◌++◌, map, any,
  keep, String, if◌then◌else◌, nonempty,
}
use Prim.Native.String as Text
use fault_warden.Schemas.{Hypothesis, proposed, EvidenceItem}
use fault_warden.Schemas.Change.{OperationalChange}
use fault_warden.Causality.{contains_text}
use fault_warden.Policy.Ranking.{has_keyword}

-- What the node reads of the state; the service is what `resolve_service_from_state` gives.
pub record GenerationInput : Type 0 where
  pub evidence : List EvidenceItem
  pub similar_incident_ids : List String
  pub recent_changes : List OperationalChange
  pub candidate_causal_changes : List OperationalChange
  pub service_name : String

pub record HypothesisCandidate : Type 0 where
  pub title : String
  pub description : String
  pub affected_component : String
  pub confidence_score : ℕ
  pub supporting_evidence_ids : List String
  pub refuting_evidence_ids : List String
  pub historical_reference_ids : List String
  pub related_change_ids : List String
  pub reasoning_summary : String

-- The ids that an id given as evidence really names are moved to their own lists.
abbrev pub migrate_id :
    (historical changes : List String)
    → (id : String) → (historical_refs change_refs : List String) → List String × List String
migrate_id historical changes id historical_refs change_refs =
    if contains_text historical id && not (contains_text historical_refs id)
    then (historical_refs ++ (id ∷ []), change_refs)
    else if contains_text changes id && not (contains_text change_refs id)
    then (historical_refs, change_refs ++ (id ∷ []))
    else (historical_refs, change_refs)

unfoldable pub migrate :
    (historical changes supporting historical_refs change_refs : List String)
    → List String × List String
migrate historical changes [] historical_refs change_refs = (historical_refs, change_refs)
migrate historical changes (id ∷ ids) historical_refs change_refs =
    let refs = migrate_id historical changes id historical_refs change_refs in
    migrate historical changes ids refs.0 refs.1

abbrev pub evidence_ids : GenerationInput → List String
evidence_ids input = map (λ e. e.id) input.evidence

abbrev pub change_ids : GenerationInput → List String
change_ids input = map (λ c. c.id) input.recent_changes

-- The hypothesis made of a candidate.
abbrev pub accept_candidate : GenerationInput → (id : ℕ) → HypothesisCandidate → Hypothesis
accept_candidate input id c =
    let known = contains_text (evidence_ids input) in
    let refs =
      migrate input.similar_incident_ids (change_ids input) c.supporting_evidence_ids
        (keep (contains_text input.similar_incident_ids) c.historical_reference_ids)
        (keep (contains_text (change_ids input)) c.related_change_ids) in
    record {
      id = id;
      title = c.title;
      description = c.description;
      affected_component = c.affected_component;
      confidence_score = c.confidence_score;
      status = proposed;
      supporting_evidence_ids = keep known c.supporting_evidence_ids;
      refuting_evidence_ids = keep known c.refuting_evidence_ids;
      historical_reference_ids = refs.0;
      related_change_ids = refs.1;
      reasoning_summary = c.reasoning_summary;
    }

abbrev pub first_id : List String → List String
first_id [] = []
first_id (id ∷ ids) = id ∷ []

abbrev pub pool_keywords : List String
pool_keywords = "pool" ∷ "db_pool" ∷ "connection" ∷ "exhausted" ∷ []

abbrev pub error_keywords : List String
error_keywords =
    "500" ∷ "502" ∷ "503" ∷ "5xx" ∷ "error" ∷ "server error" ∷ "exception" ∷ "failed" ∷ []

-- The floats 0.90, 0.85 and 0.75.
abbrev pub pool_confidence : (has_candidate : Bool) → ℕ
pool_confidence true = 8106479329266893 * 2 ^ 1021
pool_confidence false = 7656119366529843 * 2 ^ 1021

abbrev pub error_confidence : ℕ
error_confidence = 3 * 2 ^ 1072

abbrev pub triggered_by : List OperationalChange → String
triggered_by [] = ""
triggered_by (c ∷ cs) =
    Text.◌++◌ " Triggered by " (Text.◌++◌ c.title (Text.◌++◌ " (" (Text.◌++◌ c.id ").")))

abbrev pub pool_reasoning : (has_candidate : Bool) → String
pool_reasoning true =
    "Error logs indicate connection pool exhaustion matching recent configuration change."
pool_reasoning false =
    "Error logs explicitly indicate connection pool exhaustion during transactions."

module _ (lower : String → String) (uuid : ℕ → ℕ) where
  -- The ids of the evidence whose summary has one of these words.
  abbrev pub matching_ids : (keywords : List String) → List EvidenceItem → List String
  matching_ids keywords evidence =
      map (λ e. e.id) (keep (λ e. any (has_keyword (lower e.summary)) keywords) evidence)

  abbrev pub pool_hypothesis : GenerationInput → (ids : List String) → Hypothesis
  pool_hypothesis input ids =
      let candidates = input.candidate_causal_changes in
      record {
        id = uuid 0;
        title = "Database Connection Pool Exhaustion";
        description =
            Text.◌++◌
              "Service connection pool reached max capacity leading to queue timeouts and 500 errors."
              (triggered_by candidates);
        affected_component = input.service_name;
        confidence_score = pool_confidence (nonempty candidates);
        status = proposed;
        supporting_evidence_ids = ids;
        refuting_evidence_ids = [];
        historical_reference_ids = first_id input.similar_incident_ids;
        related_change_ids = first_id (map (λ c. c.id) candidates);
        reasoning_summary = pool_reasoning (nonempty candidates);
      }

  abbrev pub error_hypothesis : GenerationInput → Hypothesis
  error_hypothesis input = record {
    id = uuid 0;
    title = "Elevated Application Error Rate";
    description = "Incoming requests to service are encountering 5xx server exceptions.";
    affected_component = input.service_name;
    confidence_score = error_confidence;
    status = proposed;
    supporting_evidence_ids = matching_ids error_keywords input.evidence;
    refuting_evidence_ids = [];
    historical_reference_ids = first_id input.similar_incident_ids;
    related_change_ids = first_id (map (λ c. c.id) input.candidate_causal_changes);
    reasoning_summary = "Metrics show non-zero 5xx error rate on HTTP endpoints.";
  }

  abbrev pub fallback_hypothesis : GenerationInput → (pool_ids : List String) → Hypothesis
  fallback_hypothesis input [] = error_hypothesis input
  fallback_hypothesis input (id ∷ ids) = pool_hypothesis input (id ∷ ids)

  unfoldable pub accept_candidates :
      GenerationInput → (n : ℕ) → List HypothesisCandidate → List Hypothesis
  accept_candidates input n [] = []
  accept_candidates input n (c ∷ cs) =
      accept_candidate input (uuid n) c ∷ accept_candidates input (suc n) cs

  abbrev pub or_fallback : GenerationInput → List Hypothesis → List Hypothesis
  or_fallback input [] = fallback_hypothesis input (matching_ids pool_keywords input.evidence) ∷ []
  or_fallback input (h ∷ hs) = h ∷ hs

  unfoldable pub generate_hypotheses_node :
      GenerationInput → Option (List HypothesisCandidate) → List Hypothesis
  generate_hypotheses_node input none = or_fallback input []
  generate_hypotheses_node input (some response) =
      or_fallback input (accept_candidates input 0 response)
