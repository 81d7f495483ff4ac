-- ===== src/Correlations.antt =====
-- graph/nodes/correlate.py: the correlation of a change with an incident.
--
-- A time is a number of microseconds. A score is a float from 0.0 to 1.0 in the units of
-- verification/Schemas.antt; the float operations `+`, `-`, `*`, `/`, `round(·, 2)` and the number of
-- seconds of a difference are arguments on these units, and so are Python's `str.lower` and
-- `str.upper`. A set of texts is a list. The explanation and the summary are left out.
pub mod Candidates
use Prim.Native.String as Text
use Prim.Native.String.{char_at}
use fault_warden.Base.{
  ℕ, ◌+◌, ◌-◌, ◌*◌, ◌^◌, Bool, true, false, not, ◌&&◌, Option, none, some, List, [], ◌∷◌, ◌++◌, any,
  String, ltb, leb, str_eq, if◌then◌else◌, nonempty, split, strip, replace_char, ends_with,
}
use fault_warden.Schemas.{
  EvidenceItem, EvidenceType, alert, metric, log, trace, deployment, system_state, score_one,
}
use fault_warden.Schemas.Change.{
  CausalChangeType, config_regression, code_regression, resource_limit_change, unrelated_change,
  ChangeType, ConfigurationChange, OperationalChange, ChangeCorrelation,
}
use fault_warden.Causality.{contains_text, min_temporal_score}
use fault_warden.Policy.Ranking.{has_keyword}

abbrev pub db_pool_words : List String
db_pool_words =
    "db_pool" ∷ "pool" ∷ "connection" ∷ "exhausted" ∷ "max_connections" ∷ "pool_size" ∷ "database"
    ∷ "postgres" ∷ "psycopg" ∷ "asyncpg" ∷ "acquire" ∷ "queue" ∷ []

abbrev pub timeout_words : List String
timeout_words =
    "timeout" ∷ "timed_out" ∷ "deadline" ∷ "latency" ∷ "slow" ∷ "504" ∷ "gateway" ∷ "response_time"
    ∷ []

abbrev pub memory_words : List String
memory_words = "memory" ∷ "oom" ∷ "heap" ∷ "out of memory" ∷ "killed" ∷ "ram" ∷ "leak" ∷ []

abbrev pub error_rate_words : List String
error_rate_words =
    "500" ∷ "502" ∷ "503" ∷ "server error" ∷ "internal server error" ∷ "exception" ∷ "traceback"
    ∷ "failed" ∷ "error" ∷ []

abbrev pub concurrency_words : List String
concurrency_words =
    "concurrency" ∷ "workers" ∷ "threads" ∷ "rate_limit" ∷ "throttled" ∷ "capacity" ∷ []

-- `_SYMPTOM_CLUSTERS`, whose names are not read.
abbrev pub symptom_clusters : List (List String)
symptom_clusters =
    db_pool_words ∷ timeout_words ∷ memory_words ∷ error_rate_words ∷ concurrency_words ∷ []

-- The floats 0.1, 0.2, 0.4, 0.6, 0.9, 0.35 and 0.45.
abbrev pub score_01 : ℕ
score_01 = 3602879701896397 * 2 ^ 1019

abbrev pub score_02 : ℕ
score_02 = 3602879701896397 * 2 ^ 1020

abbrev pub score_04 : ℕ
score_04 = 3602879701896397 * 2 ^ 1021

abbrev pub score_06 : ℕ
score_06 = 5404319552844595 * 2 ^ 1021

abbrev pub score_09 : ℕ
score_09 = 8106479329266893 * 2 ^ 1021

abbrev pub score_035 : ℕ
score_035 = 3152519739159347 * 2 ^ 1021

abbrev pub score_045 : ℕ
score_045 = 8106479329266893 * 2 ^ 1020

abbrev pub microsecond : ℕ
microsecond = 1000000

-- `f"{summary} {evidence_type} {source}"`
abbrev pub evidence_type_text : EvidenceType → String
evidence_type_text alert = "ALERT"
evidence_type_text metric = "METRIC"
evidence_type_text log = "LOG"
evidence_type_text trace = "TRACE"
evidence_type_text deployment = "DEPLOYMENT"
evidence_type_text system_state = "SYSTEM_STATE"

abbrev pub evidence_text : EvidenceItem → String
evidence_text e =
    Text.◌++◌ e.summary
      (Text.◌++◌ " " (Text.◌++◌ (evidence_type_text e.evidence_type) (Text.◌++◌ " " e.source)))

abbrev pub stripped_chars : String
stripped_chars = ".,;:()[]{}'\"-_/\\"

abbrev pub with_token : String → List String → List String
with_token String.[] tokens = tokens
with_token (String.◌∷◌ c s) tokens = String.◌∷◌ c s ∷ tokens

-- The words of the title and description, without punctuation at their ends.
unfoldable pub clean_words : List String → List String
clean_words [] = []
clean_words (w ∷ ws) = with_token (strip stripped_chars w) (clean_words ws)

abbrev pub pool_keys : List String
pool_keys = "DB_POOL_SIZE" ∷ "POOL_SIZE" ∷ "MAX_CONNECTIONS" ∷ []

abbrev pub limit_keys : List String
limit_keys = "DB_POOL_SIZE" ∷ "POOL_SIZE" ∷ "MAX_CONNECTIONS" ∷ "MEMORY_LIMIT" ∷ "CPU_LIMIT" ∷ []

abbrev pub or_empty : Option String → String
or_empty none = ""
or_empty (some text) = text

-- One keyword list of the change and of a lower-case evidence text.
abbrev pub cluster_matches : (tokens : List String) → (text : String) → (words : List String) → Bool
cluster_matches tokens text words = any (contains_text words) tokens && any (has_keyword text) words

abbrev pub is_code_file : String → Bool
is_code_file f = any (ends_with f) (".py" ∷ ".js" ∷ ".go" ∷ ".rs" ∷ ".java" ∷ [])

abbrev pub is_deployment : ChangeType → Bool
is_deployment ChangeType.deployment = true
is_deployment _ = false

module _ (plus minus times over : ℕ → ℕ → ℕ) (round2 : ℕ → ℕ) (seconds : ℕ → ℕ) where
  -- `end - ((delta - start) / width) * range`, where `delta` and `start` are microseconds.
  abbrev pub decayed : (delta start width end range : ℕ) → ℕ
  decayed delta start width end range =
      minus end (times (over (minus (seconds delta) (seconds start)) (seconds width)) range)

  -- The score of a change that is not later than the incident.
  abbrev pub score_before : (delta : ℕ) → ℕ
  score_before delta =
      if leb delta (300 * microsecond)
      then minus score_one (times (over (seconds delta) (seconds (300 * microsecond))) score_01)
      else if leb delta (1800 * microsecond)
      then decayed delta (300 * microsecond) (1500 * microsecond) score_09 min_temporal_score
      else if leb delta (7200 * microsecond)
      then decayed delta (1800 * microsecond) (5400 * microsecond) score_06 score_04
      else score_01

  unfoldable pub calculate_temporal_score : (change_ts incident_ts : ℕ) → ℕ
  calculate_temporal_score change_ts incident_ts =
      if ltb incident_ts change_ts
      then (if leb (change_ts - incident_ts) (60 * microsecond) then score_02 else 0)
      else score_before (incident_ts - change_ts)

  abbrev pub one_if : Bool → ℕ
  one_if true = score_one
  one_if false = 0

  abbrev pub base_score : (temporal : ℕ) → Bool × List String → ℕ
  base_score temporal (symptom, links) =
      plus (plus (times score_035 temporal) (times score_045 (one_if symptom)))
        (times score_02 (one_if (nonempty links)))

  abbrev pub relevance_of : (component : Bool) (temporal : ℕ) → Bool × List String → ℕ
  relevance_of false temporal match = 0
  relevance_of true temporal (true, links) = round2 (base_score temporal (true, links))
  relevance_of true temporal (false, links) =
      let base = base_score temporal (false, links) in
      if ltb score_035 base then score_035 else base

  abbrev pub is_candidate :
      (threshold : ℕ) (component : Bool) (temporal : ℕ) → Bool × List String → Bool
  is_candidate threshold false temporal match = false
  is_candidate threshold true temporal (true, links) =
      leb threshold (relevance_of true temporal (true, links)) && leb min_temporal_score temporal
  is_candidate threshold true temporal (false, links) = false

module _ (lower upper : String → String) where
  unfoldable pub config_tokens : List ConfigurationChange → List String
  config_tokens [] = []
  config_tokens (cfg ∷ rest) =
      split (replace_char b'_' (char_at " " 0) (lower cfg.key))
      ++ ((if contains_text pool_keys (upper cfg.key)
            then "db_pool" ∷ "pool" ∷ "connection" ∷ "database" ∷ []
            else [])
          ++ config_tokens rest)

  unfoldable pub file_tokens : List String → List String
  file_tokens [] = []
  file_tokens (f ∷ fs) =
      split (replace_char b'.' (char_at " " 0) (replace_char b'/' (char_at " " 0) (lower f)))
      ++ file_tokens fs

  unfoldable pub change_tokens : OperationalChange → List String
  change_tokens c =
      clean_words (split (lower (Text.◌++◌ c.title (Text.◌++◌ " " (or_empty c.description)))))
      ++ (config_tokens c.config_changes ++ file_tokens c.files_changed)

  unfoldable pub matches : (tokens : List String) → EvidenceItem → Bool
  matches tokens e = any (cluster_matches tokens (lower (evidence_text e))) symptom_clusters

  -- The ids of the matching evidence, each once; `found` are those of the items before.
  unfoldable pub matching_evidence : (tokens found : List String) → List EvidenceItem → List String
  matching_evidence tokens found [] = found
  matching_evidence tokens found (e ∷ es) =
      matching_evidence tokens
        (if matches tokens e && not (contains_text found e.id) then found ++ (e.id ∷ []) else found)
        es

  unfoldable pub causal_category : (symptom_match : Bool) → OperationalChange → CausalChangeType
  causal_category symptom_match c =
      if any (λ cfg. contains_text limit_keys (upper cfg.key)) c.config_changes
      then resource_limit_change
      else if nonempty c.config_changes
      then config_regression
      else if nonempty c.files_changed && any is_code_file c.files_changed
      then code_regression
      else if is_deployment c.change_type
      then code_regression
      else if symptom_match
      then code_regression
      else unrelated_change

  -- The symptom match and the evidence links.
  unfoldable pub assess_symptom_match : OperationalChange → List EvidenceItem → Bool × List String
  assess_symptom_match c evidence =
      let tokens = change_tokens c in
      (any (matches tokens) evidence, matching_evidence tokens [] evidence)

  module _ (plus minus times over : ℕ → ℕ → ℕ) (round2 : ℕ → ℕ) (seconds : ℕ → ℕ) where
    unfoldable pub correlate_change_with_incident :
        (threshold : ℕ) (incident_service : String) (incident_start_time : ℕ)
        → List EvidenceItem
        → OperationalChange
        → ChangeCorrelation
    correlate_change_with_incident threshold service start evidence c =
        let match = assess_symptom_match c evidence in
        let component = str_eq (lower c.service) (lower service) in
        let temporal =
          calculate_temporal_score plus minus times over round2 seconds c.timestamp start in
        record {
          change_id = c.id;
          temporal_score = round2 temporal;
          component_match = component;
          symptom_match = match.0;
          evidence_links = match.1;
          relevance_score =
              relevance_of plus minus times over round2 seconds component temporal match;
          causal_category = causal_category match.0 c;
          is_causal_candidate =
              is_candidate plus minus times over round2 seconds threshold component temporal match;
        }

    -- The correlations and the candidates of the changes; the service is what
    -- `resolve_service_from_state` gives, and the time is read from the alert.
    unfoldable pub correlate_evidence_node :
        (threshold : ℕ) (service : String) (incident_ts : ℕ)
        → List EvidenceItem
        → List OperationalChange
        → List ChangeCorrelation × List OperationalChange
    correlate_evidence_node threshold service ts evidence [] = ([], [])
    correlate_evidence_node threshold service ts evidence (c ∷ cs) =
        let correlation = correlate_change_with_incident threshold service ts evidence c in
        let rest = correlate_evidence_node threshold service ts evidence cs in
        (correlation ∷ rest.0, if correlation.is_causal_candidate then c ∷ rest.1 else rest.1)
