-- ===== src/Memory/Search.antt =====
-- `calculate_cosine_similarity` and `search_similar` of services/memory_service.py.
--
-- The floats are an argument, with their operations, and so is the vector distance of PostgreSQL's
-- pgvector extension; a row that has no vector has no distance, which the code cannot convert.
use fault_warden.Base.{
  ℕ, zero, suc, ◌*◌, Bool, true, false, not, ◌&&◌, Option, none, some, List, [], ◌∷◌, map, ◌==◌,
  if◌then◌else◌, keep, take, length, nonempty, String, str_eq,
}
use fault_warden.Memory.Quality.{IncidentMemoryModel}

pub record SimilarIncidentMemory (Float : Type 0) : Type 0 where
  pub incident_id : ℕ
  pub memory_id : ℕ
  pub similarity : Float
  pub service : String
  pub classification : String
  pub severity : String
  pub symptoms_summary : String
  pub root_cause_summary : String
  pub root_cause_category : String
  pub causal_change_summary : Option String
  pub causal_change_type : Option String
  pub successful_remediation_summary : String
  pub successful_action_type : Option String
  pub validation_summary : String
  pub resolved_at : ℕ

-- The filters of a search; an empty text filters nothing.
pub record SearchFilter : Type 0 where
  pub service : Option String
  pub classification : Option String
  pub exclude_incident_id : Option ℕ

abbrev pub text_passes : Option String → String → Bool
text_passes none text = true
text_passes (some wanted) text = if str_eq wanted "" then true else str_eq text wanted

abbrev pub id_passes : Option ℕ → ℕ → Bool
id_passes none id = true
id_passes (some excluded) id = not (id == excluded)

-- `limit or settings.top_k`
abbrev pub limit_or : Option ℕ → ℕ → ℕ
limit_or none top_k = top_k
limit_or (some zero) top_k = top_k
limit_or (some (suc n)) top_k = suc n

abbrev pub value_or : {A : Type 0} → A → Option A → A
value_or d none = d
value_or d (some a) = a

abbrev pub passes_filter : {Vector : Type 0} → SearchFilter → IncidentMemoryModel Vector → Bool
passes_filter f m =
    text_passes f.service m.service
    && (text_passes f.classification m.classification
        && id_passes f.exclude_incident_id m.incident_id)

-- The float operations that the code uses; `over` is only called with a divisor that is not zero.
pub record Floats (Float : Type 0) : Type 0 where
  pub nought : Float
  pub one : Float
  pub plus : Float → Float → Float
  pub minus : Float → Float → Float
  pub times : Float → Float → Float
  pub over : Float → Float → Float
  pub sqrt : Float → Float
  pub round4 : Float → Float
  pub is_zero : Float → Bool
  pub at_most : Float → Float → Bool

module _ {Float : Type 0} (floats : Floats Float) where
  abbrev pub dot : (total : Float) → List Float → List Float → Float
  dot total [] bs = total
  dot total (a ∷ as_) [] = total
  dot total (a ∷ as_) (b ∷ bs) = dot (floats.plus total (floats.times a b)) as_ bs

  abbrev pub norm : List Float → Float
  norm a = floats.sqrt (dot floats.nought a a)

  unfoldable pub calculate_cosine_similarity : List Float → List Float → Float
  calculate_cosine_similarity a b =
      if not (nonempty a)
      then floats.nought
      else if not (nonempty b)
      then floats.nought
      else if not (length a == length b)
      then floats.nought
      else if floats.is_zero (norm a)
      then floats.nought
      else if floats.is_zero (norm b)
      then floats.nought
      else floats.over (dot floats.nought a b) (floats.times (norm a) (norm b))

  abbrev pub similar_of :
      IncidentMemoryModel (List Float) → (similarity : Float) → SimilarIncidentMemory Float
  similar_of m similarity = record {
    incident_id = m.incident_id;
    memory_id = m.id;
    similarity = floats.round4 similarity;
    service = m.service;
    classification = m.classification;
    severity = m.severity;
    symptoms_summary = m.symptoms_summary;
    root_cause_summary = m.root_cause_summary;
    root_cause_category = m.root_cause_category;
    causal_change_summary = m.causal_change_summary;
    causal_change_type = m.causal_change_type;
    successful_remediation_summary = m.successful_remediation_summary;
    successful_action_type = m.successful_action_type;
    validation_summary = m.validation_summary;
    resolved_at = m.resolved_at;
  }

  -- The memories with a similarity of at least the minimum; an empty vector counts as none.
  abbrev pub score_memory :
      (query : List Float) (min_similarity : Float)
      → IncidentMemoryModel (List Float)
      → Option (List Float)
      → List (IncidentMemoryModel (List Float) × Float)
      → List (IncidentMemoryModel (List Float) × Float)
  score_memory query least m none scored = scored
  score_memory query least m (some []) scored = scored
  score_memory query least m (some (v ∷ vs)) scored =
      let similarity = calculate_cosine_similarity query (v ∷ vs) in
      if floats.at_most least similarity then (m, similarity) ∷ scored else scored

  unfoldable pub score_memories :
      (query : List Float) (min_similarity : Float)
      → List (IncidentMemoryModel (List Float))
      → List (IncidentMemoryModel (List Float) × Float)
  score_memories query least [] = []
  score_memories query least (m ∷ ms) =
      score_memory query least m m.embedding (score_memories query least ms)

  -- The stable sort by descending similarity: a memory stands before those of its similarity.
  unfoldable pub insert_scored :
      IncidentMemoryModel (List Float) × Float
      → List (IncidentMemoryModel (List Float) × Float)
      → List (IncidentMemoryModel (List Float) × Float)
  insert_scored (m, s) [] = (m, s) ∷ []
  insert_scored (m, s) ((n, t) ∷ rest) =
      if floats.at_most t s then (m, s) ∷ (n, t) ∷ rest else (n, t) ∷ insert_scored (m, s) rest

  unfoldable pub sort_scored :
      List (IncidentMemoryModel (List Float) × Float)
      → List (IncidentMemoryModel (List Float) × Float)
  sort_scored [] = []
  sort_scored (p ∷ ps) = insert_scored p (sort_scored ps)

  -- The branch for SQLite.
  unfoldable pub search_in_memory :
      (query : List Float) (top_k : ℕ) (min_similarity : Float)
      → List (IncidentMemoryModel (List Float))
      → List (SimilarIncidentMemory Float)
  search_in_memory query top_k least memories =
      map (λ p. similar_of p.0 p.1) (take top_k (sort_scored (score_memories query least memories)))

  module _ (cosine_distance : List Float → List Float → Float) where
    abbrev pub distance_of : (query : List Float) → Option (List Float) → Option Float
    distance_of query none = none
    distance_of query (some v) = some (cosine_distance v query)

    abbrev pub comes_before : Option Float → Option Float → Bool
    comes_before (some d) (some e) = floats.at_most d e
    comes_before (some d) none = true
    comes_before none none = true
    comes_before none (some e) = false

    -- `ORDER BY distance`, where NULL comes last.
    unfoldable pub insert_row :
        IncidentMemoryModel (List Float) × Option Float
        → List (IncidentMemoryModel (List Float) × Option Float)
        → List (IncidentMemoryModel (List Float) × Option Float)
    insert_row (m, d) [] = (m, d) ∷ []
    insert_row (m, d) ((n, e) ∷ rest) =
        if comes_before d e then (m, d) ∷ (n, e) ∷ rest else (n, e) ∷ insert_row (m, d) rest

    unfoldable pub ordered_rows :
        (query : List Float)
        → List (IncidentMemoryModel (List Float))
        → List (IncidentMemoryModel (List Float) × Option Float)
    ordered_rows query [] = []
    ordered_rows query (m ∷ ms) =
        insert_row (m, distance_of query m.embedding) (ordered_rows query ms)

    abbrev pub add_hit :
        (hit : Bool)
        → IncidentMemoryModel (List Float)
        → (similarity : Float) → Option (List (SimilarIncidentMemory Float))
        → Option (List (SimilarIncidentMemory Float))
    add_hit hit m similarity none = none
    add_hit true m similarity (some rest) = some (similar_of m similarity ∷ rest)
    add_hit false m similarity (some rest) = some rest

    -- The loop over the rows, with room for that many results; none where a distance is missing.
    unfoldable pub collect_rows :
        (min_similarity : Float)
        → List (IncidentMemoryModel (List Float) × Option Float)
        → (room : ℕ) → Option (List (SimilarIncidentMemory Float))
    collect_rows least rows zero = some []
    collect_rows least [] (suc room) = some []
    collect_rows least ((m, none) ∷ rows) (suc room) = none
    collect_rows least ((m, some d) ∷ rows) (suc room) =
        let similarity = floats.minus floats.one d in
        let hit = floats.at_most least similarity in
        add_hit hit m similarity (collect_rows least rows (if hit then room else suc room))

    -- The branch for PostgreSQL.
    unfoldable pub search_in_postgres :
        (query : List Float) (top_k : ℕ) (min_similarity : Float)
        → List (IncidentMemoryModel (List Float))
        → Option (List (SimilarIncidentMemory Float))
    search_in_postgres query top_k least memories =
        collect_rows least (take (top_k * 2) (ordered_rows query memories)) top_k

    abbrev pub search_by_vector :
        (is_postgresql : Bool) (top_k : ℕ) (min_similarity : Float)
        → SearchFilter
        → List (IncidentMemoryModel (List Float))
        → (query : Option (List Float)) → Option (List (SimilarIncidentMemory Float))
    search_by_vector is_postgresql top_k least f memories none = some []
    search_by_vector true top_k least f memories (some query) =
        search_in_postgres query top_k least (keep (passes_filter f) memories)
    search_by_vector false top_k least f memories (some query) =
        some (search_in_memory query top_k least (keep (passes_filter f) memories))

    -- `query` is the query's vector, or what the provider made of its text: none where it raised.
    -- The result is none where the search raises.
    unfoldable pub search_similar :
        (is_postgresql : Bool) (default_top_k : ℕ) (default_min_similarity : Float)
        → List (IncidentMemoryModel (List Float))
        → (query : Option (List Float)) (f : SearchFilter) (limit : Option ℕ)
        → (min_similarity : Option Float) → Option (List (SimilarIncidentMemory Float))
    search_similar is_postgresql default_top_k default_least memories query f limit least =
        search_by_vector is_postgresql (limit_or limit default_top_k) (value_or default_least least)
          f memories query
