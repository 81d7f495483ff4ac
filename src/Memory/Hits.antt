-- ===== src/Memory/Hits.antt =====
-- What a search of services/memory_service.py may give.
use fault_warden.Base.{ℕ, ◌≤◌, ◌≡◌, Bool, true, false, Option, none, some, List, length, All, In}
use fault_warden.Memory.Quality.{IncidentMemoryModel}
use fault_warden.Memory.Search.{
  SimilarIncidentMemory, SearchFilter, Floats, passes_filter, similar_of,
  calculate_cosine_similarity,
}

-- The memories that stand in the table and pass the filters.
abbrev pub IsCandidate :
    {Vector : Type 0}
    → SearchFilter
    → List (IncidentMemoryModel Vector)
    → IncidentMemoryModel Vector
    → Type 0
IsCandidate f memories m = In m memories × (passes_filter f m ≡ true)

-- A search for a vector, with the operations on floats and the distance that the database has.
pub record Question (Float : Type 0) : Type 0 where
  pub floats : Floats Float
  pub cosine_distance : List Float → List Float → Float
  pub query : List Float
  pub least : Float
  pub filter : SearchFilter
  pub memories : List (IncidentMemoryModel (List Float))

module _ {Float : Type 0} (q : Question Float) where
  -- The similarity as the database's branch computes it.
  abbrev pub measure : (is_postgresql : Bool) → List Float → Float
  measure true v = q.floats.minus q.floats.one (q.cosine_distance v q.query)
  measure false v = calculate_cosine_similarity q.floats q.query v

  pub record IsHit (is_postgresql : Bool) (m : IncidentMemoryModel (List Float))
      (similarity : Float) : Type 0 where
    pub vector : List Float
    pub candidate : IsCandidate q.filter q.memories m
    pub embedded : m.embedding ≡ some vector
    pub measured : similarity ≡ measure is_postgresql vector
    pub enough : q.floats.at_most q.least similarity ≡ true

  abbrev pub IsFound : (is_postgresql : Bool) → SimilarIncidentMemory Float → Type 0
  IsFound is_postgresql r =
      (m : IncidentMemoryModel (List Float)) × (similarity : Float) × IsHit is_postgresql m
        similarity
      × (r ≡ similar_of q.floats m similarity)

  -- At most so many results, each a hit; no answer only for a candidate without a vector.
  abbrev pub IsAnswer :
      (is_postgresql : Bool) → ℕ → Option (List (SimilarIncidentMemory Float)) → Type 0
  IsAnswer is_postgresql n none =
      (m : IncidentMemoryModel (List Float)) × IsCandidate q.filter q.memories m
      × (m.embedding ≡ none)
  IsAnswer is_postgresql n (some rs) = (length rs ≤ n) × All (IsFound is_postgresql) rs
