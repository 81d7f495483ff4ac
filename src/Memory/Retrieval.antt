-- ===== src/Memory/Retrieval.antt =====
-- What `search_similar` of services/memory_service.py gives.
use fault_warden.Base.{keep-All, ℕ, Bool, true, false, Option, some, keep}
use fault_warden.Memory.Search.{limit_or, value_or, passes_filter, search_by_vector, search_similar}
use fault_warden.Memory.Hits.{IsCandidate, Question, IsAnswer}
use fault_warden.Memory.Scores.{search_in_memory-IsAnswer}
use fault_warden.Memory.Distances.{search_in_postgres-IsAnswer}

module _ {Float : Type 0} (q : Question Float) where
  search_by_vector-IsAnswer :
      (is_postgresql : Bool) (n : ℕ)
      → IsAnswer q is_postgresql n (
          search_by_vector q.floats q.cosine_distance is_postgresql n q.least q.filter q.memories
            (some q.query))
  search_by_vector-IsAnswer true n =
      search_in_postgres-IsAnswer q n (keep (passes_filter q.filter) q.memories) (
        keep-All (passes_filter q.filter) (IsCandidate q.filter q.memories) q.memories
          (λ m i passes. (i, passes)))
  search_by_vector-IsAnswer false n =
      search_in_memory-IsAnswer q n (keep (passes_filter q.filter) q.memories) (
        keep-All (passes_filter q.filter) (IsCandidate q.filter q.memories) q.memories
          (λ m i passes. (i, passes)))

-- On either database a search gives at most the limit's number of results, each a stored memory
-- that passes the filters, with a similarity to the query, as measured on its vector, of at least
-- the minimum. It raises only if a memory that passes the filters has no vector.
pub search_similar-IsAnswer :
    {Float : Type 0} (q : Question Float) (is_postgresql : Bool) (top_k : ℕ) (default_least : Float)
    (limit : Option ℕ) (least : Option Float)
    → IsAnswer
        (record q { least = value_or default_least least })
        is_postgresql
        (limit_or limit top_k)
        (search_similar q.floats q.cosine_distance is_postgresql top_k default_least q.memories
          (some q.query)
          q.filter
          limit
          least)
unfolding search_similar
search_similar-IsAnswer q is_postgresql top_k default_least limit least =
    search_by_vector-IsAnswer (record q { least = value_or default_least least }) is_postgresql
      (limit_or limit top_k)
