-- ===== src/Memory/Scores.antt =====
-- The search of services/memory_service.py on SQLite, which scores the memories itself.
use fault_warden.Base.{
  take-All, map-All, at_most_taken, either, ℕ, ◌≡◌, refl, false, Option, none, some, List, [], ◌∷◌,
  take, All,
}
use fault_warden.Memory.Quality.{IncidentMemoryModel}
use fault_warden.Memory.Search.{
  similar_of, calculate_cosine_similarity, score_memory, score_memories, insert_scored, sort_scored,
  search_in_memory,
}
use fault_warden.Memory.Hits.{IsCandidate, Question, IsHit, IsFound, IsAnswer}

module _ {Float : Type 0} (q : Question Float) where
  abbrev IsScored : IncidentMemoryModel (List Float) × Float → Type 0
  IsScored p = IsHit q false p.0 p.1

  score_memories-All :
      (ms : List (IncidentMemoryModel (List Float)))
      → All (IsCandidate q.filter q.memories) ms
      → All IsScored (score_memories q.floats q.query q.least ms)
  unfolding score_memories
  score_memories-All [] h = tt
  score_memories-All (m ∷ ms) h = by_vector m.embedding refl (score_memories-All ms h.1)
    where
      by_vector :
          (o : Option (List Float))
          → m.embedding ≡ o
          → All IsScored (score_memories q.floats q.query q.least ms)
          → All IsScored (
              score_memory q.floats q.query q.least m o
                (score_memories q.floats q.query q.least ms))
      by_vector none e rest = rest
      by_vector (some []) e rest = rest
      by_vector (some (x ∷ xs)) e rest =
          either (All IsScored)
            (q.floats.at_most q.least (calculate_cosine_similarity q.floats q.query (x ∷ xs)))
            (λ enough. (
              record {
                vector = x ∷ xs;
                candidate = h.0;
                embedded = e;
                measured = refl;
                enough = enough;
              },
              rest,
            ))
            (λ less. rest)

  insert_scored-All :
      (m : IncidentMemoryModel (List Float)) (s : Float)
      (ps : List (IncidentMemoryModel (List Float) × Float))
      → IsHit q false m s
      → All IsScored ps
      → All IsScored (insert_scored q.floats (m, s) ps)
  unfolding insert_scored
  insert_scored-All m s [] p h = (p, tt)
  insert_scored-All m s ((n, t) ∷ ps) p h =
      let rest = insert_scored-All m s ps p h.1 in
      either (All IsScored) (q.floats.at_most t s) (λ e. (p, h)) (λ e. (h.0, rest))

  sort_scored-All :
      (ps : List (IncidentMemoryModel (List Float) × Float))
      → All IsScored ps
      → All IsScored (sort_scored q.floats ps)
  unfolding sort_scored
  sort_scored-All [] h = tt
  sort_scored-All ((m, s) ∷ ps) h =
      insert_scored-All m s (sort_scored q.floats ps) h.0 (sort_scored-All ps h.1)

  pub search_in_memory-IsAnswer :
      (n : ℕ) (ms : List (IncidentMemoryModel (List Float)))
      → All (IsCandidate q.filter q.memories) ms
      → IsAnswer q false n (some (search_in_memory q.floats q.query n q.least ms))
  unfolding search_in_memory
  search_in_memory-IsAnswer n ms h =
      let sorted = sort_scored q.floats (score_memories q.floats q.query q.least ms) in
      let hits =
        sort_scored-All (score_memories q.floats q.query q.least ms) (score_memories-All ms h) in
      (
        at_most_taken _ n sorted,
        map-All IsScored (IsFound q false) (λ p. similar_of q.floats p.0 p.1)
            (λ p hit. (p.0, p.1, hit, refl)) (take n sorted) (take-All IsScored n sorted hits),
      )
