-- ===== src/Memory/Distances.antt =====
-- The search of services/memory_service.py on PostgreSQL, which orders the rows by distance.
use fault_warden.Base.{
  take-All, either, ℕ, zero, suc, ◌*◌, ◌≡◌, refl, Bool, true, false, Option, none, some, List, [],
  ◌∷◌, if◌then◌else◌, take, All, arith,
}
use fault_warden.Memory.Quality.{IncidentMemoryModel}
use fault_warden.Memory.Search.{
  SimilarIncidentMemory, distance_of, comes_before, insert_row, ordered_rows, add_hit, collect_rows,
  search_in_postgres,
}
use fault_warden.Memory.Hits.{IsCandidate, Question, IsHit, IsAnswer}

module _ {Float : Type 0} (q : Question Float) where
  -- A row of the query, its distance the one of its memory.
  abbrev IsRow : IncidentMemoryModel (List Float) × Option Float → Type 0
  IsRow p =
      IsCandidate q.filter q.memories p.0
      × (p.1 ≡ distance_of q.floats q.cosine_distance q.query p.0.embedding)

  insert_row-All :
      (m : IncidentMemoryModel (List Float)) (d : Option Float)
      (ps : List (IncidentMemoryModel (List Float) × Option Float))
      → IsRow (m, d)
      → All IsRow ps
      → All IsRow (insert_row q.floats q.cosine_distance (m, d) ps)
  unfolding insert_row
  insert_row-All m d [] p h = (p, tt)
  insert_row-All m d ((n, e) ∷ ps) p h =
      let rest = insert_row-All m d ps p h.1 in
      either (All IsRow) (comes_before q.floats q.cosine_distance d e) (λ first. (p, h))
        (λ later. (h.0, rest))

  ordered_rows-All :
      (ms : List (IncidentMemoryModel (List Float)))
      → All (IsCandidate q.filter q.memories) ms
      → All IsRow (ordered_rows q.floats q.cosine_distance q.query ms)
  unfolding ordered_rows
  ordered_rows-All [] h = tt
  ordered_rows-All (m ∷ ms) h =
      insert_row-All m (distance_of q.floats q.cosine_distance q.query m.embedding)
        (ordered_rows q.floats q.cosine_distance q.query ms) (h.0, refl) (ordered_rows-All ms h.1)

  no_vector : (m : IncidentMemoryModel (List Float)) → IsRow (m, none) → m.embedding ≡ none
  no_vector m h = by_vector m.embedding h.1
    where
      by_vector :
          (o : Option (List Float))
          → none ≡ distance_of q.floats q.cosine_distance q.query o
          → o ≡ none
      by_vector none e = refl
      by_vector (some v) e = absurd (ground arith)

  row-IsHit :
      (m : IncidentMemoryModel (List Float)) (d : Float)
      → IsRow (m, some d)
      → q.floats.at_most q.least (q.floats.minus q.floats.one d) ≡ true
      → IsHit q true m (q.floats.minus q.floats.one d)
  row-IsHit m d h enough = by_vector m.embedding refl h.1
    where
      by_vector :
          (o : Option (List Float))
          → m.embedding ≡ o
          → some d ≡ distance_of q.floats q.cosine_distance q.query o
          → IsHit q true m (q.floats.minus q.floats.one d)
      by_vector none e same = absurd (ground arith)
      by_vector (some v) e same =
          (let same_distance : d ≡ q.cosine_distance v q.query = ground arith in
            record {
              vector = v;
              candidate = h.0;
              embedded = e;
              measured = rw same_distance refl;
              enough = enough;
            })

  added-IsAnswer :
      (n : ℕ) (m : IncidentMemoryModel (List Float)) (s : Float)
      (o : Option (List (SimilarIncidentMemory Float)))
      → IsHit q true m s
      → IsAnswer q true n o
      → IsAnswer q true (suc n) (add_hit q.floats q.cosine_distance true m s o)
  added-IsAnswer n m s none hit h = h
  added-IsAnswer n m s (some rs) hit h = (ground arith, ((m, s, hit, refl), h.1))

  kept-IsAnswer :
      (n : ℕ) (m : IncidentMemoryModel (List Float)) (s : Float)
      (o : Option (List (SimilarIncidentMemory Float)))
      → IsAnswer q true n o
      → IsAnswer q true n (add_hit q.floats q.cosine_distance false m s o)
  kept-IsAnswer n m s none h = h
  kept-IsAnswer n m s (some rs) h = h

  collect_rows-IsAnswer :
      (rows : List (IncidentMemoryModel (List Float) × Option Float)) (room : ℕ)
      → All IsRow rows
      → IsAnswer q true room (collect_rows q.floats q.cosine_distance q.least rows room)
  unfolding collect_rows
  collect_rows-IsAnswer [] zero h = (ground arith, tt)
  collect_rows-IsAnswer (row ∷ rows) zero h = (ground arith, tt)
  collect_rows-IsAnswer [] (suc room) h = (ground arith, tt)
  collect_rows-IsAnswer ((m, none) ∷ rows) (suc room) h = (m, h.0.0, no_vector m h.0)
  collect_rows-IsAnswer ((m, some d) ∷ rows) (suc room) h =
      by_test (q.floats.at_most q.least (q.floats.minus q.floats.one d)) refl
        (collect_rows-IsAnswer rows room h.1) (collect_rows-IsAnswer rows (suc room) h.1)
    where
      by_test :
          (b : Bool)
          → q.floats.at_most q.least (q.floats.minus q.floats.one d) ≡ b
          → IsAnswer q true room (collect_rows q.floats q.cosine_distance q.least rows room)
          → IsAnswer q true
              (suc room)
              (collect_rows q.floats q.cosine_distance q.least rows (suc room))
          → IsAnswer q true (suc room) (
              add_hit q.floats q.cosine_distance b m (q.floats.minus q.floats.one d) (
                collect_rows q.floats q.cosine_distance q.least rows
                  (if b then room else suc room)))
      by_test true enough less more =
          added-IsAnswer room m (q.floats.minus q.floats.one d)
            (collect_rows q.floats q.cosine_distance q.least rows room) (row-IsHit m d h.0 enough)
            less
      by_test false enough less more =
          kept-IsAnswer (suc room) m (q.floats.minus q.floats.one d)
            (collect_rows q.floats q.cosine_distance q.least rows (suc room)) more

  pub search_in_postgres-IsAnswer :
      (n : ℕ) (ms : List (IncidentMemoryModel (List Float)))
      → All (IsCandidate q.filter q.memories) ms
      → IsAnswer q true n (search_in_postgres q.floats q.cosine_distance q.query n q.least ms)
  unfolding search_in_postgres
  search_in_postgres-IsAnswer n ms h =
      collect_rows-IsAnswer (take (n * 2) (ordered_rows q.floats q.cosine_distance q.query ms)) n (
        take-All IsRow (n * 2) (ordered_rows q.floats q.cosine_distance q.query ms)
          (ordered_rows-All ms h))
