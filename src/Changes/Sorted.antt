-- ===== src/Changes/Sorted.antt =====
-- The sort of `CompositeChangeProvider.list_changes`.
use fault_warden.Base.{
  ℕ, ◌≡◌, ◌≤◌, ◌||◌, inl, inr, refl, sym, ap, ◌∙◌, Bool, true, false, List, [], ◌∷◌, ltb,
  if◌then◌else◌, All, String, str_eq, eq_iff, arith, Bool-cases,
}
use fault_warden.Schemas.Change.{OperationalChange}
use fault_warden.Changes.{is_seen, insert_change, sort_changes}
use fault_warden.Changes.Combined.{HasDistinctIds}

-- The most recent first.
abbrev pub IsSorted : List OperationalChange → Type 0
IsSorted [] = Unit
IsSorted (c ∷ cs) = All (λ d. d.timestamp ≤ c.timestamp) cs × IsSorted cs

-- A sort keeps every test on all elements.
insert-All :
    (P : OperationalChange → Type 0) (c : OperationalChange) (cs : List OperationalChange)
    → P c
    → All P cs
    → All P (insert_change c cs)
unfolding insert_change
insert-All P c [] h all = (h, tt)
insert-All P c (d ∷ cs) h all = placed (ltb d.timestamp c.timestamp) (insert-All P c cs h all.1)
  where
    placed :
        (b : Bool)
        → All P (insert_change c cs)
        → All P (if b then c ∷ d ∷ cs else d ∷ insert_change c cs)
    placed true rest = (h, all)
    placed false rest = (all.0, rest)

insert-seen :
    (id : String) (c : OperationalChange) (cs : List OperationalChange)
    → is_seen id (insert_change c cs) ≡ is_seen id (c ∷ cs)
unfolding insert_change
insert-seen id c [] = refl
insert-seen id c (d ∷ cs) = ground (arith, insert-seen id c cs)

or_false : (a b : Bool) → (a || b) ≡ false → (a ≡ false) × (b ≡ false)
or_false true b h = absurd (ground arith)
or_false false b h = (refl, h)

str_eq_flip : (a b : String) → str_eq a b ≡ false → str_eq b a ≡ false
str_eq_flip a b e = elim (Bool-cases (str_eq b a)) [
  | inl same ↦ (let t = (eq_iff a b).1 (sym ((eq_iff b a).0 same)) in absurd (ground arith))
  | inr other ↦ other
]

insert-HasDistinctIds :
    (c : OperationalChange) (cs : List OperationalChange)
    → is_seen c.id cs ≡ false
    → HasDistinctIds cs
    → HasDistinctIds (insert_change c cs)
unfolding insert_change
insert-HasDistinctIds c [] e d = (refl, tt)
insert-HasDistinctIds c (x ∷ cs) e d =
    placed (ltb x.timestamp c.timestamp) (insert-HasDistinctIds c cs)
      (let (head, tail) = or_false (str_eq x.id c.id) _ e in (tail, str_eq_flip x.id c.id head))
  where
    neither : (a b : Bool) → a ≡ false → b ≡ false → (a || b) ≡ false
    neither a b h i = ground arith

    placed :
        (b : Bool)
        → (is_seen c.id cs ≡ false → HasDistinctIds cs → HasDistinctIds (insert_change c cs))
        → (is_seen c.id cs ≡ false) × (str_eq c.id x.id ≡ false)
        → HasDistinctIds (if b then c ∷ x ∷ cs else x ∷ insert_change c cs)
    placed true rest h = (e, d)
    placed false rest h = (insert-seen x.id c cs ∙ neither _ _ h.1 d.0, rest h.0 d.1)

insert-IsSorted :
    (c : OperationalChange) (cs : List OperationalChange)
    → IsSorted cs
    → IsSorted (insert_change c cs)
unfolding insert_change
insert-IsSorted c [] s = (tt, tt)
insert-IsSorted c (d ∷ cs) s = placed (ltb d.timestamp c.timestamp) refl (insert-IsSorted c cs s.1)
  where
    below :
        (xs : List OperationalChange) (m n : ℕ)
        → m ≤ n
        → All (λ x. x.timestamp ≤ m) xs
        → All (λ x. x.timestamp ≤ n) xs
    below [] m n le all = tt
    below (x ∷ xs) m n le all = (let at = all.0 in ground arith, below xs m n le all.1)

    placed :
        (b : Bool)
        → ltb d.timestamp c.timestamp ≡ b
        → IsSorted (insert_change c cs)
        → IsSorted (if b then c ∷ d ∷ cs else d ∷ insert_change c cs)
    placed true e rest =
        let le : d.timestamp ≤ c.timestamp = ground arith in
        ((le, below cs d.timestamp c.timestamp le s.0), s)
    placed false e rest =
        (insert-All (λ x. x.timestamp ≤ d.timestamp) c cs (ground arith) s.0, rest)

pub sorted :
    (cs : List OperationalChange)
    → HasDistinctIds cs
    → HasDistinctIds (sort_changes cs)
      × IsSorted (sort_changes cs)
      × ((id : String) → is_seen id (sort_changes cs) ≡ is_seen id cs)
unfolding sort_changes
sorted [] d = (tt, tt, λ id. refl)
sorted (c ∷ cs) d =
    let (distinct, order, seen) = sorted cs d.1 in
    (
      insert-HasDistinctIds c (sort_changes cs) (seen c.id ∙ d.0) distinct,
      insert-IsSorted c (sort_changes cs) order,
      λ id. insert-seen id c (sort_changes cs) ∙ ap (λ b. str_eq c.id id || b) (seen id),
    )
