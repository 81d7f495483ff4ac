-- ===== src/Changes/Merge.antt =====
-- What `CompositeChangeProvider.list_changes` gives.
use fault_warden.Base.{
  ℕ, zero, suc, ◌≡◌, ◌≤◌, ◌<◌, ◌||◌, refl, sym, ap, ◌∙◌, Bool, true, false, Option, List, [], ◌∷◌,
  take, length, All, String, str_eq, arith,
}
use fault_warden.Schemas.Change.{OperationalChange}
use fault_warden.Changes.{is_seen, combine, sort_changes, list_changes}
use fault_warden.Changes.Combined.{
  HasDistinctIds, is_reported, combine-HasDistinctIds, combine-seen,
}
use fault_warden.Changes.Sorted.{IsSorted, sorted}

take-seen :
    (id : String) (n : ℕ) (cs : List OperationalChange)
    → is_seen id (take n cs) ≡ true
    → is_seen id cs ≡ true
take-seen id zero cs h = absurd (ground arith)
take-seen id (suc n) [] h = h
take-seen id (suc n) (c ∷ cs) h = one_of (str_eq c.id id) h (take-seen id n cs)
  where
    one_of : (b : Bool) {x y : Bool} → (b || x) ≡ true → (x ≡ true → y ≡ true) → (b || y) ≡ true
    one_of true h f = refl
    one_of false h f = f h

take-HasDistinctIds :
    (n : ℕ) (cs : List OperationalChange) → HasDistinctIds cs → HasDistinctIds (take n cs)
take-HasDistinctIds zero cs d = tt
take-HasDistinctIds (suc n) [] d = tt
take-HasDistinctIds (suc n) (c ∷ cs) d =
    (unseen (is_seen c.id (take n cs)) (take-seen c.id n cs), take-HasDistinctIds n cs d.1)
  where
    unseen : (b : Bool) → (b ≡ true → is_seen c.id cs ≡ true) → b ≡ false
    unseen false f = refl
    unseen true f = let t = f refl in let no = d.0 in absurd (ground arith)

take-All :
    (P : OperationalChange → Type 0) (n : ℕ) (cs : List OperationalChange)
    → All P cs
    → All P (take n cs)
take-All P zero cs all = tt
take-All P (suc n) [] all = tt
take-All P (suc n) (c ∷ cs) all = (all.0, take-All P n cs all.1)

take-IsSorted : (n : ℕ) (cs : List OperationalChange) → IsSorted cs → IsSorted (take n cs)
take-IsSorted zero cs s = tt
take-IsSorted (suc n) [] s = tt
take-IsSorted (suc n) (c ∷ cs) s = (take-All _ n cs s.0, take-IsSorted n cs s.1)

length-take : (n : ℕ) (cs : List OperationalChange) → length (take n cs) ≤ n
length-take zero cs = ground arith
length-take (suc n) [] = ground arith
length-take (suc n) (c ∷ cs) = ground (arith, length-take n cs)

take-all : (n : ℕ) (cs : List OperationalChange) → length (take n cs) < n → take n cs ≡ cs
take-all zero cs h = absurd (ground arith)
take-all (suc n) [] h = refl
take-all (suc n) (c ∷ cs) h = ap (λ xs. c ∷ xs) (take-all n cs (ground arith))

-- What `changes` are to the answers of the providers.
abbrev pub IsMerge :
    (limit : ℕ) → List (Option (List OperationalChange)) → List OperationalChange → Type 0
IsMerge limit results changes =
    HasDistinctIds changes
    × IsSorted changes
    × (length changes ≤ limit)
    × ((id : String) → is_seen id changes ≡ true → is_reported id results ≡ true)
    × (length changes < limit → (id : String) → is_seen id changes ≡ is_reported id results)

-- The merged changes have distinct ids, come the most recent first, are at most `limit`, and have
-- ids that a provider has reported; if there are fewer than `limit`, every id that a provider has
-- reported is among them, whichever other providers raise.
pub list_changes-IsMerge :
    (limit : ℕ) (results : List (Option (List OperationalChange)))
    → IsMerge limit results (list_changes limit results)
unfolding list_changes
list_changes-IsMerge limit results =
    let all = combine [] results in
    let (distinct, order, seen) = sorted all (combine-HasDistinctIds results [] tt) in
    let reported : (id : String) → is_seen id (sort_changes all) ≡ is_reported id results =
      λ id. seen id ∙ combine-seen id results [] ∙ or_none (is_reported id results) in
    (
      take-HasDistinctIds limit (sort_changes all) distinct,
      take-IsSorted limit (sort_changes all) order,
      length-take limit (sort_changes all),
      λ id h. sym (reported id) ∙ take-seen id limit (sort_changes all) h,
      λ few id. ap (is_seen id) (take-all limit (sort_changes all) few) ∙ reported id,
    )
  where
    or_none : (b : Bool) → (b || false) ≡ b
    or_none b = ground arith
