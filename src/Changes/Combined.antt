-- ===== src/Changes/Combined.antt =====
-- The changes that `CompositeChangeProvider.list_changes` combines.
use fault_warden.Base.{
  ◌≡◌, ◌||◌, refl, sym, ap, ◌∙◌, subst, Bool, true, false, Option, none, some, List, [], ◌∷◌,
  if◌then◌else◌, String, str_eq, eq_iff, arith,
}
use fault_warden.Schemas.Change.{OperationalChange}
use fault_warden.Changes.{is_seen, append_new, combine}

-- No two changes have one id.
abbrev pub HasDistinctIds : List OperationalChange → Type 0
HasDistinctIds [] = Unit
HasDistinctIds (c ∷ cs) = (is_seen c.id cs ≡ false) × HasDistinctIds cs

-- A provider has reported a change with this id.
abbrev pub is_reported : String → List (Option (List OperationalChange)) → Bool
is_reported id [] = false
is_reported id (none ∷ results) = is_reported id results
is_reported id (some changes ∷ results) = is_seen id changes || is_reported id results

append_new-HasDistinctIds :
    (changes combined : List OperationalChange)
    → HasDistinctIds combined
    → HasDistinctIds (append_new combined changes)
unfolding append_new
append_new-HasDistinctIds [] combined d = d
append_new-HasDistinctIds (c ∷ changes) combined d =
    append_new-HasDistinctIds changes _ (extended (is_seen c.id combined) refl)
  where
    extended :
        (b : Bool)
        → is_seen c.id combined ≡ b
        → HasDistinctIds (if b then combined else c ∷ combined)
    extended true e = d
    extended false e = (e, d)

pub combine-HasDistinctIds :
    (results : List (Option (List OperationalChange))) (combined : List OperationalChange)
    → HasDistinctIds combined
    → HasDistinctIds (combine combined results)
unfolding combine
combine-HasDistinctIds [] combined d = d
combine-HasDistinctIds (none ∷ results) combined d = combine-HasDistinctIds results combined d
combine-HasDistinctIds (some changes ∷ results) combined d =
    combine-HasDistinctIds results (append_new combined changes)
      (append_new-HasDistinctIds changes combined d)

or_assoc : (a b c : Bool) → ((a || b) || c) ≡ (b || (a || c))
or_assoc a b c = ground arith

append_new-seen :
    (id : String) (changes combined : List OperationalChange)
    → is_seen id (append_new combined changes) ≡ (is_seen id changes || is_seen id combined)
unfolding append_new
append_new-seen id [] combined = refl
append_new-seen id (c ∷ changes) combined =
    append_new-seen id changes _ ∙ extended (is_seen c.id combined) refl
  where
    extended :
        (b : Bool)
        → is_seen c.id combined ≡ b
        → (is_seen id changes || is_seen id (if b then combined else c ∷ combined))
          ≡ ((str_eq c.id id || is_seen id changes) || is_seen id combined)
    extended false e = ground arith
    extended true e = by_id (str_eq c.id id) refl
      where
        by_id :
            (same : Bool)
            → str_eq c.id id ≡ same
            → (is_seen id changes || is_seen id combined)
              ≡ ((same || is_seen id changes) || is_seen id combined)
        by_id false t = refl
        by_id true t =
            let seen = subst (λ i. is_seen i combined ≡ true) ((eq_iff c.id id).0 t) e in
            ground arith

pub combine-seen :
    (id : String) (results : List (Option (List OperationalChange)))
    (combined : List OperationalChange)
    → is_seen id (combine combined results) ≡ (is_reported id results || is_seen id combined)
unfolding combine
combine-seen id [] combined = refl
combine-seen id (none ∷ results) combined = combine-seen id results combined
combine-seen id (some changes ∷ results) combined =
    combine-seen id results (append_new combined changes)
    ∙ ap (λ b. is_reported id results || b) (append_new-seen id changes combined)
    ∙ sym (or_assoc (is_seen id changes) (is_reported id results) (is_seen id combined))
