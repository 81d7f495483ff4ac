-- ===== src/Changes.antt =====
-- integrations/change/composite.py: the merge of several change providers.
--
-- The answers of the providers are arguments, in the order of the providers; one that raises is
-- none.
pub mod Combined
pub mod Sorted
pub mod Merge
use fault_warden.Base.{
  ℕ, Bool, Option, none, some, List, [], ◌∷◌, ltb, if◌then◌else◌, any, take, String, str_eq,
}
use fault_warden.Schemas.Change.{OperationalChange}

-- `change.id not in seen_ids`, where the seen ids are those of the combined changes.
abbrev pub is_seen : String → List OperationalChange → Bool
is_seen id combined = any (λ c. str_eq c.id id) combined

-- The inner loop; `combined` holds the changes that were appended, the last one first.
unfoldable pub append_new :
    (combined : List OperationalChange) → List OperationalChange → List OperationalChange
append_new combined [] = combined
append_new combined (c ∷ changes) =
    append_new (if is_seen c.id combined then combined else c ∷ combined) changes

unfoldable pub combine :
    (combined : List OperationalChange)
    → List (Option (List OperationalChange))
    → List OperationalChange
combine combined [] = combined
combine combined (none ∷ results) = combine combined results
combine combined (some changes ∷ results) = combine (append_new combined changes) results

-- The place of a change among changes that were appended before it: after those of its time or a
-- later one, as the sort is stable in the reverse order too.
unfoldable pub insert_change : OperationalChange → List OperationalChange → List OperationalChange
insert_change c [] = c ∷ []
insert_change c (d ∷ sorted) =
    if ltb d.timestamp c.timestamp then c ∷ d ∷ sorted else d ∷ insert_change c sorted

unfoldable pub sort_changes : List OperationalChange → List OperationalChange
sort_changes [] = []
sort_changes (c ∷ combined) = insert_change c (sort_changes combined)

unfoldable pub list_changes :
    (limit : ℕ) → List (Option (List OperationalChange)) → List OperationalChange
list_changes limit results = take limit (sort_changes (combine [] results))
