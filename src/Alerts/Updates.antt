-- ===== src/Alerts/Updates.antt =====
-- The lookup of the latest incident, and an update under an id.
use fault_warden.Base.{
  ℕ, suc, ltb, some_unique, ◌≡◌, ◌≤◌, refl, sym, ap, ◌∙◌, subst, Bool, true, false, Option, none,
  some, List, [], ◌∷◌, map, arith, ◌==◌, if◌then◌else◌, find, keep, count_if, All, In, String, inl,
  inr, ◌⊎◌, Distinct,
}
use fault_warden.Alerts.{IncidentRow, matches_firing, later, latest, update_incident}

-- A map after which no element passes that did not pass before.
count_if-map {ℓ} :
    {A : Type ℓ} (p : A → Bool) (g : A → A) (xs : List A)
    → All (λ x. p (g x) ≡ true → p x ≡ true) xs
    → count_if p (map g xs) ≤ count_if p xs
count_if-map p g [] all = ground arith
count_if-map p g (x ∷ xs) all =
    let rest = count_if-map p g xs all.1 in step (p (g x)) (p x) all.0 rest
  where
    step :
        (b c : Bool)
        → (b ≡ true → c ≡ true)
        → {m n : ℕ} → m ≤ n
        → (if b then suc m else m) ≤ (if c then suc n else n)
    step true true h le = ground arith
    step true false h le = absurd (let e = h refl in ground arith)
    step false true h le = ground arith
    step false false h le = le

if_one {ℓ} :
    {A : Type ℓ} (b : Bool) (x y : A) → ((if b then x else y) ≡ x) ⊎ ((if b then x else y) ≡ y)
if_one true x y = inl refl
if_one false x y = inr refl

later_one : (r : IncidentRow) (o : Option IncidentRow) → (later r o ≡ r) ⊎ (o ≡ some (later r o))
later_one r none = inl refl
later_one r (some other) = elim (if_one (ltb r.created_at other.created_at) other r) [
  | inl e ↦ inr (ap some (sym e))
  | inr e ↦ inl e
]

-- The latest of some rows is one of them.
pub latest-In : (rows : List IncidentRow) (i : IncidentRow) → latest rows ≡ some i → In i rows
unfolding latest
latest-In [] i h = absurd (ground arith)
latest-In (r ∷ rows) i h =
    let e : later r (latest rows) ≡ i = some_unique _ _ _ refl h in
    elim (later_one r (latest rows)) [
      | inl first ↦ inl (sym e ∙ first)
      | inr found ↦ inr (latest-In rows i (found ∙ ap some e))
    ]

pub latest-none : (rows : List IncidentRow) → latest rows ≡ none → rows ≡ []
unfolding latest
latest-none [] h = refl
latest-none (r ∷ rows) h = absurd (ground arith)

keep-In {ℓ} :
    {A : Type ℓ} (p : A → Bool) (xs : List A) (a : A) → In a (keep p xs) → In a xs × (p a ≡ true)
keep-In p [] a h = absurd h.1
keep-In p (x ∷ xs) a h = in_if (p x) refl h (keep-In p xs a)
  where
    in_if :
        (b : Bool)
        → p x ≡ b
        → In a (if b then x ∷ keep p xs else keep p xs)
        → (In a (keep p xs) → In a xs × (p a ≡ true))
        → In a (x ∷ xs) × (p a ≡ true)
    in_if true e (inl h) f = (inl h, ap p h ∙ e)
    in_if true e (inr h) f = (inr (f h).0, (f h).1)
    in_if false e h f = (inr (f h).0, (f h).1)

pub keep-none {ℓ} : {A : Type ℓ} (p : A → Bool) (xs : List A) → keep p xs ≡ [] → count_if p xs ≡ 0
keep-none p [] h = refl
keep-none p (x ∷ xs) h = ground (arith, keep-none p xs)

pub matching-In :
    (p : IncidentRow → Bool) (rows : List IncidentRow) (i : IncidentRow)
    → latest (keep p rows) ≡ some i
    → In i rows × (p i ≡ true)
matching-In p rows i h = keep-In p rows i (latest-In (keep p rows) i h)

All-every {ℓ κ} : {A : Type ℓ} (P : A → Type κ) (xs : List A) → ((x : A) → In x xs → P x) → All P xs
All-every P [] h = tt
All-every P (x ∷ xs) h = (h x (inl refl), All-every P xs (λ y i. h y (inr i)))

-- Ids are unique, and of one fingerprint at most one active incident has a firing alert.
abbrev pub IsDeduplicated : List IncidentRow → Type 0
IsDeduplicated rows =
    Distinct (λ i. i.id) rows
    × ((fingerprint : String) → count_if (matches_firing fingerprint) rows ≤ 1)

find-map-none :
    (k : ℕ) (g : IncidentRow → IncidentRow) (xs : List IncidentRow)
    → ((x : IncidentRow) → (g x).id ≡ x.id)
    → find (λ y. y.id == k) xs ≡ none
    → find (λ y. y.id == k) (map g xs) ≡ none
find-map-none k g [] same h = refl
find-map-none k g (x ∷ xs) same h =
    subst (λ m. (if m == k then some (g x) else find (λ y. y.id == k) (map g xs)) ≡ none)
      (sym (same x)) (tail (x.id == k) h (find-map-none k g xs same))
  where
    tail :
        (b : Bool)
        → (if b then some x else find (λ y. y.id == k) xs) ≡ none
        → (find (λ y. y.id == k) xs ≡ none → find (λ y. y.id == k) (map g xs) ≡ none)
        → (if b then some (g x) else find (λ y. y.id == k) (map g xs)) ≡ none
    tail true e f = absurd (ground arith)
    tail false e f = f e

Distinct-map :
    (g : IncidentRow → IncidentRow) (xs : List IncidentRow)
    → ((x : IncidentRow) → (g x).id ≡ x.id)
    → Distinct (λ i. i.id) xs
    → Distinct (λ i. i.id) (map g xs)
Distinct-map g [] same d = tt
Distinct-map g (x ∷ xs) same d = (
  subst (λ m. find (λ y. y.id == m) (map g xs) ≡ none) (sym (same x))
      (find-map-none x.id g xs same d.0),
  Distinct-map g xs same d.1,
)

pub changed :
    (id : ℕ) (change : IncidentRow → IncidentRow) (rows : List IncidentRow)
    → ((x : IncidentRow) → (change x).id ≡ x.id)
    → ((fingerprint : String) (x : IncidentRow)
        → In x rows
        → x.id ≡ id
        → matches_firing fingerprint (change x) ≡ true
        → matches_firing fingerprint x ≡ true)
    → IsDeduplicated rows
    → IsDeduplicated (update_incident id change rows)
unfolding update_incident
changed id change rows same h inv = (
  Distinct-map _ rows (λ x. if_id (x.id == id) x) inv.0,
  λ fingerprint.
      le_trans
        (count_if-map (matches_firing fingerprint) _ rows (All-every _ rows (kept fingerprint)))
        (inv.1 fingerprint),
)
  where
    if_id : (b : Bool) (x : IncidentRow) → (if b then change x else x).id ≡ x.id
    if_id true x = same x
    if_id false x = refl

    le_trans : {a b c : ℕ} → a ≤ b → b ≤ c → a ≤ c
    le_trans p q = ground arith

    kept :
        (fingerprint : String) (x : IncidentRow)
        → In x rows
        → matches_firing fingerprint (if x.id == id then change x else x) ≡ true
        → matches_firing fingerprint x ≡ true
    kept fingerprint x i e = by_id (x.id == id) refl e
      where
        by_id :
            (b : Bool)
            → (x.id == id) ≡ b
            → matches_firing fingerprint (if b then change x else x) ≡ true
            → matches_firing fingerprint x ≡ true
        by_id true t m = h fingerprint x i (ground arith) m
        by_id false t m = m
