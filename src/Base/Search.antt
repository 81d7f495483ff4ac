-- ===== src/Base/Search.antt =====
-- Lookups in a list, and in a list whose elements with one key are replaced.
use mathlib.Core.Path.{◌≡◌, refl, sym, ap, ◌∙◌, subst}
use mathlib.Core.Logic.{◌⊎◌, ◌≢◌, inl, inr}
use mathlib.Core.Bool.{Bool, true, false}
use mathlib.Core.Option.{Option, none, some}
use mathlib.Core.List.{List, [], ◌∷◌, map}
use native.Mathlib.Omega.{arith}
use Prim.Native.Nat.{ℕ}
use fault_warden.Base.Tests.{if◌then◌else◌, ◌==◌, Bool-cases}
use fault_warden.Base.Lists.{find, All, In}

-- Matching on the test that `find` makes.
if_some {ℓ} :
    {A : Type ℓ} (b : Bool) (x a : A) (o : Option A)
    → (if b then some x else o) ≡ some a
    → ((b ≡ true) × (x ≡ a)) ⊎ ((b ≡ false) × (o ≡ some a))
if_some true x a o h = inl (refl, ground arith)
if_some false x a o h = inr (refl, h)

pub find-Passes {ℓ} :
    {A : Type ℓ} (p : A → Bool) (xs : List A) (a : A) → find p xs ≡ some a → (p a ≡ true) × In a xs
find-Passes p [] a h = absurd (ground arith)
find-Passes p (x ∷ xs) a h = elim (if_some (p x) x a _ h) [
  | inl (passes, e) ↦ (ap p (sym e) ∙ passes, inl (sym e))
  | inr (fails, rest) ↦ (let (q, i) = find-Passes p xs a rest in (q, inr i))
]

pub All-In {ℓ κ} : {A : Type ℓ} (P : A → Type κ) (xs : List A) (a : A) → All P xs → In a xs → P a
All-In P [] a all i = absurd i.1
All-In P (x ∷ xs) a all (inl e) = subst P (sym e) all.0
All-In P (x ∷ xs) a all (inr i) = All-In P xs a all.1 i

pub find-All {ℓ κ} :
    {A : Type ℓ} (P : A → Type κ) (p : A → Bool) (xs : List A) (a : A)
    → All P xs
    → find p xs ≡ some a
    → P a
find-All P p xs a all h = All-In P xs a all (find-Passes p xs a h).1

pub All-if {ℓ κ} :
    {A : Type ℓ} (P : A → Type κ) (p : A → Bool) (row : A) (xs : List A)
    → P row
    → All P xs
    → All P (map (λ x. if p x then row else x) xs)
All-if P p row [] h all = tt
All-if P p row (x ∷ xs) h all = (if_P (p x), All-if P p row xs h all.1)
  where
    if_P : (b : Bool) → P (if b then row else x)
    if_P true = h
    if_P false = all.0

-- A replacement under a key, seen by a lookup under the key or under another one.
module _ {ℓ} {A : Type ℓ} (id : A → ℕ) where
  pub find-key : (i : ℕ) (xs : List A) (a : A) → find (λ x. id x == i) xs ≡ some a → id a ≡ i
  find-key i xs a h =
      let passes : (id a == i) ≡ true = (find-Passes (λ x. id x == i) xs a h).0 in ground arith

  pub find-replaced :
      (row a : A) (xs : List A)
      → find (λ x. id x == id row) xs ≡ some a
      → find (λ x. id x == id row) (map (λ x. if id x == id row then row else x) xs) ≡ some row
  find-replaced row a [] h = absurd (ground arith)
  find-replaced row a (x ∷ xs) h = ground (arith, find-replaced row a xs)

  pub find-kept :
      (i : ℕ) (row : A) (xs : List A)
      → i ≢ id row
      → find (λ x. id x == i) (map (λ x. if id x == id row then row else x) xs)
        ≡ find (λ x. id x == i) xs
  find-kept i row [] ne = refl
  find-kept i row (x ∷ xs) ne = ground (arith, find-kept i row xs ne)

  -- No two elements have one key.
  abbrev pub Distinct : List A → Type ℓ
  Distinct [] = Unit
  Distinct (x ∷ xs) = (find (λ y. id y == id x) xs ≡ none) × Distinct xs

  find-In : (i : ℕ) (a : A) (xs : List A) → In a xs → id a ≡ i → find (λ x. id x == i) xs ≢ none
  find-In i a [] h e = absurd h.1
  find-In i a (x ∷ xs) (inl h) e =
      λ missing. (let at : id x ≡ i = ap id (sym h) ∙ e in ground arith)
  find-In i a (x ∷ xs) (inr h) e = λ missing. (let rest = find-In i a xs h e in ground arith)

  -- With distinct keys an element is found under its key.
  pub Distinct-find :
      (a : A) (xs : List A) → Distinct xs → In a xs → find (λ x. id x == id a) xs ≡ some a
  Distinct-find a [] d h = absurd h.1
  Distinct-find a (x ∷ xs) d (inl h) =
      rw h (let own : (id x == id x) ≡ true = ground arith in ground arith)
  Distinct-find a (x ∷ xs) d (inr h) = elim (Bool-cases (id x == id a)) [
    | inl same ↦ (let e : id a ≡ id x = ground arith in absurd (find-In (id x) a xs h e d.0))
    | inr other ↦ (let rest = Distinct-find a xs d.1 h in ground arith)
  ]

  find-none-replaced :
      (i : ℕ) (row : A) (xs : List A)
      → find (λ x. id x == i) xs ≡ none
      → find (λ x. id x == i) (map (λ x. if id x == id row then row else x) xs) ≡ none
  find-none-replaced i row [] h = refl
  find-none-replaced i row (x ∷ xs) h = ground (arith, find-none-replaced i row xs)

  pub Distinct-replaced :
      (row : A) (xs : List A)
      → Distinct xs
      → Distinct (map (λ x. if id x == id row then row else x) xs)
  Distinct-replaced row [] d = tt
  Distinct-replaced row (x ∷ xs) d =
      (head (Bool-cases (id x == id row)), Distinct-replaced row xs d.1)
    where
      head :
          ((id x == id row) ≡ true) ⊎ ((id x == id row) ≡ false)
          → find
              (λ y. id y == id (if id x == id row then row else x))
              (map (λ y. if id y == id row then row else y) xs)
            ≡ none
      head (inl same) =
          let e : id x ≡ id row = ground arith in
          rw same (
            find-none-replaced (id row) row xs (subst (λ k. find (λ y. id y == k) xs ≡ none) e d.0))
      head (inr other) = rw other (find-none-replaced (id x) row xs d.0)
