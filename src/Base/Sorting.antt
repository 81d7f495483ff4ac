-- ===== src/Base/Sorting.antt =====
-- The stable sort of a list by a key, as Python's `sort` and SQL's ORDER BY give it.
use Prim.Native.Nat.{ℕ, ◌≤◌}
use mathlib.Core.Path.{◌≡◌, refl}
use mathlib.Core.Logic.{◌⊎◌, ◌↔◌, inl, inr}
use mathlib.Core.Bool.{Bool, true, false}
use mathlib.Core.List.{List, [], ◌∷◌}
use native.Mathlib.Omega.{arith}
use fault_warden.Base.Tests.{leb, if◌then◌else◌}
use fault_warden.Base.Lists.{All, In}

within {ℓ} : {P Q R : Type ℓ} → (P → Q) → R ⊎ P → R ⊎ Q
within f (inl r) = inl r
within f (inr p) = inr (f p)

swapped {ℓ} : {P Q R : Type ℓ} → P ⊎ (Q ⊎ R) → Q ⊎ (P ⊎ R)
swapped (inl p) = inr (inl p)
swapped (inr (inl q)) = inl q
swapped (inr (inr r)) = inr (inr r)

module _ {ℓ} {A : Type ℓ} (key : A → ℕ) where
  abbrev pub insert_by : A → List A → List A
  insert_by x [] = x ∷ []
  insert_by x (y ∷ ys) = if leb (key x) (key y) then x ∷ y ∷ ys else y ∷ insert_by x ys

  -- Elements with one key stay in their order.
  abbrev pub sort_by : List A → List A
  sort_by [] = []
  sort_by (x ∷ xs) = insert_by x (sort_by xs)

  abbrev pub IsSortedBy : List A → Type ℓ
  IsSortedBy [] = Unit
  IsSortedBy (x ∷ xs) = All (λ y. key x ≤ key y) xs × IsSortedBy xs

  insert_by-All {κ} :
      (P : A → Type κ) (x : A) (ys : List A) → P x → All P ys → All P (insert_by x ys)
  insert_by-All P x [] h all = (h, tt)
  insert_by-All P x (y ∷ ys) h all = placed (leb (key x) (key y)) (insert_by-All P x ys h all.1)
    where
      placed :
          (b : Bool) → All P (insert_by x ys) → All P (if b then x ∷ y ∷ ys else y ∷ insert_by x ys)
      placed true rest = (h, all)
      placed false rest = (all.0, rest)

  smaller_bound :
      (m n : ℕ) (ys : List A) → m ≤ n → All (λ y. n ≤ key y) ys → All (λ y. m ≤ key y) ys
  smaller_bound m n [] le all = tt
  smaller_bound m n (y ∷ ys) le all = (ground (arith, all.0), smaller_bound m n ys le all.1)

  insert_by-IsSortedBy : (x : A) (ys : List A) → IsSortedBy ys → IsSortedBy (insert_by x ys)
  insert_by-IsSortedBy x [] h = (tt, tt)
  insert_by-IsSortedBy x (y ∷ ys) h =
      placed (leb (key x) (key y)) refl (insert_by-IsSortedBy x ys h.1)
    where
      placed :
          (b : Bool)
          → leb (key x) (key y) ≡ b
          → IsSortedBy (insert_by x ys)
          → IsSortedBy (if b then x ∷ y ∷ ys else y ∷ insert_by x ys)
      placed true e rest =
          let le : key x ≤ key y = ground arith in
          ((le, smaller_bound (key x) (key y) ys le h.0), h)
      placed false e rest =
          let le : key y ≤ key x = ground arith in
          (insert_by-All (λ z. key y ≤ key z) x ys le h.0, rest)

  pub sort_by-IsSortedBy : (xs : List A) → IsSortedBy (sort_by xs)
  sort_by-IsSortedBy [] = tt
  sort_by-IsSortedBy (x ∷ xs) = insert_by-IsSortedBy x (sort_by xs) (sort_by-IsSortedBy xs)

  insert_by-In : (a x : A) (ys : List A) → In a (insert_by x ys) ↔ In a (x ∷ ys)
  insert_by-In a x [] = ((λ i. i), (λ i. i))
  insert_by-In a x (y ∷ ys) = placed (leb (key x) (key y)) (insert_by-In a x ys)
    where
      placed :
          (b : Bool)
          → In a (insert_by x ys) ↔ In a (x ∷ ys)
          → In a (if b then x ∷ y ∷ ys else y ∷ insert_by x ys) ↔ In a (x ∷ y ∷ ys)
      placed true rest = ((λ i. i), (λ i. i))
      placed false rest = ((λ i. swapped (within rest.0 i)), (λ i. within rest.1 (swapped i)))

  pub sort_by-In : (a : A) (xs : List A) → In a (sort_by xs) ↔ In a xs
  sort_by-In a [] = ((λ i. i), (λ i. i))
  sort_by-In a (x ∷ xs) =
      let here = insert_by-In a x (sort_by xs) in
      let rest = sort_by-In a xs in
      ((λ i. within rest.0 (here.0 i)), (λ i. here.1 (within rest.1 i)))
