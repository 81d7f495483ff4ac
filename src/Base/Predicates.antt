-- ===== src/Base/Predicates.antt =====
-- Predicates on all elements of a list, and elements of a list, under the operations on lists.
use Prim.Native.Nat.{ℕ, zero, suc, ◌≤◌}
use mathlib.Core.Path.{◌≡◌, refl, ap}
use mathlib.Core.Logic.{inl, inr}
use mathlib.Core.Bool.{Bool, true, false}
use mathlib.Core.List.{List, [], ◌∷◌, ◌++◌, map}
use native.Mathlib.Omega.{arith}
use fault_warden.Base.Tests.{if◌then◌else◌}
use fault_warden.Base.Lists.{All, In, keep, take, length}

-- A predicate on the elements of a list holds on what is made of the list.
module _ {A : Type 0} (P : A → Type 0) where
  pub take-All : (n : ℕ) (xs : List A) → All P xs → All P (take n xs)
  take-All zero xs h = tt
  take-All (suc n) [] h = tt
  take-All (suc n) (x ∷ xs) h = (h.0, take-All n xs h.1)

  pub map-All :
      {B : Type 0} (Q : B → Type 0) (f : A → B)
      → ((a : A) → P a → Q (f a))
      → (xs : List A) → All P xs
      → All Q (map f xs)
  map-All Q f imp [] h = tt
  map-All Q f imp (x ∷ xs) h = (imp x h.0, map-All Q f imp xs h.1)

pub at_most_taken :
    {A B : Type 0} (f : A → B) (n : ℕ) (xs : List A) → length (map f (take n xs)) ≤ n
at_most_taken f zero xs = ground arith
at_most_taken f (suc n) [] = ground arith
at_most_taken f (suc n) (x ∷ xs) = (let rest = at_most_taken f n xs in ground arith)

-- What holds in both cases of a test holds of the conditional.
pub either :
    {A : Type 0} (P : A → Type 0) (b : Bool) {x y : A}
    → (b ≡ true → P x)
    → (b ≡ false → P y)
    → P (if b then x else y)
either P true when unless = when refl
either P false when unless = unless refl

pub keep-All :
    {A : Type 0} (p : A → Bool) (P : A → Type 0) (xs : List A)
    → ((a : A) → In a xs → p a ≡ true → P a)
    → All P (keep p xs)
keep-All p P [] h = tt
keep-All p P (x ∷ xs) h =
    let rest = keep-All p P xs (λ a i. h a (inr i)) in
    either (All P) (p x) (λ e. (h x (inl refl) e, rest)) (λ e. rest)

module _ {A : Type 0} where
  pub append-All : (P : A → Type 0) (xs ys : List A) → All P xs → All P ys → All P (xs ++ ys)
  append-All P [] ys h k = k
  append-All P (x ∷ xs) ys h k = (h.0, append-All P xs ys h.1 k)

  pub map_each-All :
      {B : Type 0} (P : A → Type 0) (f : B → A) (xs : List B)
      → ((x : B) → In x xs → P (f x))
      → All P (map f xs)
  map_each-All P f [] h = tt
  map_each-All P f (x ∷ xs) h = (h x (inl refl), map_each-All P f xs (λ y i. h y (inr i)))

  pub In-left : (a : A) (xs ys : List A) → In a xs → In a (xs ++ ys)
  In-left a [] ys i = absurd i.1
  In-left a (x ∷ xs) ys (inl e) = inl e
  In-left a (x ∷ xs) ys (inr i) = inr (In-left a xs ys i)

  pub In-right : (a : A) (xs ys : List A) → In a ys → In a (xs ++ ys)
  In-right a [] ys i = i
  In-right a (x ∷ xs) ys i = inr (In-right a xs ys i)

  pub map-In : {B : Type 0} (f : B → A) (x : B) (xs : List B) → In x xs → In (f x) (map f xs)
  map-In f x [] i = absurd i.1
  map-In f x (y ∷ xs) (inl e) = inl (ap f e)
  map-In f x (y ∷ xs) (inr i) = inr (map-In f x xs i)
