-- ===== src/Base/Outcomes.antt =====
-- The outcome of code that may raise.
use mathlib.Core.Path.{◌≡◌, refl}
use mathlib.Core.Bool.{Bool, true, false}
use native.Mathlib.Omega.{arith}
use fault_warden.Base.Tests.{if◌then◌else◌}
use mathlib.Core.Logic.{◌⊎◌, inl, inr}

pub data Outcome {ℓ} (E A : Type ℓ) : Type ℓ where
  error : E → Outcome E A
  ok : A → Outcome E A

module _ {ℓ} {E A : Type ℓ} where
  pub Outcome-cases : (o : Outcome E A) → ((e : E) × (o ≡ error e)) ⊎ ((a : A) × (o ≡ ok a))
  Outcome-cases (error e) = inl (e, refl)
  Outcome-cases (ok a) = inr (a, refl)

  abbrev pub then_do : {B : Type ℓ} → Outcome E A → (A → Outcome E B) → Outcome E B
  then_do (error e) f = error e
  then_do (ok a) f = f a

  pub ok_injective : (x y : A) (o : Outcome E A) → o ≡ ok x → o ≡ ok y → x ≡ y
  ok_injective x y o h i = ground arith

  -- What follows a step that may raise.
  pub then_do_inv :
      {B : Type ℓ} (o : Outcome E A) (f : A → Outcome E B) (b : B)
      → then_do o f ≡ ok b
      → (a : A) × (o ≡ ok a) × (f a ≡ ok b)
  then_do_inv (error e) f b h = absurd (ground arith)
  then_do_inv (ok a) f b h = (a, refl, h)

  pub guard_inv :
      (test : Bool) (o : Outcome E A) (e : E) (b : A)
      → (if test then o else error e) ≡ ok b
      → (test ≡ true) × (o ≡ ok b)
  guard_inv true o e b h = (refl, h)
  guard_inv false o e b h = absurd (ground arith)
