-- ===== src/Causality/Ids.antt =====
-- Lists of ids that stand among others.
use fault_warden.Base.{
  ◌≡◌, refl, sym, subst, Bool, true, false, ◌||◌, List, [], ◌∷◌, ◌++◌, keep, String, str_eq, eq_iff,
  if◌then◌else◌, arith, All,
}
use fault_warden.Causality.{contains_text}

-- All of these ids stand in `ids`.
abbrev pub AreAmong : (ids : List String) → List String → Type 0
AreAmong ids = All (λ id. contains_text ids id ≡ true)

pub append-AreAmong :
    (ids xs : List String) (x : String)
    → AreAmong ids xs
    → contains_text ids x ≡ true
    → AreAmong ids (xs ++ (x ∷ []))
append-AreAmong ids [] x all h = (h, tt)
append-AreAmong ids (y ∷ ys) x all h = (all.0, append-AreAmong ids ys x all.1 h)

-- What passes a test on the ids is among them.
pub keep-AreAmong : (ids xs : List String) → AreAmong ids (keep (contains_text ids) xs)
keep-AreAmong ids [] = tt
keep-AreAmong ids (x ∷ xs) = by_test (contains_text ids x) refl (keep-AreAmong ids xs)
  where
    by_test :
        (b : Bool)
        → contains_text ids x ≡ b
        → AreAmong ids (keep (contains_text ids) xs)
        → AreAmong ids (if b then x ∷ keep (contains_text ids) xs else keep (contains_text ids) xs)
    by_test true e rest = (e, rest)
    by_test false e rest = rest

pub weaken : (ids xs : List String) (x : String) → AreAmong ids xs → AreAmong (x ∷ ids) xs
weaken ids [] x all = tt
weaken ids (y ∷ ys) x all = (let known = all.0 in or_true (str_eq y x) known, weaken ids ys x all.1)
  where
    or_true : (a : Bool) {b : Bool} → b ≡ true → (a || b) ≡ true
    or_true true h = refl
    or_true false h = h

pub contains_own : (ids : List String) (x : String) → contains_text (x ∷ ids) x ≡ true
contains_own ids x = let own = (eq_iff x x).1 refl in ground arith

-- An id among these stands in whatever holds them all.
contains-AreAmong :
    (ids ys : List String) (x : String)
    → AreAmong ids ys
    → contains_text ys x ≡ true
    → contains_text ids x ≡ true
contains-AreAmong ids [] x all h = absurd (ground arith)
contains-AreAmong ids (y ∷ ys) x all h =
    by_name (str_eq x y) refl h (contains-AreAmong ids ys x all.1)
  where
    by_name :
        (b : Bool)
        → str_eq x y ≡ b
        → (b || contains_text ys x) ≡ true
        → (contains_text ys x ≡ true → contains_text ids x ≡ true)
        → contains_text ids x ≡ true
    by_name true e g f = subst (λ z. contains_text ids z ≡ true) (sym ((eq_iff x y).0 e)) all.0
    by_name false e g f = f g

pub AreAmong-trans : (ids ys xs : List String) → AreAmong ids ys → AreAmong ys xs → AreAmong ids xs
AreAmong-trans ids ys [] h all = tt
AreAmong-trans ids ys (x ∷ xs) h all =
    (contains-AreAmong ids ys x h all.0, AreAmong-trans ids ys xs h all.1)
