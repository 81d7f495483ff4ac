-- ===== src/Recovery/Rates.antt =====
-- The checks of the recovery validator that ask Prometheus: when they pass.
use fault_warden.Base.{
  ◌≡◌, ◌≢◌, ◌↔◌, refl, Bool, true, false, Option, none, some, List, [], ◌∷◌, ap, ◌∙◌, sym, subst,
  arith, if◌then◌else◌,
}
use fault_warden.Recovery.{
  CheckName, MetricData, last_value, add_latest, total_rate, check_rate, ValidationCheckResult,
}

module _ {Rate : Type 0} where
  -- The last of these values.
  abbrev pub newest : List Rate → Option Rate
  newest [] = none
  newest (v ∷ []) = some v
  newest (v ∷ w ∷ ws) = newest (w ∷ ws)

  abbrev pub with_newest : Option Rate → List Rate → List Rate
  with_newest none rest = rest
  with_newest (some v) rest = v ∷ rest

  -- The newest value of each series that has one.
  abbrev pub latest_values : List (MetricData Rate) → List Rate
  latest_values [] = []
  latest_values (m ∷ ms) = with_newest (newest m.values) (latest_values ms)

  newest_lem : (v : Rate) (vs : List Rate) → newest (v ∷ vs) ≡ some (last_value Rate v vs)
  newest_lem v [] = refl
  newest_lem v (w ∷ ws) = newest_lem w ws

  module _ (nought : Rate) (add : Rate → Rate → Rate) (at_most : Rate → Rate → Bool) where
    abbrev pub add_all : Rate → List Rate → Rate
    add_all total [] = total
    add_all total (v ∷ vs) = add_all (add total v) vs

    -- The series answered, and their latest values add up to at most the threshold.
    abbrev pub IsBelow : (threshold : Rate) → Option (List (MetricData Rate)) → Type 0
    IsBelow threshold none = ⊥
    IsBelow threshold (some ms) =
        (ms ≢ []) × (at_most (add_all nought (latest_values ms)) threshold ≡ true)

    add_series :
        (total : Rate) (values : List Rate) (rest : List Rate)
        → add_all (add_latest Rate nought add at_most total values) rest
          ≡ add_all total (with_newest (newest values) rest)
    add_series total [] rest = refl
    add_series total (v ∷ vs) rest =
        ap (λ o. add_all total (with_newest o rest)) (sym (newest_lem v vs))

    total_rate_lem :
        (total : Rate) (ms : List (MetricData Rate))
        → total_rate Rate nought add at_most total ms ≡ add_all total (latest_values ms)
    unfolding total_rate
    total_rate_lem total [] = refl
    total_rate_lem total (m ∷ ms) =
        total_rate_lem (add_latest Rate nought add at_most total m.values) ms
        ∙ add_series total m.values (latest_values ms)

    pub rate-passes :
        (name : CheckName) (threshold : Rate) (o : Option (List (MetricData Rate)))
        → ((check_rate Rate nought add at_most name threshold o).passed ≡ true)
          ↔ IsBelow threshold o
    rate-passes name threshold none = ((λ h. absurd (ground arith)), (λ h. absurd h))
    rate-passes name threshold (some []) = ((λ h. absurd (ground arith)), (λ h. absurd (h.0 refl)))
    rate-passes name threshold (some (m ∷ ms)) =
        let total = total_rate_lem nought (m ∷ ms) in
        let same =
          tested (at_most (total_rate Rate nought add at_most nought (m ∷ ms)) threshold) _ _ refl
            refl in
        (
          (λ h. (
            (λ e. absurd (ground arith)),
            subst (λ t. at_most t threshold ≡ true) total (same.0 h),
          )),
          (λ h. same.1 (subst (λ t. at_most t threshold ≡ true) (sym total) h.1)),
        )
      where
        tested :
            (b : Bool) (c d : ValidationCheckResult Rate)
            → c.passed ≡ true
            → d.passed ≡ false
            → ((if b then c else d).passed ≡ true) ↔ (b ≡ true)
        tested true c d h i = ((λ e. refl), (λ e. h))
        tested false c d h i = ((λ e. absurd (ground arith)), (λ e. absurd (ground arith)))
