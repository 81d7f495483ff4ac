-- ===== src/Correlations/Candidates.antt =====
-- Which changes graph/nodes/correlate.py makes candidates.
use fault_warden.Base.{
  ℕ, ◌-◌, ◌*◌, ◌≡◌, ◌≤◌, refl, Bool, true, false, ◌||◌, List, [], ◌∷◌, ◌++◌, map, any, String,
  str_eq, if◌then◌else◌, nonempty, arith,
}
use fault_warden.Schemas.{EvidenceItem}
use fault_warden.Schemas.Change.{OperationalChange, ChangeCorrelation}
use fault_warden.Causality.Ids.{AreAmong, weaken, contains_own}
use fault_warden.Correlations.{microsecond, matches, change_tokens, correlate_evidence_node}

nonempty-append : (xs : List String) (x : String) → nonempty (xs ++ (x ∷ [])) ≡ true
nonempty-append [] x = refl
nonempty-append (y ∷ ys) x = refl

bit : (b : Bool) (c : Bool) → (b || c) ≡ true → b ≡ false → c ≡ true
bit true c h e = absurd (ground arith)
bit false c h e = h

module _ (plus minus times over : ℕ → ℕ → ℕ) (round2 : ℕ → ℕ) (seconds : ℕ → ℕ) where
  module _ (lower upper : String → String) where
    -- The change is of the incident's service and of the two hours before its start, current
    -- evidence links it to the incident, and its relevance reaches the threshold.
    pub record IsPlausible (threshold : ℕ) (service : String) (start : ℕ)
        (evidence : List EvidenceItem) (c : OperationalChange) (r : ChangeCorrelation)
        : Type 0 where
      pub names_change : r.change_id ≡ c.id
      pub same_service : str_eq (lower c.service) (lower service) ≡ true
      pub symptom : any (matches lower upper (change_tokens lower upper c)) evidence ≡ true
      pub linked : nonempty r.evidence_links ≡ true
      pub current : AreAmong (map (λ e. e.id) evidence) r.evidence_links
      pub before_start : c.timestamp ≤ start
      pub recent : start - c.timestamp ≤ 7200 * microsecond
      pub relevant : threshold ≤ r.relevance_score

    -- The candidates of the node are changes that were given to it.
    pub candidates-AreAmong :
        (threshold : ℕ) (service : String) (ts : ℕ) (evidence : List EvidenceItem)
        (changes : List OperationalChange)
        → AreAmong (map (λ c. c.id) changes) (
            map
              (λ c. c.id)
              (correlate_evidence_node lower upper plus minus times over round2 seconds threshold
                service ts evidence changes).1)
    unfolding correlate_evidence_node
    candidates-AreAmong threshold service ts evidence [] = tt
    candidates-AreAmong threshold service ts evidence (c ∷ cs) =
        by_test _ (weaken _ _ c.id (candidates-AreAmong threshold service ts evidence cs))
      where
        by_test :
            (b : Bool)
            → AreAmong (map (λ x. x.id) (c ∷ cs)) (
                map
                  (λ x. x.id)
                  (correlate_evidence_node lower upper plus minus times over round2 seconds
                    threshold service ts evidence cs).1)
            → AreAmong (map (λ x. x.id) (c ∷ cs)) (
                map
                  (λ x. x.id)
                  (if b
                    then c
                      ∷ (correlate_evidence_node lower upper plus minus times over round2 seconds
                          threshold service ts evidence cs).1
                    else (correlate_evidence_node lower upper plus minus times over round2 seconds
                        threshold service ts evidence cs).1))
        by_test true rest = (contains_own _ c.id, rest)
        by_test false rest = rest
