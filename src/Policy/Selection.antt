-- ===== src/Policy/Selection.antt =====
-- The candidate that `evaluate_and_rank_proposals` of core/policy.py selects.
use fault_warden.Base.{
  ℕ, ◌≡◌, refl, inl, inr, true, false, Option, none, some, List, [], ◌∷◌, String, arith, ltb, All,
  In, Bool-cases,
}
use fault_warden.Schemas.{
  ActionType, reset_demo_failure, restart_registered_service, RemediationProposal, PolicyResult,
  RootCauseAnalysis, IncidentClassification, RemediationSettings,
}
use fault_warden.Policy.Ranking.{
  Candidate, RankingKey, action_type_lt, key_lt, ranking_key, insert_candidate, sort_candidates,
  evaluate_all, collect_candidates, pick, evaluate_and_rank_proposals,
}

-- `k` comes before `l`, or is its equal.
abbrev pub KeyLe : RankingKey → RankingKey → Type 0
KeyLe k l = key_lt l k ≡ false

-- The texts of the action types are in the order of the declaration.
abbrev action_rank : ActionType → ℕ
action_rank reset_demo_failure = 0
action_rank restart_registered_service = 1

action_type_lt-rank : (a b : ActionType) → action_type_lt a b ≡ ltb (action_rank a) (action_rank b)
action_type_lt-rank reset_demo_failure reset_demo_failure = refl
action_type_lt-rank reset_demo_failure restart_registered_service = refl
action_type_lt-rank restart_registered_service reset_demo_failure = refl
action_type_lt-rank restart_registered_service restart_registered_service = refl

key_lt-asymm : (k l : RankingKey) → key_lt k l ≡ true → KeyLe k l
unfolding key_lt
key_lt-asymm k l h = ground (
  arith,
  action_type_lt-rank k.action_type l.action_type,
  action_type_lt-rank l.action_type k.action_type,
)

KeyLe-refl : (k : RankingKey) → KeyLe k k
unfolding key_lt
KeyLe-refl k = ground (arith, action_type_lt-rank k.action_type k.action_type)

KeyLe-trans : (k l m : RankingKey) → KeyLe k l → KeyLe l m → KeyLe k m
unfolding key_lt
KeyLe-trans k l m h i = ground (
  arith,
  action_type_lt-rank k.action_type l.action_type,
  action_type_lt-rank l.action_type k.action_type,
  action_type_lt-rank l.action_type m.action_type,
  action_type_lt-rank m.action_type l.action_type,
  action_type_lt-rank k.action_type m.action_type,
  action_type_lt-rank m.action_type k.action_type,
)

module _ (lower : String → String) (cause : Option RootCauseAnalysis)
    (classification : Option IncidentClassification) where
  abbrev key : Candidate → RankingKey
  key = ranking_key lower cause classification

  -- No candidate of the list comes before `c`.
  abbrev pub IsLeast : Candidate → List Candidate → Type 0
  IsLeast c = All (λ d. KeyLe (key c) (key d))

  IsLeast-trans :
      (c d : Candidate) (ds : List Candidate) → KeyLe (key c) (key d) → IsLeast d ds → IsLeast c ds
  IsLeast-trans c d [] h least = tt
  IsLeast-trans c d (e ∷ es) h least =
      (KeyLe-trans (key c) (key d) (key e) h least.0, IsLeast-trans c d es h least.1)

  -- The sorted list begins with a least candidate of the given list.
  abbrev StartsLeast : (sorted given : List Candidate) → Type 0
  StartsLeast [] given = given ≡ []
  StartsLeast (c ∷ cs) given = In c given × IsLeast c given

  insert-StartsLeast :
      (c : Candidate) (sorted given : List Candidate)
      → StartsLeast sorted given
      → StartsLeast (insert_candidate lower cause classification c sorted) (c ∷ given)
  unfolding insert_candidate
  insert-StartsLeast c [] given h = rw h (inl refl, (KeyLe-refl (key c), tt))
  insert-StartsLeast c (d ∷ ds) given h = elim (Bool-cases (key_lt (key d) (key c))) [
    | inl before ↦ rw before (inr h.0, (key_lt-asymm (key d) (key c) before, h.1))
    | inr after ↦ rw after (inl refl, (KeyLe-refl (key c), IsLeast-trans c d given after h.1))
  ]

  sort-StartsLeast :
      (given : List Candidate)
      → StartsLeast (sort_candidates lower cause classification given) given
  unfolding sort_candidates
  sort-StartsLeast [] = refl
  sort-StartsLeast (c ∷ cs) =
      insert-StartsLeast c (sort_candidates lower cause classification cs) cs (sort-StartsLeast cs)

  -- The selected result is that of a least candidate; with no candidate it is the first result.
  abbrev pub IsSelection : List Candidate → List PolicyResult → Option PolicyResult → Type 0
  IsSelection [] [] selected = selected ≡ none
  IsSelection [] (r ∷ rs) selected = selected ≡ some r
  IsSelection (c ∷ cs) results selected =
      (d : Candidate) × In d (c ∷ cs) × (selected ≡ some d.result) × IsLeast d (c ∷ cs)

  pick-IsSelection :
      (sorted given : List Candidate) (results : List PolicyResult)
      → StartsLeast sorted given
      → IsSelection given results (pick lower cause classification results sorted).0
  pick-IsSelection [] given [] h = rw h
  pick-IsSelection [] given (r ∷ rs) h = rw h
  pick-IsSelection (c ∷ cs) [] results h = absurd h.0.1
  pick-IsSelection (c ∷ cs) (d ∷ ds) [] h = (c, h.0, refl, h.1)
  pick-IsSelection (c ∷ cs) (d ∷ ds) (r ∷ rs) h = (c, h.0, refl, h.1)

  pick-results :
      (sorted : List Candidate) (results : List PolicyResult)
      → (pick lower cause classification results sorted).1 ≡ results
  pick-results [] [] = refl
  pick-results [] (r ∷ rs) = refl
  pick-results (c ∷ cs) [] = refl
  pick-results (c ∷ cs) (r ∷ rs) = refl

  pub evaluate_and_rank-IsSelection :
      (settings : RemediationSettings) (uuid : ℕ → ℕ) (ps : List RemediationProposal)
      → IsSelection
          (collect_candidates settings uuid 0 ps)
          (evaluate_all settings uuid 0 ps)
          (evaluate_and_rank_proposals lower cause classification settings uuid ps).0
        × ((evaluate_and_rank_proposals lower cause classification settings uuid ps).1
            ≡ evaluate_all settings uuid 0 ps)
  unfolding evaluate_and_rank_proposals evaluate_all collect_candidates
  evaluate_and_rank-IsSelection settings uuid [] = (refl, refl)
  evaluate_and_rank-IsSelection settings uuid (p ∷ ps) =
      let given = collect_candidates settings uuid 0 (p ∷ ps) in
      let results = evaluate_all settings uuid 0 (p ∷ ps) in
      let sorted = sort_candidates lower cause classification given in
      (pick-IsSelection sorted given results (sort-StartsLeast given), pick-results sorted results)
