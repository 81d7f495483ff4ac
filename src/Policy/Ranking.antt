-- ===== src/Policy/Ranking.antt =====
-- core/policy.py: `_calculate_action_suitability` and `evaluate_and_rank_proposals`.
-- `lower` is Python's `str.lower`, and `uuid n` the n-th uuid4 that the evaluation draws.
use Prim.Native.String as Text
use Prim.Native.String.{compare}
use text.Mathlib.Text.{find?}
use fault_warden.Base.{
  ℕ, suc, Bool, true, false, Option, none, some, List, [], ◌∷◌, String, ltb, is_lt, if◌then◌else◌,
  any, is_some,
}
use fault_warden.Schemas.{
  level_value, ActionType, reset_demo_failure, restart_registered_service, action_value,
  RemediationProposal, RemediationAction, PolicyResult, allowed_action, approval_required_action,
  rejected_action, RootCauseAnalysis, IncidentClassification, RemediationSettings, SafetyLevel,
}
use fault_warden.Policy.{evaluate_policy}

-- `keyword in text`
abbrev pub has_keyword : String → String → Bool
has_keyword text keyword = is_some (find? text keyword)

abbrev pub fault_keywords : List String
fault_keywords =
    "error-mode" ∷ "pool" ∷ "exhaust" ∷ "fault" ∷ "injection" ∷ "parameter" ∷ "debug" ∷ []

abbrev pub is_empty_text : String → Bool
is_empty_text String.[] = true
is_empty_text (String.◌∷◌ c s) = false

module _ (lower : String → String) where
  unfoldable pub cause_text : Option RootCauseAnalysis → String
  cause_text none = ""
  cause_text (some cause) =
      lower (Text.◌++◌ cause.summary (Text.◌++◌ " " cause.root_cause_category))

  unfoldable pub with_category : String → Option IncidentClassification → String
  with_category text none = text
  with_category text (some c) = lower (Text.◌++◌ text (Text.◌++◌ " " c.category))

  abbrev pub suitability_of : ActionType → (is_fault_injection : Bool) → ℕ
  suitability_of reset_demo_failure is_fault_injection = if is_fault_injection then 0 else 1
  suitability_of restart_registered_service is_fault_injection = if is_fault_injection then 1 else 0

  unfoldable pub calculate_action_suitability :
      ActionType → Option RootCauseAnalysis → Option IncidentClassification → ℕ
  unfolding cause_text with_category
  calculate_action_suitability action_type cause classification =
      let text = with_category (cause_text cause) classification in
      if is_empty_text text
      then 0
      else suitability_of action_type (any (has_keyword text) fault_keywords)

-- A proposal whose result is no rejection, with the action of the result.
pub record Candidate : Type 0 where
  pub proposal : RemediationProposal
  pub action : RemediationAction
  pub result : PolicyResult

-- The tuple of `_ranking_key`. The texts of two uuid4s are in the order of their numbers.
pub record RankingKey : Type 0 where
  pub suitability : ℕ
  pub policy_level : ℕ
  pub action_type : ActionType
  pub proposal_id : ℕ

-- `<` on the texts of two action types
abbrev pub action_type_lt : ActionType → ActionType → Bool
action_type_lt a b = is_lt (compare (action_value a) (action_value b))

-- `<` on tuples
unfoldable pub key_lt : RankingKey → RankingKey → Bool
key_lt k l =
    if ltb k.suitability l.suitability
    then true
    else if ltb l.suitability k.suitability
    then false
    else if ltb k.policy_level l.policy_level
    then true
    else if ltb l.policy_level k.policy_level
    then false
    else if action_type_lt k.action_type l.action_type
    then true
    else if action_type_lt l.action_type k.action_type
    then false
    else ltb k.proposal_id l.proposal_id

-- `isinstance(policy_res, (AllowedAction, ApprovalRequiredAction))`
abbrev pub as_candidates : RemediationProposal → PolicyResult → List Candidate → List Candidate
as_candidates p (allowed_action a) rest =
    record { proposal = p; action = a; result = allowed_action a } ∷ rest
as_candidates p (approval_required_action a reason) rest =
    record { proposal = p; action = a; result = approval_required_action a reason } ∷ rest
as_candidates p (rejected_action id name reason) rest = rest

-- The `for` loop: `all_results`, and `candidates`.
unfoldable pub evaluate_all :
    RemediationSettings → (uuid : ℕ → ℕ) → ℕ → List RemediationProposal → List PolicyResult
evaluate_all settings uuid n [] = []
evaluate_all settings uuid n (p ∷ ps) =
    evaluate_policy settings (uuid n) p ∷ evaluate_all settings uuid (suc n) ps

unfoldable pub collect_candidates :
    RemediationSettings → (uuid : ℕ → ℕ) → ℕ → List RemediationProposal → List Candidate
collect_candidates settings uuid n [] = []
collect_candidates settings uuid n (p ∷ ps) =
    as_candidates p (evaluate_policy settings (uuid n) p)
      (collect_candidates settings uuid (suc n) ps)

-- The text that goes with a selection.
pub data SelectionReason : Type 0 where
  no_proposals all_rejected ineligible_incident no_proposals_generated : SelectionReason
  selected : ActionType → SafetyLevel → (title : String) → SelectionReason

module _ (lower : String → String) (cause : Option RootCauseAnalysis)
    (classification : Option IncidentClassification) where
  unfoldable pub ranking_key : Candidate → RankingKey
  ranking_key c = record {
    suitability = calculate_action_suitability lower c.action.action_type cause classification;
    policy_level = level_value c.action.policy_level;
    action_type = c.action.action_type;
    proposal_id = c.proposal.id;
  }

  -- `candidates.sort(key=_ranking_key)`, which is stable.
  unfoldable pub insert_candidate : Candidate → List Candidate → List Candidate
  insert_candidate c [] = c ∷ []
  insert_candidate c (d ∷ ds) =
      if key_lt (ranking_key d) (ranking_key c) then d ∷ insert_candidate c ds else c ∷ d ∷ ds

  unfoldable pub sort_candidates : List Candidate → List Candidate
  sort_candidates [] = []
  sort_candidates (c ∷ cs) = insert_candidate c (sort_candidates cs)

  -- What is returned for the sorted candidates; with none, the first rejection.
  abbrev pub pick :
      List PolicyResult → List Candidate → Option PolicyResult × List PolicyResult × SelectionReason
  pick [] [] = (none, [], all_rejected)
  pick (r ∷ rs) [] = (some r, r ∷ rs, all_rejected)
  pick rs (c ∷ cs) =
      (some c.result, rs, selected c.action.action_type c.action.policy_level c.proposal.title)

  unfoldable pub evaluate_and_rank_proposals :
      RemediationSettings
      → (uuid : ℕ → ℕ) → List RemediationProposal
      → Option PolicyResult × List PolicyResult × SelectionReason
  evaluate_and_rank_proposals settings uuid [] = (none, [], no_proposals)
  evaluate_and_rank_proposals settings uuid (p ∷ ps) =
      pick (evaluate_all settings uuid 0 (p ∷ ps))
        (sort_candidates (collect_candidates settings uuid 0 (p ∷ ps)))
