-- ===== src/Policy/Advisory.antt =====
-- The suggestions of the LLM do not reach the decisions of core/policy.py.
use fault_warden.Base.{
  ℕ, suc, ◌≡◌, refl, Bool, Option, List, [], ◌∷◌, map, String, ap, Bool-cases, inl, inr,
}
use fault_warden.Schemas.{
  SafetyLevel, RemediationProposal, PolicyResult, allowed_action, approval_required_action,
  rejected_action, RootCauseAnalysis, IncidentClassification, RemediationSettings,
}
use fault_warden.Policy.{evaluate_policy}
use fault_warden.Policy.Ranking.{
  Candidate, as_candidates, ranking_key, insert_candidate, sort_candidates, evaluate_all, key_lt,
  collect_candidates, pick, evaluate_and_rank_proposals,
}

-- What an LLM may say of a proposal besides its action: texts, a risk and a wish for approval.
pub record Suggestion : Type 0 where
  pub title : String
  pub expected_effect : String
  pub supporting_evidence_ids : List String
  pub proposed_risk : SafetyLevel
  pub requires_approval : Bool

abbrev pub suggest : (RemediationProposal → Suggestion) → RemediationProposal → RemediationProposal
suggest s p = record p {
  title = (s p).title;
  expected_effect = (s p).expected_effect;
  supporting_evidence_ids = (s p).supporting_evidence_ids;
  proposed_risk = (s p).proposed_risk;
  requires_approval = (s p).requires_approval;
}

module _ (s : RemediationProposal → Suggestion) where
  abbrev suggest_in : Candidate → Candidate
  suggest_in c = record c { proposal = suggest s c.proposal }

  evaluate_policy-suggest :
      (settings : RemediationSettings) (n : ℕ) (p : RemediationProposal)
      → evaluate_policy settings n (suggest s p) ≡ evaluate_policy settings n p
  unfolding evaluate_policy
  evaluate_policy-suggest settings n p = refl

  evaluate_all-suggest :
      (settings : RemediationSettings) (uuid : ℕ → ℕ) (n : ℕ) (ps : List RemediationProposal)
      → evaluate_all settings uuid n (map (suggest s) ps) ≡ evaluate_all settings uuid n ps
  unfolding evaluate_all
  evaluate_all-suggest settings uuid n [] = refl
  evaluate_all-suggest settings uuid n (p ∷ ps) =
      cc
        (evaluate_policy-suggest settings (uuid n) p, evaluate_all-suggest settings uuid (suc n) ps)

  as_candidates-suggest :
      (p : RemediationProposal) (r : PolicyResult) (cs : List Candidate)
      → as_candidates (suggest s p) r (map suggest_in cs) ≡ map suggest_in (as_candidates p r cs)
  as_candidates-suggest p (allowed_action a) cs = refl
  as_candidates-suggest p (approval_required_action a reason) cs = refl
  as_candidates-suggest p (rejected_action id name reason) cs = refl

  collect_candidates-suggest :
      (settings : RemediationSettings) (uuid : ℕ → ℕ) (n : ℕ) (ps : List RemediationProposal)
      → collect_candidates settings uuid n (map (suggest s) ps)
        ≡ map suggest_in (collect_candidates settings uuid n ps)
  unfolding collect_candidates
  collect_candidates-suggest settings uuid n [] = refl
  collect_candidates-suggest settings uuid n (p ∷ ps) =
      rw
        (
          evaluate_policy-suggest settings (uuid n) p,
          collect_candidates-suggest settings uuid (suc n) ps,
        )
        (as_candidates-suggest p (evaluate_policy settings (uuid n) p) _)

  module _ (lower : String → String) (cause : Option RootCauseAnalysis)
      (classification : Option IncidentClassification) where
    insert-suggest :
        (c : Candidate) (cs : List Candidate)
        → insert_candidate lower cause classification (suggest_in c) (map suggest_in cs)
          ≡ map suggest_in (insert_candidate lower cause classification c cs)
    unfolding insert_candidate ranking_key
    insert-suggest c [] = refl
    insert-suggest c (d ∷ ds) =
        elim (Bool-cases (
          key_lt (ranking_key lower cause classification d)
            (ranking_key lower cause classification c))) [
              | inl before ↦
                  rw before (ap (λ (l : List Candidate). suggest_in d ∷ l) (insert-suggest c ds))
              | inr after ↦ rw after
            ]

    sort-suggest :
        (cs : List Candidate)
        → sort_candidates lower cause classification (map suggest_in cs)
          ≡ map suggest_in (sort_candidates lower cause classification cs)
    unfolding sort_candidates
    sort-suggest [] = refl
    sort-suggest (c ∷ cs) = rw (sort-suggest cs) (insert-suggest c _)

    pick-suggest :
        (results : List PolicyResult) (cs : List Candidate)
        → (pick lower cause classification results (map suggest_in cs)).0
          ≡ (pick lower cause classification results cs).0
    pick-suggest [] [] = refl
    pick-suggest (r ∷ rs) [] = refl
    pick-suggest [] (c ∷ cs) = refl
    pick-suggest (r ∷ rs) (c ∷ cs) = refl

    -- Whatever risk, approval, title, effect and evidence the LLM suggests for each proposal, the
    -- policy selects the same result and decides the same on every proposal.
    pub evaluate_and_rank-suggest :
        (settings : RemediationSettings) (uuid : ℕ → ℕ) (ps : List RemediationProposal)
        → let suggested =
            evaluate_and_rank_proposals lower cause classification settings uuid
              (map (suggest s) ps) in
          let plain = evaluate_and_rank_proposals lower cause classification settings uuid ps in
          (suggested.0 ≡ plain.0)
          × (evaluate_all settings uuid 0 (map (suggest s) ps) ≡ evaluate_all settings uuid 0 ps)
    unfolding evaluate_and_rank_proposals
    evaluate_and_rank-suggest settings uuid [] = (refl, refl)
    evaluate_and_rank-suggest settings uuid (p ∷ ps) = (
      rw
          (
            evaluate_all-suggest settings uuid 0 (p ∷ ps),
            collect_candidates-suggest settings uuid 0 (p ∷ ps),
            sort-suggest (collect_candidates settings uuid 0 (p ∷ ps)),
          )
          (pick-suggest (evaluate_all settings uuid 0 (p ∷ ps)) (
            sort_candidates lower cause classification
              (collect_candidates settings uuid 0 (p ∷ ps)))),
      evaluate_all-suggest settings uuid 0 (p ∷ ps),
    )
