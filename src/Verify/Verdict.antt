-- ===== src/Verify/Verdict.antt =====
-- The outcome of `verify_hypothesis_node` of graph/nodes/verify.py on every path, whatever the LLM
-- answers and also where its call raises.
use fault_warden.Base.{
  ◌≡◌, ◌≤◌, ◌<◌, ◌⊎◌, inl, inr, refl, true, Option, none, some, List, [], ◌∷◌, String, leb, arith,
  nonempty, Bool-cases, leb→le,
}
use fault_warden.Schemas.{testing, inconclusive, Hypothesis, RootCauseAnalysis}
use fault_warden.Verify.{
  InvestigationSettings, VerificationResponse, VerifyInput, VerifyOutput, Evaluation, best_of,
  evaluate_candidate, keep_testing, is_promoted, verify_candidate, verify_from,
  verify_hypothesis_node, or_default_query,
}
use fault_warden.Verify.Promotion.{IsGrounded, promote-IsGrounded}

-- The investigation stays open: at the last iteration the selected hypothesis is inconclusive and
-- nothing is asked for, before it the hypothesis is in test and at least one query is asked for.
abbrev pub IsOpen : InvestigationSettings → VerifyInput → VerifyOutput → Type 0
IsOpen settings input output =
    (h : Hypothesis) × (output.selected_hypothesis ≡ some h)
    × (((settings.max_iterations ≤ input.iteration_count)
          × (h.status ≡ inconclusive)
          × (output.missing_evidence_queries ≡ []))
        ⊎ ((input.iteration_count < settings.max_iterations)
            × (h.status ≡ testing)
            × (nonempty output.missing_evidence_queries ≡ true)))

-- Without a hypothesis nothing is selected and nothing is asked for.
abbrev pub IsBlank : VerifyInput → VerifyOutput → Type 0
IsBlank input output =
    (input.hypotheses ≡ [])
    × (output.selected_hypothesis ≡ none)
    × (output.missing_evidence_queries ≡ [])

abbrev pub Verdict : (String → String) → InvestigationSettings → VerifyInput → VerifyOutput → Type 0
Verdict lower settings input output =
    ((output.root_cause ≡ none) × (IsBlank input output ⊎ IsOpen settings input output))
    ⊎ ((cause : RootCauseAnalysis) × (output.root_cause ≡ some cause)
        × IsGrounded lower settings input output cause)

nonempty-or_default_query : (qs : List String) → nonempty (or_default_query qs) ≡ true
nonempty-or_default_query [] = refl
nonempty-or_default_query (q ∷ qs) = refl

module _ (lower : String → String) (settings : InvestigationSettings) (input : VerifyInput) where
  keep_testing-IsOpen :
      (best : Hypothesis) (e : Evaluation)
      → IsOpen settings input (keep_testing lower settings input best e)
  unfolding keep_testing
  keep_testing-IsOpen best e =
      elim (Bool-cases (leb settings.max_iterations input.iteration_count)) [
        | inl last ↦ (_, refl, inl (leb→le _ _ last, rw last, rw last))
        | inr more ↦ (
          _,
          refl,
          inr (ground arith, rw more, rw more (nonempty-or_default_query e.missing_queries)),
        )
      ]

  verify_candidate-Verdict :
      (best : Hypothesis) (e : Evaluation)
      → Verdict lower settings input (verify_candidate lower settings input best e)
  unfolding verify_candidate
  verify_candidate-Verdict best e = elim (Bool-cases (is_promoted lower settings input best e)) [
    | inl passed ↦ rw passed (inr (promote-IsGrounded lower settings input best e passed))
    | inr failed ↦ rw failed (inl (unfold keep_testing in refl, inr (keep_testing-IsOpen best e)))
  ]

  verify_from-Verdict :
      (hs : List Hypothesis) (answer : Option VerificationResponse)
      → input.hypotheses ≡ hs
      → Verdict lower settings input (verify_from lower settings input hs answer)
  unfolding verify_from
  verify_from-Verdict [] answer e = inl (refl, inl (e, refl, refl))
  verify_from-Verdict (h ∷ hs) answer e =
      verify_candidate-Verdict (best_of h hs) (evaluate_candidate settings (best_of h hs) answer)

  -- A root cause is reported only for a selected hypothesis in status verified, with a confidence of
  -- at least the threshold and at least one supporting evidence id, all of them ids of evidence that
  -- is in the state; the change ids that it names are those of collected changes that pass the
  -- causal gate. Without a root cause either there was no hypothesis and nothing is asked for, or
  -- the selected one is inconclusive at the last iteration with nothing asked for, or in test
  -- before it with at least one query asked for.
  pub verify_hypothesis_node-Verdict :
      (answer : Option VerificationResponse)
      → Verdict lower settings input (verify_hypothesis_node lower settings input answer)
  unfolding verify_hypothesis_node
  verify_hypothesis_node-Verdict answer = verify_from-Verdict input.hypotheses answer refl
