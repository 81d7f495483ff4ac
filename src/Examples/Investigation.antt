-- ===== src/Examples/Investigation.antt =====
-- The theorems on core/causality.py and graph/nodes/verify.py at the sample incident.
use fault_warden.Base.{◌≡◌, ◌↔◌, true, false, none, some, [], ◌∷◌}
use fault_warden.Causality.{verify_causal_change_association}
use fault_warden.Causality.Gate.{IsVerifiedCause, verify_causal_change_association_iff}
use fault_warden.Verify.{VerifyInput, verify_hypothesis_node}
use fault_warden.Verify.Verdict.{Verdict, verify_hypothesis_node-Verdict}
use fault_warden.Examples.{
  same_case, sample_investigation, sample_evidence, sample_hypothesis, sample_answer, sample_change,
  sample_correlation,
}

verify_causal_change_association_iff_example :
    ((verify_causal_change_association same_case sample_hypothesis sample_change
          (some sample_correlation)
          ("e1" ∷ [])
          5
        ≡ true)
      ↔ IsVerifiedCause same_case sample_hypothesis sample_change sample_correlation ("e1" ∷ []) 5)
    × (verify_causal_change_association same_case sample_hypothesis sample_change none ("e1" ∷ []) 5
        ≡ false)
verify_causal_change_association_iff_example =
    verify_causal_change_association_iff same_case sample_hypothesis sample_change
      sample_correlation ("e1" ∷ []) 5

abbrev sample_verify_input : VerifyInput
sample_verify_input = record {
  hypotheses = sample_hypothesis ∷ [];
  evidence = sample_evidence ∷ [];
  recent_changes = sample_change ∷ [];
  change_correlations = sample_correlation ∷ [];
  classification = none;
  iteration_count = 1;
  selected_causal_change = none;
}

verify_hypothesis_node-Verdict_example :
    Verdict same_case sample_investigation sample_verify_input (
      verify_hypothesis_node same_case sample_investigation sample_verify_input
        (some sample_answer))
verify_hypothesis_node-Verdict_example =
    verify_hypothesis_node-Verdict same_case sample_investigation sample_verify_input
      (some sample_answer)
