-- ===== src/Verify/Promotion.antt =====
-- What `verify_hypothesis_node` of graph/nodes/verify.py promotes to a root cause.
use fault_warden.Base.{
  ℕ, ◌≡◌, ◌≤◌, inl, inr, refl, true, Option, none, some, List, [], ◌∷◌, map, String, ltb, str_eq,
  eq_iff, arith, any, keep, nonempty, All, In, Bool-cases, Option-cases, subst, ltb→lt,
}
use fault_warden.Schemas.{verified, Hypothesis, RootCauseAnalysis}
use fault_warden.Schemas.Change.{OperationalChange, ChangeCorrelation}
use fault_warden.Causality.{contains_text, verify_causal_change_association}
use fault_warden.Causality.Gate.{
  IsVerifiedCause, contains_text_sound, verify_causal_change_association_iff,
}
use fault_warden.Verify.{
  InvestigationSettings, VerifyInput, VerifyOutput, Evaluation, better, best_of, evidence_ids,
  change_of, correlation_of, promote_change, causal_changes, promote, is_promoted,
}

keep-In : (current ids : List String) → All (λ x. In x current) (keep (contains_text current) ids)
keep-In current [] = tt
keep-In current (x ∷ xs) = elim (Bool-cases (contains_text current x)) [
  | inl found ↦ rw found (contains_text_sound current x found, keep-In current xs)
  | inr lost ↦ rw lost (keep-In current xs)
]

any-nonempty-keep :
    (current ids : List String)
    → any (contains_text current) ids ≡ true
    → nonempty (keep (contains_text current) ids) ≡ true
any-nonempty-keep current [] h = cc
any-nonempty-keep current (x ∷ xs) h = ground (arith, any-nonempty-keep current xs)

-- `best_of` returns one of the hypotheses, and none has a greater confidence.
-- `m` is one of the hypotheses, and none has a greater confidence.
abbrev pub IsGreatest : Hypothesis → List Hypothesis → Type 0
IsGreatest m hs = In m hs × All (λ h. h.confidence_score ≤ m.confidence_score) hs

IsGreatest-better :
    (m best h : Hypothesis) (hs : List Hypothesis)
    → IsGreatest m (better best h ∷ hs)
    → IsGreatest m (best ∷ h ∷ hs)
unfolding better
IsGreatest-better m best h hs g = elim (Bool-cases (ltb best.confidence_score h.confidence_score)) [
  | inl greater ↦
      let (found, all) = rw greater at g in
      (inr found, (omega (arith, all.0, ltb→lt _ _ greater), all))
  | inr lesser ↦
      let (found, all) = rw lesser at g in
      let within : h.confidence_score ≤ best.confidence_score = ground arith in
      (skip found, (all.0, (omega (arith, all.0, within), all.1)))
]
  where
    skip : In m (best ∷ hs) → In m (best ∷ h ∷ hs)
    skip (inl e) = inl e
    skip (inr i) = inr (inr i)

pub best_of-IsGreatest :
    (best : Hypothesis) (hs : List Hypothesis) → IsGreatest (best_of best hs) (best ∷ hs)
unfolding best_of
best_of-IsGreatest best [] = (inl refl, (omega arith, tt))
best_of-IsGreatest best (h ∷ hs) =
    IsGreatest-better _ best h hs (best_of-IsGreatest (better best h) hs)

change_of-In :
    (cid : String) (chs : List OperationalChange) {ch : OperationalChange}
    → change_of cid chs ≡ some ch
    → In ch chs × (ch.id ≡ cid)
unfolding change_of
change_of-In cid [] h = cc
change_of-In cid (c ∷ cs) {ch = ch} h = elim (Option-cases (change_of cid cs)) [
  | inl missing ↦ elim (Bool-cases (str_eq c.id cid)) [
    | inl same ↦ let p : ch ≡ c = ground arith in (inl p, rw p ((eq_iff c.id cid).0 same))
    | inr other ↦ ground arith
  ]
  | inr (later, e) ↦
      let (found, same) = change_of-In cid cs e in
      let p : later ≡ ch = ground arith in (inr (subst (λ x. In x cs) p found), rw (← p) same)
]

module _ (lower : String → String) (hypothesis : Hypothesis) (changes : List OperationalChange)
    (correlations : List ChangeCorrelation) (current : List String) (threshold : ℕ) where
  -- A collected change that meets every requirement of the gate, with some correlation record.
  abbrev pub IsCause : OperationalChange → Type 0
  IsCause ch =
      In ch changes
      × (c : ChangeCorrelation) × IsVerifiedCause lower hypothesis ch c current threshold

  gate-IsCause :
      (ch : OperationalChange) (correlation : Option ChangeCorrelation)
      → In ch changes
      → verify_causal_change_association lower hypothesis ch correlation current threshold ≡ true
      → IsCause ch
  unfolding verify_causal_change_association
  gate-IsCause ch none i h = cc
  gate-IsCause ch (some c) i h =
      (i, c, (verify_causal_change_association_iff lower hypothesis ch c current threshold).0.0 h)

  promote_change-All :
      (found : Option OperationalChange) (correlation : Option ChangeCorrelation)
      (rest : List OperationalChange)
      → ((ch : OperationalChange) → found ≡ some ch → In ch changes)
      → All IsCause rest
      → All IsCause (promote_change lower hypothesis found correlation current threshold rest)
  unfolding promote_change
  promote_change-All none correlation rest i h = h
  promote_change-All (some ch) correlation rest i h =
      elim (Bool-cases
        (verify_causal_change_association lower hypothesis ch correlation current threshold)) [
          | inl passed ↦ rw passed (gate-IsCause ch correlation (i ch refl) passed, h)
          | inr failed ↦ rw failed h
        ]

  causal_changes-All :
      (cids : List String)
      → All IsCause (causal_changes lower hypothesis changes correlations current threshold cids)
  unfolding causal_changes
  causal_changes-All [] = tt
  causal_changes-All (cid ∷ cids) =
      promote_change-All (change_of cid changes) (correlation_of cid correlations) _
        (λ ch e. (change_of-In cid changes e).0) (causal_changes-All cids)

-- What a root cause rests on.
pub record IsGrounded (lower : String → String) (settings : InvestigationSettings)
    (input : VerifyInput) (output : VerifyOutput) (cause : RootCauseAnalysis) : Type 0 where
  pub chosen : Hypothesis
  pub selected : output.selected_hypothesis ≡ some chosen
  pub is_verified : chosen.status ≡ verified
  pub of_hypothesis : cause.primary_hypothesis_id ≡ chosen.id
  pub same_evidence : cause.supporting_evidence_ids ≡ chosen.supporting_evidence_ids
  pub some_evidence : nonempty cause.supporting_evidence_ids ≡ true
  pub current_evidence : All (λ x. In x (evidence_ids input.evidence)) cause.supporting_evidence_ids
  pub confident : settings.confidence_threshold ≤ cause.confidence
  pub causal : List OperationalChange
  pub causal_ids : cause.causal_change_ids ≡ map (λ ch. ch.id) causal
  pub gated :
      All
        (IsCause lower chosen input.recent_changes input.change_correlations
          (evidence_ids input.evidence)
          settings.correlation_threshold)
        causal

module _ (lower : String → String) (settings : InvestigationSettings) (input : VerifyInput) where
  pub promote-IsGrounded :
      (best : Hypothesis) (e : Evaluation)
      → is_promoted lower settings input best e ≡ true
      → (cause : RootCauseAnalysis) × ((promote lower settings input best e).root_cause
          ≡ some cause)
        × IsGrounded lower settings input (promote lower settings input best e) cause
  unfolding promote
  promote-IsGrounded best e h = (
    _,
    refl,
    record {
      chosen = _;
      selected = refl;
      is_verified = refl;
      of_hypothesis = refl;
      same_evidence = refl;
      some_evidence =
          any-nonempty-keep (evidence_ids input.evidence) best.supporting_evidence_ids
            (ground arith);
      current_evidence = keep-In (evidence_ids input.evidence) best.supporting_evidence_ids;
      confident = ground arith;
      causal = _;
      causal_ids = refl;
      gated = causal_changes-All lower _ input.recent_changes input.change_correlations _ _ _;
    },
  )
