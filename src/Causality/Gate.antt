-- ===== src/Causality/Gate.antt =====
-- The gate of core/causality.py against its documented requirements.
use fault_warden.Base.{
  ℕ, ◌≡◌, ◌≢◌, ◌≤◌, ◌↔◌, inl, inr, refl, true, false, none, some, List, [], ◌∷◌, String, str_eq,
  eq_iff, arith, keep, nonempty, In, Bool-cases,
}
use fault_warden.Schemas.{Hypothesis}
use fault_warden.Schemas.Change.{OperationalChange, ChangeCorrelation}
use fault_warden.Causality.{
  min_temporal_score, contains_text, passes_gate, verify_causal_change_association,
}

pub contains_text_sound : (xs : List String) (x : String) → contains_text xs x ≡ true → In x xs
contains_text_sound [] x h = cc
contains_text_sound (y ∷ ys) x h = elim (Bool-cases (str_eq x y)) [
  | inl same ↦ inl ((eq_iff x y).0 same)
  | inr other ↦ inr (contains_text_sound ys x (ground arith))
]

pub contains_text_complete : (xs : List String) (x : String) → In x xs → contains_text xs x ≡ true
contains_text_complete [] x h = absurd h.1
contains_text_complete (y ∷ ys) x (inl e) = ground (arith, eq_iff x y)
contains_text_complete (y ∷ ys) x (inr h) = ground (arith, contains_text_complete ys x h)

-- Some text stands in both lists.
abbrev pub Shares : List String → List String → Type 0
Shares xs ys = (x : String) × In x xs × In x ys

keep-Shares :
    (links current : List String)
    → nonempty (keep (contains_text current) links) ≡ true
    → Shares links current
keep-Shares [] current h = cc
keep-Shares (x ∷ xs) current h = elim (Bool-cases (contains_text current x)) [
  | inl found ↦ (x, inl refl, contains_text_sound current x found)
  | inr lost ↦
      let (y, in_links, in_current) = keep-Shares xs current (ground arith) in
      (y, inr in_links, in_current)
]

Shares-keep :
    (links current : List String) (x : String)
    → In x links
    → In x current
    → nonempty (keep (contains_text current) links) ≡ true
Shares-keep [] current x h i = absurd h.1
Shares-keep (y ∷ ys) current x (inl e) i = ground (arith, contains_text_complete current x i)
Shares-keep (y ∷ ys) current x (inr h) i = ground (arith, Shares-keep ys current x h i)

In-nonempty : (xs : List String) (x : String) → In x xs → nonempty xs ≡ true
In-nonempty [] x h = absurd h.1
In-nonempty (y ∷ ys) x h = refl

module _ (lower : String → String) where
  -- The requirements that the docstring of the gate numbers from 1 to 10.
  pub record IsVerifiedCause (hypothesis : Hypothesis) (change : OperationalChange)
      (c : ChangeCorrelation) (current_evidence_ids : List String) (threshold : ℕ) : Type 0 where
    pub has_id : change.id ≢ ""
    pub same_change : c.change_id ≡ change.id
    pub candidate : c.is_causal_candidate ≡ true
    pub component : c.component_match ≡ true
    pub same_service : lower change.service ≡ lower hypothesis.affected_component
    pub symptom : c.symptom_match ≡ true
    pub relevant : threshold ≤ c.relevance_score
    pub linked : Shares c.evidence_links current_evidence_ids
    pub before : min_temporal_score ≤ c.temporal_score
    pub referenced : In change.id hypothesis.related_change_ids

  module _ (hypothesis : Hypothesis) (change : OperationalChange) (c : ChangeCorrelation)
      (current : List String) (threshold : ℕ) where
    gate_sound :
        verify_causal_change_association lower hypothesis change (some c) current threshold ≡ true
        → IsVerifiedCause hypothesis change c current threshold
    unfolding verify_causal_change_association passes_gate
    gate_sound h = record {
      has_id = ground (arith, eq_iff change.id "");
      same_change = ground (arith, eq_iff c.change_id change.id);
      candidate = ground arith;
      component = ground arith;
      same_service =
          ground (arith, eq_iff (lower change.service) (lower hypothesis.affected_component));
      symptom = ground arith;
      relevant = ground arith;
      linked = keep-Shares c.evidence_links current (ground arith);
      before = ground arith;
      referenced = contains_text_sound hypothesis.related_change_ids change.id (ground arith);
    }

    gate_complete :
        IsVerifiedCause hypothesis change c current threshold
        → verify_causal_change_association lower hypothesis change (some c) current threshold ≡ true
    unfolding verify_causal_change_association passes_gate
    gate_complete v = ground (
      arith,
      eq_iff change.id "",
      eq_iff c.change_id change.id,
      eq_iff (lower change.service) (lower hypothesis.affected_component),
      In-nonempty c.evidence_links v.linked.0 v.linked.1,
      Shares-keep c.evidence_links current v.linked.0 v.linked.1 v.linked.2,
      contains_text_complete hypothesis.related_change_ids change.id v.referenced,
    )

    -- With a correlation record the gate passes exactly if all the documented requirements hold: a
    -- change id, a record of the same change that is a causal candidate, a matching component and
    -- service, a symptom match, a relevance of at least the threshold, an evidence link into the
    -- current evidence, a temporal score of at least 0.30, and a reference by the hypothesis.
    -- Without a record it never passes.
    pub verify_causal_change_association_iff :
        ((verify_causal_change_association lower hypothesis change (some c) current threshold
            ≡ true)
          ↔ IsVerifiedCause hypothesis change c current threshold)
        × (verify_causal_change_association lower hypothesis change none current threshold ≡ false)
    unfolding verify_causal_change_association
    verify_causal_change_association_iff = ((gate_sound, gate_complete), refl)
