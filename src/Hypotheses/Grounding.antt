-- ===== src/Hypotheses/Grounding.antt =====
-- What the hypotheses of graph/nodes/hypothesize.py refer to.
use fault_warden.Base.{
  ℕ, suc, ◌≡◌, ◌≢◌, ◌⊎◌, inl, inr, refl, Bool, true, false, not, ◌&&◌, Option, none, some, List, [],
  ◌∷◌, ◌++◌, map, keep, String, if◌then◌else◌, arith, All,
}
use fault_warden.Schemas.{Hypothesis, proposed, EvidenceItem}
use fault_warden.Causality.{contains_text}
use fault_warden.Causality.Ids.{AreAmong, append-AreAmong, keep-AreAmong, weaken, contains_own}
use fault_warden.Hypotheses.{
  GenerationInput, HypothesisCandidate, migrate_id, migrate, evidence_ids, change_ids,
  accept_candidate, first_id, pool_keywords, matching_ids, fallback_hypothesis, accept_candidates,
  or_fallback, generate_hypotheses_node,
}

-- The ids of some of the items are among the ids of all.
kept-AreAmong :
    (p : EvidenceItem → Bool) (items : List EvidenceItem)
    → AreAmong (map (λ e. e.id) items) (map (λ e. e.id) (keep p items))
kept-AreAmong p [] = tt
kept-AreAmong p (e ∷ items) = by_test (p e) (weaken _ _ e.id (kept-AreAmong p items))
  where
    by_test :
        (b : Bool)
        → AreAmong (map (λ e. e.id) (e ∷ items)) (map (λ e. e.id) (keep p items))
        → AreAmong
            (map (λ e. e.id) (e ∷ items))
            (map (λ e. e.id) (if b then e ∷ keep p items else keep p items))
    by_test true rest = (contains_own (map (λ e. e.id) items) e.id, rest)
    by_test false rest = rest

first-AreAmong : (ids : List String) → AreAmong ids (first_id ids)
first-AreAmong [] = tt
first-AreAmong (id ∷ ids) = (contains_own ids id, tt)

-- Two lists of ids, of past incidents and of changes.
abbrev pub ReferTo : (historical changes : List String) → List String × List String → Type 0
ReferTo historical changes (hs, cs) = AreAmong historical hs × AreAmong changes cs

chosen :
    (historical changes hs cs : List String) (id : String) (a b c d : Bool)
    → (a ≡ true → AreAmong historical (hs ++ (id ∷ [])))
    → (c ≡ true → AreAmong changes (cs ++ (id ∷ [])))
    → ReferTo historical changes (hs, cs)
    → ReferTo historical changes (
        if a && b
        then (hs ++ (id ∷ []), cs)
        else if c && d
        then (hs, cs ++ (id ∷ []))
        else (hs, cs))
chosen historical changes hs cs id true true c d f g all = (f refl, all.1)
chosen historical changes hs cs id true false true true f g all = (all.0, g refl)
chosen historical changes hs cs id true false true false f g all = all
chosen historical changes hs cs id true false false d f g all = all
chosen historical changes hs cs id false b true true f g all = (all.0, g refl)
chosen historical changes hs cs id false b true false f g all = all
chosen historical changes hs cs id false b false d f g all = all

migrate-ReferTo :
    (historical changes ids hs cs : List String)
    → ReferTo historical changes (hs, cs)
    → ReferTo historical changes (migrate historical changes ids hs cs)
unfolding migrate
migrate-ReferTo historical changes [] hs cs all = all
migrate-ReferTo historical changes (id ∷ ids) hs cs all =
    let refs = migrate_id historical changes id hs cs in
    migrate-ReferTo historical changes ids refs.0 refs.1 (
      chosen historical changes hs cs id (contains_text historical id) (not (contains_text hs id))
        (contains_text changes id) (not (contains_text cs id))
        (append-AreAmong historical hs id all.0) (append-AreAmong changes cs id all.1) all)

-- The hypothesis is new, its evidence is current, the past incidents are ones that were found, and
-- its changes are recent ones or candidates.
pub record IsGrounded (input : GenerationInput) (h : Hypothesis) : Type 0 where
  pub is_proposed : h.status ≡ proposed
  pub supported : AreAmong (evidence_ids input) h.supporting_evidence_ids
  pub contradicted : AreAmong (evidence_ids input) h.refuting_evidence_ids
  pub remembered : AreAmong input.similar_incident_ids h.historical_reference_ids
  pub related :
      AreAmong (change_ids input) h.related_change_ids
      ⊎ AreAmong (map (λ c. c.id) input.candidate_causal_changes) h.related_change_ids

accept-IsGrounded :
    (input : GenerationInput) (id : ℕ) (c : HypothesisCandidate)
    → IsGrounded input (accept_candidate input id c)
accept-IsGrounded input id c =
    let refs =
      migrate-ReferTo input.similar_incident_ids (change_ids input) c.supporting_evidence_ids
        (keep (contains_text input.similar_incident_ids) c.historical_reference_ids)
        (keep (contains_text (change_ids input)) c.related_change_ids)
        (
          keep-AreAmong input.similar_incident_ids c.historical_reference_ids,
          keep-AreAmong (change_ids input) c.related_change_ids,
        ) in
    record {
      is_proposed = refl;
      supported = keep-AreAmong (evidence_ids input) c.supporting_evidence_ids;
      contradicted = keep-AreAmong (evidence_ids input) c.refuting_evidence_ids;
      remembered = refs.0;
      related = inl refs.1;
    }

module _ (lower : String → String) (uuid : ℕ → ℕ) where
  accept_candidates-IsGrounded :
      (input : GenerationInput) (n : ℕ) (cs : List HypothesisCandidate)
      → All (IsGrounded input) (accept_candidates lower uuid input n cs)
  unfolding accept_candidates
  accept_candidates-IsGrounded input n [] = tt
  accept_candidates-IsGrounded input n (c ∷ cs) =
      (accept-IsGrounded input (uuid n) c, accept_candidates-IsGrounded input (suc n) cs)

  fallback-IsGrounded :
      (input : GenerationInput) (ids : List String)
      → AreAmong (evidence_ids input) ids
      → IsGrounded input (fallback_hypothesis lower uuid input ids)
  fallback-IsGrounded input [] all = record {
    is_proposed = refl;
    supported = kept-AreAmong _ input.evidence;
    contradicted = tt;
    remembered = first-AreAmong input.similar_incident_ids;
    related = inr (first-AreAmong (map (λ c. c.id) input.candidate_causal_changes));
  }
  fallback-IsGrounded input (id ∷ ids) all = record {
    is_proposed = refl;
    supported = all;
    contradicted = tt;
    remembered = first-AreAmong input.similar_incident_ids;
    related = inr (first-AreAmong (map (λ c. c.id) input.candidate_causal_changes));
  }

  or_fallback-IsGrounded :
      (input : GenerationInput) (hs : List Hypothesis)
      → All (IsGrounded input) hs
      → All (IsGrounded input) (or_fallback lower uuid input hs)
        × (or_fallback lower uuid input hs ≢ [])
  or_fallback-IsGrounded input [] all = (
    (
      fallback-IsGrounded input (matching_ids lower uuid pool_keywords input.evidence)
          (kept-AreAmong _ input.evidence),
      tt,
    ),
    λ e. absurd (ground arith),
  )
  or_fallback-IsGrounded input (h ∷ hs) all = (all, λ e. absurd (ground arith))

  -- Whatever the LLM answers, there is a hypothesis, and every one is new and names as evidence
  -- only ids of the current evidence, as past incidents only those that were found, and as changes
  -- only recent ones or candidates.
  pub generate_hypotheses_node-IsGrounded :
      (input : GenerationInput) (answer : Option (List HypothesisCandidate))
      → All (IsGrounded input) (generate_hypotheses_node lower uuid input answer)
        × (generate_hypotheses_node lower uuid input answer ≢ [])
  unfolding generate_hypotheses_node
  generate_hypotheses_node-IsGrounded input none = or_fallback-IsGrounded input [] tt
  generate_hypotheses_node-IsGrounded input (some response) =
      or_fallback-IsGrounded input (accept_candidates lower uuid input 0 response)
        (accept_candidates-IsGrounded input 0 response)
