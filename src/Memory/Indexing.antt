-- ===== src/Memory/Indexing.antt =====
-- Which incidents services/memory_service.py remembers, and how often.
use fault_warden.Base.{
  ℕ, ◌≡◌, ◌≢◌, ◌↔◌, ◌⊎◌, inl, inr, refl, ap, ◌∙◌, Bool, true, false, not, Option, none, some, List,
  [], ◌∷◌, ==_iff, if◌then◌else◌, nonempty, String, arith,
}
use fault_warden.Schemas.{EvidenceItem}
use fault_warden.Schemas.Alert.{or_default}
use fault_warden.Policy.Ranking.{has_keyword}
use fault_warden.Audit.{Store}
use fault_warden.Investigation.{
  IncidentStatus, detected, triaging, investigating, root_cause_identified, remediation_proposed,
  incident_awaiting_approval, remediating, validating, resolved, incident_failed,
}
use fault_warden.Incidents.{RootCause, IncidentModel}
use fault_warden.Memory.Quality.{
  Eligibility, eligible, not_resolved, no_root_cause, no_evidence, validation_unconfirmed,
  IncidentMemoryModel, get_memory_by_incident_id, is_resolved_status, has_passed_validation,
  check_evidence, check_root_cause, is_eligible_for_memory,
}
use fault_warden.Memory.Index.{
  type_or_first, causal_context, memory_of, canonical_text_of, store_memory, index_unless_existing,
  index_if, index_incident_memory,
}

abbrev no_texts : Option String × Option String
no_texts = (none, none)

pub is_resolved_status_iff : (s : IncidentStatus) → (is_resolved_status s ≡ true) ↔ (s ≡ resolved)
is_resolved_status_iff resolved = ((λ h. refl), (λ h. refl))
is_resolved_status_iff detected = ((λ h. absurd (ground arith)), (λ h. absurd (ground arith)))
is_resolved_status_iff triaging = ((λ h. absurd (ground arith)), (λ h. absurd (ground arith)))
is_resolved_status_iff investigating = ((λ h. absurd (ground arith)), (λ h. absurd (ground arith)))
is_resolved_status_iff root_cause_identified =
    ((λ h. absurd (ground arith)), (λ h. absurd (ground arith)))
is_resolved_status_iff remediation_proposed =
    ((λ h. absurd (ground arith)), (λ h. absurd (ground arith)))
is_resolved_status_iff incident_awaiting_approval =
    ((λ h. absurd (ground arith)), (λ h. absurd (ground arith)))
is_resolved_status_iff remediating = ((λ h. absurd (ground arith)), (λ h. absurd (ground arith)))
is_resolved_status_iff validating = ((λ h. absurd (ground arith)), (λ h. absurd (ground arith)))
is_resolved_status_iff incident_failed =
    ((λ h. absurd (ground arith)), (λ h. absurd (ground arith)))

module _ (lower : String → String) where
  -- The resolution text says that the recovery was not confirmed.
  abbrev pub SaysUnconfirmed : IncidentModel → Type 0
  SaysUnconfirmed i =
      has_keyword (lower (or_default i.resolution "")) "validation did not confirm recovery" ≡ true

  -- What the quality policy asks of an incident.
  pub record IsTrusted (store : Store) (i : IncidentModel) : Type 0 where
    pub is_resolved : i.status ≡ resolved
    pub has_cause : i.root_cause ≢ none
    pub has_evidence : i.evidence ≢ []
    pub confirmed : (has_passed_validation i.id store ≡ true) ⊎ (¬ SaysUnconfirmed i)

  evidence_checked :
      (store : Store) (i : IncidentModel)
      → check_evidence lower store i ≡ eligible
      → (i.evidence ≢ []) × ((has_passed_validation i.id store ≡ true) ⊎ (¬ SaysUnconfirmed i))
  evidence_checked store i h =
      by_tests i.evidence (has_passed_validation i.id store)
        (has_keyword (lower (or_default i.resolution "")) "validation did not confirm recovery") h
    where
      by_tests :
          (es : List EvidenceItem) (p u : Bool)
          → (if not (nonempty es)
              then no_evidence
              else if p
              then eligible
              else if u
              then validation_unconfirmed
              else eligible)
            ≡ eligible
          → (es ≢ []) × ((p ≡ true) ⊎ (¬ (u ≡ true)))
      by_tests [] p u e = absurd (ground arith)
      by_tests (x ∷ xs) true u e = (λ n. absurd (ground arith), inl refl)
      by_tests (x ∷ xs) false true e = absurd (ground arith)
      by_tests (x ∷ xs) false false e =
          (λ n. absurd (ground arith), inr (λ y. absurd (ground arith)))

  eligible-IsTrusted :
      (store : Store) (i : IncidentModel)
      → is_eligible_for_memory lower store i ≡ eligible
      → IsTrusted store i
  unfolding is_eligible_for_memory
  eligible-IsTrusted store i h = by_tests (is_resolved_status i.status) refl i.root_cause refl h
    where
      by_tests :
          (b : Bool)
          → is_resolved_status i.status ≡ b
          → (o : Option RootCause) → i.root_cause ≡ o
          → (if not b then not_resolved else check_root_cause lower store i o) ≡ eligible
          → IsTrusted store i
      by_tests true e none f g = absurd (ground arith)
      by_tests true e (some c) f g =
          let (evidence, confirmed) = evidence_checked store i g in
          record {
            is_resolved = (is_resolved_status_iff i.status).0 e;
            has_cause = λ missing. absurd (ground arith);
            has_evidence = evidence;
            confirmed = confirmed;
          }
      by_tests false e o f g = absurd (ground arith)

  module _ {Vector : Type 0} (embed : String → Option Vector) where
    -- The memory has no causal change unless the root cause names verified ones.
    abbrev pub HasVerifiedContext : IncidentModel → IncidentMemoryModel Vector → Type 0
    HasVerifiedContext i m =
        (c : RootCause)
        → i.root_cause ≡ some c
        → nonempty c.analysis.causal_change_ids ≡ false
        → (m.causal_change_summary ≡ none) × (m.causal_change_type ≡ none)

    no_context :
        (i : IncidentModel) (c : RootCause)
        → i.root_cause ≡ some c
        → nonempty c.analysis.causal_change_ids ≡ false
        → causal_context i i.root_cause ≡ no_texts
    no_context i c e none_named =
        ap (causal_context i) e ∙ by_ids (nonempty c.analysis.causal_change_ids) none_named
      where
        by_ids :
            (b : Bool)
            → b ≡ false
            → (if b
                then (c.causal_change_summary, type_or_first c.causal_change_type i.causal_changes)
                else (none, none))
              ≡ no_texts
        by_ids false h = refl
        by_ids true h = absurd (ground arith)

    -- A memory that was added: of a trusted incident that had none.
    pub record IsAdded (store : Store) (i : IncidentModel)
        (memories after : List (IncidentMemoryModel Vector)) (m : IncidentMemoryModel Vector)
        : Type 0 where
      pub trusted : IsTrusted store i
      pub is_new : get_memory_by_incident_id Vector i.id memories ≡ none
      pub of_incident : m.incident_id ≡ i.id
      pub embedded : (v : Vector) × (m.embedding ≡ some v)
      pub verified_context : HasVerifiedContext i m
      pub added : after ≡ m ∷ memories

    abbrev pub IsIndexed :
        Store
        → IncidentModel
        → List (IncidentMemoryModel Vector)
        → Option (IncidentMemoryModel Vector) × List (IncidentMemoryModel Vector)
        → Type 0
    IsIndexed store i memories (none, after) = after ≡ memories
    IsIndexed store i memories (some m, after) =
        (get_memory_by_incident_id Vector i.id after ≡ some m)
        × ((after ≡ memories) ⊎ IsAdded store i memories after m)

    found_head :
        (m : IncidentMemoryModel Vector) (memories : List (IncidentMemoryModel Vector))
        → get_memory_by_incident_id Vector m.incident_id (m ∷ memories) ≡ some m
    unfolding get_memory_by_incident_id
    found_head m memories = let own = (==_iff m.incident_id m.incident_id).1 refl in ground arith

    stored-IsIndexed :
        (id : ℕ) (p : Option ℕ) (store : Store) (i : IncidentModel)
        (memories : List (IncidentMemoryModel Vector)) (o : Option Vector)
        → IsTrusted store i
        → get_memory_by_incident_id Vector i.id memories ≡ none
        → IsIndexed store i memories (store_memory (memory_of Vector id p store i) o memories)
    stored-IsIndexed id p store i memories none trusted missing = refl
    stored-IsIndexed id p store i memories (some v) trusted missing = (
      found_head _ memories,
      inr (record {
        trusted = trusted;
        is_new = missing;
        of_incident = refl;
        embedded = (v, refl);
        verified_context = λ c e named.
            (let context = no_context i c e named in
              (ap (λ q. q.0) context, ap (λ q. q.1) context));
        added = refl;
      }),
    )

    existing-IsIndexed :
        (id : ℕ) (p : Option ℕ) (store : Store) (i : IncidentModel)
        (memories : List (IncidentMemoryModel Vector)) (o : Option (IncidentMemoryModel Vector))
        → IsTrusted store i
        → get_memory_by_incident_id Vector i.id memories ≡ o
        → IsIndexed store i memories (index_unless_existing lower embed id p store i memories o)
    existing-IsIndexed id p store i memories (some m) trusted found = (found, inl refl)
    existing-IsIndexed id p store i memories none trusted missing =
        stored-IsIndexed id p store i memories
          (embed (canonical_text_of (memory_of Vector id p store i))) trusted missing

    -- A call either leaves the memories alone and gives nothing, or gives the memory that is then
    -- found under the incident. One is added only if the incident has none, is resolved with a root
    -- cause and evidence, and its recovery was validated or at least not denied by its resolution.
    pub index_incident_memory-IsIndexed :
        (id : ℕ) (p : Option ℕ) (store : Store) (i : IncidentModel)
        (memories : List (IncidentMemoryModel Vector))
        → IsIndexed store i memories (index_incident_memory lower embed id p store i memories)
    unfolding index_incident_memory
    index_incident_memory-IsIndexed id p store i memories =
        by_policy (is_eligible_for_memory lower store i) refl
      where
        by_policy :
            (e : Eligibility)
            → is_eligible_for_memory lower store i ≡ e
            → IsIndexed store i memories (index_if lower embed e id p store i memories)
        by_policy eligible h =
            existing-IsIndexed id p store i memories
              (get_memory_by_incident_id Vector i.id memories) (eligible-IsTrusted store i h) refl
        by_policy not_resolved h = refl
        by_policy no_root_cause h = refl
        by_policy no_evidence h = refl
        by_policy validation_unconfirmed h = refl

    index_again :
        (id : ℕ) (p : Option ℕ) (store : Store) (i : IncidentModel) (m : IncidentMemoryModel Vector)
        (memories : List (IncidentMemoryModel Vector))
        → is_eligible_for_memory lower store i ≡ eligible
        → get_memory_by_incident_id Vector i.id memories ≡ some m
        → index_incident_memory lower embed id p store i memories ≡ (some m, memories)
    unfolding index_incident_memory
    index_again id p store i m memories trusted found =
        ap (λ e. index_if lower embed e id p store i memories) trusted
        ∙ ap (index_unless_existing lower embed id p store i memories) found

    -- What is indexed is found again, and indexing an incident that has a memory gives that memory
    -- and adds none, with whatever has changed in between.
    pub indexed_memory_is_found :
        (id id2 : ℕ) (p p2 : Option ℕ) (store store2 : Store) (i : IncidentModel)
        (m : IncidentMemoryModel Vector) (memories : List (IncidentMemoryModel Vector))
        → (index_incident_memory lower embed id p store i memories).0 ≡ some m
        → is_eligible_for_memory lower store2 i ≡ eligible
        → let after = (index_incident_memory lower embed id p store i memories).1 in
          (get_memory_by_incident_id Vector i.id after ≡ some m)
          × (index_incident_memory lower embed id2 p2 store2 i after ≡ (some m, after))
    indexed_memory_is_found id id2 p p2 store store2 i m memories h ok =
        by_result (index_incident_memory lower embed id p store i memories)
          (index_incident_memory-IsIndexed id p store i memories) h
      where
        by_result :
            (r : Option (IncidentMemoryModel Vector) × List (IncidentMemoryModel Vector))
            → IsIndexed store i memories r
            → r.0 ≡ some m
            → (get_memory_by_incident_id Vector i.id r.1 ≡ some m)
              × (index_incident_memory lower embed id2 p2 store2 i r.1 ≡ (some m, r.1))
        by_result (none, after) indexed e = absurd (ground arith)
        by_result (some n, after) indexed e =
            let found = indexed.0 ∙ e in (found, index_again id2 p2 store2 i m after ok found)
