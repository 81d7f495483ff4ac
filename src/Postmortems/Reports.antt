-- ===== src/Postmortems/Reports.antt =====
-- Which postmortems services/postmortem_service.py keeps, and what the LLM may change in them.
use fault_warden.Base.{
  ℕ, ◌≡◌, ◌⊎◌, inl, inr, refl, ap, Option, none, some, List, [], ◌∷◌, ==_iff, arith,
}
use fault_warden.Audit.{Store}
use fault_warden.Incidents.{IncidentModel}
use fault_warden.Postmortems.Entries.{fetch_remediation_history}
use fault_warden.Postmortems.Generation.{
  PostmortemSynthesisResponse, IncidentPostmortemModel, get_postmortem_by_incident_id, report_of,
  generate_unless_existing, generate_and_persist_postmortem,
}

-- The postmortem without the prose.
abbrev pub facts_of : IncidentPostmortemModel → IncidentPostmortemModel
facts_of p = record p { impact_summary = ""; lessons_learned = []; follow_up_actions = [] }

module _ (created_at : ℕ → ℕ) where
  -- The postmortem was there, or it is a new one, the incident's only one.
  abbrev pub IsKept :
      (id now : ℕ)
      → Option PostmortemSynthesisResponse
      → (similar : List ℕ) → Store
      → IncidentModel
      → List IncidentPostmortemModel
      → IncidentPostmortemModel × List IncidentPostmortemModel
      → Type 0
  IsKept id now answer similar store i postmortems (p, after) =
      ((get_postmortem_by_incident_id i.id postmortems ≡ some p) × (after ≡ postmortems))
      ⊎ ((get_postmortem_by_incident_id i.id postmortems ≡ none)
          × (p
              ≡ report_of created_at id now answer similar
                  (fetch_remediation_history created_at i.id store) i)
          × (after ≡ p ∷ postmortems))

  found_first :
      (p : IncidentPostmortemModel) (postmortems : List IncidentPostmortemModel)
      → get_postmortem_by_incident_id p.incident_id (p ∷ postmortems) ≡ some p
  unfolding get_postmortem_by_incident_id
  found_first p postmortems = let own = (==_iff p.incident_id p.incident_id).1 refl in ground arith

  generate-IsKept :
      (id now : ℕ) (answer : Option PostmortemSynthesisResponse) (similar : List ℕ) (store : Store)
      (i : IncidentModel) (postmortems : List IncidentPostmortemModel)
      (o : Option IncidentPostmortemModel)
      → get_postmortem_by_incident_id i.id postmortems ≡ o
      → (get_postmortem_by_incident_id i.id
            (generate_unless_existing created_at id now answer similar store i postmortems o).1
          ≡ some
              (generate_unless_existing created_at id now answer similar store i postmortems o).0)
        × IsKept id now answer similar store i postmortems
            (generate_unless_existing created_at id now answer similar store i postmortems o)
  generate-IsKept id now answer similar store i postmortems (some p) h = (h, inl (h, refl))
  generate-IsKept id now answer similar store i postmortems none h = (
    found_first
        (report_of created_at id now answer similar
          (fetch_remediation_history created_at i.id store) i)
        postmortems,
    inr (h, refl, refl),
  )

  -- Asking for the postmortem of an incident gives the one that is found under it from then on, and
  -- another call, whatever has changed, gives it again and adds none. A new one differs with the
  -- LLM's answer in its prose only: the timeline, the causes and the summaries are the recorded ones.
  pub generate_and_persist_postmortem-IsKept :
      (id now : ℕ) (answer : Option PostmortemSynthesisResponse) (similar : List ℕ) (store : Store)
      (i : IncidentModel) (postmortems : List IncidentPostmortemModel) (id2 now2 : ℕ)
      (answer2 : Option PostmortemSynthesisResponse) (similar2 : List ℕ) (store2 : Store)
      → let r =
          generate_and_persist_postmortem created_at id now answer similar store i postmortems in
        IsKept id now answer similar store i postmortems r
        × (get_postmortem_by_incident_id i.id r.1 ≡ some r.0)
        × (generate_and_persist_postmortem created_at id2 now2 answer2 similar2 store2 i r.1 ≡ r)
        × (facts_of
              (generate_and_persist_postmortem created_at id now answer2 similar store i
                postmortems).0
            ≡ facts_of r.0)
  unfolding generate_and_persist_postmortem
  generate_and_persist_postmortem-IsKept id now answer similar store i postmortems id2 now2 answer2
        similar2 store2 =
      let found = get_postmortem_by_incident_id i.id postmortems in
      let kept = generate-IsKept id now answer similar store i postmortems found refl in
      (
        kept.1,
        kept.0,
        ap (generate_unless_existing created_at id2 now2 answer2 similar2 store2 i _) kept.0,
        same_facts found,
      )
    where
      same_facts :
          (o : Option IncidentPostmortemModel)
          → facts_of
              (generate_unless_existing created_at id now answer2 similar store i postmortems o).0
            ≡ facts_of
                (generate_unless_existing created_at id now answer similar store i postmortems o).0
      same_facts (some p) = refl
      same_facts none = refl
