-- ===== src/Postmortems/Events.antt =====
-- The events that the timeline of services/postmortem_service.py shows, and that it shows no other.
use fault_warden.Base.{
  append-All, map_each-All, ℕ, ◌≡◌, inl, inr, refl, All, Bool, true, false, Option, none, some,
  List, [], ◌∷◌, map, if◌then◌else◌, In,
}
use fault_warden.Schemas.Change.{OperationalChange}
use fault_warden.Audit.{ProposalRow, ActionRow, ResultRow, ValidationRow}
use fault_warden.Investigation.{resolved}
use fault_warden.Incidents.{RootCause, IncidentModel}
use fault_warden.Memory.Quality.{is_resolved_status}
use fault_warden.Memory.Indexing.{is_resolved_status_iff}
use fault_warden.Postmortems.Entries.{
  PostmortemTimelineEntry, RemediationHistory, change_entry, alert_entry, created_entry,
  cause_entry, proposal_entry, approval_entry, approvals_before, approvals, result_entry,
  validation_entry, resolved_entry, entry_of, timeline_entries,
}

module _ (created_at : ℕ → ℕ) (i : IncidentModel) (history : RemediationHistory) where
  -- The entries for what is recorded of an incident, each with the record that it is about.
  pub data IsEvent : PostmortemTimelineEntry → Type 0 where
    changed : (c : OperationalChange) → In c i.recent_changes → IsEvent (change_entry c)
    fired : (t : ℕ) → i.alert_payload.starts_at ≡ some t → IsEvent (alert_entry i t)
    was_created : IsEvent (created_entry i)
    caused : (c : RootCause) → i.root_cause ≡ some c → IsEvent (cause_entry i c)
    was_proposed :
        (p : ProposalRow) → In p history.proposals → IsEvent (proposal_entry (created_at p.id) p)
    was_answered :
        (a : ActionRow) (t : ℕ)
        → In a history.actions
        → a.approved_at ≡ some t
        → IsEvent (approval_entry a t)
    was_executed : (r : ResultRow) → In r history.results → IsEvent (result_entry r)
    was_validated : (v : ValidationRow) → In v history.validations → IsEvent (validation_entry v)
    was_resolved : i.status ≡ resolved → IsEvent (resolved_entry i)

  optional-All :
      {A : Type 0} (entry : A → PostmortemTimelineEntry) (o : Option A)
      → ((a : A) → o ≡ some a → IsEvent (entry a))
      → All IsEvent (entry_of entry o)
  optional-All entry none h = tt
  optional-All entry (some a) h = (h a refl, tt)

  approvals_before-All :
      (a : ActionRow) (o : Option ℕ) (rest : List PostmortemTimelineEntry)
      → ((t : ℕ) → o ≡ some t → IsEvent (approval_entry a t))
      → All IsEvent rest
      → All IsEvent (approvals_before a o rest)
  approvals_before-All a none rest h all = all
  approvals_before-All a (some t) rest h all = (h t refl, all)

  approvals-All :
      (rows : List ActionRow)
      → ((a : ActionRow) → In a rows → In a history.actions)
      → All IsEvent (approvals rows)
  approvals-All [] h = tt
  approvals-All (a ∷ rows) h =
      approvals_before-All a a.approved_at (approvals rows)
        (λ t e. was_answered a t (h a (inl refl)) e) (approvals-All rows (λ b j. h b (inr j)))

  resolved-All :
      (b : Bool)
      → is_resolved_status i.status ≡ b
      → All IsEvent (if b then resolved_entry i ∷ [] else [])
  resolved-All true e = (was_resolved ((is_resolved_status_iff i.status).0 e), tt)
  resolved-All false e = tt

  pub timeline_entries-All : All IsEvent (timeline_entries created_at i history)
  timeline_entries-All =
      append-All IsEvent (map change_entry i.recent_changes) _
        (map_each-All IsEvent change_entry i.recent_changes changed)
        (append-All IsEvent (entry_of (alert_entry i) i.alert_payload.starts_at) _
          (optional-All (alert_entry i) i.alert_payload.starts_at fired)
          (
            was_created,
            append-All IsEvent (entry_of (cause_entry i) i.root_cause) _
                (optional-All (cause_entry i) i.root_cause caused)
                (append-All IsEvent
                  (map (λ p. proposal_entry (created_at p.id) p) history.proposals) _
                  (map_each-All IsEvent _ history.proposals was_proposed)
                  (append-All IsEvent (approvals history.actions) _
                    (approvals-All history.actions (λ a j. j))
                    (append-All IsEvent (map result_entry history.results) _
                      (map_each-All IsEvent result_entry history.results was_executed)
                      (append-All IsEvent (map validation_entry history.validations) _
                        (map_each-All IsEvent validation_entry history.validations was_validated)
                        (resolved-All (is_resolved_status i.status) refl))))),
          ))
