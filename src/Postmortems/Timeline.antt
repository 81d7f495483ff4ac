-- ===== src/Postmortems/Timeline.antt =====
-- The timeline of a postmortem, `_build_factual_timeline` of services/postmortem_service.py.
use fault_warden.Base.{ℕ, List, ◌++◌, map}
use fault_warden.Incidents.{IncidentModel}
use fault_warden.Postmortems.Entries.{
  PostmortemTimelineEntry, RemediationHistory, change_entry, cause_entry, proposal_entry, approvals,
  result_entry, validation_entry, resolved_entries, entry_of,
}

module _ (created_at : ℕ → ℕ) (i : IncidentModel) (history : RemediationHistory) where
  abbrev changes_part : List PostmortemTimelineEntry
  changes_part = map change_entry i.recent_changes

  abbrev resolved_part : List PostmortemTimelineEntry
  resolved_part = resolved_entries i

  abbrev validations_part : List PostmortemTimelineEntry
  validations_part = map validation_entry history.validations ++ resolved_part

  abbrev results_part : List PostmortemTimelineEntry
  results_part = map result_entry history.results ++ validations_part

  abbrev approvals_part : List PostmortemTimelineEntry
  approvals_part = approvals history.actions ++ results_part

  abbrev proposals_part : List PostmortemTimelineEntry
  proposals_part = map (λ p. proposal_entry (created_at p.id) p) history.proposals ++ approvals_part

  abbrev cause_part : List PostmortemTimelineEntry
  cause_part = entry_of (cause_entry i) i.root_cause ++ proposals_part
