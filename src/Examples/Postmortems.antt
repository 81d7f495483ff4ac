-- ===== src/Examples/Postmortems.antt =====
-- The theorems on services/postmortem_service.py: the resolved incident of the demo service.
use fault_warden.Base.{ℕ, ◌≡◌, none, some, []}
use fault_warden.Postmortems.Entries.{RemediationHistory, fetch_remediation_history}
use fault_warden.Postmortems.Generation.{
  PostmortemSynthesisResponse, get_postmortem_by_incident_id, generate_and_persist_postmortem,
}
use fault_warden.Postmortems.Reports.{facts_of, IsKept, generate_and_persist_postmortem-IsKept}
use fault_warden.Examples.Memory.{no_rows, resolved_incident}

abbrev pub made_at : ℕ → ℕ
made_at id = 6

abbrev sample_history : RemediationHistory
sample_history = fetch_remediation_history made_at 1 no_rows

abbrev sample_prose : PostmortemSynthesisResponse
sample_prose = record { impact_summary = "errors"; lessons_learned = []; follow_up_actions = [] }

generate_and_persist_postmortem-IsKept_example :
    let r = generate_and_persist_postmortem made_at 3 30 none [] no_rows resolved_incident [] in
    IsKept made_at 3 30 none [] no_rows resolved_incident [] r
    × (get_postmortem_by_incident_id 1 r.1 ≡ some r.0)
    × (generate_and_persist_postmortem made_at 4 40
          (some sample_prose)
          []
          no_rows
          resolved_incident
          r.1
        ≡ r)
    × (facts_of
          (generate_and_persist_postmortem made_at 3 30
            (some sample_prose)
            []
            no_rows
            resolved_incident
            []).0
        ≡ facts_of r.0)
generate_and_persist_postmortem-IsKept_example =
    generate_and_persist_postmortem-IsKept made_at 3 30 none [] no_rows resolved_incident [] 4 40
      (some sample_prose) [] no_rows
