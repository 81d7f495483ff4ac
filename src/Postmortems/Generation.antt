-- ===== src/Postmortems/Generation.antt =====
-- `_synthesize_prose` and `generate_and_persist_postmortem` of services/postmortem_service.py.
use fault_warden.Base.{
  ℕ, ◌-◌, Option, none, some, List, [], ◌∷◌, map, ◌==◌, if◌then◌else◌, find, keep, take, nonempty,
  String, concat, join,
}
use fault_warden.Schemas.Change.{OperationalChange}
use fault_warden.Audit.{ResultRow, ValidationRow, Store}
use fault_warden.Incidents.{RootCause, IncidentModel}
use fault_warden.Memory.Index.{or_text, evidence_line, cause_category}
use fault_warden.Postmortems.Entries.{
  PostmortemTimelineEntry, RemediationHistory, alert_name, build_factual_timeline,
  fetch_remediation_history,
}

pub record PostmortemSynthesisResponse : Type 0 where
  pub impact_summary : String
  pub lessons_learned : List String
  pub follow_up_actions : List String

-- `_synthesize_prose`, from the LLM's answer.
unfoldable pub synthesize_prose :
    Option PostmortemSynthesisResponse
    → IncidentModel
    → (root_cause_summary root_cause_category : String) → PostmortemSynthesisResponse
synthesize_prose (some response) i summary category = response
synthesize_prose none i summary category = record {
  impact_summary = concat (
      "Service '"
      ∷ or_text i.service "system"
      ∷ "' experienced a "
      ∷ i.severity
      ∷ " severity incident. "
      ∷ or_text i.summary "Automated telemetry detected elevated errors."
      ∷ []);
  lessons_learned =
      concat ("Root cause was verified as " ∷ category ∷ ": " ∷ summary ∷ [])
      ∷ "Automated remediation and telemetry recovery validation successfully restored healthy service state."
      ∷ [];
  follow_up_actions =
      concat
        ("Review telemetry alerts and thresholds for '" ∷ or_text i.service "system" ∷ "'." ∷ [])
      ∷ concat (
          "Ensure runbook automation and remediation safeguards for '" ∷ category
          ∷ "' remain up to date." ∷ [])
      ∷ [];
}

pub record IncidentPostmortemModel : Type 0 where
  pub id : ℕ
  pub incident_id : ℕ
  pub title : String
  pub impact_summary : String
  pub detection_summary : String
  pub timeline : List PostmortemTimelineEntry
  pub root_cause_summary : String
  pub root_cause_category : String
  pub contributing_factors : List String
  pub evidence_summary : String
  pub recent_changes : List OperationalChange
  pub causal_change_summary : Option String
  pub remediation_summary : String
  pub validation_summary : String
  pub resolution_summary : String
  pub lessons_learned : List String
  pub follow_up_actions : List String
  pub similar_historical_incidents : List ℕ
  pub started_at : ℕ
  pub resolved_at : ℕ
  pub duration : ℕ
  pub generated_at : ℕ

unfoldable pub get_postmortem_by_incident_id :
    (incident_id : ℕ) → List IncidentPostmortemModel → Option IncidentPostmortemModel
get_postmortem_by_incident_id incident_id postmortems =
    find (λ p. p.incident_id == incident_id) postmortems

abbrev pub report_cause_summary : Option RootCause → String
report_cause_summary none = "Root cause undetermined."
report_cause_summary (some cause) = cause.analysis.summary

abbrev pub factors_of : Option RootCause → List String
factors_of none = []
factors_of (some cause) = cause.contributing_factors

-- The summary of the causal change, only where the root cause names verified ones.
abbrev pub causal_summary_of : Option RootCause → Option String
causal_summary_of none = none
causal_summary_of (some cause) =
    if nonempty cause.analysis.causal_change_ids then cause.causal_change_summary else none

abbrev pub evidence_text_of : IncidentModel → String
evidence_text_of i =
    if nonempty i.evidence
    then join "\n" (map evidence_line (take 10 i.evidence))
    else "Telemetry evidence corroborated the failure mode."

abbrev pub first_result_summary : List ResultRow → String
first_result_summary [] = "No remediation action recorded."
first_result_summary (r ∷ rs) = r.result.summary

abbrev pub first_validation_summary : List ValidationRow → String → String
first_validation_summary [] otherwise = otherwise
first_validation_summary (v ∷ vs) otherwise = v.validation.summary

abbrev pub detection_of : IncidentModel → String
detection_of i =
    if i.alert_payload.present
    then concat (
        "Detected via "
        ∷ i.source
        ∷ " alert '"
        ∷ alert_name i
        ∷ "' for service '"
        ∷ or_text i.service "unknown"
        ∷ "'."
        ∷ [])
    else concat ("Detected via " ∷ i.source ∷ "." ∷ [])

module _ (proposal_created_at : ℕ → ℕ) where
  -- `id` is a fresh uuid4.
  abbrev pub report_of :
      (id now : ℕ)
      → Option PostmortemSynthesisResponse
      → (similar_incident_ids : List ℕ) → RemediationHistory
      → IncidentModel
      → IncidentPostmortemModel
  report_of id now answer similar history i =
      let summary = report_cause_summary i.root_cause in
      let category = cause_category i.root_cause in
      let prose = synthesize_prose answer i summary category in
      record {
        id = id;
        incident_id = i.id;
        title = concat ("Postmortem: " ∷ i.title ∷ []);
        impact_summary = prose.impact_summary;
        detection_summary = detection_of i;
        timeline = build_factual_timeline proposal_created_at i history;
        root_cause_summary = summary;
        root_cause_category = category;
        contributing_factors = factors_of i.root_cause;
        evidence_summary = evidence_text_of i;
        recent_changes = i.recent_changes;
        causal_change_summary = causal_summary_of i.root_cause;
        remediation_summary = first_result_summary (keep (λ r. r.result.success) history.results);
        validation_summary =
            first_validation_summary (keep (λ v. v.validation.passed) history.validations) (
              first_validation_summary history.validations "Validation confirmed system recovery.");
        resolution_summary = or_text i.resolution "Incident successfully resolved and validated.";
        lessons_learned = prose.lessons_learned;
        follow_up_actions = prose.follow_up_actions;
        similar_historical_incidents = similar;
        started_at = i.created_at;
        resolved_at = i.updated_at;
        duration = i.updated_at - i.created_at;
        generated_at = now;
      }

  abbrev pub generate_unless_existing :
      (id now : ℕ)
      → Option PostmortemSynthesisResponse
      → (similar_incident_ids : List ℕ) → Store
      → IncidentModel
      → List IncidentPostmortemModel
      → Option IncidentPostmortemModel
      → IncidentPostmortemModel × List IncidentPostmortemModel
  generate_unless_existing id now answer similar store i postmortems (some existing) =
      (existing, postmortems)
  generate_unless_existing id now answer similar store i postmortems none =
      let report =
        report_of id now answer similar (fetch_remediation_history proposal_created_at i.id store)
          i in
      (report, report ∷ postmortems)

  unfoldable pub generate_and_persist_postmortem :
      (id now : ℕ)
      → Option PostmortemSynthesisResponse
      → (similar_incident_ids : List ℕ) → Store
      → IncidentModel
      → List IncidentPostmortemModel
      → IncidentPostmortemModel × List IncidentPostmortemModel
  generate_and_persist_postmortem id now answer similar store i postmortems =
      generate_unless_existing id now answer similar store i postmortems
        (get_postmortem_by_incident_id i.id postmortems)
