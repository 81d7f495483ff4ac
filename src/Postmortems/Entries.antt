-- ===== src/Postmortems/Entries.antt =====
-- The timeline of services/postmortem_service.py: `_fetch_remediation_history` and
-- `_build_factual_timeline`.
use fault_warden.Base.{
  ℕ, Bool, true, false, Option, none, some, List, [], ◌∷◌, ◌++◌, map, ◌==◌, if◌then◌else◌, keep,
  String, concat, sort_by,
}
use fault_warden.Schemas.Alert.{get_label, or_default}
use fault_warden.Schemas.Change.{OperationalChange, ChangeType, deployment}
use fault_warden.Audit.{ProposalRow, ActionRow, ResultRow, ValidationRow, Store}
use fault_warden.Audit.Operations.{list_actions_for_incident}
use fault_warden.Incidents.{RootCause, IncidentModel}
use fault_warden.Memory.Quality.{is_resolved_status}
use fault_warden.Memory.Index.{or_text, results_of_actions}

pub data EventType : Type 0 where
  deployment_completed git_commit alert_fired incident_created root_cause_verified
        remediation_proposed remediation_approved remediation_executed validation_passed
        validation_failed incident_resolved :
      EventType

pub record PostmortemTimelineEntry : Type 0 where
  pub timestamp : ℕ
  pub event_type : EventType
  pub summary : String

-- What `_fetch_remediation_history` gives.
pub record RemediationHistory : Type 0 where
  pub proposals : List ProposalRow
  pub actions : List ActionRow
  pub results : List ResultRow
  pub validations : List ValidationRow

module _ (proposal_created_at : ℕ → ℕ) where
  -- The actions are listed as `list_actions_for_incident` lists them.
  unfoldable pub fetch_remediation_history : (incident_id : ℕ) → Store → RemediationHistory
  fetch_remediation_history incident_id store =
      let actions = list_actions_for_incident incident_id store in
      record {
        proposals =
            sort_by (λ p. proposal_created_at p.id)
              (keep (λ p. p.incident_id == incident_id) store.proposals);
        actions = actions;
        results = sort_by (λ r. r.result.started_at) (results_of_actions actions store);
        validations =
            sort_by (λ v. v.validation.started_at)
              (keep (λ v. v.incident_id == incident_id) store.validations);
      }

abbrev pub change_event : ChangeType → EventType
change_event deployment = deployment_completed
change_event _ = git_commit

abbrev pub change_entry : OperationalChange → PostmortemTimelineEntry
change_entry c = record {
  timestamp = c.timestamp;
  event_type = change_event c.change_type;
  summary = concat (c.title ∷ " [" ∷ c.id ∷ "] on service '" ∷ c.service ∷ "'." ∷ []);
}

-- `groupLabels.alertname`, or the title.
abbrev pub alert_name : IncidentModel → String
alert_name i = or_default (get_label "alertname" i.alert_payload.group_labels) i.title

abbrev pub alert_entry : IncidentModel → (starts_at : ℕ) → PostmortemTimelineEntry
alert_entry i starts_at = record {
  timestamp = starts_at;
  event_type = alert_fired;
  summary = concat ("Alert '" ∷ alert_name i ∷ "' fired from " ∷ i.source ∷ "." ∷ []);
}

abbrev pub created_entry : IncidentModel → PostmortemTimelineEntry
created_entry i = record {
  timestamp = i.created_at;
  event_type = incident_created;
  summary = concat (
      "Incident record '" ∷ i.title ∷ "' created in FaultWarden (severity: " ∷ i.severity ∷ ")."
      ∷ []);
}

abbrev pub time_or : Option ℕ → ℕ → ℕ
time_or none t = t
time_or (some t) u = t

abbrev pub cause_entry : IncidentModel → RootCause → PostmortemTimelineEntry
cause_entry i cause = record {
  timestamp = time_or cause.identified_at i.created_at;
  event_type = root_cause_verified;
  summary = concat ("Root cause verified: " ∷ cause.analysis.summary ∷ []);
}

abbrev pub proposal_entry : (created_at : ℕ) → ProposalRow → PostmortemTimelineEntry
proposal_entry created_at p = record {
  timestamp = created_at;
  event_type = remediation_proposed;
  summary =
      concat ("Remediation proposed: '" ∷ p.title ∷ "' (action: " ∷ p.action_type ∷ ")." ∷ []);
}

abbrev pub approval_entry : ActionRow → (approved_at : ℕ) → PostmortemTimelineEntry
approval_entry a approved_at = record {
  timestamp = approved_at;
  event_type = remediation_approved;
  summary =
      concat (
        "Action '"
        ∷ a.action_type
        ∷ "' approved by "
        ∷ or_text a.approved_by "operator"
        ∷ "."
        ∷ []);
}

abbrev pub approvals_before :
    ActionRow
    → (approved_at : Option ℕ) → List PostmortemTimelineEntry
    → List PostmortemTimelineEntry
approvals_before a none rest = rest
approvals_before a (some approved_at) rest = approval_entry a approved_at ∷ rest

abbrev pub approvals : List ActionRow → List PostmortemTimelineEntry
approvals [] = []
approvals (a ∷ as_) = approvals_before a a.approved_at (approvals as_)

-- `str` of a bool.
abbrev pub bool_text : Bool → String
bool_text true = "True"
bool_text false = "False"

abbrev pub result_entry : ResultRow → PostmortemTimelineEntry
result_entry r = record {
  timestamp = r.result.started_at;
  event_type = remediation_executed;
  summary = concat (
      "Remediation action executed: "
      ∷ r.result.summary
      ∷ " (success: "
      ∷ bool_text r.result.success
      ∷ ")."
      ∷ []);
}

abbrev pub validation_entry : ValidationRow → PostmortemTimelineEntry
validation_entry v = record {
  timestamp = v.validation.started_at;
  event_type = if v.validation.passed then validation_passed else validation_failed;
  summary = concat (
      "Multi-signal recovery validation: "
      ∷ v.validation.summary
      ∷ " (passed: "
      ∷ bool_text v.validation.passed
      ∷ ")."
      ∷ []);
}

abbrev pub resolved_entry : IncidentModel → PostmortemTimelineEntry
resolved_entry i = record {
  timestamp = i.updated_at;
  event_type = incident_resolved;
  summary =
      concat ("Incident confirmed resolved: " ∷ or_text i.resolution "Service recovered." ∷ []);
}

abbrev pub resolved_entries : IncidentModel → List PostmortemTimelineEntry
resolved_entries i = if is_resolved_status i.status then resolved_entry i ∷ [] else []

-- `if value:` around an `append`.
abbrev pub entry_of :
    {A : Type 0} → (A → PostmortemTimelineEntry) → Option A → List PostmortemTimelineEntry
entry_of entry none = []
entry_of entry (some a) = entry a ∷ []

module _ (proposal_created_at : ℕ → ℕ) where
  abbrev pub timeline_entries : IncidentModel → RemediationHistory → List PostmortemTimelineEntry
  timeline_entries i history =
      map change_entry i.recent_changes
      ++ (entry_of (alert_entry i) i.alert_payload.starts_at
          ++ (created_entry i
              ∷ (entry_of (cause_entry i) i.root_cause
                  ++ (map (λ p. proposal_entry (proposal_created_at p.id) p) history.proposals
                      ++ (approvals history.actions
                          ++ (map result_entry history.results
                              ++ (map validation_entry history.validations
                                  ++ resolved_entries i)))))))

  unfoldable pub build_factual_timeline :
      IncidentModel → RemediationHistory → List PostmortemTimelineEntry
  build_factual_timeline i history = sort_by (λ entry. entry.timestamp) (timeline_entries i history)
