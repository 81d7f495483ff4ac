-- ===== src/Alerts.antt =====
-- services/alert_service.py, and the operations of
-- services/incident_service.py that it calls.
--
-- The incident columns that the investigation fills are left out: the alert service does not touch
-- them. Of two incidents created at one time the one first in the table is the latest. The texts of
-- a title and a summary are constructors with their values. Python's `str.lower` and `str.upper`
-- are arguments.
pub mod Updates
pub mod Deduplication
pub mod Storms
use fault_warden.Base.{
  ℕ, ltb, Bool, true, false, Option, none, some, List, [], ◌∷◌, map, ◌==◌, ◌&&◌, if◌then◌else◌,
  keep, length, String, str_eq,
}
use fault_warden.Schemas.Alert.{
  AlertmanagerPayload, get_label, primary_alertname, primary_service, primary_fingerprint,
  primary_severity, is_resolved,
}
use fault_warden.Jobs.{InvestigationJob, new_job}
use fault_warden.Investigation.{IncidentStatus, detected, resolved, incident_failed}

pub data IncidentSeverity : Type 0 where
  critical high medium low info : IncidentSeverity

pub data Title : Type 0 where
  alert_title : IncidentSeverity → (alert_name service_name : String) → Title

pub data Description : Type 0 where
  annotated : String → Description
  default_description : (alert_name : String) → Description

pub data AlertSummary : Type 0 where
  triggered : (group_key status : String) → Description → AlertSummary

pub record IncidentRow : Type 0 where
  pub id : ℕ
  pub title : Title
  pub status : IncidentStatus
  pub severity : IncidentSeverity
  pub source : String
  pub summary : AlertSummary
  pub fingerprint : Option String
  pub service : String
  pub alert_status : Option String
  pub alert_payload : AlertmanagerPayload
  pub created_at : ℕ

-- The tables, and the incidents whose investigation is scheduled in the background.
pub record AlertStore : Type 0 where
  pub incidents : List IncidentRow
  pub jobs : List InvestigationJob
  pub background_tasks : List ℕ

pub data IngestStatus : Type 0 where
  created updated alert_resolved : IngestStatus

pub record AlertIngestResponse : Type 0 where
  pub status : IngestStatus
  pub incident_id : ℕ
  pub incident_status : IncidentStatus
  pub alerts_count : ℕ
  pub fingerprint : String

-- `_SEVERITY_MAP.get(raw_severity, MEDIUM)`
abbrev pub severity_of : String → IncidentSeverity
severity_of raw =
    if str_eq raw "CRITICAL"
    then critical
    else if str_eq raw "HIGH"
    then high
    else if str_eq raw "LOW"
    then low
    else if str_eq raw "INFO"
    then info
    else medium

-- `annotations.get("description", annotations.get("summary", …))`
abbrev pub description_of :
    (description summary : Option String) → (alert_name : String) → Description
description_of (some d) s alert_name = annotated d
description_of none (some s) alert_name = annotated s
description_of none none alert_name = default_description alert_name

-- `status.not_in([RESOLVED, FAILED])`
abbrev pub is_active : IncidentStatus → Bool
is_active resolved = false
is_active incident_failed = false
is_active _ = true

-- `column == text` in SQL, false on NULL.
abbrev pub column_is : Option String → String → Bool
column_is none text = false
column_is (some t) text = str_eq t text

abbrev pub matches_active : String → IncidentRow → Bool
matches_active fingerprint i = column_is i.fingerprint fingerprint && is_active i.status

abbrev pub matches_firing : String → IncidentRow → Bool
matches_firing fingerprint i = matches_active fingerprint i && column_is i.alert_status "firing"

-- The first of the rows by `desc(created_at)`.
abbrev pub later : IncidentRow → Option IncidentRow → IncidentRow
later i none = i
later i (some other) = if ltb i.created_at other.created_at then other else i

unfoldable pub latest : List IncidentRow → Option IncidentRow
latest [] = none
latest (i ∷ rows) = some (later i (latest rows))

unfoldable pub find_active_by_fingerprint : String → List IncidentRow → Option IncidentRow
find_active_by_fingerprint fingerprint rows = latest (keep (matches_active fingerprint) rows)

unfoldable pub find_firing_by_fingerprint : String → List IncidentRow → Option IncidentRow
find_firing_by_fingerprint fingerprint rows = latest (keep (matches_firing fingerprint) rows)

-- The update of the incident with this id.
unfoldable pub update_incident :
    (id : ℕ) → (IncidentRow → IncidentRow) → List IncidentRow → List IncidentRow
update_incident id change rows = map (λ i. if i.id == id then change i else i) rows

abbrev pub fire : AlertSummary → AlertmanagerPayload → IncidentRow → IncidentRow
fire summary payload i = record i {
  alert_payload = payload;
  alert_status = some "firing";
  summary = summary;
}

abbrev pub resolve_alert : AlertmanagerPayload → IncidentRow → IncidentRow
resolve_alert payload i = record i { alert_payload = payload; alert_status = some "resolved" }

abbrev pub respond :
    IngestStatus → AlertmanagerPayload → (id : ℕ) → IncidentStatus → AlertIngestResponse
respond status payload id incident_status = record {
  status = status;
  incident_id = id;
  incident_status = incident_status;
  alerts_count = length payload.alerts;
  fingerprint = primary_fingerprint payload;
}

-- The job and the background task of a new incident.
abbrev pub enqueue : (auto_investigate : Bool) → (job_id id now : ℕ) → AlertStore → AlertStore
enqueue true job_id id now store = record store {
  jobs = new_job job_id id now 3 ∷ store.jobs;
  background_tasks = id ∷ store.background_tasks;
}
enqueue false job_id id now store = store

module _ (lower upper : String → String) where
  abbrev pub summary_of : AlertmanagerPayload → AlertSummary
  summary_of p = triggered p.group_key p.status (
      description_of (get_label "description" p.common_annotations)
        (get_label "summary" p.common_annotations) (primary_alertname p))

  -- The row of `create_incident`.
  abbrev pub new_incident :
      (id now : ℕ) → IncidentStatus → (alert_status : String) → AlertmanagerPayload → IncidentRow
  new_incident id now status alert_status p =
      let severity = severity_of (primary_severity upper p) in
      record {
        id = id;
        title = alert_title severity (primary_alertname p) (primary_service p);
        status = status;
        severity = severity;
        source = "alertmanager";
        summary = summary_of p;
        fingerprint = some (primary_fingerprint p);
        service = primary_service p;
        alert_status = some alert_status;
        alert_payload = p;
        created_at = now;
      }

  -- `_handle_firing_alert`, on the incident that its lookup finds.
  abbrev pub handle_firing_alert :
      (auto_investigate : Bool) (id job_id now : ℕ)
      → AlertmanagerPayload
      → Option IncidentRow
      → AlertStore
      → AlertStore × AlertIngestResponse
  handle_firing_alert auto id job_id now p (some i) store = (
    record store { incidents = update_incident i.id (fire (summary_of p) p) store.incidents },
    respond updated p i.id i.status,
  )
  handle_firing_alert auto id job_id now p none store = (
    enqueue auto job_id id now
        (record store { incidents = new_incident id now detected "firing" p ∷ store.incidents }),
    respond created p id detected,
  )

  -- `_handle_resolved_alert`, on the incident that its lookup finds.
  abbrev pub handle_resolved_alert :
      (id now : ℕ)
      → AlertmanagerPayload
      → Option IncidentRow
      → AlertStore
      → AlertStore × AlertIngestResponse
  handle_resolved_alert id now p (some i) store = (
    record store { incidents = update_incident i.id (resolve_alert p) store.incidents },
    respond alert_resolved p i.id i.status,
  )
  handle_resolved_alert id now p none store = (
    record store { incidents = new_incident id now resolved "resolved" p ∷ store.incidents },
    respond alert_resolved p id resolved,
  )

  -- `id` and `job_id` are fresh.
  unfoldable pub process_alertmanager_webhook :
      (auto_investigate : Bool) (id job_id now : ℕ)
      → AlertmanagerPayload
      → AlertStore
      → AlertStore × AlertIngestResponse
  process_alertmanager_webhook auto id job_id now p store =
      let fingerprint = primary_fingerprint p in
      if is_resolved lower p
      then handle_resolved_alert id now p (find_active_by_fingerprint fingerprint store.incidents)
          store
      else handle_firing_alert auto id job_id now p
          (find_firing_by_fingerprint fingerprint store.incidents) store
