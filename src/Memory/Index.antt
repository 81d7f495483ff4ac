-- ===== src/Memory/Index.antt =====
-- `build_canonical_memory_text` and `index_incident_memory` of services/memory_service.py.
use Prim.Native.String as Text
use fault_warden.Base.{
  ℕ, ◌-◌, Bool, not, Option, none, some, List, [], ◌∷◌, map, ◌==◌, if◌then◌else◌, find, keep, any,
  take, nonempty, String, str_eq, concat, join, strip_spaces, ltb,
}
use fault_warden.Schemas.{EvidenceItem, IncidentClassification}
use fault_warden.Schemas.Alert.{get_label, or_default, truthy, first_text}
use fault_warden.Schemas.Change.{OperationalChange, ChangeType}
use fault_warden.Correlations.{evidence_type_text}
use fault_warden.Audit.{ActionRow, ResultRow, ValidationRow, Store}
use fault_warden.Audit.Operations.{list_actions_for_incident}
use fault_warden.Incidents.{RootCause, IncidentModel}
use fault_warden.Memory.Quality.{
  Eligibility, IncidentMemoryModel, causal_part, eligible, get_memory_by_incident_id,
  is_eligible_for_memory,
}

-- `x or y or ... or z` on texts.
abbrev pub or_text : Option String → String → String
or_text o d = or_default (truthy o) d

abbrev pub symptoms_of : IncidentModel → String
symptoms_of i = or_text (get_label "summary" i.alert_payload.common_annotations) (
    or_text (get_label "description" i.alert_payload.common_annotations)
      (or_text i.summary i.title))

abbrev pub classification_of : IncidentModel → Option IncidentClassification → String
classification_of i (some c) = c.category
classification_of i none = or_default (get_label "alertname" i.alert_payload.group_labels) "UNKNOWN"

abbrev pub evidence_line : EvidenceItem → String
evidence_line e = concat ("- [" ∷ evidence_type_text e.evidence_type ∷ "] " ∷ e.summary ∷ [])

abbrev pub evidence_summary_of : List EvidenceItem → String
evidence_summary_of [] = "Telemetry evidence corroborated the incident."
evidence_summary_of (e ∷ es) = join "\n" (map evidence_line (take 6 (e ∷ es)))

-- The results of these actions, in the table's order.
abbrev pub is_result_of : List ActionRow → ResultRow → Bool
is_result_of actions r = any (λ a. a.id == r.result.action_id) actions

abbrev pub results_of_actions : List ActionRow → Store → List ResultRow
results_of_actions actions store = keep (is_result_of actions) store.results

abbrev pub action_type_of : Option ActionRow → Option String
action_type_of none = none
action_type_of (some a) = some a.action_type

-- The summary and the action type of the first result that is a success.
abbrev pub successful_part : List ActionRow → Option ResultRow → String × Option String
successful_part actions none = ("Remediation executed successfully.", none)
successful_part actions (some r) =
    (r.result.summary, action_type_of (find (λ a. a.id == r.result.action_id) actions))

abbrev pub first_row : List ResultRow → Option ResultRow
first_row [] = none
first_row (r ∷ rs) = some r

-- The validation that started last; of equal times the first row.
abbrev pub later_validation : ValidationRow → Option ValidationRow → ValidationRow
later_validation v none = v
later_validation v (some w) = if ltb v.validation.started_at w.validation.started_at then w else v

abbrev pub latest_validation : List ValidationRow → Option ValidationRow
latest_validation [] = none
latest_validation (v ∷ vs) = some (later_validation v (latest_validation vs))

abbrev pub validation_summary_of : Option ValidationRow → String
validation_summary_of none = "Post-remediation telemetry validated full recovery."
validation_summary_of (some v) = v.validation.summary

abbrev pub change_type_text : ChangeType → String
change_type_text ChangeType.git_commit = "GIT_COMMIT"
change_type_text ChangeType.deployment = "DEPLOYMENT"
change_type_text ChangeType.configuration = "CONFIGURATION"
change_type_text ChangeType.release = "RELEASE"
change_type_text ChangeType.unknown_type = "UNKNOWN"

abbrev pub first_change_type : List OperationalChange → Option String
first_change_type [] = none
first_change_type (c ∷ cs) = some (change_type_text c.change_type)

abbrev pub type_or_first : Option String → List OperationalChange → Option String
type_or_first (some t) changes =
    if str_eq t "" then first_text (first_change_type changes) (some "") else some t
type_or_first none changes = first_change_type changes

-- The summary and the type of the causal change, only where the root cause names verified ones.
abbrev pub causal_context : IncidentModel → Option RootCause → Option String × Option String
causal_context i none = (none, none)
causal_context i (some cause) =
    if nonempty cause.analysis.causal_change_ids
    then (cause.causal_change_summary, type_or_first cause.causal_change_type i.causal_changes)
    else (none, none)

abbrev pub cause_summary : Option RootCause → String
cause_summary none = "Root cause verified."
cause_summary (some cause) = cause.analysis.summary

abbrev pub cause_category : Option RootCause → String
cause_category none = "UNKNOWN"
cause_category (some cause) = cause.analysis.root_cause_category

-- `build_canonical_memory_text`
unfoldable pub build_canonical_memory_text :
    (service classification severity symptoms_summary root_cause_summary evidence_summary
      successful_remediation_summary validation_summary resolution_summary : String)
    (causal_change_summary : Option String)
    → String
build_canonical_memory_text service classification severity symptoms cause evidence remediation
      validation resolution causal =
    Text.◌++◌
      (concat (
        "Service: "
        ∷ service
        ∷ "\nClassification: "
        ∷ classification
        ∷ "\nSeverity: "
        ∷ severity
        ∷ "\nSymptoms:\n"
        ∷ strip_spaces symptoms
        ∷ "\n\nRoot Cause:\n"
        ∷ strip_spaces cause
        ∷ "\n\nEvidence:\n"
        ∷ strip_spaces evidence
        ∷ "\n\nSuccessful Remediation:\n"
        ∷ strip_spaces remediation
        ∷ "\n\nValidation:\n"
        ∷ strip_spaces validation
        ∷ "\n\nResolution:\n"
        ∷ strip_spaces resolution
        ∷ []))
      (concat (causal_part causal))

-- The memory of an incident, without its embedding.
abbrev pub memory_of :
    (Vector : Type 0) (id : ℕ) (postmortem_id : Option ℕ)
    → Store
    → IncidentModel
    → IncidentMemoryModel Vector
memory_of Vector id postmortem_id store i =
    let actions = list_actions_for_incident i.id store in
    let results = results_of_actions actions store in
    let success = successful_part actions (first_row (keep (λ r. r.result.success) results)) in
    let causal = causal_context i i.root_cause in
    record {
      id = id;
      incident_id = i.id;
      service = or_text i.service "unknown";
      classification = classification_of i i.classification;
      severity = i.severity;
      symptoms_summary = symptoms_of i;
      root_cause_summary = cause_summary i.root_cause;
      root_cause_category = cause_category i.root_cause;
      evidence_summary = evidence_summary_of i.evidence;
      successful_remediation_summary = success.0;
      successful_action_type = success.1;
      failed_remediation_summaries =
          map (λ r. r.result.summary) (keep (λ r. not r.result.success) results);
      validation_summary =
          validation_summary_of
            (latest_validation (keep (λ v. v.incident_id == i.id) store.validations));
      resolution_summary = or_text i.resolution "Incident resolved and verified.";
      causal_change_summary = causal.0;
      causal_change_type = causal.1;
      postmortem_id = postmortem_id;
      resolved_at = i.updated_at;
      incident_duration = i.updated_at - i.created_at;
      embedding = none;
    }

module _ {Vector : Type 0} where
  abbrev pub canonical_text_of : IncidentMemoryModel Vector → String
  canonical_text_of m =
      build_canonical_memory_text m.service (or_text (some m.classification) "UNKNOWN") m.severity
        m.symptoms_summary m.root_cause_summary m.evidence_summary m.successful_remediation_summary
        m.validation_summary m.resolution_summary m.causal_change_summary

  abbrev pub store_memory :
      IncidentMemoryModel Vector
      → Option Vector
      → List (IncidentMemoryModel Vector)
      → Option (IncidentMemoryModel Vector) × List (IncidentMemoryModel Vector)
  store_memory m none memories = (none, memories)
  store_memory m (some v) memories =
      let row = record m { embedding = some v } in (some row, row ∷ memories)

  module _ (lower : String → String) (embed : String → Option Vector) where
    abbrev pub index_new :
        (id : ℕ) (postmortem_id : Option ℕ)
        → Store
        → IncidentModel
        → List (IncidentMemoryModel Vector)
        → Option (IncidentMemoryModel Vector) × List (IncidentMemoryModel Vector)
    index_new id postmortem_id store i memories =
        let m = memory_of Vector id postmortem_id store i in
        store_memory m (embed (canonical_text_of m)) memories

    abbrev pub index_unless_existing :
        (id : ℕ) (postmortem_id : Option ℕ)
        → Store
        → IncidentModel
        → List (IncidentMemoryModel Vector)
        → Option (IncidentMemoryModel Vector)
        → Option (IncidentMemoryModel Vector) × List (IncidentMemoryModel Vector)
    index_unless_existing id postmortem_id store i memories (some existing) =
        (some existing, memories)
    index_unless_existing id postmortem_id store i memories none =
        index_new id postmortem_id store i memories

    abbrev pub index_if :
        Eligibility
        → (id : ℕ) (postmortem_id : Option ℕ) → Store
        → IncidentModel
        → List (IncidentMemoryModel Vector)
        → Option (IncidentMemoryModel Vector) × List (IncidentMemoryModel Vector)
    index_if eligible id postmortem_id store i memories =
        index_unless_existing id postmortem_id store i memories
          (get_memory_by_incident_id Vector i.id memories)
    index_if _ id postmortem_id store i memories = (none, memories)

    -- `id` is a fresh uuid4.
    unfoldable pub index_incident_memory :
        (id : ℕ) (postmortem_id : Option ℕ)
        → Store
        → IncidentModel
        → List (IncidentMemoryModel Vector)
        → Option (IncidentMemoryModel Vector) × List (IncidentMemoryModel Vector)
    index_incident_memory id postmortem_id store i memories =
        index_if (is_eligible_for_memory lower store i) id postmortem_id store i memories
