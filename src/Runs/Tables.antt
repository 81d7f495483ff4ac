-- ===== src/Runs/Tables.antt =====
-- The tables and sessions of the runs, and the updates of an incident by
-- services/investigation_service.py and services/incident_service.py.
use fault_warden.Base.{
  ℕ, Bool, true, false, Option, none, some, List, [], ◌∷◌, map, ◌==◌, if◌then◌else◌, find, keep,
  String, str_eq, concat,
}
use fault_warden.Schemas.{EvidenceItem, Hypothesis, RootCauseAnalysis, IncidentClassification}
use fault_warden.Causality.{contains_text}
use fault_warden.Schemas.Change.{OperationalChange}
use fault_warden.Audit.{RemediationResult, Store}
use fault_warden.Jobs.{InvestigationJob}
use fault_warden.Investigation.{
  IncidentStatus, investigating, incident_awaiting_approval, incident_failed,
  decide_terminal_status, RemediationState, ResumeError,
}
use fault_warden.Incidents.{RootCause, IncidentModel}
use fault_warden.Memory.Quality.{IncidentMemoryModel}
use fault_warden.Postmortems.Generation.{IncidentPostmortemModel}

pub record Database (Vector : Type 0) : Type 0 where
  pub incidents : List IncidentModel
  pub audit : Store
  pub jobs : List InvestigationJob
  pub postmortems : List IncidentPostmortemModel
  pub memories : List (IncidentMemoryModel Vector)

pub record Session (Vector : Type 0) : Type 0 where
  pub committed : Database Vector
  pub working : Database Vector

-- The keys of the graph's final state that are saved; `paused` tells whether it has an interrupt.
pub record FinalState : Type 0 where
  pub paused : Bool
  pub evidence : List EvidenceItem
  pub hypotheses : List Hypothesis
  pub root_cause : Option RootCause
  pub remediation : RemediationState
  pub remediation_validation_passed : Option Bool
  pub recent_changes : List OperationalChange
  pub candidate_causal_changes : List OperationalChange
  pub summary : String
  pub classification : Option IncidentClassification
  pub iteration_count : ℕ
  pub similar_incidents : List ℕ

-- Which writes raise.
pub record Faults : Type 0 where
  pub first_commit : Bool
  pub final_commit : Bool
  pub report_commit : Bool
  pub failure_record : Bool

-- What a call depends on: `str.lower`, the embedding, the times at which the database made the
-- proposals, the uuid4 draws, the writes that raise, and the time.
pub record Call (Vector : Type 0) : Type 0 where
  pub lower : String → String
  pub embed : String → Option Vector
  pub proposal_created_at : ℕ → ℕ
  pub uuid : ℕ → ℕ
  pub report_id : ℕ
  pub memory_id : ℕ
  pub faults : Faults
  pub now : ℕ

pub data RunError : Type 0 where
  incident_not_found : (id : ℕ) → RunError
  execution_failed : RunError

pub data ResumptionError : Type 0 where
  unknown_incident : (id : ℕ) → ResumptionError
  not_resumed : ResumeError → ResumptionError
  resume_failed : ResumptionError

abbrev pub get_incident : (id : ℕ) → List IncidentModel → Option IncidentModel
get_incident id rows = find (λ i. i.id == id) rows

-- `update_incident`, of the row with this id; `updated_at` is set by the database.
abbrev pub update_row :
    (id now : ℕ) → (IncidentModel → IncidentModel) → List IncidentModel → List IncidentModel
update_row id now change rows =
    map (λ i. if i.id == id then record (change i) { id = i.id; updated_at = now } else i) rows

-- The recent changes that the root cause names.
abbrev pub verified_changes : Option RootCause → List OperationalChange → List OperationalChange
verified_changes none changes = []
verified_changes (some cause) changes =
    keep (λ c. contains_text cause.analysis.causal_change_ids c.id) changes

abbrev pub analysis_of : Option RootCause → Option RootCauseAnalysis
analysis_of none = none
analysis_of (some cause) = some cause.analysis

abbrev pub result_summary : Option RemediationResult → String
result_summary none = "recovery confirmed."
result_summary (some r) = r.summary

-- The text that goes with `decide_terminal_status`.
abbrev pub resolution_text :
    (validation_passed : Option Bool) → Option RemediationResult → Option String
resolution_text none r = none
resolution_text (some true) r =
    some (concat ("Remediation executed and validated: " ∷ result_summary r ∷ []))
resolution_text (some false) r =
    some
      "Remediation executed but post-remediation validation did not confirm recovery; incident remains active for further investigation or manual intervention."

unfoldable pub status_after : FinalState → IncidentStatus
status_after state =
    if state.paused
    then incident_awaiting_approval
    else (decide_terminal_status state.remediation_validation_passed
        state.remediation.remediation_proposals (analysis_of state.root_cause)).0

-- A pause leaves the resolution as it is.
abbrev pub resolution_after : FinalState → Option String → Option String
resolution_after state before =
    if state.paused
    then before
    else resolution_text state.remediation_validation_passed state.remediation.remediation_result

-- `summary_val or incident.summary`
abbrev pub summary_or : String → Option String → Option String
summary_or text before = if str_eq text "" then before else some text

-- The update at the end of a run; `before` is the incident as the run has read it.
abbrev pub with_outcome : FinalState → (before i : IncidentModel) → IncidentModel
with_outcome state before i = record i {
  status = status_after state;
  evidence = state.evidence;
  hypotheses = state.hypotheses;
  root_cause = state.root_cause;
  proposed_remediations = state.remediation.remediation_proposals;
  recent_changes = state.recent_changes;
  candidate_causal_changes = state.candidate_causal_changes;
  causal_changes = verified_changes state.root_cause state.recent_changes;
  summary = summary_or state.summary before.summary;
  classification = state.classification;
  iteration_count = state.iteration_count;
  resolution = resolution_after state i.resolution;
}

abbrev pub started : (thread_id : ℕ) → IncidentModel → IncidentModel
started thread_id i = record i { status = investigating; langgraph_thread_id = some thread_id }

-- `message` is the text of the exception.
abbrev pub failure : (message : String) → IncidentModel → IncidentModel
failure message i = record i {
  status = incident_failed;
  summary = some (concat ("Investigation failed with error: " ∷ message ∷ []));
}
