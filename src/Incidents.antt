-- ===== src/Incidents.antt =====
-- db/models/incident.py, db/models/memory.py and db/models/postmortem.py: the rows that the
-- investigation, the incident memory and the postmortem read and write.
--
-- JSON columns hold the values that their dicts are dumps of. A time is a number of microseconds.
use fault_warden.Base.{ℕ, Bool, Option, List, String}
use fault_warden.Schemas.{
  EvidenceItem, Hypothesis, RootCauseAnalysis, RemediationProposal, IncidentClassification,
}
use fault_warden.Schemas.Change.{OperationalChange}
use fault_warden.Investigation.{IncidentStatus}

-- What is read of `alert_payload`: whether it is a nonempty dict, its labels and annotations, which
-- are empty where it has none, and the start of its first alert, none where that cannot be read.
pub record AlertPayload : Type 0 where
  pub present : Bool
  pub group_labels : List (String × String)
  pub common_annotations : List (String × String)
  pub starts_at : Option ℕ

-- A root cause with the texts that the verification adds to it.
pub record RootCause : Type 0 where
  pub analysis : RootCauseAnalysis
  pub causal_change_summary : Option String
  pub causal_change_type : Option String
  pub contributing_factors : List String
  pub identified_at : Option ℕ

-- The `resolution` of a run: the executor's summary, or that the recovery was not confirmed.
pub record IncidentModel : Type 0 where
  pub id : ℕ
  pub title : String
  pub status : IncidentStatus
  pub severity : String
  pub source : String
  pub summary : Option String
  pub service : Option String
  pub langgraph_thread_id : Option ℕ
  pub alert_payload : AlertPayload
  pub evidence : List EvidenceItem
  pub hypotheses : List Hypothesis
  pub root_cause : Option RootCause
  pub proposed_remediations : List RemediationProposal
  pub resolution : Option String
  pub classification : Option IncidentClassification
  pub recent_changes : List OperationalChange
  pub candidate_causal_changes : List OperationalChange
  pub causal_changes : List OperationalChange
  pub iteration_count : ℕ
  pub created_at : ℕ
  pub updated_at : ℕ
