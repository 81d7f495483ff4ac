-- ===== src/Memory/Quality.antt =====
-- The rows of db/models/memory.py, and `is_eligible_for_memory` of services/memory_service.py.
use fault_warden.Base.{
  ℕ, Bool, true, false, not, Option, none, some, List, [], ◌∷◌, ◌==◌, if◌then◌else◌, find, any,
  nonempty, String, str_eq, strip_spaces,
}
use fault_warden.Schemas.Alert.{or_default}
use fault_warden.Policy.Ranking.{has_keyword}
use fault_warden.Audit.{Store}
use fault_warden.Investigation.{IncidentStatus, resolved}
use fault_warden.Incidents.{RootCause, IncidentModel}

pub data Eligibility : Type 0 where
  eligible not_resolved no_root_cause no_evidence validation_unconfirmed : Eligibility

module _ (Vector : Type 0) where
  pub record IncidentMemoryModel : Type 0 where
    pub id : ℕ
    pub incident_id : ℕ
    pub service : String
    pub classification : String
    pub severity : String
    pub symptoms_summary : String
    pub root_cause_summary : String
    pub root_cause_category : String
    pub evidence_summary : String
    pub successful_remediation_summary : String
    pub successful_action_type : Option String
    pub failed_remediation_summaries : List String
    pub validation_summary : String
    pub resolution_summary : String
    pub causal_change_summary : Option String
    pub causal_change_type : Option String
    pub postmortem_id : Option ℕ
    pub resolved_at : ℕ
    pub incident_duration : ℕ
    pub embedding : Option Vector

  unfoldable pub get_memory_by_incident_id :
      (incident_id : ℕ) → List IncidentMemoryModel → Option IncidentMemoryModel
  get_memory_by_incident_id incident_id memories = find (λ m. m.incident_id == incident_id) memories

abbrev pub causal_part : Option String → List String
causal_part none = []
causal_part (some text) =
    if str_eq text "" then [] else "\n\nCausal Change:\n" ∷ strip_spaces text ∷ []

abbrev pub is_resolved_status : IncidentStatus → Bool
is_resolved_status resolved = true
is_resolved_status _ = false

-- A passed validation of the incident is recorded.
abbrev pub has_passed_validation : (incident_id : ℕ) → Store → Bool
has_passed_validation incident_id store =
    any (λ v. if v.incident_id == incident_id then v.validation.passed else false) store.validations

module _ (lower : String → String) where
  abbrev pub check_evidence : Store → IncidentModel → Eligibility
  check_evidence store incident =
      if not (nonempty incident.evidence)
      then no_evidence
      else if has_passed_validation incident.id store
      then eligible
      else if has_keyword (lower (or_default incident.resolution ""))
          "validation did not confirm recovery"
      then validation_unconfirmed
      else eligible

  abbrev pub check_root_cause : Store → IncidentModel → Option RootCause → Eligibility
  check_root_cause store incident none = no_root_cause
  check_root_cause store incident (some cause) = check_evidence store incident

  unfoldable pub is_eligible_for_memory : Store → IncidentModel → Eligibility
  is_eligible_for_memory store incident =
      if not (is_resolved_status incident.status)
      then not_resolved
      else check_root_cause store incident incident.root_cause
