-- ===== src/Runs/Failures.antt =====
-- How `run_investigation` of services/investigation_service.py ends.
use fault_warden.Base.{ℕ, ◌≡◌, ◌⊎◌, true, Option, none, some, Outcome, error, ok}
use fault_warden.Investigation.{incident_failed, count_prior_remediations}
use fault_warden.Incidents.{IncidentModel}
use fault_warden.Runs.Tables.{
  Database, Session, FinalState, Call, RunError, incident_not_found, get_incident, update_row,
  started,
}
use fault_warden.Runs.Transactions.{change_incidents}
use fault_warden.Runs.Saved.{IsSaved}

module _ {Vector : Type 0} (call : Call Vector) where
  -- The failure is recorded, or the record could not be written or has no incident to stand in.
  abbrev pub IsMarkedFailed : (id : ℕ) (committed after : Database Vector) → Type 0
  IsMarkedFailed id committed after =
      (call.faults.failure_record ≡ true)
      ⊎ ((get_incident id committed.incidents ≡ none)
          ⊎ ((row : IncidentModel) × (get_incident id after.incidents ≡ some row)
              × (row.status ≡ incident_failed)))

  -- Nothing of the run but the failure is kept: the other tables are those of `base`.
  pub record IsFailed (id : ℕ) (base : Database Vector) (s : Session Vector) : Type 0 where
    pub same_audit : s.committed.audit ≡ base.audit
    pub same_jobs : s.committed.jobs ≡ base.jobs
    pub same_postmortems : s.committed.postmortems ≡ base.postmortems
    pub same_memories : s.committed.memories ≡ base.memories
    pub settled : s.working ≡ s.committed
    pub marked : IsMarkedFailed id base s.committed

  module _ (graph : ℕ × ℕ → Option FinalState) (thread_id : ℕ) (s : Session Vector) where
    -- The database after the first commit.
    abbrev pub begun : IncidentModel → Database Vector
    begun before = change_incidents (update_row before.id call.now (started thread_id)) s.working

    abbrev pub IsTransaction :
        (before : IncidentModel) → Outcome RunError Unit × Session Vector → Type 0
    IsTransaction before (error e, after) =
        (base : Database Vector) × ((base ≡ s.committed) ⊎ (base ≡ begun before))
        × IsFailed before.id base after
    IsTransaction before (ok done, after) =
        (state : FinalState) × (graph (count_prior_remediations before.id s.working.audit)
          ≡ some state)
        × IsSaved call before (begun before) state after

    -- Where there is no such incident nothing happens.
    abbrev pub IsRun : (id : ℕ) → Outcome RunError Unit × Session Vector → Type 0
    IsRun id result =
        ((get_incident id s.working.incidents ≡ none)
          × (result ≡ (error (incident_not_found id), s)))
        ⊎ ((before : IncidentModel) × (get_incident id s.working.incidents ≡ some before)
            × IsTransaction before result)
