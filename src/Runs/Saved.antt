-- ===== src/Runs/Saved.antt =====
-- What a run that ends well has saved: the end of `run_investigation` and of
-- `resume_remediation_approval` in services/investigation_service.py.
use fault_warden.Base.{
  ℕ, ◌≡◌, inl, inr, refl, sym, ap, ◌∙◌, Bool, true, false, Option, none, some, List, [], ◌∷◌, ◌==◌,
  if◌then◌else◌, All, In, Outcome, error, ok, arith,
}
use fault_warden.Causality.{contains_text}
use fault_warden.Schemas.Change.{OperationalChange}
use fault_warden.Audit.{Store, AuditError}
use fault_warden.Investigation.{persist_remediation}
use fault_warden.Incidents.{RootCause, IncidentModel}
use fault_warden.Memory.Quality.{is_resolved_status}
use fault_warden.Postmortems.Generation.{PostmortemSynthesisResponse}
use fault_warden.Runs.Tables.{
  Database, Session, FinalState, Call, get_incident, update_row, verified_changes, status_after,
  with_outcome,
}
use fault_warden.Runs.Transactions.{
  commit, with_report, report_if, outcome_saved, commit_outcome, persist_then_commit, save_outcome,
}

abbrev pub updated : (now : ℕ) → (IncidentModel → IncidentModel) → IncidentModel → IncidentModel
updated now change i = record (change i) { id = i.id; updated_at = now }

pub update_row-Found :
    (id now : ℕ) (change : IncidentModel → IncidentModel) (rows : List IncidentModel)
    (i : IncidentModel)
    → get_incident id rows ≡ some i
    → get_incident id (update_row id now change rows) ≡ some (updated now change i)
update_row-Found id now change [] i h = absurd (ground arith)
update_row-Found id now change (r ∷ rows) i h =
    by_test (r.id == id) refl h (update_row-Found id now change rows i)
  where
    by_test :
        (b : Bool)
        → (r.id == id) ≡ b
        → (if b then some r else get_incident id rows) ≡ some i
        → (get_incident id rows ≡ some i
            → get_incident id (update_row id now change rows) ≡ some (updated now change i))
        → get_incident id ((if b then updated now change r else r) ∷ update_row id now change rows)
          ≡ some (updated now change i)
    by_test true e f rest = (let same : r ≡ i = ground arith in rw same ground (arith, e))
    by_test false e f rest = (let later = rest f in ground (arith, e))

-- A recent change that the root cause names.
abbrev pub IsVerified : FinalState → OperationalChange → Type 0
IsVerified state c =
    In c state.recent_changes
    × (cause : RootCause) × (state.root_cause ≡ some cause)
    × (contains_text cause.analysis.causal_change_ids c.id ≡ true)

verified_changes-IsVerified :
    (state : FinalState) (o : Option RootCause) (changes : List OperationalChange)
    → state.root_cause ≡ o
    → ((c : OperationalChange) → In c changes → In c state.recent_changes)
    → All (IsVerified state) (verified_changes o changes)
verified_changes-IsVerified state none changes e h = tt
verified_changes-IsVerified state (some cause) [] e h = tt
verified_changes-IsVerified state (some cause) (c ∷ changes) e h =
    by_test (contains_text cause.analysis.causal_change_ids c.id) refl
      (verified_changes-IsVerified state (some cause) changes e (λ d i. h d (inr i)))
  where
    kept : List OperationalChange
    kept = verified_changes (some cause) changes

    by_test :
        (b : Bool)
        → contains_text cause.analysis.causal_change_ids c.id ≡ b
        → All (IsVerified state) kept
        → All (IsVerified state) (if b then c ∷ kept else kept)
    by_test true named rest = ((h c (inl refl), cause, e, named), rest)
    by_test false named rest = rest

module _ {Vector : Type 0} (call : Call Vector) where
  -- A run from the tables of `base` has saved the outcome of the graph's final state.
  pub record IsSaved (before : IncidentModel) (base : Database Vector) (state : FinalState)
      (s : Session Vector) : Type 0 where
    pub complete : s.working ≡ s.committed
    pub audited :
        persist_remediation call.uuid state.remediation before.id base.audit ≡ ok s.committed.audit
    pub jobs_kept : s.committed.jobs ≡ base.jobs
    pub row : IncidentModel
    pub found : get_incident before.id s.committed.incidents ≡ some row
    pub has_status : row.status ≡ status_after state
    pub has_cause : row.root_cause ≡ state.root_cause
    pub causes_verified : All (IsVerified state) row.causal_changes

  -- A session that differs from a database at most in its reports.
  pub record IsBesideReports (db : Database Vector) (s : Session Vector) : Type 0 where
    pub same_incidents : s.committed.incidents ≡ db.incidents
    pub same_audit : s.committed.audit ≡ db.audit
    pub same_jobs : s.committed.jobs ≡ db.jobs
    pub settled : s.working ≡ s.committed

  beside : (db : Database Vector) → IsBesideReports db (commit db)
  beside db = record { same_incidents = refl; same_audit = refl; same_jobs = refl; settled = refl }

  generated-IsBesideReports :
      (b : Bool) (answer : Option PostmortemSynthesisResponse) (similar : List ℕ)
      (i : IncidentModel) (db : Database Vector)
      → IsBesideReports db (commit (if b then db else with_report call answer similar i db))
  generated-IsBesideReports true answer similar i db = beside db
  generated-IsBesideReports false answer similar i db = record {
    same_incidents = refl;
    same_audit = refl;
    same_jobs = refl;
    settled = refl;
  }

  report_if-IsBesideReports :
      (b : Bool) (answer : Option PostmortemSynthesisResponse) (similar : List ℕ)
      (o : Option IncidentModel) (db : Database Vector)
      → IsBesideReports db (report_if call b answer similar o db)
  report_if-IsBesideReports true answer similar (some i) db =
      generated-IsBesideReports call.faults.report_commit answer similar i db
  report_if-IsBesideReports true answer similar none db = beside db
  report_if-IsBesideReports false answer similar o db = beside db

  outcome_saved-IsSaved :
      (state : FinalState) (before i : IncidentModel) (db : Database Vector) (after : Store)
      (s : Session Vector)
      → persist_remediation call.uuid state.remediation before.id db.audit ≡ ok after
      → get_incident before.id db.incidents ≡ some i
      → IsBesideReports (outcome_saved call state before after db) s
      → IsSaved before db state s
  unfolding outcome_saved
  outcome_saved-IsSaved state before i db after s h found beside_reports = record {
    complete = beside_reports.settled;
    audited = h ∙ ap ok (sym beside_reports.same_audit);
    jobs_kept = beside_reports.same_jobs;
    row = updated call.now (with_outcome state before) i;
    found =
        ap (get_incident before.id) beside_reports.same_incidents
        ∙ update_row-Found before.id call.now (with_outcome state before) db.incidents i found;
    has_status = refl;
    has_cause = refl;
    causes_verified =
        verified_changes-IsVerified state state.root_cause state.recent_changes refl (λ c j. j);
  }

  -- A run that gets to its end has saved the outcome of a final state of the graph.
  abbrev pub IsEnd :
      (before : IncidentModel) (base : Database Vector)
      → Option FinalState
      → Option (Session Vector)
      → Type 0
  IsEnd before base graph none = Unit
  IsEnd before base graph (some s) =
      (state : FinalState) × (graph ≡ some state) × IsSaved before base state s

  persisted-IsEnd :
      (answer : Option PostmortemSynthesisResponse) (state : FinalState) (before i : IncidentModel)
      (db : Database Vector) (o : Outcome AuditError Store)
      → persist_remediation call.uuid state.remediation before.id db.audit ≡ o
      → get_incident before.id db.incidents ≡ some i
      → IsEnd before db (some state) (persist_then_commit call answer state before db o)
  persisted-IsEnd answer state before i db (error e) h found = tt
  persisted-IsEnd answer state before i db (ok audit) h found = by_commit call.faults.final_commit
    where
      saved : Database Vector
      saved = outcome_saved call state before audit db

      by_commit :
          (b : Bool)
          → IsEnd before db
              (some state)
              (if b then none else some (commit_outcome call answer state before saved))
      by_commit true = tt
      by_commit false = (
        state,
        refl,
        outcome_saved-IsSaved state before i db audit _ h found (
            report_if-IsBesideReports
              (if state.paused then false else is_resolved_status (status_after state)) answer
              state.similar_incidents (get_incident before.id saved.incidents) saved),
      )

  pub save_outcome-IsEnd :
      (answer : Option PostmortemSynthesisResponse) (graph : Option FinalState)
      (before i : IncidentModel) (db : Database Vector)
      → get_incident before.id db.incidents ≡ some i
      → IsEnd before db graph (save_outcome call answer graph before db)
  save_outcome-IsEnd answer none before i db found = tt
  save_outcome-IsEnd answer (some state) before i db found =
      persisted-IsEnd answer state before i db
        (persist_remediation call.uuid state.remediation before.id db.audit) refl found
