-- ===== src/Runs/Resumption.antt =====
-- How `resume_remediation_approval` of services/investigation_service.py ends.
use fault_warden.Base.{
  ℕ, ◌≡◌, ◌⊎◌, inl, inr, refl, ap, ◌∙◌, Option, none, some, String, Outcome, error, ok, find-key,
}
use fault_warden.Audit.{ActionRow, Store}
use fault_warden.Audit.Operations.{ApprovalDecision}
use fault_warden.Investigation.{Incident, ResumeError, resume_remediation_approval}
use fault_warden.Incidents.{IncidentModel}
use fault_warden.Postmortems.Generation.{PostmortemSynthesisResponse}
use fault_warden.Runs.Tables.{
  Database, Session, FinalState, Call, ResumptionError, unknown_incident, not_resumed,
  resume_failed, get_incident,
}
use fault_warden.Runs.Transactions.{
  save_outcome, end_resumption, resume_answered, resume_found, resume_run,
}
use fault_warden.Runs.Saved.{IsSaved, IsEnd, save_outcome-IsEnd}

abbrev pub as_incident : IncidentModel → Incident
as_incident i = record { id = i.id; status = i.status; langgraph_thread_id = i.langgraph_thread_id }

module _ {Vector : Type 0} (call : Call Vector) (upper : String → String) (created_at : ℕ → ℕ)
    (timeout_seconds : ℕ) (graph : ApprovalDecision → Option FinalState)
    (decision : ApprovalDecision) (approved_by : String) (s : Session Vector) where
  -- The checks of the incident and the record of the answer.
  abbrev pub checked : IncidentModel → Outcome ResumeError (ActionRow × Store)
  checked before =
      resume_remediation_approval upper created_at timeout_seconds (as_incident before) call.now
        decision approved_by s.working.audit

  abbrev pub IsAtomic : IncidentModel → Outcome ResumptionError Unit × Session Vector → Type 0
  IsAtomic before (error (unknown_incident id), after) = ⊥
  IsAtomic before (error (not_resumed e), after) = (checked before ≡ error e) × (after ≡ s)
  IsAtomic before (error resume_failed, after) =
      (after.committed ≡ s.committed) × (after.working ≡ s.committed)
  IsAtomic before (ok done, after) =
      (action : ActionRow) × (audit : Store) × (checked before ≡ ok (action, audit))
      × (state : FinalState) × (graph decision ≡ some state)
      × IsSaved call before (record (s.working) { audit = audit }) state after

  end_resumption-IsAtomic :
      (before : IncidentModel) (action : ActionRow) (audit : Store) (o : Option (Session Vector))
      → checked before ≡ ok (action, audit)
      → IsEnd call before (record (s.working) { audit = audit }) (graph decision) o
      → IsAtomic before (end_resumption call s o)
  end_resumption-IsAtomic before action audit none h end = (refl, refl)
  end_resumption-IsAtomic before action audit (some after) h end =
      (action, audit, h, end.0, end.1, end.2)

  resume_answered-IsAtomic :
      (answer : Option PostmortemSynthesisResponse) (before : IncidentModel)
      (o : Outcome ResumeError (ActionRow × Store))
      → get_incident before.id s.working.incidents ≡ some before
      → checked before ≡ o
      → IsAtomic before (resume_answered call graph answer decision before s o)
  resume_answered-IsAtomic answer before (error e) found h = (h, refl)
  resume_answered-IsAtomic answer before (ok (action, audit)) found h =
      let db : Database Vector = record (s.working) { audit = audit } in
      end_resumption-IsAtomic before action audit
        (save_outcome call answer (graph decision) before db) h
        (save_outcome-IsEnd call answer (graph decision) before before db found)

  abbrev pub IsResumption : (id : ℕ) → Outcome ResumptionError Unit × Session Vector → Type 0
  IsResumption id result =
      ((get_incident id s.working.incidents ≡ none) × (result ≡ (error (unknown_incident id), s)))
      ⊎ ((before : IncidentModel) × (get_incident id s.working.incidents ≡ some before)
          × IsAtomic before result)

  -- An answer to a waiting action is saved as a whole or not at all. If the checks reject it,
  -- nothing changes; if the graph, the persistence or the commit raises, the committed tables are
  -- what they were, so even the recorded answer is gone; otherwise the checks accepted the answer
  -- and the outcome of the graph that was resumed with this decision is saved on top of it.
  pub resume_run-IsResumption :
      (answer : Option PostmortemSynthesisResponse) (id : ℕ)
      → IsResumption id
          (resume_run call upper created_at timeout_seconds graph answer decision approved_by id s)
  unfolding resume_run
  resume_run-IsResumption answer id = by_incident (get_incident id s.working.incidents) refl
    where
      by_incident :
          (o : Option IncidentModel)
          → get_incident id s.working.incidents ≡ o
          → IsResumption id (
              resume_found call upper created_at timeout_seconds graph answer decision approved_by
                id s o)
      by_incident none e = inl (e, refl)
      by_incident (some before) e =
          let own : before.id ≡ id = find-key (λ i. i.id) id s.working.incidents before e in
          inr (
            before,
            e,
            resume_answered-IsAtomic answer before (checked before)
                (ap (λ k. get_incident k s.working.incidents) own ∙ e) refl,
          )
