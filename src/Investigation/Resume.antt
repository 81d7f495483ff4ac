-- ===== src/Investigation/Resume.antt =====
-- What services/investigation_service.py checks before it resumes a paused run of the graph.
use fault_warden.Base.{ℕ, ◌-◌, ◌*◌, ◌≡◌, ◌≤◌, some, [], ◌∷◌, String, if◌then◌else◌}
use fault_warden.Audit.{RemediationStatus, approved, rejected, ActionRow, Store}
use fault_warden.Audit.Operations.{ApprovalDecision, second, save_action}
use fault_warden.Investigation.{incident_awaiting_approval, Incident, awaiting_actions, approves}

abbrev pub answered_status : ApprovalDecision → RemediationStatus
answered_status d = if approves d then approved else rejected

module _ (upper : String → String) (created_at : ℕ → ℕ) (timeout_seconds : ℕ) where
  -- The answer is recorded for the one action that waited, in time.
  pub record IsAnswer (incident : Incident) (now : ℕ) (d : ApprovalDecision) (by : String)
      (s : Store) (row : ActionRow) (t : Store) : Type 0 where
    pub awaiting : incident.status ≡ incident_awaiting_approval
    pub action : ActionRow
    pub only : awaiting_actions incident.id s ≡ action ∷ []
    pub in_time : now - created_at action.id ≤ timeout_seconds * second
    pub set_status : row.status ≡ answered_status d
    pub set_operator : row.approved_by ≡ some by
    pub saved_row : t ≡ save_action row s
