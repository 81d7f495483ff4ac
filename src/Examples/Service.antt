-- ===== src/Examples/Service.antt =====
-- The theorems on services/investigation_service.py at the sample incident.
use fault_warden.Base.{◌≡◌, ◌↔◌, refl, true, none, some, [], ◌∷◌}
use fault_warden.Schemas.{allowed_action}
use fault_warden.Audit.{RemediationStatus, ActionRow, Store}
use fault_warden.Audit.Operations.{create_proposal, add_action, action_row, save_action, add_result}
use fault_warden.Audit.Steps.{empty_store}
use fault_warden.Graph.{State, validate_remediation_node}
use fault_warden.Investigation.{incident_awaiting_approval, Incident, RemediationState}
use fault_warden.Investigation.Status.{Resolves, HasRecovered, incident_is_resolved_iff}
use fault_warden.Examples.{reset_proposal, sample_cause}
use fault_warden.Examples.Graph.{start_state, reset_outcome, reset_action}

abbrev pub executed_state : State
executed_state = record start_state {
  remediation_policy_result = some (allowed_action reset_action);
  remediation_result = some reset_outcome;
}

abbrev pub validated_state : State
validated_state = record executed_state { remediation_validation_passed = some true }

validated : validate_remediation_node executed_state (some true) ≡ some validated_state
unfolding validate_remediation_node
validated = refl

incident_is_resolved_iff_example :
    Resolves (reset_proposal ∷ []) (some sample_cause) (some true)
    ↔ HasRecovered (some reset_outcome) (some true)
incident_is_resolved_iff_example =
    incident_is_resolved_iff (reset_proposal ∷ []) (some sample_cause) executed_state
      validated_state (some true) validated

abbrev finished_run : RemediationState
finished_run = record {
  remediation_proposals = reset_proposal ∷ [];
  remediation_all_policy_results = allowed_action reset_action ∷ [];
  remediation_policy_result = some (allowed_action reset_action);
  remediation_result = some reset_outcome;
  remediation_validation_result = none;
}

abbrev reset_row : ActionRow
reset_row = action_row 0 (allowed_action reset_action) 1

abbrev persisted_store : Store
persisted_store = add_result 100 reset_outcome (
    save_action (record reset_row { status = RemediationStatus.succeeded; claim_expires_at = none })
      (add_action reset_row (create_proposal reset_proposal empty_store)))

abbrev waiting_incident : Incident
waiting_incident = record {
  id = 1;
  status = incident_awaiting_approval;
  langgraph_thread_id = some 77;
}
