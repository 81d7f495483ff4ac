-- ===== src/Examples/Audit.antt =====
-- The theorems on services/remediation_audit_service.py: the restart is decided, approved, claimed
-- and finished.
use fault_warden.Base.{◌+◌, ◌*◌, ◌≡◌, ◌≤◌, ◌<◌, ◌⊎◌, refl, true, none, some, error, ok}
use fault_warden.Schemas.{
  PolicyResult, approval_required_action, restart_registered_service, exceeds_threshold,
  level_2_human_approval_required, restart_registered_service_parameters,
}
use fault_warden.Policy.{build_action}
use fault_warden.Audit.{
  ActionRow, Store, RemediationResult, execution_succeeded, approved, succeeded, active_lease,
  wrong_status, transition_action_status,
}
use fault_warden.Audit.Operations.{
  get_action, action_row, add_action, save_action, saved, add_result, choice, approve, second,
  create_proposal, create_action_decision, record_approval_decision, claim_action_for_execution,
  record_execution_result,
}
use fault_warden.Audit.Steps.{empty_store, proposes, decides, answers, claims, Run, done, more}
use fault_warden.Audit.Lifecycle.{reachable-IsConsistent}
use fault_warden.Audit.Consistency.{IsConsistent}
use fault_warden.Audit.Progress.{Run-Persists}
use fault_warden.Audit.Evolution.{Evolves}
use fault_warden.Audit.Claims.{
  claimed_row, claim_action_for_execution-excludes, final_action_is_never_claimed,
}
use fault_warden.Audit.Decisions.{create_action_decision-idempotent}
use fault_warden.Examples.{same_case, sample_settings, restart_proposal}

abbrev restart_result : PolicyResult
restart_result =
    approval_required_action
      (build_action sample_settings 100 restart_proposal restart_registered_service
        (restart_registered_service_parameters "demo-service"))
      (exceeds_threshold level_2_human_approval_required 1)

abbrev proposed_store : Store
proposed_store = create_proposal restart_proposal empty_store

abbrev decided_row : ActionRow
decided_row = action_row 0 restart_result 1

abbrev pub decided_store : Store
decided_store = add_action decided_row proposed_store

abbrev pub approved_row : ActionRow
approved_row = record decided_row {
  status = approved;
  approved_by = some "operator";
  approved_at = some 50;
}

abbrev pub approved_store : Store
approved_store = save_action approved_row decided_store

abbrev running_row : ActionRow
running_row = claimed_row 60 120 approved_row

abbrev running_store : Store
running_store = save_action running_row approved_store

abbrev restart_outcome : RemediationResult
restart_outcome = record {
  action_id = 100;
  status = execution_succeeded;
  started_at = 61;
  completed_at = some 70;
  success = true;
  summary = "restarted";
  error = none;
}

abbrev finished_row : ActionRow
finished_row = record running_row { status = succeeded; claim_expires_at = none }

abbrev finished_store : Store
finished_store = add_result 200 restart_outcome (save_action finished_row running_store)

decision : create_action_decision 0 restart_result proposed_store ≡ ok (decided_row, decided_store)
unfolding create_action_decision create_proposal
decision = refl

approval :
    record_approval_decision same_case 50 100 (some (choice approve)) none "operator" decided_store
    ≡ ok (approved_row, approved_store)
unfolding record_approval_decision create_proposal transition_action_status
approval = refl

claim : claim_action_for_execution 60 100 120 approved_store ≡ ok (running_row, running_store)
unfolding claim_action_for_execution create_proposal transition_action_status
claim = refl

outcome : record_execution_result 200 restart_outcome running_store ≡ ok finished_store
unfolding record_execution_result create_proposal transition_action_status
outcome = refl

running_found : get_action 100 running_store ≡ some running_row
unfolding create_proposal
running_found = refl

finished_found : get_action 100 finished_store ≡ some finished_row
unfolding create_proposal
finished_found = refl

abbrev approving_run : Run same_case decided_store running_store
approving_run =
    more (more done (answers 50 100 (some (choice approve)) none "operator" approved_row approval))
      (claims 60 100 120 running_row claim)

abbrev running_run : Run same_case empty_store running_store
running_run =
    more
      (more
        (more (more done (proposes restart_proposal))
          (decides 0 restart_result decided_row decision))
        (answers 50 100 (some (choice approve)) none "operator" approved_row approval))
      (claims 60 100 120 running_row claim)

reachable-IsConsistent_example : IsConsistent running_row
reachable-IsConsistent_example =
    reachable-IsConsistent same_case running_store 100 running_row running_run running_found

decided_found : get_action 100 decided_store ≡ some decided_row
unfolding create_proposal
decided_found = refl

Run-Persists_example :
    (b : ActionRow) × (get_action 100 running_store ≡ some b) × Evolves decided_row b
Run-Persists_example = Run-Persists same_case 100 approving_run decided_row decided_found

claim_action_for_execution-excludes_example :
    ((70 < 60 + 120 * second)
      × (claim_action_for_execution 70 100 9 running_store
          ≡ error (active_lease 100 (60 + 120 * second))))
    ⊎ ((60 + 120 * second ≤ 70)
        × (claim_action_for_execution 70 100 9 running_store
            ≡ saved running_store (claimed_row 70 9 running_row)))
claim_action_for_execution-excludes_example =
    claim_action_for_execution-excludes 60 100 120 approved_store running_store running_row 70 9
      claim

final_action_is_never_claimed_example :
    claim_action_for_execution 90 100 120 finished_store ≡ error (wrong_status 100 succeeded)
final_action_is_never_claimed_example =
    final_action_is_never_claimed same_case 100 finished_store finished_store finished_row 90 120
      done finished_found tt

create_action_decision-idempotent_example :
    create_action_decision 7 restart_result decided_store ≡ ok (decided_row, decided_store)
create_action_decision-idempotent_example =
    create_action_decision-idempotent 0 7 restart_result proposed_store decided_store decided_row tt
      decision
