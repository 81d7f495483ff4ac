-- ===== src/Lib.antt =====
-- Verification of FaultWarden: the deterministic core that decides what an incident investigation
-- may conclude and which remediation may be executed.
--
-- An alert opens an incident (services/alert_service.py) and puts a job in the queue
-- (services/job_worker.py). A worker claims the job and runs the investigation graph
-- (graph/builder.py): evidence is gathered, an LLM proposes hypotheses and remediations, and code
-- decides. graph/nodes/verify.py promotes a hypothesis to a root cause, with the changes that pass
-- the gate of core/causality.py; core/policy.py decides on the proposals and selects one, within
-- the limits of graph/nodes/remediation_policy.py; a human answers where an approval is needed;
-- and services/remediation_audit_service.py keeps the decisions, approvals, claims and results in
-- the database.
--
-- Files and code (all paths below src/faultwarden/):
--
-- Base and its children: the names that all modules share, tests, lists and predicates on
--   them, sorting, Python's methods of texts, lookups by key, and outcomes of code that may
--   raise.
-- Schemas, Schemas/Change, Schemas/Alert: schemas/remediation.py, schemas/hypothesis.py,
--   schemas/evidence.py, schemas/change.py, schemas/alert.py, and the settings of
--   core/config.py.
-- Policy: `evaluate_policy` and the registry of core/policy.py; Policy/Targets describes the
--   parameters that are accepted and Policy/Decisions the decisions. Policy/Eligibility:
--   `check_remediation_eligibility`. Policy/Ranking: `_calculate_action_suitability` and
--   `evaluate_and_rank_proposals`; Policy/Selection and Policy/Advisory are about them.
-- Limits: graph/nodes/remediation_policy.py, with `_enforce_remediation_limits`;
--   Limits/Enforcement is about the limits alone, and Limits/Gate says what an action that
--   passes has met.
-- Causality: `verify_causal_change_association` of core/causality.py; Causality/Gate compares
--   it with its documented requirements.
-- Verify: `verify_hypothesis_node` of graph/nodes/verify.py; Verify/Promotion and
--   Verify/Verdict are about its outcome.
-- Audit: the rows and `transition_action_status` of services/remediation_audit_service.py;
--   Audit/Operations: the methods of `RemediationAuditService`, one function each; Audit/Rows,
--   Audit/Consistency and Audit/Evolution: what they do to one row; Audit/Steps: runs of
--   calls; Audit/Lifecycle, Audit/Progress, Audit/Claims and Audit/Decisions: their
--   invariants.
-- Jobs: `JobWorker` of services/job_worker.py (`claim_next_job`, `process_job`, `run_once`);
--   Jobs/Claim, Jobs/Queue, Jobs/Retries and Jobs/Worker are about it.
-- Graph: the routes of graph/builder.py and the nodes of graph/nodes/remediation_approval.py,
--   graph/nodes/remediation_execution.py and graph/nodes/finalize.py; Graph/Steps: the edges
--   as a step relation; Graph/Routes, Graph/Termination, Graph/Safety, Graph/Progress and
--   Graph/Approval are about its runs.
-- Investigation: `_decide_terminal_status`, `_count_prior_remediations`,
--   `_persist_remediation` and the checks of `resume_remediation_approval` in
--   services/investigation_service.py; Investigation/Status, Investigation/Persistence and
--   Investigation/Resume are about them.
-- Executors: integrations/executors/demo_service.py, registered_service.py and
--   `execute_remediation_action` of their package; Executors/Requests and Executors/Contract
--   are about them.
-- Recovery: `RecoveryValidator` of services/recovery_validator.py and
--   `check_remediation_recovered` of integrations/executors/__init__.py; Recovery/Checks and
--   Recovery/Rates say when a check passes, Recovery/Errors how it is reported, and
--   Recovery/Verdict and Recovery/Service are about the two validators.
-- Alerts: `AlertService.process_alertmanager_webhook` of services/alert_service.py, and the
--   operations of services/incident_service.py that it calls; Alerts/Updates is about the
--   lookups and updates of the incident table, Alerts/Deduplication about a fingerprint's
--   incidents, Alerts/Storms about an alert that is reported again.
-- Changes: `CompositeChangeProvider.list_changes` of integrations/change/composite.py;
--   Changes/Combined and Changes/Sorted are about its two halves, and Changes/Merge about what
--   it gives.
-- Correlations: graph/nodes/correlate.py; Correlations/Candidates is about the candidates it
--   finds. Causality/Ids: lists of ids that stand in another list.
-- Hypotheses: graph/nodes/hypothesize.py; Hypotheses/Grounding is about the ids that its
--   hypotheses refer to.
-- Proposals: graph/nodes/propose_remediation.py and `parse_remediation_proposal` of
--   schemas/remediation.py; Proposals/Typed says what the proposals are.
-- Incidents: the rows of db/models/incident.py that the services below read.
-- Memory: services/memory_service.py. Memory/Quality: which incidents are eligible;
--   Memory/Index: the memory of an incident and its indexing, which Memory/Indexing is about;
--   Memory/Search: `search_similar`; Memory/Hits says what a search may give, Memory/Scores
--   and Memory/Distances are about the two databases and Memory/Retrieval about the search.
-- Postmortems: services/postmortem_service.py. Postmortems/Entries: the history and the
--   timeline, which Postmortems/Events and Postmortems/Timeline are about;
--   Postmortems/Generation: the prose and the report; Postmortems/Reports is about the reports
--   that are kept.
-- Runs: `run_investigation` and `resume_remediation_approval` of
--   services/investigation_service.py as transactions on all the tables, in Runs/Tables (rows,
--   sessions and updates) and Runs/Transactions; Runs/Saved says what a run that ends well has
--   saved, Runs/Failures and Runs/Resumption are about all ways to end. Runs/Background:
--   `run_background_investigation`, which Runs/Completion is about.
-- Examples and its children: concrete inputs at which the theorems are applied.
--
-- How the code is written here. A UUID is the number that its text spells. A confidence or score
-- is a float from 0.0 to 1.0, so it is a whole number of units of 2 ^ -1074, and its order is the
-- order of these numbers. A time is a number of microseconds. A message built from values is a
-- constructor that holds them. A table is a list of rows, and an operation goes from the tables to
-- the tables; an exception is an outcome, and leaves the tables as they are. Fresh uuid4 values
-- are an argument. Python's `str.lower` and `str.upper` are arguments. The answers of the LLM, the
-- telemetry, the executor, the validator and the operator are arguments, none where the call
-- raises, so the theorems hold for every answer. Sorting by a key is a stable insertion sort.
--
-- No definition runs on fuel: loops over lists are by recursion on the list, and the graph, whose
-- loop the code bounds by `max_iterations`, is a step relation whose runs are shown to be bounded.
-- The polling of `run_loop`, which is meant to go on for ever, is not modelled. The retries of an
-- executor are by recursion on the attempts that are left.
--
-- Of the other gathering and proposing nodes (graph/nodes/classify.py, the collect nodes,
-- retrieve_memory.py), and of correlate.py, hypothesize.py and propose_remediation.py where they
-- stand in the graph, a step of the graph sets the keys that they return, the gathered ones to any
-- value. Not modelled: the paged list of services/incident_service.py, and the other change
-- providers under integrations/. Of the API only what its routes call is modelled, not their own
-- answers to bad requests. Not modelled because they are input and output: the database sessions,
-- the clients of Prometheus, Loki and the LLM, and logging.
pub mod Base
pub mod Schemas
pub mod Causality
pub mod Verify
pub mod Policy
pub mod Limits
pub mod Audit
pub mod Jobs
pub mod Graph
pub mod Proposals
pub mod Changes
pub mod Runs
pub mod Hypotheses
pub mod Memory
pub mod Alerts
pub mod Postmortems
pub mod Incidents
pub mod Correlations
pub mod Recovery
pub mod Investigation
pub mod Executors
pub mod Examples
