-- ===== src/Runs.antt =====
-- services/investigation_service.py: `run_investigation` and `resume_remediation_approval` as
-- transactions on the database, with `IncidentService.update_incident`.
--
-- A session has what is committed and what its transaction sees; a rollback, also that of a commit
-- that raises, goes back to what is committed. The answer of the graph is an argument, none where it
-- raises. Which of the writes raise is an argument too.
pub mod Tables
pub mod Transactions
pub mod Saved
pub mod Failures
pub mod Resumption
pub mod Background
pub mod Completion
