-- ===== src/Postmortems.antt =====
-- services/postmortem_service.py: `PostmortemService`, the report on a resolved incident.
--
-- The texts are built as the code builds them. When the database made a proposal is an argument, and
-- so is the LLM's answer, none where the call raises.
pub mod Entries
pub mod Generation
pub mod Events
pub mod Timeline
pub mod Reports
