-- ===== src/Investigation/Persistence.antt =====
-- What `_persist_remediation` of services/investigation_service.py does to the audit trail.
