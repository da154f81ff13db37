-- ===== src/Audit.antt =====
-- backend/app/services/audit_service.py: one row of operation_logs, in the caller's transaction.
use manufacturing_erp_lite.Prelude.{ℕ, ◌∷◌}
use manufacturing_erp_lite.Enums.{AuditAction}
use manufacturing_erp_lite.Store.{Db}

unfoldable pub write_audit : AuditAction → ℕ → Db → Db
write_audit action document_id db = record db {
  operation_logs = record { action = action; document_id = document_id } ∷ db.operation_logs;
}
