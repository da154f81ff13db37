-- ===== src/Reconciliation/Draft.antt =====
-- `create_reconciliation`, `submit_reconciliation` and `reject_reconciliation` of
-- backend/app/services/stock_reconciliation_service.py.
use manufacturing_erp_lite.Prelude.{
  ℕ, suc, Bool, false, not, Option, none, some, List, [], ◌∷◌, ◌==◌, nat_eq,
}
use manufacturing_erp_lite.Prelude.Assoc.{update_where}
use mathlib.Core.Option
use manufacturing_erp_lite.Enums.{ReconciliationStatus, SequenceKey, AuditAction}
use manufacturing_erp_lite.Errors
use manufacturing_erp_lite.Errors.{Result, ok, ◌>>=◌, ◌>>◌, raise_if, or_raise}
use manufacturing_erp_lite.Store.{
  Db, next_id, CurrentUser, StockReconciliation, StockReconciliationItem,
}
use manufacturing_erp_lite.Numbering.{next_daily_code}
use manufacturing_erp_lite.Audit.{write_audit}
use manufacturing_erp_lite.Receipt.Defs.{is_empty}
use manufacturing_erp_lite.Reconciliation.Defs.{
  LineIn, ReconciliationIn, Snapshot, load_doc, active_warehouse, amount_for, ensure_valid,
  item_row, doc_items, is_draft, is_pending,
}

unfoldable pub add_doc : ReconciliationIn → CurrentUser → ℕ → Db → Db
unfolding next_daily_code
add_doc data_in user today db =
    let (reconciliation_no, db') = next_daily_code SequenceKey.stock_reconciliation today db in
    let row : StockReconciliation = record {
      reconciliation_no = reconciliation_no;
      warehouse_id = data_in.warehouse_id;
      counted_by = user.id;
      counted_on = today;
      status = ReconciliationStatus.draft;
      submitted_at = none;
      posted_at = none;
      approved_by = none;
      override_self_approval = false;
      version = 1;
    } in
    record db' { last_id = next_id db'; reconciliations = (next_id db', row) ∷ db'.reconciliations }

abbrev add_item : StockReconciliationItem → Db → Db
add_item item db = record db {
  last_id = next_id db;
  reconciliation_items = (next_id db, item) ∷ db.reconciliation_items;
}

unfoldable pub add_items : ℕ → ℕ → List (LineIn × Snapshot) → Db → Result Db
add_items doc_id line_no [] db = ok db
add_items doc_id line_no ((line, snap) ∷ lines) db = do
  valued ← amount_for line snap.quantity snap.avg_cost
  add_items doc_id (suc line_no) lines (add_item (item_row doc_id line_no line snap valued) db)

unfoldable pub create_reconciliation :
    ReconciliationIn → CurrentUser → ℕ → Db → Db → Result (ℕ × Db)
unfolding add_doc
create_reconciliation data_in user today seen db = do
  active_warehouse seen data_in.warehouse_id
  resolved ← ensure_valid seen data_in.warehouse_id data_in.items
  let headed = add_doc data_in user today db
  let doc_id = headed.last_id
  filled ← add_items doc_id 1 resolved headed
  ok (doc_id, write_audit AuditAction.stock_count_create doc_id filled)

-- UPDATE of the document where its status is as expected.
unfoldable pub claim_doc :
    (ReconciliationStatus → Bool) → (StockReconciliation → StockReconciliation) → ℕ → Db → Option Db
claim_doc expected change doc_id db =
    Option.map (λ t. record db { reconciliations = t })
      (update_where (λ row. expected row.status)
        (λ row. record (change row) { version = suc row.version }) doc_id db.reconciliations)

unfoldable pub submit_reconciliation : ℕ → ℕ → CurrentUser → ℕ → Db → Db → Result Db
submit_reconciliation doc_id version user now seen db = do
  doc ← load_doc seen doc_id
  raise_if (not (is_draft doc.status)) Errors.reconciliation_invalid_status
  raise_if (not (version == doc.version)) Errors.reconciliation_version_conflict
  raise_if (is_empty (doc_items doc_id seen.reconciliation_items)) Errors.reconciliation_empty_items
  claimed ←
      or_raise
        (claim_doc is_draft
          (λ row. record row { status = ReconciliationStatus.pending; submitted_at = some now })
          doc_id db)
        Errors.reconciliation_already_processed
  ok (write_audit AuditAction.stock_count_submit doc_id claimed)

unfoldable pub reject_reconciliation : ℕ → CurrentUser → Db → Db → Result Db
reject_reconciliation doc_id user seen db = do
  doc ← load_doc seen doc_id
  raise_if (not (is_pending doc.status)) Errors.reconciliation_invalid_status
  claimed ←
      or_raise
        (claim_doc is_pending (λ row. record row { status = ReconciliationStatus.rejected }) doc_id
          db)
        Errors.reconciliation_already_processed
  ok (write_audit AuditAction.stock_count_reject doc_id claimed)
