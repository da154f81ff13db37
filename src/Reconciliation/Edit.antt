-- ===== src/Reconciliation/Edit.antt =====
-- `update_reconciliation` of backend/app/services/stock_reconciliation_service.py. The statements of
-- the flush are SQLAlchemy's; `violates` tells whether they meet a unique key of the table on the way
-- from the first database to the second, an IntegrityError that is answered with `duplicate_key`.
use manufacturing_erp_lite.Prelude.{
  ℕ, suc, Bool, true, false, not, ◌&&◌, ◌||◌, Option, none, some, List, [], ◌∷◌, if◌then◌else◌,
  ◌==◌, is_in, nat_eq,
}
use manufacturing_erp_lite.Prelude.Decimal.{Decimal, pos, ltb_ℤ, eqb_ℤ}
use manufacturing_erp_lite.Prelude.Assoc.{Assoc, update, update_where, erase}
use mathlib.Core.Option
use manufacturing_erp_lite.Enums.{ReconciliationStatus, is_reconciliation_status, AuditAction}
use manufacturing_erp_lite.Errors
use manufacturing_erp_lite.Errors.{Result, ok, ◌>>=◌, ◌>>◌, raise_if, or_raise}
use manufacturing_erp_lite.Store.{column, Db, next_id, CurrentUser, StockReconciliationItem}
use manufacturing_erp_lite.Audit.{write_audit}
use manufacturing_erp_lite.Reconciliation.Defs.{
  LineIn, Valued, load_doc, active_warehouse, assert_material_active, snapshot, amount_for,
  item_row, doc_items, is_draft,
}

-- ReconciliationUpdate.
pub record ReconciliationEdit : Type 0 where
  pub version : ℕ
  pub items : List LineIn

-- `existing.get(material_id)`: the dict keeps the last row of a material.
unfoldable pub existing_line :
    ℕ → List (ℕ × StockReconciliationItem) → Option (ℕ × StockReconciliationItem)
existing_line material_id [] = none
existing_line material_id ((i, item) ∷ items) = elim (existing_line material_id items) [
  | some later ↦ some later
  | none ↦ if item.material_id == material_id then some (i, item) else none
]

-- A line that stays keeps its snapshot.
abbrev pub recounted : ℕ → LineIn → Valued → StockReconciliationItem → StockReconciliationItem
recounted line_no line v item = record item {
  line_no = line_no;
  physical_quantity = line.physical_quantity;
  difference_quantity = v.difference;
  valuation_rate = v.rate;
  adjustment_amount = v.amount;
}

-- A row of `rebuilt`, with its id and what was loaded of it, if the table has it already.
unfoldable pub rebuild_line :
    Db
    → ℕ
    → ℕ
    → List (ℕ × StockReconciliationItem)
    → ℕ
    → LineIn
    → Result (Option (ℕ × StockReconciliationItem) × StockReconciliationItem)
unfolding snapshot
rebuild_line seen doc_id warehouse_id existing line_no line =
    elim (existing_line line.material_id existing) [
      | none ↦ do
        assert_material_active seen line.material_id
        let snap = snapshot seen (warehouse_id, line.material_id)
        valued ← amount_for line snap.quantity snap.avg_cost
        ok (none, item_row doc_id line_no line snap valued)
      | some found ↦ do
        valued ← amount_for line (found.1).book_quantity_snapshot (found.1).book_avg_cost_snapshot
        ok (some found, recounted line_no line valued (found.1))
    ]

-- The loop over the lines, which gives `rebuilt`.
unfoldable pub rebuild_lines :
    Db
    → ℕ
    → ℕ
    → List (ℕ × StockReconciliationItem)
    → List ℕ
    → ℕ
    → List LineIn
    → Result (List (Option (ℕ × StockReconciliationItem) × StockReconciliationItem))
unfolding rebuild_line
rebuild_lines seen doc_id warehouse_id existing seen_ids line_no [] = ok []
rebuild_lines seen doc_id warehouse_id existing seen_ids line_no (line ∷ lines) = do
  raise_if (is_in line.material_id seen_ids) Errors.conflict
  raise_if (ltb_ℤ line.physical_quantity (pos 0)) Errors.reconciliation_physical_negative
  row ← rebuild_line seen doc_id warehouse_id existing line_no line
  rest ←
      rebuild_lines seen doc_id warehouse_id existing (line.material_id ∷ seen_ids) (suc line_no)
        lines
  ok (row ∷ rest)

abbrev is_same_rate : Option Decimal → Option Decimal → Bool
is_same_rate none none = true
is_same_rate (some a) (some b) = eqb_ℤ a b
is_same_rate _ _ = false

-- UPDATE of the attributes that a count assigns, those that differ from the loaded ones, `old`.
abbrev pub write_count :
    StockReconciliationItem
    → StockReconciliationItem
    → StockReconciliationItem
    → StockReconciliationItem
write_count old item row = record row {
  line_no = column (item.line_no == old.line_no) row.line_no item.line_no;
  physical_quantity =
      column (eqb_ℤ item.physical_quantity old.physical_quantity) row.physical_quantity
        item.physical_quantity;
  difference_quantity =
      column (eqb_ℤ item.difference_quantity old.difference_quantity) row.difference_quantity
        item.difference_quantity;
  valuation_rate =
      column (is_same_rate item.valuation_rate old.valuation_rate) row.valuation_rate
        item.valuation_rate;
  adjustment_amount =
      column (eqb_ℤ item.adjustment_amount old.adjustment_amount) row.adjustment_amount
        item.adjustment_amount;
}

-- UPDATE or INSERT of the rows of `rebuilt`.
unfoldable pub flush_rebuilt :
    List (Option (ℕ × StockReconciliationItem) × StockReconciliationItem) → Db → Db
flush_rebuilt [] db = db
flush_rebuilt ((none, item) ∷ rows) db = flush_rebuilt rows (record db {
  last_id = next_id db;
  reconciliation_items = (next_id db, item) ∷ db.reconciliation_items;
})
flush_rebuilt ((some (i, old), item) ∷ rows) db =
    flush_rebuilt rows
      (record db { reconciliation_items = update (write_count old item) i db.reconciliation_items })

abbrev pub is_rebuilt :
    ℕ → List (Option (ℕ × StockReconciliationItem) × StockReconciliationItem) → Bool
is_rebuilt i [] = false
is_rebuilt i ((none, item) ∷ rows) = is_rebuilt i rows
is_rebuilt i ((some (j, old), item) ∷ rows) = (i == j) || is_rebuilt i rows

-- DELETE of the rows that `rebuilt` leaves out.
unfoldable pub delete_orphans :
    List (Option (ℕ × StockReconciliationItem) × StockReconciliationItem)
    → List (ℕ × StockReconciliationItem)
    → Assoc ℕ StockReconciliationItem
    → Assoc ℕ StockReconciliationItem
delete_orphans rebuilt [] t = t
delete_orphans rebuilt ((i, item) ∷ items) t =
    delete_orphans rebuilt items (if is_rebuilt i rebuilt then t else erase i t)

unfoldable pub replace_items :
    List (Option (ℕ × StockReconciliationItem) × StockReconciliationItem)
    → List (ℕ × StockReconciliationItem)
    → Db
    → Db
unfolding flush_rebuilt delete_orphans
replace_items rebuilt existing db =
    let db' = flush_rebuilt rebuilt db in
    record db' { reconciliation_items = delete_orphans rebuilt existing db'.reconciliation_items }

-- `status in (_DRAFT, _REJECTED)`
abbrev pub is_editable : ReconciliationStatus → Bool
is_editable status =
    is_draft status || is_reconciliation_status status ReconciliationStatus.rejected

-- UPDATE ... WHERE id = :id AND version = :version AND status IN (DRAFT, REJECTED)
unfoldable pub claim_edit : ℕ → ℕ → Db → Option Db
claim_edit version doc_id db =
    Option.map (λ t. record db { reconciliations = t })
      (update_where (λ row. (row.version == version) && is_editable row.status)
        (λ row. record row { status = ReconciliationStatus.draft; version = suc row.version })
        doc_id db.reconciliations)

-- The attributes that are assigned to the session's copy and written by the last flush.
unfoldable pub flush_doc : ℕ → ℕ → Db → Db
flush_doc version doc_id db = record db {
  reconciliations =
      update (λ row. record row { status = ReconciliationStatus.draft; version = suc version })
        doc_id db.reconciliations;
}

unfoldable pub update_reconciliation :
    (Db → Db → Bool) → ℕ → ReconciliationEdit → CurrentUser → Db → Db → Result Db
unfolding replace_items flush_doc
update_reconciliation violates doc_id data_in user seen db = do
  doc ← load_doc seen doc_id
  raise_if (not (is_editable doc.status)) Errors.reconciliation_invalid_status
  raise_if (not (data_in.version == doc.version)) Errors.reconciliation_version_conflict
  active_warehouse seen doc.warehouse_id
  let existing = doc_items doc_id seen.reconciliation_items
  rebuilt ← rebuild_lines seen doc_id doc.warehouse_id existing [] 1 data_in.items
  let replaced = replace_items rebuilt existing db
  raise_if (violates db replaced) Errors.duplicate_key
  claimed ←
      or_raise (claim_edit data_in.version doc_id replaced) Errors.reconciliation_version_conflict
  ok (write_audit AuditAction.stock_count_create doc_id (flush_doc data_in.version doc_id claimed))
