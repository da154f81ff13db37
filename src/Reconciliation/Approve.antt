-- ===== src/Reconciliation/Approve.antt =====
-- `approve_reconciliation` of backend/app/services/stock_reconciliation_service.py: the count is
-- posted.
use manufacturing_erp_lite.Prelude.{
  ℕ, Bool, true, false, not, ◌&&◌, Option, none, some, List, [], ◌∷◌, if◌then◌else◌, ◌==◌, nat_eq,
  pair_eq,
}
use manufacturing_erp_lite.Prelude.Decimal.{Decimal, pos, neg, ◌+ℤ◌, ltb_ℤ, eqb_ℤ}
use manufacturing_erp_lite.Prelude.Assoc.{Assoc, get, set}
use manufacturing_erp_lite.Enums.{ReconciliationStatus, TxnType, TxnSourceType, AuditAction}
use manufacturing_erp_lite.Errors
use manufacturing_erp_lite.Errors.{Result, ok, ◌>>=◌, ◌>>◌, raise_if, or_raise}
use manufacturing_erp_lite.Store.{
  Db, CurrentUser, StockReconciliation, StockReconciliationItem, InventoryBalance,
  InventoryTransaction,
}
use manufacturing_erp_lite.Audit.{write_audit}
use manufacturing_erp_lite.Inventory.{
  Key, Movement, lock_balances, write_transaction, apply_inbound, apply_outbound,
}
use manufacturing_erp_lite.Receipt.Defs.{locked_quantities}
use manufacturing_erp_lite.Reconciliation.Defs.{
  ApproveIn, load_doc, doc_items, watermark, lacks_rate, is_pending,
}
use manufacturing_erp_lite.Reconciliation.Draft.{claim_doc}

-- `override_active`, or the error where a counter may not approve its own count; `has_override` is
-- the answer of `_has_permission` for the override permission.
unfoldable pub self_approval : Bool → StockReconciliation → ApproveIn → CurrentUser → Result Bool
self_approval has_override doc payload user =
    if doc.counted_by == user.id
    then (do
      raise_if (not has_override) Errors.reconciliation_self_approval
      raise_if (not payload.override_self_approval) Errors.reconciliation_self_approval
      raise_if (not payload.has_override_reason) Errors.reconciliation_override_reason_required
      ok true)
    else ok false

unfoldable pub check_doc_items : List (ℕ × StockReconciliationItem) → Result (Unit {0})
check_doc_items [] = ok tt
check_doc_items ((i, item) ∷ items) = do
  raise_if (ltb_ℤ item.physical_quantity (pos 0)) Errors.reconciliation_physical_negative
  raise_if (ltb_ℤ (pos 0) item.difference_quantity && lacks_rate item.valuation_rate)
      Errors.reconciliation_valuation_rate_required
  check_doc_items items

-- `moving`: the keys of the lines that move stock.
unfoldable pub moving : ℕ → List (ℕ × StockReconciliationItem) → List Key
moving warehouse_id [] = []
moving warehouse_id ((i, item) ∷ items) =
    let rest = moving warehouse_id items in
    if eqb_ℤ item.difference_quantity (pos 0) then rest else (warehouse_id, item.material_id) ∷ rest

-- `watermark or 0`
abbrev pub id_or_zero : Option ℕ → ℕ
id_or_zero none = 0
id_or_zero (some i) = i

abbrev pub rate_of : Option Decimal → Decimal
rate_of none = pos 0
rate_of (some rate) = rate

-- What every line of one posting shares.
pub record Count : Type 0 where
  pub doc_id : ℕ
  pub warehouse_id : ℕ
  pub today : ℕ
  pub now : ℕ
  pub operator_id : ℕ

pub record CountState : Type 0 where
  pub db : Db
  pub running_qty : Assoc Key Decimal

-- The Snapshot Guard of one line. The watermark is a plain SELECT, so it is read from the session's
-- snapshot; the balance is the locked row.
unfoldable pub snapshot_guard :
    Key
    → StockReconciliationItem
    → Assoc ℕ InventoryTransaction
    → InventoryBalance
    → Result (Unit {0})
snapshot_guard key item seen_ledger balance = do
  raise_if
      (not (
        id_or_zero (watermark key seen_ledger)
        == id_or_zero item.book_last_transaction_id_snapshot))
      Errors.reconciliation_balance_changed
  raise_if (not (eqb_ℤ balance.quantity item.book_quantity_snapshot))
      Errors.reconciliation_balance_changed
  raise_if (not (eqb_ℤ balance.total_amount item.book_total_amount_snapshot))
      Errors.reconciliation_balance_changed

-- The ledger row and the movement of a surplus, `diff > 0`.
abbrev pub is_surplus : StockReconciliationItem → Bool
is_surplus item = ltb_ℤ (pos 0) item.difference_quantity

abbrev pub count_movement : Count → ℕ → StockReconciliationItem → Decimal → Movement
count_movement c item_id item before = record {
  txn_type = if is_surplus item then TxnType.adjust_in else TxnType.adjust_out;
  warehouse_id = c.warehouse_id;
  material_id = item.material_id;
  quantity = item.difference_quantity;
  unit_cost = if is_surplus item then rate_of item.valuation_rate else item.book_avg_cost_snapshot;
  amount = item.adjustment_amount;
  balance_after = before +ℤ item.difference_quantity;
  occurred_on = c.today;
  occurred_at = c.now;
  operator_id = c.operator_id;
  source_type = some TxnSourceType.stock_reconciliation;
  source_id = some c.doc_id;
  source_item_id = some item_id;
  reversed_transaction_id = none;
}

unfoldable pub adjust : StockReconciliationItem → InventoryBalance → Result InventoryBalance
unfolding apply_inbound apply_outbound
adjust item balance =
    if is_surplus item
    then apply_inbound balance item.difference_quantity item.adjustment_amount
    else apply_outbound balance (neg item.difference_quantity) (neg item.adjustment_amount)

-- One round of the loop, for a line that moves stock.
unfoldable pub post_moving :
    Count
    → Assoc ℕ InventoryTransaction
    → ℕ
    → StockReconciliationItem
    → CountState
    → Result CountState
post_moving c seen_ledger item_id item st = do
  let key : Key = (c.warehouse_id, item.material_id)
  balance ← or_raise (get key (st.db).balances) Errors.internal_error
  snapshot_guard key item seen_ledger balance
  before ← or_raise (get key st.running_qty) Errors.internal_error
  written ← write_transaction (count_movement c item_id item before) st.db
  balance' ← adjust item balance
  ok (record {
    db = record written {
      balances = set key (record balance' { last_transaction_at = some c.now }) written.balances;
    };
    running_qty = set key (before +ℤ item.difference_quantity) st.running_qty;
  })

-- The loop over the lines.
unfoldable pub post_items :
    Count
    → Assoc ℕ InventoryTransaction
    → List (ℕ × StockReconciliationItem)
    → CountState
    → Result CountState
unfolding post_moving
post_items c seen_ledger [] st = ok st
post_items c seen_ledger ((i, item) ∷ items) st = do
  st' ←
      (if eqb_ℤ item.difference_quantity (pos 0)
        then ok st
        else post_moving c seen_ledger i item st)
  post_items c seen_ledger items st'

unfoldable pub approve_reconciliation :
    Bool → ℕ → ApproveIn → CurrentUser → ℕ → ℕ → Db → Db → Result Db
approve_reconciliation has_override doc_id payload user today now seen db = do
  doc ← load_doc seen doc_id
  raise_if (not (is_pending doc.status)) Errors.reconciliation_invalid_status
  override_active ← self_approval has_override doc payload user
  let items = doc_items doc_id seen.reconciliation_items
  check_doc_items items
  claimed ←
      or_raise
        (claim_doc is_pending
          (λ row. record row {
            status = ReconciliationStatus.posted;
            posted_at = some now;
            approved_by = some user.id;
            override_self_approval = override_active;
          })
          doc_id db)
        Errors.reconciliation_already_processed
  let locks = lock_balances (moving doc.warehouse_id items) claimed
  let c : Count = record {
    doc_id = doc_id;
    warehouse_id = doc.warehouse_id;
    today = today;
    now = now;
    operator_id = user.id;
  }
  posted ←
      post_items c seen.transactions items
        (record { db = locks.1; running_qty = locked_quantities locks.0 locks.1 })
  ok (write_audit AuditAction.stock_count_approve doc_id posted.db)
