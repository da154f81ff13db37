-- ===== src/Receipt/Reverse.antt =====
-- `reverse_receipt` of backend/app/services/purchase_receipt_service.py.
use manufacturing_erp_lite.Prelude.{
  ℕ, Bool, true, false, ◌&&◌, Option, some, none, List, [], ◌∷◌, map, if◌then◌else◌, ◌==◌, leb,
  nat_eq, pair_eq,
}
use manufacturing_erp_lite.Prelude.Decimal.{neg, ◌-ℤ◌}
use manufacturing_erp_lite.Prelude.Assoc.{Assoc, get, set, update_where}
use mathlib.Core.Option
use manufacturing_erp_lite.Enums.{TxnType, TxnSourceType, ReceiptStatus, AuditAction}
use manufacturing_erp_lite.Errors
use manufacturing_erp_lite.Errors.{Result, ok, ◌>>=◌, ◌>>◌, raise_if, or_raise}
use manufacturing_erp_lite.Store.{
  Db, CurrentUser, PurchaseOrder, PurchaseReceipt, PurchaseReceiptItem, InventoryTransaction,
}
use manufacturing_erp_lite.Audit.{write_audit}
use manufacturing_erp_lite.Inventory.{Key, lock_balances, write_transaction, apply_outbound}
use manufacturing_erp_lite.Receipt.Defs.{
  set_received, cas_return, LineState, add_delta, locked_quantities, no_deltas, apply_deltas,
}
use manufacturing_erp_lite.Receipt.Status.{items_of, recompute_po_status}
use manufacturing_erp_lite.Receipt.Create.{Posting}

abbrev pub is_posted : ReceiptStatus → Bool
is_posted ReceiptStatus.posted = true
is_posted ReceiptStatus.reversed = false

-- UPDATE ... SET status = REVERSED ... WHERE id = :id AND status = POSTED.
unfoldable pub claim_reversal : ℕ → CurrentUser → ℕ → Db → Option Db
claim_reversal receipt_id user now db =
    Option.map (λ t. record db { receipts = t })
      (update_where (λ row. is_posted row.status)
        (λ row. record row {
          status = ReceiptStatus.reversed;
          reversed_by = some user.id;
          reversed_at = some now;
        })
        receipt_id db.receipts)

unfoldable pub insert_row :
    ℕ × PurchaseReceiptItem → List (ℕ × PurchaseReceiptItem) → List (ℕ × PurchaseReceiptItem)
insert_row x [] = x ∷ []
insert_row x (y ∷ ys) =
    if leb (x.1).po_item_id (y.1).po_item_id then x ∷ y ∷ ys else y ∷ insert_row x ys

-- `sorted(receipt.items, key=lambda x: x.po_item_id)`
unfoldable pub rows_of : ℕ → Assoc ℕ PurchaseReceiptItem → List (ℕ × PurchaseReceiptItem)
unfolding insert_row
rows_of receipt_id [] = []
rows_of receipt_id ((i, ri) ∷ t) =
    let rest = rows_of receipt_id t in
    if ri.receipt_id == receipt_id then insert_row (i, ri) rest else rest

abbrev is_purchase_receipt : Option TxnSourceType → Bool
is_purchase_receipt none = false
is_purchase_receipt (some TxnSourceType.purchase_receipt) = true
is_purchase_receipt (some _) = false

abbrev is_id : ℕ → Option ℕ → Bool
is_id i none = false
is_id i (some j) = i == j

-- The ledger row that the receipt's line wrote.
unfoldable pub find_original :
    ℕ → ℕ → Assoc ℕ InventoryTransaction → Option (ℕ × InventoryTransaction)
find_original receipt_id item_id [] = none
find_original receipt_id item_id ((i, row) ∷ t) =
    if is_purchase_receipt row.source_type
      && (is_id receipt_id row.source_id && is_id item_id row.source_item_id)
    then some (i, row)
    else find_original receipt_id item_id t

-- A ledger row that reverses this one.
unfoldable pub is_reversed : ℕ → Assoc ℕ InventoryTransaction → Bool
is_reversed txn_id [] = false
is_reversed txn_id ((i, row) ∷ t) =
    if is_id txn_id row.reversed_transaction_id then true else is_reversed txn_id t

-- One round of the loop of `reverse_receipt`. The rows that the request itself writes answer
-- neither query on the ledger: they are reversals of the other lines.
unfoldable pub reverse_line :
    Posting → Assoc ℕ InventoryTransaction → ℕ → PurchaseReceiptItem → LineState → Result LineState
reverse_line p ledger item_id ri st = do
  poi ← or_raise (get ri.po_item_id st.seen_items) Errors.po_item_not_found
  claimed ← or_raise (cas_return ri.po_item_id ri.received_quantity st.db) Errors.conflict
  let assigned = poi.received_quantity -ℤ ri.received_quantity
  original ← or_raise (find_original p.receipt_id item_id ledger) Errors.inventory_balance_mismatch
  raise_if (is_reversed original.0 ledger) Errors.receipt_already_reversed
  let key : Key = (p.warehouse_id, ri.material_id)
  before ← or_raise (get key st.running_qty) Errors.internal_error
  written ←
      write_transaction
        (record {
          txn_type = TxnType.purchase_in_reversal;
          warehouse_id = p.warehouse_id;
          material_id = ri.material_id;
          quantity = neg ri.received_quantity;
          unit_cost = (original.1).unit_cost;
          amount = neg (original.1).amount;
          balance_after = before -ℤ ri.received_quantity;
          occurred_on = p.on;
          occurred_at = p.at;
          operator_id = p.operator_id;
          source_type = some TxnSourceType.purchase_receipt_reversal;
          source_id = some p.receipt_id;
          source_item_id = some item_id;
          reversed_transaction_id = some original.0;
        })
        (set_received ri.po_item_id assigned claimed)
  agg ← add_delta key ri.received_quantity (original.1).amount st.agg
  ok (record {
    db = written;
    seen_items = set ri.po_item_id (record poi { received_quantity = assigned }) st.seen_items;
    running_qty = set key (before -ℤ ri.received_quantity) st.running_qty;
    agg = agg;
  })

unfoldable pub reverse_lines :
    Posting
    → Assoc ℕ InventoryTransaction
    → List (ℕ × PurchaseReceiptItem)
    → LineState
    → Result LineState
reverse_lines p ledger [] st = ok st
reverse_lines p ledger ((i, ri) ∷ rows) st = do
  st' ← reverse_line p ledger i ri st
  reverse_lines p ledger rows st'

-- `recompute_po_status(db, po) if po else None`
unfoldable pub recompute_if_found : ℕ → Option PurchaseOrder → LineState → Db → Db
unfolding recompute_po_status
recompute_if_found po_id none lines db = db
recompute_if_found po_id (some po) lines db =
    (recompute_po_status po_id po (items_of po_id lines.seen_items) db).1

-- After the claim: the locks, the lines, the balances, the order's status and the audit row.
unfoldable pub post_reversal : ℕ → PurchaseReceipt → CurrentUser → ℕ → ℕ → Db → Db → Result Db
post_reversal receipt_id receipt user today now seen db = do
  let rows = rows_of receipt_id seen.receipt_items
  let locks = lock_balances (map (λ r. (receipt.warehouse_id, (r.1).material_id)) rows) db
  let keys = locks.0
  let p : Posting = record {
    receipt_id = receipt_id;
    warehouse_id = receipt.warehouse_id;
    on = today;
    at = now;
    operator_id = user.id;
  }
  lines ← reverse_lines p seen.transactions rows (record {
    db = locks.1;
    seen_items = seen.order_items;
    running_qty = locked_quantities keys locks.1;
    agg = no_deltas keys;
  })
  moved ← apply_deltas apply_outbound now lines.agg keys lines.db
  ok (
      write_audit AuditAction.receipt_reverse receipt_id
        (recompute_if_found receipt.po_id (get receipt.po_id seen.orders) lines moved))

-- A status is POSTED or REVERSED, so the guard RECEIPT_NOT_POSTED is never reached.
unfoldable pub reverse_receipt : ℕ → CurrentUser → ℕ → ℕ → Db → Db → Result Db
reverse_receipt receipt_id user today now seen db = do
  receipt ← or_raise (get receipt_id seen.receipts) Errors.receipt_not_found
  raise_if (if is_posted receipt.status then false else true) Errors.receipt_already_reversed
  claimed ← or_raise (claim_reversal receipt_id user now db) Errors.receipt_already_reversed
  post_reversal receipt_id receipt user today now seen claimed
