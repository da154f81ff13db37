-- ===== src/Receipt/Create.antt =====
-- `create_receipt` of backend/app/services/purchase_receipt_service.py.
use manufacturing_erp_lite.Prelude.{ℕ, suc, some, none, List, [], ◌∷◌, map, nat_eq, pair_eq}
use manufacturing_erp_lite.Prelude.Decimal.{◌+ℤ◌}
use manufacturing_erp_lite.Prelude.Assoc.{get, set}
use manufacturing_erp_lite.Enums.{TxnType, TxnSourceType, SequenceKey, ReceiptStatus, AuditAction}
use manufacturing_erp_lite.Errors
use manufacturing_erp_lite.Errors.{Result, ok, ◌>>=◌, ◌>>◌, raise_if, or_raise}
use manufacturing_erp_lite.Money.{line_amount}
use manufacturing_erp_lite.Store.{
  Db, next_id, CurrentUser, PurchaseOrder, PurchaseOrderItem, PurchaseReceipt, PurchaseReceiptItem,
}
use manufacturing_erp_lite.Numbering.{next_daily_code}
use manufacturing_erp_lite.Audit.{write_audit}
use manufacturing_erp_lite.Inventory.{Key, lock_balances, write_transaction, apply_inbound}
use manufacturing_erp_lite.Receipt.Defs.{
  ReceiptItemIn, ReceiptIn, is_empty, receivable_po, active_warehouse, check_items, load_items,
  sort_items, set_received, cas_receive, LineState, add_delta, locked_quantities, no_deltas,
  apply_deltas,
}
use manufacturing_erp_lite.Receipt.Status.{items_of, recompute_po_status}

-- What every line of one receipt shares.
pub record Posting : Type 0 where
  pub receipt_id : ℕ
  pub warehouse_id : ℕ
  pub on : ℕ
  pub at : ℕ
  pub operator_id : ℕ

-- The line of the receipt, as the row of purchase_receipt_items.
receipt_item : Posting → ℕ → ReceiptItemIn → PurchaseOrderItem → PurchaseReceiptItem
receipt_item p line_no item poi = record {
  receipt_id = p.receipt_id;
  po_item_id = item.po_item_id;
  line_no = line_no;
  material_id = poi.material_id;
  received_quantity = item.received_quantity;
  unit_price = poi.unit_price;
  amount = line_amount item.received_quantity poi.unit_price;
}

abbrev add_receipt_item : PurchaseReceiptItem → Db → Db
add_receipt_item ri db = record db {
  last_id = next_id db;
  receipt_items = (next_id db, ri) ∷ db.receipt_items;
}

-- One round of the loop of `create_receipt`. The attribute that is assigned after the conditional
-- UPDATE starts from the session's own copy of the item, and the next flush writes it.
unfoldable pub receive_line : Posting → ℕ → ReceiptItemIn → LineState → Result LineState
unfolding receipt_item
receive_line p line_no item st = do
  poi ← or_raise (get item.po_item_id st.seen_items) Errors.internal_error
  let qty = item.received_quantity
  claimed ← or_raise (cas_receive item.po_item_id qty st.db) Errors.receipt_exceeds_remaining
  let assigned = poi.received_quantity +ℤ qty
  let ri = receipt_item p line_no item poi
  let flushed = add_receipt_item ri (set_received item.po_item_id assigned claimed)
  let key : Key = (p.warehouse_id, poi.material_id)
  before ← or_raise (get key st.running_qty) Errors.internal_error
  written ←
      write_transaction
        (record {
          txn_type = TxnType.purchase_in;
          warehouse_id = p.warehouse_id;
          material_id = poi.material_id;
          quantity = qty;
          unit_cost = poi.unit_price;
          amount = ri.amount;
          balance_after = before +ℤ qty;
          occurred_on = p.on;
          occurred_at = p.at;
          operator_id = p.operator_id;
          source_type = some TxnSourceType.purchase_receipt;
          source_id = some p.receipt_id;
          source_item_id = some flushed.last_id;
          reversed_transaction_id = none;
        })
        flushed
  agg ← add_delta key qty ri.amount st.agg
  ok (record {
    db = written;
    seen_items = set item.po_item_id (record poi { received_quantity = assigned }) st.seen_items;
    running_qty = set key (before +ℤ qty) st.running_qty;
    agg = agg;
  })

unfoldable pub receive_lines : Posting → ℕ → List ReceiptItemIn → LineState → Result LineState
receive_lines p line_no [] st = ok st
receive_lines p line_no (item ∷ items) st = do
  st' ← receive_line p line_no item st
  receive_lines p (suc line_no) items st'

-- The header row, with the number that it is given.
unfoldable pub add_receipt : ReceiptIn → CurrentUser → ℕ → Db → Db
unfolding next_daily_code
add_receipt data_in user received_at db =
    let (receipt_no, db') = next_daily_code SequenceKey.purchase_receipt data_in.receipt_date db in
    let row : PurchaseReceipt = record {
      receipt_no = receipt_no;
      po_id = data_in.po_id;
      warehouse_id = data_in.warehouse_id;
      received_by = user.id;
      received_at = received_at;
      status = ReceiptStatus.posted;
      reversed_by = none;
      reversed_at = none;
    } in
    record db' { last_id = next_id db'; receipts = (next_id db', row) ∷ db'.receipts }

-- After the guards: the locks, the header, the lines, the balances, the order's status and the
-- audit row. `materials` are the materials of the lines.
unfoldable pub post_receipt :
    ReceiptIn → CurrentUser → ℕ → PurchaseOrder → List ℕ → Db → Db → Result (ℕ × Db)
unfolding add_receipt recompute_po_status
post_receipt data_in user received_at po materials seen db = do
  let locks = lock_balances (map (λ m. (data_in.warehouse_id, m)) materials) db
  let keys = locks.0
  let headed = add_receipt data_in user received_at locks.1
  let receipt_id = headed.last_id
  let p : Posting = record {
    receipt_id = receipt_id;
    warehouse_id = data_in.warehouse_id;
    on = data_in.receipt_date;
    at = received_at;
    operator_id = user.id;
  }
  lines ← receive_lines p 1 (sort_items data_in.items) (record {
    db = headed;
    seen_items = seen.order_items;
    running_qty = locked_quantities keys locks.1;
    agg = no_deltas keys;
  })
  moved ← apply_deltas apply_inbound received_at lines.agg keys lines.db
  let recomputed =
      recompute_po_status data_in.po_id po (items_of data_in.po_id lines.seen_items) moved
  ok (receipt_id, write_audit AuditAction.receipt_post receipt_id recomputed.1)

-- `create_receipt`: the id of the receipt and the new database. `received_at` is the business day
-- with the clock's time.
unfoldable pub create_receipt : ReceiptIn → CurrentUser → ℕ → Db → Db → Result (ℕ × Db)
create_receipt data_in user received_at seen db = do
  raise_if (is_empty data_in.items) Errors.receipt_empty_items
  po ← receivable_po seen data_in.po_id
  active_warehouse seen data_in.warehouse_id
  check_items [] data_in.items
  materials ← load_items seen data_in.po_id data_in.items
  post_receipt data_in user received_at po materials seen db
