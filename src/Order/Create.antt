-- ===== src/Order/Create.antt =====
-- `create_po` of backend/app/services/purchase_order_service.py.
use manufacturing_erp_lite.Prelude.{ℕ, suc, List, [], ◌∷◌, nat_eq}
use manufacturing_erp_lite.Prelude.Decimal.{Decimal, pos, ◌+ℤ◌}
use manufacturing_erp_lite.Prelude.Assoc.{update}
use manufacturing_erp_lite.Enums.{PoStatus, SequenceKey, AuditAction}
use manufacturing_erp_lite.Errors
use manufacturing_erp_lite.Errors.{Result, ok, ◌>>=◌, ◌>>◌, raise_if, or_raise}
use manufacturing_erp_lite.Money.{line_amount, sum_amounts}
use manufacturing_erp_lite.Store.{
  Db, next_id, CurrentUser, PurchaseOrder, PurchaseOrderItem, PurchaseOrderItemSource,
}
use manufacturing_erp_lite.Numbering.{next_daily_code}
use manufacturing_erp_lite.Audit.{write_audit}
use manufacturing_erp_lite.Receipt.Defs.{is_empty}
use manufacturing_erp_lite.Order.Defs.{
  SourceIn, OrderItemIn, OrderIn, assert_supplier_active, load_pr_ids, check_prs, check_order_items,
  cas_convert, flip_pr_to_converted, flip_each,
}

-- The header row, with its number; its total is written after the lines.
unfoldable pub add_po : OrderIn → CurrentUser → Db → Db
unfolding next_daily_code
add_po data_in user db =
    let (po_no, db') = next_daily_code SequenceKey.purchase_order data_in.order_date db in
    let row : PurchaseOrder = record {
      po_no = po_no;
      supplier_id = data_in.supplier_id;
      buyer_id = user.id;
      order_date = data_in.order_date;
      expected_date = data_in.expected_date;
      status = PoStatus.draft;
      total_amount = pos 0;
      version = 1;
      created_by = user.id;
      updated_by = user.id;
    } in
    record db' { last_id = next_id db'; orders = (next_id db', row) ∷ db'.orders }

-- One line of the order, before its sources.
abbrev order_item : ℕ → ℕ → OrderItemIn → PurchaseOrderItem
order_item po_id line_no item = record {
  po_id = po_id;
  line_no = line_no;
  material_id = item.material_id;
  ordered_quantity = item.ordered_quantity;
  received_quantity = pos 0;
  unit_price = item.unit_price;
  amount = line_amount item.ordered_quantity item.unit_price;
}

unfoldable pub add_order_item : ℕ → ℕ → OrderItemIn → Db → Db
add_order_item po_id line_no item db = record db {
  last_id = next_id db;
  order_items = (next_id db, order_item po_id line_no item) ∷ db.order_items;
}

unfoldable pub add_source : ℕ → SourceIn → Db → Db
add_source po_item_id src db =
    let row : PurchaseOrderItemSource = record {
      po_item_id = po_item_id;
      pr_item_id = src.pr_item_id;
      quantity = src.quantity;
    } in
    record db {
      last_id = next_id db;
      order_item_sources = (next_id db, row) ∷ db.order_item_sources;
    }

-- The inner loop: each source takes its quantity of the requisition's item.
unfoldable pub take_sources : ℕ → List SourceIn → Db → Result Db
unfolding add_source
take_sources po_item_id [] db = ok db
take_sources po_item_id (src ∷ sources) db = do
  converted ← or_raise (cas_convert src db) Errors.pr_item_convert_exceeded
  take_sources po_item_id sources (add_source po_item_id src converted)

-- The outer loop, with `total`.
unfoldable pub add_lines : ℕ → ℕ → List OrderItemIn → Decimal → Db → Result (Decimal × Db)
unfolding add_order_item
add_lines po_id line_no [] total db = ok (total, db)
add_lines po_id line_no (item ∷ items) total db = do
  let added = add_order_item po_id line_no item db
  taken ← take_sources added.last_id item.sources added
  add_lines po_id (suc line_no) items (total +ℤ line_amount item.ordered_quantity item.unit_price)
      taken

-- `po.total_amount = money.sum_amounts([total])`
unfoldable pub set_total : ℕ → Decimal → Db → Db
set_total po_id total db = record db {
  orders = update (λ row. record row { total_amount = sum_amounts (total ∷ []) }) po_id db.orders;
}

-- `create_po`: the id of the order and the new database.
unfoldable pub create_po : OrderIn → CurrentUser → Db → Db → Result (ℕ × Db)
unfolding add_po set_total flip_each
create_po data_in user seen db = do
  raise_if (is_empty data_in.items) Errors.po_empty_items
  assert_supplier_active seen data_in.supplier_id
  pr_ids ← load_pr_ids seen data_in.items
  check_prs seen pr_ids
  check_order_items seen data_in.items
  let headed = add_po data_in user db
  let po_id = headed.last_id
  lines ← add_lines po_id 1 data_in.items (pos 0) headed
  let flipped = flip_each flip_pr_to_converted pr_ids (set_total po_id lines.0 lines.1)
  ok (po_id, write_audit AuditAction.po_create po_id flipped)
