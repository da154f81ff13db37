-- ===== src/Receipt/Read.antt =====
-- The read scope, `get_receipt` and `list_receipts` of
-- backend/app/services/purchase_receipt_service.py. What the database's LIKE makes of a text is a
-- predicate of the filter.
use manufacturing_erp_lite.Prelude.{
  ℕ, Bool, true, false, not, ◌&&◌, Option, none, some, ◌==◌, leb, nat_eq,
}
use manufacturing_erp_lite.Prelude.Assoc.{Assoc, get}
use manufacturing_erp_lite.Enums.{ReceiptStatus, RoleCode}
use manufacturing_erp_lite.Errors
use manufacturing_erp_lite.Errors.{Result, ok, ◌>>=◌, ◌>>◌, raise_if, or_raise}
use manufacturing_erp_lite.Store.{Db, CurrentUser, DocumentNo, PurchaseReceipt, PurchaseOrder}
use manufacturing_erp_lite.Query.{where_rows, order_by, descending, paged, if_given}
use manufacturing_erp_lite.Order.Read.{visible_po_id}
use manufacturing_erp_lite.Receipt.Reverse.{is_posted}

abbrev is_bought_by : CurrentUser → Option PurchaseOrder → Bool
is_bought_by user none = false
is_bought_by user (some po) = po.buyer_id == user.id

-- `po_id in _visible_po_stmt(db, user)`, where `None` admits every order.
unfoldable pub visible_po : Db → CurrentUser → ℕ → Bool
unfolding visible_po_id
visible_po db user po_id = elim user.role_code [
  | RoleCode.admin ↦ true
  | RoleCode.warehouse ↦ true
  | RoleCode.buyer ↦ is_bought_by user (get po_id db.orders)
  | _ ↦ visible_po_id db user po_id
]

unfoldable pub assert_receipt_visible : Db → PurchaseReceipt → CurrentUser → Result (Unit {0})
unfolding visible_po
assert_receipt_visible db receipt user =
    raise_if (not (visible_po db user receipt.po_id)) Errors.permission_denied

unfoldable pub get_receipt : Db → ℕ → CurrentUser → Result PurchaseReceipt
unfolding assert_receipt_visible
get_receipt db receipt_id user = do
  receipt ← or_raise (get receipt_id db.receipts) Errors.receipt_not_found
  assert_receipt_visible db receipt user
  ok receipt

-- `po_no` tells which orders' numbers LIKE admits; the days are taken as their first and last
-- moments.
pub record ReceiptFilter : Type 0 where
  pub receipt_no : DocumentNo → Bool
  pub po_no : ℕ → Bool
  pub po_id : Option ℕ
  pub warehouse_id : Option ℕ
  pub status : Option ReceiptStatus
  pub received_from : Option ℕ
  pub received_to : Option ℕ

abbrev is_receipt_status : ReceiptStatus → ReceiptStatus → Bool
is_receipt_status ReceiptStatus.posted b = is_posted b
is_receipt_status ReceiptStatus.reversed b = not (is_posted b)

abbrev pub passes_receipt_filter : ReceiptFilter → PurchaseReceipt → Bool
passes_receipt_filter f receipt =
    if_given (λ p x. p == x) f.po_id receipt.po_id
    && f.receipt_no receipt.receipt_no
    && f.po_no receipt.po_id
    && if_given (λ w x. w == x) f.warehouse_id receipt.warehouse_id
    && if_given is_receipt_status f.status receipt.status
    && if_given leb f.received_from receipt.received_at
    && if_given (λ d x. leb x d) f.received_to receipt.received_at

unfoldable pub listed_receipts : Db → CurrentUser → ReceiptFilter → Assoc ℕ PurchaseReceipt
unfolding where_rows order_by visible_po
listed_receipts db user f =
    order_by descending
      (where_rows (λ r. visible_po db user (r.1).po_id && passes_receipt_filter f r.1) db.receipts)

unfoldable pub list_receipts :
    Db → CurrentUser → ℕ → ℕ → ReceiptFilter → Assoc ℕ PurchaseReceipt × ℕ
unfolding listed_receipts paged
list_receipts db user page page_size f = paged page page_size (listed_receipts db user f)
