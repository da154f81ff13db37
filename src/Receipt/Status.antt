-- ===== src/Receipt/Status.antt =====
-- `recompute_po_status` of backend/app/services/purchase_receipt_service.py.
use manufacturing_erp_lite.Prelude.{ℕ, List, [], ◌∷◌, if◌then◌else◌, ◌==◌, all, nat_eq}
use manufacturing_erp_lite.Prelude.Decimal.{pos, eqb_ℤ}
use manufacturing_erp_lite.Prelude.Assoc.{Assoc, update}
use manufacturing_erp_lite.Enums.{PoStatus, is_po_status}
use manufacturing_erp_lite.Store.{Db, PurchaseOrder, PurchaseOrderItem}

-- SELECT ... WHERE po_id = :po_id
unfoldable pub items_of : ℕ → Assoc ℕ PurchaseOrderItem → List PurchaseOrderItem
items_of po_id [] = []
items_of po_id ((i, item) ∷ t) =
    if item.po_id == po_id then item ∷ items_of po_id t else items_of po_id t

-- The status that the received quantities say; `items` is not empty.
unfoldable pub derived_status : List PurchaseOrderItem → PoStatus
derived_status items =
    if all (λ i. eqb_ℤ i.received_quantity (pos 0)) items
    then PoStatus.confirmed
    else if all (λ i. eqb_ℤ i.received_quantity i.ordered_quantity) items
    then PoStatus.received
    else PoStatus.partially_received

-- UPDATE of the status column, where the row is there.
unfoldable pub set_po_status : ℕ → PoStatus → Db → Db
set_po_status po_id target db = record db {
  orders = update (λ po. record po { status = target }) po_id db.orders;
}

-- `items` are the order's items as the session sees them, and `po` the order as it was read.
unfoldable pub recompute_po_status : ℕ → PurchaseOrder → List PurchaseOrderItem → Db → PoStatus × Db
unfolding derived_status set_po_status
recompute_po_status po_id po [] db = (po.status, db)
recompute_po_status po_id po (item ∷ items) db =
    let target = derived_status (item ∷ items) in
    if is_po_status target po.status then (target, db) else (target, set_po_status po_id target db)
