-- ===== src/Order/Status.antt =====
-- `confirm_po` and `cancel_po` of backend/app/services/purchase_order_service.py.
use manufacturing_erp_lite.Prelude.{
  ℕ, suc, Bool, false, ◌&&◌, ◌||◌, Option, none, some, List, [], ◌∷◌, if◌then◌else◌, ◌==◌, any,
  nat_eq,
}
use manufacturing_erp_lite.Prelude.Decimal.{pos, ltb_ℤ, leb_ℤ}
use manufacturing_erp_lite.Prelude.Assoc.{Assoc, get, update, update_where}
use mathlib.Core.Option
use manufacturing_erp_lite.Enums.{PoStatus, is_po_status, AuditAction}
use manufacturing_erp_lite.Errors
use manufacturing_erp_lite.Errors.{Result, ok, ◌>>=◌, ◌>>◌, raise_if, or_raise}
use manufacturing_erp_lite.Store.{
  Db, CurrentUser, PurchaseOrder, PurchaseOrderItem, PurchaseOrderItemSource,
  PurchaseRequisitionItem,
}
use manufacturing_erp_lite.Audit.{write_audit}
use manufacturing_erp_lite.Receipt.Defs.{is_empty}
use manufacturing_erp_lite.Receipt.Status.{items_of}
use manufacturing_erp_lite.Order.Defs.{
  load_po, assert_po_transition, assert_po_version, assert_buyer_or_admin, concurrent_po_error,
  cas_unconvert, flip_pr_back_to_approved, flip_each,
}

-- UPDATE ... SET status = :target, version = version + 1 WHERE id = :id AND version = :version AND
-- the status is one of those that `allowed` admits.
unfoldable pub claim_po : (PoStatus → Bool) → PoStatus → ℕ → ℕ → CurrentUser → Db → Option Db
claim_po allowed target po_id version user db =
    Option.map (λ t. record db { orders = t })
      (update_where (λ row. (row.version == version) && allowed row.status)
        (λ row. record row { status = target; updated_by = user.id; version = suc row.version })
        po_id db.orders)

-- The attributes that are assigned to the session's copy, `po`, and written by the flush.
unfoldable pub flush_po : PoStatus → ℕ → PurchaseOrder → Db → Db
flush_po target po_id po db = record db {
  orders = update (λ row. record row { status = target; version = suc po.version }) po_id db.orders;
}

abbrev pub is_draft : PoStatus → Bool
is_draft status = is_po_status status PoStatus.draft

abbrev pub is_draft_or_confirmed : PoStatus → Bool
is_draft_or_confirmed status =
    is_po_status status PoStatus.draft || is_po_status status PoStatus.confirmed

unfoldable pub confirm_po : ℕ → ℕ → CurrentUser → Db → Db → Result Db
unfolding flush_po
confirm_po po_id version user seen db = do
  po ← load_po seen po_id
  assert_po_transition po PoStatus.confirmed
  assert_po_version po version
  assert_buyer_or_admin po user
  let items = items_of po_id seen.order_items
  raise_if (is_empty items) Errors.po_empty_items
  raise_if (any (λ i. leb_ℤ i.unit_price (pos 0)) items) Errors.po_unit_price_required
  claimed ←
      or_raise (claim_po is_draft PoStatus.confirmed po_id version user db)
        (concurrent_po_error db po_id PoStatus.draft)
  ok (write_audit AuditAction.po_confirm po_id (flush_po PoStatus.confirmed po_id po claimed))

-- `po_item_ids`
abbrev pub is_item_of : ℕ → ℕ → Assoc ℕ PurchaseOrderItem → Bool
is_item_of po_id item_id [] = false
is_item_of po_id item_id ((i, item) ∷ t) =
    ((i == item_id) && (item.po_id == po_id)) || is_item_of po_id item_id t

-- SELECT of the sources of the order's items.
unfoldable pub sources_of :
    ℕ → Assoc ℕ PurchaseOrderItem → Assoc ℕ PurchaseOrderItemSource → List PurchaseOrderItemSource
sources_of po_id items [] = []
sources_of po_id items ((i, s) ∷ t) =
    let rest = sources_of po_id items t in
    if is_item_of po_id s.po_item_id items then s ∷ rest else rest

unfoldable pub give_back : List PurchaseOrderItemSource → Db → Result Db
give_back [] db = ok db
give_back (s ∷ sources) db = do
  returned ← or_raise (cas_unconvert s.pr_item_id s.quantity db) Errors.conflict
  give_back sources returned

-- `pr_ids`: the requisitions of the sources' items; a requisition may stand there more than once.
unfoldable pub pr_ids_of : List PurchaseOrderItemSource → Assoc ℕ PurchaseRequisitionItem → List ℕ
pr_ids_of [] items = []
pr_ids_of (s ∷ sources) items = elim (get s.pr_item_id items) [
  | none ↦ pr_ids_of sources items
  | some pri ↦ pri.pr_id ∷ pr_ids_of sources items
]

unfoldable pub cancel_po : ℕ → ℕ → CurrentUser → Db → Db → Result Db
unfolding flush_po sources_of pr_ids_of flip_each
cancel_po po_id version user seen db = do
  po ← load_po seen po_id
  assert_po_transition po PoStatus.cancelled
  assert_po_version po version
  assert_buyer_or_admin po user
  raise_if (any (λ i. ltb_ℤ (pos 0) i.received_quantity) (items_of po_id seen.order_items))
      Errors.po_cancel_has_receipt
  claimed ←
      or_raise (claim_po is_draft_or_confirmed PoStatus.cancelled po_id version user db)
        (concurrent_po_error db po_id po.status)
  let sources = sources_of po_id seen.order_items seen.order_item_sources
  returned ← give_back sources (flush_po PoStatus.cancelled po_id po claimed)
  let pr_ids = pr_ids_of sources seen.requisition_items
  ok (write_audit AuditAction.po_cancel po_id (flip_each flip_pr_back_to_approved pr_ids returned))
