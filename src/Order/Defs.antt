-- ===== src/Order/Defs.antt =====
-- The inputs of backend/app/services/purchase_order_service.py, its guards and its conditional
-- UPDATEs.
use manufacturing_erp_lite.Prelude.{
  ℕ, Bool, true, false, not, ◌&&◌, Option, none, some, List, [], ◌∷◌, ◌++◌, map, if◌then◌else◌,
  ◌==◌, nat_eq,
}
use manufacturing_erp_lite.Prelude.Decimal.{Decimal, pos, ◌+ℤ◌, ◌-ℤ◌, ltb_ℤ, leb_ℤ, eqb_ℤ}
use manufacturing_erp_lite.Prelude.Lists.{sum}
use manufacturing_erp_lite.Prelude.Assoc.{Assoc, get, update, update_where}
use mathlib.Core.Option
use manufacturing_erp_lite.Enums.{
  PoStatus, PrStatus, is_po_status, is_pr_status, is_active, is_admin,
}
use manufacturing_erp_lite.Errors
use manufacturing_erp_lite.Errors.{ErrorCode, Result, ok, ◌>>=◌, ◌>>◌, raise_if, or_raise}
use manufacturing_erp_lite.Store.{
  Db, CurrentUser, PurchaseOrder, PurchaseRequisitionItem, PurchaseRequisition,
}

-- PurchaseOrderSourceCreate, PurchaseOrderItemCreate and PurchaseOrderCreate; `order_date` is the
-- given date or today's.
pub record SourceIn : Type 0 where
  pub pr_item_id : ℕ
  pub quantity : Decimal

pub record OrderItemIn : Type 0 where
  pub material_id : ℕ
  pub ordered_quantity : Decimal
  pub unit_price : Decimal
  pub sources : List SourceIn

pub record OrderIn : Type 0 where
  pub supplier_id : ℕ
  pub order_date : ℕ
  pub expected_date : Option ℕ
  pub items : List OrderItemIn

-- `target in _TRANSITIONS.get(status, frozenset())`
abbrev pub is_po_transition : PoStatus → PoStatus → Bool
is_po_transition PoStatus.draft PoStatus.confirmed = true
is_po_transition PoStatus.draft PoStatus.cancelled = true
is_po_transition PoStatus.confirmed PoStatus.cancelled = true
is_po_transition _ _ = false

unfoldable pub load_po : Db → ℕ → Result PurchaseOrder
load_po db po_id = or_raise (get po_id db.orders) Errors.po_not_found

unfoldable pub assert_po_transition : PurchaseOrder → PoStatus → Result (Unit {0})
assert_po_transition po target =
    raise_if (not (is_po_transition po.status target)) Errors.po_invalid_status_transition

unfoldable pub assert_po_version : PurchaseOrder → ℕ → Result (Unit {0})
assert_po_version po version = raise_if (not (po.version == version)) Errors.po_version_conflict

unfoldable pub assert_buyer_or_admin : PurchaseOrder → CurrentUser → Result (Unit {0})
assert_buyer_or_admin po user =
    raise_if (not (is_admin user.role_code) && not (po.buyer_id == user.id))
      Errors.permission_denied

-- The error after a conditional UPDATE that changed no row: a locking read of the order tells
-- whether its status or only its version has moved.
unfoldable pub concurrent_po_error : Db → ℕ → PoStatus → ErrorCode
concurrent_po_error db po_id expected = elim (get po_id db.orders) [
  | none ↦ Errors.internal_error
  | some po ↦
      if is_po_status po.status expected
      then Errors.po_version_conflict
      else Errors.po_already_processed
]

unfoldable pub assert_supplier_active : Db → ℕ → Result (Unit {0})
assert_supplier_active db supplier_id = do
  status ← or_raise (get supplier_id db.suppliers) Errors.not_found
  raise_if (not (is_active status)) Errors.po_supplier_disabled

unfoldable pub assert_po_material_active : Db → ℕ → Result (Unit {0})
assert_po_material_active db material_id = do
  status ← or_raise (get material_id db.materials) Errors.po_item_not_found
  raise_if (not (is_active status)) Errors.master_data_disabled

-- The requisitions of one line's sources.
unfoldable pub load_sources : Db → List SourceIn → Result (List ℕ)
load_sources db [] = ok []
load_sources db (src ∷ sources) = do
  pri ← or_raise (get src.pr_item_id db.requisition_items) Errors.pr_item_not_found
  rest ← load_sources db sources
  ok (pri.pr_id ∷ rest)

-- `pr_ids`: a requisition may stand in the list more than once, and each use of the list does the
-- same whether it is met once or again.
unfoldable pub load_pr_ids : Db → List OrderItemIn → Result (List ℕ)
load_pr_ids db [] = ok []
load_pr_ids db (item ∷ items) = do
  here ← load_sources db item.sources
  rest ← load_pr_ids db items
  ok (here ++ rest)

unfoldable pub check_prs : Db → List ℕ → Result (Unit {0})
check_prs db [] = ok tt
check_prs db (id ∷ ids) = do
  pr ← or_raise (get id db.requisitions) Errors.pr_not_found
  raise_if (not (is_pr_status pr.status PrStatus.approved)) Errors.pr_invalid_status_transition
  check_prs db ids

unfoldable pub check_order_items : Db → List OrderItemIn → Result (Unit {0})
check_order_items db [] = ok tt
check_order_items db (item ∷ items) = do
  assert_po_material_active db item.material_id
  raise_if (leb_ℤ item.ordered_quantity (pos 0)) Errors.validation_error
  raise_if (ltb_ℤ item.unit_price (pos 0)) Errors.validation_error
  raise_if (not (eqb_ℤ (sum (map (λ s. s.quantity) item.sources)) item.ordered_quantity))
      Errors.po_source_quantity_mismatch
  check_order_items db items

-- UPDATE ... SET converted = converted + :q WHERE id = :id AND converted + :q <= requested.
unfoldable pub cas_convert : SourceIn → Db → Option Db
cas_convert src db =
    Option.map (λ t. record db { requisition_items = t })
      (update_where (λ row. leb_ℤ (row.converted_quantity +ℤ src.quantity) row.requested_quantity)
        (λ row. record row { converted_quantity = row.converted_quantity +ℤ src.quantity })
        src.pr_item_id db.requisition_items)

-- UPDATE ... SET converted = converted - :q WHERE id = :id AND converted >= :q.
unfoldable pub cas_unconvert : ℕ → Decimal → Db → Option Db
cas_unconvert pr_item_id quantity db =
    Option.map (λ t. record db { requisition_items = t })
      (update_where (λ row. leb_ℤ quantity row.converted_quantity)
        (λ row. record row { converted_quantity = row.converted_quantity -ℤ quantity }) pr_item_id
        db.requisition_items)

-- EXISTS an item of the requisition that is not fully converted.
unfoldable pub has_unconverted : ℕ → Assoc ℕ PurchaseRequisitionItem → Bool
has_unconverted pr_id [] = false
has_unconverted pr_id ((i, item) ∷ t) =
    let rest = has_unconverted pr_id t in
    if (item.pr_id == pr_id) && ltb_ℤ item.converted_quantity item.requested_quantity
    then true
    else rest

abbrev pub flip_status : PrStatus → PrStatus → PurchaseRequisition → PurchaseRequisition
flip_status from_status to_status row =
    if is_pr_status row.status from_status then record row { status = to_status } else row

-- One UPDATE, whose conditions are read from the current rows.
unfoldable pub flip_pr_to_converted : ℕ → Db → Db
flip_pr_to_converted pr_id db =
    if has_unconverted pr_id db.requisition_items then db else record db {
      requisitions =
          update (flip_status PrStatus.approved PrStatus.converted) pr_id db.requisitions;
    }

unfoldable pub flip_pr_back_to_approved : ℕ → Db → Db
flip_pr_back_to_approved pr_id db =
    if has_unconverted pr_id db.requisition_items
    then record db {
      requisitions =
          update (flip_status PrStatus.converted PrStatus.approved) pr_id db.requisitions;
    }
    else db

unfoldable pub flip_each : (ℕ → Db → Db) → List ℕ → Db → Db
flip_each flip [] db = db
flip_each flip (id ∷ ids) db = flip_each flip ids (flip id db)
