-- ===== src/Receipt/Defs.antt =====
-- The inputs of backend/app/services/purchase_receipt_service.py, its guards, and the steps that
-- its two operations share.
use manufacturing_erp_lite.Prelude.{
  ℕ, Bool, true, false, Option, none, some, List, [], ◌∷◌, if◌then◌else◌, ◌==◌, leb, is_in, nat_eq,
  pair_eq,
}
use manufacturing_erp_lite.Prelude.Decimal.{Decimal, pos, ◌+ℤ◌, ◌-ℤ◌, leb_ℤ}
use manufacturing_erp_lite.Prelude.Assoc.{Assoc, get, set, update, update_where}
use mathlib.Core.Option
use manufacturing_erp_lite.Enums.{PoStatus, is_active}
use manufacturing_erp_lite.Errors
use manufacturing_erp_lite.Errors.{Result, ok, err, ◌>>=◌, ◌>>◌, raise_if, or_raise}
use manufacturing_erp_lite.Store.{Db, PurchaseOrder, PurchaseOrderItem, InventoryBalance}
use manufacturing_erp_lite.Inventory.{Key, BalanceDelta, no_delta}

-- PurchaseReceiptItemCreate and PurchaseReceiptCreate; `receipt_date` is the given date or today's.
pub record ReceiptItemIn : Type 0 where
  pub po_item_id : ℕ
  pub received_quantity : Decimal

pub record ReceiptIn : Type 0 where
  pub po_id : ℕ
  pub warehouse_id : ℕ
  pub receipt_date : ℕ
  pub items : List ReceiptItemIn

abbrev pub is_empty {ℓ} : {A : Type ℓ} → List A → Bool
is_empty [] = true
is_empty (x ∷ xs) = false

-- `po.status in _RECEIVABLE_STATUSES`
abbrev pub is_receivable : PoStatus → Bool
is_receivable PoStatus.confirmed = true
is_receivable PoStatus.partially_received = true
is_receivable _ = false

unfoldable pub receivable_po : Db → ℕ → Result PurchaseOrder
receivable_po db po_id = do
  po ← or_raise (get po_id db.orders) Errors.po_not_found
  raise_if (if is_receivable po.status then false else true) Errors.po_not_receivable
  ok po

unfoldable pub active_warehouse : Db → ℕ → Result (Unit {0})
active_warehouse db warehouse_id = do
  status ← or_raise (get warehouse_id db.warehouses) Errors.not_found
  raise_if (if is_active status then false else true) Errors.master_data_disabled

unfoldable pub assert_material_active : Db → ℕ → Result (Unit {0})
assert_material_active db material_id = do
  status ← or_raise (get material_id db.materials) Errors.not_found
  raise_if (if is_active status then false else true) Errors.master_data_disabled

-- No item twice, and every quantity above 0.
unfoldable pub check_items : List ℕ → List ReceiptItemIn → Result (Unit {0})
check_items seen_ids [] = ok tt
check_items seen_ids (item ∷ items) = do
  raise_if (is_in item.po_item_id seen_ids) Errors.receipt_duplicate_item
  raise_if (leb_ℤ item.received_quantity (pos 0)) Errors.receipt_quantity_positive
  check_items (item.po_item_id ∷ seen_ids) items

-- The loop that fills `po_items`: the ids of the materials, line by line.
unfoldable pub load_items : Db → ℕ → List ReceiptItemIn → Result (List ℕ)
load_items db po_id [] = ok []
load_items db po_id (item ∷ items) = do
  poi ← or_raise (get item.po_item_id db.order_items) Errors.po_item_not_found
  raise_if (if poi.po_id == po_id then false else true) Errors.receipt_item_not_in_po
  assert_material_active db poi.material_id
  rest ← load_items db po_id items
  ok (poi.material_id ∷ rest)

unfoldable pub insert_item : ReceiptItemIn → List ReceiptItemIn → List ReceiptItemIn
insert_item x [] = x ∷ []
insert_item x (y ∷ ys) = if leb x.po_item_id y.po_item_id then x ∷ y ∷ ys else y ∷ insert_item x ys

-- `sorted(data.items, key=lambda x: x.po_item_id)`
unfoldable pub sort_items : List ReceiptItemIn → List ReceiptItemIn
unfolding insert_item
sort_items [] = []
sort_items (x ∷ xs) = insert_item x (sort_items xs)

-- UPDATE of the column received_quantity.
unfoldable pub set_received : ℕ → Decimal → Db → Db
set_received id quantity db = record db {
  order_items = update (λ row. record row { received_quantity = quantity }) id db.order_items;
}

-- UPDATE ... SET received = received + :qty WHERE id = :id AND received + :qty <= ordered; `none`
-- where no row is changed.
unfoldable pub cas_receive : ℕ → Decimal → Db → Option Db
cas_receive id qty db =
    Option.map (λ t. record db { order_items = t })
      (update_where (λ row. leb_ℤ (row.received_quantity +ℤ qty) row.ordered_quantity)
        (λ row. record row { received_quantity = row.received_quantity +ℤ qty }) id db.order_items)

-- UPDATE ... SET received = received - :qty WHERE id = :id AND received >= :qty.
unfoldable pub cas_return : ℕ → Decimal → Db → Option Db
cas_return id qty db =
    Option.map (λ t. record db { order_items = t })
      (update_where (λ row. leb_ℤ qty row.received_quantity)
        (λ row. record row { received_quantity = row.received_quantity -ℤ qty }) id db.order_items)

-- The loop's variables: the database, the session's order items, `running_qty` and `agg`.
pub record LineState : Type 0 where
  pub db : Db
  pub seen_items : Assoc ℕ PurchaseOrderItem
  pub running_qty : Assoc Key Decimal
  pub agg : Assoc Key BalanceDelta

-- `agg[key].quantity += quantity` and `agg[key].amount += amount`
unfoldable pub add_delta :
    Key → Decimal → Decimal → Assoc Key BalanceDelta → Result (Assoc Key BalanceDelta)
add_delta key quantity amount agg = do
  delta ← or_raise (get key agg) Errors.internal_error
  ok (
      set key (record { quantity = delta.quantity +ℤ quantity; amount = delta.amount +ℤ amount })
        agg)

-- `{k: locks[k].quantity for k in keys}`, read from the locked rows.
unfoldable pub locked_quantities : List Key → Db → Assoc Key Decimal
locked_quantities [] db = []
locked_quantities (k ∷ ks) db = elim (get k db.balances) [
  | none ↦ locked_quantities ks db
  | some balance ↦ (k, balance.quantity) ∷ locked_quantities ks db
]

-- `{k: BalanceDelta() for k in keys}`
unfoldable pub no_deltas : List Key → Assoc Key BalanceDelta
no_deltas [] = []
no_deltas (k ∷ ks) = (k, no_delta) ∷ no_deltas ks

-- The loop over `keys` that writes the balances; `move` is `apply_inbound` or `apply_outbound`.
unfoldable pub apply_deltas :
    (InventoryBalance → Decimal → Decimal → Result InventoryBalance)
    → ℕ
    → Assoc Key BalanceDelta
    → List Key
    → Db
    → Result Db
apply_deltas move at agg [] db = ok db
apply_deltas move at agg (k ∷ ks) db = do
  balance ← or_raise (get k db.balances) Errors.internal_error
  delta ← or_raise (get k agg) Errors.internal_error
  balance' ← move balance delta.quantity delta.amount
  apply_deltas move at agg ks (record db {
    balances = set k (record balance' { last_transaction_at = some at }) db.balances;
  })
