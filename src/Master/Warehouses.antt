-- ===== src/Master/Warehouses.antt =====
-- backend/app/services/warehouse_service.py. `like` is what the database's LIKE says of the
-- texts that a list request gives, true of every row where it gives none.
use manufacturing_erp_lite.Prelude.{
  ℕ, suc, Bool, not, ◌&&◌, Option, [], ◌∷◌, if◌then◌else◌, ◌==◌, ltb, nat_eq,
}
use manufacturing_erp_lite.Prelude.Decimal.{pos, eqb_ℤ}
use manufacturing_erp_lite.Prelude.Assoc.{Assoc, get, update}
use manufacturing_erp_lite.Enums.{ActiveStatus, is_active_status, SequenceKey, AuditAction}
use manufacturing_erp_lite.Errors
use manufacturing_erp_lite.Errors.{Result, ok, ◌>>=◌, ◌>>◌, raise_if, or_raise}
use manufacturing_erp_lite.Store.{Db, next_id, DocumentNo, InventoryBalance}
use manufacturing_erp_lite.Numbering.{next_code}
use manufacturing_erp_lite.Audit.{write_audit}
use manufacturing_erp_lite.Query.{where_rows, order_by, ascending, paged, if_given}

unfoldable pub get_warehouse : Db → ℕ → Result ActiveStatus
get_warehouse db warehouse_id = or_raise (get warehouse_id db.warehouses) Errors.not_found

unfoldable pub add_warehouse : Db → Db
add_warehouse db = record db {
  last_id = next_id db;
  warehouses = (next_id db, ActiveStatus.active) ∷ db.warehouses;
}

-- The code and the id of the new warehouse.
unfoldable pub create_warehouse : ℕ → Db → DocumentNo × (ℕ × Db)
unfolding next_code add_warehouse
create_warehouse today db =
    let (code, db') = next_code SequenceKey.warehouse today db in
    let added = add_warehouse db' in
    (code, (added.last_id, write_audit AuditAction.warehouse_create added.last_id added))

-- The attributes that an update assigns are text.
unfoldable pub update_warehouse : ℕ → Db → Db → Result Db
unfolding get_warehouse
update_warehouse warehouse_id seen db = do
  loaded ← get_warehouse seen warehouse_id
  ok (write_audit AuditAction.warehouse_update warehouse_id db)

unfoldable pub set_warehouse_status : ActiveStatus → ℕ → Db → Db
set_warehouse_status status warehouse_id db = record db {
  warehouses = update (λ row. status) warehouse_id db.warehouses;
}

-- `SELECT COUNT(*)` of the warehouse's balances whose quantity is not 0.
unfoldable pub nonzero_balances : ℕ → Assoc (ℕ × ℕ) InventoryBalance → ℕ
nonzero_balances warehouse_id [] = 0
nonzero_balances warehouse_id ((k, b) ∷ t) =
    let rest = nonzero_balances warehouse_id t in
    if (k.0 == warehouse_id) && not (eqb_ℤ b.quantity (pos 0)) then suc rest else rest

unfoldable pub assert_no_stock : Db → ℕ → Result (Unit {0})
unfolding nonzero_balances
assert_no_stock db warehouse_id =
    raise_if (ltb 0 (nonzero_balances warehouse_id db.balances)) Errors.warehouse_has_stock

unfoldable pub disable_warehouse : ℕ → Db → Db → Result Db
unfolding get_warehouse assert_no_stock set_warehouse_status
disable_warehouse warehouse_id seen db = do
  loaded ← get_warehouse seen warehouse_id
  assert_no_stock seen warehouse_id
  ok (
      write_audit AuditAction.warehouse_disable warehouse_id
        (set_warehouse_status ActiveStatus.disabled warehouse_id db))

unfoldable pub enable_warehouse : ℕ → Db → Db → Result Db
unfolding get_warehouse set_warehouse_status
enable_warehouse warehouse_id seen db = do
  loaded ← get_warehouse seen warehouse_id
  ok (
      write_audit AuditAction.warehouse_enable warehouse_id
        (set_warehouse_status ActiveStatus.active warehouse_id db))

-- The rows of all pages, by id.
unfoldable pub listed_warehouses : Db → (ℕ → Bool) → Option ActiveStatus → Assoc ℕ ActiveStatus
unfolding where_rows order_by
listed_warehouses db like status =
    order_by ascending
      (where_rows (λ r. like r.0 && if_given is_active_status status r.1) db.warehouses)

unfoldable pub list_warehouses :
    Db → ℕ → ℕ → (ℕ → Bool) → Option ActiveStatus → Assoc ℕ ActiveStatus × ℕ
unfolding listed_warehouses paged
list_warehouses db page page_size like status =
    paged page page_size (listed_warehouses db like status)
