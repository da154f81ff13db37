-- ===== src/Master/Suppliers.antt =====
-- backend/app/services/supplier_service.py. `like` is what the database's LIKE says of the
-- texts that a list request gives, true of every row where it gives none.
use manufacturing_erp_lite.Prelude.{ℕ, Bool, ◌&&◌, Option, ◌∷◌, nat_eq}
use manufacturing_erp_lite.Prelude.Assoc.{Assoc, get, update}
use manufacturing_erp_lite.Enums.{ActiveStatus, is_active_status, SequenceKey, AuditAction}
use manufacturing_erp_lite.Errors
use manufacturing_erp_lite.Errors.{Result, ok, ◌>>=◌, ◌>>◌, or_raise}
use manufacturing_erp_lite.Store.{Db, next_id, DocumentNo}
use manufacturing_erp_lite.Numbering.{next_code}
use manufacturing_erp_lite.Audit.{write_audit}
use manufacturing_erp_lite.Query.{where_rows, order_by, ascending, paged, if_given}

unfoldable pub get_supplier : Db → ℕ → Result ActiveStatus
get_supplier db supplier_id = or_raise (get supplier_id db.suppliers) Errors.not_found

unfoldable pub add_supplier : Db → Db
add_supplier db = record db {
  last_id = next_id db;
  suppliers = (next_id db, ActiveStatus.active) ∷ db.suppliers;
}

-- The code and the id of the new supplier.
unfoldable pub create_supplier : ℕ → Db → DocumentNo × (ℕ × Db)
unfolding next_code add_supplier
create_supplier today db =
    let (code, db') = next_code SequenceKey.supplier today db in
    let added = add_supplier db' in
    (code, (added.last_id, write_audit AuditAction.supplier_create added.last_id added))

-- The attributes that an update assigns are text.
unfoldable pub update_supplier : ℕ → Db → Db → Result Db
unfolding get_supplier
update_supplier supplier_id seen db = do
  loaded ← get_supplier seen supplier_id
  ok (write_audit AuditAction.supplier_update supplier_id db)

unfoldable pub set_supplier_status : ActiveStatus → ℕ → Db → Db
set_supplier_status status supplier_id db = record db {
  suppliers = update (λ row. status) supplier_id db.suppliers;
}

unfoldable pub disable_supplier : ℕ → Db → Db → Result Db
unfolding get_supplier set_supplier_status
disable_supplier supplier_id seen db = do
  loaded ← get_supplier seen supplier_id
  ok (
      write_audit AuditAction.supplier_disable supplier_id
        (set_supplier_status ActiveStatus.disabled supplier_id db))

unfoldable pub enable_supplier : ℕ → Db → Db → Result Db
unfolding get_supplier set_supplier_status
enable_supplier supplier_id seen db = do
  loaded ← get_supplier seen supplier_id
  ok (
      write_audit AuditAction.supplier_enable supplier_id
        (set_supplier_status ActiveStatus.active supplier_id db))

-- The rows of all pages, by id.
unfoldable pub listed_suppliers : Db → (ℕ → Bool) → Option ActiveStatus → Assoc ℕ ActiveStatus
unfolding where_rows order_by
listed_suppliers db like status =
    order_by ascending
      (where_rows (λ r. like r.0 && if_given is_active_status status r.1) db.suppliers)

unfoldable pub list_suppliers :
    Db → ℕ → ℕ → (ℕ → Bool) → Option ActiveStatus → Assoc ℕ ActiveStatus × ℕ
unfolding listed_suppliers paged
list_suppliers db page page_size like status =
    paged page page_size (listed_suppliers db like status)
