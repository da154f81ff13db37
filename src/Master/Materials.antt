-- ===== src/Master/Materials.antt =====
-- backend/app/services/material_service.py. `like` is what the database's LIKE says of the
-- texts that a list request gives, true of every row where it gives none.
use manufacturing_erp_lite.Prelude.{ℕ, Bool, ◌&&◌, Option, ◌∷◌, nat_eq}
use manufacturing_erp_lite.Prelude.Assoc.{Assoc, get, update}
use manufacturing_erp_lite.Enums.{ActiveStatus, is_active_status, SequenceKey, AuditAction}
use manufacturing_erp_lite.Errors
use manufacturing_erp_lite.Errors.{Result, ok, ◌>>=◌, ◌>>◌, or_raise}
use manufacturing_erp_lite.Store.{Db, next_id, DocumentNo}
use manufacturing_erp_lite.Numbering.{next_code}
use manufacturing_erp_lite.Audit.{write_audit}
use manufacturing_erp_lite.Query.{where_rows, order_by, ascending, paged, if_given}

unfoldable pub get_material : Db → ℕ → Result ActiveStatus
get_material db material_id = or_raise (get material_id db.materials) Errors.not_found

unfoldable pub add_material : Db → Db
add_material db = record db {
  last_id = next_id db;
  materials = (next_id db, ActiveStatus.active) ∷ db.materials;
}

-- The code and the id of the new material.
unfoldable pub create_material : ℕ → Db → DocumentNo × (ℕ × Db)
unfolding next_code add_material
create_material today db =
    let (code, db') = next_code SequenceKey.material today db in
    let added = add_material db' in
    (code, (added.last_id, write_audit AuditAction.material_create added.last_id added))

-- The attributes that an update assigns are text.
unfoldable pub update_material : ℕ → Db → Db → Result Db
unfolding get_material
update_material material_id seen db = do
  loaded ← get_material seen material_id
  ok (write_audit AuditAction.material_update material_id db)

unfoldable pub set_material_status : ActiveStatus → ℕ → Db → Db
set_material_status status material_id db = record db {
  materials = update (λ row. status) material_id db.materials;
}

unfoldable pub disable_material : ℕ → Db → Db → Result Db
unfolding get_material set_material_status
disable_material material_id seen db = do
  loaded ← get_material seen material_id
  ok (
      write_audit AuditAction.material_disable material_id
        (set_material_status ActiveStatus.disabled material_id db))

unfoldable pub enable_material : ℕ → Db → Db → Result Db
unfolding get_material set_material_status
enable_material material_id seen db = do
  loaded ← get_material seen material_id
  ok (
      write_audit AuditAction.material_enable material_id
        (set_material_status ActiveStatus.active material_id db))

-- The rows of all pages, by id.
unfoldable pub listed_materials : Db → (ℕ → Bool) → Option ActiveStatus → Assoc ℕ ActiveStatus
unfolding where_rows order_by
listed_materials db like status =
    order_by ascending
      (where_rows (λ r. like r.0 && if_given is_active_status status r.1) db.materials)

unfoldable pub list_materials :
    Db → ℕ → ℕ → (ℕ → Bool) → Option ActiveStatus → Assoc ℕ ActiveStatus × ℕ
unfolding listed_materials paged
list_materials db page page_size like status =
    paged page page_size (listed_materials db like status)
