-- ===== src/Master/Frame.antt =====
-- The operations on the master data leave the balances, the ledger and the requisitions alone
-- (backend/app/services/material_service.py, supplier_service.py, warehouse_service.py and
-- inventory_policy_service.py).
use manufacturing_erp_lite.Prelude.{ℕ, ◌≡◌, refl, ap, ◌∙◌, sym}
use manufacturing_erp_lite.Errors.{ok, ok-injective, >>=-eq-ok, >>-eq-ok}
use manufacturing_erp_lite.Store.{Db, InventoryPolicy}
use manufacturing_erp_lite.Audit.{write_audit}
use manufacturing_erp_lite.Requisition.Frame.{heads}
use manufacturing_erp_lite.Master.Materials.{
  create_material, update_material, disable_material, enable_material, set_material_status,
}
use manufacturing_erp_lite.Master.Suppliers.{
  create_supplier, update_supplier, disable_supplier, enable_supplier, set_supplier_status,
}
use manufacturing_erp_lite.Master.Warehouses.{
  create_warehouse, update_warehouse, disable_warehouse, enable_warehouse, set_warehouse_status,
}
use manufacturing_erp_lite.Master.Policies.{PolicyEdit, insert_policy, create_policy, update_policy}

pub create_material-heads :
    (today : ℕ) (db : Db) → heads ((create_material today db).1).1 ≡ heads db
unfolding create_material write_audit
create_material-heads today db = refl

pub update_material-heads :
    (id : ℕ) (seen db : Db) {db' : Db} → update_material id seen db ≡ ok db' → heads db' ≡ heads db
unfolding update_material write_audit
update_material-heads id seen db h =
    let (_, _, h1) = >>=-eq-ok _ _ h in ap heads (sym (ok-injective h1))

pub disable_material-heads :
    (id : ℕ) (seen db : Db) {db' : Db} → disable_material id seen db ≡ ok db' → heads db' ≡ heads db
unfolding disable_material write_audit set_material_status
disable_material-heads id seen db h =
    let (_, _, h1) = >>=-eq-ok _ _ h in ap heads (sym (ok-injective h1))

pub enable_material-heads :
    (id : ℕ) (seen db : Db) {db' : Db} → enable_material id seen db ≡ ok db' → heads db' ≡ heads db
unfolding enable_material write_audit set_material_status
enable_material-heads id seen db h =
    let (_, _, h1) = >>=-eq-ok _ _ h in ap heads (sym (ok-injective h1))

pub create_supplier-heads :
    (today : ℕ) (db : Db) → heads ((create_supplier today db).1).1 ≡ heads db
unfolding create_supplier write_audit
create_supplier-heads today db = refl

pub update_supplier-heads :
    (id : ℕ) (seen db : Db) {db' : Db} → update_supplier id seen db ≡ ok db' → heads db' ≡ heads db
unfolding update_supplier write_audit
update_supplier-heads id seen db h =
    let (_, _, h1) = >>=-eq-ok _ _ h in ap heads (sym (ok-injective h1))

pub disable_supplier-heads :
    (id : ℕ) (seen db : Db) {db' : Db} → disable_supplier id seen db ≡ ok db' → heads db' ≡ heads db
unfolding disable_supplier write_audit set_supplier_status
disable_supplier-heads id seen db h =
    let (_, _, h1) = >>=-eq-ok _ _ h in ap heads (sym (ok-injective h1))

pub enable_supplier-heads :
    (id : ℕ) (seen db : Db) {db' : Db} → enable_supplier id seen db ≡ ok db' → heads db' ≡ heads db
unfolding enable_supplier write_audit set_supplier_status
enable_supplier-heads id seen db h =
    let (_, _, h1) = >>=-eq-ok _ _ h in ap heads (sym (ok-injective h1))

pub create_warehouse-heads :
    (today : ℕ) (db : Db) → heads ((create_warehouse today db).1).1 ≡ heads db
unfolding create_warehouse write_audit
create_warehouse-heads today db = refl

pub update_warehouse-heads :
    (id : ℕ) (seen db : Db) {db' : Db} → update_warehouse id seen db ≡ ok db' → heads db' ≡ heads db
unfolding update_warehouse write_audit
update_warehouse-heads id seen db h =
    let (_, _, h1) = >>=-eq-ok _ _ h in ap heads (sym (ok-injective h1))

pub disable_warehouse-heads :
    (id : ℕ) (seen db : Db) {db' : Db}
    → disable_warehouse id seen db ≡ ok db'
    → heads db' ≡ heads db
unfolding disable_warehouse write_audit set_warehouse_status
disable_warehouse-heads id seen db h =
    let (_, _, h1) = >>=-eq-ok _ _ h in
    let (_, h2) = >>-eq-ok _ _ h1 in ap heads (sym (ok-injective h2))

pub enable_warehouse-heads :
    (id : ℕ) (seen db : Db) {db' : Db} → enable_warehouse id seen db ≡ ok db' → heads db' ≡ heads db
unfolding enable_warehouse write_audit set_warehouse_status
enable_warehouse-heads id seen db h =
    let (_, _, h1) = >>=-eq-ok _ _ h in ap heads (sym (ok-injective h1))

insert_policy-heads :
    (row : InventoryPolicy) (db : Db) {db' : Db}
    → insert_policy row db ≡ ok db'
    → heads db' ≡ heads db
unfolding insert_policy
insert_policy-heads row db h = let (_, h1) = >>-eq-ok _ _ h in ap heads (sym (ok-injective h1))

pub create_policy-heads :
    (data_in : InventoryPolicy) (seen db : Db) {id : ℕ} {db' : Db}
    → create_policy data_in seen db ≡ ok (id, db')
    → heads db' ≡ heads db
unfolding create_policy write_audit
create_policy-heads data_in seen db h =
    let (_, h1) = >>-eq-ok _ _ h in
    let (_, h2) = >>-eq-ok _ _ h1 in
    let (_, h3) = >>-eq-ok _ _ h2 in
    let (added, a, h4) = >>=-eq-ok _ _ h3 in
    ap (λ r. heads r.1) (sym (ok-injective h4)) ∙ insert_policy-heads data_in db a

pub update_policy-heads :
    (policy_id : ℕ) (data_in : PolicyEdit) (seen db : Db) {db' : Db}
    → update_policy policy_id data_in seen db ≡ ok db'
    → heads db' ≡ heads db
unfolding update_policy write_audit
update_policy-heads policy_id data_in seen db h =
    let (_, _, h1) = >>=-eq-ok _ _ h in
    let (_, h2) = >>-eq-ok _ _ h1 in
    let (_, h3) = >>-eq-ok _ _ h2 in ap heads (sym (ok-injective h3))
