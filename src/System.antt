-- ===== src/System.antt =====
-- The service as a whole (backend/app/services/): a request runs one operation in one transaction,
-- and the requests' transactions commit one after the other. Each finds the rows as the ones before
-- it left them, where it writes, while it may decide on what its session read earlier, any `seen`.
pub mod Books
pub mod Lifecycle
use manufacturing_erp_lite.Prelude.{ℕ, ◌≡◌, Bool}
use manufacturing_erp_lite.Errors.{ok}
use manufacturing_erp_lite.Store.{Db, CurrentUser, InventoryPolicy}
use manufacturing_erp_lite.Receipt.Defs.{ReceiptIn}
use manufacturing_erp_lite.Receipt.Create.{create_receipt}
use manufacturing_erp_lite.Receipt.Reverse.{reverse_receipt}
use manufacturing_erp_lite.Order.Defs.{OrderIn}
use manufacturing_erp_lite.Order.Create.{create_po}
use manufacturing_erp_lite.Order.Status.{confirm_po, cancel_po}
use manufacturing_erp_lite.Requisition.Defs.{PrIn}
use manufacturing_erp_lite.Requisition.Create.{create_pr}
use manufacturing_erp_lite.Requisition.Edit.{PrEdit, update_pr}
use manufacturing_erp_lite.Requisition.Status.{submit_pr, cancel_pr}
use manufacturing_erp_lite.Requisition.Approval.{approve_pr, reject_pr, revise_pr}
use manufacturing_erp_lite.Reconciliation.Defs.{ReconciliationIn, ApproveIn}
use manufacturing_erp_lite.Reconciliation.Draft.{
  create_reconciliation, submit_reconciliation, reject_reconciliation,
}
use manufacturing_erp_lite.Reconciliation.Edit.{ReconciliationEdit, update_reconciliation}
use manufacturing_erp_lite.Reconciliation.Approve.{approve_reconciliation}
use manufacturing_erp_lite.Master.Materials.{
  create_material, update_material, disable_material, enable_material,
}
use manufacturing_erp_lite.Master.Suppliers.{
  create_supplier, update_supplier, disable_supplier, enable_supplier,
}
use manufacturing_erp_lite.Master.Warehouses.{
  create_warehouse, update_warehouse, disable_warehouse, enable_warehouse,
}
use manufacturing_erp_lite.Master.Policies.{PolicyEdit, create_policy, update_policy}

-- A request that is answered without an error.
pub data Step : Db → Db → Type 0 where
  pr_created :
      (data_in : PrIn) (user : CurrentUser) (seen : Db) {db db' : Db} {id : ℕ}
      → create_pr data_in user seen db ≡ ok (id, db')
      → Step db db'
  pr_updated :
      (violates : Db → Db → Bool) (id : ℕ) (data_in : PrEdit) (user : CurrentUser) (seen : Db)
      {db db' : Db}
      → update_pr violates id data_in user seen db ≡ ok db'
      → Step db db'
  pr_submitted :
      (id : ℕ) (user : CurrentUser) (now : ℕ) (seen : Db) {db db' : Db}
      → submit_pr id user now seen db ≡ ok db'
      → Step db db'
  pr_cancelled :
      (id : ℕ) (user : CurrentUser) (seen : Db) {db db' : Db}
      → cancel_pr id user seen db ≡ ok db'
      → Step db db'
  pr_approved :
      (id version : ℕ) (user : CurrentUser) (seen : Db) {db db' : Db}
      → approve_pr id version user seen db ≡ ok db'
      → Step db db'
  pr_rejected :
      (id version : ℕ) (user : CurrentUser) (seen : Db) {db db' : Db}
      → reject_pr id version user seen db ≡ ok db'
      → Step db db'
  pr_revised :
      (id version : ℕ) (user : CurrentUser) (seen : Db) {db db' : Db}
      → revise_pr id version user seen db ≡ ok db'
      → Step db db'
  po_created :
      (data_in : OrderIn) (user : CurrentUser) (seen : Db) {db db' : Db} {id : ℕ}
      → create_po data_in user seen db ≡ ok (id, db')
      → Step db db'
  po_confirmed :
      (id version : ℕ) (user : CurrentUser) (seen : Db) {db db' : Db}
      → confirm_po id version user seen db ≡ ok db'
      → Step db db'
  po_cancelled :
      (id version : ℕ) (user : CurrentUser) (seen : Db) {db db' : Db}
      → cancel_po id version user seen db ≡ ok db'
      → Step db db'
  receipt_posted :
      (data_in : ReceiptIn) (user : CurrentUser) (at : ℕ) (seen : Db) {db db' : Db} {id : ℕ}
      → create_receipt data_in user at seen db ≡ ok (id, db')
      → Step db db'
  receipt_reversed :
      (id : ℕ) (user : CurrentUser) (today now : ℕ) (seen : Db) {db db' : Db}
      → reverse_receipt id user today now seen db ≡ ok db'
      → Step db db'
  count_created :
      (data_in : ReconciliationIn) (user : CurrentUser) (today : ℕ) (seen : Db) {db db' : Db}
      {id : ℕ}
      → create_reconciliation data_in user today seen db ≡ ok (id, db')
      → Step db db'
  count_updated :
      (violates : Db → Db → Bool) (id : ℕ) (data_in : ReconciliationEdit) (user : CurrentUser)
      (seen : Db) {db db' : Db}
      → update_reconciliation violates id data_in user seen db ≡ ok db'
      → Step db db'
  count_submitted :
      (id version : ℕ) (user : CurrentUser) (now : ℕ) (seen : Db) {db db' : Db}
      → submit_reconciliation id version user now seen db ≡ ok db'
      → Step db db'
  count_rejected :
      (id : ℕ) (user : CurrentUser) (seen : Db) {db db' : Db}
      → reject_reconciliation id user seen db ≡ ok db'
      → Step db db'
  count_approved :
      (has_override : Bool) (id : ℕ) (payload : ApproveIn) (user : CurrentUser) (today now : ℕ)
      (seen : Db) {db db' : Db}
      → approve_reconciliation has_override id payload user today now seen db ≡ ok db'
      → Step db db'
  material_created : (today : ℕ) (db : Db) → Step db ((create_material today db).1).1
  material_updated :
      (id : ℕ) (seen : Db) {db db' : Db} → update_material id seen db ≡ ok db' → Step db db'
  material_disabled :
      (id : ℕ) (seen : Db) {db db' : Db} → disable_material id seen db ≡ ok db' → Step db db'
  material_enabled :
      (id : ℕ) (seen : Db) {db db' : Db} → enable_material id seen db ≡ ok db' → Step db db'
  supplier_created : (today : ℕ) (db : Db) → Step db ((create_supplier today db).1).1
  supplier_updated :
      (id : ℕ) (seen : Db) {db db' : Db} → update_supplier id seen db ≡ ok db' → Step db db'
  supplier_disabled :
      (id : ℕ) (seen : Db) {db db' : Db} → disable_supplier id seen db ≡ ok db' → Step db db'
  supplier_enabled :
      (id : ℕ) (seen : Db) {db db' : Db} → enable_supplier id seen db ≡ ok db' → Step db db'
  warehouse_created : (today : ℕ) (db : Db) → Step db ((create_warehouse today db).1).1
  warehouse_updated :
      (id : ℕ) (seen : Db) {db db' : Db} → update_warehouse id seen db ≡ ok db' → Step db db'
  warehouse_disabled :
      (id : ℕ) (seen : Db) {db db' : Db} → disable_warehouse id seen db ≡ ok db' → Step db db'
  warehouse_enabled :
      (id : ℕ) (seen : Db) {db db' : Db} → enable_warehouse id seen db ≡ ok db' → Step db db'
  policy_created :
      (data_in : InventoryPolicy) (seen : Db) {db db' : Db} {id : ℕ}
      → create_policy data_in seen db ≡ ok (id, db')
      → Step db db'
  policy_updated :
      (id : ℕ) (data_in : PolicyEdit) (seen : Db) {db db' : Db}
      → update_policy id data_in seen db ≡ ok db'
      → Step db db'

-- What requests make of a database.
pub data Reach (start : Db) : Db → Type 0 where
  initial : Reach start start
  then_step : {db db' : Db} → Reach start db → Step db db' → Reach start db'
