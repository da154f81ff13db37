-- ===== src/System/Books.antt =====
-- The ledger and the balances agree after any requests (backend/app/services/).
use manufacturing_erp_lite.Prelude.{◌≡◌, ap}
use manufacturing_erp_lite.Store.{Db}
use manufacturing_erp_lite.Inventory.Ledger.{Reconciled}
use manufacturing_erp_lite.Receipt.Ends.{Reconciled-stock}
use manufacturing_erp_lite.Receipt.Books.{create_receipt-Reconciled, reverse_receipt-Reconciled}
use manufacturing_erp_lite.Requisition.Frame.{heads}
use manufacturing_erp_lite.Requisition.Stock.{
  create_pr-stock, update_pr-stock, submit_pr-stock, cancel_pr-stock, approve_pr-stock,
  reject_pr-stock, revise_pr-stock,
}
use manufacturing_erp_lite.Order.Stock.{create_po-stock, confirm_po-heads, cancel_po-stock}
use manufacturing_erp_lite.Reconciliation.Books.{approve_reconciliation-Reconciled}
use manufacturing_erp_lite.Reconciliation.Keeps.{
  create_reconciliation-heads, update_reconciliation-heads, submit_reconciliation-heads,
  reject_reconciliation-heads,
}
use manufacturing_erp_lite.Master.Frame
use manufacturing_erp_lite.System.{
  Step, Reach, initial, then_step, pr_created, pr_updated, pr_submitted, pr_cancelled, pr_approved,
  pr_rejected, pr_revised, po_created, po_confirmed, po_cancelled, receipt_posted, receipt_reversed,
  count_created, count_updated, count_submitted, count_rejected, count_approved, material_created,
  material_updated, material_disabled, material_enabled, supplier_created, supplier_updated,
  supplier_disabled, supplier_enabled, warehouse_created, warehouse_updated, warehouse_disabled,
  warehouse_enabled, policy_created, policy_updated,
}

by_heads : (db db' : Db) → heads db' ≡ heads db → Reconciled db → Reconciled db'
by_heads db db' h r = Reconciled-stock (ap (λ x. x.0) h) r

-- A request keeps the agreement.
pub Step-Reconciled : {db db' : Db} → Step db db' → Reconciled db → Reconciled db'
Step-Reconciled (pr_created data_in user seen h) r =
    Reconciled-stock (create_pr-stock data_in user seen _ h) r
Step-Reconciled (pr_updated violates id data_in user seen h) r =
    Reconciled-stock (update_pr-stock violates id data_in user seen _ h) r
Step-Reconciled (pr_submitted id user now seen h) r =
    Reconciled-stock (submit_pr-stock id user now seen _ h) r
Step-Reconciled (pr_cancelled id user seen h) r =
    Reconciled-stock (cancel_pr-stock id user seen _ h) r
Step-Reconciled (pr_approved id version user seen h) r =
    Reconciled-stock (approve_pr-stock id version user seen _ h) r
Step-Reconciled (pr_rejected id version user seen h) r =
    Reconciled-stock (reject_pr-stock id version user seen _ h) r
Step-Reconciled (pr_revised id version user seen h) r =
    Reconciled-stock (revise_pr-stock id version user seen _ h) r
Step-Reconciled (po_created data_in user seen h) r =
    Reconciled-stock (create_po-stock data_in user seen _ h) r
Step-Reconciled {db' = db'} (po_confirmed id version user seen h) r =
    by_heads _ db' (confirm_po-heads id version user seen _ h) r
Step-Reconciled (po_cancelled id version user seen h) r =
    Reconciled-stock (cancel_po-stock id version user seen _ h) r
Step-Reconciled (receipt_posted data_in user at seen h) r =
    create_receipt-Reconciled data_in user at seen _ r h
Step-Reconciled (receipt_reversed id user today now seen h) r =
    reverse_receipt-Reconciled id user today now seen _ r h
Step-Reconciled {db' = db'} (count_created data_in user today seen h) r =
    by_heads _ db' (create_reconciliation-heads data_in user today seen _ h) r
Step-Reconciled {db' = db'} (count_updated violates id data_in user seen h) r =
    by_heads _ db' (update_reconciliation-heads violates id data_in user seen _ h) r
Step-Reconciled {db' = db'} (count_submitted id version user now seen h) r =
    by_heads _ db' (submit_reconciliation-heads id version user now seen _ h) r
Step-Reconciled {db' = db'} (count_rejected id user seen h) r =
    by_heads _ db' (reject_reconciliation-heads id user seen _ h) r
Step-Reconciled (count_approved has_override id payload user today now seen h) r =
    approve_reconciliation-Reconciled has_override id payload user today now seen _ r h
Step-Reconciled (material_created today db) r =
    by_heads db _ (Frame.create_material-heads today db) r
Step-Reconciled {db' = db'} (material_updated id seen h) r =
    by_heads _ db' (Frame.update_material-heads id seen _ h) r
Step-Reconciled {db' = db'} (material_disabled id seen h) r =
    by_heads _ db' (Frame.disable_material-heads id seen _ h) r
Step-Reconciled {db' = db'} (material_enabled id seen h) r =
    by_heads _ db' (Frame.enable_material-heads id seen _ h) r
Step-Reconciled (supplier_created today db) r =
    by_heads db _ (Frame.create_supplier-heads today db) r
Step-Reconciled {db' = db'} (supplier_updated id seen h) r =
    by_heads _ db' (Frame.update_supplier-heads id seen _ h) r
Step-Reconciled {db' = db'} (supplier_disabled id seen h) r =
    by_heads _ db' (Frame.disable_supplier-heads id seen _ h) r
Step-Reconciled {db' = db'} (supplier_enabled id seen h) r =
    by_heads _ db' (Frame.enable_supplier-heads id seen _ h) r
Step-Reconciled (warehouse_created today db) r =
    by_heads db _ (Frame.create_warehouse-heads today db) r
Step-Reconciled {db' = db'} (warehouse_updated id seen h) r =
    by_heads _ db' (Frame.update_warehouse-heads id seen _ h) r
Step-Reconciled {db' = db'} (warehouse_disabled id seen h) r =
    by_heads _ db' (Frame.disable_warehouse-heads id seen _ h) r
Step-Reconciled {db' = db'} (warehouse_enabled id seen h) r =
    by_heads _ db' (Frame.enable_warehouse-heads id seen _ h) r
Step-Reconciled {db' = db'} (policy_created data_in seen h) r =
    by_heads _ db' (Frame.create_policy-heads data_in seen _ h) r
Step-Reconciled {db' = db'} (policy_updated id data_in seen h) r =
    by_heads _ db' (Frame.update_policy-heads id data_in seen _ h) r

-- Where the ledger and the balances agree at the start, they agree after any requests in any order,
-- whatever stale copies each of them decided on.
pub Reach-Reconciled : {start db : Db} → Reach start db → Reconciled start → Reconciled db
Reach-Reconciled initial r = r
Reach-Reconciled (then_step before step) r = Step-Reconciled step (Reach-Reconciled before r)
