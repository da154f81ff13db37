-- ===== src/System/Lifecycle.antt =====
-- The lifecycle of the requisitions while requests of any kind run (backend/app/services/).
use manufacturing_erp_lite.Prelude.{◌≡◌, ap, sym, subst}
use manufacturing_erp_lite.Store.{Db}
use manufacturing_erp_lite.Receipt.Others.{
  create_receipt-requisitions, reverse_receipt-requisitions,
}
use manufacturing_erp_lite.Requisition.Frame.{heads}
use manufacturing_erp_lite.Requisition.Related.{Related, SameStatus}
use manufacturing_erp_lite.Requisition.Lifecycle.{IsMove, stays, Moved}
use manufacturing_erp_lite.Requisition.Moves.{
  IsIssued, create_pr-SameStatus, update_pr-SameStatus, submit_pr-Moved, cancel_pr-Moved,
  approve_pr-Moved, reject_pr-Moved, revise_pr-Moved,
}
use manufacturing_erp_lite.Order.Stock.{confirm_po-heads}
use manufacturing_erp_lite.Order.Lifecycle.{create_po-Moved, cancel_po-Moved}
use manufacturing_erp_lite.Reconciliation.Keeps.{
  create_reconciliation-heads, update_reconciliation-heads, submit_reconciliation-heads,
  reject_reconciliation-heads,
}
use manufacturing_erp_lite.Reconciliation.Others.{approve_reconciliation-requisitions}
use manufacturing_erp_lite.Master.Frame
use manufacturing_erp_lite.System.{
  Step, pr_created, pr_updated, pr_submitted, pr_cancelled, pr_approved, pr_rejected, pr_revised,
  po_created, po_confirmed, po_cancelled, receipt_posted, receipt_reversed, count_created,
  count_updated, count_submitted, count_rejected, count_approved, material_created,
  material_updated, material_disabled, material_enabled, supplier_created, supplier_updated,
  supplier_disabled, supplier_enabled, warehouse_created, warehouse_updated, warehouse_disabled,
  warehouse_enabled, policy_created, policy_updated,
}

unchanged :
    (db db' : Db)
    → db'.requisitions ≡ db.requisitions
    → Related Moved db.requisitions db'.requisitions
unchanged db db' e =
    subst (Related Moved db.requisitions) (sym e) (λ id row there. (row, there, stays))

by_heads : (db db' : Db) → heads db' ≡ heads db → Related Moved db.requisitions db'.requisitions
by_heads db db' h = unchanged db db' (ap (λ x. x.1) h)

by_status :
    (db db' : Db)
    → Related SameStatus db.requisitions db'.requisitions
    → Related Moved db.requisitions db'.requisitions
by_status db db' same id row there =
    let (row', there', e) = same id row there in
    (row', there', subst (IsMove row.status) (sym e) stays)

-- Where every id of a requisition has been given out, no request makes a requisition disappear, and a
-- request leaves its status or moves it one step along the lifecycle: a draft to pending or
-- cancelled, pending to approved or rejected, rejected to draft, approved to cancelled or converted,
-- and converted back to approved. It holds whatever stale copies the request decided on.
pub Step-Moved :
    {db db' : Db} → IsIssued db → Step db db' → Related Moved db.requisitions db'.requisitions
Step-Moved {db} {db'} issued (pr_created data_in user seen h) =
    by_status db db' (create_pr-SameStatus data_in user seen _ issued h)
Step-Moved {db} {db'} issued (pr_updated violates id data_in user seen h) =
    by_status db db' (update_pr-SameStatus violates id data_in user seen _ h)
Step-Moved issued (pr_submitted id user now seen h) = submit_pr-Moved id user now seen _ h
Step-Moved issued (pr_cancelled id user seen h) = cancel_pr-Moved id user seen _ h
Step-Moved issued (pr_approved id version user seen h) = approve_pr-Moved id version user seen _ h
Step-Moved issued (pr_rejected id version user seen h) = reject_pr-Moved id version user seen _ h
Step-Moved issued (pr_revised id version user seen h) = revise_pr-Moved id version user seen _ h
Step-Moved issued (po_created data_in user seen h) = create_po-Moved data_in user seen _ h
Step-Moved {db} {db'} issued (po_confirmed id version user seen h) =
    by_heads db db' (confirm_po-heads id version user seen _ h)
Step-Moved issued (po_cancelled id version user seen h) = cancel_po-Moved id version user seen _ h
Step-Moved {db} {db'} issued (receipt_posted data_in user at seen h) =
    unchanged db db' (create_receipt-requisitions data_in user at seen _ h)
Step-Moved {db} {db'} issued (receipt_reversed id user today now seen h) =
    unchanged db db' (reverse_receipt-requisitions id user today now seen _ h)
Step-Moved {db} {db'} issued (count_created data_in user today seen h) =
    by_heads db db' (create_reconciliation-heads data_in user today seen _ h)
Step-Moved {db} {db'} issued (count_updated violates id data_in user seen h) =
    by_heads db db' (update_reconciliation-heads violates id data_in user seen _ h)
Step-Moved {db} {db'} issued (count_submitted id version user now seen h) =
    by_heads db db' (submit_reconciliation-heads id version user now seen _ h)
Step-Moved {db} {db'} issued (count_rejected id user seen h) =
    by_heads db db' (reject_reconciliation-heads id user seen _ h)
Step-Moved {db} {db'} issued (count_approved has_override id payload user today now seen h) =
    unchanged db db'
      (approve_reconciliation-requisitions has_override id payload user today now seen _ h)
Step-Moved {db' = db'} issued (material_created today db) =
    by_heads db db' (Frame.create_material-heads today db)
Step-Moved {db} {db'} issued (material_updated id seen h) =
    by_heads db db' (Frame.update_material-heads id seen _ h)
Step-Moved {db} {db'} issued (material_disabled id seen h) =
    by_heads db db' (Frame.disable_material-heads id seen _ h)
Step-Moved {db} {db'} issued (material_enabled id seen h) =
    by_heads db db' (Frame.enable_material-heads id seen _ h)
Step-Moved {db' = db'} issued (supplier_created today db) =
    by_heads db db' (Frame.create_supplier-heads today db)
Step-Moved {db} {db'} issued (supplier_updated id seen h) =
    by_heads db db' (Frame.update_supplier-heads id seen _ h)
Step-Moved {db} {db'} issued (supplier_disabled id seen h) =
    by_heads db db' (Frame.disable_supplier-heads id seen _ h)
Step-Moved {db} {db'} issued (supplier_enabled id seen h) =
    by_heads db db' (Frame.enable_supplier-heads id seen _ h)
Step-Moved {db' = db'} issued (warehouse_created today db) =
    by_heads db db' (Frame.create_warehouse-heads today db)
Step-Moved {db} {db'} issued (warehouse_updated id seen h) =
    by_heads db db' (Frame.update_warehouse-heads id seen _ h)
Step-Moved {db} {db'} issued (warehouse_disabled id seen h) =
    by_heads db db' (Frame.disable_warehouse-heads id seen _ h)
Step-Moved {db} {db'} issued (warehouse_enabled id seen h) =
    by_heads db db' (Frame.enable_warehouse-heads id seen _ h)
Step-Moved {db} {db'} issued (policy_created data_in seen h) =
    by_heads db db' (Frame.create_policy-heads data_in seen _ h)
Step-Moved {db} {db'} issued (policy_updated id data_in seen h) =
    by_heads db db' (Frame.update_policy-heads id data_in seen _ h)
