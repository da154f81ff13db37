-- ===== src/Tests/Reading.antt =====
-- What users may read, and the pages of a list.
use manufacturing_erp_lite.Prelude.{
  ℕ, ◌≡◌, ◌↔◌, refl, true, none, some, List, [], ◌∷◌, ◌==◌, ◌||◌, arith, nat_eq,
}
use mathlib.Core.List.{Memᴰ}
use manufacturing_erp_lite.Prelude.Assoc.{get}
use manufacturing_erp_lite.Enums.{PrStatus, ReceiptStatus, RoleCode, SequenceKey}
use manufacturing_erp_lite.Errors.{ok}
use manufacturing_erp_lite.Store.{CurrentUser, PurchaseReceipt}
use manufacturing_erp_lite.Query.Paging.{pages, pages-all}
use manufacturing_erp_lite.Requisition.Defs.{is_manager}
use manufacturing_erp_lite.Requisition.Read.{PrFilter, get_pr, listed_prs}
use manufacturing_erp_lite.Requisition.Scope.{get_pr-listed, get_pr-dept_manager}
use manufacturing_erp_lite.Order.Read.{PoFilter, get_po, listed_pos}
use manufacturing_erp_lite.Order.Scope.{get_po-listed}
use manufacturing_erp_lite.Receipt.Read.{ReceiptFilter, get_receipt, listed_receipts}
use manufacturing_erp_lite.Receipt.Scope.{get_receipt-listed}
use manufacturing_erp_lite.Tests.Steps.{steps}
use manufacturing_erp_lite.Tests.Data.{counter, db0, pending_requisition, confirmed_order}
use manufacturing_erp_lite.Tests.Stock.{received}
use manufacturing_erp_lite.Tests.Requests.{pending_there}

abbrev all_prs : PrFilter
all_prs = record {
  pr_no = λ n. true;
  applicant = λ id. true;
  department_id = none;
  status = some PrStatus.pending;
  apply_date_from = some 1;
  apply_date_to = none;
}

get_pr-listed_example :
    (get_pr db0 30 counter ≡ ok pending_requisition)
    ↔ Memᴰ (30, pending_requisition) (listed_prs db0 counter all_prs)
get_pr-listed_example = get_pr-listed counter 30 all_prs db0 (λ e. cc) pending_there refl

abbrev manager : CurrentUser
manager = record { id = 5; role_code = RoleCode.dept_manager; role_id = 3; department_id = some 1 }

get_pr-dept_manager_example :
    (get_pr db0 30 manager ≡ ok pending_requisition)
    × (Memᴰ (30, pending_requisition) (listed_prs db0 manager all_prs)
        → ((7 == 5) || is_manager 3 5 []) ≡ true)
get_pr-dept_manager_example = get_pr-dept_manager manager 30 all_prs db0 refl pending_there

abbrev all_pos : PoFilter
all_pos = record {
  po_no = λ n. true;
  supplier_id = some 4;
  status = none;
  order_date_from = none;
  order_date_to = some 8;
}

confirmed_there : get 20 db0.orders ≡ some confirmed_order
unfolding get
confirmed_there = refl

get_po-listed_example :
    (get_po db0 20 manager ≡ ok confirmed_order)
    ↔ Memᴰ (20, confirmed_order) (listed_pos db0 manager all_pos)
get_po-listed_example = get_po-listed manager 20 all_pos db0 confirmed_there refl

abbrev posted_receipt : PurchaseReceipt
posted_receipt = record {
  receipt_no = record { key = SequenceKey.purchase_receipt; day = 2; seq = 1 };
  po_id = 20;
  warehouse_id = 9;
  received_by = 7;
  received_at = 20;
  status = ReceiptStatus.posted;
  reversed_by = none;
  reversed_at = none;
}

abbrev all_receipts : ReceiptFilter
all_receipts = record {
  receipt_no = λ n. true;
  po_no = λ id. true;
  po_id = none;
  warehouse_id = some 9;
  status = some ReceiptStatus.posted;
  received_from = none;
  received_to = none;
}

receipt_there : get received.0 received.1.receipts ≡ some posted_receipt
unfolding steps
receipt_there = refl

get_receipt-listed_example :
    (get_receipt received.1 received.0 counter ≡ ok posted_receipt)
    ↔ Memᴰ (received.0, posted_receipt) (listed_receipts received.1 counter all_receipts)
get_receipt-listed_example =
    get_receipt-listed counter received.0 all_receipts received.1 receipt_there refl

-- Two pages of two rows.
abbrev three_rows : List ℕ
three_rows = 1 ∷ 2 ∷ 3 ∷ []

pages-all_example : pages 2 2 three_rows ≡ three_rows
pages-all_example = pages-all 2 2 three_rows (omega arith)
