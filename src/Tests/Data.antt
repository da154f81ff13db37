-- ===== src/Tests/Data.antt =====
-- One database with two materials, and the requests that the examples make of it.
use manufacturing_erp_lite.Prelude.{ℕ, false, none, some, [], ◌∷◌}
use manufacturing_erp_lite.Prelude.Decimal.{pos}
use manufacturing_erp_lite.Enums.{
  ActiveStatus, DeptStatus, UserStatus, PoStatus, PrStatus, RoleCode, SequenceKey,
}
use manufacturing_erp_lite.Store.{
  Db, CurrentUser, PurchaseOrder, PurchaseOrderItem, PurchaseRequisition, PurchaseRequisitionItem,
}
use manufacturing_erp_lite.Receipt.Defs.{ReceiptIn}
use manufacturing_erp_lite.Order.Defs.{OrderIn}
use manufacturing_erp_lite.Reconciliation.Defs.{ReconciliationIn, ApproveIn}

abbrev pub keeper : CurrentUser
keeper = record { id = 7; role_code = RoleCode.admin; role_id = 1; department_id = some 3 }

abbrev pub counter : CurrentUser
counter = record { id = 8; role_code = RoleCode.warehouse; role_id = 5; department_id = none }

abbrev pub ordered_item : ℕ → PurchaseOrderItem
ordered_item material_id = record {
  po_id = 20;
  line_no = material_id;
  material_id = material_id;
  ordered_quantity = pos 100_000;
  received_quantity = pos 0;
  unit_price = pos 25_000;
  amount = pos 2_500;
}

abbrev pub confirmed_order : PurchaseOrder
confirmed_order = record {
  po_no = record { key = SequenceKey.purchase_order; day = 1; seq = 1 };
  supplier_id = 4;
  buyer_id = 7;
  order_date = 1;
  expected_date = none;
  status = PoStatus.confirmed;
  total_amount = pos 5_000;
  version = 2;
  created_by = 7;
  updated_by = 7;
}

abbrev pub pending_requisition : PurchaseRequisition
pending_requisition = record {
  pr_no = record { key = SequenceKey.purchase_requisition; day = 1; seq = 1 };
  applicant_id = 7;
  department_id = 3;
  apply_date = 1;
  status = PrStatus.pending;
  total_estimated_amount = pos 0;
  submitted_at = some 5;
  version = 2;
  created_by = 7;
  updated_by = 7;
}

abbrev pub draft_requisition : PurchaseRequisition
draft_requisition = record pending_requisition { status = PrStatus.draft; version = 4 }

abbrev approved_requisition : PurchaseRequisition
approved_requisition = record pending_requisition { status = PrStatus.approved; version = 3 }

abbrev requisition_item : ℕ → PurchaseRequisitionItem
requisition_item pr_id = record {
  pr_id = pr_id;
  line_no = 1;
  material_id = 1;
  requested_quantity = pos 100_000;
  converted_quantity = pos 0;
  estimated_unit_price = pos 25_000;
  estimated_amount = pos 2_500;
  required_date = none;
}

abbrev pub db0 : Db
db0 = record {
  last_id = 100;
  sequences = [];
  materials = (1, ActiveStatus.active) ∷ (2, ActiveStatus.active) ∷ [];
  suppliers = (4, ActiveStatus.active) ∷ [];
  warehouses = (9, ActiveStatus.active) ∷ [];
  policies = [];
  departments = (3, DeptStatus.active) ∷ [];
  users = (7, UserStatus.active) ∷ (8, UserStatus.active) ∷ [];
  department_managers = [];
  requisitions =
      (32, draft_requisition) ∷ (31, approved_requisition) ∷ (30, pending_requisition) ∷ [];
  requisition_items =
      (42, requisition_item 32) ∷ (41, requisition_item 31) ∷ (40, requisition_item 30) ∷ [];
  orders = (20, confirmed_order) ∷ [];
  order_items = (22, ordered_item 2) ∷ (21, ordered_item 1) ∷ [];
  order_item_sources = [];
  approval_records = [];
  receipts = [];
  receipt_items = [];
  balances = [];
  transactions = [];
  reconciliations = [];
  reconciliation_items = [];
  operation_logs = [];
}

-- Two lines, the second item first.
abbrev pub delivery : ReceiptIn
delivery = record {
  po_id = 20;
  warehouse_id = 9;
  receipt_date = 2;
  items =
      record { po_item_id = 22; received_quantity = pos 100_000 }
      ∷ record { po_item_id = 21; received_quantity = pos 40_000 }
      ∷ [];
}

-- One piece more than the order has of material 1, one fewer of material 2.
abbrev pub count : ReconciliationIn
count = record {
  warehouse_id = 9;
  items =
      record {
        material_id = 1;
        physical_quantity = pos 50_000;
        valuation_rate = some (record { coefficient = pos 30_000; scale = 1 });
      }
      ∷ record { material_id = 2; physical_quantity = pos 90_000; valuation_rate = none }
      ∷ [];
}

abbrev pub plain_approval : ApproveIn
plain_approval = record { override_self_approval = false; has_override_reason = false }

abbrev pub order_request : OrderIn
order_request = record {
  supplier_id = 4;
  order_date = 2;
  expected_date = none;
  items =
      record {
        material_id = 1;
        ordered_quantity = pos 60_000;
        unit_price = pos 25_000;
        sources = record { pr_item_id = 41; quantity = pos 60_000 } ∷ [];
      }
      ∷ [];
}
