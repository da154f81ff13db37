-- ===== src/Store/Documents.antt =====
-- backend/app/models/purchase.py: requisitions, orders, their mapping and the approval records.
use manufacturing_erp_lite.Prelude.{ℕ, Bool, Option}
use manufacturing_erp_lite.Prelude.Decimal.{Decimal}
use manufacturing_erp_lite.Enums.{PrStatus, PoStatus, ApprovalAction, SequenceKey}

-- A number such as PO-20260901-0001: its series, its day and its place in the day.
pub record DocumentNo : Type 0 where
  pub key : SequenceKey
  pub day : ℕ
  pub seq : ℕ

pub record PurchaseRequisition : Type 0 where
  pub pr_no : DocumentNo
  pub applicant_id : ℕ
  pub department_id : ℕ
  pub apply_date : ℕ
  pub status : PrStatus
  pub total_estimated_amount : Decimal
  pub submitted_at : Option ℕ
  pub version : ℕ
  pub created_by : ℕ
  pub updated_by : ℕ

pub record PurchaseRequisitionItem : Type 0 where
  pub pr_id : ℕ
  pub line_no : ℕ
  pub material_id : ℕ
  pub requested_quantity : Decimal
  pub converted_quantity : Decimal
  pub estimated_unit_price : Decimal
  pub estimated_amount : Decimal
  pub required_date : Option ℕ

pub record PurchaseOrder : Type 0 where
  pub po_no : DocumentNo
  pub supplier_id : ℕ
  pub buyer_id : ℕ
  pub order_date : ℕ
  pub expected_date : Option ℕ
  pub status : PoStatus
  pub total_amount : Decimal
  pub version : ℕ
  pub created_by : ℕ
  pub updated_by : ℕ

pub record PurchaseOrderItem : Type 0 where
  pub po_id : ℕ
  pub line_no : ℕ
  pub material_id : ℕ
  pub ordered_quantity : Decimal
  pub received_quantity : Decimal
  pub unit_price : Decimal
  pub amount : Decimal

pub record PurchaseOrderItemSource : Type 0 where
  pub po_item_id : ℕ
  pub pr_item_id : ℕ
  pub quantity : Decimal

-- `is_admin_override` is what `step_name` tells.
pub record ApprovalRecord : Type 0 where
  pub document_id : ℕ
  pub is_admin_override : Bool
  pub approver_id : ℕ
  pub action : ApprovalAction
  pub from_status : PrStatus
  pub to_status : PrStatus
