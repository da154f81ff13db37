-- ===== src/Enums.antt =====
-- backend/app/utils/enums.py: the domain enumerations, and the tests of membership that the
-- services make on them.
use manufacturing_erp_lite.Prelude.{ℕ, Bool, true, false, ◌==◌}

pub data ActiveStatus : Type 0 where
  active disabled : ActiveStatus

pub data DeptStatus : Type 0 where
  active inactive : DeptStatus

pub data UserStatus : Type 0 where
  active disabled : UserStatus

pub data PrStatus : Type 0 where
  draft pending approved rejected cancelled converted : PrStatus

pub data PoStatus : Type 0 where
  draft confirmed partially_received received cancelled : PoStatus

pub data ReceiptStatus : Type 0 where
  posted reversed : ReceiptStatus

pub data ReconciliationStatus : Type 0 where
  draft pending posted rejected cancelled reversed : ReconciliationStatus

pub data TxnType : Type 0 where
  purchase_in purchase_in_reversal adjust_in adjust_out production_out production_in : TxnType

pub data TxnSourceType : Type 0 where
  purchase_receipt purchase_receipt_reversal manual_adjust : TxnSourceType
  production_issue production_receipt stock_reconciliation : TxnSourceType

pub data ApprovalAction : Type 0 where
  submit approve reject cancel : ApprovalAction

pub data RoleCode : Type 0 where
  admin applicant dept_manager buyer warehouse : RoleCode

pub data AuditAction : Type 0 where
  login login_failed : AuditAction
  pr_create pr_update pr_submit pr_approve pr_reject pr_revise pr_cancel : AuditAction
  po_create po_confirm po_cancel receipt_post receipt_reverse permission_change : AuditAction
  material_create material_update material_disable material_enable : AuditAction
  supplier_create supplier_update supplier_disable supplier_enable : AuditAction
  warehouse_create warehouse_update warehouse_disable warehouse_enable : AuditAction
  inventory_policy_change : AuditAction
  stock_count_create stock_count_submit stock_count_approve stock_count_reject : AuditAction

pub data SequenceKey : Type 0 where
  material supplier warehouse purchase_requisition purchase_order : SequenceKey
  purchase_receipt inventory_transaction stock_reconciliation : SequenceKey

-- `key in GLOBAL_SEQUENCE_KEYS`
abbrev pub is_global_key : SequenceKey → Bool
is_global_key SequenceKey.material = true
is_global_key SequenceKey.supplier = true
is_global_key SequenceKey.warehouse = true
is_global_key _ = false

-- `key.value`, as the number that stands for it in the sequence table.
abbrev pub sequence_code : SequenceKey → ℕ
sequence_code SequenceKey.material = 0
sequence_code SequenceKey.supplier = 1
sequence_code SequenceKey.warehouse = 2
sequence_code SequenceKey.purchase_requisition = 3
sequence_code SequenceKey.purchase_order = 4
sequence_code SequenceKey.purchase_receipt = 5
sequence_code SequenceKey.inventory_transaction = 6
sequence_code SequenceKey.stock_reconciliation = 7

-- `txn_type in _OUTBOUND_TYPES`
abbrev pub is_outbound : TxnType → Bool
is_outbound TxnType.purchase_in_reversal = true
is_outbound TxnType.adjust_out = true
is_outbound TxnType.production_out = true
is_outbound _ = false

abbrev pub is_active : ActiveStatus → Bool
is_active ActiveStatus.active = true
is_active ActiveStatus.disabled = false

abbrev pub is_active_dept : DeptStatus → Bool
is_active_dept DeptStatus.active = true
is_active_dept DeptStatus.inactive = false

abbrev pub is_active_user : UserStatus → Bool
is_active_user UserStatus.active = true
is_active_user UserStatus.disabled = false

abbrev pub is_admin : RoleCode → Bool
is_admin RoleCode.admin = true
is_admin _ = false

-- The ordinal of a status, by which statuses are compared.
abbrev pub pr_ordinal : PrStatus → ℕ
pr_ordinal PrStatus.draft = 0
pr_ordinal PrStatus.pending = 1
pr_ordinal PrStatus.approved = 2
pr_ordinal PrStatus.rejected = 3
pr_ordinal PrStatus.cancelled = 4
pr_ordinal PrStatus.converted = 5

abbrev pub po_ordinal : PoStatus → ℕ
po_ordinal PoStatus.draft = 0
po_ordinal PoStatus.confirmed = 1
po_ordinal PoStatus.partially_received = 2
po_ordinal PoStatus.received = 3
po_ordinal PoStatus.cancelled = 4

abbrev pub reconciliation_ordinal : ReconciliationStatus → ℕ
reconciliation_ordinal ReconciliationStatus.draft = 0
reconciliation_ordinal ReconciliationStatus.pending = 1
reconciliation_ordinal ReconciliationStatus.posted = 2
reconciliation_ordinal ReconciliationStatus.rejected = 3
reconciliation_ordinal ReconciliationStatus.cancelled = 4
reconciliation_ordinal ReconciliationStatus.reversed = 5

abbrev pub is_pr_status : PrStatus → PrStatus → Bool
is_pr_status a b = pr_ordinal a == pr_ordinal b

abbrev pub is_po_status : PoStatus → PoStatus → Bool
is_po_status a b = po_ordinal a == po_ordinal b

abbrev pub is_reconciliation_status : ReconciliationStatus → ReconciliationStatus → Bool
is_reconciliation_status a b = reconciliation_ordinal a == reconciliation_ordinal b

abbrev pub is_active_status : ActiveStatus → ActiveStatus → Bool
is_active_status ActiveStatus.active b = is_active b
is_active_status ActiveStatus.disabled ActiveStatus.active = false
is_active_status ActiveStatus.disabled ActiveStatus.disabled = true
