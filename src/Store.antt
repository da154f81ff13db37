-- ===== src/Store.antt =====
-- The database that one request's transaction reads and writes: backend/app/models/, a record for
-- each table that a service of the purchase and inventory flow touches. A `Decimal` column is an
-- integer that counts its last place: 4 places for quantities and unit prices, 2 for amounts.
-- Dates and times are numbers. Left out are text that is only displayed, and the times created_at and
-- updated_at of TimestampMixin, which every INSERT and UPDATE writes and no service reads.
-- AUTO_INCREMENT ids come
-- from one counter, `last_id`: an id is above every id given before.
mod Documents
mod Stock
pub use Documents.*
pub use Stock.*
use manufacturing_erp_lite.Prelude.{ℕ, suc, ◌+◌, Bool, Option, List, if◌then◌else◌}
use manufacturing_erp_lite.Prelude.Assoc.{Assoc}
use manufacturing_erp_lite.Enums.{ActiveStatus, DeptStatus, UserStatus, RoleCode, AuditAction}

-- The user of the request, from its token.
pub record CurrentUser : Type 0 where
  pub id : ℕ
  pub role_code : RoleCode
  pub role_id : ℕ
  pub department_id : Option ℕ

-- A row of operation_logs.
pub record OperationLog : Type 0 where
  pub action : AuditAction
  pub document_id : ℕ

pub record Db : Type 0 where
  pub last_id : ℕ
  pub sequences : Assoc (ℕ × ℕ) ℕ  -- (key, date) to current_value
  pub materials : Assoc ℕ ActiveStatus
  pub suppliers : Assoc ℕ ActiveStatus
  pub warehouses : Assoc ℕ ActiveStatus
  pub policies : Assoc ℕ InventoryPolicy
  pub departments : Assoc ℕ DeptStatus
  pub users : Assoc ℕ UserStatus
  pub department_managers : List (ℕ × ℕ)  -- (dept_id, user_id)
  pub requisitions : Assoc ℕ PurchaseRequisition
  pub requisition_items : Assoc ℕ PurchaseRequisitionItem
  pub orders : Assoc ℕ PurchaseOrder
  pub order_items : Assoc ℕ PurchaseOrderItem
  pub order_item_sources : Assoc ℕ PurchaseOrderItemSource
  pub approval_records : Assoc ℕ ApprovalRecord
  pub receipts : Assoc ℕ PurchaseReceipt
  pub receipt_items : Assoc ℕ PurchaseReceiptItem
  pub balances : Assoc (ℕ × ℕ) InventoryBalance  -- (warehouse_id, material_id)
  pub transactions : Assoc ℕ InventoryTransaction
  pub reconciliations : Assoc ℕ StockReconciliation
  pub reconciliation_items : Assoc ℕ StockReconciliationItem
  pub operation_logs : List OperationLog

-- The id of the next row.
abbrev pub next_id : Db → ℕ
next_id db = suc db.last_id

-- A column that a flush writes: the ORM leaves out an attribute that is as it was loaded.
abbrev pub column {ℓ} : {A : Type ℓ} → Bool → A → A → A
column is_same current new = if is_same then current else new
