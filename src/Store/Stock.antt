-- ===== src/Store/Stock.antt =====
-- backend/app/models/inventory.py and reconciliation.py, receipts, balances, the ledger and counts,
-- and InventoryPolicy of masterdata.py.
use manufacturing_erp_lite.Prelude.{ℕ, Bool, Option}
use manufacturing_erp_lite.Prelude.Decimal.{Decimal}
use manufacturing_erp_lite.Enums.{ReceiptStatus, ReconciliationStatus, TxnType, TxnSourceType}
use manufacturing_erp_lite.Store.Documents.{DocumentNo}

pub record PurchaseReceipt : Type 0 where
  pub receipt_no : DocumentNo
  pub po_id : ℕ
  pub warehouse_id : ℕ
  pub received_by : ℕ
  pub received_at : ℕ
  pub status : ReceiptStatus
  pub reversed_by : Option ℕ
  pub reversed_at : Option ℕ

pub record PurchaseReceiptItem : Type 0 where
  pub receipt_id : ℕ
  pub po_item_id : ℕ
  pub line_no : ℕ
  pub material_id : ℕ
  pub received_quantity : Decimal
  pub unit_price : Decimal
  pub amount : Decimal

pub record InventoryBalance : Type 0 where
  pub quantity : Decimal
  pub total_amount : Decimal
  pub average_unit_cost : Decimal
  pub version : ℕ
  pub last_transaction_at : Option ℕ

pub record InventoryTransaction : Type 0 where
  pub txn_no : DocumentNo
  pub transaction_type : TxnType
  pub warehouse_id : ℕ
  pub material_id : ℕ
  pub quantity : Decimal
  pub unit_cost : Decimal
  pub amount : Decimal
  pub balance_after : Decimal
  pub source_type : Option TxnSourceType
  pub source_id : Option ℕ
  pub source_item_id : Option ℕ
  pub reversed_transaction_id : Option ℕ
  pub transaction_at : ℕ
  pub created_by : ℕ

pub record StockReconciliation : Type 0 where
  pub reconciliation_no : DocumentNo
  pub warehouse_id : ℕ
  pub counted_by : ℕ
  pub counted_on : ℕ
  pub status : ReconciliationStatus
  pub submitted_at : Option ℕ
  pub posted_at : Option ℕ
  pub approved_by : Option ℕ
  pub override_self_approval : Bool
  pub version : ℕ

pub record StockReconciliationItem : Type 0 where
  pub reconciliation_id : ℕ
  pub line_no : ℕ
  pub material_id : ℕ
  pub book_quantity_snapshot : Decimal
  pub book_total_amount_snapshot : Decimal
  pub book_avg_cost_snapshot : Decimal
  pub book_last_transaction_id_snapshot : Option ℕ
  pub physical_quantity : Decimal
  pub difference_quantity : Decimal
  pub valuation_rate : Option Decimal
  pub adjustment_amount : Decimal

-- `min_stock`, which no service reads or writes, is left out.
pub record InventoryPolicy : Type 0 where
  pub warehouse_id : ℕ
  pub material_id : ℕ
  pub safety_stock : Decimal
  pub reorder_point : Option Decimal
  pub max_stock : Option Decimal
