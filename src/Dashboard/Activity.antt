-- ===== src/Dashboard/Activity.antt =====
-- The trend of the requisitions and the latest activities
-- (backend/app/services/dashboard_service.py). A day is a number, and today is an argument.
use manufacturing_erp_lite.Prelude.{
  ℕ, zero, suc, ◌-◌, Bool, true, false, not, ◌&&◌, Option, none, some, List, [], ◌∷◌, map,
  if◌then◌else◌, ◌==◌, leb, nat_eq,
}
use manufacturing_erp_lite.Prelude.Decimal.{Decimal, pos, ◌+ℤ◌}
use manufacturing_erp_lite.Prelude.Assoc.{Assoc, get}
use manufacturing_erp_lite.Enums.{PrStatus, AuditAction, is_pr_status}
use manufacturing_erp_lite.Store.{
  Db, CurrentUser, DocumentNo, PurchaseRequisition, OperationLog, InventoryTransaction,
}
use manufacturing_erp_lite.Query.{where_rows, order_by, limit, descending}
use manufacturing_erp_lite.Inventory.Read.{is_there, is_receipt_source}
use manufacturing_erp_lite.Requisition.Read.{visible_pr_condition}
use manufacturing_erp_lite.Dashboard.{Permission, has_perm, count_rows}

pub record DashboardTrendPoint : Type 0 where
  pub date : ℕ
  pub count : ℕ
  pub amount : Decimal

-- SUM(total_estimated_amount)
unfoldable pub sum_estimates : Assoc ℕ PurchaseRequisition → Decimal
sum_estimates [] = pos 0
sum_estimates ((i, pr) ∷ t) = pr.total_estimated_amount +ℤ sum_estimates t

-- The WHERE of the trend.
abbrev pub in_trend : ℕ → ℕ → Db → CurrentUser → PurchaseRequisition → Bool
in_trend start end db user pr =
    leb start pr.apply_date
    && leb pr.apply_date end
    && not (is_pr_status pr.status PrStatus.cancelled)
    && visible_pr_condition db user pr

-- The group of a day; a day without rows has 0 and 0.
unfoldable pub trend_point : Assoc ℕ PurchaseRequisition → ℕ → DashboardTrendPoint
unfolding count_rows where_rows sum_estimates
trend_point rows day = record {
  date = day;
  count = count_rows (λ r. (r.1).apply_date == day) rows;
  amount = sum_estimates (where_rows (λ r. (r.1).apply_date == day) rows);
}

-- `for offset in range(days)`, from `start`.
unfoldable pub trend_points : Assoc ℕ PurchaseRequisition → ℕ → ℕ → List DashboardTrendPoint
unfolding trend_point
trend_points rows start zero = []
trend_points rows start (suc days) = trend_point rows start ∷ trend_points rows (suc start) days

-- `start` is `today - (days - 1)`.
unfoldable pub pr_trend : List Permission → Db → CurrentUser → ℕ → ℕ → List DashboardTrendPoint
unfolding has_perm where_rows visible_pr_condition trend_points
pr_trend permissions db user today days =
    let start = suc today - days in
    if has_perm permissions Permission.pr_view
    then trend_points (where_rows (λ r. in_trend start today db user r.1) db.requisitions) start
        days
    else []

-- `action in _RECENT_ACTIONS`
abbrev pub is_recent_action : AuditAction → Bool
is_recent_action AuditAction.pr_create = true
is_recent_action AuditAction.pr_submit = true
is_recent_action AuditAction.pr_approve = true
is_recent_action AuditAction.pr_reject = true
is_recent_action AuditAction.pr_revise = true
is_recent_action AuditAction.pr_cancel = true
is_recent_action AuditAction.po_create = true
is_recent_action AuditAction.po_confirm = true
is_recent_action AuditAction.po_cancel = true
is_recent_action AuditAction.receipt_post = true
is_recent_action AuditAction.receipt_reverse = true
is_recent_action _ = false

-- The log has its newest row first, which is the order of the ids from the greatest down.
unfoldable pub recent_activities : List Permission → Db → ℕ → List OperationLog
unfolding has_perm where_rows limit
recent_activities permissions db top =
    if has_perm permissions Permission.dashboard_view
    then limit top (where_rows (λ log. is_recent_action log.action) db.operation_logs)
    else []

-- A row of the ledger with the number of the receipt that it comes from.
pub record InventoryActivityItem : Type 0 where
  pub id : ℕ
  pub transaction : InventoryTransaction
  pub reference_no : Option DocumentNo

-- The keys of `ref_map`: the receipts that the shown rows of receipts and reversals come from.
abbrev is_source_id : ℕ → ℕ × InventoryTransaction → Bool
is_source_id i r = elim (r.1).source_type [
  | none ↦ false
  | some t ↦ is_receipt_source t && elim (r.1).source_id [ none ↦ false | some j ↦ i == j ]
]

unfoldable pub is_among_sources : ℕ → Assoc ℕ InventoryTransaction → Bool
is_among_sources i [] = false
is_among_sources i (r ∷ rows) = if is_source_id i r then true else is_among_sources i rows

-- `ref_map.get(txn.source_id)`, whatever the type of the source.
abbrev reference_of : Db → Assoc ℕ InventoryTransaction → Option ℕ → Option DocumentNo
reference_of db rows none = none
reference_of db rows (some i) =
    if is_among_sources i rows
    then elim (get i db.receipts) [ none ↦ none | some receipt ↦ some receipt.receipt_no ]
    else none

unfoldable pub inventory_activities : List Permission → Db → ℕ → List InventoryActivityItem
unfolding has_perm where_rows order_by limit is_among_sources
inventory_activities permissions db top =
    let rows = limit top (
      order_by descending (
        where_rows
          (λ r.
            is_there (get (r.1).material_id db.materials)
            && is_there (get (r.1).warehouse_id db.warehouses))
          db.transactions)) in
    if has_perm permissions Permission.inventory_txn_view
    then map
        (λ r. record {
          id = r.0;
          transaction = r.1;
          reference_no = reference_of db rows (r.1).source_id;
        })
        rows
    else []
