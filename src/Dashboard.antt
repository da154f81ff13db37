-- ===== src/Dashboard.antt =====
-- backend/app/services/dashboard_service.py: the counters of the summary, the orders by status, the
-- low-stock list and the todos. Of a user's permission codes there are those that are asked for.
pub mod Counts
pub mod Activity
use manufacturing_erp_lite.Prelude.{
  ℕ, Bool, true, false, not, ◌&&◌, ◌||◌, Option, none, some, List, [], ◌∷◌, if◌then◌else◌, ◌==◌,
  ltb, leb, length, map, nat_eq,
}
use manufacturing_erp_lite.Prelude.Decimal.{Decimal, pos, ltb_ℤ, leb_ℤ, ◌+ℤ◌, ◌-ℤ◌}
use manufacturing_erp_lite.Prelude.Assoc.{Assoc}
use manufacturing_erp_lite.Enums.{PrStatus, PoStatus, RoleCode, is_pr_status, is_po_status}
use manufacturing_erp_lite.Store.{
  Db, CurrentUser, PurchaseRequisitionItem, InventoryBalance, PurchaseOrder,
}
use manufacturing_erp_lite.Query.{where_rows, order_by, limit}
use manufacturing_erp_lite.Inventory.{Key}
use manufacturing_erp_lite.Inventory.Read.{Joined, joined, safety_of, is_below}
use manufacturing_erp_lite.Requisition.Read.{visible_pr_condition}
use manufacturing_erp_lite.Order.Read.{visible_po_id}

pub data Permission : Type 0 where
  pr_view : Permission
  po_view : Permission
  po_confirm : Permission
  inventory_view : Permission
  inventory_txn_view : Permission
  dashboard_view : Permission

abbrev is_permission : Permission → Permission → Bool
is_permission Permission.pr_view Permission.pr_view = true
is_permission Permission.po_view Permission.po_view = true
is_permission Permission.po_confirm Permission.po_confirm = true
is_permission Permission.inventory_view Permission.inventory_view = true
is_permission Permission.inventory_txn_view Permission.inventory_txn_view = true
is_permission Permission.dashboard_view Permission.dashboard_view = true
is_permission _ _ = false

-- `code in user.permissions`
unfoldable pub has_perm : List Permission → Permission → Bool
has_perm [] code = false
has_perm (p ∷ permissions) code = is_permission p code || has_perm permissions code

-- SELECT COUNT(*) ... WHERE
unfoldable pub count_rows {ℓ} : {A : Type ℓ} → (A → Bool) → List A → ℕ
unfolding where_rows
count_rows cond rows = length (where_rows cond rows)

unfoldable pub count_pending_prs : List Permission → Db → CurrentUser → ℕ
unfolding has_perm count_rows visible_pr_condition
count_pending_prs permissions db user =
    if has_perm permissions Permission.pr_view
    then count_rows
        (λ r. is_pr_status PrStatus.pending (r.1).status && visible_pr_condition db user r.1)
        db.requisitions
    else 0

-- EXISTS an item of the requisition with `converted_quantity < requested_quantity`.
unfoldable pub has_unconverted : ℕ → Assoc ℕ PurchaseRequisitionItem → Bool
has_unconverted pr_id [] = false
has_unconverted pr_id ((i, item) ∷ t) =
    ((item.pr_id == pr_id) && ltb_ℤ item.converted_quantity item.requested_quantity)
    || has_unconverted pr_id t

unfoldable pub count_pending_purchase : List Permission → Db → CurrentUser → ℕ
unfolding has_perm count_rows visible_pr_condition has_unconverted
count_pending_purchase permissions db user =
    if not (has_perm permissions Permission.pr_view)
      || not (has_perm permissions Permission.po_view)
    then 0
    else count_rows
        (λ r.
          is_pr_status PrStatus.approved (r.1).status
          && has_unconverted r.0 db.requisition_items
          && visible_pr_condition db user r.1)
        db.requisitions

-- The drafts that the user may confirm: a buyer's own, an administrator's all.
abbrev pub may_confirm : CurrentUser → PurchaseOrder → Bool
may_confirm user po = elim user.role_code [
  | RoleCode.buyer ↦ po.buyer_id == user.id
  | RoleCode.admin ↦ true
  | _ ↦ false
]

unfoldable pub count_draft_pos : List Permission → Db → CurrentUser → ℕ
unfolding has_perm count_rows
count_draft_pos permissions db user =
    if has_perm permissions Permission.po_confirm
    then count_rows (λ r. is_po_status PoStatus.draft (r.1).status && may_confirm user r.1)
        db.orders
    else 0

-- `status IN (CONFIRMED, PARTIALLY_RECEIVED)`
abbrev pub is_open : PoStatus → Bool
is_open s = is_po_status PoStatus.confirmed s || is_po_status PoStatus.partially_received s

unfoldable pub count_pending_pos : List Permission → Db → CurrentUser → ℕ
unfolding has_perm count_rows visible_po_id
count_pending_pos permissions db user =
    if has_perm permissions Permission.po_view
    then count_rows (λ r. is_open (r.1).status && visible_po_id db user r.0) db.orders
    else 0

-- The inner join with the policy of the pair, which uk_invpol makes unique.
unfoldable pub count_low_stock : List Permission → Db → ℕ
unfolding has_perm count_rows safety_of
count_low_stock permissions db =
    if has_perm permissions Permission.inventory_view
    then count_rows (λ r. is_below (safety_of r.0 db.policies) r.1) db.balances
    else 0

-- COALESCE(SUM(total_amount), 0)
unfoldable pub sum_total_amounts : Assoc Key InventoryBalance → Decimal
sum_total_amounts [] = pos 0
sum_total_amounts ((key, b) ∷ t) = b.total_amount +ℤ sum_total_amounts t

unfoldable pub sum_inventory_amount : List Permission → Db → Decimal
unfolding has_perm sum_total_amounts
sum_inventory_amount permissions db =
    if has_perm permissions Permission.inventory_view then sum_total_amounts db.balances else pos 0

pub record DashboardSummary : Type 0 where
  pub pending_pr_count : ℕ
  pub pending_purchase_count : ℕ
  pub draft_po_count : ℕ
  pub pending_po_count : ℕ
  pub low_stock_count : ℕ
  pub inventory_total_amount : Decimal

unfoldable pub dashboard_summary : List Permission → Db → CurrentUser → DashboardSummary
unfolding count_pending_prs count_pending_purchase count_draft_pos count_pending_pos count_low_stock
    sum_inventory_amount
dashboard_summary permissions db user = record {
  pending_pr_count = count_pending_prs permissions db user;
  pending_purchase_count = count_pending_purchase permissions db user;
  draft_po_count = count_draft_pos permissions db user;
  pending_po_count = count_pending_pos permissions db user;
  low_stock_count = count_low_stock permissions db;
  inventory_total_amount = sum_inventory_amount permissions db;
}

abbrev pub po_statuses : List PoStatus
po_statuses =
    PoStatus.draft ∷ PoStatus.confirmed ∷ PoStatus.partially_received ∷ PoStatus.received
    ∷ PoStatus.cancelled ∷ []

-- One count for every status, in the order of the enumeration.
unfoldable pub po_status_distribution : List Permission → Db → CurrentUser → List (PoStatus × ℕ)
unfolding has_perm count_rows visible_po_id
po_status_distribution permissions db user =
    if has_perm permissions Permission.po_view
    then map
        (λ s.
          (s, count_rows (λ r. is_po_status s (r.1).status && visible_po_id db user r.0) db.orders))
        po_statuses
    else map (λ s. (s, 0)) po_statuses

-- `safety_stock - quantity`
abbrev shortage : Joined → Decimal
shortage j = elim j.safety_stock [ none ↦ pos 0 | some safety ↦ safety -ℤ (j.balance).quantity ]

-- The joined rows below their safety stock, by the shortage, the greatest first.
unfoldable pub low_stock_list : List Permission → Db → ℕ → List Joined
unfolding has_perm joined where_rows order_by limit
low_stock_list permissions db top =
    if has_perm permissions Permission.inventory_view
    then limit top (
        order_by (λ a b. leb_ℤ (shortage b) (shortage a))
          (where_rows (λ j. is_below j.safety_stock j.balance) (joined db db.balances)))
    else []

pub data TodoType : Type 0 where
  pr_approval : TodoType
  pr_to_po : TodoType
  po_confirmation : TodoType
  po_receive : TodoType

abbrev approves_prs : RoleCode → Bool
approves_prs RoleCode.admin = true
approves_prs RoleCode.dept_manager = true
approves_prs _ = false

abbrev executes_pos : RoleCode → Bool
executes_pos RoleCode.admin = true
executes_pos RoleCode.buyer = true
executes_pos _ = false

abbrev receives_pos : RoleCode → Bool
receives_pos RoleCode.admin = true
receives_pos RoleCode.buyer = true
receives_pos RoleCode.warehouse = true
receives_pos _ = false

-- `if role in roles and n > 0: todos.append(...)`, before the rest.
abbrev todo : Bool → TodoType → ℕ → List (TodoType × ℕ) → List (TodoType × ℕ)
todo has_role type n rest = if has_role && ltb 0 n then (type, n) ∷ rest else rest

unfoldable pub dashboard_todos : List Permission → Db → CurrentUser → List (TodoType × ℕ)
unfolding count_pending_prs count_pending_purchase count_draft_pos count_pending_pos
dashboard_todos permissions db user =
    todo (approves_prs user.role_code) TodoType.pr_approval (count_pending_prs permissions db user)
      (todo (executes_pos user.role_code) TodoType.pr_to_po
        (count_pending_purchase permissions db user)
        (todo (executes_pos user.role_code) TodoType.po_confirmation
          (count_draft_pos permissions db user)
          (todo (receives_pos user.role_code) TodoType.po_receive
            (count_pending_pos permissions db user) [])))
