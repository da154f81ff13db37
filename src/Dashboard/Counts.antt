-- ===== src/Dashboard/Counts.antt =====
-- The counters of the summary beside the totals of the lists
-- (backend/app/services/dashboard_service.py).
use manufacturing_erp_lite.Prelude.{
  ℕ, suc, ◌+◌, ◌≡◌, refl, sym, ap, ap₂, ◌∙◌, arith, Bool, true, false, ◌&&◌, ◌||◌, none, some, List,
  [], ◌∷◌, inl, inr, All, length, Bool-cases, nat_eq,
}
use manufacturing_erp_lite.Prelude.Assoc.{Assoc, get}
use manufacturing_erp_lite.Enums.{PrStatus, PoStatus, is_pr_status, is_po_status}
use manufacturing_erp_lite.Store.{Db, CurrentUser, InventoryBalance}
use manufacturing_erp_lite.Query.{where_rows, insert_row, order_by, descending}
use manufacturing_erp_lite.Inventory.{Key}
use manufacturing_erp_lite.Inventory.Read.{
  BalanceFilter, joined, safety_of, is_below, list_balances, listed_balances, before_key, is_there,
  passes_balance_filter,
}
use manufacturing_erp_lite.Requisition.Read.{PrFilter, list_prs, listed_prs, visible_pr_condition}
use manufacturing_erp_lite.Order.Read.{PoFilter, list_pos, listed_pos, visible_po_id}
use manufacturing_erp_lite.Dashboard.{
  Permission, has_perm, count_rows, count_pending_prs, count_pending_pos, count_low_stock,
  dashboard_summary,
}

module _ {ℓ} {A : Type ℓ} where
  length-insert_row :
      (before : A → A → Bool) (x : A) (ys : List A)
      → length (insert_row before x ys) ≡ suc (length ys)
  unfolding insert_row
  length-insert_row before x [] = refl
  length-insert_row before x (y ∷ ys) = elim (Bool-cases (before x y)) [
    | inl first ↦ rw first refl
    | inr later ↦ rw later (ap suc (length-insert_row before x ys))
  ]

  length-order_by : (before : A → A → Bool) (xs : List A) → length (order_by before xs) ≡ length xs
  unfolding order_by
  length-order_by before [] = refl
  length-order_by before (x ∷ xs) =
      length-insert_row before x (order_by before xs) ∙ ap suc (length-order_by before xs)

  where_rows-ext :
      (p q : A → Bool) (xs : List A) → ((x : A) → p x ≡ q x) → where_rows p xs ≡ where_rows q xs
  unfolding where_rows
  where_rows-ext p q [] same = refl
  where_rows-ext p q (x ∷ xs) same = rw (same x, where_rows-ext p q xs same) refl

  -- Rows of two kinds that exclude each other.
  length-where_rows :
      (p q r : A → Bool) (xs : List A)
      → ((x : A) → p x ≡ q x || r x)
      → ((x : A) → q x && r x ≡ false)
      → length (where_rows p xs) ≡ length (where_rows q xs) + length (where_rows r xs)
  unfolding where_rows
  length-where_rows p q r [] either apart = refl
  length-where_rows p q r (x ∷ xs) either apart =
      let rest = length-where_rows p q r xs either apart in
      elim (Bool-cases (q x)) [
        | inl a ↦ elim (Bool-cases (r x)) [
          | inl b ↦ let both = apart x in absurd (cc)
          | inr b ↦ rw (either x, a, b) (omega arith)
        ]
        | inr a ↦ elim (Bool-cases (r x)) [
          | inl b ↦ rw (either x, a, b) (omega arith)
          | inr b ↦ rw (either x, a, b) rest
        ]
      ]

-- The filters of a list request that asks for one status.
abbrev pub with_pr_status : PrStatus → PrFilter
with_pr_status s = record {
  pr_no = λ n. true;
  applicant = λ i. true;
  department_id = none;
  status = some s;
  apply_date_from = none;
  apply_date_to = none;
}

abbrev pub with_po_status : PoStatus → PoFilter
with_po_status s = record {
  po_no = λ n. true;
  supplier_id = none;
  status = some s;
  order_date_from = none;
  order_date_to = none;
}

abbrev pub below_safety : BalanceFilter
below_safety = record {
  warehouse_id = none;
  material_id = none;
  material_text = λ m. true;
  below_safety_stock = some true;
}

-- The foreign keys of a balance.
unfoldable pub HasPair : Db → Key × InventoryBalance → Type 0
HasPair db r = is_there (get (r.0).0 db.warehouses) && is_there (get (r.0).1 db.materials) ≡ true

-- How the counters' conditions and the lists' filters put the same tests.
status_first : (s v : Bool) → s && v ≡ v && (s && true && true)
status_first true true = refl
status_first true false = refl
status_first false true = refl
status_first false false = refl

two_statuses :
    (s t v : Bool) → (s || t) && v ≡ (v && (s && true && true)) || (v && (t && true && true))
two_statuses true t true = refl
two_statuses true t false = refl
two_statuses false true true = refl
two_statuses false true false = refl
two_statuses false false true = refl
two_statuses false false false = refl

never_both :
    (s t v : Bool)
    → s && t ≡ false
    → (v && (s && true && true)) && (v && (t && true && true)) ≡ false
never_both true true v h = absurd (cc)
never_both true false true h = refl
never_both true false false h = refl
never_both false t true h = refl
never_both false t false h = refl

one_status :
    (s : PoStatus)
    → is_po_status PoStatus.confirmed s && is_po_status PoStatus.partially_received s ≡ false
one_status PoStatus.draft = refl
one_status PoStatus.confirmed = refl
one_status PoStatus.partially_received = refl
one_status PoStatus.received = refl
one_status PoStatus.cancelled = refl

count_pending_prs-list_prs :
    (permissions : List Permission) (user : CurrentUser) (db : Db) (page size : ℕ)
    → has_perm permissions Permission.pr_view ≡ true
    → count_pending_prs permissions db user
      ≡ (list_prs db user page size (with_pr_status PrStatus.pending)).1
unfolding count_pending_prs list_prs listed_prs count_rows
count_pending_prs-list_prs permissions user db page size may = rw may (
    ap length (
      where_rows-ext _ _ db.requisitions (λ r.
        status_first (is_pr_status PrStatus.pending (r.1).status)
          (visible_pr_condition db user r.1)))
    ∙ sym (length-order_by descending _))

count_pending_pos-list_pos :
    (permissions : List Permission) (user : CurrentUser) (db : Db) (page size : ℕ)
    → has_perm permissions Permission.po_view ≡ true
    → count_pending_pos permissions db user
      ≡ (list_pos db user page size (with_po_status PoStatus.confirmed)).1
        + (list_pos db user page size (with_po_status PoStatus.partially_received)).1
unfolding count_pending_pos list_pos listed_pos count_rows
count_pending_pos-list_pos permissions user db page size may = rw may (
    length-where_rows _ _ _ db.orders
      (λ r.
        two_statuses (is_po_status PoStatus.confirmed (r.1).status)
          (is_po_status PoStatus.partially_received (r.1).status) (visible_po_id db user r.0))
      (λ r.
        never_both (is_po_status PoStatus.confirmed (r.1).status)
          (is_po_status PoStatus.partially_received (r.1).status) (visible_po_id db user r.0)
          (one_status (r.1).status))
    ∙ ap₂ (λ m n. m + n) (sym (length-order_by descending _)) (sym (length-order_by descending _)))

count_below :
    (db : Db) (rows : Assoc Key InventoryBalance)
    → All (HasPair db) rows
    → length (where_rows (λ r. is_below (safety_of r.0 db.policies) r.1) rows)
      ≡ length (where_rows (passes_balance_filter below_safety) (joined db rows))
unfolding joined where_rows HasPair
count_below db [] there = refl
count_below db ((key, b) ∷ t) (here, there) =
    elim (Bool-cases (is_below (safety_of key db.policies) b)) [
      | inl low ↦ rw (here, low) (ap suc (count_below db t there))
      | inr fine ↦ rw (here, fine) (count_below db t there)
    ]

count_low_stock-list_balances :
    (permissions : List Permission) (db : Db) (page size : ℕ)
    → has_perm permissions Permission.inventory_view ≡ true
    → All (HasPair db) db.balances
    → count_low_stock permissions db ≡ (list_balances db page size below_safety).1
unfolding count_low_stock list_balances listed_balances count_rows
count_low_stock-list_balances permissions db page size may there =
    rw may (count_below db db.balances there ∙ sym (length-order_by before_key _))

-- For a user with the permissions to view, and balances whose warehouses and materials exist, the
-- summary counts as many pending requisitions as the list of those has, as many open orders as the
-- lists of confirmed and of partially received orders have together, and as many low stocks as the
-- list of balances below their safety stock has, on whatever page.
pub dashboard_summary-lists :
    (permissions : List Permission) (user : CurrentUser) (db : Db) (page size : ℕ)
    → has_perm permissions Permission.pr_view ≡ true
    → has_perm permissions Permission.po_view ≡ true
    → has_perm permissions Permission.inventory_view ≡ true
    → All (HasPair db) db.balances
    → ((dashboard_summary permissions db user).pending_pr_count
        ≡ (list_prs db user page size (with_pr_status PrStatus.pending)).1)
      × ((dashboard_summary permissions db user).pending_po_count
          ≡ (list_pos db user page size (with_po_status PoStatus.confirmed)).1
            + (list_pos db user page size (with_po_status PoStatus.partially_received)).1)
      × ((dashboard_summary permissions db user).low_stock_count
          ≡ (list_balances db page size below_safety).1)
unfolding dashboard_summary
dashboard_summary-lists permissions user db page size prs pos stock there = (
  count_pending_prs-list_prs permissions user db page size prs,
  count_pending_pos-list_pos permissions user db page size pos,
  count_low_stock-list_balances permissions db page size stock there,
)
