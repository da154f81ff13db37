-- ===== src/Inventory/Read.antt =====
-- The queries of backend/app/services/inventory_service.py. What the database's LIKE makes of a text
-- is a predicate of the filter, true where no text is given.
use manufacturing_erp_lite.Prelude.{
  ℕ, Bool, true, false, not, ◌&&◌, ◌||◌, Option, none, some, List, [], ◌∷◌, if◌then◌else◌, ◌==◌,
  ltb, leb, map, length, nat_eq, pair_eq,
}
use manufacturing_erp_lite.Prelude.Decimal.{Decimal, ltb_ℤ}
use manufacturing_erp_lite.Prelude.Assoc.{Assoc, get}
use manufacturing_erp_lite.Enums.{TxnType, TxnSourceType}
use manufacturing_erp_lite.Errors
use manufacturing_erp_lite.Errors.{Result, or_raise}
use manufacturing_erp_lite.Store.{
  Db, DocumentNo, InventoryBalance, InventoryTransaction, InventoryPolicy,
}
use manufacturing_erp_lite.Inventory.{Key}
use manufacturing_erp_lite.Query.{where_rows, order_by, page_of, paged, if_given}

-- A balance with the safety stock that the outer join finds; NULL is `none`.
pub record Joined : Type 0 where
  pub key : Key
  pub balance : InventoryBalance
  pub safety_stock : Option Decimal

-- The policy of a pair, which uk_invpol makes unique.
unfoldable pub safety_of : Key → Assoc ℕ InventoryPolicy → Option Decimal
safety_of key [] = none
safety_of key ((i, row) ∷ t) =
    if (row.warehouse_id == key.0) && (row.material_id == key.1)
    then some row.safety_stock
    else safety_of key t

abbrev pub is_there {ℓ} : {A : Type ℓ} → Option A → Bool
is_there none = false
is_there (some a) = true

-- The joins: an inner join drops a balance without its warehouse or material.
unfoldable pub joined : Db → Assoc Key InventoryBalance → List Joined
unfolding safety_of
joined db [] = []
joined db ((key, b) ∷ t) =
    let rest = joined db t in
    if is_there (get key.0 db.warehouses) && is_there (get key.1 db.materials)
    then record { key = key; balance = b; safety_stock = safety_of key db.policies } ∷ rest
    else rest

-- `safety_stock IS NOT NULL AND quantity < safety_stock`, which is never NULL itself.
abbrev pub is_below : Option Decimal → InventoryBalance → Bool
is_below none b = false
is_below (some safety) b = ltb_ℤ b.quantity safety

-- `cond` for true, `~cond` for false.
abbrev is_as_asked : Bool → Bool → Bool
is_as_asked true below = below
is_as_asked false below = not below

pub record BalanceFilter : Type 0 where
  pub warehouse_id : Option ℕ
  pub material_id : Option ℕ
  pub material_text : ℕ → Bool
  pub below_safety_stock : Option Bool

abbrev pub passes_balance_filter : BalanceFilter → Joined → Bool
passes_balance_filter f j =
    if_given (λ w x. w == x) f.warehouse_id (j.key).0
    && if_given (λ m x. m == x) f.material_id (j.key).1
    && f.material_text (j.key).1
    && if_given is_as_asked f.below_safety_stock (is_below j.safety_stock j.balance)

-- ORDER BY warehouse_id, material_id
abbrev pub before_key : Joined → Joined → Bool
before_key a b = ltb (a.key).0 (b.key).0 || (((a.key).0 == (b.key).0) && leb (a.key).1 (b.key).1)

-- What the list shows of a row.
pub record BalanceRow : Type 0 where
  pub key : Key
  pub balance : InventoryBalance
  pub safety_stock : Option Decimal
  pub is_below_safety_stock : Bool

abbrev pub balance_row : Joined → BalanceRow
balance_row j = record {
  key = j.key;
  balance = j.balance;
  safety_stock = j.safety_stock;
  is_below_safety_stock = is_below j.safety_stock j.balance;
}

unfoldable pub listed_balances : Db → BalanceFilter → List Joined
unfolding joined where_rows order_by
listed_balances db f =
    order_by before_key (where_rows (passes_balance_filter f) (joined db db.balances))

unfoldable pub list_balances : Db → ℕ → ℕ → BalanceFilter → List BalanceRow × ℕ
unfolding listed_balances page_of
list_balances db page page_size f =
    let rows = listed_balances db f in (map balance_row (page_of page page_size rows), length rows)

-- `reference` is the LIKE on the numbers of the ledger row and of its receipt.
pub record TransactionFilter : Type 0 where
  pub warehouse_id : Option ℕ
  pub material_id : Option ℕ
  pub transaction_type : Option TxnType
  pub reference : Option (DocumentNo → Bool)
  pub source_type : Option TxnSourceType
  pub source_id : Option ℕ
  pub occurred_from : Option ℕ
  pub occurred_to : Option ℕ

abbrev txn_ordinal : TxnType → ℕ
txn_ordinal TxnType.purchase_in = 0
txn_ordinal TxnType.purchase_in_reversal = 1
txn_ordinal TxnType.adjust_in = 2
txn_ordinal TxnType.adjust_out = 3
txn_ordinal TxnType.production_out = 4
txn_ordinal TxnType.production_in = 5

abbrev source_ordinal : TxnSourceType → ℕ
source_ordinal TxnSourceType.purchase_receipt = 0
source_ordinal TxnSourceType.purchase_receipt_reversal = 1
source_ordinal TxnSourceType.manual_adjust = 2
source_ordinal TxnSourceType.production_issue = 3
source_ordinal TxnSourceType.production_receipt = 4
source_ordinal TxnSourceType.stock_reconciliation = 5

-- A test of a column that may be NULL; a comparison with NULL is not true.
abbrev on_column {ℓ} : {A : Type ℓ} → (A → Bool) → Option A → Bool
on_column test none = false
on_column test (some x) = test x

abbrev pub is_receipt_source : TxnSourceType → Bool
is_receipt_source TxnSourceType.purchase_receipt = true
is_receipt_source TxnSourceType.purchase_receipt_reversal = true
is_receipt_source _ = false

abbrev refers_to : Db → (DocumentNo → Bool) → InventoryTransaction → Bool
refers_to db like row =
    like row.txn_no
    || (on_column is_receipt_source row.source_type
        && on_column (λ i. on_column (λ r. like r.receipt_no) (get i db.receipts)) row.source_id)

abbrev pub passes_transaction_filter : Db → TransactionFilter → InventoryTransaction → Bool
passes_transaction_filter db f row =
    if_given (λ w x. w == x) f.warehouse_id row.warehouse_id
    && if_given (λ m x. m == x) f.material_id row.material_id
    && if_given (λ a b. txn_ordinal a == txn_ordinal b) f.transaction_type row.transaction_type
    && if_given (λ like x. refers_to db like x) f.reference row
    && if_given (λ s. on_column (λ x. source_ordinal s == source_ordinal x)) f.source_type
        row.source_type
    && if_given (λ s. on_column (λ x. s == x)) f.source_id row.source_id
    && if_given leb f.occurred_from row.transaction_at
    && if_given (λ d x. leb x d) f.occurred_to row.transaction_at

-- ORDER BY transaction_at DESC, id DESC
abbrev pub later_first : ℕ × InventoryTransaction → ℕ × InventoryTransaction → Bool
later_first a b =
    ltb (b.1).transaction_at (a.1).transaction_at
    || (((a.1).transaction_at == (b.1).transaction_at) && leb b.0 a.0)

unfoldable pub listed_transactions : Db → TransactionFilter → Assoc ℕ InventoryTransaction
unfolding where_rows order_by
listed_transactions db f =
    order_by later_first (where_rows (λ r. passes_transaction_filter db f r.1) db.transactions)

unfoldable pub list_transactions : Db → ℕ → ℕ → TransactionFilter → Assoc ℕ InventoryTransaction × ℕ
unfolding listed_transactions paged
list_transactions db page page_size f = paged page page_size (listed_transactions db f)

unfoldable pub get_balance : Db → ℕ → ℕ → Result InventoryBalance
get_balance db warehouse_id material_id =
    or_raise (get (warehouse_id, material_id) db.balances) Errors.not_found
