-- ===== src/Inventory.antt =====
-- backend/app/services/inventory_service.py: the locks on the balances, the movements of a balance
-- and the append-only ledger. The proofs are in the modules below.
mod Keys
pub use Keys.{Key, key_lt, has_key}
unfoldable pub use Keys.{insert_key, sort_keys}
pub mod Locks
pub mod Moves
pub mod Read
pub mod Book
pub mod Ledger
pub mod Running
pub mod Posting
use manufacturing_erp_lite.Prelude.{
  ℕ, suc, Bool, true, false, ◌&&◌, ◌||◌, not, Option, none, some, List, [], ◌∷◌, if◌then◌else◌,
  pair_eq,
}
use manufacturing_erp_lite.Prelude.Decimal.{Decimal, pos, pos_part, ◌+ℤ◌, ◌-ℤ◌, ltb_ℤ, leb_ℤ}
use manufacturing_erp_lite.Prelude.Assoc.{get}
use manufacturing_erp_lite.Enums.{TxnType, TxnSourceType, SequenceKey, is_outbound}
use manufacturing_erp_lite.Errors.{
  Result, ok, err, ◌>>=◌, ◌>>◌, raise_if, validation_error, inventory_negative,
  inventory_balance_mismatch,
}
use manufacturing_erp_lite.Money.{money, with_8_places, unit_cost}
use manufacturing_erp_lite.Numbering.{next_daily_code}
use manufacturing_erp_lite.Store.{Db, next_id, InventoryBalance, InventoryTransaction}

-- What one document changes of one balance: `BalanceDelta`.
pub record BalanceDelta : Type 0 where
  pub quantity : Decimal
  pub amount : Decimal

abbrev pub no_delta : BalanceDelta
no_delta = record { quantity = pos 0; amount = pos 0 }

-- The row that the upsert inserts.
abbrev pub new_balance : InventoryBalance
new_balance = record {
  quantity = pos 0;
  total_amount = pos 0;
  average_unit_cost = pos 0;
  version = 0;
  last_transaction_at = none;
}

-- INSERT ... ON DUPLICATE KEY UPDATE id = id: an existing row stays as it is.
unfoldable pub lock_balance : Key → Db → Db
lock_balance key db = elim (get key db.balances) [
  | none ↦ record db { balances = (key, new_balance) ∷ db.balances }
  | some row ↦ db
]

unfoldable pub lock_each : List Key → Db → Db
lock_each [] db = db
lock_each (key ∷ keys) db = lock_each keys (lock_balance key db)

-- The keys in the order of the locks, and the database with a row for each of them.
unfoldable pub lock_balances : List Key → Db → List Key × Db
unfolding lock_each sort_keys
lock_balances keys db = let ordered = sort_keys keys in (ordered, lock_each ordered db)

unfoldable pub new_average : Decimal → Decimal → Decimal
new_average total_amount quantity =
    if leb_ℤ quantity (pos 0) then pos 0 else unit_cost total_amount (pos_part quantity)

moved : InventoryBalance → Decimal → Decimal → InventoryBalance
unfolding new_average
moved balance new_quantity new_total = record balance {
  quantity = new_quantity;
  total_amount = new_total;
  average_unit_cost = new_average new_total new_quantity;
  version = suc balance.version;
}

unfoldable pub apply_inbound : InventoryBalance → Decimal → Decimal → Result InventoryBalance
unfolding moved money
apply_inbound balance quantity amount = do
  raise_if (ltb_ℤ quantity (pos 0)) validation_error
  let new_quantity = balance.quantity +ℤ quantity
  let new_total = money (with_8_places (balance.total_amount +ℤ amount))
  raise_if (ltb_ℤ new_quantity (pos 0) || ltb_ℤ new_total (pos 0)) inventory_negative
  ok (moved balance new_quantity new_total)

unfoldable pub apply_outbound : InventoryBalance → Decimal → Decimal → Result InventoryBalance
unfolding moved money
apply_outbound balance quantity amount = do
  raise_if (leb_ℤ quantity (pos 0)) validation_error
  let new_quantity = balance.quantity -ℤ quantity
  let new_total = money (with_8_places (balance.total_amount -ℤ amount))
  raise_if (ltb_ℤ new_quantity (pos 0)) inventory_negative
  raise_if (ltb_ℤ new_total (pos 0)) inventory_balance_mismatch
  ok (moved balance new_quantity new_total)

-- The keyword arguments of `write_transaction`; `occurred_on` is `occurred_at.date()`.
pub record Movement : Type 0 where
  pub txn_type : TxnType
  pub warehouse_id : ℕ
  pub material_id : ℕ
  pub quantity : Decimal
  pub unit_cost : Decimal
  pub amount : Decimal
  pub balance_after : Decimal
  pub occurred_on : ℕ
  pub occurred_at : ℕ
  pub operator_id : ℕ
  pub source_type : Option TxnSourceType
  pub source_id : Option ℕ
  pub source_item_id : Option ℕ
  pub reversed_transaction_id : Option ℕ

-- The row that is added, once the guards have passed.
unfoldable pub append_transaction : Movement → Db → Db
unfolding next_daily_code
append_transaction m db =
    let (txn_no, db') = next_daily_code SequenceKey.inventory_transaction m.occurred_on db in
    let row : InventoryTransaction = record {
      txn_no = txn_no;
      transaction_type = m.txn_type;
      warehouse_id = m.warehouse_id;
      material_id = m.material_id;
      quantity = m.quantity;
      unit_cost = m.unit_cost;
      amount = m.amount;
      balance_after = m.balance_after;
      source_type = m.source_type;
      source_id = m.source_id;
      source_item_id = m.source_item_id;
      reversed_transaction_id = m.reversed_transaction_id;
      transaction_at = m.occurred_at;
      created_by = m.operator_id;
    } in
    record db' { last_id = next_id db'; transactions = (next_id db', row) ∷ db'.transactions }

unfoldable pub write_transaction : Movement → Db → Result Db
unfolding append_transaction
write_transaction m db = do
  raise_if (is_outbound m.txn_type && leb_ℤ (pos 0) m.quantity) validation_error
  raise_if (not (is_outbound m.txn_type) && leb_ℤ m.quantity (pos 0)) validation_error
  raise_if (ltb_ℤ m.unit_cost (pos 0)) validation_error
  raise_if
      (ltb_ℤ (pos 0) m.quantity && ltb_ℤ m.amount (pos 0)
        || ltb_ℤ m.quantity (pos 0) && ltb_ℤ (pos 0) m.amount)
      validation_error
  ok (append_transaction m db)
