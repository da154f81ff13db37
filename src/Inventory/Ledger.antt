-- ===== src/Inventory/Ledger.antt =====
-- The ledger against the balances: `SUM(inventory_transactions)` and `inventory_balances`
-- (backend/app/services/inventory_service.py, write_transaction).
use manufacturing_erp_lite.Prelude.{◌≡◌, Bool, true, false, ◌&&◌, ◌||◌, not, [], ◌∷◌, arith}
use manufacturing_erp_lite.Prelude.Decimal.{Decimal, pos, negsuc, ◌≤ℤ◌, ltb_ℤ, leb_ℤ, ltb_ℤ-false}
use manufacturing_erp_lite.Prelude.Assoc.{AllRows}
use manufacturing_erp_lite.Enums.{SequenceKey, is_outbound}
use manufacturing_erp_lite.Errors.{ok, ok-injective, guard-eq-ok}
use manufacturing_erp_lite.Store.{Db, InventoryTransaction}
use manufacturing_erp_lite.Numbering.{next_daily_code}
use manufacturing_erp_lite.Inventory.{Key, Movement, append_transaction, write_transaction}
use manufacturing_erp_lite.Inventory.Moves.{IsSound}
use manufacturing_erp_lite.Inventory.Book.{Ledger, key_of, ledger_sum, book}

abbrev pub quantity_of : InventoryTransaction → Decimal
quantity_of row = row.quantity

abbrev pub amount_of : InventoryTransaction → Decimal
amount_of row = row.amount

-- Every row's `balance_after` is the sum of the ledger up to that row.
abbrev pub IsChained : Ledger → Type 0
IsChained [] = Unit
IsChained ((i, row) ∷ t) =
    (row.balance_after ≡ ledger_sum quantity_of (key_of row) ((i, row) ∷ t)) × IsChained t

-- The CHECKs it_sign and it_cost_nonneg.
pub record HasSign (row : InventoryTransaction) : Type 0 where
  pub outbound :
      is_outbound row.transaction_type ≡ true → (row.quantity ≤ℤ negsuc 0) × (row.amount ≤ℤ pos 0)
  pub inbound :
      is_outbound row.transaction_type ≡ false → (pos 1 ≤ℤ row.quantity) × (pos 0 ≤ℤ row.amount)
  pub cost_nonneg : pos 0 ≤ℤ row.unit_cost

-- The book and the ledger agree.
pub record Reconciled (db : Db) : Type 0 where
  pub quantity :
      (k : Key) → book (λ b. b.quantity) k db.balances ≡ ledger_sum quantity_of k db.transactions
  pub amount :
      (k : Key) → book (λ b. b.total_amount) k db.balances ≡ ledger_sum amount_of k db.transactions
  pub chained : IsChained db.transactions
  pub signs : AllRows HasSign db.transactions
  pub sound : AllRows IsSound db.balances

module _ (o : Bool) (q a c : Decimal) where
  outbound_guard :
      (o && leb_ℤ (pos 0) q) ≡ false
      → (ltb_ℤ (pos 0) q && ltb_ℤ a (pos 0) || ltb_ℤ q (pos 0) && ltb_ℤ (pos 0) a) ≡ false
      → o ≡ true
      → (q ≤ℤ negsuc 0) × (a ≤ℤ pos 0)
  unfolding ltb_ℤ leb_ℤ
  outbound_guard g s h = ground arith

  inbound_guard :
      (not o && leb_ℤ q (pos 0)) ≡ false
      → (ltb_ℤ (pos 0) q && ltb_ℤ a (pos 0) || ltb_ℤ q (pos 0) && ltb_ℤ (pos 0) a) ≡ false
      → o ≡ false
      → (pos 1 ≤ℤ q) × (pos 0 ≤ℤ a)
  unfolding ltb_ℤ leb_ℤ
  inbound_guard g s h = ground arith

-- The row that `append_transaction` adds.
abbrev pub added : Movement → Db → InventoryTransaction
added m db = record {
  txn_no = (next_daily_code SequenceKey.inventory_transaction m.occurred_on db).0;
  transaction_type = m.txn_type;
  warehouse_id = m.warehouse_id;
  material_id = m.material_id;
  quantity = m.quantity;
  unit_cost = m.unit_cost;
  amount = m.amount;
  balance_after = m.balance_after;
  source_type = m.source_type;
  source_id = m.source_id;
  source_item_id = m.source_item_id;
  reversed_transaction_id = m.reversed_transaction_id;
  transaction_at = m.occurred_at;
  created_by = m.operator_id;
}

module _ (m : Movement) (db : Db) {db' : Db} (written : write_transaction m db ≡ ok db') where
  pub write_transaction-eq-append : append_transaction m db ≡ db'
  unfolding write_transaction
  write_transaction-eq-append =
      let (_, r1) = guard-eq-ok _ _ _ written in
      let (_, r2) = guard-eq-ok _ _ _ r1 in
      let (_, r3) = guard-eq-ok _ _ _ r2 in let (_, r4) = guard-eq-ok _ _ _ r3 in ok-injective r4

  -- The guards give what the CHECKs of the table ask.
  pub write_transaction-HasSign : HasSign (added m db)
  unfolding write_transaction
  write_transaction-HasSign =
      let (g1, r1) = guard-eq-ok _ _ _ written in
      let (g2, r2) = guard-eq-ok _ _ _ r1 in
      let (g3, r3) = guard-eq-ok _ _ _ r2 in
      let (sign, r4) = guard-eq-ok _ _ _ r3 in
      record {
        outbound = outbound_guard _ _ _ m.unit_cost g1 sign;
        inbound = inbound_guard _ _ _ m.unit_cost g2 sign;
        cost_nonneg = ltb_ℤ-false _ _ g3;
      }
