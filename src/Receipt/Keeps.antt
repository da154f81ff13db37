-- ===== src/Receipt/Keeps.antt =====
-- What the locks and the writes of the balances leave alone
-- (backend/app/services/inventory_service.py and purchase_receipt_service.py).
use manufacturing_erp_lite.Prelude.{
  ℕ, ◌≡◌, refl, ap, ◌∙◌, sym, List, [], ◌∷◌, inl, inr, Option-cases, pair_eq,
}
use manufacturing_erp_lite.Prelude.Decimal.{Decimal}
use manufacturing_erp_lite.Prelude.Assoc.{Assoc, get}
use manufacturing_erp_lite.Errors.{Result, ok, ok-injective, found-eq-ok, >>=-eq-ok}
use manufacturing_erp_lite.Store.{Db, InventoryBalance}
use manufacturing_erp_lite.Inventory.{Key, BalanceDelta, lock_balance, lock_each}
use manufacturing_erp_lite.Inventory.Book.{Balances}
use manufacturing_erp_lite.Receipt.Defs.{apply_deltas}

-- Any reading of the database that does not see the balances.
module _ {A : Type 0} (reading : Db → A)
    (blind : (db : Db) (t : Balances) → reading (record db { balances = t }) ≡ reading db) where
  lock_balance-keeps : (k : Key) (db : Db) → reading (lock_balance k db) ≡ reading db
  unfolding lock_balance
  lock_balance-keeps k db = elim (Option-cases (get k db.balances)) [
    | inl absent ↦ rw (absent, lock_balance) (blind db _)
    | inr (row, found) ↦ rw (found, lock_balance) refl
  ]

  pub lock_each-keeps : (keys : List Key) (db : Db) → reading (lock_each keys db) ≡ reading db
  unfolding lock_each
  lock_each-keeps [] db = refl
  lock_each-keeps (k ∷ ks) db = lock_each-keeps ks (lock_balance k db) ∙ lock_balance-keeps k db

  pub apply_deltas-keeps :
      (move : InventoryBalance → Decimal → Decimal → Result InventoryBalance) (at : ℕ)
      (agg : Assoc Key BalanceDelta) (keys : List Key) (db : Db) {db' : Db}
      → apply_deltas move at agg keys db ≡ ok db'
      → reading db' ≡ reading db
  unfolding apply_deltas
  apply_deltas-keeps move at agg [] db h = ap reading (sym (ok-injective h))
  apply_deltas-keeps move at agg (k ∷ ks) db h =
      let (balance, _, h1) = found-eq-ok _ _ _ h in
      let (change, _, h2) = found-eq-ok _ _ _ h1 in
      let (balance', _, h3) = >>=-eq-ok _ _ h2 in
      apply_deltas-keeps move at agg ks _ h3 ∙ blind db _
