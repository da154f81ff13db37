-- ===== src/Inventory/Book.antt =====
-- The figures of inventory_balances and of the ledger, key by key
-- (backend/app/services/inventory_service.py).
use manufacturing_erp_lite.Prelude.{
  ℕ, ◌≡◌, refl, sym, subst, Option, none, some, [], ◌∷◌, inl, inr, Bool-cases, Option-cases,
  if◌then◌else◌, pair_beq, pair_beq_iff, pair_eq, List,
}
use manufacturing_erp_lite.Prelude.Decimal.{Decimal, pos, ◌+ℤ◌}
use manufacturing_erp_lite.Prelude.Assoc.{Assoc, get, set, get-set_self, get-set_ne}
use manufacturing_erp_lite.Store.{Db, InventoryBalance, InventoryTransaction}
use manufacturing_erp_lite.Inventory.{Key, lock_balance, lock_each, new_balance}

abbrev pub Balances : Type 0
Balances = Assoc Key InventoryBalance

abbrev pub Ledger : Type 0
Ledger = Assoc ℕ InventoryTransaction

abbrev pub key_of : InventoryTransaction → Key
key_of row = (row.warehouse_id, row.material_id)

-- `SUM(g)` over the ledger rows of one key.
unfoldable pub ledger_sum : (InventoryTransaction → Decimal) → Key → Ledger → Decimal
ledger_sum g k [] = pos 0
ledger_sum g k ((i, row) ∷ t) =
    if pair_beq k (key_of row) then g row +ℤ ledger_sum g k t else ledger_sum g k t

abbrev or_zero : (InventoryBalance → Decimal) → Option InventoryBalance → Decimal
or_zero f none = pos 0
or_zero f (some b) = f b

-- A figure of the balance of one key; a missing row counts as 0.
unfoldable pub book : (InventoryBalance → Decimal) → Key → Balances → Decimal
book f k t = or_zero f (get k t)

module _ (f : InventoryBalance → Decimal) where
  pub book-get :
      (key : Key) (t : Balances) {b : InventoryBalance} → get key t ≡ some b → book f key t ≡ f b
  unfolding book
  book-get key t h = rw h refl

  pub book-set :
      (key k : Key) (t : Balances) {b : InventoryBalance} (b' : InventoryBalance)
      → get key t ≡ some b
      → book f k (set key b' t) ≡ (if pair_beq k key then f b' else book f k t)
  unfolding book
  book-set key k t b' h = elim (Bool-cases (pair_beq k key)) [
    | inl same ↦
        let e = (pair_beq_iff k key).0 same in
        rw same (
          subst (λ j. or_zero f (get j (set key b' t)) ≡ f b') (sym e)
            (rw (get-set_self key _ b' t h) refl))
    | inr other ↦ rw other (rw (get-set_ne key k b' t other) refl)
  ]

  -- Locking creates at most an empty row, so no book figure changes.
  pub book-lock_balance :
      f new_balance ≡ pos 0
      → (key k : Key) (db : Db) → book f k (lock_balance key db).balances ≡ book f k db.balances
  unfolding lock_balance book get
  book-lock_balance zero_row key k db = elim (Option-cases (get key db.balances)) [
    | inl absent ↦
        rw (absent, lock_balance)
          (elim (Bool-cases (pair_beq k key)) [
            | inl same ↦
                let e = (pair_beq_iff k key).0 same in
                rw same (
                  subst (λ j. f new_balance ≡ or_zero f (get j db.balances)) (sym e)
                    (rw absent zero_row))
            | inr other ↦ rw other refl
          ])
    | inr (row, found) ↦ rw (found, lock_balance) refl
  ]

  pub book-lock_each :
      f new_balance ≡ pos 0
      → (keys : List Key) (k : Key) (db : Db)
      → book f k (lock_each keys db).balances ≡ book f k db.balances
  unfolding lock_each
  book-lock_each zero_row [] k db = refl
  book-lock_each zero_row (key ∷ keys) k db =
      rw (book-lock_each zero_row keys k (lock_balance key db))
        (book-lock_balance zero_row key k db)
