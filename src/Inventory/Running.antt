-- ===== src/Inventory/Running.antt =====
-- The running quantities that a document keeps for `balance_after`, against the ledger
-- (backend/app/services/inventory_service.py, write_transaction).
use manufacturing_erp_lite.Prelude.{
  ℕ, ◌≡◌, refl, ap, ◌∙◌, sym, subst, some, ◌∷◌, inl, inr, Bool-cases, if◌then◌else◌, pair_beq,
  pair_beq_iff, pair_eq,
}
use mathlib.Core.Option.{some-injective}
use manufacturing_erp_lite.Prelude.Decimal.{Decimal, ◌+ℤ◌, +ℤ_comm}
use manufacturing_erp_lite.Prelude.Assoc.{Assoc, get, set, get-set_self, get-set_ne}
use manufacturing_erp_lite.Store.{InventoryTransaction}
use manufacturing_erp_lite.Inventory.{Key}
use manufacturing_erp_lite.Inventory.Book.{Ledger, key_of, ledger_sum}
use manufacturing_erp_lite.Inventory.Ledger.{quantity_of}

-- One more row in the ledger.
pub ledger_sum-added :
    (g : InventoryTransaction → Decimal) (k : Key) (i : ℕ) (row : InventoryTransaction) (t : Ledger)
    → ledger_sum g k ((i, row) ∷ t)
      ≡ (if pair_beq k (key_of row) then g row +ℤ ledger_sum g k t else ledger_sum g k t)
unfolding ledger_sum
ledger_sum-added g k i row t = refl

-- Every running quantity is the ledger's sum.
abbrev pub IsRunning : Assoc Key Decimal → Ledger → Type 0
IsRunning running t =
    (k : Key) (r : Decimal) → get k running ≡ some r → r ≡ ledger_sum quantity_of k t

module _ (running : Assoc Key Decimal) (t : Ledger) (i : ℕ) (row : InventoryTransaction)
    (before next : Decimal) (runs : IsRunning running t)
    (here : get (key_of row) running ≡ some before) (next_is : next ≡ before +ℤ row.quantity) where
  -- The running quantity takes the row's.
  pub next-sum : next ≡ ledger_sum quantity_of (key_of row) ((i, row) ∷ t)
  unfolding ledger_sum
  next-sum = rw ((pair_beq_iff (key_of row) (key_of row)).1 refl) (
      next_is
      ∙ +ℤ_comm before row.quantity
      ∙ ap (λ s. row.quantity +ℤ s) (runs (key_of row) before here))

  pub set-IsRunning : IsRunning (set (key_of row) next running) ((i, row) ∷ t)
  set-IsRunning k r h = elim (Bool-cases (pair_beq k (key_of row))) [
    | inl same ↦
        let e = (pair_beq_iff k (key_of row)).0 same in
        let written = get-set_self (key_of row) before next running here in
        let h' = subst (λ j. get j (set (key_of row) next running) ≡ some r) e h in
        subst (λ j. r ≡ ledger_sum quantity_of j ((i, row) ∷ t)) (sym e)
          (sym (some-injective _ _ (sym written ∙ h')) ∙ next-sum)
    | inr other ↦
        let h' = sym (get-set_ne (key_of row) k next running other) ∙ h in
        let sum = ledger_sum-added quantity_of k i row t in runs k r h' ∙ sym (rw other at sum)
  ]
