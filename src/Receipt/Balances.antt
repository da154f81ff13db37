-- ===== src/Receipt/Balances.antt =====
-- The loop that writes the balances, `apply_deltas` (backend/app/services/purchase_receipt_service.py).
use manufacturing_erp_lite.Prelude.{
  ℕ, ◌≡◌, refl, ap, ap₂, ◌∙◌, sym, subst, some, true, false, ◌||◌, List, [], ◌∷◌, inl, inr,
  Bool-cases, if◌then◌else◌, pair_beq, pair_beq_iff, pair_eq, All,
}
use manufacturing_erp_lite.Prelude.Decimal.{Decimal}
use manufacturing_erp_lite.Prelude.Assoc.{Assoc, AllRows, AllRows-set}
use manufacturing_erp_lite.Errors.{ok, ok-injective, >>=-eq-ok, found-eq-ok}
use manufacturing_erp_lite.Store.{Db, InventoryBalance}
use manufacturing_erp_lite.Inventory.{Key, key_lt, has_key, BalanceDelta}
use manufacturing_erp_lite.Inventory.Locks.{IsAscending}
use manufacturing_erp_lite.Inventory.Moves.{IsSound, Moved}
use manufacturing_erp_lite.Inventory.Book.{book, book-set, book-get}
use manufacturing_erp_lite.Inventory.Posting.{Direction, delta, delta-get}
use manufacturing_erp_lite.Receipt.Defs.{apply_deltas}
use native.Mathlib.Omega.{arith}

key_lt-ne : (a b : Key) → key_lt a b ≡ true → pair_beq a b ≡ false
key_lt-ne a b h = ground arith

-- A key below all others is not among them.
has_key-below : (k : Key) (ks : List Key) → All (λ j. key_lt k j ≡ true) ks → has_key k ks ≡ false
has_key-below k [] h = refl
has_key-below k (j ∷ js) h = rw (key_lt-ne k j h.0) (has_key-below k js h.1)

-- One key is written and the loop goes on with the others.
once :
    (op : Decimal → Decimal → Decimal) (k j : Key) (js : List Key)
    {x between before change v : Decimal}
    → has_key j js ≡ false
    → x ≡ (if has_key k js then op between change else between)
    → between ≡ (if pair_beq k j then v else before)
    → (k ≡ j → v ≡ op before change)
    → x ≡ (if pair_beq k j || has_key k js then op before change else before)
once op k j js below rest here same = elim (Bool-cases (pair_beq k j)) [
  | inl eq ↦
      let e = (pair_beq_iff k j).0 eq in
      let absent : has_key k js ≡ false = subst (λ i. has_key i js ≡ false) (sym e) below in
      rw eq (rw absent at rest ∙ rw eq at here ∙ same e)
  | inr ne ↦ let stays = rw ne at here in rw ne (rw stays at rest)
]

module _ (d : Direction) (at : ℕ) (agg : Assoc Key BalanceDelta) where
  -- The loop moves no row of the ledger, no order and no item.
  pub transactions-apply_deltas :
      (ks : List Key) (db : Db) {db' : Db}
      → apply_deltas d.move at agg ks db ≡ ok db'
      → db'.transactions ≡ db.transactions
  unfolding apply_deltas
  transactions-apply_deltas [] db h = ap (λ x. x.transactions) (sym (ok-injective h))
  transactions-apply_deltas (k ∷ ks) db h =
      let (balance, _, h1) = found-eq-ok _ _ _ h in
      let (change, _, h2) = found-eq-ok _ _ _ h1 in
      let (balance', _, h3) = >>=-eq-ok _ _ h2 in transactions-apply_deltas ks _ h3

  -- Every balance stays sound.
  pub apply_deltas-IsSound :
      (ks : List Key) (db : Db) {db' : Db}
      → apply_deltas d.move at agg ks db ≡ ok db'
      → AllRows IsSound db.balances
      → AllRows IsSound db'.balances
  unfolding apply_deltas
  apply_deltas-IsSound [] db h s = subst (λ x. AllRows IsSound x.balances) (ok-injective h) s
  apply_deltas-IsSound (k ∷ ks) db h s =
      let (balance, _, h1) = found-eq-ok _ _ _ h in
      let (change, _, h2) = found-eq-ok _ _ _ h1 in
      let (balance', moved, h3) = >>=-eq-ok _ _ h2 in
      let m = d.move-Moved balance change.quantity change.amount balance' moved in
      let sound : IsSound (record balance' { last_transaction_at = some at }) = record {
        quantity_nonneg = m.sound.quantity_nonneg;
        amount_nonneg = m.sound.amount_nonneg;
        average = m.sound.average;
      } in
      apply_deltas-IsSound ks _ h3 (AllRows-set IsSound k _ db.balances sound s)

  -- A figure of the balances with its part of the delta.
  module _ (f : InventoryBalance → Decimal) (h : BalanceDelta → Decimal)
      (fits : (b b' : InventoryBalance) (c : BalanceDelta)
        → Moved b b' (d.op b.quantity c.quantity) (d.op b.total_amount c.amount)
        → f (record b' { last_transaction_at = some at }) ≡ d.op (f b) (h c)) where
    -- Each of the keys takes its delta once, and no other balance changes.
    pub book-apply_deltas :
        (ks : List Key) (db : Db) {db' : Db}
        → IsAscending ks
        → apply_deltas d.move at agg ks db ≡ ok db'
        → (k : Key)
        → book f k db'.balances ≡ (
            if has_key k ks
            then d.op (book f k db.balances) (delta h k agg)
            else book f k db.balances)
    unfolding apply_deltas
    book-apply_deltas [] db asc e k = ap (λ x. book f k x.balances) (sym (ok-injective e))
    book-apply_deltas (j ∷ js) db asc e k =
        let (balance, found, e1) = found-eq-ok _ _ _ e in
        let (change, listed, e2) = found-eq-ok _ _ _ e1 in
        let (balance', moved, e3) = >>=-eq-ok _ _ e2 in
        let m = d.move-Moved balance change.quantity change.amount balance' moved in
        let rest = book-apply_deltas js _ asc.1 e3 k in
        let here =
          book-set f j k db.balances (record balance' { last_transaction_at = some at }) found in
        once d.op k j js (has_key-below j js asc.0) rest here (λ same.
          fits balance balance' change m
          ∙ sym (
              ap₂ d.op
                (subst (λ i. book f i db.balances ≡ f balance) (sym same)
                  (book-get f j db.balances found))
                (subst (λ i. delta h i agg ≡ h change) (sym same) (delta-get h j agg listed))))
