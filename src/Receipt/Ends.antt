-- ===== src/Receipt/Ends.antt =====
-- The two ends of a posting: before the first line, and after the balances are written
-- (backend/app/services/purchase_receipt_service.py).
use manufacturing_erp_lite.Prelude.{
  ◌≡◌, refl, ap, ◌∙◌, sym, subst, some, none, true, false, List, [], ◌∷◌, ℕ, inl, inr, Bool-cases,
  Option-cases, pair_beq, pair_beq_iff, pair_eq, none-some,
}
use mathlib.Core.Option.{some-injective}
use manufacturing_erp_lite.Prelude.Decimal.{Decimal, pos}
use manufacturing_erp_lite.Prelude.Assoc.{Assoc, get, AllRows}
use manufacturing_erp_lite.Errors.{ok}
use manufacturing_erp_lite.Store.{Db, PurchaseOrderItem, InventoryBalance, InventoryTransaction}
use manufacturing_erp_lite.Inventory.{Key, has_key, BalanceDelta, no_delta, lock_each}
use manufacturing_erp_lite.Inventory.Locks.{IsAscending}
use manufacturing_erp_lite.Inventory.Moves.{IsSound, Moved}
use manufacturing_erp_lite.Inventory.Book.{book, book-get, book-lock_each, ledger_sum}
use manufacturing_erp_lite.Inventory.Ledger.{Reconciled, quantity_of, amount_of}
use manufacturing_erp_lite.Inventory.Posting.{Direction, delta, delta-none}
use manufacturing_erp_lite.Receipt.Defs.{LineState, no_deltas, locked_quantities, apply_deltas}
use manufacturing_erp_lite.Receipt.Frame.{stock, lock_each-ledger, lock_each-IsSound}
use manufacturing_erp_lite.Receipt.Lines.{LinesInv}
use manufacturing_erp_lite.Receipt.Balances.{
  transactions-apply_deltas, apply_deltas-IsSound, book-apply_deltas,
}

delta-no_deltas :
    (h : BalanceDelta → Decimal) (k : Key) (keys : List Key)
    → h no_delta ≡ pos 0
    → delta h k (no_deltas keys) ≡ pos 0
unfolding delta no_deltas get
delta-no_deltas h k [] z = refl
delta-no_deltas h k (j ∷ js) z = elim (Bool-cases (pair_beq k j)) [
  | inl same ↦ rw same z
  | inr other ↦ rw other (delta-no_deltas h k js z)
]

get-no_deltas : (k : Key) (keys : List Key) → has_key k keys ≡ false → get k (no_deltas keys) ≡ none
unfolding no_deltas get
get-no_deltas k [] h = refl
get-no_deltas k (j ∷ js) h = elim (Bool-cases (pair_beq k j)) [
  | inl same ↦ let bad : true ≡ false = rw same at h in absurd (cc)
  | inr other ↦ rw other (get-no_deltas k js (rw other at h))
]

pub get-locked_quantities :
    (k : Key) (keys : List Key) (db : Db) (r : Decimal)
    → get k (locked_quantities keys db) ≡ some r
    → r ≡ book (λ b. b.quantity) k db.balances
unfolding locked_quantities get
get-locked_quantities k [] db r h = none-some h
get-locked_quantities k (j ∷ js) db r h = elim (Option-cases (get j db.balances)) [
  | inl absent ↦ get-locked_quantities k js db r (rw (absent, locked_quantities) at h)
  | inr (b, found) ↦
      let h' = rw (found, locked_quantities) at h in
      elim (Bool-cases (pair_beq k j)) [
        | inl same ↦
            let e = (pair_beq_iff k j).0 same in
            sym (some-injective _ _ (rw same at h'))
            ∙ subst (λ i. b.quantity ≡ book (λ x. x.quantity) i db.balances) (sym e)
                (sym (book-get (λ x. x.quantity) j db.balances found))
        | inr other ↦ get-locked_quantities k js db r (rw other at h')
      ]
]

-- A reconciled database stays reconciled where only other tables change.
pub Reconciled-stock : {db db' : Db} → stock db' ≡ stock db → Reconciled db → Reconciled db'
Reconciled-stock {db} {db'} e r =
    let b : db'.balances ≡ db.balances = ap (λ s. s.0) e in
    let t : db'.transactions ≡ db.transactions = ap (λ s. s.1) e in
    record {
      quantity = λ k. rw (b, t) (r.quantity k);
      amount = λ k. rw (b, t) (r.amount k);
      chained = rw t r.chained;
      signs = rw t r.signs;
      sound = rw b r.sound;
    }

pub Reconciled-lock_each :
    (keys : List Key) (db : Db) → Reconciled db → Reconciled (lock_each keys db)
Reconciled-lock_each keys db r =
    let t = lock_each-ledger keys db in
    record {
      quantity = λ k. rw t (book-lock_each (λ b. b.quantity) refl keys k db ∙ r.quantity k);
      amount = λ k. rw t (book-lock_each (λ b. b.total_amount) refl keys k db ∙ r.amount k);
      chained = rw t r.chained;
      signs = rw t r.signs;
      sound = lock_each-IsSound keys db r.sound;
    }

module _ (d : Direction) (start : Db) (keys : List Key) (reconciled : Reconciled start) where
  pub first-LinesInv :
      (locked : Db) (seen : Assoc ℕ PurchaseOrderItem)
      → stock start ≡ stock locked
      → LinesInv d start keys (record {
        db = start;
        seen_items = seen;
        running_qty = locked_quantities keys locked;
        agg = no_deltas keys;
      })
  first-LinesInv locked seen e = record {
    balances = refl;
    quantity = λ k. rw (delta-no_deltas (λ x. x.quantity) k keys refl) (sym (d.op_zero _));
    amount = λ k. rw (delta-no_deltas (λ x. x.amount) k keys refl) (sym (d.op_zero _));
    running = λ k r h.
        get-locked_quantities k keys locked r h
        ∙ ap (λ s. book (λ b. b.quantity) k s.0) (sym e)
        ∙ reconciled.quantity k;
    chained = reconciled.chained;
    signs = reconciled.signs;
    listed = λ k off. get-no_deltas k keys off;
  }

  module _ (at : ℕ) (lines : LineState) {db' : Db} (asc : IsAscending keys)
      (inv : LinesInv d start keys lines)
      (e : apply_deltas d.move at lines.agg keys lines.db ≡ ok db') where
    -- One figure of the books, with its column of the ledger.
    figure-agrees :
        (f : InventoryBalance → Decimal) (g : InventoryTransaction → Decimal)
        (h : BalanceDelta → Decimal)
        → ((b b' : InventoryBalance) (c : BalanceDelta)
            → Moved b b' (d.op b.quantity c.quantity) (d.op b.total_amount c.amount)
            → f (record b' { last_transaction_at = some at }) ≡ d.op (f b) (h c))
        → (k : Key) → book f k start.balances ≡ ledger_sum g k start.transactions
        → ledger_sum g k (lines.db).transactions
          ≡ d.op (ledger_sum g k start.transactions) (delta h k lines.agg)
        → book f k db'.balances ≡ ledger_sum g k db'.transactions
    figure-agrees f g h fits k agreed grown =
        let change = book-apply_deltas d at lines.agg f h fits keys lines.db asc e k in
        let before = ap (λ t. book f k t) inv.balances ∙ agreed in
        rw (transactions-apply_deltas d at lines.agg keys lines.db e)
          (elim (Bool-cases (has_key k keys)) [
            | inl moves ↦
                (rw moves at change) ∙ ap (λ s. d.op s (delta h k lines.agg)) before ∙ sym grown
            | inr stays ↦
                (rw stays at change)
                ∙ before
                ∙ sym (d.op_zero _)
                ∙ ap (d.op _) (sym (delta-none h k lines.agg (inv.listed k stays)))
                ∙ sym grown
          ])

    pub last-Reconciled : Reconciled db'
    last-Reconciled =
        let ledger = transactions-apply_deltas d at lines.agg keys lines.db e in
        record {
          quantity = λ k.
              figure-agrees (λ b. b.quantity) quantity_of (λ x. x.quantity) (λ b b' c m. m.quantity)
                k (reconciled.quantity k) (inv.quantity k);
          amount = λ k.
              figure-agrees (λ b. b.total_amount) amount_of (λ x. x.amount) (λ b b' c m. m.amount) k
                (reconciled.amount k) (inv.amount k);
          chained = rw ledger inv.chained;
          signs = rw ledger inv.signs;
          sound =
              apply_deltas-IsSound d at lines.agg keys lines.db e
                (subst (AllRows IsSound) (sym inv.balances) reconciled.sound);
        }
