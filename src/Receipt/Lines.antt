-- ===== src/Receipt/Lines.antt =====
-- What every round of the two loops over the lines keeps
-- (backend/app/services/purchase_receipt_service.py): the ledger runs ahead of the balances by
-- exactly the deltas that have been added up.
use manufacturing_erp_lite.Prelude.{
  ℕ, suc, ◌≡◌, refl, ap, ap₂, ◌∙◌, sym, some, none, false, List, ◌∷◌, inl, inr, Bool-cases,
  if◌then◌else◌, pair_beq, pair_beq_iff, pair_eq,
}
use manufacturing_erp_lite.Prelude.Decimal.{Decimal, ◌+ℤ◌}
use manufacturing_erp_lite.Prelude.Assoc.{Assoc, get, set, get-set-none, AllRows}
use manufacturing_erp_lite.Errors.{ok, ok-injective, found-eq-ok}
use manufacturing_erp_lite.Store.{Db, PurchaseOrderItem}
use manufacturing_erp_lite.Inventory.{
  Key, has_key, BalanceDelta, Movement, append_transaction, write_transaction,
}
use manufacturing_erp_lite.Inventory.Book.{Ledger, ledger_sum}
use manufacturing_erp_lite.Inventory.Ledger.{
  quantity_of, amount_of, IsChained, HasSign, added, write_transaction-eq-append,
  write_transaction-HasSign,
}
use manufacturing_erp_lite.Inventory.Running.{IsRunning, ledger_sum-added, next-sum, set-IsRunning}
use manufacturing_erp_lite.Inventory.Posting.{Direction, delta, delta-get, delta-set}
use manufacturing_erp_lite.Receipt.Defs.{LineState, add_delta}

module _ (d : Direction) (start : Db) (keys : List Key) where
  pub record LinesInv (st : LineState) : Type 0 where
    pub balances : (st.db).balances ≡ start.balances
    pub quantity :
        (k : Key)
        → ledger_sum quantity_of k (st.db).transactions
          ≡ d.op (ledger_sum quantity_of k start.transactions) (delta (λ x. x.quantity) k st.agg)
    pub amount :
        (k : Key)
        → ledger_sum amount_of k (st.db).transactions
          ≡ d.op (ledger_sum amount_of k start.transactions) (delta (λ x. x.amount) k st.agg)
    pub running : IsRunning st.running_qty (st.db).transactions
    pub chained : IsChained (st.db).transactions
    pub signs : AllRows HasSign (st.db).transactions
    pub listed : (k : Key) → has_key k keys ≡ false → get k st.agg ≡ none

-- A sum follows its delta over one round.
sum_step :
    (d : Direction) (k key : Key) {before sum old new v c : Decimal} {base : Decimal}
    → before ≡ d.op base old
    → sum ≡ (if pair_beq k key then v +ℤ before else before)
    → new ≡ (if pair_beq k key then old +ℤ c else old)
    → v ≡ d.signed c
    → sum ≡ d.op base new
sum_step d k key {c} {base} inv grown changed sign = elim (Bool-cases (pair_beq k key)) [
  | inl same ↦
      rw same at grown
      ∙ ap₂ ◌+ℤ◌ sign inv
      ∙ d.op_step _ _ c
      ∙ ap (d.op base) (sym (rw same at changed))
  | inr other ↦ rw other at grown ∙ inv ∙ ap (d.op base) (sym (rw other at changed))
]

pub transactions-append :
    (m : Movement) (db : Db)
    → (append_transaction m db).transactions ≡ (suc db.last_id, added m db) ∷ db.transactions
unfolding append_transaction
transactions-append m db = refl

pub balances-append : (m : Movement) (db : Db) → (append_transaction m db).balances ≡ db.balances
unfolding append_transaction
balances-append m db = refl

-- One round: a row is written, the running quantity moves on, and the delta grows by as much.
module _ (d : Direction) (start : Db) (keys : List Key) (st : LineState) (flushed : Db)
    (m : Movement) (before next c_quantity c_amount : Decimal) (inv : LinesInv d start keys st)
    (same_balances : flushed.balances ≡ (st.db).balances)
    (same_ledger : flushed.transactions ≡ (st.db).transactions) where
  abbrev key : Key
  key = (m.warehouse_id, m.material_id)

  abbrev grown : Ledger
  grown = (suc flushed.last_id, added m flushed) ∷ (st.db).transactions

  written_ledger :
      {written : Db} → write_transaction m flushed ≡ ok written → written.transactions ≡ grown
  written_ledger wrote =
      sym (ap (λ x. x.transactions) (write_transaction-eq-append m flushed wrote))
      ∙ transactions-append m flushed
      ∙ ap (λ t. (suc flushed.last_id, added m flushed) ∷ t) same_ledger

  delta_step :
      (h : BalanceDelta → Decimal) (c : Decimal)
      → ((x : BalanceDelta)
          → h (record { quantity = x.quantity +ℤ c_quantity; amount = x.amount +ℤ c_amount })
            ≡ h x +ℤ c)
      → {agg : Assoc Key BalanceDelta} → add_delta key c_quantity c_amount st.agg ≡ ok agg
      → (k : Key)
      → delta h k agg ≡ (if pair_beq k key then delta h k st.agg +ℤ c else delta h k st.agg)
  unfolding add_delta
  delta_step h c f e k =
      let (x, there, r) = found-eq-ok _ _ _ e in
      let x' : BalanceDelta = record {
        quantity = x.quantity +ℤ c_quantity;
        amount = x.amount +ℤ c_amount;
      } in
      rw (← ok-injective r) (elim (Bool-cases (pair_beq k key)) [
        | inl same ↦
            let there' : get k st.agg ≡ some x = rw ((pair_beq_iff k key).0 same) there in
            let set_it = delta-set h key k st.agg x' there in
            rw same
              ((rw same at set_it) ∙ f x ∙ ap (λ y. y +ℤ c) (sym (delta-get h k st.agg there')))
        | inr other ↦
            let set_it = delta-set h key k st.agg x' there in rw other (rw other at set_it)
      ])

  delta_listed :
      {agg : Assoc Key BalanceDelta}
      → add_delta key c_quantity c_amount st.agg ≡ ok agg
      → (k : Key) → get k st.agg ≡ none
      → get k agg ≡ none
  unfolding add_delta
  delta_listed e k off =
      let (x, _, r) = found-eq-ok _ _ _ e in rw (← ok-injective r) (get-set-none k key _ st.agg off)

  module _ (before_here : get key st.running_qty ≡ some before) (after_is : m.balance_after ≡ next)
      (next_is : next ≡ before +ℤ m.quantity) (quantity_is : m.quantity ≡ d.signed c_quantity)
      (amount_is : m.amount ≡ d.signed c_amount) where
    pub round-LinesInv :
        (written : Db) (seen : Assoc ℕ PurchaseOrderItem) (agg : Assoc Key BalanceDelta)
        → write_transaction m flushed ≡ ok written
        → add_delta key c_quantity c_amount st.agg ≡ ok agg
        → LinesInv d start keys (record {
          db = written;
          seen_items = seen;
          running_qty = set key next st.running_qty;
          agg = agg;
        })
    round-LinesInv written seen agg wrote e =
        let ledger = written_ledger wrote in
        record {
          balances =
              sym (ap (λ x. x.balances) (write_transaction-eq-append m flushed wrote))
              ∙ balances-append m flushed
              ∙ same_balances
              ∙ inv.balances;
          quantity = λ k. rw ledger (
              sum_step d k key (inv.quantity k)
                (ledger_sum-added quantity_of k _ (added m flushed) (st.db).transactions)
                (delta_step (λ x. x.quantity) c_quantity (λ x. refl) e k) quantity_is);
          amount = λ k. rw ledger (
              sum_step d k key (inv.amount k)
                (ledger_sum-added amount_of k _ (added m flushed) (st.db).transactions)
                (delta_step (λ x. x.amount) c_amount (λ x. refl) e k) amount_is);
          running = rw ledger (
              set-IsRunning st.running_qty (st.db).transactions _ (added m flushed) before next
                inv.running before_here next_is);
          chained = rw ledger (
            after_is
                ∙ next-sum st.running_qty (st.db).transactions _ (added m flushed) before next
                    inv.running before_here next_is,
            inv.chained,
          );
          signs = rw ledger (write_transaction-HasSign m flushed wrote, inv.signs);
          listed = λ k off. delta_listed e k (inv.listed k off);
        }
