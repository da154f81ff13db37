-- ===== src/Reconciliation/Books.antt =====
-- The ledger and the balances agree after a count is posted
-- (backend/app/services/stock_reconciliation_service.py, approve_reconciliation).
use manufacturing_erp_lite.Prelude.{
  ℕ, suc, ◌≡◌, refl, ap, ◌∙◌, sym, subst, Bool, true, some, List, [], ◌∷◌, inl, inr, Bool-cases,
  if◌then◌else◌, pair_beq, pair_beq_iff, pair_eq, nat_eq,
}
use mathlib.Core.Option
use manufacturing_erp_lite.Prelude.Decimal.{
  Decimal, pos, neg, ◌+ℤ◌, ◌-ℤ◌, -ℤ_of_neg, +ℤ_comm, eqb_ℤ,
}
use manufacturing_erp_lite.Prelude.Assoc.{Assoc, get, set, AllRows-set}
use manufacturing_erp_lite.Errors.{ok, ok-injective, found-eq-ok, guard-eq-ok, >>=-eq-ok, >>-eq-ok}
use manufacturing_erp_lite.Store.{
  Db, CurrentUser, StockReconciliation, StockReconciliationItem, InventoryBalance,
  InventoryTransaction,
}
use manufacturing_erp_lite.Enums.{ReconciliationStatus}
use manufacturing_erp_lite.Inventory.{Key, lock_balances, sort_keys, lock_each, write_transaction}
use manufacturing_erp_lite.Inventory.Moves.{
  IsSound, Moved, apply_inbound-Moved, apply_outbound-Moved,
}
use manufacturing_erp_lite.Inventory.Book.{book, book-get, book-set, ledger_sum}
use manufacturing_erp_lite.Inventory.Ledger.{
  Reconciled, quantity_of, amount_of, added, write_transaction-eq-append, write_transaction-HasSign,
}
use manufacturing_erp_lite.Inventory.Running.{IsRunning, ledger_sum-added, next-sum, set-IsRunning}
use manufacturing_erp_lite.Receipt.Lines.{transactions-append, balances-append}
use manufacturing_erp_lite.Receipt.Frame.{stock, write_audit-stock}
use manufacturing_erp_lite.Receipt.Ends.{
  Reconciled-stock, Reconciled-lock_each, get-locked_quantities,
}
use manufacturing_erp_lite.Reconciliation.Defs.{ApproveIn, doc_items}
use manufacturing_erp_lite.Receipt.Defs.{locked_quantities}
use manufacturing_erp_lite.Reconciliation.Draft.{claim_doc}
use manufacturing_erp_lite.Reconciliation.Approve.{
  Count, CountState, is_surplus, adjust, moving, count_movement, post_moving, post_items,
  approve_reconciliation,
}

adjust-Moved :
    (item : StockReconciliationItem) (b : InventoryBalance) {b' : InventoryBalance}
    → adjust item b ≡ ok b'
    → Moved b b' (b.quantity +ℤ item.difference_quantity) (b.total_amount +ℤ item.adjustment_amount)
unfolding adjust
adjust-Moved item b {b'} h = elim (Bool-cases (is_surplus item)) [
  | inl up ↦ apply_inbound-Moved b item.difference_quantity item.adjustment_amount (rw up at h)
  | inr down ↦
      subst (λ q. Moved b b' q (b.total_amount +ℤ item.adjustment_amount))
        (-ℤ_of_neg b.quantity item.difference_quantity)
        (subst (λ t. Moved b b' (b.quantity -ℤ neg item.difference_quantity) t)
          (-ℤ_of_neg b.total_amount item.adjustment_amount)
          (apply_outbound-Moved b (neg item.difference_quantity) (neg item.adjustment_amount)
            (rw down at h)))
]

-- What every round of the loop keeps.
record PostInv (st : CountState) : Type 0 where
  pub reconciled : Reconciled st.db
  pub running : IsRunning st.running_qty (st.db).transactions

-- One figure of one balance and its column of the ledger move together.
figure_step :
    (k key : Key) (sum old v : Decimal) {book_before book_after sum_after new : Decimal}
    → book_before ≡ sum
    → (pair_beq k key ≡ true → book_before ≡ old)
    → new ≡ old +ℤ v
    → book_after ≡ (if pair_beq k key then new else book_before)
    → sum_after ≡ (if pair_beq k key then v +ℤ sum else sum)
    → book_after ≡ sum_after
figure_step k key sum old v agreed here moved b s = elim (Bool-cases (pair_beq k key)) [
  | inl same ↦
      (rw same at b)
      ∙ moved
      ∙ ap (λ x. x +ℤ v) (sym (here same) ∙ agreed)
      ∙ +ℤ_comm sum v
      ∙ sym (rw same at s)
  | inr other ↦ (rw other at b) ∙ agreed ∙ sym (rw other at s)
]

module _ (c : Count) (item_id : ℕ) (item : StockReconciliationItem) (st : CountState) where
  abbrev key : Key
  key = (c.warehouse_id, item.material_id)

  module _ (before : Decimal) (balance balance' : InventoryBalance) (written : Db)
      (inv : PostInv st) (found : get key (st.db).balances ≡ some balance)
      (running : get key st.running_qty ≡ some before)
      (wrote : write_transaction (count_movement c item_id item before) st.db ≡ ok written)
      (moves : Moved balance balance'
        (balance.quantity +ℤ item.difference_quantity)
        (balance.total_amount +ℤ item.adjustment_amount)) where
    abbrev row : InventoryTransaction
    row = added (count_movement c item_id item before) st.db

    abbrev placed : InventoryBalance
    placed = record balance' { last_transaction_at = some c.now }

    abbrev after : CountState
    after = record {
      db = record written { balances = set key placed written.balances };
      running_qty = set key (before +ℤ item.difference_quantity) st.running_qty;
    }

    ledger_after : written.transactions ≡ (suc (st.db).last_id, row) ∷ (st.db).transactions
    ledger_after =
        sym (
          ap (λ x. x.transactions)
            (write_transaction-eq-append (count_movement c item_id item before) st.db wrote))
        ∙ transactions-append (count_movement c item_id item before) st.db

    balances_after : written.balances ≡ (st.db).balances
    balances_after =
        sym (
          ap (λ x. x.balances)
            (write_transaction-eq-append (count_movement c item_id item before) st.db wrote))
        ∙ balances-append (count_movement c item_id item before) st.db

    figure_after :
        (f : InventoryBalance → Decimal) (g : InventoryTransaction → Decimal)
        → f placed ≡ f balance +ℤ g row
        → (k : Key) → book f k (st.db).balances ≡ ledger_sum g k (st.db).transactions
        → book f k (set key placed written.balances) ≡ ledger_sum g k written.transactions
    figure_after f g step k agreed =
        rw (ledger_after, balances_after)
          (figure_step k key (ledger_sum g k (st.db).transactions) (f balance) (g row) agreed
            (λ same.
              let e = (pair_beq_iff k key).0 same in
              subst (λ j. book f j (st.db).balances ≡ f balance) (sym e)
                (book-get f key (st.db).balances found))
            step (book-set f key k (st.db).balances placed found)
            (ledger_sum-added g k (suc (st.db).last_id) row (st.db).transactions))

    after-PostInv : PostInv after
    after-PostInv =
        let sound : IsSound placed = record {
          quantity_nonneg = moves.sound.quantity_nonneg;
          amount_nonneg = moves.sound.amount_nonneg;
          average = moves.sound.average;
        } in
        let r = inv.reconciled in
        record {
          reconciled = record {
            quantity =
                λ k. figure_after (λ b. b.quantity) quantity_of moves.quantity k (r.quantity k);
            amount = λ k. figure_after (λ b. b.total_amount) amount_of moves.amount k (r.amount k);
            chained = rw ledger_after (
              next-sum st.running_qty (st.db).transactions (suc (st.db).last_id) row before
                  (before +ℤ item.difference_quantity) inv.running running refl,
              r.chained,
            );
            signs = rw ledger_after (
              write_transaction-HasSign (count_movement c item_id item before) st.db wrote,
              r.signs,
            );
            sound =
                rw balances_after (AllRows-set IsSound key placed (st.db).balances sound r.sound);
          };
          running = rw ledger_after (
              set-IsRunning st.running_qty (st.db).transactions (suc (st.db).last_id) row before
                (before +ℤ item.difference_quantity) inv.running running refl);
        }

post_moving-PostInv :
    (c : Count) (ledger : Assoc ℕ InventoryTransaction) (i : ℕ) (item : StockReconciliationItem)
    (st : CountState) {st' : CountState}
    → PostInv st
    → post_moving c ledger i item st ≡ ok st'
    → PostInv st'
unfolding post_moving
post_moving-PostInv c ledger i item st inv h =
    let (balance, found, h1) = found-eq-ok _ _ _ h in
    let (_, h2) = >>-eq-ok _ _ h1 in
    let (before, running, h3) = found-eq-ok _ _ _ h2 in
    let (written, wrote, h4) = >>=-eq-ok _ _ h3 in
    let (balance', adjusted, h5) = >>=-eq-ok _ _ h4 in
    subst PostInv (ok-injective h5) (
      after-PostInv c i item st before balance balance' written inv found running wrote
        (adjust-Moved item balance adjusted))

post_items-PostInv :
    (c : Count) (ledger : Assoc ℕ InventoryTransaction) (items : List (ℕ × StockReconciliationItem))
    (st : CountState) {st' : CountState}
    → PostInv st
    → post_items c ledger items st ≡ ok st'
    → PostInv st'
unfolding post_items
post_items-PostInv c ledger [] st inv h = subst PostInv (ok-injective h) inv
post_items-PostInv c ledger ((i, item) ∷ items) st inv h =
    let (st', e, rest) = >>=-eq-ok _ _ h in
    let here : PostInv st' = elim (Bool-cases (eqb_ℤ item.difference_quantity (pos 0))) [
      | inl zero ↦ subst PostInv (ok-injective (rw zero at e)) inv
      | inr moves ↦ post_moving-PostInv c ledger i item st inv (rw moves at e)
    ] in
    post_items-PostInv c ledger items st' here rest

claim_doc-stock :
    (expected : ReconciliationStatus → Bool) (change : StockReconciliation → StockReconciliation)
    (doc_id : ℕ) (db : Db) {db' : Db}
    → claim_doc expected change doc_id db ≡ some db'
    → stock db' ≡ stock db
unfolding claim_doc
claim_doc-stock expected change doc_id db h =
    let (t, _, e) = (Option.map-eq-some_iff _ _).0 h in ap stock (sym e)

-- When the ledger and the balances agree, they agree after every count that is posted, even where
-- the session works on stale copies.
pub approve_reconciliation-Reconciled :
    (has_override : Bool) (doc_id : ℕ) (payload : ApproveIn) (user : CurrentUser) (today now : ℕ)
    (seen db : Db) {db' : Db}
    → Reconciled db
    → approve_reconciliation has_override doc_id payload user today now seen db ≡ ok db'
    → Reconciled db'
unfolding approve_reconciliation lock_balances
approve_reconciliation-Reconciled has_override doc_id payload user today now seen db r h =
    let (doc, _, h1) = >>=-eq-ok _ _ h in
    let (_, h2) = guard-eq-ok _ _ _ h1 in
    let (override_active, _, h3) = >>=-eq-ok _ _ h2 in
    let (_, h4) = >>-eq-ok _ _ h3 in
    let (claimed, c, h5) = found-eq-ok _ _ _ h4 in
    let (posted, p, h6) = >>=-eq-ok _ _ h5 in
    let items = doc_items doc_id seen.reconciliation_items in
    let keys = sort_keys (moving doc.warehouse_id items) in
    let same = claim_doc-stock _ _ doc_id db c in
    let locked = Reconciled-lock_each keys claimed (Reconciled-stock same r) in
    let first : PostInv (record {
      db = lock_each keys claimed;
      running_qty = locked_quantities keys (lock_each keys claimed);
    }) =
      record {
        reconciled = locked;
        running =
            λ k q e. get-locked_quantities k keys (lock_each keys claimed) q e ∙ locked.quantity k;
      } in
    let last = post_items-PostInv _ seen.transactions items _ first p in
    subst Reconciled (ok-injective h6)
      (Reconciled-stock (write_audit-stock _ _ posted.db) last.reconciled)
