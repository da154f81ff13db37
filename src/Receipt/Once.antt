-- ===== src/Receipt/Once.antt =====
-- A receipt is reversed at most once
-- (backend/app/services/purchase_receipt_service.py, reverse_receipt).
use manufacturing_erp_lite.Prelude.{
  ℕ, ◌≡◌, refl, ap, ◌∙◌, sym, subst, Option, none, some, true, false, List, [], ◌∷◌, map, inl, inr,
  Bool-cases, nat_eq,
}
use mathlib.Core.Option
use manufacturing_erp_lite.Prelude.Assoc.{Assoc, get, update_where-eq-some, get-set_self}
use manufacturing_erp_lite.Enums.{ReceiptStatus, is_po_status}
use manufacturing_erp_lite.Errors.{ok, ok-injective, found-eq-ok, guard-eq-ok, >>=-eq-ok}
use manufacturing_erp_lite.Store.{
  Db, CurrentUser, PurchaseOrder, PurchaseOrderItem, PurchaseReceipt, PurchaseReceiptItem,
  InventoryTransaction,
}
use manufacturing_erp_lite.Audit.{write_audit}
use manufacturing_erp_lite.Inventory.{
  Movement, append_transaction, apply_outbound, lock_balances, sort_keys,
}
use manufacturing_erp_lite.Inventory.Ledger.{write_transaction-eq-append}
use manufacturing_erp_lite.Receipt.Defs.{LineState, set_received, cas_return}
use manufacturing_erp_lite.Receipt.Status.{
  items_of, derived_status, set_po_status, recompute_po_status,
}
use manufacturing_erp_lite.Receipt.Create.{Posting}
use manufacturing_erp_lite.Receipt.Reverse.{
  is_posted, claim_reversal, rows_of, reverse_line, reverse_lines, recompute_if_found,
  post_reversal, reverse_receipt,
}
use manufacturing_erp_lite.Receipt.Keeps.{lock_each-keeps, apply_deltas-keeps}

receipts-append : (m : Movement) (db : Db) → (append_transaction m db).receipts ≡ db.receipts
unfolding append_transaction
receipts-append m db = refl

reverse_line-receipts :
    (p : Posting) (ledger : Assoc ℕ InventoryTransaction) (i : ℕ) (ri : PurchaseReceiptItem)
    (st : LineState) {st' : LineState}
    → reverse_line p ledger i ri st ≡ ok st'
    → (st'.db).receipts ≡ (st.db).receipts
unfolding reverse_line cas_return set_received
reverse_line-receipts p ledger i ri st h =
    let (poi, _, h1) = found-eq-ok _ _ _ h in
    let (claimed, c, h2) = found-eq-ok _ _ _ h1 in
    let (original, _, h3) = found-eq-ok _ _ _ h2 in
    let (_, h4) = guard-eq-ok _ _ _ h3 in
    let (before, _, h5) = found-eq-ok _ _ _ h4 in
    let (written, w, h6) = >>=-eq-ok _ _ h5 in
    let (agg, _, h7) = >>=-eq-ok _ _ h6 in
    let (t, _, e) = (Option.map-eq-some_iff _ _).0 c in
    ap (λ x. (x.db).receipts) (sym (ok-injective h7))
    ∙ ap (λ x. x.receipts) (sym (write_transaction-eq-append _ _ w))
    ∙ receipts-append _ _
    ∙ ap (λ x. x.receipts) (sym e)

reverse_lines-receipts :
    (p : Posting) (ledger : Assoc ℕ InventoryTransaction) (rows : List (ℕ × PurchaseReceiptItem))
    (st : LineState) {st' : LineState}
    → reverse_lines p ledger rows st ≡ ok st'
    → (st'.db).receipts ≡ (st.db).receipts
unfolding reverse_lines
reverse_lines-receipts p ledger [] st h = ap (λ x. (x.db).receipts) (sym (ok-injective h))
reverse_lines-receipts p ledger ((i, ri) ∷ rows) st h =
    let (st', e, rest) = >>=-eq-ok _ _ h in
    reverse_lines-receipts p ledger rows st' rest ∙ reverse_line-receipts p ledger i ri st e

recompute_if_found-receipts :
    (po_id : ℕ) (po : Option PurchaseOrder) (lines : LineState) (db : Db)
    → (recompute_if_found po_id po lines db).receipts ≡ db.receipts
unfolding recompute_if_found recompute_po_status set_po_status
recompute_if_found-receipts po_id none lines db = refl
recompute_if_found-receipts po_id (some po) lines db = go (items_of po_id lines.seen_items)
  where
    go :
        (items : List PurchaseOrderItem)
        → (recompute_po_status po_id po items db).1.receipts ≡ db.receipts
    go [] = refl
    go (item ∷ items) = elim (Bool-cases (is_po_status (derived_status (item ∷ items)) po.status)) [
      | inl same ↦ rw same refl
      | inr other ↦ rw other refl
    ]

post_reversal-receipts :
    (receipt_id : ℕ) (receipt : PurchaseReceipt) (user : CurrentUser) (today now : ℕ) (seen db : Db)
    {db' : Db}
    → post_reversal receipt_id receipt user today now seen db ≡ ok db'
    → db'.receipts ≡ db.receipts
unfolding post_reversal lock_balances write_audit
post_reversal-receipts receipt_id receipt user today now seen db h =
    let (lines, l, h1) = >>=-eq-ok _ _ h in
    let (moved, m, h2) = >>=-eq-ok _ _ h1 in
    let rows = rows_of receipt_id seen.receipt_items in
    let keys = sort_keys (map (λ r. (receipt.warehouse_id, (r.1).material_id)) rows) in
    ap (λ x. x.receipts) (sym (ok-injective h2))
    ∙ recompute_if_found-receipts receipt.po_id (get receipt.po_id seen.orders) lines moved
    ∙ apply_deltas-keeps (λ x. x.receipts) (λ x t. refl) apply_outbound now lines.agg keys lines.db
        m
    ∙ reverse_lines-receipts _ seen.transactions rows _ l
    ∙ lock_each-keeps (λ x. x.receipts) (λ x t. refl) keys db

-- The receipt that a claim has found, and the one that it leaves.
claim_reversal-eq-some :
    (receipt_id : ℕ) (user : CurrentUser) (now : ℕ) (db : Db) {db' : Db}
    → claim_reversal receipt_id user now db ≡ some db'
    → (row row' : PurchaseReceipt) × (get receipt_id db.receipts ≡ some row)
      × (is_posted row.status ≡ true)
      × (get receipt_id db'.receipts ≡ some row')
      × (is_posted row'.status ≡ false)
unfolding claim_reversal
claim_reversal-eq-some receipt_id user now db h =
    let (t, changed, e) = (Option.map-eq-some_iff _ _).0 h in
    let (row, found, posted, set_it) = update_where-eq-some _ _ _ _ changed in
    let row' : PurchaseReceipt = record row {
      status = ReceiptStatus.reversed;
      reversed_by = some user.id;
      reversed_at = some now;
    } in
    let there = get-set_self receipt_id row row' db.receipts found in
    (
      row,
      row',
      found,
      posted,
      subst (λ x. get receipt_id x.receipts ≡ some row') e
          (subst (λ x. get receipt_id x ≡ some row') set_it there),
      refl,
    )

reverse_receipt-claims :
    (receipt_id : ℕ) (user : CurrentUser) (today now : ℕ) (seen db : Db) {db' : Db}
    → reverse_receipt receipt_id user today now seen db ≡ ok db'
    → (claimed : Db) × (claim_reversal receipt_id user now db ≡ some claimed)
      × (db'.receipts ≡ claimed.receipts)
unfolding reverse_receipt
reverse_receipt-claims receipt_id user today now seen db h =
    let (receipt, _, h1) = found-eq-ok _ _ _ h in
    let (_, h2) = guard-eq-ok _ _ _ h1 in
    let (claimed, c, h3) = found-eq-ok _ _ _ h2 in
    (claimed, c, post_reversal-receipts receipt_id receipt user today now seen claimed h3)

-- Once a receipt is reversed, no second session can reverse it, whatever that session has read.
pub reverse_receipt-once :
    (receipt_id : ℕ) (user : CurrentUser) (today now : ℕ) (seen db : Db) {db' : Db}
    → reverse_receipt receipt_id user today now seen db ≡ ok db'
    → (other : CurrentUser) (day later : ℕ) (stale db'' : Db)
    → ¬ (reverse_receipt receipt_id other day later stale db' ≡ ok db'')
reverse_receipt-once receipt_id user today now seen db {db'} h other day later stale db'' again =
    let (claimed, c, same) = reverse_receipt-claims receipt_id user today now seen db h in
    let (_, row', _, _, there, reversed) = claim_reversal-eq-some receipt_id user now db c in
    let (_, c', _) = reverse_receipt-claims receipt_id other day later stale db' again in
    let (found, _, there', posted, _, _) = claim_reversal-eq-some receipt_id other later db' c' in
    let here : get receipt_id db'.receipts ≡ some row' = rw same there in
    let equal : found ≡ row' = Option.some-injective _ _ (sym there' ∙ here) in
    let bad : is_posted row'.status ≡ true = subst (λ r. is_posted r.status ≡ true) equal posted in
    absurd (cc)
