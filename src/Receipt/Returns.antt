-- ===== src/Receipt/Returns.antt =====
-- A reversal takes back no more than was received
-- (backend/app/services/purchase_receipt_service.py, reverse_receipt), where the session's copies are
-- current.
use manufacturing_erp_lite.Prelude.{
  ℕ, ◌≡◌, refl, ap, ◌∙◌, sym, subst, true, Option, none, some, List, [], ◌∷◌, map, inl, inr,
  Bool-cases, leb, ◌==◌, nat_eq,
}
use mathlib.Core.Option
use manufacturing_erp_lite.Prelude.Decimal.{Decimal, pos, ◌-ℤ◌, ◌≤ℤ◌, leb_ℤ, leb_ℤ-true, int_laws}
use manufacturing_erp_lite.Prelude.Assoc.{
  Assoc, get, set, AllRows, AllRows-get, AllRows-set, update_where-eq-some, update-set,
}
use manufacturing_erp_lite.Errors.{ok, ok-injective, found-eq-ok, guard-eq-ok, >>=-eq-ok}
use manufacturing_erp_lite.Store.{
  Db, CurrentUser, PurchaseOrder, PurchaseOrderItem, PurchaseReceiptItem, InventoryTransaction,
}
use manufacturing_erp_lite.Audit.{write_audit}
use manufacturing_erp_lite.Inventory.{lock_balances, sort_keys, apply_outbound}
use manufacturing_erp_lite.Receipt.Defs.{LineState, set_received, cas_return}
use manufacturing_erp_lite.Receipt.Status.{items_of}
use manufacturing_erp_lite.Receipt.Create.{Posting}
use manufacturing_erp_lite.Receipt.Reverse.{
  claim_reversal, insert_row, rows_of, reverse_line, reverse_lines, recompute_if_found,
  post_reversal, reverse_receipt,
}
use manufacturing_erp_lite.Receipt.Keeps.{lock_each-keeps, apply_deltas-keeps}
use manufacturing_erp_lite.Receipt.Bounds.{IsWithin, LineBounds, items-write, recompute-items}

-- The CHECK on purchase_receipt_items.
abbrev pub IsReceived : PurchaseReceiptItem → Type 0
IsReceived ri = pos 1 ≤ℤ ri.received_quantity

insert_row-All :
    (x : ℕ × PurchaseReceiptItem) (rows : List (ℕ × PurchaseReceiptItem))
    → IsReceived x.1
    → AllRows IsReceived rows
    → AllRows IsReceived (insert_row x rows)
unfolding insert_row
insert_row-All x [] p all = (p, tt)
insert_row-All x (y ∷ ys) p all = elim (Bool-cases (leb (x.1).po_item_id (y.1).po_item_id)) [
  | inl first ↦ rw first (p, all)
  | inr later ↦ rw later (all.0, insert_row-All x ys p all.1)
]

rows_of-All :
    (receipt_id : ℕ) (t : Assoc ℕ PurchaseReceiptItem)
    → AllRows IsReceived t
    → AllRows IsReceived (rows_of receipt_id t)
unfolding rows_of
rows_of-All receipt_id [] all = tt
rows_of-All receipt_id ((i, ri) ∷ t) all = elim (Bool-cases (ri.receipt_id == receipt_id)) [
  | inl mine ↦ rw mine (insert_row-All (i, ri) _ all.0 (rows_of-All receipt_id t all.1))
  | inr other ↦ rw other (rows_of-All receipt_id t all.1)
]

-- The conditional UPDATE and the flush after it, where the session's copy is the current row.
return-items :
    (id : ℕ) (q : Decimal) (db : Db) {claimed : Db} {poi : PurchaseOrderItem}
    → get id db.order_items ≡ some poi
    → cas_return id q db ≡ some claimed
    → ((set_received id (poi.received_quantity -ℤ q) claimed).order_items
        ≡ set id (record poi { received_quantity = poi.received_quantity -ℤ q }) db.order_items)
      × (leb_ℤ q poi.received_quantity ≡ true)
unfolding cas_return set_received
return-items id q db {claimed} {poi} found h =
    let (t, changed, e) = (Option.map-eq-some_iff _ _).0 h in
    let (row, found', fits, set_it) = update_where-eq-some _ _ _ _ changed in
    let same : row ≡ poi = Option.some-injective _ _ (sym found' ∙ found) in
    let items : claimed.order_items
        ≡ set id (record row { received_quantity = row.received_quantity -ℤ q }) db.order_items =
      ap (λ x. x.order_items) (sym e) ∙ sym set_it in
    (
      rw (items, same) (update-set _ id poi _ db.order_items found),
      subst (λ r. leb_ℤ q r.received_quantity ≡ true) same fits,
    )

nonneg_left : (r q : Decimal) → q ≤ℤ r → pos 0 ≤ℤ r -ℤ q
nonneg_left r q h = omega int_laws

within_left : (r q o : Decimal) → pos 1 ≤ℤ q → r ≤ℤ o → r -ℤ q ≤ℤ o
within_left r q o h k = omega int_laws

reverse_line-LineBounds :
    (p : Posting) (ledger : Assoc ℕ InventoryTransaction) (i : ℕ) (ri : PurchaseReceiptItem)
    (st : LineState) {st' : LineState}
    → IsReceived ri
    → LineBounds st
    → reverse_line p ledger i ri st ≡ ok st'
    → LineBounds st'
unfolding reverse_line
reverse_line-LineBounds p ledger i ri st positive inv h =
    let (poi, found, h1) = found-eq-ok _ _ _ h in
    let (claimed, c, h2) = found-eq-ok _ _ _ h1 in
    let (original, _, h3) = found-eq-ok _ _ _ h2 in
    let (_, h4) = guard-eq-ok _ _ _ h3 in
    let (before, _, h5) = found-eq-ok _ _ _ h4 in
    let (written, w, h6) = >>=-eq-ok _ _ h5 in
    let (agg, _, h7) = >>=-eq-ok _ _ h6 in
    let q = ri.received_quantity in
    let here = subst (λ t. get ri.po_item_id t ≡ some poi) inv.current found in
    let (flushed, fits) = return-items ri.po_item_id q st.db here c in
    let items = items-write _ _ w ∙ flushed in
    let old = AllRows-get IsWithin ri.po_item_id (st.db).order_items here inv.within in
    let new : IsWithin (record poi { received_quantity = poi.received_quantity -ℤ q }) = record {
      nonneg = nonneg_left poi.received_quantity q (leb_ℤ-true _ _ fits);
      ordered = within_left poi.received_quantity q poi.ordered_quantity positive old.ordered;
    } in
    subst LineBounds (ok-injective h7) (record {
      current = ap (set ri.po_item_id _) inv.current ∙ sym items;
      within = rw items (AllRows-set IsWithin ri.po_item_id _ (st.db).order_items new inv.within);
    })

reverse_lines-LineBounds :
    (p : Posting) (ledger : Assoc ℕ InventoryTransaction) (rows : List (ℕ × PurchaseReceiptItem))
    (st : LineState) {st' : LineState}
    → AllRows IsReceived rows
    → LineBounds st
    → reverse_lines p ledger rows st ≡ ok st'
    → LineBounds st'
unfolding reverse_lines
reverse_lines-LineBounds p ledger [] st positive inv h = subst LineBounds (ok-injective h) inv
reverse_lines-LineBounds p ledger ((i, ri) ∷ rows) st positive inv h =
    let (st', e, rest) = >>=-eq-ok _ _ h in
    reverse_lines-LineBounds p ledger rows st' positive.1
      (reverse_line-LineBounds p ledger i ri st positive.0 inv e) rest

claim-items :
    (id : ℕ) (user : CurrentUser) (now : ℕ) (db : Db) {db' : Db}
    → claim_reversal id user now db ≡ some db'
    → db'.order_items ≡ db.order_items
unfolding claim_reversal
claim-items id user now db h =
    let (t, _, e) = (Option.map-eq-some_iff _ _).0 h in ap (λ x. x.order_items) (sym e)

recomputed-items :
    (po_id : ℕ) (po : Option PurchaseOrder) (lines : LineState) (db : Db)
    → (recompute_if_found po_id po lines db).order_items ≡ db.order_items
unfolding recompute_if_found
recomputed-items po_id none lines db = refl
recomputed-items po_id (some po) lines db =
    recompute-items po_id po (items_of po_id lines.seen_items) db

-- Where 0 <= received <= ordered holds of every order item, the session's copies of the items are
-- current, and the receipt's lines have positive quantities, it holds after every reversal.
pub reverse_receipt-IsWithin :
    (receipt_id : ℕ) (user : CurrentUser) (today now : ℕ) (seen db : Db) {db' : Db}
    → seen.order_items ≡ db.order_items
    → AllRows IsReceived seen.receipt_items
    → AllRows IsWithin db.order_items
    → reverse_receipt receipt_id user today now seen db ≡ ok db'
    → AllRows IsWithin db'.order_items
unfolding reverse_receipt post_reversal lock_balances write_audit
reverse_receipt-IsWithin receipt_id user today now seen db current positive within h =
    let (receipt, _, h1) = found-eq-ok _ _ _ h in
    let (_, h2) = guard-eq-ok _ _ _ h1 in
    let (claimed, c, h3) = found-eq-ok _ _ _ h2 in
    let (lines, l, h4) = >>=-eq-ok _ _ h3 in
    let (moved, m, h5) = >>=-eq-ok _ _ h4 in
    let rows = rows_of receipt_id seen.receipt_items in
    let keys = sort_keys (map (λ r. (receipt.warehouse_id, (r.1).material_id)) rows) in
    let locked =
      lock_each-keeps (λ x. x.order_items) (λ x t. refl) keys claimed
      ∙ claim-items receipt_id user now db c in
    let inv =
      reverse_lines-LineBounds _ seen.transactions rows _
        (rows_of-All receipt_id seen.receipt_items positive)
        (record { current = current ∙ sym locked; within = rw locked within }) l in
    let after =
      apply_deltas-keeps (λ x. x.order_items) (λ x t. refl) apply_outbound now lines.agg keys
        lines.db m in
    let recomputed = recomputed-items receipt.po_id (get receipt.po_id seen.orders) lines moved in
    subst (λ r. AllRows IsWithin r.order_items) (ok-injective h5)
      (rw (recomputed, after) inv.within)
