-- ===== src/Receipt/Bounds.antt =====
-- What is received stays within what was ordered
-- (backend/app/services/purchase_receipt_service.py), where the session's copies are current.
use manufacturing_erp_lite.Prelude.{
  ℕ, suc, ◌≡◌, refl, ap, ◌∙◌, sym, subst, some, true, false, List, [], ◌∷◌, map, inl, inr,
  Bool-cases, leb, All, nat_eq,
}
use mathlib.Core.Option
use manufacturing_erp_lite.Prelude.Decimal.{
  Decimal, pos, ◌+ℤ◌, ◌≤ℤ◌, leb_ℤ, leb_ℤ-true, leb_ℤ-false, int_laws,
}
use manufacturing_erp_lite.Prelude.Assoc.{
  get, set, AllRows, AllRows-get, AllRows-set, update_where-eq-some, update-set,
}
use manufacturing_erp_lite.Errors.{ok, ok-injective, found-eq-ok, guard-eq-ok, >>=-eq-ok, >>-eq-ok}
use manufacturing_erp_lite.Store.{Db, CurrentUser, PurchaseOrder, PurchaseOrderItem}
use manufacturing_erp_lite.Audit.{write_audit}
use manufacturing_erp_lite.Inventory.{
  Movement, append_transaction, write_transaction, apply_inbound, lock_balances, sort_keys,
}
use manufacturing_erp_lite.Inventory.Ledger.{write_transaction-eq-append}
use manufacturing_erp_lite.Receipt.Defs.{
  ReceiptItemIn, ReceiptIn, LineState, set_received, cas_receive, check_items, sort_items,
  insert_item,
}
use manufacturing_erp_lite.Receipt.Create.{
  Posting, receive_line, receive_lines, add_receipt, post_receipt, create_receipt,
}
use manufacturing_erp_lite.Receipt.Status.{
  items_of, derived_status, set_po_status, recompute_po_status,
}
use manufacturing_erp_lite.Enums.{is_po_status}
use manufacturing_erp_lite.Receipt.Keeps.{lock_each-keeps, apply_deltas-keeps}

-- The CHECKs on a received quantity.
pub record IsWithin (item : PurchaseOrderItem) : Type 0 where
  pub nonneg : pos 0 ≤ℤ item.received_quantity
  pub ordered : item.received_quantity ≤ℤ item.ordered_quantity

-- The session's items are the current ones, and all are within their bounds.
pub record LineBounds (st : LineState) : Type 0 where
  pub current : st.seen_items ≡ (st.db).order_items
  pub within : AllRows IsWithin (st.db).order_items

items-append : (m : Movement) (db : Db) → (append_transaction m db).order_items ≡ db.order_items
unfolding append_transaction
items-append m db = refl

pub items-write :
    (m : Movement) (db : Db) {db' : Db}
    → write_transaction m db ≡ ok db'
    → db'.order_items ≡ db.order_items
items-write m db h =
    ap (λ x. x.order_items) (sym (write_transaction-eq-append m db h)) ∙ items-append m db

-- The conditional UPDATE and the flush after it, where the session's copy is the current row.
receive-items :
    (id : ℕ) (q : Decimal) (db : Db) {claimed : Db} {poi : PurchaseOrderItem}
    → get id db.order_items ≡ some poi
    → cas_receive id q db ≡ some claimed
    → ((set_received id (poi.received_quantity +ℤ q) claimed).order_items
        ≡ set id (record poi { received_quantity = poi.received_quantity +ℤ q }) db.order_items)
      × (leb_ℤ (poi.received_quantity +ℤ q) poi.ordered_quantity ≡ true)
unfolding cas_receive set_received
receive-items id q db {claimed} {poi} found h =
    let (t, changed, e) = (Option.map-eq-some_iff _ _).0 h in
    let (row, found', fits, set_it) = update_where-eq-some _ _ _ _ changed in
    let same : row ≡ poi = Option.some-injective _ _ (sym found' ∙ found) in
    let f : PurchaseOrderItem → PurchaseOrderItem =
      λ r. record r { received_quantity = poi.received_quantity +ℤ q } in
    let items : claimed.order_items
        ≡ set id (record row { received_quantity = row.received_quantity +ℤ q }) db.order_items =
      ap (λ x. x.order_items) (sym e) ∙ sym set_it in
    (
      rw (items, same) (update-set f id poi _ db.order_items found),
      subst (λ r. leb_ℤ (r.received_quantity +ℤ q) r.ordered_quantity ≡ true) same fits,
    )

nonneg_after : (r q : Decimal) → pos 0 ≤ℤ r → leb_ℤ q (pos 0) ≡ false → pos 0 ≤ℤ r +ℤ q
nonneg_after r q h k = let l = leb_ℤ-false _ _ k in omega int_laws

receive_line-LineBounds :
    (p : Posting) (line_no : ℕ) (item : ReceiptItemIn) (st : LineState) {st' : LineState}
    → leb_ℤ item.received_quantity (pos 0) ≡ false
    → LineBounds st
    → receive_line p line_no item st ≡ ok st'
    → LineBounds st'
unfolding receive_line
receive_line-LineBounds p line_no item st positive inv h =
    let (poi, found, h1) = found-eq-ok _ _ _ h in
    let (claimed, c, h2) = found-eq-ok _ _ _ h1 in
    let (before, _, h3) = found-eq-ok _ _ _ h2 in
    let (written, w, h4) = >>=-eq-ok _ _ h3 in
    let (agg, _, h5) = >>=-eq-ok _ _ h4 in
    let q = item.received_quantity in
    let here = subst (λ t. get item.po_item_id t ≡ some poi) inv.current found in
    let (flushed, fits) = receive-items item.po_item_id q st.db here c in
    let items = items-write _ _ w ∙ flushed in
    let old = AllRows-get IsWithin item.po_item_id (st.db).order_items here inv.within in
    let new : IsWithin (record poi { received_quantity = poi.received_quantity +ℤ q }) = record {
      nonneg = nonneg_after poi.received_quantity q old.nonneg positive;
      ordered = leb_ℤ-true _ _ fits;
    } in
    subst LineBounds (ok-injective h5) (record {
      current = ap (set item.po_item_id _) inv.current ∙ sym items;
      within = rw items (AllRows-set IsWithin item.po_item_id _ (st.db).order_items new inv.within);
    })

abbrev IsPositive : ReceiptItemIn → Type 0
IsPositive item = leb_ℤ item.received_quantity (pos 0) ≡ false

check_items-All :
    (ids : List ℕ) (items : List ReceiptItemIn)
    → check_items ids items ≡ ok tt
    → All IsPositive items
unfolding check_items
check_items-All ids [] h = tt
check_items-All ids (item ∷ items) h =
    let (_, h1) = guard-eq-ok _ _ _ h in
    let (positive, h2) = guard-eq-ok _ _ _ h1 in
    (positive, check_items-All (item.po_item_id ∷ ids) items h2)

insert_item-All :
    (x : ReceiptItemIn) (items : List ReceiptItemIn)
    → IsPositive x
    → All IsPositive items
    → All IsPositive (insert_item x items)
unfolding insert_item
insert_item-All x [] p all = (p, tt)
insert_item-All x (y ∷ ys) p all = elim (Bool-cases (leb x.po_item_id y.po_item_id)) [
  | inl first ↦ rw first (p, all)
  | inr later ↦ rw later (all.0, insert_item-All x ys p all.1)
]

sort_items-All :
    (items : List ReceiptItemIn) → All IsPositive items → All IsPositive (sort_items items)
unfolding sort_items
sort_items-All [] all = tt
sort_items-All (x ∷ xs) all = insert_item-All x (sort_items xs) all.0 (sort_items-All xs all.1)

receive_lines-LineBounds :
    (p : Posting) (line_no : ℕ) (items : List ReceiptItemIn) (st : LineState) {st' : LineState}
    → All IsPositive items
    → LineBounds st
    → receive_lines p line_no items st ≡ ok st'
    → LineBounds st'
unfolding receive_lines
receive_lines-LineBounds p line_no [] st positive inv h = subst LineBounds (ok-injective h) inv
receive_lines-LineBounds p line_no (item ∷ items) st positive inv h =
    let (st', e, rest) = >>=-eq-ok _ _ h in
    receive_lines-LineBounds p (suc line_no) items st' positive.1
      (receive_line-LineBounds p line_no item st positive.0 inv e) rest

pub recompute-items :
    (po_id : ℕ) (po : PurchaseOrder) (items : List PurchaseOrderItem) (db : Db)
    → (recompute_po_status po_id po items db).1.order_items ≡ db.order_items
unfolding recompute_po_status set_po_status
recompute-items po_id po [] db = refl
recompute-items po_id po (item ∷ items) db =
    elim (Bool-cases (is_po_status (derived_status (item ∷ items)) po.status)) [
      | inl same ↦ rw same refl
      | inr other ↦ rw other refl
    ]

-- Where 0 <= received <= ordered holds of every order item, and the session's copies of the items are
-- current, it holds after every receipt that is posted.
pub create_receipt-IsWithin :
    (data_in : ReceiptIn) (user : CurrentUser) (at : ℕ) (seen db : Db) {id : ℕ} {db' : Db}
    → seen.order_items ≡ db.order_items
    → AllRows IsWithin db.order_items
    → create_receipt data_in user at seen db ≡ ok (id, db')
    → AllRows IsWithin db'.order_items
unfolding create_receipt post_receipt lock_balances add_receipt write_audit
create_receipt-IsWithin data_in user at seen db current within h =
    let (_, h1) = guard-eq-ok _ _ _ h in
    let (po, _, h2) = >>=-eq-ok _ _ h1 in
    let (_, h3) = >>-eq-ok _ _ h2 in
    let (checked, h4) = >>-eq-ok _ _ h3 in
    let (materials, _, h5) = >>=-eq-ok _ _ h4 in
    let (lines, l, h6) = >>=-eq-ok _ _ h5 in
    let (moved, m, h7) = >>=-eq-ok _ _ h6 in
    let keys = sort_keys (map (λ k. (data_in.warehouse_id, k)) materials) in
    let locked = lock_each-keeps (λ x. x.order_items) (λ x t. refl) keys db in
    let positive = sort_items-All data_in.items (check_items-All [] data_in.items checked) in
    let inv =
      receive_lines-LineBounds _ 1 (sort_items data_in.items) _ positive
        (record { current = current ∙ sym locked; within = rw locked within }) l in
    let after =
      apply_deltas-keeps (λ x. x.order_items) (λ x t. refl) apply_inbound at lines.agg keys lines.db
        m in
    let recomputed =
      recompute-items data_in.po_id po (items_of data_in.po_id lines.seen_items) moved in
    subst (λ r. AllRows IsWithin r.1.order_items) (ok-injective h7)
      (rw (recomputed, after) inv.within)
