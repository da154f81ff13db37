-- ===== src/Receipt/Others.antt =====
-- Receiving and reversing leave the requisitions' rows alone
-- (backend/app/services/purchase_receipt_service.py).
use manufacturing_erp_lite.Prelude.{
  ℕ, suc, ◌≡◌, refl, ap, ◌∙◌, sym, Option, none, some, List, [], ◌∷◌, map, inl, inr, Bool-cases,
  nat_eq,
}
use mathlib.Core.Option
use manufacturing_erp_lite.Prelude.Decimal.{Decimal}
use manufacturing_erp_lite.Prelude.Assoc.{Assoc, get}
use manufacturing_erp_lite.Enums.{is_po_status}
use manufacturing_erp_lite.Errors.{ok, ok-injective, found-eq-ok, guard-eq-ok, >>=-eq-ok, >>-eq-ok}
use manufacturing_erp_lite.Store.{
  Db, CurrentUser, PurchaseOrder, PurchaseOrderItem, PurchaseRequisition, PurchaseReceiptItem,
  InventoryTransaction,
}
use manufacturing_erp_lite.Audit.{write_audit}
use manufacturing_erp_lite.Inventory.{
  lock_balances, lock_each, sort_keys, apply_inbound, apply_outbound, Movement, append_transaction,
  write_transaction,
}
use manufacturing_erp_lite.Inventory.Ledger.{write_transaction-eq-append}
use manufacturing_erp_lite.Receipt.Defs.{
  ReceiptItemIn, ReceiptIn, LineState, set_received, cas_receive, cas_return,
}
use manufacturing_erp_lite.Receipt.Status.{
  items_of, derived_status, set_po_status, recompute_po_status,
}
use manufacturing_erp_lite.Receipt.Create.{
  Posting, receive_line, receive_lines, add_receipt, post_receipt, create_receipt,
}
use manufacturing_erp_lite.Receipt.Reverse.{
  claim_reversal, rows_of, reverse_line, reverse_lines, recompute_if_found, post_reversal,
  reverse_receipt,
}
use manufacturing_erp_lite.Receipt.Keeps.{lock_each-keeps, apply_deltas-keeps}

abbrev prs : Db → Assoc ℕ PurchaseRequisition
prs db = db.requisitions

append-prs : (m : Movement) (db : Db) → prs (append_transaction m db) ≡ prs db
unfolding append_transaction
append-prs m db = refl

pub write_transaction-prs :
    (m : Movement) (db : Db) {db' : Db}
    → write_transaction m db ≡ ok db'
    → db'.requisitions ≡ db.requisitions
write_transaction-prs m db h = ap prs (sym (write_transaction-eq-append m db h)) ∙ append-prs m db

set_received-prs : (id : ℕ) (q : Decimal) (db : Db) → prs (set_received id q db) ≡ prs db
unfolding set_received
set_received-prs id q db = refl

cas_receive-prs :
    (id : ℕ) (q : Decimal) (db : Db) {db' : Db} → cas_receive id q db ≡ some db' → prs db' ≡ prs db
unfolding cas_receive
cas_receive-prs id q db h = let (t, _, e) = (Option.map-eq-some_iff _ _).0 h in ap prs (sym e)

cas_return-prs :
    (id : ℕ) (q : Decimal) (db : Db) {db' : Db} → cas_return id q db ≡ some db' → prs db' ≡ prs db
unfolding cas_return
cas_return-prs id q db h = let (t, _, e) = (Option.map-eq-some_iff _ _).0 h in ap prs (sym e)

receive_line-prs :
    (p : Posting) (line_no : ℕ) (item : ReceiptItemIn) (st : LineState) {st' : LineState}
    → receive_line p line_no item st ≡ ok st'
    → prs st'.db ≡ prs st.db
unfolding receive_line
receive_line-prs p line_no item st h =
    let (poi, _, h1) = found-eq-ok _ _ _ h in
    let (claimed, c, h2) = found-eq-ok _ _ _ h1 in
    let (before, _, h3) = found-eq-ok _ _ _ h2 in
    let (written, w, h4) = >>=-eq-ok _ _ h3 in
    let (agg, _, h5) = >>=-eq-ok _ _ h4 in
    ap (λ s. prs s.db) (sym (ok-injective h5))
    ∙ write_transaction-prs _ _ w
    ∙ set_received-prs item.po_item_id _ claimed
    ∙ cas_receive-prs item.po_item_id item.received_quantity st.db c

receive_lines-prs :
    (p : Posting) (line_no : ℕ) (items : List ReceiptItemIn) (st : LineState) {st' : LineState}
    → receive_lines p line_no items st ≡ ok st'
    → prs st'.db ≡ prs st.db
unfolding receive_lines
receive_lines-prs p line_no [] st h = ap (λ s. prs s.db) (sym (ok-injective h))
receive_lines-prs p line_no (item ∷ items) st h =
    let (st', e, rest) = >>=-eq-ok _ _ h in
    receive_lines-prs p (suc line_no) items st' rest ∙ receive_line-prs p line_no item st e

reverse_line-prs :
    (p : Posting) (ledger : Assoc ℕ InventoryTransaction) (i : ℕ) (ri : PurchaseReceiptItem)
    (st : LineState) {st' : LineState}
    → reverse_line p ledger i ri st ≡ ok st'
    → prs st'.db ≡ prs st.db
unfolding reverse_line
reverse_line-prs p ledger i ri st h =
    let (poi, _, h1) = found-eq-ok _ _ _ h in
    let (claimed, c, h2) = found-eq-ok _ _ _ h1 in
    let (original, _, h3) = found-eq-ok _ _ _ h2 in
    let (_, h4) = guard-eq-ok _ _ _ h3 in
    let (before, _, h5) = found-eq-ok _ _ _ h4 in
    let (written, w, h6) = >>=-eq-ok _ _ h5 in
    let (agg, _, h7) = >>=-eq-ok _ _ h6 in
    ap (λ s. prs s.db) (sym (ok-injective h7))
    ∙ write_transaction-prs _ _ w
    ∙ set_received-prs ri.po_item_id _ claimed
    ∙ cas_return-prs ri.po_item_id ri.received_quantity st.db c

reverse_lines-prs :
    (p : Posting) (ledger : Assoc ℕ InventoryTransaction) (rows : List (ℕ × PurchaseReceiptItem))
    (st : LineState) {st' : LineState}
    → reverse_lines p ledger rows st ≡ ok st'
    → prs st'.db ≡ prs st.db
unfolding reverse_lines
reverse_lines-prs p ledger [] st h = ap (λ s. prs s.db) (sym (ok-injective h))
reverse_lines-prs p ledger ((i, ri) ∷ rows) st h =
    let (st', e, rest) = >>=-eq-ok _ _ h in
    reverse_lines-prs p ledger rows st' rest ∙ reverse_line-prs p ledger i ri st e

recompute_po_status-prs :
    (po_id : ℕ) (po : PurchaseOrder) (items : List PurchaseOrderItem) (db : Db)
    → prs (recompute_po_status po_id po items db).1 ≡ prs db
unfolding recompute_po_status set_po_status
recompute_po_status-prs po_id po [] db = refl
recompute_po_status-prs po_id po (item ∷ items) db =
    elim (Bool-cases (is_po_status (derived_status (item ∷ items)) po.status)) [
      | inl same ↦ rw same refl
      | inr other ↦ rw other refl
    ]

recompute_if_found-prs :
    (po_id : ℕ) (po : Option PurchaseOrder) (lines : LineState) (db : Db)
    → prs (recompute_if_found po_id po lines db) ≡ prs db
unfolding recompute_if_found
recompute_if_found-prs po_id none lines db = refl
recompute_if_found-prs po_id (some po) lines db =
    recompute_po_status-prs po_id po (items_of po_id lines.seen_items) db

add_receipt-prs :
    (data_in : ReceiptIn) (user : CurrentUser) (at : ℕ) (db : Db)
    → prs (add_receipt data_in user at db) ≡ prs db
unfolding add_receipt
add_receipt-prs data_in user at db = refl

claim_reversal-prs :
    (id : ℕ) (user : CurrentUser) (now : ℕ) (db : Db) {db' : Db}
    → claim_reversal id user now db ≡ some db'
    → prs db' ≡ prs db
unfolding claim_reversal
claim_reversal-prs id user now db h =
    let (t, _, e) = (Option.map-eq-some_iff _ _).0 h in ap prs (sym e)

pub create_receipt-requisitions :
    (data_in : ReceiptIn) (user : CurrentUser) (at : ℕ) (seen db : Db) {id : ℕ} {db' : Db}
    → create_receipt data_in user at seen db ≡ ok (id, db')
    → db'.requisitions ≡ db.requisitions
unfolding create_receipt post_receipt lock_balances write_audit
create_receipt-requisitions data_in user at seen db h =
    let (_, h1) = >>-eq-ok _ _ h in
    let (po, _, h2) = >>=-eq-ok _ _ h1 in
    let (_, h3) = >>-eq-ok _ _ h2 in
    let (_, h4) = >>-eq-ok _ _ h3 in
    let (materials, _, h5) = >>=-eq-ok _ _ h4 in
    let (lines, l, h6) = >>=-eq-ok _ _ h5 in
    let (moved, m, h7) = >>=-eq-ok _ _ h6 in
    let keys = sort_keys (map (λ m. (data_in.warehouse_id, m)) materials) in
    ap (λ r. prs r.1) (sym (ok-injective h7))
    ∙ recompute_po_status-prs data_in.po_id po (items_of data_in.po_id lines.seen_items) moved
    ∙ apply_deltas-keeps prs (λ x t. refl) apply_inbound at lines.agg keys lines.db m
    ∙ receive_lines-prs _ 1 _ _ l
    ∙ add_receipt-prs data_in user at (lock_each keys db)
    ∙ lock_each-keeps prs (λ x t. refl) keys db

pub reverse_receipt-requisitions :
    (receipt_id : ℕ) (user : CurrentUser) (today now : ℕ) (seen db : Db) {db' : Db}
    → reverse_receipt receipt_id user today now seen db ≡ ok db'
    → db'.requisitions ≡ db.requisitions
unfolding reverse_receipt post_reversal lock_balances write_audit
reverse_receipt-requisitions receipt_id user today now seen db h =
    let (receipt, _, h1) = found-eq-ok _ _ _ h in
    let (_, h2) = guard-eq-ok _ _ _ h1 in
    let (claimed, c, h3) = found-eq-ok _ _ _ h2 in
    let (lines, l, h4) = >>=-eq-ok _ _ h3 in
    let (moved, m, h5) = >>=-eq-ok _ _ h4 in
    let rows = rows_of receipt_id seen.receipt_items in
    let keys = sort_keys (map (λ r. (receipt.warehouse_id, (r.1).material_id)) rows) in
    ap prs (sym (ok-injective h5))
    ∙ recompute_if_found-prs receipt.po_id (get receipt.po_id seen.orders) lines moved
    ∙ apply_deltas-keeps prs (λ x t. refl) apply_outbound now lines.agg keys lines.db m
    ∙ reverse_lines-prs _ seen.transactions rows _ l
    ∙ lock_each-keeps prs (λ x t. refl) keys claimed
    ∙ claim_reversal-prs receipt_id user now db c
