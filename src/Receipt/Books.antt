-- ===== src/Receipt/Books.antt =====
-- The ledger and the balances agree after each operation of
-- backend/app/services/purchase_receipt_service.py, whatever the session had read before.
use manufacturing_erp_lite.Prelude.{ℕ, ◌≡◌, refl, ap, ◌∙◌, subst, List, map, nat_eq}
use manufacturing_erp_lite.Prelude.Assoc.{get}
use manufacturing_erp_lite.Errors.{ok, ok-injective, found-eq-ok, guard-eq-ok, >>=-eq-ok, >>-eq-ok}
use manufacturing_erp_lite.Store.{Db, CurrentUser, PurchaseOrder, PurchaseReceipt}
use manufacturing_erp_lite.Inventory.{lock_balances, sort_keys, lock_each}
use manufacturing_erp_lite.Inventory.Locks.{sort_keys-IsAscending}
use manufacturing_erp_lite.Inventory.Ledger.{Reconciled}
use manufacturing_erp_lite.Inventory.Posting.{inbound, outbound}
use manufacturing_erp_lite.Receipt.Defs.{ReceiptIn}
use manufacturing_erp_lite.Receipt.Create.{post_receipt, create_receipt}
use manufacturing_erp_lite.Receipt.Reverse.{rows_of, post_reversal, reverse_receipt}
use manufacturing_erp_lite.Receipt.Frame.{
  add_receipt-stock, recompute_po_status-stock, recompute_if_found-stock, write_audit-stock,
  claim_reversal-stock,
}
use manufacturing_erp_lite.Receipt.Rounds.{receive_lines-LinesInv, reverse_lines-LinesInv}
use manufacturing_erp_lite.Receipt.Ends.{
  Reconciled-stock, Reconciled-lock_each, first-LinesInv, last-Reconciled,
}

post_receipt-Reconciled :
    (data_in : ReceiptIn) (user : CurrentUser) (at : ℕ) (po : PurchaseOrder) (materials : List ℕ)
    (seen db : Db) {id : ℕ} {db' : Db}
    → Reconciled db
    → post_receipt data_in user at po materials seen db ≡ ok (id, db')
    → Reconciled db'
unfolding post_receipt lock_balances
post_receipt-Reconciled data_in user at po materials seen db r h =
    let keys = sort_keys (map (λ m. (data_in.warehouse_id, m)) materials) in
    let (lines, l, h1) = >>=-eq-ok _ _ h in
    let (moved, m, h2) = >>=-eq-ok _ _ h1 in
    let same = add_receipt-stock data_in user at (lock_each keys db) in
    let headed = Reconciled-stock same (Reconciled-lock_each keys db r) in
    let first = first-LinesInv inbound _ keys headed (lock_each keys db) seen.order_items same in
    let inv = receive_lines-LinesInv _ keys _ 1 _ _ first l in
    let asc = sort_keys-IsAscending (map (λ m. (data_in.warehouse_id, m)) materials) in
    let books = last-Reconciled inbound _ keys headed at lines asc inv m in
    subst Reconciled (ap (λ x. x.1) (ok-injective h2)) (
      Reconciled-stock
        (write_audit-stock _ _ _ ∙ recompute_po_status-stock data_in.po_id po _ moved) books)

-- When the ledger and the balances agree, they agree after every receipt that is posted, even where
-- the session works on stale copies: for every warehouse and material the balance's quantity and
-- total are the sums of the ledger's columns, each ledger row's `balance_after` is the running sum at
-- that row, each row has the sign of its type, and each balance is nonnegative with its average.
pub create_receipt-Reconciled :
    (data_in : ReceiptIn) (user : CurrentUser) (at : ℕ) (seen db : Db) {id : ℕ} {db' : Db}
    → Reconciled db
    → create_receipt data_in user at seen db ≡ ok (id, db')
    → Reconciled db'
unfolding create_receipt
create_receipt-Reconciled data_in user at seen db r h =
    let (_, h1) = guard-eq-ok _ _ _ h in
    let (po, _, h2) = >>=-eq-ok _ _ h1 in
    let (_, h3) = >>-eq-ok _ _ h2 in
    let (_, h4) = >>-eq-ok _ _ h3 in
    let (materials, _, h5) = >>=-eq-ok _ _ h4 in
    post_receipt-Reconciled data_in user at po materials seen db r h5

post_reversal-Reconciled :
    (receipt_id : ℕ) (receipt : PurchaseReceipt) (user : CurrentUser) (today now : ℕ) (seen db : Db)
    {db' : Db}
    → Reconciled db
    → post_reversal receipt_id receipt user today now seen db ≡ ok db'
    → Reconciled db'
unfolding post_reversal lock_balances
post_reversal-Reconciled receipt_id receipt user today now seen db r h =
    let rows = rows_of receipt_id seen.receipt_items in
    let keys = sort_keys (map (λ r. (receipt.warehouse_id, (r.1).material_id)) rows) in
    let (lines, l, h1) = >>=-eq-ok _ _ h in
    let (moved, m, h2) = >>=-eq-ok _ _ h1 in
    let locked = Reconciled-lock_each keys db r in
    let first = first-LinesInv outbound _ keys locked (lock_each keys db) seen.order_items refl in
    let inv = reverse_lines-LinesInv _ keys _ seen.transactions rows _ first l in
    let asc = sort_keys-IsAscending (map (λ r. (receipt.warehouse_id, (r.1).material_id)) rows) in
    let books = last-Reconciled outbound _ keys locked now lines asc inv m in
    subst Reconciled (ok-injective h2) (
      Reconciled-stock
        (write_audit-stock _ _ _
          ∙ recompute_if_found-stock _ (get receipt.po_id seen.orders) lines moved)
        books)

-- When the ledger and the balances agree, they agree after every reversal of a receipt, even where
-- the session works on stale copies.
pub reverse_receipt-Reconciled :
    (receipt_id : ℕ) (user : CurrentUser) (today now : ℕ) (seen db : Db) {db' : Db}
    → Reconciled db
    → reverse_receipt receipt_id user today now seen db ≡ ok db'
    → Reconciled db'
unfolding reverse_receipt
reverse_receipt-Reconciled receipt_id user today now seen db r h =
    let (receipt, _, h1) = found-eq-ok _ _ _ h in
    let (_, h2) = guard-eq-ok _ _ _ h1 in
    let (claimed, c, h3) = found-eq-ok _ _ _ h2 in
    post_reversal-Reconciled receipt_id receipt user today now seen claimed
      (Reconciled-stock (claim_reversal-stock receipt_id user now db c) r) h3
