-- ===== src/Receipt/Scope.antt =====
-- Reading one receipt and listing the receipts have the same scope
-- (backend/app/services/purchase_receipt_service.py, get_receipt and list_receipts).
use manufacturing_erp_lite.Prelude.{ℕ, ◌≡◌, ◌↔◌, refl, ◌∙◌, sym, subst, true, some, nat_eq}
use mathlib.Core.Option
use mathlib.Core.List.{Memᴰ}
use manufacturing_erp_lite.Prelude.Assoc.{get}
use manufacturing_erp_lite.Errors.{ok, found-eq-ok, guard-eq-ok, ◌>>◌}
use manufacturing_erp_lite.Store.{Db, CurrentUser, PurchaseReceipt}
use manufacturing_erp_lite.Query.{descending}
use manufacturing_erp_lite.Query.Members.{
  where_rows-Memᴰ, Memᴰ-where_rows, order_by-Memᴰ, Memᴰ-order_by,
}
use manufacturing_erp_lite.Order.Versions.{and-true, not-false}
use manufacturing_erp_lite.Order.Scope.{get-Memᴰ, and-intro}
use manufacturing_erp_lite.Receipt.Read.{
  ReceiptFilter, passes_receipt_filter, visible_po, assert_receipt_visible, get_receipt,
  listed_receipts,
}

visible_of_get_receipt :
    (user : CurrentUser) (id : ℕ) (db : Db) {receipt : PurchaseReceipt}
    → get id db.receipts ≡ some receipt
    → get_receipt db id user ≡ ok receipt
    → visible_po db user receipt.po_id ≡ true
unfolding get_receipt assert_receipt_visible
visible_of_get_receipt user id db there h =
    let (r, there', h1) = found-eq-ok _ _ _ h in
    let (v, _) = guard-eq-ok _ _ _ h1 in
    let same = Option.some-injective _ _ (sym there' ∙ there) in
    subst (λ x. visible_po db user x.po_id ≡ true) same (not-false (visible_po db user r.po_id) v)

get_receipt_of_visible :
    (user : CurrentUser) (id : ℕ) (db : Db) {receipt : PurchaseReceipt}
    → get id db.receipts ≡ some receipt
    → visible_po db user receipt.po_id ≡ true
    → get_receipt db id user ≡ ok receipt
unfolding get_receipt assert_receipt_visible ◌>>◌
get_receipt_of_visible user id db there v = rw there (rw v refl)

-- A user can read a receipt that passes a filter exactly where the list with that filter shows it.
pub get_receipt-listed :
    (user : CurrentUser) (receipt_id : ℕ) (f : ReceiptFilter) (db : Db) {receipt : PurchaseReceipt}
    → get receipt_id db.receipts ≡ some receipt
    → passes_receipt_filter f receipt ≡ true
    → (get_receipt db receipt_id user ≡ ok receipt)
      ↔ Memᴰ (receipt_id, receipt) (listed_receipts db user f)
unfolding listed_receipts
get_receipt-listed user receipt_id f db {receipt} there passes = (
  λ h.
      Memᴰ-order_by descending (receipt_id, receipt) _
        (Memᴰ-where_rows _ (receipt_id, receipt) db.receipts (get-Memᴰ receipt_id db.receipts there)
          (and-intro _ _ (visible_of_get_receipt user receipt_id db there h) passes)),
  λ m.
      let (_, c) =
        where_rows-Memᴰ _ (receipt_id, receipt) db.receipts (order_by-Memᴰ descending _ _ m) in
      get_receipt_of_visible user receipt_id db there
        (and-true (visible_po db user receipt.po_id) _ c).0,
)
