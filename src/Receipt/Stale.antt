-- ===== src/Receipt/Stale.antt =====
-- What a stale copy of an order item does
-- (backend/app/services/purchase_receipt_service.py, create_receipt).
use manufacturing_erp_lite.Prelude.{ℕ, ◌≡◌, ap, ◌∙◌, sym, subst, some, nat_eq}
use mathlib.Core.Option
use manufacturing_erp_lite.Prelude.Decimal.{◌+ℤ◌}
use manufacturing_erp_lite.Prelude.Assoc.{get, update_where-eq-some, get-set_self, get-update_self}
use manufacturing_erp_lite.Errors.{ok, ok-injective, found-eq-ok, >>=-eq-ok}
use manufacturing_erp_lite.Store.{PurchaseOrderItem}
use manufacturing_erp_lite.Receipt.Defs.{ReceiptItemIn, LineState, set_received, cas_receive}
use manufacturing_erp_lite.Receipt.Create.{Posting, receive_line}
use manufacturing_erp_lite.Receipt.Bounds.{items-write}

-- One line of a receipt leaves the received quantity at the session's copy plus the line's quantity,
-- whatever the row held that the conditional UPDATE found.
pub receive_line-overwrites :
    (p : Posting) (line_no : ℕ) (item : ReceiptItemIn) (st : LineState) {poi : PurchaseOrderItem}
    {st' : LineState}
    → get item.po_item_id st.seen_items ≡ some poi
    → receive_line p line_no item st ≡ ok st'
    → (row : PurchaseOrderItem) × (get item.po_item_id (st'.db).order_items ≡ some row)
      × (row.received_quantity ≡ poi.received_quantity +ℤ item.received_quantity)
unfolding receive_line cas_receive set_received
receive_line-overwrites p line_no item st {poi} copy h =
    let (poi', found, h1) = found-eq-ok _ _ _ h in
    let (claimed, c, h2) = found-eq-ok _ _ _ h1 in
    let (before, _, h3) = found-eq-ok _ _ _ h2 in
    let (written, w, h4) = >>=-eq-ok _ _ h3 in
    let (agg, _, h5) = >>=-eq-ok _ _ h4 in
    let (t, changed, e) = (Option.map-eq-some_iff _ _).0 c in
    let (row, there, _, set_it) = update_where-eq-some _ _ _ _ changed in
    let q = item.received_quantity in
    let added : PurchaseOrderItem = record row { received_quantity = row.received_quantity +ℤ q } in
    let claimed_row : get item.po_item_id claimed.order_items ≡ some added =
      subst (λ x. get item.po_item_id x.order_items ≡ some added) e
        (subst (λ x. get item.po_item_id x ≡ some added) set_it
          (get-set_self item.po_item_id row added (st.db).order_items there)) in
    let flushed =
      get-update_self (λ r. record r { received_quantity = poi'.received_quantity +ℤ q })
        item.po_item_id claimed.order_items claimed_row in
    let after : PurchaseOrderItem = record added {
      received_quantity = poi'.received_quantity +ℤ q;
    } in
    let last = subst (λ x. get item.po_item_id x ≡ some after) (sym (items-write _ _ w)) flushed in
    (
      after,
      subst (λ x. get item.po_item_id (x.db).order_items ≡ some after) (ok-injective h5) last,
      ap (λ x. x.received_quantity +ℤ q) (Option.some-injective _ _ (sym found ∙ copy)),
    )
