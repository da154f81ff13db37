-- ===== src/Order/Stock.antt =====
-- No operation of backend/app/services/purchase_order_service.py moves stock.
use manufacturing_erp_lite.Prelude.{ℕ, ◌≡◌, refl, ap, ◌∙◌, sym, nat_eq}
use manufacturing_erp_lite.Prelude.Decimal.{pos}
use manufacturing_erp_lite.Errors.{ok, ok-injective, found-eq-ok, >>=-eq-ok, >>-eq-ok}
use manufacturing_erp_lite.Store.{Db, CurrentUser}
use manufacturing_erp_lite.Audit.{write_audit}
use manufacturing_erp_lite.Receipt.Frame.{stock}
use manufacturing_erp_lite.Requisition.Frame.{heads}
use manufacturing_erp_lite.Order.Defs.{OrderIn, flip_pr_to_converted, flip_pr_back_to_approved}
use manufacturing_erp_lite.Order.Create.{add_po, set_total, create_po}
use manufacturing_erp_lite.Order.Status.{flush_po, confirm_po, cancel_po, sources_of, pr_ids_of}
use manufacturing_erp_lite.Order.Frame.{
  add_lines-heads, give_back-heads, claim_po-heads, flip_each-stock, flip_pr_to_converted-stock,
  flip_pr_back_to_approved-stock,
}

pub add_po-heads :
    (data_in : OrderIn) (user : CurrentUser) (db : Db) → heads (add_po data_in user db) ≡ heads db
unfolding add_po
add_po-heads data_in user db = refl

pub create_po-stock :
    (data_in : OrderIn) (user : CurrentUser) (seen db : Db) {id : ℕ} {db' : Db}
    → create_po data_in user seen db ≡ ok (id, db')
    → stock db' ≡ stock db
unfolding create_po set_total write_audit
create_po-stock data_in user seen db h =
    let (_, h1) = >>-eq-ok _ _ h in
    let (_, h2) = >>-eq-ok _ _ h1 in
    let (pr_ids, _, h3) = >>=-eq-ok _ _ h2 in
    let (_, h4) = >>-eq-ok _ _ h3 in
    let (_, h5) = >>-eq-ok _ _ h4 in
    let (lines, l, h6) = >>=-eq-ok _ _ h5 in
    ap (λ r. stock r.1) (sym (ok-injective h6))
    ∙ flip_each-stock flip_pr_to_converted pr_ids _ flip_pr_to_converted-stock
    ∙ ap (λ x. x.0) (add_lines-heads _ 1 data_in.items (pos 0) _ l ∙ add_po-heads data_in user db)

pub confirm_po-heads :
    (po_id version : ℕ) (user : CurrentUser) (seen db : Db) {db' : Db}
    → confirm_po po_id version user seen db ≡ ok db'
    → heads db' ≡ heads db
unfolding confirm_po flush_po write_audit
confirm_po-heads po_id version user seen db h =
    let (po, _, h1) = >>=-eq-ok _ _ h in
    let (_, h2) = >>-eq-ok _ _ h1 in
    let (_, h3) = >>-eq-ok _ _ h2 in
    let (_, h4) = >>-eq-ok _ _ h3 in
    let (_, h5) = >>-eq-ok _ _ h4 in
    let (_, h6) = >>-eq-ok _ _ h5 in
    let (claimed, c, h7) = found-eq-ok _ _ _ h6 in
    ap heads (sym (ok-injective h7)) ∙ claim_po-heads _ _ po_id version user db c

pub cancel_po-stock :
    (po_id version : ℕ) (user : CurrentUser) (seen db : Db) {db' : Db}
    → cancel_po po_id version user seen db ≡ ok db'
    → stock db' ≡ stock db
unfolding cancel_po flush_po write_audit
cancel_po-stock po_id version user seen db h =
    let (po, _, h1) = >>=-eq-ok _ _ h in
    let (_, h2) = >>-eq-ok _ _ h1 in
    let (_, h3) = >>-eq-ok _ _ h2 in
    let (_, h4) = >>-eq-ok _ _ h3 in
    let (_, h5) = >>-eq-ok _ _ h4 in
    let (claimed, c, h6) = found-eq-ok _ _ _ h5 in
    let (returned, g, h7) = >>=-eq-ok _ _ h6 in
    let sources = sources_of po_id seen.order_items seen.order_item_sources in
    let pr_ids = pr_ids_of sources seen.requisition_items in
    ap stock (sym (ok-injective h7))
    ∙ flip_each-stock flip_pr_back_to_approved pr_ids returned flip_pr_back_to_approved-stock
    ∙ ap (λ x. x.0) (give_back-heads _ _ g ∙ claim_po-heads _ _ po_id version user db c)
