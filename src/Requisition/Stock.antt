-- ===== src/Requisition/Stock.antt =====
-- No operation of backend/app/services/purchase_requisition_service.py moves stock.
use manufacturing_erp_lite.Prelude.{ℕ, ◌≡◌, refl, ap, ◌∙◌, sym, Bool, nat_eq}
use manufacturing_erp_lite.Errors.{ok, ok-injective, found-eq-ok, >>=-eq-ok, >>-eq-ok}
use manufacturing_erp_lite.Store.{Db, CurrentUser}
use manufacturing_erp_lite.Audit.{write_audit}
use manufacturing_erp_lite.Receipt.Frame.{stock}
use manufacturing_erp_lite.Requisition.Defs.{PrIn, flush_pr}
use manufacturing_erp_lite.Requisition.Create.{create_pr, add_pr, set_pr_total}
use manufacturing_erp_lite.Requisition.Status.{submit_pr, cancel_pr}
use manufacturing_erp_lite.Requisition.Approval.{
  approve_pr, reject_pr, revise_pr, approval_record, clear_submitted,
}
use manufacturing_erp_lite.Requisition.Edit.{PrEdit, update_pr, set_pr_version}
use manufacturing_erp_lite.Requisition.Frame.{
  recompute-heads, claim_pr-stock, add_pr_items-heads, flush_items-heads,
}

add_pr-stock :
    (data_in : PrIn) (dept_id : ℕ) (user : CurrentUser) (db : Db)
    → stock (add_pr data_in dept_id user db) ≡ stock db
unfolding add_pr
add_pr-stock data_in dept_id user db = refl

pub create_pr-stock :
    (data_in : PrIn) (user : CurrentUser) (seen db : Db) {id : ℕ} {db' : Db}
    → create_pr data_in user seen db ≡ ok (id, db')
    → stock db' ≡ stock db
unfolding create_pr set_pr_total write_audit
create_pr-stock data_in user seen db h =
    let (dept_id, _, h1) = >>=-eq-ok _ _ h in
    let (filled, f, h2) = >>=-eq-ok _ _ h1 in
    let (totalled, t, h3) = >>=-eq-ok _ _ h2 in
    ap (λ r. stock r.1) (sym (ok-injective h3))
    ∙ ap (λ x. x.0) (recompute-heads _ filled t ∙ add_pr_items-heads seen _ 1 data_in.items _ f)
    ∙ add_pr-stock data_in dept_id user db

pub submit_pr-stock :
    (pr_id : ℕ) (user : CurrentUser) (now : ℕ) (seen db : Db) {db' : Db}
    → submit_pr pr_id user now seen db ≡ ok db'
    → stock db' ≡ stock db
unfolding submit_pr flush_pr write_audit
submit_pr-stock pr_id user now seen db h =
    let (pr, _, h1) = >>=-eq-ok _ _ h in
    let (_, h2) = >>-eq-ok _ _ h1 in
    let (_, h3) = >>-eq-ok _ _ h2 in
    let (_, h4) = >>-eq-ok _ _ h3 in
    let (_, h5) = >>-eq-ok _ _ h4 in
    let (totalled, t, h6) = >>=-eq-ok _ _ h5 in
    let (claimed, c, h7) = found-eq-ok _ _ _ h6 in
    ap stock (sym (ok-injective h7))
    ∙ claim_pr-stock _ _ pr_id totalled.1 c
    ∙ ap (λ x. x.0) (recompute-heads _ db t)

pub cancel_pr-stock :
    (pr_id : ℕ) (user : CurrentUser) (seen db : Db) {db' : Db}
    → cancel_pr pr_id user seen db ≡ ok db'
    → stock db' ≡ stock db
unfolding cancel_pr flush_pr write_audit
cancel_pr-stock pr_id user seen db h =
    let (pr, _, h1) = >>=-eq-ok _ _ h in
    let (_, h2) = >>-eq-ok _ _ h1 in
    let (_, h3) = >>-eq-ok _ _ h2 in
    let (_, h4) = >>-eq-ok _ _ h3 in
    let (claimed, c, h5) = found-eq-ok _ _ _ h4 in
    ap stock (sym (ok-injective h5)) ∙ claim_pr-stock _ _ pr_id db c

pub approve_pr-stock :
    (pr_id version : ℕ) (user : CurrentUser) (seen db : Db) {db' : Db}
    → approve_pr pr_id version user seen db ≡ ok db'
    → stock db' ≡ stock db
unfolding approve_pr flush_pr write_audit approval_record
approve_pr-stock pr_id version user seen db h =
    let (pr, _, h1) = >>=-eq-ok _ _ h in
    let (_, h2) = >>-eq-ok _ _ h1 in
    let (_, h3) = >>-eq-ok _ _ h2 in
    let (_, _, h4) = >>=-eq-ok _ _ h3 in
    let (_, h5) = >>-eq-ok _ _ h4 in
    let (_, h6) = >>-eq-ok _ _ h5 in
    let (totalled, t, h7) = >>=-eq-ok _ _ h6 in
    let (claimed, c, h8) = found-eq-ok _ _ _ h7 in
    ap stock (sym (ok-injective h8))
    ∙ claim_pr-stock _ _ pr_id totalled.1 c
    ∙ ap (λ x. x.0) (recompute-heads _ db t)

pub reject_pr-stock :
    (pr_id version : ℕ) (user : CurrentUser) (seen db : Db) {db' : Db}
    → reject_pr pr_id version user seen db ≡ ok db'
    → stock db' ≡ stock db
unfolding reject_pr flush_pr write_audit approval_record
reject_pr-stock pr_id version user seen db h =
    let (pr, _, h1) = >>=-eq-ok _ _ h in
    let (_, h2) = >>-eq-ok _ _ h1 in
    let (_, h3) = >>-eq-ok _ _ h2 in
    let (_, _, h4) = >>=-eq-ok _ _ h3 in
    let (claimed, c, h5) = found-eq-ok _ _ _ h4 in
    ap stock (sym (ok-injective h5)) ∙ claim_pr-stock _ _ pr_id db c

pub revise_pr-stock :
    (pr_id version : ℕ) (user : CurrentUser) (seen db : Db) {db' : Db}
    → revise_pr pr_id version user seen db ≡ ok db'
    → stock db' ≡ stock db
unfolding revise_pr flush_pr write_audit clear_submitted
revise_pr-stock pr_id version user seen db h =
    let (pr, _, h1) = >>=-eq-ok _ _ h in
    let (_, h2) = >>-eq-ok _ _ h1 in
    let (_, h3) = >>-eq-ok _ _ h2 in
    let (_, h4) = >>-eq-ok _ _ h3 in
    let (claimed, c, h5) = found-eq-ok _ _ _ h4 in
    ap stock (sym (ok-injective h5)) ∙ claim_pr-stock _ _ pr_id db c

pub update_pr-stock :
    (violates : Db → Db → Bool) (pr_id : ℕ) (data_in : PrEdit) (user : CurrentUser) (seen db : Db)
    {db' : Db}
    → update_pr violates pr_id data_in user seen db ≡ ok db'
    → stock db' ≡ stock db
unfolding update_pr set_pr_version write_audit
update_pr-stock violates pr_id data_in user seen db h =
    let (pr, _, h1) = >>=-eq-ok _ _ h in
    let (_, h2) = >>-eq-ok _ _ h1 in
    let (_, h3) = >>-eq-ok _ _ h2 in
    let (_, h4) = >>-eq-ok _ _ h3 in
    let (synced, _, h5) = >>=-eq-ok _ _ h4 in
    let (totalled, t, h6) = >>=-eq-ok _ _ h5 in
    let (_, h7) = >>-eq-ok _ _ h6 in
    let (claimed, c, h8) = found-eq-ok _ _ _ h7 in
    ap stock (sym (ok-injective h8))
    ∙ claim_pr-stock _ _ pr_id totalled.1 c
    ∙ ap (λ x. x.0) (recompute-heads _ _ t ∙ flush_items-heads _ synced db)
