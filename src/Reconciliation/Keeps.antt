-- ===== src/Reconciliation/Keeps.antt =====
-- Only the posting of a count moves stock: the other operations of
-- backend/app/services/stock_reconciliation_service.py.
use manufacturing_erp_lite.Prelude.{ℕ, ◌≡◌, refl, ap, ◌∙◌, sym, Bool, nat_eq}
use manufacturing_erp_lite.Errors.{ok, ok-injective, found-eq-ok, >>=-eq-ok, >>-eq-ok}
use manufacturing_erp_lite.Store.{Db, CurrentUser}
use manufacturing_erp_lite.Audit.{write_audit}
use manufacturing_erp_lite.Requisition.Frame.{heads}
use manufacturing_erp_lite.Reconciliation.Defs.{ReconciliationIn, doc_items}
use manufacturing_erp_lite.Reconciliation.Draft.{
  add_doc, create_reconciliation, submit_reconciliation, reject_reconciliation,
}
use manufacturing_erp_lite.Reconciliation.Edit.{
  ReconciliationEdit, flush_doc, update_reconciliation,
}
use manufacturing_erp_lite.Reconciliation.Frame.{
  claim_doc-heads, claim_edit-heads, add_items-heads, replace_items-heads,
}

add_doc-heads :
    (data_in : ReconciliationIn) (user : CurrentUser) (today : ℕ) (db : Db)
    → heads (add_doc data_in user today db) ≡ heads db
unfolding add_doc
add_doc-heads data_in user today db = refl

pub create_reconciliation-heads :
    (data_in : ReconciliationIn) (user : CurrentUser) (today : ℕ) (seen db : Db) {id : ℕ} {db' : Db}
    → create_reconciliation data_in user today seen db ≡ ok (id, db')
    → heads db' ≡ heads db
unfolding create_reconciliation write_audit
create_reconciliation-heads data_in user today seen db h =
    let (_, h1) = >>-eq-ok _ _ h in
    let (resolved, _, h2) = >>=-eq-ok _ _ h1 in
    let (filled, f, h3) = >>=-eq-ok _ _ h2 in
    ap (λ r. heads r.1) (sym (ok-injective h3))
    ∙ add_items-heads _ 1 resolved _ f
    ∙ add_doc-heads data_in user today db

pub update_reconciliation-heads :
    (violates : Db → Db → Bool) (doc_id : ℕ) (data_in : ReconciliationEdit) (user : CurrentUser)
    (seen db : Db) {db' : Db}
    → update_reconciliation violates doc_id data_in user seen db ≡ ok db'
    → heads db' ≡ heads db
unfolding update_reconciliation flush_doc write_audit
update_reconciliation-heads violates doc_id data_in user seen db h =
    let (doc, _, h1) = >>=-eq-ok _ _ h in
    let (_, h2) = >>-eq-ok _ _ h1 in
    let (_, h3) = >>-eq-ok _ _ h2 in
    let (_, h4) = >>-eq-ok _ _ h3 in
    let (rebuilt, _, h5) = >>=-eq-ok _ _ h4 in
    let (_, h6) = >>-eq-ok _ _ h5 in
    let (claimed, c, h7) = found-eq-ok _ _ _ h6 in
    ap heads (sym (ok-injective h7))
    ∙ claim_edit-heads data_in.version doc_id _ c
    ∙ replace_items-heads rebuilt (doc_items doc_id seen.reconciliation_items) db

pub submit_reconciliation-heads :
    (doc_id version : ℕ) (user : CurrentUser) (now : ℕ) (seen db : Db) {db' : Db}
    → submit_reconciliation doc_id version user now seen db ≡ ok db'
    → heads db' ≡ heads db
unfolding submit_reconciliation write_audit
submit_reconciliation-heads doc_id version user now seen db h =
    let (doc, _, h1) = >>=-eq-ok _ _ h in
    let (_, h2) = >>-eq-ok _ _ h1 in
    let (_, h3) = >>-eq-ok _ _ h2 in
    let (_, h4) = >>-eq-ok _ _ h3 in
    let (claimed, c, h5) = found-eq-ok _ _ _ h4 in
    ap heads (sym (ok-injective h5)) ∙ claim_doc-heads _ _ doc_id db c

pub reject_reconciliation-heads :
    (doc_id : ℕ) (user : CurrentUser) (seen db : Db) {db' : Db}
    → reject_reconciliation doc_id user seen db ≡ ok db'
    → heads db' ≡ heads db
unfolding reject_reconciliation write_audit
reject_reconciliation-heads doc_id user seen db h =
    let (doc, _, h1) = >>=-eq-ok _ _ h in
    let (_, h2) = >>-eq-ok _ _ h1 in
    let (claimed, c, h3) = found-eq-ok _ _ _ h2 in
    ap heads (sym (ok-injective h3)) ∙ claim_doc-heads _ _ doc_id db c
