-- ===== src/Reconciliation/Others.antt =====
-- The posting of a count leaves the requisitions' rows alone
-- (backend/app/services/stock_reconciliation_service.py, approve_reconciliation).
use manufacturing_erp_lite.Prelude.{
  ℕ, ◌≡◌, refl, ap, ◌∙◌, sym, Bool, List, [], ◌∷◌, inl, inr, Bool-cases,
}
use manufacturing_erp_lite.Prelude.Decimal.{pos, eqb_ℤ}
use manufacturing_erp_lite.Prelude.Assoc.{Assoc}
use manufacturing_erp_lite.Errors.{ok, ok-injective, found-eq-ok, >>=-eq-ok, >>-eq-ok}
use manufacturing_erp_lite.Store.{Db, CurrentUser, StockReconciliationItem, InventoryTransaction}
use manufacturing_erp_lite.Audit.{write_audit}
use manufacturing_erp_lite.Inventory.{lock_balances, sort_keys}
use manufacturing_erp_lite.Receipt.Keeps.{lock_each-keeps}
use manufacturing_erp_lite.Receipt.Others.{write_transaction-prs}
use manufacturing_erp_lite.Reconciliation.Defs.{ApproveIn, doc_items}
use manufacturing_erp_lite.Reconciliation.Approve.{
  Count, CountState, moving, post_moving, post_items, approve_reconciliation,
}
use manufacturing_erp_lite.Reconciliation.Frame.{claim_doc-heads}

post_moving-prs :
    (c : Count) (ledger : Assoc ℕ InventoryTransaction) (i : ℕ) (item : StockReconciliationItem)
    (st : CountState) {st' : CountState}
    → post_moving c ledger i item st ≡ ok st'
    → (st'.db).requisitions ≡ (st.db).requisitions
unfolding post_moving
post_moving-prs c ledger i item st h =
    let (balance, _, h1) = found-eq-ok _ _ _ h in
    let (_, h2) = >>-eq-ok _ _ h1 in
    let (before, _, h3) = found-eq-ok _ _ _ h2 in
    let (written, w, h4) = >>=-eq-ok _ _ h3 in
    let (balance', _, h5) = >>=-eq-ok _ _ h4 in
    ap (λ s. (s.db).requisitions) (sym (ok-injective h5)) ∙ write_transaction-prs _ st.db w

post_items-prs :
    (c : Count) (ledger : Assoc ℕ InventoryTransaction) (items : List (ℕ × StockReconciliationItem))
    (st : CountState) {st' : CountState}
    → post_items c ledger items st ≡ ok st'
    → (st'.db).requisitions ≡ (st.db).requisitions
unfolding post_items
post_items-prs c ledger [] st h = ap (λ s. (s.db).requisitions) (sym (ok-injective h))
post_items-prs c ledger ((i, item) ∷ items) st h =
    let (st', e, rest) = >>=-eq-ok _ _ h in
    let here : (st'.db).requisitions ≡ (st.db).requisitions =
      elim (Bool-cases (eqb_ℤ item.difference_quantity (pos 0))) [
        | inl zero ↦ ap (λ s. (s.db).requisitions) (sym (ok-injective (rw zero at e)))
        | inr moves ↦ post_moving-prs c ledger i item st (rw moves at e)
      ] in
    post_items-prs c ledger items st' rest ∙ here

pub approve_reconciliation-requisitions :
    (has_override : Bool) (doc_id : ℕ) (payload : ApproveIn) (user : CurrentUser) (today now : ℕ)
    (seen db : Db) {db' : Db}
    → approve_reconciliation has_override doc_id payload user today now seen db ≡ ok db'
    → db'.requisitions ≡ db.requisitions
unfolding approve_reconciliation lock_balances write_audit
approve_reconciliation-requisitions has_override doc_id payload user today now seen db h =
    let (doc, _, h1) = >>=-eq-ok _ _ h in
    let (_, h2) = >>-eq-ok _ _ h1 in
    let (override_active, _, h3) = >>=-eq-ok _ _ h2 in
    let (_, h4) = >>-eq-ok _ _ h3 in
    let (claimed, c, h5) = found-eq-ok _ _ _ h4 in
    let (posted, p, h6) = >>=-eq-ok _ _ h5 in
    let items = doc_items doc_id seen.reconciliation_items in
    let keys = sort_keys (moving doc.warehouse_id items) in
    ap (λ x. x.requisitions) (sym (ok-injective h6))
    ∙ post_items-prs _ seen.transactions items _ p
    ∙ lock_each-keeps (λ x. x.requisitions) (λ x t. refl) keys claimed
    ∙ ap (λ x. x.1) (claim_doc-heads _ _ doc_id db c)
