-- ===== src/Requisition/Edits.antt =====
-- The optimistic lock of an edit (backend/app/services/purchase_requisition_service.py, update_pr).
use manufacturing_erp_lite.Prelude.{
  ℕ, suc, ◌≤◌, ◌≡◌, refl, ap, ◌∙◌, sym, subst, Bool, some, ==_iff, arith, nat_eq,
}
use mathlib.Core.Option
use manufacturing_erp_lite.Prelude.Assoc.{get, get-update_self}
use manufacturing_erp_lite.Enums.{PrStatus}
use manufacturing_erp_lite.Errors.{ok, ok-injective, found-eq-ok, >>=-eq-ok, >>-eq-ok}
use manufacturing_erp_lite.Store.{Db, CurrentUser, PurchaseRequisition}
use manufacturing_erp_lite.Audit.{write_audit}
use manufacturing_erp_lite.Order.Versions.{and-true}
use manufacturing_erp_lite.Requisition.Edit.{PrEdit, update_pr, set_pr_version}
use manufacturing_erp_lite.Requisition.Frame.{recompute-heads, flush_items-heads}
use manufacturing_erp_lite.Requisition.Transitions.{claim_pr-eq-some}
use manufacturing_erp_lite.Requisition.Related.{is_pr_status-eq}

-- What an edit that succeeds has found and leaves.
edited :
    (violates : Db → Db → Bool) (pr_id : ℕ) (data_in : PrEdit) (user : CurrentUser) (seen db : Db)
    {db' : Db}
    → update_pr violates pr_id data_in user seen db ≡ ok db'
    → ((row : PurchaseRequisition) × (get pr_id db.requisitions ≡ some row)
        × (row.status ≡ PrStatus.draft)
        × (row.version ≡ data_in.version))
      × ((row' : PurchaseRequisition) × (get pr_id db'.requisitions ≡ some row')
          × (row'.version ≡ suc data_in.version))
unfolding update_pr set_pr_version write_audit
edited violates pr_id data_in user seen db h =
    let (pr, _, h1) = >>=-eq-ok _ _ h in
    let (_, h2) = >>-eq-ok _ _ h1 in
    let (_, h3) = >>-eq-ok _ _ h2 in
    let (_, h4) = >>-eq-ok _ _ h3 in
    let (synced, _, h5) = >>=-eq-ok _ _ h4 in
    let (totalled, t, h6) = >>=-eq-ok _ _ h5 in
    let (_, h7) = >>-eq-ok _ _ h6 in
    let (claimed, c, h8) = found-eq-ok _ _ _ h7 in
    let same = ap (λ x. x.1) (recompute-heads _ _ t ∙ flush_items-heads _ synced db) in
    let (row, found, holds, (after, there)) = claim_pr-eq-some _ _ pr_id totalled.1 c in
    let (version, status) = and-true _ _ holds in
    let row' : PurchaseRequisition = record after { version = suc data_in.version } in
    (
      (
        row,
        ap (get pr_id) (sym same) ∙ found,
        is_pr_status-eq row.status PrStatus.draft status,
        (==_iff row.version data_in.version).0 version,
      ),
      (
        row',
        subst (λ x. get pr_id x.requisitions ≡ some row') (ok-injective h8)
            (get-update_self (λ r. record r { version = suc data_in.version }) pr_id
              claimed.requisitions there),
        refl,
      ),
    )

-- An edit that succeeds found the requisition a draft at the client's version and leaves it one
-- version on. From then on, as long as the requisition's current version has not gone back, no session
-- can edit it at the client's version, whatever that session has read.
pub update_pr-excludes :
    (violates : Db → Db → Bool) (pr_id : ℕ) (data_in : PrEdit) (user : CurrentUser) (seen db : Db)
    {db' : Db}
    → update_pr violates pr_id data_in user seen db ≡ ok db'
    → ((row : PurchaseRequisition) × (get pr_id db.requisitions ≡ some row)
        × (row.status ≡ PrStatus.draft)
        × (row.version ≡ data_in.version))
      × ((row' : PurchaseRequisition) × (get pr_id db'.requisitions ≡ some row')
          × (row'.version ≡ suc data_in.version))
      × ((now : Db) (current : PurchaseRequisition) (later : PrEdit) (other : CurrentUser)
            (stale after : Db)
          → get pr_id now.requisitions ≡ some current
          → suc data_in.version ≤ current.version
          → later.version ≡ data_in.version
          → ¬ (update_pr violates pr_id later other stale now ≡ ok after))
update_pr-excludes violates pr_id data_in user seen db {db'} h =
    let (found, left) = edited violates pr_id data_in user seen db h in
    (
      found,
      left,
      λ now current later other stale after there on e again.
          let ((row'', there', _, v), _) = edited violates pr_id later other stale now again in
          let same : row'' ≡ current = Option.some-injective _ _ (sym there' ∙ there) in
          let w : current.version ≡ later.version = ap (λ r. r.version) (sym same) ∙ v in
          omega (arith, on, w, e),
    )
