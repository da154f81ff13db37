-- ===== src/Requisition/Transitions.antt =====
-- The decisions on a requisition (backend/app/services/purchase_requisition_service.py): what an
-- approval and a rejection find and leave, that one excludes the other, and the version that a
-- submission leaves.
use manufacturing_erp_lite.Prelude.{
  ℕ, suc, ◌≡◌, refl, ap, ◌∙◌, sym, subst, Bool, true, some, ==_iff, arith, nat_eq,
}
use mathlib.Core.Option
use manufacturing_erp_lite.Prelude.Assoc.{get, update_where-eq-some, get-set_self, get-update_self}
use manufacturing_erp_lite.Enums.{PrStatus}
use manufacturing_erp_lite.Errors.{ok, ok-injective, found-eq-ok, guard-eq-ok, >>=-eq-ok, >>-eq-ok}
use manufacturing_erp_lite.Store.{Db, CurrentUser, PurchaseRequisition}
use manufacturing_erp_lite.Audit.{write_audit}
use manufacturing_erp_lite.Order.Versions.{and-true, not-false}
use manufacturing_erp_lite.Requisition.Defs.{load_pr, assert_pr_version, claim_pr, flush_pr}
use manufacturing_erp_lite.Requisition.Status.{submit_pr}
use manufacturing_erp_lite.Requisition.Approval.{approve_pr, reject_pr, approval_record}

-- The row that a claim has found, and that the table has a row afterwards.
pub claim_pr-eq-some :
    (expected : PurchaseRequisition → Bool) (change : PurchaseRequisition → PurchaseRequisition)
    (pr_id : ℕ) (db : Db) {db' : Db}
    → claim_pr expected change pr_id db ≡ some db'
    → (row : PurchaseRequisition) × (get pr_id db.requisitions ≡ some row)
      × (expected row ≡ true)
      × ((row' : PurchaseRequisition) × (get pr_id db'.requisitions ≡ some row'))
unfolding claim_pr
claim_pr-eq-some expected change pr_id db h =
    let (t, changed, e) = (Option.map-eq-some_iff _ _).0 h in
    let (row, found, holds, set_it) = update_where-eq-some _ _ _ _ changed in
    let after : PurchaseRequisition = record (change row) { version = suc row.version } in
    let there : get pr_id t ≡ some after =
      subst (λ x. get pr_id x ≡ some after) set_it
        (get-set_self pr_id row after db.requisitions found) in
    (row, found, holds, (after, subst (λ x. get pr_id x.requisitions ≡ some after) e there))

-- What the flush leaves of the row.
flush_pr-row :
    (target : PrStatus) (pr_id : ℕ) (pr : PurchaseRequisition) (db : Db) {row : PurchaseRequisition}
    → get pr_id db.requisitions ≡ some row
    → get pr_id (flush_pr target pr_id pr db).requisitions
      ≡ some (record row { status = target; version = suc pr.version })
unfolding flush_pr
flush_pr-row target pr_id pr db there =
    get-update_self (λ r. record r { status = target; version = suc pr.version }) pr_id
      db.requisitions there

-- The requisition has the status, one version on.
abbrev pub IsDecided : ℕ → ℕ → PrStatus → Db → Type 0
IsDecided pr_id version target db' =
    (row' : PurchaseRequisition) × (get pr_id db'.requisitions ≡ some row')
    × (row'.status ≡ target)
    × (row'.version ≡ suc version)

-- An approval that succeeds leaves the requisition approved and its version one above the client's.
pub approve_pr-IsDecided :
    (pr_id version : ℕ) (user : CurrentUser) (seen db : Db) {db' : Db}
    → approve_pr pr_id version user seen db ≡ ok db'
    → IsDecided pr_id version PrStatus.approved db'
unfolding approve_pr load_pr assert_pr_version write_audit approval_record
approve_pr-IsDecided pr_id version user seen db h =
    let (pr, _, h1) = found-eq-ok _ _ _ h in
    let (_, h2) = >>-eq-ok _ _ h1 in
    let (v, h3) = guard-eq-ok _ _ _ h2 in
    let (override, _, h4) = >>=-eq-ok _ _ h3 in
    let (_, h5) = guard-eq-ok _ _ _ h4 in
    let (_, h6) = >>-eq-ok _ _ h5 in
    let (totalled, _, h7) = >>=-eq-ok _ _ h6 in
    let (claimed, c, h8) = found-eq-ok _ _ _ h7 in
    let (_, _, _, (after, there)) = claim_pr-eq-some _ _ pr_id totalled.1 c in
    let written = flush_pr-row PrStatus.approved pr_id pr claimed there in
    let row' : PurchaseRequisition = record after {
      status = PrStatus.approved;
      version = suc pr.version;
    } in
    (
      row',
      subst (λ x. get pr_id x.requisitions ≡ some row') (ok-injective h8) written,
      refl,
      ap suc ((==_iff pr.version version).0 (not-false _ v)),
    )

-- A rejection that succeeds leaves the requisition rejected and its version one above the client's.
pub reject_pr-IsDecided :
    (pr_id version : ℕ) (user : CurrentUser) (seen db : Db) {db' : Db}
    → reject_pr pr_id version user seen db ≡ ok db'
    → IsDecided pr_id version PrStatus.rejected db'
unfolding reject_pr load_pr assert_pr_version write_audit approval_record
reject_pr-IsDecided pr_id version user seen db h =
    let (pr, _, h1) = found-eq-ok _ _ _ h in
    let (_, h2) = >>-eq-ok _ _ h1 in
    let (v, h3) = guard-eq-ok _ _ _ h2 in
    let (override, _, h4) = >>=-eq-ok _ _ h3 in
    let (claimed, c, h5) = found-eq-ok _ _ _ h4 in
    let (_, _, _, (after, there)) = claim_pr-eq-some _ _ pr_id db c in
    let written = flush_pr-row PrStatus.rejected pr_id pr claimed there in
    let row' : PurchaseRequisition = record after {
      status = PrStatus.rejected;
      version = suc pr.version;
    } in
    (
      row',
      subst (λ x. get pr_id x.requisitions ≡ some row') (ok-injective h5) written,
      refl,
      ap suc ((==_iff pr.version version).0 (not-false _ v)),
    )

-- A rejection needs a row at its version.
reject_pr-version :
    (pr_id version : ℕ) (user : CurrentUser) (seen db : Db) {db' : Db} {row : PurchaseRequisition}
    → get pr_id db.requisitions ≡ some row
    → reject_pr pr_id version user seen db ≡ ok db'
    → row.version ≡ version
unfolding reject_pr
reject_pr-version pr_id version user seen db {row} found h =
    let (pr, _, h1) = >>=-eq-ok _ _ h in
    let (_, h2) = >>-eq-ok _ _ h1 in
    let (_, h3) = >>-eq-ok _ _ h2 in
    let (_, _, h4) = >>=-eq-ok _ _ h3 in
    let (claimed, c, _) = found-eq-ok _ _ _ h4 in
    let (row', found', holds, _) = claim_pr-eq-some _ _ pr_id db c in
    subst (λ r. r.version ≡ version) (Option.some-injective _ _ (sym found' ∙ found))
      ((==_iff row'.version version).0 (and-true _ _ holds).0)

-- Once a requisition is approved at a version, no second session can reject it at that same version,
-- whatever that session has read.
pub approve_pr-excludes :
    (pr_id version : ℕ) (user : CurrentUser) (seen db : Db) {db' : Db}
    → approve_pr pr_id version user seen db ≡ ok db'
    → (other : CurrentUser) (stale db'' : Db)
    → ¬ (reject_pr pr_id version other stale db' ≡ ok db'')
approve_pr-excludes pr_id version user seen db {db'} h other stale db'' again =
    let (row', there, _, moved) = approve_pr-IsDecided pr_id version user seen db h in
    let same = reject_pr-version pr_id version other stale db' there again in
    omega (arith, moved, same)

-- A submission that succeeds leaves the requisition pending, and its version is one above the version
-- that the session had read, whatever the version of the row that the UPDATE found.
pub submit_pr-version :
    (pr_id : ℕ) (user : CurrentUser) (now : ℕ) (seen db : Db) {pr : PurchaseRequisition} {db' : Db}
    → get pr_id seen.requisitions ≡ some pr
    → submit_pr pr_id user now seen db ≡ ok db'
    → IsDecided pr_id pr.version PrStatus.pending db'
unfolding submit_pr load_pr write_audit
submit_pr-version pr_id user now seen db {pr} read h =
    let (pr', read', h1) = found-eq-ok _ _ _ h in
    let (_, h2) = >>-eq-ok _ _ h1 in
    let (_, h3) = >>-eq-ok _ _ h2 in
    let (_, h4) = guard-eq-ok _ _ _ h3 in
    let (_, h5) = >>-eq-ok _ _ h4 in
    let (totalled, _, h6) = >>=-eq-ok _ _ h5 in
    let (claimed, c, h7) = found-eq-ok _ _ _ h6 in
    let (_, _, _, (after, there)) = claim_pr-eq-some _ _ pr_id totalled.1 c in
    let written = flush_pr-row PrStatus.pending pr_id pr' claimed there in
    let row' : PurchaseRequisition = record after {
      status = PrStatus.pending;
      version = suc pr'.version;
    } in
    (
      row',
      subst (λ x. get pr_id x.requisitions ≡ some row') (ok-injective h7) written,
      refl,
      ap (λ p. suc p.version) (Option.some-injective _ _ (sym read' ∙ read)),
    )
