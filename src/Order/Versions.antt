-- ===== src/Order/Versions.antt =====
-- The optimistic lock of an order (backend/app/services/purchase_order_service.py, confirm_po and
-- cancel_po).
use manufacturing_erp_lite.Prelude.{
  ℕ, suc, ◌≡◌, refl, ap, ◌∙◌, sym, subst, Bool, true, false, not, ◌&&◌, some, ==_iff, arith, nat_eq,
}
use mathlib.Core.Option
use manufacturing_erp_lite.Prelude.Assoc.{get, update_where-eq-some, get-set_self, get-update_self}
use manufacturing_erp_lite.Enums.{PoStatus}
use manufacturing_erp_lite.Errors.{ok, ok-injective, found-eq-ok, guard-eq-ok, >>=-eq-ok, >>-eq-ok}
use manufacturing_erp_lite.Store.{Db, CurrentUser, PurchaseOrder}
use manufacturing_erp_lite.Audit.{write_audit}
use manufacturing_erp_lite.Order.Defs.{load_po, assert_po_version}
use manufacturing_erp_lite.Order.Status.{
  claim_po, flush_po, confirm_po, cancel_po, is_draft, is_draft_or_confirmed,
}

pub and-true : (a b : Bool) → (a && b) ≡ true → (a ≡ true) × (b ≡ true)
and-true true b h = (refl, h)
and-true false b h = absurd (cc)

pub not-false : (a : Bool) → not a ≡ false → a ≡ true
not-false true h = refl
not-false false h = absurd (cc)

-- The row that a claim has found, and the one that it leaves.
claim_po-eq-some :
    (allowed : PoStatus → Bool) (target : PoStatus) (po_id version : ℕ) (user : CurrentUser)
    (db : Db) {db' : Db}
    → claim_po allowed target po_id version user db ≡ some db'
    → (row : PurchaseOrder) × (get po_id db.orders ≡ some row)
      × (row.version ≡ version)
      × (allowed row.status ≡ true)
      × ((row' : PurchaseOrder) × (get po_id db'.orders ≡ some row'))
unfolding claim_po
claim_po-eq-some allowed target po_id version user db h =
    let (t, changed, e) = (Option.map-eq-some_iff _ _).0 h in
    let (row, found, holds, set_it) = update_where-eq-some _ _ _ _ changed in
    let (same, status) = and-true _ _ holds in
    let after : PurchaseOrder = record row {
      status = target;
      updated_by = user.id;
      version = suc row.version;
    } in
    let there : get po_id t ≡ some after =
      subst (λ x. get po_id x ≡ some after) set_it (get-set_self po_id row after db.orders found) in
    (
      row,
      found,
      (==_iff row.version version).0 same,
      status,
      (after, subst (λ x. get po_id x.orders ≡ some after) e there),
    )

-- A confirmation that succeeds found the order a draft at the client's version, leaves it confirmed,
-- and counts its version up by one, even where the session works on stale copies.
pub confirm_po-moves :
    (po_id version : ℕ) (user : CurrentUser) (seen db : Db) {db' : Db}
    → confirm_po po_id version user seen db ≡ ok db'
    → (row row' : PurchaseOrder) × (get po_id db.orders ≡ some row)
      × (row.version ≡ version)
      × (is_draft row.status ≡ true)
      × (get po_id db'.orders ≡ some row')
      × (row'.status ≡ PoStatus.confirmed)
      × (row'.version ≡ suc version)
unfolding confirm_po load_po assert_po_version write_audit flush_po
confirm_po-moves po_id version user seen db h =
    let (po, _, h1) = found-eq-ok _ _ _ h in
    let (_, h2) = >>-eq-ok _ _ h1 in
    let (v, h3) = guard-eq-ok _ _ _ h2 in
    let (_, h4) = >>-eq-ok _ _ h3 in
    let (_, h5) = guard-eq-ok _ _ _ h4 in
    let (_, h6) = guard-eq-ok _ _ _ h5 in
    let (claimed, c, h7) = found-eq-ok _ _ _ h6 in
    let (row, found, same, status, (after, there)) =
      claim_po-eq-some is_draft PoStatus.confirmed po_id version user db c in
    let row' : PurchaseOrder = record after {
      status = PoStatus.confirmed;
      version = suc po.version;
    } in
    let written =
      get-update_self (λ r. record r { status = PoStatus.confirmed; version = suc po.version })
        po_id claimed.orders there in
    let seen_version = (==_iff po.version version).0 (not-false _ v) in
    (
      row,
      row',
      found,
      same,
      status,
      subst (λ x. get po_id x.orders ≡ some row') (ok-injective h7) written,
      refl,
      ap suc seen_version,
    )

-- An order that a claim changes has the claim's version.
claim_po-version :
    (allowed : PoStatus → Bool) (target : PoStatus) (po_id version : ℕ) (user : CurrentUser)
    (db : Db) {db' : Db} {row : PurchaseOrder}
    → get po_id db.orders ≡ some row
    → claim_po allowed target po_id version user db ≡ some db'
    → row.version ≡ version
claim_po-version allowed target po_id version user db found h =
    let (row', found', same, _, _) = claim_po-eq-some allowed target po_id version user db h in
    subst (λ r. r.version ≡ version) (Option.some-injective _ _ (sym found' ∙ found)) same

confirm_po-claims :
    (po_id version : ℕ) (user : CurrentUser) (seen db : Db) {db' : Db}
    → confirm_po po_id version user seen db ≡ ok db'
    → (claimed : Db) × (claim_po is_draft PoStatus.confirmed po_id version user db ≡ some claimed)
unfolding confirm_po
confirm_po-claims po_id version user seen db h =
    let (po, _, h1) = >>=-eq-ok _ _ h in
    let (_, h2) = >>-eq-ok _ _ h1 in
    let (_, h3) = >>-eq-ok _ _ h2 in
    let (_, h4) = >>-eq-ok _ _ h3 in
    let (_, h5) = guard-eq-ok _ _ _ h4 in
    let (_, h6) = guard-eq-ok _ _ _ h5 in let (claimed, c, _) = found-eq-ok _ _ _ h6 in (claimed, c)

cancel_po-claims :
    (po_id version : ℕ) (user : CurrentUser) (seen db : Db) {db' : Db}
    → cancel_po po_id version user seen db ≡ ok db'
    → (claimed : Db) × (claim_po is_draft_or_confirmed PoStatus.cancelled po_id version user db
        ≡ some claimed)
unfolding cancel_po
cancel_po-claims po_id version user seen db h =
    let (po, _, h1) = >>=-eq-ok _ _ h in
    let (_, h2) = >>-eq-ok _ _ h1 in
    let (_, h3) = >>-eq-ok _ _ h2 in
    let (_, h4) = >>-eq-ok _ _ h3 in
    let (_, h5) = guard-eq-ok _ _ _ h4 in let (claimed, c, _) = found-eq-ok _ _ _ h5 in (claimed, c)

-- Once an order is confirmed at a version, no second session can confirm or cancel it at that same
-- version, whatever that session has read.
pub confirm_po-excludes :
    (po_id version : ℕ) (user : CurrentUser) (seen db : Db) {db' : Db}
    → confirm_po po_id version user seen db ≡ ok db'
    → (other : CurrentUser) (stale db'' : Db)
    → ¬ (confirm_po po_id version other stale db' ≡ ok db'')
      × ¬ (cancel_po po_id version other stale db' ≡ ok db'')
confirm_po-excludes po_id version user seen db {db'} h other stale db'' =
    let (_, row', _, _, _, there, _, moved) = confirm_po-moves po_id version user seen db h in
    let stays : row'.version ≡ version → ⊥ = λ e. absurd (omega (arith, moved, e)) in
    (
      λ again.
          let (claimed, c) = confirm_po-claims po_id version other stale db' again in
          stays (claim_po-version is_draft PoStatus.confirmed po_id version other db' there c),
      λ again.
          let (claimed, c) = cancel_po-claims po_id version other stale db' again in
          stays (
            claim_po-version is_draft_or_confirmed PoStatus.cancelled po_id version other db' there
              c),
    )
