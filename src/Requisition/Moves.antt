-- ===== src/Requisition/Moves.antt =====
-- Each operation on a requisition follows its lifecycle
-- (backend/app/services/purchase_requisition_service.py).
use manufacturing_erp_lite.Prelude.{
  ℕ, suc, ◌≤◌, ◌≡◌, refl, ap, ◌∙◌, Bool, true, ◌||◌, inl, inr, none, some, Bool-cases, ◌==◌, ==_iff,
  arith, nat_eq,
}
use manufacturing_erp_lite.Prelude.Assoc.{get, update}
use manufacturing_erp_lite.Enums.{PrStatus, is_pr_status}
use manufacturing_erp_lite.Errors.{ok, ok-injective, found-eq-ok, >>=-eq-ok, >>-eq-ok}
use manufacturing_erp_lite.Store.{Db, CurrentUser, PurchaseRequisition}
use manufacturing_erp_lite.Audit.{write_audit}
use manufacturing_erp_lite.Requisition.Defs.{PrIn, flush_pr}
use manufacturing_erp_lite.Requisition.Create.{create_pr, add_pr, set_pr_total}
use manufacturing_erp_lite.Requisition.Status.{submit_pr, cancel_pr}
use manufacturing_erp_lite.Requisition.Approval.{
  approve_pr, reject_pr, revise_pr, approval_record, clear_submitted,
}
use manufacturing_erp_lite.Requisition.Edit.{PrEdit, update_pr, set_pr_version}
use manufacturing_erp_lite.Requisition.Frame.{
  recompute-heads, add_pr_items-heads, flush_items-heads,
}
use manufacturing_erp_lite.Requisition.Related.{
  Prs, Related, SameStatus, update-Related, claim_pr-Related, Related-trans,
}
use manufacturing_erp_lite.Requisition.Lifecycle.{
  IsMove, submits, withdraws, approves, rejects, revises, gives_up, Moved, rewritten, claim-Moved,
  flushed, flushed-SameStatus, same_same, from_draft, at_status,
}

pub submit_pr-Moved :
    (pr_id : ℕ) (user : CurrentUser) (now : ℕ) (seen db : Db) {db' : Db}
    → submit_pr pr_id user now seen db ≡ ok db'
    → Related Moved db.requisitions db'.requisitions
unfolding submit_pr flush_pr write_audit
submit_pr-Moved pr_id user now seen db h =
    let (pr, _, h1) = >>=-eq-ok _ _ h in
    let (_, h2) = >>-eq-ok _ _ h1 in
    let (_, h3) = >>-eq-ok _ _ h2 in
    let (_, h4) = >>-eq-ok _ _ h3 in
    let (_, h5) = >>-eq-ok _ _ h4 in
    let (totalled, t, h6) = >>=-eq-ok _ _ h5 in
    let (claimed, c, h7) = found-eq-ok _ _ _ h6 in
    claim-Moved _ _ PrStatus.pending (flushed PrStatus.pending (suc pr.version) pr_id) pr_id
      totalled.1 (λ row. from_draft row.status PrStatus.pending submits) (λ row. refl)
      (flushed-SameStatus PrStatus.pending (suc pr.version) pr_id)
      (ap (λ x. x.1) (recompute-heads _ db t)) c (ap (λ x. x.requisitions) (ok-injective h7))

cancellable :
    (s : PrStatus)
    → (is_pr_status s PrStatus.draft || is_pr_status s PrStatus.approved) ≡ true
    → IsMove s PrStatus.cancelled
cancellable PrStatus.draft h = withdraws
cancellable PrStatus.approved h = gives_up
cancellable PrStatus.pending h = absurd (cc)
cancellable PrStatus.rejected h = absurd (cc)
cancellable PrStatus.cancelled h = absurd (cc)
cancellable PrStatus.converted h = absurd (cc)

pub cancel_pr-Moved :
    (pr_id : ℕ) (user : CurrentUser) (seen db : Db) {db' : Db}
    → cancel_pr pr_id user seen db ≡ ok db'
    → Related Moved db.requisitions db'.requisitions
unfolding cancel_pr flush_pr write_audit
cancel_pr-Moved pr_id user seen db h =
    let (pr, _, h1) = >>=-eq-ok _ _ h in
    let (_, h2) = >>-eq-ok _ _ h1 in
    let (_, h3) = >>-eq-ok _ _ h2 in
    let (_, h4) = >>-eq-ok _ _ h3 in
    let (claimed, c, h5) = found-eq-ok _ _ _ h4 in
    claim-Moved _ _ PrStatus.cancelled (flushed PrStatus.cancelled (suc pr.version) pr_id) pr_id db
      (λ row. cancellable row.status) (λ row. refl)
      (flushed-SameStatus PrStatus.cancelled (suc pr.version) pr_id) refl c
      (ap (λ x. x.requisitions) (ok-injective h5))

pub approve_pr-Moved :
    (pr_id version : ℕ) (user : CurrentUser) (seen db : Db) {db' : Db}
    → approve_pr pr_id version user seen db ≡ ok db'
    → Related Moved db.requisitions db'.requisitions
unfolding approve_pr flush_pr write_audit approval_record
approve_pr-Moved pr_id version user seen db h =
    let (pr, _, h1) = >>=-eq-ok _ _ h in
    let (_, h2) = >>-eq-ok _ _ h1 in
    let (_, h3) = >>-eq-ok _ _ h2 in
    let (_, _, h4) = >>=-eq-ok _ _ h3 in
    let (_, h5) = >>-eq-ok _ _ h4 in
    let (_, h6) = >>-eq-ok _ _ h5 in
    let (totalled, t, h7) = >>=-eq-ok _ _ h6 in
    let (claimed, c, h8) = found-eq-ok _ _ _ h7 in
    claim-Moved _ _ PrStatus.approved (flushed PrStatus.approved (suc pr.version) pr_id) pr_id
      totalled.1 (at_status version PrStatus.pending PrStatus.approved approves) (λ row. refl)
      (flushed-SameStatus PrStatus.approved (suc pr.version) pr_id)
      (ap (λ x. x.1) (recompute-heads _ db t)) c (ap (λ x. x.requisitions) (ok-injective h8))

pub reject_pr-Moved :
    (pr_id version : ℕ) (user : CurrentUser) (seen db : Db) {db' : Db}
    → reject_pr pr_id version user seen db ≡ ok db'
    → Related Moved db.requisitions db'.requisitions
unfolding reject_pr flush_pr write_audit approval_record
reject_pr-Moved pr_id version user seen db h =
    let (pr, _, h1) = >>=-eq-ok _ _ h in
    let (_, h2) = >>-eq-ok _ _ h1 in
    let (_, h3) = >>-eq-ok _ _ h2 in
    let (_, _, h4) = >>=-eq-ok _ _ h3 in
    let (claimed, c, h5) = found-eq-ok _ _ _ h4 in
    claim-Moved _ _ PrStatus.rejected (flushed PrStatus.rejected (suc pr.version) pr_id) pr_id db
      (at_status version PrStatus.pending PrStatus.rejected rejects) (λ row. refl)
      (flushed-SameStatus PrStatus.rejected (suc pr.version) pr_id) refl c
      (ap (λ x. x.requisitions) (ok-injective h5))

-- The flush of a revision also empties `submitted_at`.
abbrev emptied : ℕ → ℕ → Prs → Prs
emptied version pr_id t =
    update (λ row. record row { submitted_at = none }) pr_id
      (flushed PrStatus.draft version pr_id t)

emptied-SameStatus :
    (version pr_id : ℕ) (t : Prs)
    → ((row : PurchaseRequisition) → get pr_id t ≡ some row → row.status ≡ PrStatus.draft)
    → Related SameStatus t (emptied version pr_id t)
emptied-SameStatus version pr_id t known =
    Related-trans SameStatus SameStatus SameStatus same_same t
      (flushed PrStatus.draft version pr_id t) (emptied version pr_id t)
      (flushed-SameStatus PrStatus.draft version pr_id t known)
      (update-Related SameStatus (λ row. refl) _ pr_id (flushed PrStatus.draft version pr_id t)
        (λ row there. refl))

pub revise_pr-Moved :
    (pr_id version : ℕ) (user : CurrentUser) (seen db : Db) {db' : Db}
    → revise_pr pr_id version user seen db ≡ ok db'
    → Related Moved db.requisitions db'.requisitions
unfolding revise_pr flush_pr write_audit clear_submitted
revise_pr-Moved pr_id version user seen db h =
    let (pr, _, h1) = >>=-eq-ok _ _ h in
    let (_, h2) = >>-eq-ok _ _ h1 in
    let (_, h3) = >>-eq-ok _ _ h2 in
    let (_, h4) = >>-eq-ok _ _ h3 in
    let (claimed, c, h5) = found-eq-ok _ _ _ h4 in
    claim-Moved _ _ PrStatus.draft (emptied (suc pr.version) pr_id) pr_id db
      (at_status version PrStatus.rejected PrStatus.draft revises) (λ row. refl)
      (emptied-SameStatus (suc pr.version) pr_id) refl c
      (ap (λ x. x.requisitions) (ok-injective h5))

-- An edit leaves every status as it is.
pub update_pr-SameStatus :
    (violates : Db → Db → Bool) (pr_id : ℕ) (data_in : PrEdit) (user : CurrentUser) (seen db : Db)
    {db' : Db}
    → update_pr violates pr_id data_in user seen db ≡ ok db'
    → Related SameStatus db.requisitions db'.requisitions
unfolding update_pr set_pr_version write_audit
update_pr-SameStatus violates pr_id data_in user seen db h =
    let (pr, _, h1) = >>=-eq-ok _ _ h in
    let (_, h2) = >>-eq-ok _ _ h1 in
    let (_, h3) = >>-eq-ok _ _ h2 in
    let (_, h4) = >>-eq-ok _ _ h3 in
    let (synced, _, h5) = >>=-eq-ok _ _ h4 in
    let (totalled, t, h6) = >>=-eq-ok _ _ h5 in
    let (_, h7) = >>-eq-ok _ _ h6 in
    let (claimed, c, h8) = found-eq-ok _ _ _ h7 in
    let start = ap (λ x. x.1) (recompute-heads _ _ t ∙ flush_items-heads _ synced db) in
    let end = ap (λ x. x.requisitions) (ok-injective h8) in
    rewritten start end (
      Related-trans SameStatus SameStatus SameStatus same_same (totalled.1).requisitions
        claimed.requisitions _
        (claim_pr-Related SameStatus (λ row. refl) _ _ pr_id totalled.1 (λ row holds. refl) c)
        (update-Related SameStatus (λ row. refl) _ pr_id claimed.requisitions (λ row there. refl)))

-- Every id of a requisition has been given out.
abbrev pub IsIssued : Db → Type 0
IsIssued db =
    (id : ℕ) (row : PurchaseRequisition) → get id db.requisitions ≡ some row → id ≤ db.last_id

add_pr-SameStatus :
    (data_in : PrIn) (dept_id : ℕ) (user : CurrentUser) (db : Db)
    → IsIssued db
    → Related SameStatus db.requisitions (add_pr data_in dept_id user db).requisitions
unfolding add_pr get
add_pr-SameStatus data_in dept_id user db issued id row there =
    elim (Bool-cases (id == suc db.last_id)) [
      | inl new ↦
          let e = (==_iff id (suc db.last_id)).0 new in
          let old = issued id row there in absurd (omega (arith, e, old))
      | inr other ↦ (row, rw other there, refl)
    ]

pub create_pr-SameStatus :
    (data_in : PrIn) (user : CurrentUser) (seen db : Db) {id : ℕ} {db' : Db}
    → IsIssued db
    → create_pr data_in user seen db ≡ ok (id, db')
    → Related SameStatus db.requisitions db'.requisitions
unfolding create_pr set_pr_total write_audit
create_pr-SameStatus data_in user seen db issued h =
    let (dept_id, _, h1) = >>=-eq-ok _ _ h in
    let (filled, f, h2) = >>=-eq-ok _ _ h1 in
    let (totalled, t, h3) = >>=-eq-ok _ _ h2 in
    let headed = add_pr data_in dept_id user db in
    let middle = recompute-heads _ filled t ∙ add_pr_items-heads seen _ 1 data_in.items headed f in
    Related-trans SameStatus SameStatus SameStatus same_same db.requisitions headed.requisitions _
      (add_pr-SameStatus data_in dept_id user db issued)
      (rewritten (ap (λ x. x.1) middle) (ap (λ r. (r.1).requisitions) (ok-injective h3)) (
        update-Related SameStatus (λ row. refl) _ headed.last_id totalled.1.requisitions
          (λ row there. refl)))
