-- ===== src/Reconciliation/Refusals.antt =====
-- Whom the posting of a count refuses (backend/app/services/stock_reconciliation_service.py,
-- approve_reconciliation).
use manufacturing_erp_lite.Prelude.{
  ℕ, ◌≡◌, refl, ap, Bool, true, false, some, ◌==◌, ==_iff, nat_eq, if◌then◌else◌, inl, inr,
  Bool-cases,
}
use manufacturing_erp_lite.Prelude.Assoc.{get}
use manufacturing_erp_lite.Enums.{ReconciliationStatus}
use manufacturing_erp_lite.Errors
use manufacturing_erp_lite.Errors.{
  Result, ok, err, ◌>>◌, found-eq-ok, guard-eq-ok, >>=-eq-ok, >>-eq-ok,
}
use manufacturing_erp_lite.Store.{Db, CurrentUser, StockReconciliation}
use manufacturing_erp_lite.Reconciliation.Defs.{ApproveIn, load_doc, is_pending}
use manufacturing_erp_lite.Reconciliation.Approve.{self_approval, approve_reconciliation}

-- The error that the counter's own approval of the count gets.
abbrev pub refusal : Bool → ApproveIn → Errors.ErrorCode
refusal has_override payload =
    if has_override
    then if payload.override_self_approval
      then Errors.reconciliation_override_reason_required
      else Errors.reconciliation_self_approval
    else Errors.reconciliation_self_approval

-- Whether all of the override is there.
abbrev pub IsOverridden : Bool → ApproveIn → Type 0
IsOverridden has_override payload =
    (has_override ≡ true)
    × (payload.override_self_approval ≡ true)
    × (payload.has_override_reason ≡ true)

self_approval-err :
    (has_override : Bool) (doc : StockReconciliation) (payload : ApproveIn) (user : CurrentUser)
    → doc.counted_by ≡ user.id
    → ¬ IsOverridden has_override payload
    → self_approval has_override doc payload user ≡ err (refusal has_override payload)
unfolding self_approval ◌>>◌
self_approval-err false doc payload user counted bare =
    let own : (doc.counted_by == user.id) ≡ true = (==_iff doc.counted_by user.id).1 counted in
    rw own refl
self_approval-err true doc payload user counted bare =
    let own : (doc.counted_by == user.id) ≡ true = (==_iff doc.counted_by user.id).1 counted in
    elim (Bool-cases payload.override_self_approval) [
      | inr plain ↦ rw own (rw plain refl)
      | inl override ↦ elim (Bool-cases payload.has_override_reason) [
        | inr silent ↦ rw own (rw override (rw silent refl))
        | inl reason ↦ absurd (bare (refl, override, reason))
      ]
    ]

-- The counter of a count that the session reads as pending cannot post it without the override
-- permission, the override and a reason for it, even where the current row is not pending any more:
-- the request fails, with the error for the missing reason where only that is missing, and with the
-- error for a self approval otherwise.
pub approve_reconciliation-refuses :
    (has_override : Bool) (doc_id : ℕ) (payload : ApproveIn) (user : CurrentUser) (today now : ℕ)
    (seen db : Db) {doc : StockReconciliation}
    → get doc_id seen.reconciliations ≡ some doc
    → doc.status ≡ ReconciliationStatus.pending
    → doc.counted_by ≡ user.id
    → ¬ IsOverridden has_override payload
    → approve_reconciliation has_override doc_id payload user today now seen db
      ≡ err (refusal has_override payload)
unfolding approve_reconciliation load_doc ◌>>◌
approve_reconciliation-refuses has_override doc_id payload user today now seen db {doc} there
      pending counted bare =
    let waiting : is_pending doc.status ≡ true = ap is_pending pending in
    rw there (rw waiting (rw (self_approval-err has_override doc payload user counted bare) refl))
