-- ===== src/Requisition/Lifecycle.antt =====
-- The lifecycle of a requisition, which every operation of
-- backend/app/services/purchase_requisition_service.py and purchase_order_service.py follows.
use manufacturing_erp_lite.Prelude.{ℕ, ◌≡◌, refl, ◌∙◌, sym, subst, Bool, true, some, nat_eq}
use manufacturing_erp_lite.Prelude.Assoc.{get, update}
use manufacturing_erp_lite.Enums.{PrStatus, is_pr_status}
use manufacturing_erp_lite.Store.{Db, PurchaseRequisition}
use manufacturing_erp_lite.Order.Versions.{and-true}
use manufacturing_erp_lite.Requisition.Defs.{claim_pr}
use manufacturing_erp_lite.Requisition.Approval.{is_at}
use manufacturing_erp_lite.Requisition.Related.{
  Prs, Related, SameStatus, update-Related, claim_pr-Related, claim_pr-status, Related-trans,
  is_pr_status-eq,
}

-- What may happen to the status of a requisition while a request runs.
pub data IsMove : PrStatus → PrStatus → Type 0 where
  stays : {s : PrStatus} → IsMove s s
  submits : IsMove PrStatus.draft PrStatus.pending
  withdraws : IsMove PrStatus.draft PrStatus.cancelled
  approves : IsMove PrStatus.pending PrStatus.approved
  rejects : IsMove PrStatus.pending PrStatus.rejected
  revises : IsMove PrStatus.rejected PrStatus.draft
  gives_up : IsMove PrStatus.approved PrStatus.cancelled
  converts : IsMove PrStatus.approved PrStatus.converted
  reopens : IsMove PrStatus.converted PrStatus.approved

pub rewritten :
    {R : PurchaseRequisition → PurchaseRequisition → Type 0} {t t' u u' : Prs}
    → t ≡ t'
    → u ≡ u'
    → Related R t u
    → Related R t' u'
rewritten {R} {t'} {u} e f r = subst (Related R t') f (subst (λ x. Related R x u) e r)

abbrev pub Moved : PurchaseRequisition → PurchaseRequisition → Type 0
Moved row row' = IsMove row.status row'.status

pub IsMove-subst : {s s' t : PrStatus} → s ≡ s' → IsMove s' t → IsMove s t
IsMove-subst {t} e m = subst (λ s. IsMove s t) (sym e) m

pub Moved-SameStatus : (a b c : PurchaseRequisition) → Moved a b → SameStatus b c → Moved a c
Moved-SameStatus a b c m e = subst (IsMove a.status) (sym e) m

-- A claim to `target` and an UPDATE after it that leaves the target in place.
pub claim-Moved :
    (expected : PurchaseRequisition → Bool) (change : PurchaseRequisition → PurchaseRequisition)
    (target : PrStatus) (after : Prs → Prs) (pr_id : ℕ) (db : Db) {claimed : Db} {t t' : Prs}
    → ((row : PurchaseRequisition) → expected row ≡ true → IsMove row.status target)
    → ((row : PurchaseRequisition) → (change row).status ≡ target)
    → ((t : Prs)
        → ((row : PurchaseRequisition) → get pr_id t ≡ some row → row.status ≡ target)
        → Related SameStatus t (after t))
    → db.requisitions ≡ t
    → claim_pr expected change pr_id db ≡ some claimed
    → after claimed.requisitions ≡ t'
    → Related Moved t t'
claim-Moved expected change target after pr_id db {claimed} legal sets keeps e c e' =
    rewritten e e' (
      Related-trans Moved SameStatus Moved Moved-SameStatus db.requisitions claimed.requisitions
        (after claimed.requisitions)
        (claim_pr-Related Moved (λ row. stays) expected change pr_id db
          (λ row holds. subst (IsMove row.status) (sym (sets row)) (legal row holds)) c)
        (keeps claimed.requisitions
          (λ row there. claim_pr-status expected change target pr_id db (λ r _. sets r) c there)))

-- The flush after a claim.
abbrev pub flushed : PrStatus → ℕ → ℕ → Prs → Prs
flushed target version pr_id t =
    update (λ row. record row { status = target; version = version }) pr_id t

pub flushed-SameStatus :
    (target : PrStatus) (version pr_id : ℕ) (t : Prs)
    → ((row : PurchaseRequisition) → get pr_id t ≡ some row → row.status ≡ target)
    → Related SameStatus t (flushed target version pr_id t)
flushed-SameStatus target version pr_id t known =
    update-Related SameStatus (λ row. refl) _ pr_id t (λ row there. sym (known row there))

pub same_same : (a b c : PurchaseRequisition) → SameStatus a b → SameStatus b c → SameStatus a c
same_same a b c e f = f ∙ e

pub from_draft :
    (s t : PrStatus) → IsMove PrStatus.draft t → is_pr_status s PrStatus.draft ≡ true → IsMove s t
from_draft s t m h = IsMove-subst (is_pr_status-eq s PrStatus.draft h) m

pub at_status :
    (version : ℕ) (s t : PrStatus)
    → IsMove s t
    → (row : PurchaseRequisition) → is_at version s row ≡ true
    → IsMove row.status t
at_status version s t m row h = IsMove-subst (is_pr_status-eq row.status s (and-true _ _ h).1) m
