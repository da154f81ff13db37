-- ===== src/Requisition/Totals.antt =====
-- The total of a requisition (backend/app/services/purchase_requisition_service.py, `_recompute`).
use manufacturing_erp_lite.Prelude.{
  ℕ, suc, ◌≡◌, refl, ap, ◌∙◌, sym, subst, some, List, [], ◌∷◌, map, nat_eq,
}
use manufacturing_erp_lite.Prelude.Lists.{sum}
use manufacturing_erp_lite.Prelude.Decimal.{Decimal, pos, ◌+ℤ◌, +ℤ_zero, +ℤ_assoc, int_laws}
use manufacturing_erp_lite.Prelude.Assoc.{get, get-update_self}
use manufacturing_erp_lite.Enums.{PrStatus}
use manufacturing_erp_lite.Errors.{ok, ok-injective, found-eq-ok, guard-eq-ok, >>=-eq-ok, >>-eq-ok}
use manufacturing_erp_lite.Money.{line_amount}
use manufacturing_erp_lite.Money.Rounding.{sum_amounts-eq-sum}
use manufacturing_erp_lite.Store.{Db, CurrentUser, PurchaseRequisition, PurchaseRequisitionItem}
use manufacturing_erp_lite.Audit.{write_audit}
use manufacturing_erp_lite.Requisition.Defs.{pr_items, recompute_items, recompute, flush_pr}
use manufacturing_erp_lite.Requisition.Approval.{approve_pr, approval_record}
use manufacturing_erp_lite.Requisition.Related.{claim_pr-leaves}

-- The amount of one line, rounded to the cent.
abbrev pub amount_of_line : ℕ × PurchaseRequisitionItem → Decimal
amount_of_line x = line_amount (x.1).requested_quantity (x.1).estimated_unit_price

recompute_items-total :
    (items : List (ℕ × PurchaseRequisitionItem)) (total : Decimal) (db : Db) {r : Decimal × Db}
    → recompute_items items total db ≡ ok r
    → r.0 ≡ total +ℤ sum (map amount_of_line items)
unfolding recompute_items
recompute_items-total [] total db h = ap (λ r. r.0) (sym (ok-injective h)) ∙ sym (+ℤ_zero total)
recompute_items-total ((i, item) ∷ items) total db h =
    let (_, h1) = guard-eq-ok _ _ _ h in
    let (_, h2) = guard-eq-ok _ _ _ h1 in
    recompute_items-total items _ _ h2
    ∙ +ℤ_assoc total (amount_of_line (i, item)) (sum (map amount_of_line items))

zero_left : (a : Decimal) → pos 0 +ℤ a ≡ a
zero_left a = omega int_laws

pub recompute-total :
    (items : List (ℕ × PurchaseRequisitionItem)) (db : Db) {r : Decimal × Db}
    → recompute items db ≡ ok r
    → r.0 ≡ sum (map amount_of_line items)
unfolding recompute
recompute-total items db h =
    let (r, e, h1) = >>=-eq-ok _ _ h in
    ap (λ x. x.0) (sym (ok-injective h1))
    ∙ sum_amounts-eq-sum (r.0 ∷ [])
    ∙ +ℤ_zero r.0
    ∙ recompute_items-total items (pos 0) db e
    ∙ zero_left (sum (map amount_of_line items))

-- An approval that succeeds leaves as the total of the requisition the sum of the amounts of the
-- items that the session reads, each rounded to the cent.
pub approve_pr-total :
    (pr_id version : ℕ) (user : CurrentUser) (seen db : Db) {db' : Db}
    → approve_pr pr_id version user seen db ≡ ok db'
    → (row' : PurchaseRequisition) × (get pr_id db'.requisitions ≡ some row')
      × (row'.total_estimated_amount
          ≡ sum (map amount_of_line (pr_items pr_id seen.requisition_items)))
unfolding approve_pr flush_pr write_audit approval_record
approve_pr-total pr_id version user seen db h =
    let (pr, _, h1) = >>=-eq-ok _ _ h in
    let (_, h2) = >>-eq-ok _ _ h1 in
    let (_, h3) = >>-eq-ok _ _ h2 in
    let (_, _, h4) = >>=-eq-ok _ _ h3 in
    let (_, h5) = >>-eq-ok _ _ h4 in
    let (_, h6) = >>-eq-ok _ _ h5 in
    let (totalled, t, h7) = >>=-eq-ok _ _ h6 in
    let (claimed, c, h8) = found-eq-ok _ _ _ h7 in
    let (after, there, total) =
      claim_pr-leaves (λ row. row.total_estimated_amount) _ _ pr_id totalled.1 (λ row. refl) c in
    let row' : PurchaseRequisition = record after {
      status = PrStatus.approved;
      version = suc pr.version;
    } in
    (
      row',
      subst (λ x. get pr_id x.requisitions ≡ some row') (ok-injective h8)
          (get-update_self (λ r. record r { status = PrStatus.approved; version = suc pr.version })
            pr_id claimed.requisitions there),
      total ∙ recompute-total (pr_items pr_id seen.requisition_items) db t,
    )
