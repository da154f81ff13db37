-- ===== src/Order/Lifecycle.antt =====
-- What an order does to the statuses of its requisitions
-- (backend/app/services/purchase_order_service.py).
use manufacturing_erp_lite.Prelude.{
  ℕ, ◌≡◌, refl, ap, ◌∙◌, sym, subst, ◌⊎◌, inl, inr, List, [], ◌∷◌, Bool-cases, nat_eq,
}
use manufacturing_erp_lite.Prelude.Decimal.{pos}
use manufacturing_erp_lite.Enums.{PrStatus, is_pr_status}
use manufacturing_erp_lite.Errors.{ok, ok-injective, found-eq-ok, >>=-eq-ok, >>-eq-ok}
use manufacturing_erp_lite.Store.{Db, CurrentUser, PurchaseRequisition}
use manufacturing_erp_lite.Audit.{write_audit}
use manufacturing_erp_lite.Requisition.Related.{
  Prs, Related, update-Related, Related-trans, is_pr_status-eq,
}
use manufacturing_erp_lite.Requisition.Lifecycle.{
  IsMove, stays, converts, reopens, Moved, rewritten, IsMove-subst,
}
use manufacturing_erp_lite.Order.Defs.{
  OrderIn, has_unconverted, flip_status, flip_pr_to_converted, flip_pr_back_to_approved, flip_each,
}
use manufacturing_erp_lite.Order.Create.{add_po, set_total, create_po}
use manufacturing_erp_lite.Order.Status.{flush_po, cancel_po, sources_of, pr_ids_of}
use manufacturing_erp_lite.Order.Frame.{add_lines-heads, give_back-heads, claim_po-heads}
use manufacturing_erp_lite.Order.Stock.{add_po-heads}

-- A flip between two different statuses, made once or more often.
abbrev Flipped : PrStatus → PrStatus → PurchaseRequisition → PurchaseRequisition → Type 0
Flipped s t row row' = (row'.status ≡ row.status) ⊎ ((row.status ≡ s) × (row'.status ≡ t))

flip_status-Flipped :
    (s t : PrStatus) (row : PurchaseRequisition) → Flipped s t row (flip_status s t row)
flip_status-Flipped s t row = elim (Bool-cases (is_pr_status row.status s)) [
  | inl here ↦ rw here (inr (is_pr_status-eq row.status s here, refl))
  | inr other ↦ rw other (inl refl)
]

Flipped-trans :
    (s t : PrStatus)
    → ¬ (t ≡ s)
    → (a b c : PurchaseRequisition) → Flipped s t a b
    → Flipped s t b c
    → Flipped s t a c
Flipped-trans s t apart a b c (inl e) (inl f) = inl (f ∙ e)
Flipped-trans s t apart a b c (inl e) (inr (f, g)) = inr (sym e ∙ f, g)
Flipped-trans s t apart a b c (inr (e, f)) (inl g) = inr (e, g ∙ f)
Flipped-trans s t apart a b c (inr (e, f)) (inr (g, h)) = absurd (apart (sym f ∙ g))

flip_each-Flipped :
    (s t : PrStatus) (flip : ℕ → Db → Db)
    → ¬ (t ≡ s)
    → ((id : ℕ) (db : Db) → Related (Flipped s t) db.requisitions (flip id db).requisitions)
    → (ids : List ℕ) (db : Db)
    → Related (Flipped s t) db.requisitions (flip_each flip ids db).requisitions
unfolding flip_each
flip_each-Flipped s t flip apart one [] db = λ id row there. (row, there, inl refl)
flip_each-Flipped s t flip apart one (id ∷ ids) db =
    Related-trans (Flipped s t) (Flipped s t) (Flipped s t) (Flipped-trans s t apart)
      db.requisitions (flip id db).requisitions (flip_each flip ids (flip id db)).requisitions
      (one id db) (flip_each-Flipped s t flip apart one ids (flip id db))

to_converted :
    (id : ℕ) (db : Db)
    → Related
        (Flipped PrStatus.approved PrStatus.converted)
        db.requisitions
        (flip_pr_to_converted id db).requisitions
unfolding flip_pr_to_converted
to_converted id db = elim (Bool-cases (has_unconverted id db.requisition_items)) [
  | inl open_item ↦ rw open_item (λ i row there. (row, there, inl refl))
  | inr all_done ↦ rw all_done (
      update-Related (Flipped PrStatus.approved PrStatus.converted) (λ row. inl refl) _ id
        db.requisitions (λ row there. flip_status-Flipped PrStatus.approved PrStatus.converted row))
]

back_to_approved :
    (id : ℕ) (db : Db)
    → Related
        (Flipped PrStatus.converted PrStatus.approved)
        db.requisitions
        (flip_pr_back_to_approved id db).requisitions
unfolding flip_pr_back_to_approved
back_to_approved id db = elim (Bool-cases (has_unconverted id db.requisition_items)) [
  | inl open_item ↦ rw open_item (
      update-Related (Flipped PrStatus.converted PrStatus.approved) (λ row. inl refl) _ id
        db.requisitions (λ row there. flip_status-Flipped PrStatus.converted PrStatus.approved row))
  | inr all_done ↦ rw all_done (λ i row there. (row, there, inl refl))
]

Flipped-Moved :
    (s t : PrStatus)
    → IsMove s t
    → (start end : Prs) → Related (Flipped s t) start end
    → Related Moved start end
Flipped-Moved s t m start end flips id row there =
    let (row', there', f) = flips id row there in
    (
      row',
      there',
      elim f [
        | inl same ↦ subst (IsMove row.status) (sym same) stays
        | inr (from_s, to_t) ↦ IsMove-subst from_s (subst (IsMove s) (sym to_t) m)
      ],
    )

pub create_po-Moved :
    (data_in : OrderIn) (user : CurrentUser) (seen db : Db) {id : ℕ} {db' : Db}
    → create_po data_in user seen db ≡ ok (id, db')
    → Related Moved db.requisitions db'.requisitions
unfolding create_po set_total write_audit
create_po-Moved data_in user seen db h =
    let (_, h1) = >>-eq-ok _ _ h in
    let (_, h2) = >>-eq-ok _ _ h1 in
    let (pr_ids, _, h3) = >>=-eq-ok _ _ h2 in
    let (_, h4) = >>-eq-ok _ _ h3 in
    let (_, h5) = >>-eq-ok _ _ h4 in
    let (lines, l, h6) = >>=-eq-ok _ _ h5 in
    let totalled = set_total (add_po data_in user db).last_id lines.0 lines.1 in
    let start = add_lines-heads _ 1 data_in.items (pos 0) _ l ∙ add_po-heads data_in user db in
    rewritten (ap (λ x. x.1) start) (ap (λ r. (r.1).requisitions) (ok-injective h6)) (
      Flipped-Moved PrStatus.approved PrStatus.converted converts totalled.requisitions
        (flip_each flip_pr_to_converted pr_ids totalled).requisitions
        (flip_each-Flipped PrStatus.approved PrStatus.converted flip_pr_to_converted (λ e. cc)
          to_converted pr_ids totalled))

pub cancel_po-Moved :
    (po_id version : ℕ) (user : CurrentUser) (seen db : Db) {db' : Db}
    → cancel_po po_id version user seen db ≡ ok db'
    → Related Moved db.requisitions db'.requisitions
unfolding cancel_po flush_po write_audit
cancel_po-Moved po_id version user seen db h =
    let (po, _, h1) = >>=-eq-ok _ _ h in
    let (_, h2) = >>-eq-ok _ _ h1 in
    let (_, h3) = >>-eq-ok _ _ h2 in
    let (_, h4) = >>-eq-ok _ _ h3 in
    let (_, h5) = >>-eq-ok _ _ h4 in
    let (claimed, c, h6) = found-eq-ok _ _ _ h5 in
    let (returned, g, h7) = >>=-eq-ok _ _ h6 in
    let sources = sources_of po_id seen.order_items seen.order_item_sources in
    let pr_ids = pr_ids_of sources seen.requisition_items in
    let start = give_back-heads _ _ g ∙ claim_po-heads _ _ po_id version user db c in
    rewritten (ap (λ x. x.1) start) (ap (λ r. r.requisitions) (ok-injective h7)) (
      Flipped-Moved PrStatus.converted PrStatus.approved reopens returned.requisitions
        (flip_each flip_pr_back_to_approved pr_ids returned).requisitions
        (flip_each-Flipped PrStatus.converted PrStatus.approved flip_pr_back_to_approved (λ e. cc)
          back_to_approved pr_ids returned))
