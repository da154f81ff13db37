-- ===== src/Requisition/Frame.antt =====
-- Which steps of backend/app/services/purchase_requisition_service.py leave the balances, the ledger
-- and the requisitions' rows alone.
use manufacturing_erp_lite.Prelude.{
  ℕ, suc, ◌≡◌, refl, ap, ◌∙◌, sym, Bool, List, [], ◌∷◌, inl, inr, Bool-cases, some, nat_eq,
}
use mathlib.Core.Option
use manufacturing_erp_lite.Prelude.Decimal.{Decimal, eqb_ℤ}
use manufacturing_erp_lite.Prelude.Assoc.{Assoc}
use manufacturing_erp_lite.Errors.{ok, ok-injective, guard-eq-ok, >>=-eq-ok, >>-eq-ok}
use manufacturing_erp_lite.Store.{Db, PurchaseRequisition, PurchaseRequisitionItem}
use manufacturing_erp_lite.Inventory.Book.{Balances, Ledger}
use manufacturing_erp_lite.Receipt.Frame.{stock}
use manufacturing_erp_lite.Requisition.Defs.{
  set_estimated, recompute_items, recompute, claim_pr, PrItemIn,
}
use manufacturing_erp_lite.Requisition.Create.{add_pr_items}
use manufacturing_erp_lite.Requisition.Edit.{ItemSync, flush_added, flush_items}

-- The stock and the heads of the requisitions.
abbrev pub heads : Db → (Balances × Ledger) × Assoc ℕ PurchaseRequisition
heads db = (stock db, db.requisitions)

set_estimated-heads :
    (id : ℕ) (item : PurchaseRequisitionItem) (amount : Decimal) (db : Db)
    → heads (set_estimated id item amount db) ≡ heads db
unfolding set_estimated
set_estimated-heads id item amount db = elim (Bool-cases (eqb_ℤ item.estimated_amount amount)) [
  | inl same ↦ rw same refl
  | inr other ↦ rw other refl
]

recompute_items-heads :
    (items : List (ℕ × PurchaseRequisitionItem)) (total : Decimal) (db : Db) {r : Decimal × Db}
    → recompute_items items total db ≡ ok r
    → heads r.1 ≡ heads db
unfolding recompute_items
recompute_items-heads [] total db h = ap (λ r. heads r.1) (sym (ok-injective h))
recompute_items-heads ((i, item) ∷ items) total db h =
    let (_, h1) = guard-eq-ok _ _ _ h in
    let (_, h2) = guard-eq-ok _ _ _ h1 in
    recompute_items-heads items _ _ h2 ∙ set_estimated-heads i item _ db

pub recompute-heads :
    (items : List (ℕ × PurchaseRequisitionItem)) (db : Db) {r : Decimal × Db}
    → recompute items db ≡ ok r
    → heads r.1 ≡ heads db
unfolding recompute
recompute-heads items db h =
    let (r, e, h1) = >>=-eq-ok _ _ h in
    ap (λ r'. heads r'.1) (sym (ok-injective h1)) ∙ recompute_items-heads items _ db e

pub claim_pr-stock :
    (expected : PurchaseRequisition → Bool) (change : PurchaseRequisition → PurchaseRequisition)
    (pr_id : ℕ) (db : Db) {db' : Db}
    → claim_pr expected change pr_id db ≡ some db'
    → stock db' ≡ stock db
unfolding claim_pr
claim_pr-stock expected change pr_id db h =
    let (t, _, e) = (Option.map-eq-some_iff _ _).0 h in ap stock (sym e)

pub add_pr_items-heads :
    (seen : Db) (pr_id line_no : ℕ) (items : List PrItemIn) (db : Db) {db' : Db}
    → add_pr_items seen pr_id line_no items db ≡ ok db'
    → heads db' ≡ heads db
unfolding add_pr_items
add_pr_items-heads seen pr_id line_no [] db h = ap heads (sym (ok-injective h))
add_pr_items-heads seen pr_id line_no (req ∷ items) db h =
    let (_, h1) = >>-eq-ok _ _ h in add_pr_items-heads seen pr_id (suc line_no) items _ h1

flush_added-heads :
    (items : List PurchaseRequisitionItem) (db : Db) → heads (flush_added items db).1 ≡ heads db
unfolding flush_added
flush_added-heads [] db = refl
flush_added-heads (item ∷ items) db = flush_added-heads items _

pub flush_items-heads :
    (loaded : Assoc ℕ PurchaseRequisitionItem) (synced : ItemSync) (db : Db)
    → heads (flush_items loaded synced db).1 ≡ heads db
unfolding flush_items
flush_items-heads loaded synced db = flush_added-heads synced.added _
