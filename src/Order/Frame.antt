-- ===== src/Order/Frame.antt =====
-- Which steps of backend/app/services/purchase_order_service.py leave the balances, the ledger and
-- the requisitions' rows alone.
use manufacturing_erp_lite.Prelude.{
  ℕ, suc, ◌≡◌, refl, ap, ◌∙◌, sym, Bool, List, [], ◌∷◌, inl, inr, Bool-cases, some, nat_eq,
}
use mathlib.Core.Option
use manufacturing_erp_lite.Prelude.Decimal.{Decimal}
use manufacturing_erp_lite.Errors.{ok, ok-injective, found-eq-ok, >>=-eq-ok}
use manufacturing_erp_lite.Store.{Db, CurrentUser, PurchaseOrderItemSource}
use manufacturing_erp_lite.Enums.{PoStatus}
use manufacturing_erp_lite.Receipt.Frame.{stock}
use manufacturing_erp_lite.Requisition.Frame.{heads}
use manufacturing_erp_lite.Order.Defs.{
  SourceIn, OrderItemIn, cas_convert, cas_unconvert, has_unconverted, flip_pr_to_converted,
  flip_pr_back_to_approved, flip_each,
}
use manufacturing_erp_lite.Order.Create.{add_order_item, take_sources, add_lines}
use manufacturing_erp_lite.Order.Status.{claim_po, give_back}

cas_convert-heads :
    (src : SourceIn) (db : Db) {db' : Db} → cas_convert src db ≡ some db' → heads db' ≡ heads db
unfolding cas_convert
cas_convert-heads src db h = let (t, _, e) = (Option.map-eq-some_iff _ _).0 h in ap heads (sym e)

cas_unconvert-heads :
    (id : ℕ) (q : Decimal) (db : Db) {db' : Db}
    → cas_unconvert id q db ≡ some db'
    → heads db' ≡ heads db
unfolding cas_unconvert
cas_unconvert-heads id q db h = let (t, _, e) = (Option.map-eq-some_iff _ _).0 h in ap heads (sym e)

take_sources-heads :
    (item_id : ℕ) (sources : List SourceIn) (db : Db) {db' : Db}
    → take_sources item_id sources db ≡ ok db'
    → heads db' ≡ heads db
unfolding take_sources
take_sources-heads item_id [] db h = ap heads (sym (ok-injective h))
take_sources-heads item_id (src ∷ sources) db h =
    let (converted, c, h1) = found-eq-ok _ _ _ h in
    take_sources-heads item_id sources _ h1 ∙ cas_convert-heads src db c

pub add_lines-heads :
    (po_id line_no : ℕ) (items : List OrderItemIn) (total : Decimal) (db : Db) {r : Decimal × Db}
    → add_lines po_id line_no items total db ≡ ok r
    → heads r.1 ≡ heads db
unfolding add_lines
add_lines-heads po_id line_no [] total db h = ap (λ r. heads r.1) (sym (ok-injective h))
add_lines-heads po_id line_no (item ∷ items) total db h =
    let added = add_order_item po_id line_no item db in
    let (taken, t, h1) = >>=-eq-ok _ _ h in
    add_lines-heads po_id (suc line_no) items _ taken h1
    ∙ take_sources-heads added.last_id item.sources added t

pub give_back-heads :
    (sources : List PurchaseOrderItemSource) (db : Db) {db' : Db}
    → give_back sources db ≡ ok db'
    → heads db' ≡ heads db
unfolding give_back
give_back-heads [] db h = ap heads (sym (ok-injective h))
give_back-heads (s ∷ sources) db h =
    let (returned, c, h1) = found-eq-ok _ _ _ h in
    give_back-heads sources _ h1 ∙ cas_unconvert-heads s.pr_item_id s.quantity db c

pub claim_po-heads :
    (allowed : PoStatus → Bool) (target : PoStatus) (po_id version : ℕ) (user : CurrentUser)
    (db : Db) {db' : Db}
    → claim_po allowed target po_id version user db ≡ some db'
    → heads db' ≡ heads db
unfolding claim_po
claim_po-heads allowed target po_id version user db h =
    let (t, _, e) = (Option.map-eq-some_iff _ _).0 h in ap heads (sym e)

pub flip_each-stock :
    (flip : ℕ → Db → Db) (ids : List ℕ) (db : Db)
    → ((id : ℕ) (db : Db) → stock (flip id db) ≡ stock db)
    → stock (flip_each flip ids db) ≡ stock db
unfolding flip_each
flip_each-stock flip [] db h = refl
flip_each-stock flip (id ∷ ids) db h = flip_each-stock flip ids (flip id db) h ∙ h id db

pub flip_pr_to_converted-stock : (id : ℕ) (db : Db) → stock (flip_pr_to_converted id db) ≡ stock db
unfolding flip_pr_to_converted
flip_pr_to_converted-stock id db = elim (Bool-cases (has_unconverted id db.requisition_items)) [
  | inl open_item ↦ rw open_item refl
  | inr all_done ↦ rw all_done refl
]

pub flip_pr_back_to_approved-stock :
    (id : ℕ) (db : Db) → stock (flip_pr_back_to_approved id db) ≡ stock db
unfolding flip_pr_back_to_approved
flip_pr_back_to_approved-stock id db = elim (Bool-cases (has_unconverted id db.requisition_items)) [
  | inl open_item ↦ rw open_item refl
  | inr all_done ↦ rw all_done refl
]
