-- ===== src/Order/Bounds.antt =====
-- The quantities that orders take of requisitions stay within them
-- (backend/app/services/purchase_order_service.py, create_po and cancel_po).
use manufacturing_erp_lite.Prelude.{
  ℕ, suc, ◌≡◌, ap, sym, subst, some, Bool, List, [], ◌∷◌, inl, inr, Bool-cases, All, arith, nat_eq,
}
use mathlib.Core.Option
use manufacturing_erp_lite.Prelude.Decimal.{Decimal, pos, ◌+ℤ◌, ◌-ℤ◌, ◌≤ℤ◌, leb_ℤ-true, int_laws}
use manufacturing_erp_lite.Prelude.Assoc.{
  Assoc, AllRows, AllRows-get, AllRows-set, update_where-eq-some,
}
use manufacturing_erp_lite.Errors.{ok, ok-injective, found-eq-ok, guard-eq-ok, >>=-eq-ok, >>-eq-ok}
use manufacturing_erp_lite.Store.{
  Db, CurrentUser, PurchaseRequisitionItem, PurchaseOrderItem, PurchaseOrderItemSource,
}
use manufacturing_erp_lite.Enums.{PoStatus}
use manufacturing_erp_lite.Audit.{write_audit}
use manufacturing_erp_lite.Order.Defs.{
  SourceIn, OrderItemIn, OrderIn, cas_convert, cas_unconvert, has_unconverted, flip_pr_to_converted,
  flip_pr_back_to_approved, flip_each,
}
use manufacturing_erp_lite.Order.Create.{
  add_po, set_total, add_source, add_order_item, take_sources, add_lines, create_po,
}
use manufacturing_erp_lite.Order.Status.{
  claim_po, flush_po, pr_ids_of, sources_of, give_back, cancel_po, is_item_of,
}

-- The CHECKs on the converted quantity: 0 <= converted <= requested.
pub record IsConverted (item : PurchaseRequisitionItem) : Type 0 where
  pub nonneg : pos 0 ≤ℤ item.converted_quantity
  pub within : item.converted_quantity ≤ℤ item.requested_quantity

-- `Field(gt=0)` of PurchaseOrderSourceCreate.
abbrev pub HasPositiveSources : List OrderItemIn → Type 0
HasPositiveSources = All (λ item. All (λ s. pos 1 ≤ℤ s.quantity) item.sources)

-- The CHECK on purchase_order_item_sources.
abbrev pub IsPositive : PurchaseOrderItemSource → Type 0
IsPositive s = pos 1 ≤ℤ s.quantity

abbrev Bounded : Db → Type 0
Bounded db = AllRows IsConverted db.requisition_items

within_after_return : (c q r : Decimal) → pos 0 ≤ℤ q → c ≤ℤ r → c -ℤ q ≤ℤ r
within_after_return c q r h k = omega int_laws

nonneg_after_return : (c q : Decimal) → q ≤ℤ c → pos 0 ≤ℤ c -ℤ q
nonneg_after_return c q h = omega int_laws

nonneg_after_convert : (c q : Decimal) → pos 0 ≤ℤ c → pos 1 ≤ℤ q → pos 0 ≤ℤ c +ℤ q
nonneg_after_convert c q h k = omega int_laws

cas_convert-Bounded :
    (src : SourceIn) (db : Db) {db' : Db}
    → pos 1 ≤ℤ src.quantity
    → Bounded db
    → cas_convert src db ≡ some db'
    → Bounded db'
unfolding cas_convert
cas_convert-Bounded src db positive b h =
    let (t, changed, e) = (Option.map-eq-some_iff _ _).0 h in
    let (row, found, fits, set_it) = update_where-eq-some _ _ _ _ changed in
    let before = AllRows-get IsConverted src.pr_item_id db.requisition_items found b in
    let after : IsConverted
        (record row { converted_quantity = row.converted_quantity +ℤ src.quantity }) =
      record {
        nonneg = nonneg_after_convert row.converted_quantity src.quantity before.nonneg positive;
        within = leb_ℤ-true _ _ fits;
      } in
    subst Bounded e (
      subst (AllRows IsConverted) set_it
        (AllRows-set IsConverted src.pr_item_id _ db.requisition_items after b))

cas_unconvert-Bounded :
    (id : ℕ) (q : Decimal) (db : Db) {db' : Db}
    → pos 1 ≤ℤ q
    → Bounded db
    → cas_unconvert id q db ≡ some db'
    → Bounded db'
unfolding cas_unconvert
cas_unconvert-Bounded id q db positive b h =
    let (t, changed, e) = (Option.map-eq-some_iff _ _).0 h in
    let (row, found, fits, set_it) = update_where-eq-some _ _ _ _ changed in
    let before = AllRows-get IsConverted id db.requisition_items found b in
    let after : IsConverted (record row { converted_quantity = row.converted_quantity -ℤ q }) =
      record {
        nonneg = nonneg_after_return row.converted_quantity q (leb_ℤ-true _ _ fits);
        within =
            within_after_return row.converted_quantity q row.requested_quantity (omega arith)
              before.within;
      } in
    subst Bounded e (
      subst (AllRows IsConverted) set_it
        (AllRows-set IsConverted id _ db.requisition_items after b))

-- A flip changes no item.
flip_to-Bounded : (id : ℕ) (db : Db) → Bounded db → Bounded (flip_pr_to_converted id db)
unfolding flip_pr_to_converted
flip_to-Bounded id db b = elim (Bool-cases (has_unconverted id db.requisition_items)) [
  | inl left ↦ rw left b
  | inr done ↦ rw done b
]

flip_back-Bounded : (id : ℕ) (db : Db) → Bounded db → Bounded (flip_pr_back_to_approved id db)
unfolding flip_pr_back_to_approved
flip_back-Bounded id db b = elim (Bool-cases (has_unconverted id db.requisition_items)) [
  | inl left ↦ rw left b
  | inr done ↦ rw done b
]

flip_each-Bounded :
    (flip : ℕ → Db → Db)
    → ((id : ℕ) (db : Db) → Bounded db → Bounded (flip id db))
    → (ids : List ℕ) (db : Db) → Bounded db
    → Bounded (flip_each flip ids db)
unfolding flip_each
flip_each-Bounded flip keeps [] db b = b
flip_each-Bounded flip keeps (id ∷ ids) db b =
    flip_each-Bounded flip keeps ids (flip id db) (keeps id db b)

take_sources-Bounded :
    (item_id : ℕ) (sources : List SourceIn) (db : Db) {db' : Db}
    → All (λ s. pos 1 ≤ℤ s.quantity) sources
    → Bounded db
    → take_sources item_id sources db ≡ ok db'
    → Bounded db'
unfolding take_sources
take_sources-Bounded item_id [] db positive b h = subst Bounded (ok-injective h) b
take_sources-Bounded item_id (src ∷ sources) db positive b h =
    let (converted, c, h1) = found-eq-ok _ _ _ h in
    take_sources-Bounded item_id sources (add_source item_id src converted) positive.1
      (cas_convert-Bounded src db positive.0 b c) h1

add_lines-Bounded :
    (po_id line_no : ℕ) (items : List OrderItemIn) (total : Decimal) (db : Db) {r : Decimal × Db}
    → HasPositiveSources items
    → Bounded db
    → add_lines po_id line_no items total db ≡ ok r
    → Bounded r.1
unfolding add_lines
add_lines-Bounded po_id line_no [] total db positive b h =
    subst (λ r. Bounded r.1) (ok-injective h) b
add_lines-Bounded po_id line_no (item ∷ items) total db positive b h =
    let (taken, t, h1) = >>=-eq-ok _ _ h in
    add_lines-Bounded po_id (suc line_no) items _ taken positive.1
      (take_sources-Bounded _ item.sources (add_order_item po_id line_no item db) positive.0 b t) h1

-- Where 0 <= converted <= requested holds of every requisition item, it holds after every order
-- that is created from sources of positive quantities, even where the session works on stale copies:
-- no requisition item is converted beyond what was requested.
pub create_po-IsConverted :
    (data_in : OrderIn) (user : CurrentUser) (seen db : Db) {id : ℕ} {db' : Db}
    → HasPositiveSources data_in.items
    → AllRows IsConverted db.requisition_items
    → create_po data_in user seen db ≡ ok (id, db')
    → AllRows IsConverted db'.requisition_items
unfolding create_po add_po write_audit set_total
create_po-IsConverted data_in user seen db positive b h =
    let (_, h1) = guard-eq-ok _ _ _ h in
    let (_, h2) = >>-eq-ok _ _ h1 in
    let (pr_ids, _, h3) = >>=-eq-ok _ _ h2 in
    let (_, h4) = >>-eq-ok _ _ h3 in
    let (_, h5) = >>-eq-ok _ _ h4 in
    let (lines, l, h6) = >>=-eq-ok _ _ h5 in
    let filled =
      add_lines-Bounded _ 1 data_in.items (pos 0) (add_po data_in user db) positive b l in
    subst (λ r. Bounded r.1) (ok-injective h6)
      (flip_each-Bounded flip_pr_to_converted flip_to-Bounded pr_ids (set_total _ lines.0 lines.1)
        filled)

give_back-Bounded :
    (sources : List PurchaseOrderItemSource) (db : Db) {db' : Db}
    → All IsPositive sources
    → Bounded db
    → give_back sources db ≡ ok db'
    → Bounded db'
unfolding give_back
give_back-Bounded [] db positive b h = subst Bounded (ok-injective h) b
give_back-Bounded (s ∷ sources) db positive b h =
    let (returned, c, h1) = found-eq-ok _ _ _ h in
    give_back-Bounded sources returned positive.1
      (cas_unconvert-Bounded s.pr_item_id s.quantity db positive.0 b c) h1

sources_of-All :
    (po_id : ℕ) (items : Assoc ℕ PurchaseOrderItem) (t : Assoc ℕ PurchaseOrderItemSource)
    → AllRows IsPositive t
    → All IsPositive (sources_of po_id items t)
unfolding sources_of
sources_of-All po_id items [] all = tt
sources_of-All po_id items ((i, s) ∷ t) all =
    elim (Bool-cases (is_item_of po_id s.po_item_id items)) [
      | inl mine ↦ rw mine (all.0, sources_of-All po_id items t all.1)
      | inr other ↦ rw other (sources_of-All po_id items t all.1)
    ]

claim_po-items :
    (allowed : PoStatus → Bool) (target : PoStatus) (po_id version : ℕ) (user : CurrentUser)
    (db : Db) {db' : Db}
    → claim_po allowed target po_id version user db ≡ some db'
    → db'.requisition_items ≡ db.requisition_items
unfolding claim_po
claim_po-items allowed target po_id version user db h =
    let (t, _, e) = (Option.map-eq-some_iff _ _).0 h in ap (λ x. x.requisition_items) (sym e)

-- Where 0 <= converted <= requested holds of every requisition item, it holds after every order
-- that is cancelled, if the sources that the session reads have positive quantities.
pub cancel_po-IsConverted :
    (po_id version : ℕ) (user : CurrentUser) (seen db : Db) {db' : Db}
    → AllRows IsPositive seen.order_item_sources
    → AllRows IsConverted db.requisition_items
    → cancel_po po_id version user seen db ≡ ok db'
    → AllRows IsConverted db'.requisition_items
unfolding cancel_po write_audit flush_po
cancel_po-IsConverted po_id version user seen db positive b h =
    let (po, _, h1) = >>=-eq-ok _ _ h in
    let (_, h2) = >>-eq-ok _ _ h1 in
    let (_, h3) = >>-eq-ok _ _ h2 in
    let (_, h4) = >>-eq-ok _ _ h3 in
    let (_, h5) = guard-eq-ok _ _ _ h4 in
    let (claimed, c, h6) = found-eq-ok _ _ _ h5 in
    let (returned, g, h7) = >>=-eq-ok _ _ h6 in
    let sources = sources_of po_id seen.order_items seen.order_item_sources in
    let start : Bounded claimed =
      subst (AllRows IsConverted) (sym (claim_po-items _ _ po_id version user db c)) b in
    let after =
      give_back-Bounded sources (flush_po PoStatus.cancelled po_id po claimed)
        (sources_of-All po_id seen.order_items seen.order_item_sources positive) start g in
    subst Bounded (ok-injective h7) (
      flip_each-Bounded flip_pr_back_to_approved flip_back-Bounded
        (pr_ids_of sources seen.requisition_items) returned after)
