-- ===== src/Order/Scope.antt =====
-- Reading one order and listing the orders have the same scope
-- (backend/app/services/purchase_order_service.py, get_po and list_pos).
use manufacturing_erp_lite.Prelude.{
  ℕ, ◌≡◌, ◌↔◌, refl, sym, ap₂, Bool, true, false, not, ◌&&◌, ◌||◌, some, [], ◌∷◌, inl, inr,
  Bool-cases, ==_iff, nat_eq,
}
use mathlib.Core.Option
use mathlib.Core.List.{Memᴰ}
use mathlib.Core.List.Memᴰ.{head, tail}
use manufacturing_erp_lite.Prelude.Assoc.{Assoc, get}
use manufacturing_erp_lite.Errors.{ok, >>=-eq-ok, guard-eq-ok, ◌>>◌}
use manufacturing_erp_lite.Store.{Db, CurrentUser, PurchaseOrder}
use manufacturing_erp_lite.Query.{descending}
use manufacturing_erp_lite.Query.Members.{
  where_rows-Memᴰ, Memᴰ-where_rows, order_by-Memᴰ, Memᴰ-order_by,
}
use manufacturing_erp_lite.Order.Versions.{and-true}
use manufacturing_erp_lite.Order.Defs.{load_po}
use manufacturing_erp_lite.Order.Read.{
  PoFilter, passes_po_filter, visible_po_id, assert_po_visible, get_po, listed_pos, is_full_scope,
  has_visible_source, source_visibility_cond,
}

-- A row that a lookup finds is in the table.
pub get-Memᴰ {ℓ} : {V : Type ℓ} (k : ℕ) (t : Assoc ℕ V) {v : V} → get k t ≡ some v → Memᴰ (k, v) t
unfolding get
get-Memᴰ k [] h = absurd (cc)
get-Memᴰ k ((j, u) ∷ t) {v} h = elim (Bool-cases (nat_eq.beq k j)) [
  | inl same ↦
      let w : some u ≡ some v = rw same at h in
      head (ap₂ (λ a b. (a, b)) ((==_iff k j).0 same) (Option.some-injective _ _ (sym w)))
  | inr other ↦ tail (get-Memᴰ k t (rw other at h))
]

pub and-intro : (a b : Bool) → a ≡ true → b ≡ true → (a && b) ≡ true
and-intro true b h k = k
and-intro false b h k = absurd (cc)

or_of_guard : (a b : Bool) → (not a && not b) ≡ false → (a || b) ≡ true
or_of_guard true b h = refl
or_of_guard false true h = refl
or_of_guard false false h = absurd (cc)

guard_of_or : (a b : Bool) → (a || b) ≡ true → (not a && not b) ≡ false
guard_of_or true b h = refl
guard_of_or false true h = refl
guard_of_or false false h = absurd (cc)

visible_of_get_po :
    (user : CurrentUser) (po_id : ℕ) (db : Db) {po : PurchaseOrder}
    → get_po db po_id user ≡ ok po
    → visible_po_id db user po_id ≡ true
unfolding get_po assert_po_visible visible_po_id
visible_of_get_po user po_id db h =
    let (po', _, h1) = >>=-eq-ok _ _ h in
    let (v, _) = guard-eq-ok _ _ _ h1 in
    or_of_guard (is_full_scope user.role_code)
      (has_visible_source (source_visibility_cond db user) db po_id db.order_item_sources) v

get_po_of_visible :
    (user : CurrentUser) (po_id : ℕ) (db : Db) {po : PurchaseOrder}
    → get po_id db.orders ≡ some po
    → visible_po_id db user po_id ≡ true
    → get_po db po_id user ≡ ok po
unfolding get_po load_po assert_po_visible visible_po_id ◌>>◌
get_po_of_visible user po_id db there h =
    let v =
      guard_of_or (is_full_scope user.role_code)
        (has_visible_source (source_visibility_cond db user) db po_id db.order_item_sources) h in
    rw there (rw v refl)

-- A user can read an order that passes a filter exactly where the list with that filter shows it.
pub get_po-listed :
    (user : CurrentUser) (po_id : ℕ) (f : PoFilter) (db : Db) {po : PurchaseOrder}
    → get po_id db.orders ≡ some po
    → passes_po_filter f po ≡ true
    → (get_po db po_id user ≡ ok po) ↔ Memᴰ (po_id, po) (listed_pos db user f)
unfolding listed_pos
get_po-listed user po_id f db {po} there passes = (
  λ h.
      Memᴰ-order_by descending (po_id, po) _
        (Memᴰ-where_rows _ (po_id, po) db.orders (get-Memᴰ po_id db.orders there)
          (and-intro _ _ (visible_of_get_po user po_id db h) passes)),
  λ m.
      let (_, c) = where_rows-Memᴰ _ (po_id, po) db.orders (order_by-Memᴰ descending _ _ m) in
      get_po_of_visible user po_id db there (and-true (visible_po_id db user po_id) _ c).0,
)
