-- ===== src/Master/Ranges.antt =====
-- The policies stay consistent (backend/app/services/inventory_policy_service.py): one for a pair of
-- warehouse and material, with its thresholds in order.
use manufacturing_erp_lite.Prelude.{
  ℕ, ◌≡◌, refl, ap, ◌∙◌, sym, subst, Bool, true, false, ◌&&◌, ◌||◌, Option, none, some, [], ◌∷◌,
  inl, inr, Bool-cases, ◌==◌, arith, nat_eq,
}
use mathlib.Core.Option
use manufacturing_erp_lite.Prelude.Decimal.{Decimal, ltb_ℤ-false, ◌≤ℤ◌}
use manufacturing_erp_lite.Prelude.Assoc.{
  Assoc, AllRows, get, set, update, AllRows-set, AllRows-get,
}
use manufacturing_erp_lite.Errors.{
  ok, ok-injective, found-eq-ok, guard-eq-ok, raise_if-eq-ok, >>=-eq-ok, >>-eq-ok,
}
use manufacturing_erp_lite.Store.{Db, InventoryPolicy}
use manufacturing_erp_lite.Audit.{write_audit}
use manufacturing_erp_lite.Master.Policies.{
  PolicyEdit, get_policy, exceeds, validate_ranges, has_policy, insert_policy, create_policy,
  edited_policy, update_policy,
}

-- In order, where both are configured.
abbrev pub InOrder : Option Decimal → Option Decimal → Type 0
InOrder (some a) (some b) = a ≤ℤ b
InOrder _ _ = Unit

pub record IsRanged (row : InventoryPolicy) : Type 0 where
  pub safety_reorder : InOrder (some row.safety_stock) row.reorder_point
  pub reorder_max : InOrder row.reorder_point row.max_stock
  pub safety_max : InOrder (some row.safety_stock) row.max_stock

abbrev pub Apart : InventoryPolicy → InventoryPolicy → Type 0
Apart row other =
    ¬ ((other.warehouse_id ≡ row.warehouse_id) × (other.material_id ≡ row.material_id))

-- No two rows have the same pair.
abbrev pub IsUnique : Assoc ℕ InventoryPolicy → Type 0
IsUnique [] = Unit
IsUnique ((i, row) ∷ t) = AllRows (Apart row) t × IsUnique t

pub record IsConsistent (t : Assoc ℕ InventoryPolicy) : Type 0 where
  pub ranged : AllRows IsRanged t
  pub unique : IsUnique t

exceeds-false : (a b : Option Decimal) → exceeds a b ≡ false → InOrder a b
exceeds-false none b h = tt
exceeds-false (some a) none h = tt
exceeds-false (some a) (some b) h = ltb_ℤ-false b a h

validate_ranges-IsRanged :
    (row : InventoryPolicy)
    → validate_ranges (some row.safety_stock) row.reorder_point row.max_stock ≡ ok tt
    → IsRanged row
unfolding validate_ranges
validate_ranges-IsRanged row h =
    let (a, h1) = guard-eq-ok _ _ _ h in
    let (b, h2) = guard-eq-ok _ _ _ h1 in
    record {
      safety_reorder = exceeds-false (some row.safety_stock) row.reorder_point a;
      reorder_max = exceeds-false row.reorder_point row.max_stock b;
      safety_max = exceeds-false (some row.safety_stock) row.max_stock (raise_if-eq-ok _ _ h2);
    }

or-false : (a b : Bool) → (a || b) ≡ false → (a ≡ false) × (b ≡ false)
or-false false b h = (refl, h)
or-false true b h = absurd (cc)

same_pair :
    (row other : InventoryPolicy)
    → ((other.warehouse_id == row.warehouse_id) && (other.material_id == row.material_id)) ≡ false
    → Apart row other
same_pair row other h (w, m) = ground (arith, h, w, m)

has_policy-Apart :
    (row : InventoryPolicy) (t : Assoc ℕ InventoryPolicy)
    → has_policy row.warehouse_id row.material_id t ≡ false
    → AllRows (Apart row) t
unfolding has_policy
has_policy-Apart row [] h = tt
has_policy-Apart row ((i, other) ∷ t) h =
    let (here, rest) = or-false _ _ h in (same_pair row other here, has_policy-Apart row t rest)

insert_policy-IsConsistent :
    (row : InventoryPolicy) (db : Db) {db' : Db}
    → IsRanged row
    → IsConsistent db.policies
    → insert_policy row db ≡ ok db'
    → IsConsistent db'.policies
unfolding insert_policy
insert_policy-IsConsistent row db ranged inv h =
    let (new, h1) = guard-eq-ok _ _ _ h in
    subst (λ x. IsConsistent x.policies) (ok-injective h1)
      (record {
        ranged = (ranged, inv.ranged);
        unique = (has_policy-Apart row db.policies new, inv.unique);
      })

-- Where there is one policy for a pair of warehouse and material and the thresholds of each are in
-- order, safety stock, reorder point and maximum, as far as they are configured, it stays so when a
-- policy is created, whatever stale copies the session decided on.
pub create_policy-IsConsistent :
    (data_in : InventoryPolicy) (seen db : Db) {id : ℕ} {db' : Db}
    → IsConsistent db.policies
    → create_policy data_in seen db ≡ ok (id, db')
    → IsConsistent db'.policies
unfolding create_policy write_audit
create_policy-IsConsistent data_in seen db inv h =
    let (_, h1) = >>-eq-ok _ _ h in
    let (ranges, h2) = >>-eq-ok _ _ h1 in
    let (_, h3) = >>-eq-ok _ _ h2 in
    let (added, a, h4) = >>=-eq-ok _ _ h3 in
    subst (λ r. IsConsistent (r.1).policies) (ok-injective h4)
      (insert_policy-IsConsistent data_in db (validate_ranges-IsRanged data_in ranges) inv a)

Apart-pair :
    (row row' : InventoryPolicy) (t : Assoc ℕ InventoryPolicy)
    → row'.warehouse_id ≡ row.warehouse_id
    → row'.material_id ≡ row.material_id
    → AllRows (Apart row) t
    → AllRows (Apart row') t
Apart-pair row row' [] wh mat all = tt
Apart-pair row row' (r ∷ t) wh mat all =
    (λ p. all.0 (p.0 ∙ wh, p.1 ∙ mat), Apart-pair row row' t wh mat all.1)

set-IsUnique :
    (k : ℕ) (v w : InventoryPolicy) (t : Assoc ℕ InventoryPolicy)
    → get k t ≡ some v
    → w.warehouse_id ≡ v.warehouse_id
    → w.material_id ≡ v.material_id
    → IsUnique t
    → IsUnique (set k w t)
unfolding set get
set-IsUnique k v w [] found wh mat inv = tt
set-IsUnique k v w ((j, row) ∷ t) found wh mat inv = elim (Bool-cases (nat_eq.beq k j)) [
  | inl same ↦
      let here : some row ≡ some v = rw same at found in
      let e : row ≡ v = Option.some-injective _ _ here in
      rw same (
        Apart-pair row w t (wh ∙ ap (λ r. r.warehouse_id) (sym e))
            (mat ∙ ap (λ r. r.material_id) (sym e)) inv.0,
        inv.1,
      )
  | inr other ↦
      let later = rw other at found in
      rw other (
        AllRows-set (Apart row) k w t
            (λ p. AllRows-get (Apart row) k t later inv.0 (sym wh ∙ p.0, sym mat ∙ p.1)) inv.0,
        set-IsUnique k v w t later wh mat inv.1,
      )
]

update-IsConsistent :
    (policy_id : ℕ) (data_in : PolicyEdit) (t : Assoc ℕ InventoryPolicy) {policy : InventoryPolicy}
    → get policy_id t ≡ some policy
    → IsRanged (edited_policy data_in policy)
    → IsConsistent t
    → IsConsistent (update (edited_policy data_in) policy_id t)
unfolding update get
update-IsConsistent policy_id data_in t {policy} found ranged inv =
    rw (found, update)
      (record {
        ranged = AllRows-set IsRanged policy_id _ t ranged inv.ranged;
        unique =
            set-IsUnique policy_id policy (edited_policy data_in policy) t found refl refl
              inv.unique;
      })

-- Where there is one policy for a pair of warehouse and material and the thresholds of each are in
-- order, it stays so when a policy is updated, if the session's copy of that policy is current.
pub update_policy-IsConsistent :
    (policy_id : ℕ) (data_in : PolicyEdit) (seen db : Db) {db' : Db}
    → get policy_id seen.policies ≡ get policy_id db.policies
    → IsConsistent db.policies
    → update_policy policy_id data_in seen db ≡ ok db'
    → IsConsistent db'.policies
unfolding update_policy get_policy write_audit
update_policy-IsConsistent policy_id data_in seen db current inv h =
    let (policy, found, h1) = found-eq-ok _ _ _ h in
    let (_, h2) = >>-eq-ok _ _ h1 in
    let (ranges, h3) = >>-eq-ok _ _ h2 in
    subst (λ x. IsConsistent x.policies) (ok-injective h3)
      (update-IsConsistent policy_id data_in db.policies (sym current ∙ found)
        (validate_ranges-IsRanged (edited_policy data_in policy) ranges) inv)
