-- ===== src/Master/Switches.antt =====
-- Disabling and enabling master data (backend/app/services/warehouse_service.py and
-- material_service.py).
use manufacturing_erp_lite.Prelude.{
  ℕ, suc, ◌≡◌, refl, ap, ◌∙◌, sym, Bool, true, false, not, ◌&&◌, some, [], ◌∷◌, inl, inr,
  Bool-cases, ◌==◌, ==_iff, ltb, arith, nat_eq, pair_eq, pair_beq, pair_beq_iff,
}
use mathlib.Core.Option
use manufacturing_erp_lite.Prelude.Decimal.{pos, eqb_ℤ, eqb_ℤ-true}
use manufacturing_erp_lite.Prelude.Assoc.{
  Assoc, get, set, update, set-get, get-set_self, get-set_ne, update-set,
}
use manufacturing_erp_lite.Enums.{ActiveStatus, AuditAction}
use manufacturing_erp_lite.Errors.{ok, ok-injective, raise_if-eq-ok, >>=-eq-ok, >>-eq-ok}
use manufacturing_erp_lite.Store.{Db, InventoryBalance}
use manufacturing_erp_lite.Audit.{write_audit}
use manufacturing_erp_lite.Master.Warehouses.{
  nonzero_balances, assert_no_stock, set_warehouse_status, disable_warehouse,
}
use manufacturing_erp_lite.Master.Materials.{set_material_status, disable_material, enable_material}

empty_of_zero : (n : ℕ) → ltb 0 n ≡ false → n ≡ 0
empty_of_zero n h = ground arith

zero_of_both : (a b : Bool) → (a && not b) ≡ false → a ≡ true → b ≡ true
zero_of_both true true h k = refl
zero_of_both true false h k = absurd (cc)
zero_of_both false b h k = absurd (cc)

-- Where no balance of the warehouse is counted, each is 0.
nonzero_balances-zero :
    (warehouse_id : ℕ) (t : Assoc (ℕ × ℕ) InventoryBalance) (k : ℕ × ℕ) {b : InventoryBalance}
    → nonzero_balances warehouse_id t ≡ 0
    → get k t ≡ some b
    → k.0 ≡ warehouse_id
    → b.quantity ≡ pos 0
unfolding nonzero_balances get
nonzero_balances-zero warehouse_id [] k h found mine = absurd (cc)
nonzero_balances-zero warehouse_id ((j, row) ∷ t) k {b} h found mine =
    elim (Bool-cases ((j.0 == warehouse_id) && not (eqb_ℤ row.quantity (pos 0)))) [
      | inl counted ↦
          let bad : suc (nonzero_balances warehouse_id t) ≡ 0 = rw counted at h in
          absurd (omega (arith, bad))
      | inr skipped ↦ elim (Bool-cases (pair_beq k j)) [
        | inl same ↦
            let here : some row ≡ some b = rw same at found in
            let e : k ≡ j = (pair_beq_iff k j).0 same in
            let at_j : (j.0 == warehouse_id) ≡ true =
              (==_iff j.0 warehouse_id).1 (ap (λ x. x.0) (sym e) ∙ mine) in
            let zero_row =
              zero_of_both (j.0 == warehouse_id) (eqb_ℤ row.quantity (pos 0)) skipped at_j in
            ap (λ r. r.quantity) (sym (Option.some-injective _ _ here))
            ∙ eqb_ℤ-true row.quantity (pos 0) zero_row
        | inr other ↦
            nonzero_balances-zero warehouse_id t k (rw skipped at h) (rw other at found) mine
      ]
    ]

-- Where the session's copies of the balances are current, a warehouse that is disabled has no stock:
-- the quantity of each of its balances is 0.
pub disable_warehouse-no_stock :
    (warehouse_id : ℕ) (seen db : Db) {db' : Db}
    → seen.balances ≡ db.balances
    → disable_warehouse warehouse_id seen db ≡ ok db'
    → (k : ℕ × ℕ) (b : InventoryBalance) → get k db'.balances ≡ some b
    → k.0 ≡ warehouse_id
    → b.quantity ≡ pos 0
unfolding disable_warehouse assert_no_stock set_warehouse_status write_audit
disable_warehouse-no_stock warehouse_id seen db {db'} current h k b found mine =
    let (_, _, h1) = >>=-eq-ok _ _ h in
    let (guard, h2) = >>-eq-ok _ _ h1 in
    let none_left = empty_of_zero _ (raise_if-eq-ok _ _ guard) in
    let kept : db.balances ≡ db'.balances = ap (λ x. x.balances) (ok-injective h2) in
    nonzero_balances-zero warehouse_id seen.balances k none_left
      (ap (get k) (current ∙ kept) ∙ found) mine

disabled_row :
    (id : ℕ) (t : Assoc ℕ ActiveStatus) {status : ActiveStatus}
    → get id t ≡ some status
    → update (λ row. ActiveStatus.disabled) id t ≡ set id ActiveStatus.disabled t
unfolding update get
disabled_row id t found = rw (found, update) refl

-- Disabling an active material leaves it disabled and every other material as it was, and enabling it
-- then gives the statuses of all materials back; the log gets one row for each of the two.
pub disable_material-enable :
    (material_id : ℕ) (db : Db) {disabled enabled : Db}
    → get material_id db.materials ≡ some ActiveStatus.active
    → disable_material material_id db db ≡ ok disabled
    → enable_material material_id disabled disabled ≡ ok enabled
    → (get material_id disabled.materials ≡ some ActiveStatus.disabled)
      × ((other : ℕ)
          → (other == material_id) ≡ false
          → get other disabled.materials ≡ get other db.materials)
      × (enabled.materials ≡ db.materials)
      × (enabled.operation_logs
          ≡ record { action = AuditAction.material_enable; document_id = material_id }
            ∷ record { action = AuditAction.material_disable; document_id = material_id }
            ∷ db.operation_logs)
unfolding disable_material enable_material set_material_status write_audit
disable_material-enable material_id db {disabled} found h k =
    let (_, _, h1) = >>=-eq-ok _ _ h in
    let (_, _, k1) = >>=-eq-ok _ _ k in
    let off = set material_id ActiveStatus.disabled db.materials in
    let first : disabled.materials ≡ off =
      ap (λ x. x.materials) (sym (ok-injective h1)) ∙ disabled_row material_id db.materials found in
    let second : update (λ row. ActiveStatus.active) material_id off ≡ db.materials =
      update-set (λ row. ActiveStatus.active) material_id ActiveStatus.active ActiveStatus.disabled
        db.materials found
      ∙ set-get material_id ActiveStatus.active db.materials found in
    (
      ap (get material_id) first
          ∙ get-set_self material_id ActiveStatus.active ActiveStatus.disabled db.materials found,
      λ other apart.
          ap (get other) first
          ∙ get-set_ne material_id other ActiveStatus.disabled db.materials apart,
      ap (λ x. x.materials) (sym (ok-injective k1))
          ∙ ap (update (λ row. ActiveStatus.active) material_id) first
          ∙ second,
      ap (λ x. x.operation_logs) (sym (ok-injective k1))
          ∙ ap (λ l. record { action = AuditAction.material_enable; document_id = material_id } ∷ l)
              (ap (λ x. x.operation_logs) (sym (ok-injective h1))),
    )
