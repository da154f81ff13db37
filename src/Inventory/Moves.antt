-- ===== src/Inventory/Moves.antt =====
-- What one movement does to a balance (apply_inbound and apply_outbound of
-- backend/app/services/inventory_service.py).
use manufacturing_erp_lite.Prelude.{◌≡◌, refl, subst, suc, ◌||◌, Bool, true, false}
use manufacturing_erp_lite.Prelude.Decimal.{Decimal, pos, ◌+ℤ◌, ◌-ℤ◌, ◌≤ℤ◌, ltb_ℤ-false}
use manufacturing_erp_lite.Errors.{ok, ok-injective, guard-eq-ok}
use manufacturing_erp_lite.Money.Rounding.{money-with_8_places}
use manufacturing_erp_lite.Store.{InventoryBalance}
use manufacturing_erp_lite.Inventory.{apply_inbound, apply_outbound, moved, new_average}

-- A balance that the table's CHECKs allow, whose average belongs to its quantity and its total.
pub record IsSound (b : InventoryBalance) : Type 0 where
  pub quantity_nonneg : pos 0 ≤ℤ b.quantity
  pub amount_nonneg : pos 0 ≤ℤ b.total_amount
  pub average : b.average_unit_cost ≡ new_average b.total_amount b.quantity

-- What a movement that succeeded has done.
pub record Moved (b b' : InventoryBalance) (q t : Decimal) : Type 0 where
  pub sound : IsSound b'
  pub quantity : b'.quantity ≡ q
  pub amount : b'.total_amount ≡ t
  pub version : b'.version ≡ suc b.version

or_false : (a b : Bool) → (a || b) ≡ false → (a ≡ false) × (b ≡ false)
or_false true b h = absurd (cc)
or_false false b h = (refl, h)

moved-Moved :
    (b : InventoryBalance) (q t : Decimal) → pos 0 ≤ℤ q → pos 0 ≤ℤ t → Moved b (moved b q t) q t
unfolding moved
moved-Moved b q t hq ht = record {
  sound = record { quantity_nonneg = hq; amount_nonneg = ht; average = refl };
  quantity = refl;
  amount = refl;
  version = refl;
}

-- An inbound movement that succeeds adds the quantity and the amount to the balance, exactly, and leaves
-- both nonnegative, the average cost that belongs to them, and the version one up.
pub apply_inbound-Moved :
    (b : InventoryBalance) (quantity amount : Decimal) {b' : InventoryBalance}
    → apply_inbound b quantity amount ≡ ok b'
    → Moved b b' (b.quantity +ℤ quantity) (b.total_amount +ℤ amount)
unfolding apply_inbound
apply_inbound-Moved b quantity amount h =
    let (_, r) = guard-eq-ok _ _ _ (rw (money-with_8_places (b.total_amount +ℤ amount)) at h) in
    let (guard, r') = guard-eq-ok _ _ _ r in
    let (q, t) = or_false _ _ guard in
    subst (λ b'. Moved b b' (b.quantity +ℤ quantity) (b.total_amount +ℤ amount)) (ok-injective r')
      (moved-Moved b _ _ (ltb_ℤ-false _ _ q) (ltb_ℤ-false _ _ t))

-- An outbound movement that succeeds takes the quantity and the amount from the balance, exactly, and
-- leaves both nonnegative, the average cost that belongs to them, and the version one up.
pub apply_outbound-Moved :
    (b : InventoryBalance) (quantity amount : Decimal) {b' : InventoryBalance}
    → apply_outbound b quantity amount ≡ ok b'
    → Moved b b' (b.quantity -ℤ quantity) (b.total_amount -ℤ amount)
unfolding apply_outbound
apply_outbound-Moved b quantity amount h =
    let (_, r) = guard-eq-ok _ _ _ (rw (money-with_8_places (b.total_amount -ℤ amount)) at h) in
    let (q, r') = guard-eq-ok _ _ _ r in
    let (t, r'') = guard-eq-ok _ _ _ r' in
    subst (λ b'. Moved b b' (b.quantity -ℤ quantity) (b.total_amount -ℤ amount)) (ok-injective r'')
      (moved-Moved b _ _ (ltb_ℤ-false _ _ q) (ltb_ℤ-false _ _ t))
