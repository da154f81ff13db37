-- ===== src/Reconciliation/Amounts.antt =====
-- The figures of one counted line
-- (backend/app/services/stock_reconciliation_service.py, _amount_for).
use manufacturing_erp_lite.Prelude.{
  ◌≡◌, ◌*◌, subst, Option, some, none, true, false, inl, inr, ◌⊎◌, Bool-cases, arith,
}
use manufacturing_erp_lite.Prelude.Decimal.{
  Decimal, pos, neg, ◌+ℤ◌, ◌-ℤ◌, ◌*ℤ◌, ◌≤ℤ◌, ltb_ℤ, ltb_ℤ-true, ltb_ℤ-false, leb_ℤ-false, int_laws,
}
use manufacturing_erp_lite.Errors.{ErrorCode, ok, err, ok-injective}
use manufacturing_erp_lite.Money.{money, in_context}
use manufacturing_erp_lite.Money.Rounding.{quantize-product}
use manufacturing_erp_lite.Reconciliation.Defs.{
  Rate, LineIn, Valued, amount_for, lacks_input_rate, surplus_amount,
}

-- The difference takes the book to the count, and the amount does not point the other way.
pub record IsValued (line : LineIn) (snap_qty : Decimal) (v : Valued) : Type 0 where
  pub counted : snap_qty +ℤ v.difference ≡ line.physical_quantity
  pub signed :
      (pos 0 ≤ℤ v.difference × pos 0 ≤ℤ v.amount) ⊎ (v.difference ≤ℤ pos 0 × v.amount ≤ℤ pos 0)

difference-counted : (s p : Decimal) → s +ℤ (p -ℤ s) ≡ p
difference-counted s p = omega int_laws

no_difference :
    (s p : Decimal)
    → ltb_ℤ (pos 0) (p -ℤ s) ≡ false
    → ltb_ℤ (p -ℤ s) (pos 0) ≡ false
    → s +ℤ pos 0 ≡ p
no_difference s p h k = let a = ltb_ℤ-false _ _ h in let b = ltb_ℤ-false _ _ k in omega int_laws

positive : (a : Decimal) → ltb_ℤ (pos 0) a ≡ true → pos 0 ≤ℤ a
positive a h = let l = ltb_ℤ-true _ _ h in omega int_laws

negative : (a : Decimal) → ltb_ℤ a (pos 0) ≡ true → a ≤ℤ pos 0
negative a h = let l = ltb_ℤ-true _ _ h in omega int_laws

neg_nonneg : (a : Decimal) → a ≤ℤ pos 0 → pos 0 ≤ℤ neg a
neg_nonneg a h = omega int_laws

neg_nonpos : (a : Decimal) → pos 0 ≤ℤ a → neg a ≤ℤ pos 0
neg_nonpos a h = omega int_laws

surplus_nonneg :
    (diff : Decimal) (r : Option Rate)
    → pos 0 ≤ℤ diff
    → lacks_input_rate r ≡ false
    → pos 0 ≤ℤ surplus_amount diff r
unfolding surplus_amount
surplus_nonneg diff none up h = absurd (cc)
surplus_nonneg diff (some r) up h =
    let l = leb_ℤ-false _ _ h in
    quantize-product diff r.coefficient (1_000_000 * r.scale) up (omega int_laws)

money_nonneg : (a b : Decimal) → pos 0 ≤ℤ a → pos 0 ≤ℤ b → pos 0 ≤ℤ money (in_context (a *ℤ b))
unfolding money
money_nonneg a b h k = quantize-product a b 1_000_000 h k

err-ok {ℓ κ} : {A : Type ℓ} {B : Type κ} {e : ErrorCode} {a : A} → err e ≡ ok a → B
err-ok h = absurd (cc)

-- A line that is valued from a book with a nonnegative average cost, with a rate of any number of places
-- where it is a surplus, has the difference that takes the book's quantity to the count, and an amount of
-- the same sign as the difference, or 0.
pub amount_for-IsValued :
    (line : LineIn) (snap_qty snap_avg : Decimal) {v : Valued}
    → pos 0 ≤ℤ snap_avg
    → amount_for line snap_qty snap_avg ≡ ok v
    → IsValued line snap_qty v
unfolding amount_for
amount_for-IsValued line snap_qty snap_avg {v} avg h =
    let diff = line.physical_quantity -ℤ snap_qty in
    elim (Bool-cases (ltb_ℤ (pos 0) diff)) [
      | inl surplus ↦
          let h1 = rw surplus at h in
          elim (Bool-cases (lacks_input_rate line.valuation_rate)) [
            | inl lacks ↦ err-ok (rw lacks at h1)
            | inr rated ↦
                let up = positive diff surplus in
                subst (IsValued line snap_qty) (ok-injective (rw rated at h1)) (record {
                  counted = difference-counted snap_qty line.physical_quantity;
                  signed = inl (up, surplus_nonneg diff line.valuation_rate up rated);
                })
          ]
      | inr none_over ↦
          let h1 = rw none_over at h in
          elim (Bool-cases (ltb_ℤ diff (pos 0))) [
            | inl shortage ↦
                let down = negative diff shortage in
                subst (IsValued line snap_qty) (ok-injective (rw shortage at h1)) (record {
                  counted = difference-counted snap_qty line.physical_quantity;
                  signed = inr (
                    down,
                    neg_nonpos _ (money_nonneg (neg diff) snap_avg (neg_nonneg diff down) avg),
                  );
                })
            | inr level ↦ subst (IsValued line snap_qty) (ok-injective (rw level at h1)) (record {
              counted = no_difference snap_qty line.physical_quantity none_over level;
              signed = inl (omega arith, omega arith);
            })
          ]
    ]
