-- ===== src/Money/Rounding.antt =====
-- What the rounding of backend/app/utils/money.py guarantees.
use manufacturing_erp_lite.Prelude.{
  ℕ, zero, suc, ◌==◌, ==_iff, inl, inr, Bool-cases, ◌+◌, ◌*◌, ◌/◌, ◌≤◌, ◌<◌, ◌≡◌, List, arith, ap,
}
use manufacturing_erp_lite.Prelude.Decimal.{
  Decimal, pos, negsuc, neg, pos_part, ◌*ℤ◌, ◌≤ℤ◌, pos-*ℤ, negsuc-*ℤ, neg-pos_suc,
}
use manufacturing_erp_lite.Prelude.Lists.{sum}
use manufacturing_erp_lite.Money.{
  quantize_half_up, money, with_8_places, unit_cost, line_amount, sum_amounts, half_even,
  last_digit, prec_28, in_context,
}
use native.Mathlib.Nat.{div-add-mod, mod-lt}

cents_exact : (n : ℕ) → (2 * (n * 1_000_000) + 1_000_000) / (2 * 1_000_000) ≡ n
cents_exact n = omega arith

round_up : (n : ℕ) → (2 * suc (n * 1_000_000 + 999_999) + 1_000_000) / (2 * 1_000_000) ≡ suc n
round_up n = omega arith

-- A quotient times its divisor is at most the dividend, and the rest is less than the divisor.
div_bounds : (n d : ℕ) → 0 < d → (d * (n / d) ≤ n) × (n < d * (n / d) + d)
div_bounds n d h = omega (arith, div-add-mod n d, mod-lt n h)

quantize-neg : (n : ℕ) → quantize_half_up (neg (pos (suc n * 1_000_000))) 1_000_000 ≡ negsuc n
unfolding quantize_half_up
quantize-neg n =
    let e : suc n * 1_000_000 ≡ suc (n * 1_000_000 + 999_999) = omega arith in
    rw (e, neg-pos_suc) (rw (round_up n) (neg-pos_suc n))

-- An amount that has 2 places already is not changed by `money`.
pub money-with_8_places : (a : Decimal) → money (with_8_places a) ≡ a
unfolding money quantize_half_up
money-with_8_places (pos n) = rw pos-*ℤ (ap pos (cents_exact n))
money-with_8_places (negsuc n) = rw negsuc-*ℤ (quantize-neg n)

pub sum_amounts-eq-sum : (xs : List Decimal) → sum_amounts xs ≡ sum xs
unfolding sum_amounts
sum_amounts-eq-sum xs = money-with_8_places (sum xs)

-- The fuel of the digits is enough: what is left of a number under its 28 digits is less than the weight
-- of the last of them.
last_digit_enough : (fuel q : ℕ) → q ≤ fuel → q < last_digit fuel q
unfolding last_digit
last_digit_enough zero q h = omega (arith, h)
last_digit_enough (suc fuel) q h = elim (Bool-cases (q == 0)) [
  | inl empty ↦ let e = (==_iff q 0).0 empty in rw (empty, last_digit) (omega (arith, e))
  | inr more ↦
      let apart : ¬ (q ≡ 0) = λ e. let bad = (==_iff q 0).1 e in absurd (cc) in
      let rest = last_digit_enough fuel (q / 10) (omega (arith, h, apart)) in
      rw (more, last_digit) (omega (arith, rest))
]

half_even_one : (n : ℕ) → half_even n 1 ≡ n
unfolding half_even
half_even_one n = ground arith

-- A number of at most 28 digits is not rounded.
prec_28_exact : (n : ℕ) → n < 10_000_000_000_000_000_000_000_000_000 → prec_28 n ≡ n
unfolding prec_28 last_digit
prec_28_exact n small =
    let none_over : n / 10_000_000_000_000_000_000_000_000_000 ≡ 0 = omega (arith, small) in
    rw none_over (ground arith)

-- For a nonnegative quantity and price whose product has at most 28 digits, the amount is the cent nearest
-- to the product, and a tie goes up.
pub line_amount_nearest :
    (q p : ℕ)
    → q * p < 10_000_000_000_000_000_000_000_000_000
    → let a = pos_part (line_amount (pos q) (pos p)) in
      (a * 1_000_000 ≤ q * p + 500_000) × (q * p + 500_000 < (a + 1) * 1_000_000)
unfolding line_amount quantize_half_up in_context
line_amount_nearest q p small = rw (pos-*ℤ, prec_28_exact (q * p) small) (omega arith, omega arith)

-- A rounded product of numbers that are not negative is not negative.
pub quantize-product :
    (a b : Decimal) (d : ℕ)
    → pos 0 ≤ℤ a
    → pos 0 ≤ℤ b
    → pos 0 ≤ℤ quantize_half_up (in_context (a *ℤ b)) d
unfolding quantize_half_up in_context
quantize-product (pos q) (pos p) d hq hp = rw pos-*ℤ (omega arith)
quantize-product (negsuc q) p d hq hp = absurd (omega arith)
quantize-product (pos q) (negsuc p) d hq hp = absurd (omega arith)

-- For a nonnegative total and a positive quantity, the average cost is the quotient rounded to the nearest
-- last place, and a tie goes up: the average times the quantity is the total, up to half of the last place
-- per unit of the quantity.
pub unit_cost_nearest :
    (total quantity : ℕ)
    → 0 < quantity
    → let c = pos_part (unit_cost (pos total) quantity) in
      (2 * (c * quantity) ≤ 2 * (total * 1_000_000) + quantity)
      × (2 * (total * 1_000_000) + quantity < 2 * (c * quantity) + 2 * quantity)
unfolding unit_cost quantize_half_up
unit_cost_nearest total quantity h =
    let (low, high) =
      div_bounds (2 * (total * 1_000_000) + quantity) (2 * quantity) (omega arith) in
    rw pos-*ℤ (grind (arith, low), grind (arith, high))
