-- ===== src/Money.antt =====
-- backend/app/utils/money.py: the rounding of amounts and of unit costs, ROUND_HALF_UP.
-- A quantity or a unit price has 4 decimal places, an amount has 2, so their product has 8.
use manufacturing_erp_lite.Prelude.{
  ℕ, zero, suc, ◌+◌, ◌*◌, ◌/◌, ◌%◌, List, true, false, if◌then◌else◌, ltb, ◌==◌,
}
use manufacturing_erp_lite.Prelude.Decimal.{Decimal, ℤ, pos, negsuc, neg, ◌*ℤ◌}
use manufacturing_erp_lite.Prelude.Lists.{sum}
pub mod Rounding

-- `(n / d).quantize(1, rounding=ROUND_HALF_UP)`: the whole number nearest to n / d, a tie going
-- away from zero.
unfoldable pub quantize_half_up : ℤ → ℕ → ℤ
quantize_half_up (pos n) d = pos ((2 * n + d) / (2 * d))
quantize_half_up (negsuc n) d = neg (pos ((2 * suc n + d) / (2 * d)))

-- The whole number nearest to n / d, a tie going to the even one: Python's ROUND_HALF_EVEN.
unfoldable pub half_even : ℕ → ℕ → ℕ
half_even n d =
    let k = n / d in
    let r = n % d in
    if ltb (2 * r) d then k else if ltb d (2 * r) then suc k else if k % 2 == 0 then k else suc k

unfoldable pub quantize_half_even : ℤ → ℕ → ℤ
unfolding half_even
quantize_half_even (pos n) d = pos (half_even n d)
quantize_half_even (negsuc n) d = neg (pos (half_even (suc n) d))

-- The weight of the last of 28 digits of a number that has as many digits more as `q` has. The fuel is
-- `q` itself, which is not less than the count of its digits.
unfoldable pub last_digit : ℕ → ℕ → ℕ
last_digit zero q = 1
last_digit (suc fuel) q = elim (q == 0) [ true ↦ 1 | false ↦ 10 * last_digit fuel (q / 10) ]

-- What the decimal context keeps of a result: 28 digits, ROUND_HALF_EVEN.
unfoldable pub prec_28 : ℕ → ℕ
unfolding half_even last_digit
prec_28 n =
    let q = n / 10_000_000_000_000_000_000_000_000_000 in
    let u = last_digit q q in half_even n u * u

unfoldable pub in_context : ℤ → ℤ
unfolding prec_28
in_context (pos n) = pos (prec_28 n)
in_context (negsuc n) = neg (pos (prec_28 (suc n)))

-- `money(value)` of a value of 8 places.
unfoldable pub money : Decimal → Decimal
unfolding quantize_half_up
money value = quantize_half_up value 1_000_000

-- A value of 2 places, written with 8.
abbrev pub with_8_places : Decimal → Decimal
with_8_places amount = amount *ℤ pos 1_000_000

-- `unit_cost(total / quantity)`: a total of 2 places over a positive quantity of 4 places, to 4
-- places.
unfoldable pub unit_cost : Decimal → ℕ → Decimal
unfolding quantize_half_up
unit_cost total quantity = quantize_half_up (total *ℤ pos 1_000_000) quantity

unfoldable pub line_amount : Decimal → Decimal → Decimal
unfolding money in_context
line_amount requested_quantity estimated_unit_price =
    money (in_context (requested_quantity *ℤ estimated_unit_price))

unfoldable pub sum_amounts : List Decimal → Decimal
unfolding money
sum_amounts amounts = money (with_8_places (sum amounts))
