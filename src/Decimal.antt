-- ===== src/Decimal.antt =====
-- Python's `decimal.Decimal` under its default context: finite values, 28 significant digits,
-- ROUND_HALF_EVEN. A value is mantissa / 10 ^ scale; results depend on the value alone, so the
-- trailing zeros that Python keeps for printing are not modelled. The exponents are unbounded here:
-- where a result is above the context's largest exponent (999999), Python raises `Overflow`, and below
-- the smallest it loses digits or becomes zero; that is not modelled, and what is proved is about runs
-- whose results stay between. A theorem that a run on given amounts returns assumes that they are
-- ordinary (`is_ordinary`). Every divisor in the modelled code is a positive field or numeral, so the
-- trap on a zero divisor is not modelled.
pub mod Order
pub mod Sign
pub mod Rounding
pub mod HalfEven
pub mod Digits
pub mod Representable
pub mod Bounds
pub mod Difference
mod Tests
use ta_model_v.Base.{
  ℕ, zero, suc, ◌+◌, ◌-◌, ◌*◌, ◌/◌, ◌%◌, ◌^◌, Bool, true, false, not, ◌&&◌, ◌||◌, ltb, ◌==◌,
  if◌then◌else◌,
}
use ta_model_v.Base.Int.{
  ℤ, pos, negsuc, pos_part, neg_part, sub_ℕ, ◌+ℤ◌, ◌-ℤ◌, ◌*ℤ◌, abs, with_sign,
}

pub record Decimal : Type 0 where
  pub mantissa : ℤ
  pub scale : ℕ

-- `Decimal(n)`, and the literal `Decimal("a.b")` as a mantissa over a power of ten.
abbrev pub of_nat : ℕ → Decimal
of_nat n = record { mantissa = pos n; scale = 0 }

abbrev pub literal : ℕ → ℕ → Decimal
literal m s = record { mantissa = pos m; scale = s }

abbrev pub precision : ℕ
precision = 28

-- The number of decimal digits, by fuel: `n` itself is enough, since division by ten falls.
unfoldable digits_fuel : ℕ → ℕ → ℕ
digits_fuel zero n = 1
digits_fuel (suc f) n = elim (ltb n 10) [ true ↦ 1 | false ↦ suc (digits_fuel f (n / 10)) ]

unfoldable pub digits : ℕ → ℕ
unfolding digits_fuel
digits n = digits_fuel n n

-- n / 10 ^ k to the nearest integer, ties to even.
unfoldable pub half_even : ℕ → ℕ → ℕ
half_even n k =
    let unit = 10 ^ k in
    let q = n / unit in
    let r = n % unit in if ltb unit (2 * r) || (2 * r == unit && q % 2 == 1) then q + 1 else q

-- An integer cut to 28 significant digits, with zeros in place of the others.
unfoldable pub round_nat : ℕ → ℕ
round_nat n = let k = digits n - precision in if k == 0 then n else half_even n k * 10 ^ k

-- The context's rounding of a result.
unfoldable pub round : Decimal → Decimal
round d = record d { mantissa = with_sign d.mantissa (round_nat (abs d.mantissa)) }

-- The numerators of two values over one power of ten.
abbrev pub aligned : Decimal → Decimal → ℤ
aligned a b = a.mantissa *ℤ pos (10 ^ b.scale)

unfoldable pub add : Decimal → Decimal → Decimal
add a b = round (record { mantissa = aligned a b +ℤ aligned b a; scale = a.scale + b.scale })

unfoldable pub sub : Decimal → Decimal → Decimal
sub a b = round (record { mantissa = aligned a b -ℤ aligned b a; scale = a.scale + b.scale })

unfoldable pub mul : Decimal → Decimal → Decimal
mul a b = round (record { mantissa = a.mantissa *ℤ b.mantissa; scale = a.scale + b.scale })

-- `-a` rounds as the other operations do.
unfoldable pub neg : Decimal → Decimal
neg a = round (record a { mantissa = pos 0 -ℤ a.mantissa })

-- `a.copy_abs()` does not round.
unfoldable pub copy_abs : Decimal → Decimal
copy_abs a = record a { mantissa = pos (abs a.mantissa) }

-- A quotient of at least 29 digits, made odd at the end when it is not exact, then rounded.
unfoldable pub div : Decimal → Decimal → Decimal
div a b =
    let n = abs a.mantissa * 10 ^ b.scale in
    let d = abs b.mantissa * 10 ^ a.scale in
    let shift = digits d + precision + 1 - digits n in
    let q = n * 10 ^ shift / d in
    let inexact = not (n * 10 ^ shift % d == 0) && q % 5 == 0 in
    let sign = with_sign a.mantissa 1 *ℤ with_sign b.mantissa 1 in
    round (record { mantissa = with_sign sign (if inexact then q + 1 else q); scale = shift })

-- `a < b` on exact values. The other comparisons follow from it.
unfoldable pub lt : Decimal → Decimal → Bool
lt a b =
    ltb (pos_part a.mantissa * 10 ^ b.scale + neg_part b.mantissa * 10 ^ a.scale)
      (pos_part b.mantissa * 10 ^ a.scale + neg_part a.mantissa * 10 ^ b.scale)

abbrev pub le : Decimal → Decimal → Bool
le a b = not (lt b a)

abbrev pub eq : Decimal → Decimal → Bool
eq a b = not (lt a b) && not (lt b a)

-- The builtins `max` and `min` return the first of two equal values.
unfoldable pub max : Decimal → Decimal → Decimal
max a b = if lt a b then b else a

unfoldable pub min : Decimal → Decimal → Decimal
min a b = if lt b a then b else a

-- `a % b == 0` for a positive `b`.
unfoldable pub is_multiple : Decimal → Decimal → Bool
is_multiple a b = abs a.mantissa * 10 ^ b.scale % (abs b.mantissa * 10 ^ a.scale) == 0

-- A value below 10 ^ 100 with at most 100 decimal places. The sums, products and quotients that the
-- modelled code takes of a few such values stay far from the exponents 999999 and -999999.
unfoldable pub is_ordinary : Decimal → Bool
is_ordinary d = ltb (abs d.mantissa) (10 ^ 100) && ltb d.scale 101

-- Names what the arithmetic computes with, for the tests.
unfoldable pub computing : ℕ
unfolding add sub mul neg copy_abs div lt max min is_multiple round round_nat half_even digits ◌+ℤ◌
    ◌-ℤ◌ ◌*ℤ◌
computing = 0
