-- ===== src/Decimal/Sign.antt =====
-- Which results are not negative: rounding keeps the sign of the exact result.
use ta_model_v.Base.{◌^◌, ◌≡◌, refl, true, false, arith, tests}
use ta_model_v.Base.Int.{ℤ, pos, neg_part, ◌+ℤ◌, ◌*ℤ◌}
use ta_model_v.Decimal.{Decimal, lt, max, add, mul, of_nat, round, aligned}
use ta_model_v.Decimal.Order.{lt_irrefl}

-- A value that passes `>= 0`.
abbrev pub IsNonneg : Decimal → Type 0
IsNonneg a = lt a (of_nat 0) ≡ false

-- A value that passes `> 0`.
abbrev pub IsPositive : Decimal → Type 0
IsPositive a = lt (of_nat 0) a ≡ true

pub neg_part-IsNonneg : (a : Decimal) → IsNonneg a → neg_part a.mantissa ≡ 0
unfolding lt
neg_part-IsNonneg a h = ground arith

pub IsNonneg-of_neg_part : (a : Decimal) → neg_part a.mantissa ≡ 0 → IsNonneg a
unfolding lt
IsNonneg-of_neg_part a h = omega tests

pub neg_part-round : (a : Decimal) → neg_part a.mantissa ≡ 0 → neg_part (round a).mantissa ≡ 0
unfolding round
neg_part-round a h = ground arith

pub neg_part-*ℤ : (x y : ℤ) → neg_part x ≡ 0 → neg_part y ≡ 0 → neg_part (x *ℤ y) ≡ 0
unfolding ◌*ℤ◌
neg_part-*ℤ x y h k = ground arith

pub neg_part-+ℤ : (x y : ℤ) → neg_part x ≡ 0 → neg_part y ≡ 0 → neg_part (x +ℤ y) ≡ 0
unfolding ◌+ℤ◌
neg_part-+ℤ x y h k = ground arith

pub neg_part-aligned : (a b : Decimal) → neg_part a.mantissa ≡ 0 → neg_part (aligned a b) ≡ 0
neg_part-aligned a b h = neg_part-*ℤ a.mantissa (pos (10 ^ b.scale)) h refl

pub IsPositive-IsNonneg : (a : Decimal) → IsPositive a → IsNonneg a
unfolding lt
IsPositive-IsNonneg a h = omega tests

-- A product of two values that are not negative is not negative.
pub mul-IsNonneg : (a b : Decimal) → IsNonneg a → IsNonneg b → IsNonneg (mul a b)
unfolding mul
mul-IsNonneg a b h k =
    IsNonneg-of_neg_part _
      (neg_part-round _ (neg_part-*ℤ _ _ (neg_part-IsNonneg a h) (neg_part-IsNonneg b k)))

pub add-IsNonneg : (a b : Decimal) → IsNonneg a → IsNonneg b → IsNonneg (add a b)
unfolding add
add-IsNonneg a b h k = IsNonneg-of_neg_part _ (
    neg_part-round _ (
      neg_part-+ℤ _ _ (neg_part-aligned a b (neg_part-IsNonneg a h))
        (neg_part-aligned b a (neg_part-IsNonneg b k))))

-- `max(Decimal("0"), a)` is not negative.
pub max_zero-IsNonneg : (a : Decimal) → IsNonneg (max (of_nat 0) a)
unfolding max
max_zero-IsNonneg a = ground (arith, lt_irrefl (of_nat 0), IsPositive-IsNonneg a)
