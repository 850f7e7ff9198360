-- ===== src/Decimal/Order.antt =====
-- The comparison of decimals is a strict weak order.
use native.Mathlib.Nat.{mul-le-mul_right, le_of_mul-le-mul_right, one-le-pow}
use ta_model_v.Base.{ℕ, ◌+◌, ◌*◌, ◌^◌, ◌≤◌, ◌≡◌, true, false, ◌↔◌, arith, tests, ltb}
use ta_model_v.Base.Int.{pos_part, neg_part}
use ta_model_v.Decimal.{Decimal, lt, max, min, of_nat}

-- Over common denominators: a / X ≤ b / Y and b / Y ≤ c / Z give a / X ≤ c / Z.
le_trans_cross :
    (p q p' q' p'' q'' x y z : ℕ)
    → 1 ≤ y
    → p * y + q' * x ≤ p' * x + q * y
    → p' * z + q'' * y ≤ p'' * y + q' * z
    → p * z + q'' * x ≤ p'' * x + q * z
le_trans_cross p q p' q' p'' q'' x y z hy h k =
    le_of_mul-le-mul_right {k = y} (omega (arith, mul-le-mul_right z h, mul-le-mul_right x k)) hy

-- `a <= b` and `b <= c` give `a <= c`.
pub lt-false_trans : (a b c : Decimal) → lt b a ≡ false → lt c b ≡ false → lt c a ≡ false
unfolding lt
lt-false_trans a b c h k = omega (
  tests,
  le_trans_cross (pos_part a.mantissa) (neg_part a.mantissa) (pos_part b.mantissa)
      (neg_part b.mantissa) (pos_part c.mantissa) (neg_part c.mantissa) (10 ^ a.scale)
      (10 ^ b.scale) (10 ^ c.scale) (one-le-pow b.scale 10 (omega arith)) (omega tests)
      (omega tests),
)

pub lt_irrefl : (a : Decimal) → lt a a ≡ false
unfolding lt
lt_irrefl a = omega tests

pub lt_asymm : (a b : Decimal) → lt a b ≡ true → lt b a ≡ false
unfolding lt
lt_asymm a b h = omega tests

-- `a <= b`, as a statement.
abbrev pub AtMost : Decimal → Decimal → Type 0
AtMost a b = lt b a ≡ false

pub AtMost-trans : (a b c : Decimal) → AtMost a b → AtMost b c → AtMost a c
AtMost-trans a b c h k = lt-false_trans a b c h k

pub lt_of_lt_of_AtMost : (a b c : Decimal) → lt a b ≡ true → AtMost b c → lt a c ≡ true
lt_of_lt_of_AtMost a b c h k = ground (arith, lt-false_trans b c a k)

pub lt_of_AtMost_of_lt : (a b c : Decimal) → AtMost a b → lt b c ≡ true → lt a c ≡ true
lt_of_AtMost_of_lt a b c h k = ground (arith, lt-false_trans c a b)

-- The larger of two values is at most a bound exactly when both are.
pub max-AtMost : (a b c : Decimal) → AtMost (max a b) c ↔ (AtMost a c × AtMost b c)
unfolding max
max-AtMost a b c = ground (arith, lt_asymm a b, AtMost-trans a b c, AtMost-trans b a c)

pub min-AtMost : (a b : Decimal) → AtMost (min a b) a × AtMost (min a b) b
unfolding min
min-AtMost a b = ground (arith, lt_asymm b a, lt_irrefl a, lt_irrefl b)

-- A value is at most the smaller of two exactly when it is at most both.
pub lower_bound_iff : (a b c : Decimal) → AtMost a (min b c) ↔ (AtMost a b × AtMost a c)
unfolding min
lower_bound_iff a b c = ground (arith, lt_asymm c b, AtMost-trans a b c, AtMost-trans a c b)

-- Whole numbers compare as numbers.
pub lt-of_nat : (m n : ℕ) → lt (of_nat m) (of_nat n) ≡ ltb m n
unfolding lt
lt-of_nat m n = ground arith
