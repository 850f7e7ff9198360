-- ===== src/Decimal/Bounds.antt =====
-- Bounds on the results of decimal arithmetic, rounding included: a fraction of a value is at most the
-- value, and a sum is at least each of its terms.
use native.Mathlib.Nat.{mul-le-mul_left, mul-le-mul_right, mul_assoc, mul_comm}
use ta_model_v.Base.{ℕ, ◌+◌, ◌*◌, ◌^◌, ◌≤◌, ◌≡◌, refl, ap, ◌∙◌, arith, tests}
use ta_model_v.Base.Int.{ℤ, pos_part, neg_part, pos, abs, ◌+ℤ◌, ◌*ℤ◌}
use ta_model_v.Decimal.{Decimal, round, round_nat, lt, of_nat, mul, add, sub, copy_abs, aligned}
use ta_model_v.Decimal.Order.{AtMost, AtMost-trans}
use ta_model_v.Decimal.Sign.{
  IsNonneg, neg_part-IsNonneg, IsNonneg-of_neg_part, neg_part-round, neg_part-*ℤ, neg_part-+ℤ,
  neg_part-aligned,
}
use ta_model_v.Decimal.Rounding.{lt-sub-zero}
use ta_model_v.Decimal.Digits.{IsWhole, round_nat-IsWhole, pow_add}
use ta_model_v.Decimal.Representable.{cross_upper, cross_lower}

-- A value that is not negative and that 28 digits hold: what rounding returns.
pub record IsHeld (e : Decimal) : Type 0 where
  pub nonneg : neg_part e.mantissa ≡ 0
  pub whole : IsWhole (pos_part e.mantissa)

pub pos_part-round :
    (x : Decimal)
    → neg_part x.mantissa ≡ 0
    → pos_part (round x).mantissa ≡ round_nat (pos_part x.mantissa)
unfolding round
pos_part-round x h = ground arith

pub scale-round : (x : Decimal) → (round x).scale ≡ x.scale
unfolding round
scale-round x = refl

pub round-IsHeld : (x : Decimal) → neg_part x.mantissa ≡ 0 → IsHeld (round x)
round-IsHeld x h = record {
  nonneg = neg_part-round x h;
  whole = rw (pos_part-round x h) (round_nat-IsWhole (pos_part x.mantissa));
}

-- The comparison of values that are not negative, over common denominators.
AtMost-cross :
    (a b : Decimal)
    → neg_part a.mantissa ≡ 0
    → neg_part b.mantissa ≡ 0
    → AtMost a b
    → pos_part a.mantissa * 10 ^ b.scale ≤ pos_part b.mantissa * 10 ^ a.scale
unfolding lt
AtMost-cross a b h k le = omega (tests, ap (λ n. n * 10 ^ b.scale) h, ap (λ n. n * 10 ^ a.scale) k)

pub AtMost-of_cross :
    (a b : Decimal)
    → neg_part a.mantissa ≡ 0
    → neg_part b.mantissa ≡ 0
    → pos_part a.mantissa * 10 ^ b.scale ≤ pos_part b.mantissa * 10 ^ a.scale
    → AtMost a b
unfolding lt
AtMost-of_cross a b h k le =
    omega (tests, ap (λ n. n * 10 ^ b.scale) h, ap (λ n. n * 10 ^ a.scale) k)

-- Rounding does not cross a held value, from below and from above.
pub round-AtMost :
    (x e : Decimal) → neg_part x.mantissa ≡ 0 → IsHeld e → AtMost x e → AtMost (round x) e
round-AtMost x e h held le = AtMost-of_cross (round x) e (neg_part-round x h) held.nonneg (
    rw (pos_part-round x h, scale-round x)
      (cross_upper (pos_part x.mantissa) (pos_part e.mantissa) e.scale x.scale held.whole
        (AtMost-cross x e h held.nonneg le)))

pub AtMost-round :
    (x e : Decimal) → neg_part x.mantissa ≡ 0 → IsHeld e → AtMost e x → AtMost e (round x)
AtMost-round x e h held le = AtMost-of_cross e (round x) held.nonneg (neg_part-round x h) (
    rw (pos_part-round x h, scale-round x)
      (cross_lower (pos_part x.mantissa) (pos_part e.mantissa) e.scale x.scale held.whole
        (AtMost-cross e x held.nonneg h le)))

-- The product and the sum before they are rounded.
abbrev product : Decimal → Decimal → Decimal
product a b = record { mantissa = a.mantissa *ℤ b.mantissa; scale = a.scale + b.scale }

abbrev sum : Decimal → Decimal → Decimal
sum a b = record { mantissa = aligned a b +ℤ aligned b a; scale = a.scale + b.scale }

pos_part-*ℤ :
    (x y : ℤ) → neg_part x ≡ 0 → neg_part y ≡ 0 → pos_part (x *ℤ y) ≡ pos_part x * pos_part y
unfolding ◌*ℤ◌
pos_part-*ℤ x y h k = ground arith

pos_part-+ℤ :
    (x y : ℤ) → neg_part x ≡ 0 → neg_part y ≡ 0 → pos_part (x +ℤ y) ≡ pos_part x + pos_part y
unfolding ◌+ℤ◌
pos_part-+ℤ x y h k = ground arith

pub mul-IsHeld : (a b : Decimal) → IsNonneg a → IsNonneg b → IsHeld (mul a b)
unfolding mul
mul-IsHeld a b h k =
    round-IsHeld (product a b)
      (neg_part-*ℤ a.mantissa b.mantissa (neg_part-IsNonneg a h) (neg_part-IsNonneg b k))

IsNonneg-IsHeld : (e : Decimal) → IsHeld e → IsNonneg e
IsNonneg-IsHeld e held = IsNonneg-of_neg_part e held.nonneg

product_cross : (p q s t : ℕ) → q ≤ 10 ^ t → p * q * 10 ^ s ≤ p * 10 ^ (s + t)
product_cross p q s t h = omega (
  arith,
  mul-le-mul_right (10 ^ s) (mul-le-mul_left p h),
  ap (λ u. p * u) (pow_add s t),
  ap (λ u. p * u) (mul_comm (10 ^ s) (10 ^ t)),
  mul_assoc p (10 ^ t) (10 ^ s),
)

-- A fraction of a held value, rounded, is at most the value.
pub mul-AtMost :
    (e rate : Decimal) → IsHeld e → IsNonneg rate → AtMost rate (of_nat 1) → AtMost (mul e rate) e
unfolding mul
mul-AtMost e rate held h le =
    let rate_nonneg = neg_part-IsNonneg rate h in
    let small : pos_part rate.mantissa ≤ 10 ^ rate.scale =
      omega (arith, AtMost-cross rate (of_nat 1) rate_nonneg refl le) in
    let nonneg = neg_part-*ℤ e.mantissa rate.mantissa held.nonneg rate_nonneg in
    round-AtMost (product e rate) e nonneg held (
      AtMost-of_cross (product e rate) e nonneg held.nonneg (
        rw (pos_part-*ℤ e.mantissa rate.mantissa held.nonneg rate_nonneg)
          (product_cross (pos_part e.mantissa) (pos_part rate.mantissa) e.scale rate.scale small)))

sum_cross : (p q s t : ℕ) → p * 10 ^ (t + s) ≤ (q * 10 ^ s + p * 10 ^ t) * 10 ^ s
sum_cross p q s t =
    let below : p * 10 ^ t ≤ q * 10 ^ s + p * 10 ^ t = omega arith in
    omega (
      arith,
      mul-le-mul_right (10 ^ s) below,
      ap (λ u. p * u) (pow_add t s),
      mul_assoc p (10 ^ t) (10 ^ s),
    )

-- A rounded sum is at least its second term, where that is held.
pub AtMost-add : (q e : Decimal) → IsNonneg q → IsHeld e → AtMost e (add q e)
unfolding add
AtMost-add q e h held =
    let left = neg_part-aligned q e (neg_part-IsNonneg q h) in
    let right = neg_part-aligned e q held.nonneg in
    let nonneg = neg_part-+ℤ (aligned q e) (aligned e q) left right in
    AtMost-round (sum q e) e nonneg held (
      AtMost-of_cross e (sum q e) held.nonneg nonneg (
        rw
          (
            pos_part-+ℤ (aligned q e) (aligned e q) left right,
            pos_part-*ℤ q.mantissa (pos (10 ^ e.scale)) (neg_part-IsNonneg q h) refl,
            pos_part-*ℤ e.mantissa (pos (10 ^ q.scale)) held.nonneg refl,
          )
          (sum_cross (pos_part e.mantissa) (pos_part q.mantissa) e.scale q.scale)))

abs_nonneg : (x : ℤ) → neg_part x ≡ 0 → abs x ≡ pos_part x
abs_nonneg x h = ground arith

-- `|a|` is `a`, where `a` is not negative.
pub copy_abs-IsHeld : (e : Decimal) → IsHeld e → IsHeld (copy_abs e)
unfolding copy_abs
copy_abs-IsHeld e held = record {
  nonneg = refl;
  whole = rw (abs_nonneg e.mantissa held.nonneg) held.whole;
}

pub copy_abs-AtMost : (e : Decimal) → IsHeld e → AtMost (copy_abs e) e
unfolding copy_abs
copy_abs-AtMost e held =
    AtMost-of_cross (record { mantissa = pos (abs e.mantissa); scale = e.scale }) e refl held.nonneg
      (omega (arith, ap (λ n. n * 10 ^ e.scale) (abs_nonneg e.mantissa held.nonneg)))

-- What is left of a sum after a fraction of one of its terms is not negative, all rounded.
pub sub-fee-IsNonneg :
    (q e rate : Decimal)
    → IsNonneg q
    → IsHeld e
    → IsNonneg rate
    → AtMost rate (of_nat 1)
    → IsNonneg (sub (add q e) (mul (copy_abs e) rate))
sub-fee-IsNonneg q e rate h held r le =
    let fee = mul (copy_abs e) rate in
    let small = mul-AtMost (copy_abs e) rate (copy_abs-IsHeld e held) r le in
    lt-sub-zero (add q e) fee
    ∙ AtMost-trans fee e (add q e) (AtMost-trans fee (copy_abs e) e small (copy_abs-AtMost e held))
        (AtMost-add q e h held)
