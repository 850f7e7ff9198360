-- ===== src/Decimal/Rounding.antt =====
-- Rounding to 28 digits keeps a positive number positive, so a rounded difference has the sign of
-- the comparison.
use native.Mathlib.Nat.{pow-succ', pow-le-pow_right, one-le-pow, le-div_iff_mul-le, one-le-mul}
use ta_model_v.Base.{
  ℕ, zero, suc, ◌+◌, ◌-◌, ◌*◌, ◌/◌, ◌^◌, ◌≤◌, ◌≡◌, refl, true, false, arith, tests, ltb, ◌==◌,
  Bool-cases, inl, inr, ◌↔◌, sym, ◌∙◌,
}
use ta_model_v.Base.Int.{ℤ, pos_part, neg_part, ◌-ℤ◌, ◌*ℤ◌, -ℤ_parts, abs}
use ta_model_v.Decimal.{
  Decimal, lt, sub, of_nat, round, round_nat, digits, digits_fuel, half_even, precision, aligned,
}

digits_fuel_bound : (f n : ℕ) → 1 ≤ n → 10 ^ digits_fuel f n ≤ 10 * n
unfolding digits_fuel
digits_fuel_bound zero n h = omega arith
digits_fuel_bound (suc f) n h = elim (Bool-cases (ltb n 10)) [
  | inl small ↦ rw (small, digits_fuel) (omega arith)
  | inr large ↦
      rw (large, digits_fuel)
        (omega (
          tests,
          pow-succ' 10 (digits_fuel f (n / 10)),
          digits_fuel_bound f (n / 10) (omega tests),
        ))
]

-- A number of d digits is at least 10 ^ (d - 1).
pub digits_bound : (n : ℕ) → 1 ≤ n → 10 ^ digits n ≤ 10 * n
unfolding digits
digits_bound n h = digits_fuel_bound n n h

cut_unit_le : (n k : ℕ) → 1 ≤ n → suc k ≤ digits n → 10 ^ k ≤ n
cut_unit_le n k h le =
    omega (arith, digits_bound n h, pow-succ' 10 k, pow-le-pow_right {n = 10} (omega arith) le)

half_even_pos : (n k : ℕ) → 10 ^ k ≤ n → 1 ≤ half_even n k
unfolding half_even
half_even_pos n k h = ground (
  arith,
  (le-div_iff_mul-le {k = 10 ^ k} {x = 1} {y = n} (one-le-pow k 10 (omega arith))).1
      (omega (arith, h)),
)

pub round_nat_pos : (n : ℕ) → 1 ≤ n → 1 ≤ round_nat n
unfolding round_nat
round_nat_pos n h = elim (Bool-cases (digits n - precision == 0)) [
  | inl short ↦ rw (short, round_nat) h
  | inr long ↦
      rw (long, round_nat)
        (one-le-mul
          (half_even_pos n (digits n - precision)
            (cut_unit_le n (digits n - precision) h (ground arith)))
          (one-le-pow (digits n - precision) 10 (omega arith)))
]

-- The sign of a rounded value is the sign of the value.
pos_part-round : (a : Decimal) → 1 ≤ pos_part a.mantissa → 1 ≤ pos_part (round a).mantissa
unfolding round
pos_part-round a h = ground (arith, round_nat_pos (abs a.mantissa))

round_nat_zero : round_nat 0 ≡ 0
unfolding round_nat digits
round_nat_zero = refl

pos_part-round_zero : (a : Decimal) → pos_part a.mantissa ≡ 0 → pos_part (round a).mantissa ≡ 0
unfolding round
pos_part-round_zero a h = ground (arith, round_nat_zero)

pos_part-aligned : (a b : Decimal) → pos_part (aligned a b) ≡ pos_part a.mantissa * 10 ^ b.scale
unfolding ◌*ℤ◌
pos_part-aligned a b = ground arith

neg_part-aligned : (a b : Decimal) → neg_part (aligned a b) ≡ neg_part a.mantissa * 10 ^ b.scale
unfolding ◌*ℤ◌
neg_part-aligned a b = ground arith

-- One part of an integer is zero.
parts_apart : (x : ℤ) → 1 ≤ pos_part x → neg_part x ≡ 0
parts_apart x h = ground arith

zero_of_not_pos : (x : ℤ) → pos_part x ≤ neg_part x → pos_part x ≡ 0
zero_of_not_pos x h = ground arith

zero-lt_iff : (a : Decimal) → (lt (of_nat 0) a ≡ true) ↔ (1 ≤ pos_part a.mantissa)
unfolding lt
zero-lt_iff a = ground arith

zero_of_not_neg : (x : ℤ) → neg_part x ≤ pos_part x → neg_part x ≡ 0
zero_of_not_neg x h = ground arith

lt-zero_iff : (a : Decimal) → (lt a (of_nat 0) ≡ true) ↔ (1 ≤ neg_part a.mantissa)
unfolding lt
lt-zero_iff a = ground arith

neg_part-round : (a : Decimal) → 1 ≤ neg_part a.mantissa → 1 ≤ neg_part (round a).mantissa
unfolding round
neg_part-round a h = ground (arith, round_nat_pos (abs a.mantissa))

neg_part-round_zero : (a : Decimal) → neg_part a.mantissa ≡ 0 → neg_part (round a).mantissa ≡ 0
unfolding round
neg_part-round_zero a h = ground arith

module _ (a b : Decimal) where
  -- The difference before it is rounded.
  abbrev exact : Decimal
  exact = record { mantissa = aligned a b -ℤ aligned b a; scale = a.scale + b.scale }

  exact_above : lt b a ≡ true → 1 ≤ pos_part exact.mantissa
  unfolding lt
  exact_above h = omega (
    tests,
    -ℤ_parts (aligned a b) (aligned b a),
    pos_part-aligned a b,
    pos_part-aligned b a,
    neg_part-aligned a b,
    neg_part-aligned b a,
  )

  exact_below : lt b a ≡ false → pos_part exact.mantissa ≡ 0
  unfolding lt
  exact_below h = zero_of_not_pos exact.mantissa (
      omega (
        tests,
        -ℤ_parts (aligned a b) (aligned b a),
        pos_part-aligned a b,
        pos_part-aligned b a,
        neg_part-aligned a b,
        neg_part-aligned b a,
      ))

  sub_above : lt b a ≡ true → lt (of_nat 0) (sub a b) ≡ true
  unfolding sub
  sub_above h = (zero-lt_iff (round exact)).1 (pos_part-round exact (exact_above h))

  sub_below : lt b a ≡ false → lt (of_nat 0) (sub a b) ≡ false
  unfolding sub
  sub_below h = ground (arith, zero-lt_iff (round exact), pos_part-round_zero exact (exact_below h))

  -- `a - b > 0` exactly when `b < a`, although the difference is rounded.
  pub zero-lt-sub : lt (of_nat 0) (sub a b) ≡ lt b a
  zero-lt-sub = elim (Bool-cases (lt b a)) [
    | inl above ↦ sub_above above ∙ sym above
    | inr below ↦ sub_below below ∙ sym below
  ]

  exact_negative : lt a b ≡ true → 1 ≤ neg_part exact.mantissa
  unfolding lt
  exact_negative h = omega (
    tests,
    -ℤ_parts (aligned a b) (aligned b a),
    pos_part-aligned a b,
    pos_part-aligned b a,
    neg_part-aligned a b,
    neg_part-aligned b a,
  )

  exact_nonnegative : lt a b ≡ false → neg_part exact.mantissa ≡ 0
  unfolding lt
  exact_nonnegative h = zero_of_not_neg exact.mantissa (
      omega (
        tests,
        -ℤ_parts (aligned a b) (aligned b a),
        pos_part-aligned a b,
        pos_part-aligned b a,
        neg_part-aligned a b,
        neg_part-aligned b a,
      ))

  negative_case : lt a b ≡ true → lt (sub a b) (of_nat 0) ≡ true
  unfolding sub
  negative_case h = (lt-zero_iff (round exact)).1 (neg_part-round exact (exact_negative h))

  nonnegative_case : lt a b ≡ false → lt (sub a b) (of_nat 0) ≡ false
  unfolding sub
  nonnegative_case h =
      ground (arith, lt-zero_iff (round exact), neg_part-round_zero exact (exact_nonnegative h))

  -- `a - b < 0` exactly when `a < b`.
  pub lt-sub-zero : lt (sub a b) (of_nat 0) ≡ lt a b
  lt-sub-zero = elim (Bool-cases (lt a b)) [
    | inl below ↦ negative_case below ∙ sym below
    | inr above ↦ nonnegative_case above ∙ sym above
  ]
