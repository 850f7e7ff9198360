-- ===== src/Decimal/Digits.antt =====
-- Rounding to 28 digits is monotone, and it keeps what 28 digits can hold.
use native.Mathlib.Nat.{zero-add, suc-add, pow-succ', pow-le-pow_right, mul-le-mul_right, mul_assoc}
use ta_model_v.Base.{
  ℕ, zero, suc, ◌+◌, ◌-◌, ◌*◌, ◌/◌, ◌^◌, ◌≤◌, ◌<◌, ◌≡◌, refl, sym, ap, ◌∙◌, false, arith, tests,
  ltb, ◌==◌, Bool-cases, inl, inr, ◌⊎◌,
}
use ta_model_v.Decimal.{round_nat, digits, digits_fuel, half_even, precision}
use ta_model_v.Decimal.Rounding.{digits_bound}
use ta_model_v.Decimal.HalfEven.{half_even_mono, half_even_exact, half_even_lower, half_even_upper}

pub pow_add : (i j : ℕ) → 10 ^ (i + j) ≡ 10 ^ i * 10 ^ j
pow_add zero j = rw (zero-add j) (omega arith)
pow_add (suc i) j =
    ap (λ k. 10 ^ k) (suc-add i j)
    ∙ pow-succ' 10 (i + j)
    ∙ ap (λ p. 10 * p) (pow_add i j)
    ∙ sym (mul_assoc 10 (10 ^ i) (10 ^ j))
    ∙ ap (λ p. p * 10 ^ j) (sym (pow-succ' 10 i))

digits_fuel_upper : (f n : ℕ) → n ≤ f → n < 10 ^ digits_fuel f n
unfolding digits_fuel
digits_fuel_upper zero n h = omega arith
digits_fuel_upper (suc f) n h = elim (Bool-cases (ltb n 10)) [
  | inl small ↦ rw (small, digits_fuel) (omega tests)
  | inr large ↦
      rw (large, digits_fuel)
        (omega (
          tests,
          pow-succ' 10 (digits_fuel f (n / 10)),
          digits_fuel_upper f (n / 10) (omega tests),
        ))
]

-- A number of d digits is below 10 ^ d.
digits_upper : (n : ℕ) → n < 10 ^ digits n
unfolding digits
digits_upper n = digits_fuel_upper n n (omega arith)

digits_fuel_pos : (f n : ℕ) → 1 ≤ digits_fuel f n
unfolding digits_fuel
digits_fuel_pos zero n = omega arith
digits_fuel_pos (suc f) n = ground arith

digits_pos : (n : ℕ) → 1 ≤ digits n
unfolding digits
digits_pos n = digits_fuel_pos n n

digits_mono : (m n : ℕ) → m ≤ n → digits m ≤ digits n
unfolding digits
digits_mono zero n h = digits_pos n
digits_mono (suc m) n h = elim (Bool-cases (ltb (digits n) (digits (suc m)))) [
  | inl more ↦ absurd (
      omega (
        tests,
        digits_bound (suc m) (omega arith),
        digits_upper n,
        pow-succ' 10 (digits n),
        pow-le-pow_right {n = 10} (omega arith) {i = suc (digits n)} {j = digits (suc m)}
            (omega tests),
      ))
  | inr fewer ↦ omega tests
]

-- How a number is rounded: not at all, or to a power of ten that leaves 28 digits.
record IsCut (n k : ℕ) : Type 0 where
  long : 10 ^ 27 * 10 ^ k ≤ n
  short : n < 10 ^ 28 * 10 ^ k
  cut : round_nat n ≡ half_even n k * 10 ^ k

digits_zero : digits 0 ≡ 1
unfolding digits
digits_zero = refl

long_pos : (n k : ℕ) → digits n ≡ 28 + k → 1 ≤ n
long_pos zero k h = absurd (omega (arith, digits_zero))
long_pos (suc n) k h = omega arith

over_zero : (a : ℕ) → (a == 0) ≡ false → 1 ≤ a
over_zero a h = ground arith

long-IsCut : (n k : ℕ) → 1 ≤ k → digits n ≡ 28 + k → IsCut n k
unfolding round_nat
long-IsCut n k h d =
    let power = ap (λ i. 10 ^ i) d ∙ pow_add 28 k in
    let excess : digits n - precision ≡ k = omega arith in
    record {
      long = omega (arith, power, digits_bound n (long_pos n k d));
      short = omega (arith, power, digits_upper n);
      cut = rw (excess, round_nat) (ground arith);
    }

round_cases :
    (n : ℕ) → ((n < 10 ^ 28) × (round_nat n ≡ n)) ⊎ ((k : ℕ) × (1 ≤ k) × (digits n ≡ 28 + k))
unfolding round_nat
round_cases n = elim (Bool-cases (digits n - precision == 0)) [
  | inl fits ↦ inl (
    omega (
      tests,
      digits_upper n,
      pow-le-pow_right {n = 10} (omega arith) {i = digits n} {j = 28} (ground arith),
    ),
    rw (fits, round_nat) refl,
  )
  | inr over ↦ inr (digits n - precision, over_zero _ over, ground arith)
]

-- A number that is cut is rounded to at least the least and at most the next power of ten.
cut_bounds :
    (n k : ℕ) → IsCut n k → (10 ^ 27 * 10 ^ k ≤ round_nat n) × (round_nat n ≤ 10 ^ 28 * 10 ^ k)
cut_bounds n k c = rw c.cut (
  mul-le-mul_right (10 ^ k) (half_even_lower (10 ^ 27) n k c.long),
  mul-le-mul_right (10 ^ k) (half_even_upper (10 ^ 28) n k c.short),
)

pub power_step : (j k : ℕ) → suc j ≤ k → 10 * 10 ^ j ≤ 10 ^ k
power_step j k h =
    omega (arith, pow-succ' 10 j, pow-le-pow_right {n = 10} (omega arith) {i = suc j} {j = k} h)

-- A larger number is not rounded to a smaller one: by the numbers of digits.
cuts_mono : (m n j k : ℕ) → m ≤ n → IsCut m j → IsCut n k → j ≤ k → round_nat m ≤ round_nat n
cuts_mono m n j k h c c' le = elim (Bool-cases (ltb j k)) [
  | inl below ↦
      omega (tests, power_step j k (omega tests), (cut_bounds m j c).1, (cut_bounds n k c').0)
  | inr same ↦
      let e : j ≡ k = omega tests in
      rw (c.cut, c'.cut, e) (mul-le-mul_right (10 ^ k) (half_even_mono m n k h))
]

pub round_nat_mono : (m n : ℕ) → m ≤ n → round_nat m ≤ round_nat n
round_nat_mono m n h = elim (round_cases m) [
  | inl small ↦ elim (round_cases n) [
    | inl small' ↦ omega (arith, small.1, small'.1)
    | inr large' ↦ omega (
      arith,
      small.1,
      small.0,
      power_step 0 large'.0 large'.1,
      (cut_bounds n large'.0 (long-IsCut n large'.0 large'.1 large'.2)).0,
    )
  ]
  | inr large ↦ elim (round_cases n) [
    | inl small' ↦ absurd (
        omega (
          arith,
          small'.0,
          power_step 0 large.0 large.1,
          (long-IsCut m large.0 large.1 large.2).long,
        ))
    | inr large' ↦
        cuts_mono m n large.0 large'.0 h (long-IsCut m large.0 large.1 large.2)
          (long-IsCut n large'.0 large'.1 large'.2)
          (omega (arith, digits_mono m n h, large.2, large'.2))
  ]
]

-- What 28 digits hold, over a power of ten.
pub record IsWhole (v : ℕ) : Type 0 where
  pub head : ℕ
  pub zeros : ℕ
  pub whole : v ≡ head * 10 ^ zeros
  pub held : head ≤ 10 ^ 28

pub round_nat-IsWhole : (n : ℕ) → IsWhole (round_nat n)
round_nat-IsWhole n = elim (round_cases n) [
  | inl small ↦ record {
    head = n;
    zeros = 0;
    whole = omega (arith, small.1);
    held = omega (arith, small.0);
  }
  | inr large ↦
      let c = long-IsCut n large.0 large.1 large.2 in
      record {
        head = half_even n large.0;
        zeros = large.0;
        whole = c.cut;
        held = half_even_upper (10 ^ 28) n large.0 c.short;
      }
]

-- A multiple of the unit is its own cut.
kept_cut : (v q k : ℕ) → IsCut v k → v ≡ q * 10 ^ k → round_nat v ≡ v
kept_cut v q k c e = c.cut ∙ rw e (ap (λ h. h * 10 ^ k) (half_even_exact q k))

-- ten ^ j as a multiple of a smaller power
pub power_split : (j k : ℕ) → k ≤ j → 10 ^ j ≡ 10 ^ (j - k) * 10 ^ k
power_split j k h = ap (λ i. 10 ^ i) (omega arith) ∙ pow_add (j - k) k

kept_below : (v : ℕ) (w : IsWhole v) (k : ℕ) → IsCut v k → k ≤ w.zeros → round_nat v ≡ v
kept_below v w k c le =
    kept_cut v (w.head * 10 ^ (w.zeros - k)) k c
      (w.whole ∙ ap (λ p. w.head * p) (power_split w.zeros k le) ∙ sym (mul_assoc w.head _ _))

-- Where the cut is longer than the zeros, the head is 10 ^ 28 itself.
kept_above : (v : ℕ) (w : IsWhole v) (k : ℕ) → IsCut v k → suc w.zeros ≤ k → round_nat v ≡ v
kept_above v w k c lt = kept_cut v (10 ^ 27) k c (
    omega (arith, c.long, w.whole, mul-le-mul_right (10 ^ w.zeros) w.held, power_step w.zeros k lt))

pub whole_kept : (v : ℕ) → IsWhole v → round_nat v ≡ v
whole_kept v w = elim (round_cases v) [
  | inl small ↦ small.1
  | inr large ↦
      let c = long-IsCut v large.0 large.1 large.2 in
      elim (Bool-cases (ltb w.zeros large.0)) [
        | inl above ↦ kept_above v w large.0 c (omega tests)
        | inr below ↦ kept_below v w large.0 c (omega tests)
      ]
]

-- Rounding does not cross a number that 28 digits hold.
pub round_nat-le : (n v : ℕ) → IsWhole v → n ≤ v → round_nat n ≤ v
round_nat-le n v w h = omega (arith, round_nat_mono n v h, whole_kept v w)

pub le-round_nat : (n v : ℕ) → IsWhole v → v ≤ n → v ≤ round_nat n
le-round_nat n v w h = omega (arith, round_nat_mono v n h, whole_kept v w)

-- A number is kept, or its rounding has more than 28 digits.
pub kept_or_large : (n : ℕ) → (round_nat n ≡ n) ⊎ (10 ^ 28 ≤ round_nat n)
kept_or_large n = elim (round_cases n) [
  | inl small ↦ inl small.1
  | inr large ↦ inr (
      omega (
        arith,
        power_step 0 large.0 large.1,
        (cut_bounds n large.0 (long-IsCut n large.0 large.1 large.2)).0,
      ))
]
