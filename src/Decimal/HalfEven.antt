-- ===== src/Decimal/HalfEven.antt =====
-- Rounding to a unit, half to even: it is monotone, and it keeps the multiples of the unit.
use native.Mathlib.Nat.{
  div-add-mod', le-div_iff_mul-le, div-mul-le_self, mul-div_cancel, mul-mod_left, div-lt_iff_lt-mul,
  one-le-pow,
}
use ta_model_v.Base.{
  ℕ, ◌+◌, ◌*◌, ◌/◌, ◌%◌, ◌^◌, ◌≤◌, ◌<◌, ◌≡◌, refl, ap, arith, tests, ltb, ◌==◌, ◌&&◌, ◌||◌,
  if◌then◌else◌, Bool-cases, inl, inr, ◌⊎◌,
}
use ta_model_v.Decimal.{half_even}

-- Rounding from a quotient and a remainder.
abbrev pub rounded : ℕ → ℕ → ℕ → ℕ
rounded unit q r = if ltb unit (2 * r) || (2 * r == unit && q % 2 == 1) then q + 1 else q

rounded_lower : (unit q r : ℕ) → q ≤ rounded unit q r
rounded_lower unit q r = ground arith

rounded_upper : (unit q r : ℕ) → rounded unit q r ≤ q + 1
rounded_upper unit q r = ground arith

rounded_mono_remainder : (unit q r r' : ℕ) → r ≤ r' → rounded unit q r ≤ rounded unit q r'
rounded_mono_remainder unit q r r' h = ground arith

half_even-rounded : (n k : ℕ) → half_even n k ≡ rounded (10 ^ k) (n / 10 ^ k) (n % 10 ^ k)
unfolding half_even
half_even-rounded n k = refl

unit_pos : (k : ℕ) → 0 < 10 ^ k
unit_pos k = one-le-pow k 10 (omega arith)

div_mono : (m n k : ℕ) → m ≤ n → m / 10 ^ k ≤ n / 10 ^ k
div_mono m n k h = (le-div_iff_mul-le (unit_pos k)).1 (omega (arith, div-mul-le_self m (10 ^ k)))

le_cases : (m n : ℕ) → m ≤ n → (m ≡ n) ⊎ (m < n)
le_cases m n h = elim (Bool-cases (ltb m n)) [
  | inl l ↦ inr (omega tests)
  | inr g ↦ inl (omega tests)
]

rounded_mono :
    (unit q r q' r' : ℕ) → q ≤ q' → (q ≡ q' → r ≤ r') → rounded unit q r ≤ rounded unit q' r'
rounded_mono unit q r q' r' h k = elim (le_cases q q' h) [
  | inl same ↦ rw same (rounded_mono_remainder unit q' r r' (k same))
  | inr below ↦ omega (arith, rounded_upper unit q r, rounded_lower unit q' r')
]

-- A larger number is not rounded to a smaller multiple.
pub half_even_mono : (m n k : ℕ) → m ≤ n → half_even m k ≤ half_even n k
half_even_mono m n k h =
    rw (half_even-rounded m k, half_even-rounded n k)
      (rounded_mono (10 ^ k) (m / 10 ^ k) (m % 10 ^ k) (n / 10 ^ k) (n % 10 ^ k) (div_mono m n k h)
        λ same. omega (
          arith,
          div-add-mod' m (10 ^ k),
          div-add-mod' n (10 ^ k),
          ap (λ (q : ℕ). q * 10 ^ k) same,
        ))

rounded_whole : (unit q : ℕ) → 0 < unit → rounded unit q 0 ≡ q
rounded_whole unit q h = ground arith

-- A multiple of the unit is kept.
pub half_even_exact : (h k : ℕ) → half_even (h * 10 ^ k) k ≡ h
half_even_exact h k =
    rw (half_even-rounded (h * 10 ^ k) k, mul-div_cancel h (unit_pos k), mul-mod_left h (10 ^ k))
      (rounded_whole (10 ^ k) h (unit_pos k))

-- Rounding stays between whole bounds.
pub half_even_lower : (c n k : ℕ) → c * 10 ^ k ≤ n → c ≤ half_even n k
half_even_lower c n k h = rw (half_even-rounded n k) (
    omega (
      arith,
      (le-div_iff_mul-le {x = c} {y = n} (unit_pos k)).1 h,
      rounded_lower (10 ^ k) (n / 10 ^ k) (n % 10 ^ k),
    ))

pub half_even_upper : (c n k : ℕ) → n < c * 10 ^ k → half_even n k ≤ c
half_even_upper c n k h = rw (half_even-rounded n k) (
    omega (
      arith,
      (div-lt_iff_lt-mul {x = n} {y = c} (unit_pos k)).1 h,
      rounded_upper (10 ^ k) (n / 10 ^ k) (n % 10 ^ k),
    ))
