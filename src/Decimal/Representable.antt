-- ===== src/Decimal/Representable.antt =====
-- Rounding a decimal does not cross a value that is itself a result of rounding.
use native.Mathlib.Nat.{
  mul-le-mul_right, le_of_mul-le-mul_right, one-le-pow, mul_assoc, le-mul_of_pos_right,
}
use ta_model_v.Base.{
  ℕ, ◌+◌, ◌-◌, ◌*◌, ◌^◌, ◌≤◌, ◌<◌, ◌≡◌, refl, sym, ap, ◌∙◌, arith, tests, ltb, Bool-cases, inl, inr,
}
use ta_model_v.Decimal.{round_nat}
use ta_model_v.Decimal.Digits.{
  IsWhole, round_nat-le, le-round_nat, whole_kept, pow_add, power_split, kept_or_large,
}

unit_pos : (k : ℕ) → 0 < 10 ^ k
unit_pos k = one-le-pow k 10 (omega arith)

-- A whole number, moved up by zeros.
raised : (v d : ℕ) → IsWhole v → IsWhole (v * 10 ^ d)
raised v d w = record {
  head = w.head;
  zeros = w.zeros + d;
  whole =
      ap (λ p. p * 10 ^ d) w.whole
      ∙ mul_assoc w.head (10 ^ w.zeros) (10 ^ d)
      ∙ ap (λ p. w.head * p) (sym (pow_add w.zeros d));
  held = w.held;
}

pub small-IsWhole : (n : ℕ) → n ≤ 10 ^ 28 → IsWhole n
small-IsWhole n h = record { head = n; zeros = 0; whole = omega arith; held = h }

-- `v` is `q * 10 ^ d` for a whole `q`, where it has that many zeros.
lowered : (v d : ℕ) (w : IsWhole v) → d ≤ w.zeros → (q : ℕ) × IsWhole q × (v ≡ q * 10 ^ d)
lowered v d w h =
    let q = w.head * 10 ^ (w.zeros - d) in
    (
      q,
      record { head = w.head; zeros = w.zeros - d; whole = refl; held = w.held },
      w.whole ∙ ap (λ p. w.head * p) (power_split w.zeros d h) ∙ sym (mul_assoc w.head _ _),
    )

cancel : (a b k : ℕ) → a * 10 ^ k ≤ b * 10 ^ k → a ≤ b
cancel a b k h = le_of_mul-le-mul_right {m = a} {n = b} {k = 10 ^ k} h (unit_pos k)

-- n * 10 ^ d ≤ v, in units of which v has zeros to spare or not.
below_lowered : (n v d : ℕ) → IsWhole v → n * 10 ^ d ≤ v → round_nat n * 10 ^ d ≤ v
below_lowered n v d w h = elim (Bool-cases (ltb w.zeros d)) [
  | inl more ↦
      let split = power_split d w.zeros (omega tests) in
      let shrunk : n * 10 ^ (d - w.zeros) ≤ w.head =
        cancel (n * 10 ^ (d - w.zeros)) w.head w.zeros (
          omega (
            arith,
            h,
            w.whole,
            ap (λ p. n * p) split,
            mul_assoc n (10 ^ (d - w.zeros)) (10 ^ w.zeros),
          )) in
      let small : n ≤ 10 ^ 28 =
        omega
          (arith, shrunk, w.held, le-mul_of_pos_right {m = 10 ^ (d - w.zeros)} n (unit_pos _)) in
      rw (whole_kept n (small-IsWhole n small)) h
  | inr fewer ↦
      let (q, wq, e) = lowered v d w (omega tests) in
      rw e (mul-le-mul_right (10 ^ d) (round_nat-le n q wq (cancel n q d (omega (arith, h, e)))))
]

-- A head of 28 digits is at most a larger number over any power.
head_below : {h : ℕ} (n d : ℕ) → 10 ^ 28 ≤ n → h ≤ 10 ^ 28 → h ≤ n * 10 ^ d
head_below n d large held =
    omega (arith, large, held, le-mul_of_pos_right {m = 10 ^ d} n (unit_pos d))

above_lowered : (n v d : ℕ) → IsWhole v → v ≤ n * 10 ^ d → v ≤ round_nat n * 10 ^ d
above_lowered n v d w h = elim (kept_or_large n) [
  | inl kept ↦ rw kept h
  | inr large ↦ elim (Bool-cases (ltb w.zeros d)) [
    | inl more ↦ omega (
      arith,
      w.whole,
      mul-le-mul_right (10 ^ w.zeros) (head_below (round_nat n) (d - w.zeros) large w.held),
      ap (λ p. round_nat n * p) (power_split d w.zeros (omega tests)),
      mul_assoc (round_nat n) (10 ^ (d - w.zeros)) (10 ^ w.zeros),
    )
    | inr fewer ↦
        let (q, wq, e) = lowered v d w (omega tests) in
        rw e (mul-le-mul_right (10 ^ d) (le-round_nat n q wq (cancel q n d (omega (arith, h, e)))))
  ]
]

-- n / 10 ^ t against v / 10 ^ s, for a whole `v`: the rounded numerator does not cross it.
pub cross_upper :
    (n v s t : ℕ) → IsWhole v → n * 10 ^ s ≤ v * 10 ^ t → round_nat n * 10 ^ s ≤ v * 10 ^ t
cross_upper n v s t w h = elim (Bool-cases (ltb t s)) [
  | inl finer ↦
      let split = power_split s t (omega tests) in
      let low =
        cancel (n * 10 ^ (s - t)) v t
          (omega (arith, h, ap (λ p. n * p) split, mul_assoc n (10 ^ (s - t)) (10 ^ t))) in
      omega (
        arith,
        mul-le-mul_right (10 ^ t) (below_lowered n v (s - t) w low),
        ap (λ p. round_nat n * p) split,
        mul_assoc (round_nat n) (10 ^ (s - t)) (10 ^ t),
      )
  | inr coarser ↦
      let split = power_split t s (omega tests) in
      let high =
        cancel n (v * 10 ^ (t - s)) s
          (omega (arith, h, ap (λ p. v * p) split, mul_assoc v (10 ^ (t - s)) (10 ^ s))) in
      omega (
        arith,
        mul-le-mul_right (10 ^ s) (round_nat-le n (v * 10 ^ (t - s)) (raised v (t - s) w) high),
        ap (λ p. v * p) split,
        mul_assoc v (10 ^ (t - s)) (10 ^ s),
      )
]

pub cross_lower :
    (n v s t : ℕ) → IsWhole v → v * 10 ^ t ≤ n * 10 ^ s → v * 10 ^ t ≤ round_nat n * 10 ^ s
cross_lower n v s t w h = elim (Bool-cases (ltb t s)) [
  | inl finer ↦
      let split = power_split s t (omega tests) in
      let low =
        cancel v (n * 10 ^ (s - t)) t
          (omega (arith, h, ap (λ p. n * p) split, mul_assoc n (10 ^ (s - t)) (10 ^ t))) in
      omega (
        arith,
        mul-le-mul_right (10 ^ t) (above_lowered n v (s - t) w low),
        ap (λ p. round_nat n * p) split,
        mul_assoc (round_nat n) (10 ^ (s - t)) (10 ^ t),
      )
  | inr coarser ↦
      let split = power_split t s (omega tests) in
      let high =
        cancel (v * 10 ^ (t - s)) n s
          (omega (arith, h, ap (λ p. v * p) split, mul_assoc v (10 ^ (t - s)) (10 ^ s))) in
      omega (
        arith,
        mul-le-mul_right (10 ^ s) (le-round_nat n (v * 10 ^ (t - s)) (raised v (t - s) w) high),
        ap (λ p. v * p) split,
        mul_assoc v (10 ^ (t - s)) (10 ^ s),
      )
]
