-- ===== src/Decimal/Difference.antt =====
-- Differences that rounding leaves as they are.
use ta_model_v.Base.{ℕ, ◌+◌, ◌^◌, ◌≡◌, refl, ap, ◌∙◌, true, arith}
use ta_model_v.Base.Int.{ℤ, pos_part, neg_part, pos, ◌-ℤ◌, ◌*ℤ◌}
use ta_model_v.Decimal.{Decimal, round, round_nat, eq, of_nat, sub, aligned}
use ta_model_v.Decimal.Order.{lt_irrefl}
use ta_model_v.Decimal.Rounding.{lt-sub-zero, zero-lt-sub}
use ta_model_v.Decimal.Sign.{neg_part-round}
use ta_model_v.Decimal.Digits.{whole_kept}
use ta_model_v.Decimal.Bounds.{IsHeld, AtMost-of_cross, pos_part-round, scale-round}

pub eq_self : (a : Decimal) → eq a a ≡ true
eq_self a = rw (lt_irrefl a) refl

-- `a - a` is 0.
pub zero-sub_self : (a : Decimal) → eq (of_nat 0) (sub a a) ≡ true
zero-sub_self a = rw (zero-lt-sub a a, lt-sub-zero a a, lt_irrefl a) refl

minus_zero_parts :
    (x : ℤ) (k : ℕ)
    → neg_part x ≡ 0
    → (pos_part (x *ℤ pos 1 -ℤ pos 0 *ℤ pos k) ≡ pos_part x)
      × (neg_part (x *ℤ pos 1 -ℤ pos 0 *ℤ pos k) ≡ 0)
unfolding ◌-ℤ◌ ◌*ℤ◌
minus_zero_parts x k h = ground arith

module _ (q : Decimal) (held : IsHeld q) where
  -- The difference before it is rounded.
  abbrev exact : Decimal
  exact = record { mantissa = aligned q (of_nat 0) -ℤ aligned (of_nat 0) q; scale = q.scale + 0 }

  kept : pos_part (round exact).mantissa ≡ pos_part q.mantissa
  kept =
      let parts = minus_zero_parts q.mantissa (10 ^ q.scale) held.nonneg in
      pos_part-round exact parts.1 ∙ ap round_nat parts.0 ∙ whole_kept _ held.whole

  kept_nonneg : neg_part (round exact).mantissa ≡ 0
  kept_nonneg = neg_part-round exact (minus_zero_parts q.mantissa (10 ^ q.scale) held.nonneg).1

  kept_scale : (round exact).scale ≡ q.scale
  kept_scale = scale-round exact ∙ omega arith

  -- `q - 0` is `q`, where 28 digits hold it.
  pub sub-zero_kept : eq q (sub q (of_nat 0)) ≡ true
  unfolding sub
  sub-zero_kept =
      let below =
        AtMost-of_cross (round exact) q kept_nonneg held.nonneg
          (rw (kept, kept_scale) omega arith) in
      let above =
        AtMost-of_cross q (round exact) held.nonneg kept_nonneg
          (rw (kept, kept_scale) omega arith) in
      rw (below, above) refl
