-- ===== src/Replay/Allowed.antt =====
-- Which orders `InstrumentConstraint.evaluate_order` (contracts/instrument_master.py) passes.
use ta_model_v.Base.{
  Bool, true, Option, none, some, List, [], ◌∷◌, ◌++◌, is_nonempty, not, ◌&&◌, ◌||◌, ◌≡◌, refl,
  arith, Bool-cases, inl, inr,
}
use ta_model_v.Decimal.{Decimal, of_nat}
use ta_model_v.Decimal
use ta_model_v.Contracts.Result.{ok}
use ta_model_v.Contracts.Instrument.{InstrumentConstraint}
use ta_model_v.Contracts.Risk.{is_positive}
use ta_model_v.Contracts.Constraint.{
  ConstraintViolation, price_not_on_tick, quantity_below_minimum, quantity_not_on_lot,
  quantity_above_maximum, notional_below_minimum, notional_above_maximum,
  ConstraintValidationResult, is_decimal_multiple, code_if, above, minimum_quantity, price_codes,
  quantity_codes, notional_codes, evaluate_order,
}
use ta_model_v.Contracts.Ensures.{Ensures, Ensures-bind, Ensures_elim}

-- A price above zero on the tick.
abbrev pub price_fits : InstrumentConstraint → Decimal → Bool
price_fits c price =
    is_positive price && is_positive c.tick_size && Decimal.is_multiple price c.tick_size

-- At most a bound, where there is one.
abbrev pub within : Decimal → Option Decimal → Bool
within value none = true
within value (some bound) = Decimal.le value bound

-- A quantity above zero on the lot, between the minimum and the maximum.
abbrev pub quantity_fits : InstrumentConstraint → Decimal → Bool
quantity_fits c quantity =
    is_positive quantity
    && Decimal.le (minimum_quantity c c.min_order_quantity) quantity
    && is_positive c.lot_size
    && Decimal.is_multiple quantity c.lot_size
    && within quantity c.max_order_quantity

abbrev pub notional_fits : InstrumentConstraint → Decimal → Bool
notional_fits c notional =
    Decimal.le c.min_notional notional && within notional c.max_order_notional

-- The order fits the tick, the lot, and the bounds of quantity and notional.
abbrev pub is_allowed : InstrumentConstraint → Decimal → Decimal → Bool
is_allowed c price quantity =
    price_fits c price && quantity_fits c quantity && notional_fits c (Decimal.mul price quantity)

nonempty-code_if : (b : Bool) (v : ConstraintViolation) → is_nonempty (code_if b v) ≡ b
nonempty-code_if b v = ground arith

two_codes :
    (x y : Bool) (v w : ConstraintViolation) → is_nonempty (code_if x v ++ code_if y w) ≡ (x || y)
two_codes x y v w = ground arith

three_codes :
    (x y z : Bool) (v w u : ConstraintViolation)
    → is_nonempty (code_if x v ++ (code_if y w ++ code_if z u)) ≡ (x || y || z)
three_codes x y z v w u = ground arith

nonempty-append :
    {A : Type 0} (xs ys : List A) → is_nonempty (xs ++ ys) ≡ (is_nonempty xs || is_nonempty ys)
nonempty-append [] ys = refl
nonempty-append (x ∷ xs) ys = refl

above-within :
    (value : Decimal) (bound : Option Decimal) → above value bound ≡ not (within value bound)
above-within value bound = ground arith

multiple-Ensures :
    (value increment : Decimal)
    → Ensures
        (λ b. b ≡ (is_positive increment && Decimal.is_multiple value increment))
        (is_decimal_multiple value increment)
unfolding is_decimal_multiple
multiple-Ensures value increment = ground arith

module _ (c : InstrumentConstraint) (price quantity : Decimal) where
  price_codes-Ensures :
      Ensures (λ codes. is_nonempty codes ≡ not (price_fits c price)) (price_codes c price)
  unfolding price_codes
  price_codes-Ensures = elim (Bool-cases (is_positive price)) [
    | inl positive ↦ rw positive (
        Ensures-bind (λ b. b ≡ (is_positive c.tick_size && Decimal.is_multiple price c.tick_size)) _
          (is_decimal_multiple price c.tick_size) _ (multiple-Ensures price c.tick_size)
          λ b same. ground (arith, same, nonempty-code_if (not b) price_not_on_tick))
    | inr other ↦ rw other refl
  ]

  quantity_codes-Ensures :
      Ensures
        (λ codes. is_nonempty codes ≡ not (quantity_fits c quantity))
        (quantity_codes c quantity)
  unfolding quantity_codes
  quantity_codes-Ensures = elim (Bool-cases (is_positive quantity)) [
    | inl positive ↦ rw positive (
        Ensures-bind (λ b. b ≡ (is_positive c.lot_size && Decimal.is_multiple quantity c.lot_size))
          _ (is_decimal_multiple quantity c.lot_size) _ (multiple-Ensures quantity c.lot_size)
          λ b same. ground (
            arith,
            same,
            three_codes (Decimal.lt quantity (minimum_quantity c c.min_order_quantity)) (not b)
                (above quantity c.max_order_quantity) quantity_below_minimum quantity_not_on_lot
                quantity_above_maximum,
            above-within quantity c.max_order_quantity,
          ))
    | inr other ↦ rw other refl
  ]

  notional-codes :
      is_positive price ≡ true
      → is_positive quantity ≡ true
      → is_nonempty (notional_codes c price quantity (Decimal.mul price quantity))
        ≡ not (notional_fits c (Decimal.mul price quantity))
  unfolding notional_codes
  notional-codes p q =
      let notional = Decimal.mul price quantity in
      rw (p, q)
        (ground (
          arith,
          two_codes (Decimal.lt notional c.min_notional) (above notional c.max_order_notional)
              notional_below_minimum notional_above_maximum,
          above-within notional c.max_order_notional,
        ))

  -- The codes of price, quantity and notional together.
  all_codes :
      (of_price of_quantity : List ConstraintViolation)
      → is_nonempty of_price ≡ not (price_fits c price)
      → is_nonempty of_quantity ≡ not (quantity_fits c quantity)
      → not (
          is_nonempty (
            of_price
            ++ (of_quantity ++ notional_codes c price quantity (Decimal.mul price quantity))))
        ≡ is_allowed c price quantity
  all_codes of_price of_quantity h k =
      let of_notional = notional_codes c price quantity (Decimal.mul price quantity) in
      ground (
        arith,
        h,
        k,
        notional-codes,
        nonempty-append of_price (of_quantity ++ of_notional),
        nonempty-append of_quantity of_notional,
      )

  evaluate-Ensures :
      Ensures (λ r. r.passed ≡ is_allowed c price quantity) (evaluate_order c price quantity)
  unfolding evaluate_order
  evaluate-Ensures =
      Ensures-bind (λ codes. is_nonempty codes ≡ not (price_fits c price)) _ (price_codes c price) _
        price_codes-Ensures
        λ of_price h.
          Ensures-bind (λ codes. is_nonempty codes ≡ not (quantity_fits c quantity)) _
            (quantity_codes c quantity) _ quantity_codes-Ensures
            λ of_quantity k. all_codes of_price of_quantity h k

  pub order_passed_iff :
      {r : ConstraintValidationResult}
      → evaluate_order c price quantity ≡ ok r
      → r.passed ≡ is_allowed c price quantity
  order_passed_iff returned =
      Ensures_elim (λ r. r.passed ≡ is_allowed c price quantity) _ evaluate-Ensures returned
