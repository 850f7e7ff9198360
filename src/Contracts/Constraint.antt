-- ===== src/Contracts/Constraint.antt =====
-- `InstrumentConstraint.evaluate_order` of contracts/instrument_master.py: an order's price and
-- quantity against the venue's tick, lot and notional bounds.
use ta_model_v.Base.{
  ℕ, ◌*◌, ◌^◌, ◌/◌, String, Bool, true, false, Option, none, some, List, [], ◌∷◌, ◌++◌, is_nonempty,
  not, ◌&&◌, if◌then◌else◌, leb,
}
use ta_model_v.Base.Int.{abs}
use ta_model_v.Decimal.{Decimal, of_nat}
use ta_model_v.Decimal
use ta_model_v.Contracts.Result.{Result, ok, require, ◌>>=◌, ◌>>◌, invalid_operation}
use ta_model_v.Contracts.Instrument.{InstrumentConstraint}
use ta_model_v.Contracts.Risk.{is_positive}

pub data ConstraintViolation : Type 0 where
  non_positive_price price_not_on_tick non_positive_quantity quantity_below_minimum
        quantity_not_on_lot quantity_above_maximum notional_below_minimum notional_above_maximum :
      ConstraintViolation

pub record ConstraintValidationResult : Type 0 where
  pub instrument_id : String
  pub price : Decimal
  pub quantity : Decimal
  pub notional : Decimal
  pub passed : Bool
  pub reason_codes : List ConstraintViolation

-- The integer part of a quotient, in absolute value, for a divisor that is not zero.
abbrev pub whole_quotient : Decimal → Decimal → ℕ
whole_quotient a b = abs a.mantissa * 10 ^ b.scale / (abs b.mantissa * 10 ^ a.scale)

-- `_is_decimal_multiple`: `%` raises where the whole quotient has more than 28 digits.
unfoldable pub is_decimal_multiple : Decimal → Decimal → Result Bool
is_decimal_multiple value increment =
    if is_positive increment
    then (do
      require (not (leb (10 ^ Decimal.precision) (whole_quotient value increment)))
          (invalid_operation "DivisionImpossible")
      ok (Decimal.is_multiple value increment))
    else ok false

abbrev pub code_if : Bool → ConstraintViolation → List ConstraintViolation
code_if true code = code ∷ []
code_if false code = []

abbrev pub above : Decimal → Option Decimal → Bool
above value none = false
above value (some bound) = Decimal.lt bound value

-- `self.min_order_quantity or self.lot_size`: zero is falsy.
abbrev pub minimum_quantity : InstrumentConstraint → Option Decimal → Decimal
minimum_quantity c none = c.lot_size
minimum_quantity c (some q) = if Decimal.eq q (of_nat 0) then c.lot_size else q

unfoldable pub price_codes : InstrumentConstraint → Decimal → Result (List ConstraintViolation)
price_codes c price = if Decimal.le price (of_nat 0) then ok (non_positive_price ∷ []) else (do
  on_tick ← is_decimal_multiple price c.tick_size
  ok (code_if (not on_tick) price_not_on_tick))

unfoldable pub quantity_codes : InstrumentConstraint → Decimal → Result (List ConstraintViolation)
quantity_codes c quantity =
    if Decimal.le quantity (of_nat 0) then ok (non_positive_quantity ∷ []) else (do
      on_lot ← is_decimal_multiple quantity c.lot_size
      ok (
          code_if (Decimal.lt quantity (minimum_quantity c c.min_order_quantity))
            quantity_below_minimum
          ++ (code_if (not on_lot) quantity_not_on_lot
              ++ code_if (above quantity c.max_order_quantity) quantity_above_maximum)))

unfoldable pub notional_codes :
    InstrumentConstraint → Decimal → Decimal → Decimal → List ConstraintViolation
notional_codes c price quantity notional =
    if is_positive price && is_positive quantity
    then code_if (Decimal.lt notional c.min_notional) notional_below_minimum
      ++ code_if (above notional c.max_order_notional) notional_above_maximum
    else []

unfoldable pub evaluate_order :
    InstrumentConstraint → Decimal → Decimal → Result ConstraintValidationResult
evaluate_order c price quantity = do
  let notional = Decimal.mul price quantity
  of_price ← price_codes c price
  of_quantity ← quantity_codes c quantity
  let codes = of_price ++ (of_quantity ++ notional_codes c price quantity notional)
  ok (record {
    instrument_id = c.instrument_id;
    price = price;
    quantity = quantity;
    notional = notional;
    passed = not (is_nonempty codes);
    reason_codes = codes;
  })
