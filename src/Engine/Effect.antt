-- ===== src/Engine/Effect.antt =====
-- `_build_order_effect` of risk/engine.py: the account after the order, at the reference price.
use ta_model_v.Base.{Bool, true}
use ta_model_v.Decimal.{Decimal, of_nat}
use ta_model_v.Decimal
use ta_model_v.Contracts.Order.{OrderSide, buy, sell}
use ta_model_v.Contracts.Risk.{RiskCheckRequest, OrderEffect}

-- One exposure after an order of the given notional; a sale does not take it below zero.
abbrev pub exposure_after : OrderSide → Decimal → Decimal → Decimal
exposure_after buy current notional = Decimal.add current notional
exposure_after sell current notional = Decimal.max (of_nat 0) (Decimal.sub current notional)

abbrev pub position_after : OrderSide → Decimal → Decimal → Decimal
position_after buy current quantity = Decimal.add current quantity
position_after sell current quantity = Decimal.sub current quantity

abbrev pub cash_after : OrderSide → Decimal → Decimal → Decimal
cash_after buy current notional = Decimal.sub current notional
cash_after sell current notional = Decimal.add current notional

-- A sale increases the risk only where it would leave a negative position.
abbrev pub increases_risk : OrderSide → Decimal → Bool
increases_risk buy position = true
increases_risk sell position = Decimal.lt position (of_nat 0)

unfoldable pub build_order_effect : RiskCheckRequest → OrderEffect
build_order_effect request =
    let intent = request.order_intent in
    let notional = Decimal.mul intent.quantity request.reference_price in
    let position =
      position_after intent.side request.current_instrument_position_quantity intent.quantity in
    let cash = cash_after intent.side request.current_cash notional in
    record {
      side = intent.side;
      quantity = intent.quantity;
      reference_price = request.reference_price;
      proposed_notional = notional;
      resulting_position_quantity = position;
      resulting_position_notional =
          Decimal.max (of_nat 0) (Decimal.mul position request.reference_price);
      resulting_cash = cash;
      resulting_instrument_exposure_notional =
          exposure_after intent.side request.current_instrument_exposure_notional notional;
      resulting_strategy_exposure_notional =
          exposure_after intent.side request.current_strategy_exposure_notional notional;
      resulting_total_spot_exposure_notional =
          exposure_after intent.side request.current_total_spot_exposure_notional notional;
      cash_reserve_pct = Decimal.div cash request.account_equity;
      risk_increasing = increases_risk intent.side position;
    }
