-- ===== src/Engine/ExposureLimits.antt =====
-- The limits on one order and on the positions: price collar, notional, exposures, oversell.
use ta_model_v.Base.{Option, none, some, not, ◌&&◌, ◌||◌, if◌then◌else◌}
use ta_model_v.Decimal.{Decimal, of_nat}
use ta_model_v.Decimal
use ta_model_v.Contracts.Instrument.{
  Account, AccountRiskLimits, InstrumentConstraint, market, order_type_eq,
}
use ta_model_v.Contracts.Order.{OrderSide, buy, sell}
use ta_model_v.Contracts.Policy.{RiskPolicy}
use ta_model_v.Contracts.Risk.{
  price_collar, max_notional, instrument_exposure, strategy_exposure, total_spot_exposure,
  no_oversell, soft_breach, hard_breach, order_price_collar_soft, order_price_collar_hard,
  order_max_notional_soft, order_max_notional_hard, position_instrument_exposure_soft,
  position_instrument_exposure_hard, position_strategy_exposure_soft,
  position_strategy_exposure_hard, position_total_spot_exposure_soft,
  position_total_spot_exposure_hard, cash_reserve_hard, no_short_or_oversell, RiskLimitEvaluation,
  OrderEffect, RiskCheckRequest,
}
use ta_model_v.Engine.Evaluation.{evaluation, pass_at, breach_at, cap_at, threshold_evaluation}
use ta_model_v.Engine.Metadata.{MetadataView}

unfoldable pub price_collar_evaluation : RiskCheckRequest → RiskPolicy → RiskLimitEvaluation
unfolding evaluation
price_collar_evaluation request policy =
    let telemetry = request.price_risk in
    let hard = policy.price_collar_hard_bps in
    let soft = policy.price_collar_soft_bps in
    let current = telemetry.price_deviation_bps in
    if not telemetry.reference_price_available
    then breach_at price_collar current hard hard_breach order_price_collar_hard (some soft)
    else if Decimal.lt hard current
        || order_type_eq request.order_intent.order_type market && Decimal.lt soft current
    then breach_at price_collar current hard hard_breach order_price_collar_hard (some soft)
    else if Decimal.lt soft current
    then breach_at price_collar current hard soft_breach order_price_collar_soft (some soft)
    else pass_at price_collar current hard (some soft)

-- `account.risk_limits.x if account is not None else default`
abbrev pub account_limit : Option Account → (AccountRiskLimits → Decimal) → Decimal → Decimal
account_limit none limit default = default
account_limit (some a) limit default = limit a.risk_limits

-- A hard limit: the lower of the policy's and the account's share of the net asset value.
abbrev pub hard_share : RiskPolicy → Decimal → Decimal → Decimal
hard_share policy policy_pct account_pct =
    Decimal.min (Decimal.mul policy.paper_nav policy_pct) (Decimal.mul policy.paper_nav account_pct)

abbrev pub constraint_notional : Option InstrumentConstraint → Option Decimal
constraint_notional none = none
constraint_notional (some c) = c.max_order_notional

abbrev pub min_with : Decimal → Option Decimal → Decimal
min_with d none = d
min_with d (some e) = Decimal.min d e

unfoldable pub order_notional_limit : RiskPolicy → MetadataView → Decimal
order_notional_limit policy m =
    min_with
      (hard_share policy policy.max_order_notional_hard_pct (
        account_limit m.account (λ l. l.max_order_notional_pct) policy.max_order_notional_hard_pct))
      (constraint_notional m.constraint)

unfoldable pub order_notional_evaluation :
    RiskPolicy → MetadataView → OrderEffect → RiskLimitEvaluation
unfolding evaluation
order_notional_evaluation policy m effect =
    let hard = order_notional_limit policy m in
    let soft = Decimal.mul policy.paper_nav policy.max_order_notional_soft_pct in
    let current = effect.proposed_notional in
    if not effect.risk_increasing
    then pass_at max_notional current hard none
    else if Decimal.lt hard current
    then breach_at max_notional current hard hard_breach order_max_notional_hard (some soft)
    else if Decimal.lt soft current
    then cap_at max_notional current hard order_max_notional_soft soft soft
    else pass_at max_notional current hard (some soft)

unfoldable pub instrument_exposure_limit : RiskPolicy → MetadataView → Decimal
instrument_exposure_limit policy m = hard_share policy policy.max_instrument_exposure_hard_pct (
    account_limit m.account (λ l. l.max_instrument_exposure_pct)
      policy.max_instrument_exposure_hard_pct)

unfoldable pub instrument_exposure_evaluation :
    RiskPolicy → MetadataView → OrderEffect → RiskLimitEvaluation
unfolding threshold_evaluation
instrument_exposure_evaluation policy m effect =
    let hard = instrument_exposure_limit policy m in
    let soft = Decimal.mul policy.paper_nav policy.max_instrument_exposure_soft_pct in
    let current = effect.resulting_instrument_exposure_notional in
    if not effect.risk_increasing
    then pass_at instrument_exposure current hard (some soft)
    else threshold_evaluation instrument_exposure current soft hard
        position_instrument_exposure_soft position_instrument_exposure_hard

unfoldable pub strategy_exposure_limit : RiskPolicy → MetadataView → Decimal
strategy_exposure_limit policy m = hard_share policy policy.max_strategy_exposure_hard_pct (
    account_limit m.account (λ l. l.max_strategy_exposure_pct)
      policy.max_strategy_exposure_hard_pct)

unfoldable pub strategy_exposure_evaluation :
    RiskPolicy → MetadataView → OrderEffect → RiskLimitEvaluation
unfolding threshold_evaluation
strategy_exposure_evaluation policy m effect =
    let hard = strategy_exposure_limit policy m in
    let soft = Decimal.mul policy.paper_nav policy.max_strategy_exposure_soft_pct in
    let current = effect.resulting_strategy_exposure_notional in
    if not effect.risk_increasing
    then pass_at strategy_exposure current hard (some soft)
    else threshold_evaluation strategy_exposure current soft hard position_strategy_exposure_soft
        position_strategy_exposure_hard

unfoldable pub total_spot_exposure_limit : RiskPolicy → MetadataView → Decimal
total_spot_exposure_limit policy m = hard_share policy policy.max_total_spot_exposure_hard_pct (
    account_limit m.account (λ l. l.max_total_spot_exposure_pct)
      policy.max_total_spot_exposure_hard_pct)

-- The cash that an order may not dip into: the higher of the two reserves.
unfoldable pub cash_reserve : RiskPolicy → MetadataView → Decimal
cash_reserve policy m = Decimal.max (Decimal.mul policy.paper_nav policy.min_cash_reserve_pct) (
    Decimal.mul policy.paper_nav
      (account_limit m.account (λ l. l.min_cash_reserve_pct) policy.min_cash_reserve_pct))

unfoldable pub total_spot_exposure_evaluation :
    RiskPolicy → MetadataView → OrderEffect → RiskLimitEvaluation
unfolding threshold_evaluation
total_spot_exposure_evaluation policy m effect =
    let hard = total_spot_exposure_limit policy m in
    let soft = Decimal.mul policy.paper_nav policy.max_total_spot_exposure_soft_pct in
    let reserve = cash_reserve policy m in
    let current = effect.resulting_total_spot_exposure_notional in
    if effect.risk_increasing && Decimal.lt effect.resulting_cash reserve
    then breach_at total_spot_exposure effect.resulting_cash reserve hard_breach cash_reserve_hard
        (some soft)
    else if not effect.risk_increasing
    then pass_at total_spot_exposure current hard (some soft)
    else threshold_evaluation total_spot_exposure current soft hard
        position_total_spot_exposure_soft position_total_spot_exposure_hard

-- How much more than the position an order sells.
abbrev pub oversell : OrderSide → Decimal → Decimal → Decimal
oversell buy quantity position = of_nat 0
oversell sell quantity position = Decimal.max (of_nat 0) (Decimal.sub quantity position)

unfoldable pub no_short_or_oversell_evaluation : RiskCheckRequest → RiskLimitEvaluation
unfolding evaluation
no_short_or_oversell_evaluation request =
    let intent = request.order_intent in
    let excess =
      oversell intent.side intent.quantity request.current_instrument_position_quantity in
    if Decimal.lt (of_nat 0) excess
    then breach_at no_oversell excess (of_nat 0) hard_breach no_short_or_oversell none
    else pass_at no_oversell excess (of_nat 0) none
