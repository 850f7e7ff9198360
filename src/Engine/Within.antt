-- ===== src/Engine/Within.antt =====
-- All limits together: the description of an order that the engine must not reject, and the
-- theorem that the evaluations have no hard breach exactly for such orders.
pub mod State
pub mod Exposure
pub mod Market
pub mod Records
pub mod Spec
use ta_model_v.Base.{
  String, Bool, true, false, Option, List, [], ◌∷◌, ◌++◌, any, is_some, append_false_iff, All, ◌≡◌,
  ◌≢◌, ◌↔◌, arith,
}
use ta_model_v.Decimal.{Decimal}
use ta_model_v.Decimal
use ta_model_v.Decimal.Order.{AtMost}
use ta_model_v.Contracts.Instrument.{market}
use ta_model_v.Contracts.KillSwitch
use ta_model_v.Contracts.Order.{OrderIntent, sell}
use ta_model_v.Contracts.Policy.{RiskPolicy}
use ta_model_v.Contracts.Event.{has_hard_breach}
use ta_model_v.Contracts.Risk.{RiskCheckRequest, OrderEffect, RiskLimitEvaluation, is_hard}
use ta_model_v.Engine.Metadata.{MetadataView}
use ta_model_v.Engine.StateLimits.{
  required_state_evaluation, product_scope_evaluation, kill_switch_evaluation,
  venue_status_evaluation,
}
use ta_model_v.Engine.ExposureLimits.{
  price_collar_evaluation, order_notional_limit, order_notional_evaluation,
  instrument_exposure_limit, instrument_exposure_evaluation, strategy_exposure_limit,
  strategy_exposure_evaluation, cash_reserve, total_spot_exposure_limit,
  total_spot_exposure_evaluation, no_short_or_oversell_evaluation,
}
use ta_model_v.Engine.LossLimits.{
  daily_account_loss_evaluation, daily_strategy_loss_evaluation, max_drawdown_evaluation,
}
use ta_model_v.Engine.MarketLimits.{
  spread_limit, liquidity_participation_evaluation, liquidity_spread_evaluation,
  market_volatility_evaluation,
}
use ta_model_v.Engine.ExecutionLimits.{
  is_blocking, is_duplicate, timedelta_ms, data_freshness_evaluation, idempotency_evaluation,
  throttle_evaluations, reject_burst_evaluations, engine_latency_evaluation,
  model_drift_or_calibration_evaluation, tca_cost_slippage_evaluation,
}
use ta_model_v.Engine.Decision.{Digests, evaluate_limits}
use State.{
  IsNotHard, IsOpenVenue, IsOrderableInstrument, IsOrderableAccount, IsSpotOnly, IsPaperOnly,
  KillSwitchAllows, IsPresent, required_state_iff, product_scope_iff, kill_switch_iff,
  venue_status_iff,
}
use Exposure.{
  OrderWithin, WithinShares, KeepsAccountReserve, loss_floor, price_collar_iff, order_notional_iff,
  instrument_exposure_iff, strategy_exposure_iff, total_spot_exposure_iff, no_oversell_iff,
  losses_iff,
}
use Market.{
  SpreadWithin, ms_between, IsKnownAtMost, ShareAtMost, HasRoom, IsCalm, NoneHard,
  participation_iff, spread_iff, volatility_iff, throttles_iff, reject_bursts_iff, latency_iff,
  drift_iff, cost_iff,
}
use Records.{IsHarmless, IsOther, freshness_iff, idempotency_iff}
pub use Spec.{StateAllows, AmountsWithin, ConditionsAllow, IsWithinLimits}

module _ (d : Digests) (r : RiskCheckRequest) (p : RiskPolicy) (m : MetadataView)
    (e : OrderEffect) where
  -- The outcomes of the limits, in the same three groups.
  abbrev StateNotHard : Type 0
  StateNotHard =
      IsNotHard (required_state_evaluation r m)
      × IsNotHard (product_scope_evaluation m)
      × IsNotHard (kill_switch_evaluation r e)
      × IsNotHard (venue_status_evaluation m)

  abbrev AmountsNotHard : Type 0
  AmountsNotHard =
      IsNotHard (price_collar_evaluation r p)
      × IsNotHard (order_notional_evaluation p m e)
      × IsNotHard (instrument_exposure_evaluation p m e)
      × IsNotHard (strategy_exposure_evaluation p m e)
      × IsNotHard (total_spot_exposure_evaluation p m e)
      × IsNotHard (no_short_or_oversell_evaluation r)
      × IsNotHard (daily_account_loss_evaluation r p)
      × IsNotHard (daily_strategy_loss_evaluation r p)
      × IsNotHard (max_drawdown_evaluation r p)

  abbrev ConditionsNotHard : Type 0
  ConditionsNotHard =
      IsNotHard (liquidity_participation_evaluation r p e)
      × IsNotHard (liquidity_spread_evaluation r p)
      × IsNotHard (market_volatility_evaluation r p)
      × IsNotHard (data_freshness_evaluation r)
      × IsNotHard (idempotency_evaluation d.order_intent_hash r)
      × NoneHard (throttle_evaluations r.throttle_windows)
      × NoneHard (reject_burst_evaluations r.reject_burst_windows)
      × IsNotHard (engine_latency_evaluation r)
      × IsNotHard (model_drift_or_calibration_evaluation r)
      × IsNotHard (tca_cost_slippage_evaluation r p)

  state_iff : StateNotHard ↔ StateAllows d r p m e
  state_iff =
      ground (
        arith,
        required_state_iff r m,
        product_scope_iff m,
        kill_switch_iff r e,
        venue_status_iff m,
      )

  amounts_iff : AmountsNotHard ↔ AmountsWithin d r p m e
  amounts_iff = ground (
    arith,
    price_collar_iff r p,
    order_notional_iff p m e,
    instrument_exposure_iff p m e,
    strategy_exposure_iff p m e,
    total_spot_exposure_iff p m e,
    no_oversell_iff r,
    losses_iff r p,
  )

  conditions_iff : ConditionsNotHard ↔ ConditionsAllow d r p m e
  conditions_iff = ground (
    arith,
    participation_iff r p e,
    spread_iff r p,
    volatility_iff r p,
    freshness_iff r,
    idempotency_iff d.order_intent_hash r,
    throttles_iff r.throttle_windows,
    reject_bursts_iff r.reject_burst_windows,
    latency_iff r,
    drift_iff r,
    cost_iff r p,
  )

  abbrev hard : RiskLimitEvaluation → Bool
  hard x = is_hard x.status

  -- The evaluations, cut into the groups.
  abbrev state_part : List RiskLimitEvaluation
  state_part =
      required_state_evaluation r m
      ∷ product_scope_evaluation m
      ∷ kill_switch_evaluation r e
      ∷ venue_status_evaluation m
      ∷ []

  abbrev amounts_part : List RiskLimitEvaluation
  amounts_part =
      price_collar_evaluation r p
      ∷ order_notional_evaluation p m e
      ∷ instrument_exposure_evaluation p m e
      ∷ strategy_exposure_evaluation p m e
      ∷ total_spot_exposure_evaluation p m e
      ∷ no_short_or_oversell_evaluation r
      ∷ daily_account_loss_evaluation r p
      ∷ daily_strategy_loss_evaluation r p
      ∷ max_drawdown_evaluation r p
      ∷ []

  abbrev market_part : List RiskLimitEvaluation
  market_part =
      liquidity_participation_evaluation r p e
      ∷ liquidity_spread_evaluation r p
      ∷ market_volatility_evaluation r p
      ∷ data_freshness_evaluation r
      ∷ idempotency_evaluation d.order_intent_hash r
      ∷ []

  abbrev engine_part : List RiskLimitEvaluation
  engine_part =
      engine_latency_evaluation r
      ∷ model_drift_or_calibration_evaluation r
      ∷ tca_cost_slippage_evaluation r p
      ∷ []

  abbrev windows_part : List RiskLimitEvaluation
  windows_part =
      throttle_evaluations r.throttle_windows
      ++ (reject_burst_evaluations r.reject_burst_windows ++ engine_part)

  state_part_iff : (any hard state_part ≡ false) ↔ StateNotHard
  state_part_iff = ground arith

  amounts_part_iff : (any hard amounts_part ≡ false) ↔ AmountsNotHard
  amounts_part_iff = ground arith

  market_part_iff : (any hard market_part ≡ false) ↔ (
      IsNotHard (liquidity_participation_evaluation r p e)
      × IsNotHard (liquidity_spread_evaluation r p)
      × IsNotHard (market_volatility_evaluation r p)
      × IsNotHard (data_freshness_evaluation r)
      × IsNotHard (idempotency_evaluation d.order_intent_hash r))
  market_part_iff = ground arith

  engine_part_iff : (any hard engine_part ≡ false) ↔ (
      IsNotHard (engine_latency_evaluation r)
      × IsNotHard (model_drift_or_calibration_evaluation r)
      × IsNotHard (tca_cost_slippage_evaluation r p))
  engine_part_iff = ground arith

  windows_part_iff : (any hard windows_part ≡ false) ↔ (
      NoneHard (throttle_evaluations r.throttle_windows)
      × NoneHard (reject_burst_evaluations r.reject_burst_windows)
      × (any hard engine_part ≡ false))
  windows_part_iff =
      let rejects = reject_burst_evaluations r.reject_burst_windows in
      let split =
        append_false_iff hard (throttle_evaluations r.throttle_windows) (rejects ++ engine_part) in
      let split' = append_false_iff hard rejects engine_part in
      (
        λ h. ((split.0 h).0, (split'.0 (split.0 h).1).0, (split'.0 (split.0 h).1).1),
        λ h. split.1 (h.0, split'.1 (h.1, h.2)),
      )

  conditions_part_iff : (any hard (market_part ++ windows_part) ≡ false) ↔ ConditionsNotHard
  conditions_part_iff =
      let split = append_false_iff hard market_part windows_part in
      (
        λ h.
            let mk = market_part_iff.0 (split.0 h).0 in
            let w = windows_part_iff.0 (split.0 h).1 in
            let en = engine_part_iff.0 w.2 in
            (mk.0, mk.1, mk.2, mk.3, mk.4, w.0, w.1, en.0, en.1, en.2),
        λ h. split.1 (
          market_part_iff.1 (h.0, h.1, h.2, h.3, h.4),
          windows_part_iff.1 (h.5, h.6, engine_part_iff.1 (h.7, h.8, h.9)),
        ),
      )

  groups_iff :
      (has_hard_breach (evaluate_limits d r p m e) ≡ false)
      ↔ (StateNotHard × AmountsNotHard × ConditionsNotHard)
  unfolding evaluate_limits
  groups_iff =
      let split =
        append_false_iff hard state_part (amounts_part ++ (market_part ++ windows_part)) in
      let split' = append_false_iff hard amounts_part (market_part ++ windows_part) in
      (
        λ h.
            let rest = split'.0 (split.0 h).1 in
            (
              state_part_iff.0 (split.0 h).0,
              amounts_part_iff.0 rest.0,
              conditions_part_iff.0 rest.1,
            ),
        λ h.
            split.1
              (state_part_iff.1 h.0, split'.1 (amounts_part_iff.1 h.1, conditions_part_iff.1 h.2)),
      )

  -- No evaluation is a hard breach exactly when the order is within the limits.
  pub no_hard_breach_iff :
      (has_hard_breach (evaluate_limits d r p m e) ≡ false) ↔ IsWithinLimits d r p m e
  no_hard_breach_iff = ground (arith, state_iff, amounts_iff, conditions_iff, groups_iff)
