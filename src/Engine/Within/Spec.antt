-- ===== src/Engine/Within/Spec.antt =====
-- The description of an order that the engine (risk/engine.py) must not reject, without the
-- functions that evaluate the limits: each bound is written out, of the policy, of the account and of
-- the instrument's constraint.
use ta_model_v.Base.{true, false, is_some, All, ◌≡◌}
use ta_model_v.Decimal.{Decimal}
use ta_model_v.Decimal
use ta_model_v.Decimal.Order.{AtMost}
use ta_model_v.Contracts.Instrument.{market}
use ta_model_v.Contracts.Order.{sell}
use ta_model_v.Contracts.Policy.{RiskPolicy}
use ta_model_v.Contracts.Risk.{RiskCheckRequest, OrderEffect}
use ta_model_v.Engine.Metadata.{MetadataView}
use ta_model_v.Engine.Decision.{Digests}
use ta_model_v.Engine.Within.State.{
  IsOpenVenue, IsOrderableInstrument, IsOrderableAccount, IsSpotOnly, IsPaperOnly, KillSwitchAllows,
  IsPresent,
}
use ta_model_v.Engine.Within.Exposure.{loss_floor, OrderWithin, WithinShares, KeepsAccountReserve}
use ta_model_v.Engine.Within.Market.{
  SpreadWithin, ms_between, IsKnownAtMost, ShareAtMost, HasRoom, IsCalm,
}
use ta_model_v.Engine.Within.Records.{IsHarmless, IsOther}

module _ (d : Digests) (r : RiskCheckRequest) (p : RiskPolicy) (m : MetadataView)
    (e : OrderEffect) where
  -- The venue, instrument, account and kill switch allow the order.
  pub record StateAllows : Type 0 where
    pub constraint_present : IsPresent m.constraint
    pub venue_open : IsOpenVenue m.venue
    pub instrument_orderable : IsOrderableInstrument m.instrument
    pub account_orderable : IsOrderableAccount m.account
    pub instrument_spot : IsSpotOnly m.instrument
    pub account_paper : IsPaperOnly m.account
    pub kill_switch : KillSwitchAllows r.kill_switch_snapshot.active_state e.risk_increasing

  -- The order's price and amounts, and the account's losses, are within the policy.
  pub record AmountsWithin : Type 0 where
    pub price_known : r.price_risk.reference_price_available ≡ true
    pub price_hard : AtMost r.price_risk.price_deviation_bps p.price_collar_hard_bps
    pub price_market :
        r.order_intent.order_type ≡ market
        → AtMost r.price_risk.price_deviation_bps p.price_collar_soft_bps
    pub notional : e.risk_increasing ≡ true → OrderWithin p m e.proposed_notional
    pub instrument :
        e.risk_increasing ≡ true
        → WithinShares p m.account p.max_instrument_exposure_hard_pct
            (λ l. l.max_instrument_exposure_pct)
            e.resulting_instrument_exposure_notional
    pub strategy :
        e.risk_increasing ≡ true
        → WithinShares p m.account p.max_strategy_exposure_hard_pct
            (λ l. l.max_strategy_exposure_pct)
            e.resulting_strategy_exposure_notional
    pub spot_and_cash :
        e.risk_increasing ≡ true
        → AtMost (Decimal.mul p.paper_nav p.min_cash_reserve_pct) e.resulting_cash
          × KeepsAccountReserve p m.account e.resulting_cash
          × WithinShares p m.account p.max_total_spot_exposure_hard_pct
              (λ l. l.max_total_spot_exposure_pct)
              e.resulting_total_spot_exposure_notional
    pub no_oversell :
        r.order_intent.side ≡ sell
        → AtMost r.order_intent.quantity r.current_instrument_position_quantity
    pub account_loss :
        Decimal.lt (loss_floor p p.max_daily_account_loss_hard_pct) r.loss_risk.daily_account_pnl
        ≡ true
    pub strategy_loss :
        Decimal.lt (loss_floor p p.max_daily_strategy_loss_hard_pct) r.loss_risk.daily_strategy_pnl
        ≡ true
    pub drawdown : AtMost r.loss_risk.max_drawdown_pct p.max_drawdown_hard_pct

  -- The market, the data, the order rates and the model are fit for trading.
  pub record ConditionsAllow : Type 0 where
    pub depth_known :
        r.liquidity_risk.depth_metric_required ≡ true
        → is_some r.liquidity_risk.top_of_book_depth_notional ≡ true
    pub volume_share :
        ShareAtMost e.proposed_notional r.liquidity_risk.rolling_24h_quote_volume_notional
          p.max_participation_24h_quote_volume_hard_pct
    pub depth_share :
        ShareAtMost e.proposed_notional r.liquidity_risk.top_of_book_depth_notional
          p.max_participation_top_of_book_depth_hard_pct
    pub spread :
        SpreadWithin p r.liquidity_risk.spread_cost_model_envelope_bps
          r.liquidity_risk.current_spread_bps
    pub envelope_known : r.market_risk.volatility_envelope_available ≡ true
    pub no_shock : r.market_risk.volatility_shock_active ≡ false
    pub volatility :
        IsKnownAtMost r.market_risk.volatility_envelope_multiplier
          p.max_volatility_envelope_hard_multiplier
    pub data_fresh : All (IsHarmless r.order_intent.instrument_id) r.data_health_signals
    pub no_duplicate : All (IsOther r (d.order_intent_hash r.order_intent)) r.idempotency_records
    pub room : All HasRoom r.throttle_windows
    pub calm : All IsCalm r.reject_burst_windows
    pub event_time : r.engine_latency.event_time_validity_proven ≡ true
    pub check_latency :
        AtMost (ms_between r.decision_ts r.risk_check_ts) r.engine_latency.latency_budget_ms
    pub gateway_latency :
        AtMost r.engine_latency.risk_to_gateway_latency_ms r.engine_latency.latency_budget_ms
    pub no_anomaly : r.model_risk.severe_anomaly_detected ≡ false
    pub calibrated : r.model_risk.calibrated_outputs ≡ true
    pub tca_known : r.tca_risk.tca_available ≡ true
    pub fills_known : r.tca_risk.fill_quality_known ≡ true
    pub costs :
        IsKnownAtMost r.tca_risk.cost_slippage_multiplier p.tca_cost_slippage_hard_multiplier

  pub record IsWithinLimits : Type 0 where
    pub state : StateAllows
    pub amounts : AmountsWithin
    pub conditions : ConditionsAllow
