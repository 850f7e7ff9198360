-- ===== src/Contracts/Risk.antt =====
-- The risk check's input, its order effect and its limit evaluations (contracts/risk.py).
use ta_model_v.Base.{String, Bool, true, false, Option, List, not, ◌&&◌, any, leb, str_eq, ◌≡◌}
use ta_model_v.Decimal.{Decimal, of_nat}
use ta_model_v.Decimal
use ta_model_v.Contracts.Result.{Timestamp}
use ta_model_v.Contracts.Instrument.{InstrumentMasterSnapshot}
use ta_model_v.Contracts.Order.{OrderSide, OrderIntent, limit_price_fits, positive_if_set}
use ta_model_v.Contracts.KillSwitch.{KillSwitchSnapshot}
use ta_model_v.Contracts.Telemetry.{
  PriceRiskTelemetry, LossRiskTelemetry, LiquidityRiskTelemetry, MarketRiskTelemetry,
  EngineLatencyTelemetry, ModelRiskTelemetry, TcaRiskTelemetry, OrderIdempotencyRecord,
  OrderThrottleWindow, ExecutionRejectBurstWindow, DataHealthSignal,
}

pub data RiskDecisionStatus : Type 0 where
  approved approved_after_cap rejected no_trade cancel_reduce_only_approved : RiskDecisionStatus

pub data RiskLimitStatus : Type 0 where
  pass soft_breach hard_breach : RiskLimitStatus

pub data RiskReasonCode : Type 0 where
  passed required_state_missing outside_mvp_scope unknown_kill_state kill_switch_active
        order_max_notional_soft order_max_notional_hard order_price_collar_soft
        order_price_collar_hard position_instrument_exposure_soft position_instrument_exposure_hard
        position_strategy_exposure_soft position_strategy_exposure_hard
        position_total_spot_exposure_soft position_total_spot_exposure_hard cash_reserve_hard
        no_short_or_oversell daily_account_loss_soft daily_account_loss_hard
        daily_strategy_loss_soft daily_strategy_loss_hard max_drawdown_soft max_drawdown_hard
        liquidity_participation_soft liquidity_participation_hard liquidity_spread_soft
        liquidity_spread_hard market_volatility_soft market_volatility_hard data_health_block
        venue_status_hard venue_status_soft duplicate_idempotency order_throttle_soft
        order_throttle_hard reject_burst_soft reject_burst_hard engine_latency_soft
        engine_latency_hard model_drift_or_calibration_soft model_drift_or_calibration_hard
        tca_cost_slippage_soft tca_cost_slippage_hard :
      RiskReasonCode

-- The keys of `_LIMIT_OWNERS`, which are the limit identifiers that the engine uses.
pub data LimitId : Type 0 where
  product_mvp required_state active_state max_notional price_collar instrument_exposure
        strategy_exposure total_spot_exposure no_oversell daily_account daily_strategy max_drawdown
        participation spread volatility freshness venue_status order_throttle duplicate reject_burst
        latency drift_or_calibration cost_slippage :
      LimitId

abbrev pub is_pass : RiskLimitStatus → Bool
is_pass pass = true
is_pass _ = false

abbrev pub is_soft : RiskLimitStatus → Bool
is_soft soft_breach = true
is_soft _ = false

abbrev pub is_hard : RiskLimitStatus → Bool
is_hard hard_breach = true
is_hard _ = false

abbrev pub is_passed_code : RiskReasonCode → Bool
is_passed_code passed = true
is_passed_code _ = false

pub record RiskLimitEvaluation : Type 0 where
  pub limit_id : LimitId
  pub owner : String
  pub status : RiskLimitStatus
  pub passed : Bool
  pub current_value : Decimal
  pub soft_threshold : Option Decimal
  pub hard_threshold : Option Decimal
  pub capped_value : Option Decimal
  pub reason_code : RiskReasonCode

abbrev pub bool_eq : Bool → Bool → Bool
bool_eq true b = b
bool_eq false b = not b

-- The validator `status_matches_passed_flag`.
unfoldable pub evaluation_is_valid : RiskLimitEvaluation → Bool
evaluation_is_valid e =
    bool_eq e.passed (is_pass e.status) && bool_eq (is_pass e.status) (is_passed_code e.reason_code)

pub record OrderEffect : Type 0 where
  pub side : OrderSide
  pub quantity : Decimal
  pub reference_price : Decimal
  pub proposed_notional : Decimal
  pub resulting_position_quantity : Decimal
  pub resulting_position_notional : Decimal
  pub resulting_cash : Decimal
  pub resulting_instrument_exposure_notional : Decimal
  pub resulting_strategy_exposure_notional : Decimal
  pub resulting_total_spot_exposure_notional : Decimal
  pub cash_reserve_pct : Decimal
  pub risk_increasing : Bool

abbrev pub is_positive : Decimal → Bool
is_positive d = Decimal.lt (of_nat 0) d

abbrev pub is_nonneg : Decimal → Bool
is_nonneg d = not (Decimal.lt d (of_nat 0))

-- The bounds of the fields of `OrderEffect`.
unfoldable pub effect_is_valid : OrderEffect → Bool
effect_is_valid e =
    is_positive e.quantity
    && is_positive e.reference_price
    && is_nonneg e.proposed_notional
    && is_nonneg e.resulting_position_notional
    && is_nonneg e.resulting_instrument_exposure_notional
    && is_nonneg e.resulting_strategy_exposure_notional
    && is_nonneg e.resulting_total_spot_exposure_notional

pub record RiskCheckRequest : Type 0 where
  pub run_id : String
  pub trace_id : String
  pub source_decision_id : String
  pub decision_ts : Timestamp
  pub risk_check_ts : Timestamp
  pub strategy_version : String
  pub account_id : String
  pub order_intent : OrderIntent
  pub idempotency_key : String
  pub reference_price : Decimal
  pub account_equity : Decimal
  pub current_cash : Decimal
  pub current_instrument_position_quantity : Decimal
  pub current_instrument_exposure_notional : Decimal
  pub current_strategy_exposure_notional : Decimal
  pub current_total_spot_exposure_notional : Decimal
  pub instrument_master_snapshot : InstrumentMasterSnapshot
  pub kill_switch_snapshot : KillSwitchSnapshot
  pub price_risk : PriceRiskTelemetry
  pub loss_risk : LossRiskTelemetry
  pub liquidity_risk : LiquidityRiskTelemetry
  pub market_risk : MarketRiskTelemetry
  pub engine_latency : EngineLatencyTelemetry
  pub model_risk : ModelRiskTelemetry
  pub tca_risk : TcaRiskTelemetry
  pub data_health_signals : List DataHealthSignal
  pub idempotency_records : List OrderIdempotencyRecord
  pub throttle_windows : List OrderThrottleWindow
  pub reject_burst_windows : List ExecutionRejectBurstWindow

-- The bounds of the request's own fields and of its order intent.
unfoldable pub amounts_are_valid : RiskCheckRequest → Bool
amounts_are_valid r =
    is_positive r.reference_price
    && is_positive r.account_equity
    && is_nonneg r.current_cash
    && is_nonneg r.current_instrument_position_quantity
    && is_nonneg r.current_instrument_exposure_notional
    && is_nonneg r.current_strategy_exposure_notional
    && is_nonneg r.current_total_spot_exposure_notional

unfoldable pub intent_is_valid : OrderIntent → Bool
intent_is_valid i =
    is_positive i.quantity
    && positive_if_set i.limit_price
    && limit_price_fits i.order_type i.limit_price

-- The validator `request_is_consistent_and_deterministic`, without its identity digests.
unfoldable pub request_is_consistent : RiskCheckRequest → Bool
request_is_consistent r =
    leb r.decision_ts r.risk_check_ts
    && str_eq r.trace_id r.order_intent.trace_id
    && str_eq r.source_decision_id r.order_intent.source_decision_id
    && leb r.decision_ts r.order_intent.submitted_at
    && any (λ i. str_eq i.instrument_id r.order_intent.instrument_id)
        r.instrument_master_snapshot.instruments

-- What pydantic has checked of a request that exists.
pub record RequestIsValid (r : RiskCheckRequest) : Type 0 where
  pub amounts : amounts_are_valid r ≡ true
  pub intent : intent_is_valid r.order_intent ≡ true
  pub consistent : request_is_consistent r ≡ true
