-- ===== src/Contracts/Telemetry.antt =====
-- The telemetry and the windows that a risk check reads (contracts/risk.py, and the data-health
-- signal of contracts/stream_health.py).
use ta_model_v.Base.{ℕ, String, Bool, Option}
use ta_model_v.Decimal.{Decimal}
use ta_model_v.Contracts.Result.{Timestamp}

pub record PriceRiskTelemetry : Type 0 where
  pub reference_price_available : Bool
  pub price_deviation_bps : Decimal

pub record LossRiskTelemetry : Type 0 where
  pub daily_account_pnl : Decimal
  pub daily_strategy_pnl : Decimal
  pub max_drawdown_pct : Decimal

pub record LiquidityRiskTelemetry : Type 0 where
  pub rolling_24h_quote_volume_notional : Option Decimal
  pub top_of_book_depth_notional : Option Decimal
  pub depth_metric_required : Bool
  pub current_spread_bps : Option Decimal
  pub spread_cost_model_envelope_bps : Option Decimal

pub record MarketRiskTelemetry : Type 0 where
  pub volatility_envelope_available : Bool
  pub volatility_envelope_multiplier : Option Decimal
  pub volatility_shock_active : Bool

pub record EngineLatencyTelemetry : Type 0 where
  pub latency_budget_ms : Decimal
  pub risk_to_gateway_latency_ms : Decimal
  pub event_time_validity_proven : Bool

pub record ModelRiskTelemetry : Type 0 where
  pub sustained_drift_detected : Bool
  pub severe_anomaly_detected : Bool
  pub calibrated_outputs : Bool

pub record TcaRiskTelemetry : Type 0 where
  pub tca_available : Bool
  pub fill_quality_known : Bool
  pub cost_slippage_multiplier : Option Decimal

pub data OrderIdempotencyState : Type 0 where
  received accepted placed reconciled rejected unknown : OrderIdempotencyState

pub record OrderIdempotencyRecord : Type 0 where
  pub idempotency_key : String
  pub client_order_id : String
  pub trace_id : String
  pub order_intent_hash : String
  pub state : OrderIdempotencyState
  pub first_seen_at : Timestamp
  pub updated_at : Timestamp

pub record OrderThrottleWindow : Type 0 where
  pub scope_id : String
  pub observed_intent_count : ℕ
  pub soft_limit : ℕ
  pub hard_limit : ℕ

pub record ExecutionRejectBurstWindow : Type 0 where
  pub scope_id : String
  pub observed_reject_count : ℕ
  pub soft_limit : ℕ
  pub hard_limit : ℕ
  pub unknown_state_reject_observed : Bool

pub record DataHealthSignal : Type 0 where
  pub signal_id : String
  pub blocks_trading : Bool
  pub blocked_instrument_id : Option String
