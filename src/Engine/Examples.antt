-- ===== src/Engine/Examples.antt =====
-- Concrete orders, with what a risk check reads: inputs of the tests.
pub mod Runs
use ta_model_v.Base.{ℕ, true, false, Option, none, some, List, [], ◌∷◌}
use ta_model_v.Decimal.{Decimal, of_nat, literal}
use ta_model_v.Decimal
use ta_model_v.Contracts.Result.{Result, ok, err}
use ta_model_v.Contracts.Instrument
use ta_model_v.Contracts.Instrument.{
  Venue, Instrument, Account, InstrumentConstraint, InstrumentMasterSnapshot, is_effective,
}
use ta_model_v.Contracts.Order.{OrderIntent, OrderSide, make_order_intent}
use ta_model_v.Contracts.KillSwitch.{KillSwitchState, KillSwitchSnapshot}
use ta_model_v.Contracts.Policy.{RiskPolicy, default_policy, policy_is_valid}
use ta_model_v.Contracts.Event.{RiskCheckEvent, make_risk_check_event}
use ta_model_v.Contracts.Risk.{
  RiskCheckRequest, RiskDecisionStatus, RiskReasonCode, evaluation_is_valid, effect_is_valid,
  amounts_are_valid, intent_is_valid, request_is_consistent,
}
use ta_model_v.Engine.Decision.{
  Digests, allowed_incremental_notional, allowed_notionals, least_of, capped_approval,
  approval_after_soft_caps, evaluate_limits, decide, evaluate_pre_trade_risk,
}
use ta_model_v.Engine.Outcome.{limits_of}
use ta_model_v.Engine.Effect.{build_order_effect}
use ta_model_v.Engine.Evaluation.{evaluation, threshold_evaluation, negative_loss_evaluation}
use ta_model_v.Engine.ExecutionLimits.{
  data_freshness_evaluation, idempotency_evaluation, throttle_evaluation, throttle_evaluations,
  reject_burst_evaluation, reject_burst_evaluations, engine_latency_evaluation,
  model_drift_or_calibration_evaluation, tca_cost_slippage_evaluation,
}
use ta_model_v.Engine.ExposureLimits.{
  price_collar_evaluation, order_notional_limit, order_notional_evaluation,
  instrument_exposure_limit, instrument_exposure_evaluation, strategy_exposure_limit,
  strategy_exposure_evaluation, total_spot_exposure_limit, cash_reserve,
  total_spot_exposure_evaluation, no_short_or_oversell_evaluation,
}
use ta_model_v.Engine.LossLimits.{
  daily_account_loss_evaluation, daily_strategy_loss_evaluation, max_drawdown_evaluation,
}
use ta_model_v.Engine.MarketLimits.{
  participation_outcome, liquidity_participation_evaluation, liquidity_spread_evaluation,
  market_volatility_evaluation,
}
use ta_model_v.Engine.Metadata.{active_constraint, metadata_view}
use ta_model_v.Engine.StateLimits.{
  required_state_evaluation, product_scope_evaluation, kill_switch_evaluation,
  venue_status_evaluation,
}

abbrev pub digests : Digests
digests = record { order_intent_hash = λ i. i.client_order_id; risk_check_id = λ e. "RISKCHECK:1" }

abbrev pub policy : RiskPolicy
policy = default_policy (of_nat 100000) "default"

abbrev pub order : OrderSide → ℕ → OrderIntent
order side quantity = record {
  client_order_id = "C1";
  trace_id = "T1";
  source_decision_id = "D1";
  instrument_id = "I1";
  venue_id = "V1";
  side = side;
  order_type = Instrument.market;
  quantity = of_nat quantity;
  submitted_at = 1000;
  limit_price = none;
}

abbrev pub snapshot : InstrumentMasterSnapshot
snapshot = record {
  created_at = 500;
  venues =
      record {
        venue_id = "V1";
        status = Instrument.VenueStatus.active;
        supported_order_types = Instrument.market ∷ [];
      }
      ∷ [];
  instruments =
      record {
        instrument_id = "I1";
        venue_id = "V1";
        base_asset_id = "BTC";
        quote_asset_id = "USDT";
        instrument_type = Instrument.spot;
        status = Instrument.trading;
        supported_order_types = Instrument.market ∷ [];
        is_derivative = false;
        margin_allowed = false;
        short_selling_allowed = false;
        leverage_allowed = false;
      }
      ∷ [];
  accounts =
      record {
        account_id = "A1";
        venue_id = "V1";
        account_type = Instrument.paper;
        status = Instrument.AccountStatus.active;
        trading_permissions = Instrument.place_orders ∷ [];
        risk_limits = record {
          max_order_notional_pct = literal 25 3;
          max_instrument_exposure_pct = literal 25 2;
          max_strategy_exposure_pct = literal 30 2;
          max_total_spot_exposure_pct = literal 60 2;
          min_cash_reserve_pct = literal 30 2;
        };
        live_capital_enabled = false;
        margin_enabled = false;
        derivatives_enabled = false;
        shorting_enabled = false;
      }
      ∷ [];
  instrument_constraints =
      record {
        instrument_id = "I1";
        tick_size = literal 1 2;
        lot_size = literal 1 4;
        min_notional = of_nat 5;
        min_order_quantity = none;
        max_order_quantity = none;
        max_order_notional = none;
        effective_from = 100;
        effective_to = none;
      }
      ∷ [];
}

abbrev pub kill : KillSwitchState → KillSwitchSnapshot
kill state = record {
  evaluated_at = 900;
  evaluated_scopes = [];
  active_state = state;
  active_records = [];
  store_available = true;
  reason = "test";
}

abbrev pub request_with : OrderSide → ℕ → KillSwitchSnapshot → RiskCheckRequest
request_with side quantity kill_switch_snapshot = record {
  run_id = "R1";
  trace_id = "T1";
  source_decision_id = "D1";
  decision_ts = 1000;
  risk_check_ts = 2000;
  strategy_version = "S1";
  account_id = "A1";
  order_intent = order side quantity;
  idempotency_key = "K1";
  reference_price = of_nat 100;
  account_equity = of_nat 100000;
  current_cash = of_nat 90000;
  current_instrument_position_quantity = of_nat 50;
  current_instrument_exposure_notional = of_nat 5000;
  current_strategy_exposure_notional = of_nat 5000;
  current_total_spot_exposure_notional = of_nat 5000;
  instrument_master_snapshot = snapshot;
  kill_switch_snapshot = kill_switch_snapshot;
  price_risk = record { reference_price_available = true; price_deviation_bps = of_nat 10 };
  loss_risk = record {
    daily_account_pnl = of_nat 0;
    daily_strategy_pnl = of_nat 0;
    max_drawdown_pct = of_nat 0;
  };
  liquidity_risk = record {
    rolling_24h_quote_volume_notional = some (of_nat 10000000);
    top_of_book_depth_notional = some (of_nat 100000);
    depth_metric_required = true;
    current_spread_bps = some (of_nat 5);
    spread_cost_model_envelope_bps = some (of_nat 10);
  };
  market_risk = record {
    volatility_envelope_available = true;
    volatility_envelope_multiplier = some (of_nat 1);
    volatility_shock_active = false;
  };
  engine_latency = record {
    latency_budget_ms = of_nat 100;
    risk_to_gateway_latency_ms = of_nat 10;
    event_time_validity_proven = true;
  };
  model_risk = record {
    sustained_drift_detected = false;
    severe_anomaly_detected = false;
    calibrated_outputs = true;
  };
  tca_risk = record {
    tca_available = true;
    fill_quality_known = true;
    cost_slippage_multiplier = some (of_nat 1);
  };
  data_health_signals = [];
  idempotency_records = [];
  throttle_windows =
      record { scope_id = "S1"; observed_intent_count = 1; soft_limit = 5; hard_limit = 10 } ∷ [];
  reject_burst_windows =
      record {
        scope_id = "S1";
        observed_reject_count = 0;
        soft_limit = 3;
        hard_limit = 5;
        unknown_state_reject_observed = false;
      }
      ∷ [];
}

abbrev pub request : OrderSide → ℕ → KillSwitchState → RiskCheckRequest
request side quantity state = request_with side quantity (kill state)

-- The event of a request, with the decision that it is expected to have.
abbrev pub event_of :
    RiskCheckRequest
    → RiskDecisionStatus
    → List RiskReasonCode
    → Option OrderIntent
    → RiskCheckEvent
event_of r decision codes intent = record {
  risk_check_id = "RISKCHECK:1";
  request = r;
  order_effect = build_order_effect r;
  limit_evaluations = limits_of digests r policy;
  active_kill_state = r.kill_switch_snapshot.active_state;
  final_decision = decision;
  reason_codes = codes;
  approved_order_intent = intent;
}

-- Names what a run of the risk check computes with.
unfoldable pub checking : ℕ
unfolding Decimal.computing participation_outcome liquidity_participation_evaluation
    required_state_evaluation product_scope_evaluation kill_switch_evaluation
    venue_status_evaluation liquidity_spread_evaluation market_volatility_evaluation
    build_order_effect allowed_incremental_notional allowed_notionals least_of capped_approval
    approval_after_soft_caps evaluate_limits decide evaluate_pre_trade_risk
    daily_account_loss_evaluation daily_strategy_loss_evaluation max_drawdown_evaluation
    data_freshness_evaluation idempotency_evaluation throttle_evaluation throttle_evaluations
    reject_burst_evaluation reject_burst_evaluations engine_latency_evaluation
    model_drift_or_calibration_evaluation tca_cost_slippage_evaluation evaluation
    threshold_evaluation negative_loss_evaluation active_constraint metadata_view
    price_collar_evaluation order_notional_limit order_notional_evaluation instrument_exposure_limit
    instrument_exposure_evaluation strategy_exposure_limit strategy_exposure_evaluation
    total_spot_exposure_limit cash_reserve total_spot_exposure_evaluation
    no_short_or_oversell_evaluation make_risk_check_event is_effective make_order_intent
    default_policy policy_is_valid evaluation_is_valid effect_is_valid amounts_are_valid
    intent_is_valid request_is_consistent
checking = 0
