-- ===== src/Engine/Within/Market.antt =====
-- When the limits on liquidity, data, order rates, latency, model and costs are not hard breaches.
use ta_model_v.Base.{
  true, false, Option, none, some, List, [], ◌∷◌, ◌+◌, ◌≤◌, ◌<◌, ◌≡◌, ◌↔◌, any, map, arith, find?,
  is_some, All,
}
use ta_model_v.Decimal.{Decimal, of_nat, literal}
use ta_model_v.Decimal
use ta_model_v.Decimal.Order.{AtMost, lower_bound_iff, max-AtMost, lt-of_nat}
use ta_model_v.Base.Int.{sub_ℕ}
use ta_model_v.Contracts.Result.{Timestamp}
use ta_model_v.Contracts.Policy.{RiskPolicy}
use ta_model_v.Contracts.Telemetry.{OrderThrottleWindow, ExecutionRejectBurstWindow}
use ta_model_v.Contracts.Risk.{RiskCheckRequest, OrderEffect, RiskLimitEvaluation, is_hard}
use ta_model_v.Engine.MarketLimits.{
  share_checks, above_hard, above_soft, participation_outcome, liquidity_participation_evaluation,
  spread_limit, liquidity_spread_evaluation, market_volatility_evaluation,
}
use ta_model_v.Engine.ExecutionLimits.{
  throttle_evaluation, throttle_evaluations, reject_burst_evaluation, reject_burst_evaluations,
  timedelta_ms, engine_latency_evaluation, model_drift_or_calibration_evaluation,
  tca_cost_slippage_evaluation,
}
use ta_model_v.Engine.Within.State.{IsNotHard}

-- A value that is present and at most a bound.
abbrev pub IsKnownAtMost : Option Decimal → Decimal → Type 0
IsKnownAtMost none bound = ⊥
IsKnownAtMost (some d) bound = AtMost d bound

-- An order's share of a volume, where the volume is known, is at most a bound.
abbrev pub ShareAtMost : Decimal → Option Decimal → Decimal → Type 0
ShareAtMost notional none bound = Unit
ShareAtMost notional (some volume) bound = AtMost (Decimal.div notional volume) bound

module _ (p : RiskPolicy) (notional : Decimal) where
  shares_iff :
      (volume depth : Option Decimal)
      → let checks = share_checks p notional volume depth in
        IsNotHard
          (participation_outcome p checks (find? above_hard checks) (find? above_soft checks))
        ↔ (ShareAtMost notional volume p.max_participation_24h_quote_volume_hard_pct
            × ShareAtMost notional depth p.max_participation_top_of_book_depth_hard_pct)
  unfolding participation_outcome
  shares_iff none none = ground arith
  shares_iff none (some d) = ground arith
  shares_iff (some v) none = ground arith
  shares_iff (some v) (some d) = ground arith

-- A required depth is known, and the order's shares are within their bounds.
pub participation_iff :
    (r : RiskCheckRequest) (p : RiskPolicy) (e : OrderEffect)
    → IsNotHard (liquidity_participation_evaluation r p e) ↔ (
        (r.liquidity_risk.depth_metric_required ≡ true
          → is_some r.liquidity_risk.top_of_book_depth_notional ≡ true)
        × ShareAtMost e.proposed_notional r.liquidity_risk.rolling_24h_quote_volume_notional
            p.max_participation_24h_quote_volume_hard_pct
        × ShareAtMost e.proposed_notional r.liquidity_risk.top_of_book_depth_notional
            p.max_participation_top_of_book_depth_hard_pct)
unfolding liquidity_participation_evaluation
participation_iff r p e = ground (
  arith,
  shares_iff p e.proposed_notional r.liquidity_risk.rolling_24h_quote_volume_notional
      r.liquidity_risk.top_of_book_depth_notional,
)

-- The spread is known, and at most the policy's bound and the envelope of the cost model, where that
-- is known.
abbrev pub SpreadWithin : RiskPolicy → Option Decimal → Option Decimal → Type 0
SpreadWithin p envelope none = ⊥
SpreadWithin p none (some current) = AtMost current p.max_spread_hard_bps
SpreadWithin p (some envelope) (some current) =
    AtMost current p.max_spread_hard_bps × AtMost current envelope

spread_limit_iff :
    (p : RiskPolicy) (envelope current : Option Decimal)
    → IsKnownAtMost current (spread_limit p envelope) ↔ SpreadWithin p envelope current
spread_limit_iff p envelope none = ground arith
spread_limit_iff p none (some current) = ground arith
spread_limit_iff p (some envelope) (some current) =
    lower_bound_iff current p.max_spread_hard_bps envelope

known_spread_iff :
    (r : RiskCheckRequest) (p : RiskPolicy)
    → IsNotHard (liquidity_spread_evaluation r p)
      ↔ IsKnownAtMost r.liquidity_risk.current_spread_bps
          (spread_limit p r.liquidity_risk.spread_cost_model_envelope_bps)
unfolding liquidity_spread_evaluation
known_spread_iff r p = ground arith

pub spread_iff :
    (r : RiskCheckRequest) (p : RiskPolicy)
    → IsNotHard (liquidity_spread_evaluation r p)
      ↔ SpreadWithin p r.liquidity_risk.spread_cost_model_envelope_bps
          r.liquidity_risk.current_spread_bps
spread_iff r p =
    let known = known_spread_iff r p in
    let within =
      spread_limit_iff p r.liquidity_risk.spread_cost_model_envelope_bps
        r.liquidity_risk.current_spread_bps in
    (λ h. within.0 (known.0 h), λ h. known.1 (within.1 h))

pub volatility_iff :
    (r : RiskCheckRequest) (p : RiskPolicy)
    → IsNotHard (market_volatility_evaluation r p) ↔ (
        (r.market_risk.volatility_envelope_available ≡ true)
        × (r.market_risk.volatility_shock_active ≡ false)
        × IsKnownAtMost r.market_risk.volatility_envelope_multiplier
            p.max_volatility_envelope_hard_multiplier)
unfolding market_volatility_evaluation
volatility_iff r p = ground arith

abbrev pub NoneHard : List RiskLimitEvaluation → Type 0
NoneHard es = any (λ e. is_hard e.status) es ≡ false

-- One more order fits the window.
abbrev pub HasRoom : OrderThrottleWindow → Type 0
HasRoom w = w.observed_intent_count + 1 ≤ w.hard_limit

-- The rejects seen are few, and none of them left the order's state unknown.
abbrev pub IsCalm : ExecutionRejectBurstWindow → Type 0
IsCalm w = (w.observed_reject_count < w.hard_limit) × (w.unknown_state_reject_observed ≡ false)

throttle_iff : (w : OrderThrottleWindow) → IsNotHard (throttle_evaluation w) ↔ HasRoom w
unfolding throttle_evaluation
throttle_iff w = ground (arith, lt-of_nat w.hard_limit (w.observed_intent_count + 1))

map-throttle_iff :
    (ws : List OrderThrottleWindow) → NoneHard (map throttle_evaluation ws) ↔ All HasRoom ws
map-throttle_iff [] = ground arith
map-throttle_iff (w ∷ ws) = ground (arith, throttle_iff w, map-throttle_iff ws)

pub throttles_iff :
    (ws : List OrderThrottleWindow) → NoneHard (throttle_evaluations ws) ↔ All HasRoom ws
unfolding throttle_evaluations
throttles_iff [] = ground arith
throttles_iff (w ∷ ws) = map-throttle_iff (w ∷ ws)

reject_burst_iff :
    (w : ExecutionRejectBurstWindow) → IsNotHard (reject_burst_evaluation w) ↔ IsCalm w
unfolding reject_burst_evaluation
reject_burst_iff w = ground (arith, lt-of_nat w.observed_reject_count w.hard_limit)

map-reject_burst_iff :
    (ws : List ExecutionRejectBurstWindow)
    → NoneHard (map reject_burst_evaluation ws) ↔ All IsCalm ws
map-reject_burst_iff [] = ground arith
map-reject_burst_iff (w ∷ ws) = ground (arith, reject_burst_iff w, map-reject_burst_iff ws)

pub reject_bursts_iff :
    (ws : List ExecutionRejectBurstWindow) → NoneHard (reject_burst_evaluations ws) ↔ All IsCalm ws
unfolding reject_burst_evaluations
reject_bursts_iff [] = ground arith
reject_bursts_iff (w ∷ ws) = map-reject_burst_iff (w ∷ ws)

-- The milliseconds between two instants, which count microseconds.
abbrev pub ms_between : Timestamp → Timestamp → Decimal
ms_between earlier later = record { mantissa = sub_ℕ later earlier; scale = 3 }

pub latency_iff :
    (r : RiskCheckRequest)
    → IsNotHard (engine_latency_evaluation r) ↔ (
        (r.engine_latency.event_time_validity_proven ≡ true)
        × AtMost (ms_between r.decision_ts r.risk_check_ts) r.engine_latency.latency_budget_ms
        × AtMost r.engine_latency.risk_to_gateway_latency_ms r.engine_latency.latency_budget_ms)
unfolding engine_latency_evaluation
latency_iff r = ground (
  arith,
  max-AtMost (timedelta_ms r.risk_check_ts r.decision_ts)
      r.engine_latency.risk_to_gateway_latency_ms r.engine_latency.latency_budget_ms,
)

pub drift_iff :
    (r : RiskCheckRequest)
    → IsNotHard (model_drift_or_calibration_evaluation r)
      ↔ ((r.model_risk.severe_anomaly_detected ≡ false) × (r.model_risk.calibrated_outputs ≡ true))
unfolding model_drift_or_calibration_evaluation
drift_iff r = ground arith

pub cost_iff :
    (r : RiskCheckRequest) (p : RiskPolicy)
    → IsNotHard (tca_cost_slippage_evaluation r p) ↔ (
        (r.tca_risk.tca_available ≡ true)
        × (r.tca_risk.fill_quality_known ≡ true)
        × IsKnownAtMost r.tca_risk.cost_slippage_multiplier p.tca_cost_slippage_hard_multiplier)
unfolding tca_cost_slippage_evaluation
cost_iff r p = ground arith
