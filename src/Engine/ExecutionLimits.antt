-- ===== src/Engine/ExecutionLimits.antt =====
-- The limits on data, duplicates, order rates, rejects, latency, the model and execution costs.
use ta_model_v.Base.{
  String, Bool, true, false, Option, none, some, List, [], ◌∷◌, map, filter, length, is_some,
  is_nonempty, not, ◌+◌, ◌&&◌, ◌||◌, if◌then◌else◌, str_eq,
}
use ta_model_v.Base.Int.{sub_ℕ}
use ta_model_v.Decimal.{Decimal, of_nat, literal}
use ta_model_v.Decimal
use ta_model_v.Contracts.Result.{Timestamp}
use ta_model_v.Contracts.Order.{OrderIntent}
use ta_model_v.Contracts.Policy.{RiskPolicy}
use ta_model_v.Contracts.Risk.{
  freshness, duplicate, order_throttle, reject_burst, latency, drift_or_calibration, cost_slippage,
  soft_breach, hard_breach, data_health_block, duplicate_idempotency, order_throttle_soft,
  order_throttle_hard, reject_burst_soft, reject_burst_hard, engine_latency_soft,
  engine_latency_hard, model_drift_or_calibration_soft, model_drift_or_calibration_hard,
  tca_cost_slippage_soft, tca_cost_slippage_hard, RiskLimitEvaluation, RiskCheckRequest,
}
use ta_model_v.Contracts.Telemetry.{
  OrderIdempotencyState, received, accepted, placed, reconciled, rejected, unknown,
  OrderIdempotencyRecord, OrderThrottleWindow, ExecutionRejectBurstWindow, DataHealthSignal,
}
use ta_model_v.Engine.Evaluation.{evaluation, pass_at, breach_at, threshold_evaluation}
use ta_model_v.Engine.MarketLimits.{or_zero}

abbrev pub concerns : String → Option String → Bool
concerns instrument_id none = true
concerns instrument_id (some blocked) = str_eq blocked instrument_id

abbrev pub is_blocking : RiskCheckRequest → DataHealthSignal → Bool
is_blocking request signal =
    signal.blocks_trading
    && concerns request.order_intent.instrument_id signal.blocked_instrument_id

unfoldable pub data_freshness_evaluation : RiskCheckRequest → RiskLimitEvaluation
unfolding evaluation
data_freshness_evaluation request =
    let blocking = filter (is_blocking request) request.data_health_signals in
    if is_nonempty blocking
    then breach_at freshness (of_nat (length blocking)) (of_nat 0) hard_breach data_health_block
        none
    else pass_at freshness (of_nat 0) (of_nat 0) none

-- `_UNRESOLVED_IDEMPOTENCY_STATES`
abbrev pub is_unresolved : OrderIdempotencyState → Bool
is_unresolved received = true
is_unresolved accepted = true
is_unresolved placed = true
is_unresolved unknown = true
is_unresolved reconciled = false
is_unresolved rejected = false

abbrev pub is_duplicate : RiskCheckRequest → String → OrderIdempotencyRecord → Bool
is_duplicate request order_hash r =
    is_unresolved r.state
    && (str_eq r.idempotency_key request.idempotency_key
        || str_eq r.client_order_id request.order_intent.client_order_id
        || str_eq r.trace_id request.trace_id
        || str_eq r.order_intent_hash order_hash)

-- The digest stands for `build_order_intent_hash`.
unfoldable pub idempotency_evaluation :
    (OrderIntent → String) → RiskCheckRequest → RiskLimitEvaluation
unfolding evaluation
idempotency_evaluation intent_digest request =
    let order_hash = intent_digest request.order_intent in
    let duplicates = filter (is_duplicate request order_hash) request.idempotency_records in
    if is_nonempty duplicates
    then breach_at duplicate (of_nat (length duplicates)) (of_nat 0) hard_breach
        duplicate_idempotency none
    else pass_at duplicate (of_nat 0) (of_nat 0) none

-- One round of the loop of `_throttle_evaluations`.
unfoldable pub throttle_evaluation : OrderThrottleWindow → RiskLimitEvaluation
unfolding evaluation
throttle_evaluation window =
    let projected = of_nat (window.observed_intent_count + 1) in
    let hard = of_nat window.hard_limit in
    let soft = of_nat window.soft_limit in
    if Decimal.lt hard projected
    then breach_at order_throttle projected hard hard_breach order_throttle_hard (some soft)
    else if Decimal.lt soft projected
    then breach_at order_throttle projected hard soft_breach order_throttle_soft (some soft)
    else pass_at order_throttle projected hard (some soft)

unfoldable pub throttle_evaluations : List OrderThrottleWindow → List RiskLimitEvaluation
unfolding evaluation
throttle_evaluations [] = pass_at order_throttle (of_nat 0) (of_nat 0) (some (of_nat 0)) ∷ []
throttle_evaluations (w ∷ ws) = map throttle_evaluation (w ∷ ws)

-- One round of the loop of `_reject_burst_evaluations`.
unfoldable pub reject_burst_evaluation : ExecutionRejectBurstWindow → RiskLimitEvaluation
unfolding evaluation
reject_burst_evaluation window =
    let current = of_nat window.observed_reject_count in
    let hard = of_nat window.hard_limit in
    let soft = of_nat window.soft_limit in
    if window.unknown_state_reject_observed || Decimal.le hard current
    then breach_at reject_burst current hard hard_breach reject_burst_hard (some soft)
    else if Decimal.le soft current
    then breach_at reject_burst current hard soft_breach reject_burst_soft (some soft)
    else pass_at reject_burst current hard (some soft)

unfoldable pub reject_burst_evaluations : List ExecutionRejectBurstWindow → List RiskLimitEvaluation
unfolding evaluation
reject_burst_evaluations [] = pass_at reject_burst (of_nat 0) (of_nat 0) none ∷ []
reject_burst_evaluations (w ∷ ws) = map reject_burst_evaluation (w ∷ ws)

-- `_timedelta_ms` of a difference of two instants: microseconds over a thousand. The detour over
-- a float's shortest text is exact for differences below 10 ^ 15 microseconds (31 years).
abbrev pub timedelta_ms : Timestamp → Timestamp → Decimal
timedelta_ms later earlier = record { mantissa = sub_ℕ later earlier; scale = 3 }

unfoldable pub engine_latency_evaluation : RiskCheckRequest → RiskLimitEvaluation
unfolding evaluation
engine_latency_evaluation request =
    let telemetry = request.engine_latency in
    let current =
      Decimal.max (timedelta_ms request.risk_check_ts request.decision_ts)
        telemetry.risk_to_gateway_latency_ms in
    let hard = telemetry.latency_budget_ms in
    let soft = Decimal.mul hard (literal 5 1) in
    if not telemetry.event_time_validity_proven || Decimal.lt hard current
    then breach_at latency current hard hard_breach engine_latency_hard (some soft)
    else if Decimal.lt soft current
    then breach_at latency current hard soft_breach engine_latency_soft (some soft)
    else pass_at latency current hard (some soft)

unfoldable pub model_drift_or_calibration_evaluation : RiskCheckRequest → RiskLimitEvaluation
unfolding evaluation
model_drift_or_calibration_evaluation request =
    let telemetry = request.model_risk in
    let zero_threshold = some (of_nat 0) in
    if telemetry.severe_anomaly_detected || not telemetry.calibrated_outputs
    then breach_at drift_or_calibration (of_nat 1) (of_nat 0) hard_breach
        model_drift_or_calibration_hard zero_threshold
    else if telemetry.sustained_drift_detected
    then breach_at drift_or_calibration (of_nat 1) (of_nat 0) soft_breach
        model_drift_or_calibration_soft zero_threshold
    else pass_at drift_or_calibration (of_nat 0) (of_nat 0) zero_threshold

unfoldable pub tca_cost_slippage_evaluation : RiskCheckRequest → RiskPolicy → RiskLimitEvaluation
unfolding threshold_evaluation
tca_cost_slippage_evaluation request policy =
    let telemetry = request.tca_risk in
    let hard = policy.tca_cost_slippage_hard_multiplier in
    let soft = policy.tca_cost_slippage_soft_multiplier in
    let current = or_zero telemetry.cost_slippage_multiplier in
    if not telemetry.tca_available
      || not telemetry.fill_quality_known
      || not (is_some telemetry.cost_slippage_multiplier)
    then breach_at cost_slippage current hard hard_breach tca_cost_slippage_hard (some soft)
    else threshold_evaluation cost_slippage current soft hard tca_cost_slippage_soft
        tca_cost_slippage_hard
