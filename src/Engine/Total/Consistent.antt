-- ===== src/Engine/Total/Consistent.antt =====
-- Every evaluation that the engine builds passes the validator of its contract.
use ta_model_v.Base.{
  String, Bool, true, false, Option, none, some, List, [], ◌∷◌, ◌++◌, map, all, all-append, ◌≡◌,
  refl, arith, if◌then◌else◌, find?,
}
use ta_model_v.Decimal.{of_nat}
use ta_model_v.Contracts.Order.{OrderIntent}
use ta_model_v.Contracts.Policy.{RiskPolicy}
use ta_model_v.Contracts.Risk.{
  RiskCheckRequest, OrderEffect, RiskLimitEvaluation, evaluation_is_valid, participation,
  hard_breach, liquidity_participation_hard,
}
use ta_model_v.Contracts.Telemetry.{OrderThrottleWindow, ExecutionRejectBurstWindow}
use ta_model_v.Engine.Evaluation.{breach_at}
use ta_model_v.Engine.Metadata.{MetadataView}
use ta_model_v.Engine.StateLimits.{
  required_state_evaluation, product_scope_evaluation, kill_switch_evaluation,
  venue_status_evaluation,
}
use ta_model_v.Engine.ExposureLimits.{
  price_collar_evaluation, order_notional_evaluation, instrument_exposure_evaluation,
  strategy_exposure_evaluation, total_spot_exposure_evaluation, no_short_or_oversell_evaluation,
}
use ta_model_v.Engine.LossLimits.{
  daily_account_loss_evaluation, daily_strategy_loss_evaluation, max_drawdown_evaluation,
}
use ta_model_v.Engine.MarketLimits.{
  ShareCheck, share_checks, above_hard, above_soft, participation_outcome,
  liquidity_participation_evaluation, liquidity_spread_evaluation, market_volatility_evaluation,
}
use ta_model_v.Engine.ExecutionLimits.{
  data_freshness_evaluation, idempotency_evaluation, throttle_evaluation, throttle_evaluations,
  reject_burst_evaluation, reject_burst_evaluations, engine_latency_evaluation,
  model_drift_or_calibration_evaluation, tca_cost_slippage_evaluation,
}
use ta_model_v.Engine.Decision.{Digests, evaluate_limits}

abbrev IsConsistent : RiskLimitEvaluation → Type 0
IsConsistent e = evaluation_is_valid e ≡ true

module _ (r : RiskCheckRequest) (p : RiskPolicy) (m : MetadataView) (e : OrderEffect) where
  state-IsConsistent :
      IsConsistent (required_state_evaluation r m)
      × IsConsistent (product_scope_evaluation m)
      × IsConsistent (kill_switch_evaluation r e)
      × IsConsistent (venue_status_evaluation m)
  unfolding required_state_evaluation product_scope_evaluation kill_switch_evaluation
      venue_status_evaluation evaluation_is_valid
  state-IsConsistent = ground arith

  exposure-IsConsistent :
      IsConsistent (price_collar_evaluation r p)
      × IsConsistent (order_notional_evaluation p m e)
      × IsConsistent (instrument_exposure_evaluation p m e)
      × IsConsistent (strategy_exposure_evaluation p m e)
      × IsConsistent (total_spot_exposure_evaluation p m e)
      × IsConsistent (no_short_or_oversell_evaluation r)
  unfolding price_collar_evaluation order_notional_evaluation instrument_exposure_evaluation
      strategy_exposure_evaluation total_spot_exposure_evaluation no_short_or_oversell_evaluation
      evaluation_is_valid
  exposure-IsConsistent = ground arith

  loss-IsConsistent :
      IsConsistent (daily_account_loss_evaluation r p)
      × IsConsistent (daily_strategy_loss_evaluation r p)
      × IsConsistent (max_drawdown_evaluation r p)
  unfolding daily_account_loss_evaluation daily_strategy_loss_evaluation max_drawdown_evaluation
      evaluation_is_valid
  loss-IsConsistent = ground arith

participation-IsConsistent :
    (p : RiskPolicy) (cs : List ShareCheck) (h s : Option ShareCheck)
    → IsConsistent (participation_outcome p cs h s)
unfolding participation_outcome evaluation_is_valid
participation-IsConsistent p [] h s = refl
participation-IsConsistent p (c ∷ cs) (some h) s = refl
participation-IsConsistent p (c ∷ cs) none (some s) = refl
participation-IsConsistent p (c ∷ cs) none none = refl

if_IsConsistent :
    (b : Bool) (x y : RiskLimitEvaluation)
    → IsConsistent x
    → IsConsistent y
    → IsConsistent (if b then x else y)
if_IsConsistent true x y h k = h
if_IsConsistent false x y h k = k

module _ (r : RiskCheckRequest) (p : RiskPolicy) (e : OrderEffect) where
  liquidity-IsConsistent : IsConsistent (liquidity_participation_evaluation r p e)
  unfolding liquidity_participation_evaluation evaluation_is_valid
  liquidity-IsConsistent =
      let checks =
        share_checks p e.proposed_notional r.liquidity_risk.rolling_24h_quote_volume_notional
          r.liquidity_risk.top_of_book_depth_notional in
      if_IsConsistent _
        (breach_at participation (of_nat 1) (of_nat 0) hard_breach liquidity_participation_hard
          none)
        (participation_outcome p checks (find? above_hard checks) (find? above_soft checks)) refl
        (participation-IsConsistent p checks (find? above_hard checks) (find? above_soft checks))

  market-IsConsistent :
      IsConsistent (liquidity_spread_evaluation r p)
      × IsConsistent (market_volatility_evaluation r p)
  unfolding liquidity_spread_evaluation market_volatility_evaluation evaluation_is_valid
  market-IsConsistent = ground arith

  engine-IsConsistent :
      IsConsistent (engine_latency_evaluation r)
      × IsConsistent (model_drift_or_calibration_evaluation r)
      × IsConsistent (tca_cost_slippage_evaluation r p)
  unfolding engine_latency_evaluation model_drift_or_calibration_evaluation
      tca_cost_slippage_evaluation evaluation_is_valid
  engine-IsConsistent = ground arith

data-IsConsistent :
    (digest : OrderIntent → String) (r : RiskCheckRequest)
    → IsConsistent (data_freshness_evaluation r) × IsConsistent (idempotency_evaluation digest r)
unfolding data_freshness_evaluation idempotency_evaluation evaluation_is_valid
data-IsConsistent digest r = ground arith

throttle-IsConsistent : (w : OrderThrottleWindow) → IsConsistent (throttle_evaluation w)
unfolding throttle_evaluation evaluation_is_valid
throttle-IsConsistent w = ground arith

reject_burst-IsConsistent :
    (w : ExecutionRejectBurstWindow) → IsConsistent (reject_burst_evaluation w)
unfolding reject_burst_evaluation evaluation_is_valid
reject_burst-IsConsistent w = ground arith

all-map {ℓ} :
    {A : Type ℓ} (f : A → RiskLimitEvaluation) (xs : List A)
    → ((x : A) → IsConsistent (f x))
    → all evaluation_is_valid (map f xs) ≡ true
all-map f [] h = refl
all-map f (x ∷ xs) h = ground (arith, h x, all-map f xs h)

throttles_consistent :
    (ws : List OrderThrottleWindow) → all evaluation_is_valid (throttle_evaluations ws) ≡ true
unfolding throttle_evaluations evaluation_is_valid
throttles_consistent [] = refl
throttles_consistent (w ∷ ws) = all-map throttle_evaluation (w ∷ ws) throttle-IsConsistent

rejects_consistent :
    (ws : List ExecutionRejectBurstWindow)
    → all evaluation_is_valid (reject_burst_evaluations ws) ≡ true
unfolding reject_burst_evaluations evaluation_is_valid
rejects_consistent [] = refl
rejects_consistent (w ∷ ws) = all-map reject_burst_evaluation (w ∷ ws) reject_burst-IsConsistent

-- Whatever the request, the policy, the metadata and the order effect are, every evaluation that the
-- engine builds passes the validator of RiskLimitEvaluation.
pub evaluations_consistent :
    (d : Digests) (r : RiskCheckRequest) (p : RiskPolicy) (m : MetadataView) (e : OrderEffect)
    → all evaluation_is_valid (evaluate_limits d r p m e) ≡ true
unfolding evaluate_limits
evaluations_consistent d r p m e = ground (
  arith,
  state-IsConsistent r p m e,
  exposure-IsConsistent r p m e,
  loss-IsConsistent r p m e,
  liquidity-IsConsistent r p e,
  market-IsConsistent r p e,
  data-IsConsistent d.order_intent_hash r,
  windows,
)
  where
    valid : RiskLimitEvaluation → Bool
    valid = evaluation_is_valid

    rest : List RiskLimitEvaluation
    rest =
        engine_latency_evaluation r
        ∷ model_drift_or_calibration_evaluation r
        ∷ tca_cost_slippage_evaluation r p
        ∷ []

    windows :
        all valid (
          throttle_evaluations r.throttle_windows
          ++ (reject_burst_evaluations r.reject_burst_windows ++ rest))
        ≡ true
    windows = ground (
      arith,
      all-append valid (throttle_evaluations r.throttle_windows)
          (reject_burst_evaluations r.reject_burst_windows ++ rest),
      all-append valid (reject_burst_evaluations r.reject_burst_windows) rest,
      throttles_consistent r.throttle_windows,
      rejects_consistent r.reject_burst_windows,
      engine-IsConsistent r p e,
    )
