-- ===== src/Engine/Decision.antt =====
-- `evaluate_pre_trade_risk` of risk/engine.py: all limits, the decision, and the cap on an order
-- that only breaches soft limits.
use ta_model_v.Base.{
  String, Bool, true, false, Option, none, some, List, [], ◌∷◌, ◌++◌, all, filter, ◌&&◌,
  if◌then◌else◌,
}
use ta_model_v.Decimal.{Decimal, of_nat}
use ta_model_v.Decimal
use ta_model_v.Contracts.Result.{Result, ok, require, ◌>>=◌, ◌>>◌, validation_error}
use ta_model_v.Contracts.Order.{OrderIntent, make_order_intent, is_buy}
use ta_model_v.Contracts.Policy.{RiskPolicy}
use ta_model_v.Contracts.Risk.{
  LimitId, max_notional, participation, instrument_exposure, strategy_exposure, total_spot_exposure,
  RiskDecisionStatus, approved, approved_after_cap, rejected, no_trade, RiskReasonCode,
  position_total_spot_exposure_soft, RiskLimitEvaluation, is_soft, evaluation_is_valid, OrderEffect,
  effect_is_valid, RiskCheckRequest,
}
use ta_model_v.Contracts.Event.{RiskCheckEvent, has_hard_breach, make_risk_check_event}
use ta_model_v.Engine.Metadata.{MetadataView, metadata_view}
use ta_model_v.Engine.Effect.{build_order_effect}
use ta_model_v.Engine.StateLimits.{
  required_state_evaluation, product_scope_evaluation, kill_switch_evaluation,
  venue_status_evaluation,
}
use ta_model_v.Engine.ExposureLimits.{
  price_collar_evaluation, order_notional_evaluation, instrument_exposure_evaluation,
  strategy_exposure_evaluation, total_spot_exposure_evaluation, no_short_or_oversell_evaluation,
}
use ta_model_v.Engine.LossLimits.{
  daily_account_loss_evaluation, daily_strategy_loss_evaluation, max_drawdown_evaluation,
}
use ta_model_v.Engine.MarketLimits.{
  liquidity_participation_evaluation, liquidity_spread_evaluation, market_volatility_evaluation,
}
use ta_model_v.Engine.ExecutionLimits.{
  data_freshness_evaluation, idempotency_evaluation, throttle_evaluations, reject_burst_evaluations,
  engine_latency_evaluation, model_drift_or_calibration_evaluation, tca_cost_slippage_evaluation,
}

abbrev pub is_total_spot_soft : RiskReasonCode → Bool
is_total_spot_soft position_total_spot_exposure_soft = true
is_total_spot_soft _ = false

-- What a soft breach still allows, by its limit; `none` where the limit names no cap.
abbrev pub cap_for : LimitId → RiskReasonCode → RiskCheckRequest → Decimal → Option Decimal
cap_for max_notional reason request capped = some capped
cap_for participation reason request capped = some capped
cap_for instrument_exposure reason request capped =
    some (Decimal.sub capped request.current_instrument_exposure_notional)
cap_for strategy_exposure reason request capped =
    some (Decimal.sub capped request.current_strategy_exposure_notional)
cap_for total_spot_exposure reason request capped =
    if is_total_spot_soft reason
    then some (Decimal.sub capped request.current_total_spot_exposure_notional)
    else none
cap_for _ reason request capped = none

abbrev pub capped_or_none :
    LimitId → RiskReasonCode → RiskCheckRequest → Option Decimal → Option Decimal
capped_or_none limit reason request none = none
capped_or_none limit reason request (some capped) = cap_for limit reason request capped

unfoldable pub allowed_incremental_notional :
    RiskCheckRequest → RiskLimitEvaluation → Option Decimal
allowed_incremental_notional request e =
    if is_soft e.status
    then capped_or_none e.limit_id e.reason_code request e.capped_value
    else none

abbrev pub consed {ℓ} : {A : Type ℓ} → Option A → Option (List A) → Option (List A)
consed none rest = none
consed (some a) none = none
consed (some a) (some as') = some (a ∷ as')

-- The loop over the soft breaches, which stops at the first that names no cap.
unfoldable pub allowed_notionals :
    RiskCheckRequest → List RiskLimitEvaluation → Option (List Decimal)
allowed_notionals request [] = some []
allowed_notionals request (e ∷ es) =
    consed (allowed_incremental_notional request e) (allowed_notionals request es)

-- `min(allowed_incremental_notionals)`, for a list that begins with `least`.
unfoldable pub least_of : Decimal → List Decimal → Decimal
least_of least [] = least
least_of least (d ∷ ds) = least_of (if Decimal.lt d least then d else least) ds

abbrev pub Decided : Type 0
Decided = RiskDecisionStatus × Option OrderIntent

-- The order cut to a quantity; `OrderIntent(...)` validates it again.
abbrev pub with_quantity : OrderIntent → Decimal → Result Decided
with_quantity intent quantity = do
  capped ← make_order_intent (record intent { quantity = quantity })
  ok (approved_after_cap, some capped)

-- The part of `_approval_after_soft_caps` below the loop.
unfoldable pub capped_approval : RiskCheckRequest → Option (List Decimal) → Result Decided
capped_approval request none = ok (no_trade, none)
capped_approval request (some []) = ok (approved, some request.order_intent)
capped_approval request (some (d ∷ ds)) =
    let allowed = least_of d ds in
    let original = Decimal.mul request.order_intent.quantity request.reference_price in
    let quantity = Decimal.div allowed request.reference_price in
    if Decimal.le allowed (of_nat 0)
    then ok (no_trade, none)
    else if Decimal.le original allowed
    then ok (approved, some request.order_intent)
    else if Decimal.le quantity (of_nat 0)
    then ok (no_trade, none)
    else with_quantity request.order_intent quantity

unfoldable pub approval_after_soft_caps :
    RiskCheckRequest → OrderEffect → List RiskLimitEvaluation → Result Decided
approval_after_soft_caps request effect evaluations =
    let soft_breaches = filter (λ e. is_soft e.status) evaluations in
    if is_buy request.order_intent.side && effect.risk_increasing
    then capped_approval request (allowed_notionals request soft_breaches)
    else ok (approved, some request.order_intent)

-- The digest of an order intent and that of an event.
pub record Digests : Type 0 where
  pub order_intent_hash : OrderIntent → String
  pub risk_check_id : RiskCheckEvent → String

-- The tuple `evaluations`, in the source's order.
unfoldable pub evaluate_limits :
    Digests → RiskCheckRequest → RiskPolicy → MetadataView → OrderEffect → List RiskLimitEvaluation
evaluate_limits digests request policy m effect =
    required_state_evaluation request m
    ∷ product_scope_evaluation m
    ∷ kill_switch_evaluation request effect
    ∷ venue_status_evaluation m
    ∷ price_collar_evaluation request policy
    ∷ order_notional_evaluation policy m effect
    ∷ instrument_exposure_evaluation policy m effect
    ∷ strategy_exposure_evaluation policy m effect
    ∷ total_spot_exposure_evaluation policy m effect
    ∷ no_short_or_oversell_evaluation request
    ∷ daily_account_loss_evaluation request policy
    ∷ daily_strategy_loss_evaluation request policy
    ∷ max_drawdown_evaluation request policy
    ∷ liquidity_participation_evaluation request policy effect
    ∷ liquidity_spread_evaluation request policy
    ∷ market_volatility_evaluation request policy
    ∷ data_freshness_evaluation request
    ∷ idempotency_evaluation digests.order_intent_hash request
    ∷ (throttle_evaluations request.throttle_windows
        ++ (reject_burst_evaluations request.reject_burst_windows
            ++ (engine_latency_evaluation request
                ∷ model_drift_or_calibration_evaluation request
                ∷ tca_cost_slippage_evaluation request policy
                ∷ [])))

-- A hard breach rejects; anything else goes through the soft caps.
unfoldable pub decide : RiskCheckRequest → OrderEffect → List RiskLimitEvaluation → Result Decided
decide request effect evaluations =
    if has_hard_breach evaluations
    then ok (rejected, none)
    else approval_after_soft_caps request effect evaluations

-- The validators of the order effect and of the evaluations run when these are built: here before
-- the decision, which does not depend on their order.
unfoldable pub evaluate_pre_trade_risk :
    Digests → RiskCheckRequest → RiskPolicy → Result RiskCheckEvent
evaluate_pre_trade_risk digests request policy = do
  let m = metadata_view request
  let effect = build_order_effect request
  require (effect_is_valid effect) (validation_error "order effect out of range")
  let evaluations = evaluate_limits digests request policy m effect
  require (all evaluation_is_valid evaluations)
      (validation_error "risk limit evaluation inconsistent")
  (decision, intent) ← decide request effect evaluations
  make_risk_check_event digests.risk_check_id request effect evaluations decision intent
