-- ===== src/Engine/MarketLimits.antt =====
-- The limits on liquidity, spread and volatility.
use ta_model_v.Base.{
  Bool, Option, none, some, List, [], ◌∷◌, ◌++◌, find?, is_some, not, ◌&&◌, ◌||◌, if◌then◌else◌,
}
use ta_model_v.Decimal.{Decimal, of_nat}
use ta_model_v.Decimal
use ta_model_v.Contracts.Policy.{RiskPolicy}
use ta_model_v.Contracts.Risk.{
  participation, spread, volatility, hard_breach, liquidity_participation_soft,
  liquidity_participation_hard, liquidity_spread_soft, liquidity_spread_hard,
  market_volatility_soft, market_volatility_hard, RiskLimitEvaluation, OrderEffect,
  RiskCheckRequest,
}
use ta_model_v.Engine.Evaluation.{evaluation, pass_at, breach_at, cap_at, threshold_evaluation}

-- One entry of the list `checks`: the order's share, its two thresholds, and the notional to cap
-- at.
pub record ShareCheck : Type 0 where
  pub share : Decimal
  pub soft : Decimal
  pub hard : Decimal
  pub soft_cap : Decimal

abbrev pub share_check : Decimal → Decimal → Decimal → Option Decimal → List ShareCheck
share_check notional soft hard none = []
share_check notional soft hard (some volume) =
    record {
      share = Decimal.div notional volume;
      soft = soft;
      hard = hard;
      soft_cap = Decimal.mul volume soft;
    }
    ∷ []

abbrev pub share_checks : RiskPolicy → Decimal → Option Decimal → Option Decimal → List ShareCheck
share_checks policy notional volume depth =
    share_check notional policy.max_participation_24h_quote_volume_soft_pct
      policy.max_participation_24h_quote_volume_hard_pct volume
    ++ share_check notional policy.max_participation_top_of_book_depth_soft_pct
        policy.max_participation_top_of_book_depth_hard_pct depth

abbrev pub above_hard : ShareCheck → Bool
above_hard c = Decimal.lt c.hard c.share

abbrev pub above_soft : ShareCheck → Bool
above_soft c = Decimal.lt c.soft c.share

-- `max(checks, key=lambda item: item[0])`, for a list that begins with `best`.
abbrev pub largest_share : ShareCheck → List ShareCheck → ShareCheck
largest_share best [] = best
largest_share best (c ∷ cs) = largest_share (if Decimal.lt best.share c.share then c else best) cs

-- The part of `_liquidity_participation_evaluation` below the list of checks.
unfoldable pub participation_outcome :
    RiskPolicy → List ShareCheck → Option ShareCheck → Option ShareCheck → RiskLimitEvaluation
unfolding evaluation
participation_outcome policy [] hard soft =
    pass_at participation (of_nat 0) policy.max_participation_24h_quote_volume_hard_pct
      (some policy.max_participation_24h_quote_volume_soft_pct)
participation_outcome policy (c ∷ cs) (some h) soft =
    breach_at participation h.share h.hard hard_breach liquidity_participation_hard (some h.soft)
participation_outcome policy (c ∷ cs) none (some s) =
    cap_at participation s.share s.hard liquidity_participation_soft s.soft s.soft_cap
participation_outcome policy (c ∷ cs) none none =
    let best = largest_share c cs in pass_at participation best.share best.hard (some best.soft)

unfoldable pub liquidity_participation_evaluation :
    RiskCheckRequest → RiskPolicy → OrderEffect → RiskLimitEvaluation
unfolding evaluation
liquidity_participation_evaluation request policy effect =
    let telemetry = request.liquidity_risk in
    let checks =
      share_checks policy effect.proposed_notional telemetry.rolling_24h_quote_volume_notional
        telemetry.top_of_book_depth_notional in
    if telemetry.depth_metric_required && not (is_some telemetry.top_of_book_depth_notional)
    then breach_at participation (of_nat 1) (of_nat 0) hard_breach liquidity_participation_hard none
    else participation_outcome policy checks (find? above_hard checks) (find? above_soft checks)

abbrev pub spread_limit : RiskPolicy → Option Decimal → Decimal
spread_limit policy none = policy.max_spread_hard_bps
spread_limit policy (some envelope) = Decimal.min policy.max_spread_hard_bps envelope

abbrev spread_outcome : RiskPolicy → Option Decimal → Option Decimal → RiskLimitEvaluation
spread_outcome policy envelope none =
    breach_at spread (of_nat 0) policy.max_spread_hard_bps hard_breach liquidity_spread_hard
      (some policy.max_spread_soft_bps)
spread_outcome policy envelope (some current) =
    threshold_evaluation spread current policy.max_spread_soft_bps (spread_limit policy envelope)
      liquidity_spread_soft liquidity_spread_hard

unfoldable pub liquidity_spread_evaluation : RiskCheckRequest → RiskPolicy → RiskLimitEvaluation
unfolding threshold_evaluation
liquidity_spread_evaluation request policy =
    let telemetry = request.liquidity_risk in
    spread_outcome policy telemetry.spread_cost_model_envelope_bps telemetry.current_spread_bps

-- `value or Decimal("0")`: zero itself is falsy, and is zero either way.
abbrev pub or_zero : Option Decimal → Decimal
or_zero none = of_nat 0
or_zero (some d) = d

unfoldable pub market_volatility_evaluation : RiskCheckRequest → RiskPolicy → RiskLimitEvaluation
unfolding threshold_evaluation
market_volatility_evaluation request policy =
    let telemetry = request.market_risk in
    let hard = policy.max_volatility_envelope_hard_multiplier in
    let soft = policy.max_volatility_envelope_soft_multiplier in
    let current = or_zero telemetry.volatility_envelope_multiplier in
    if not telemetry.volatility_envelope_available
      || not (is_some telemetry.volatility_envelope_multiplier)
      || telemetry.volatility_shock_active
    then breach_at volatility current hard hard_breach market_volatility_hard (some soft)
    else threshold_evaluation volatility current soft hard market_volatility_soft
        market_volatility_hard
