-- ===== src/Engine/Evaluation.antt =====
-- How a limit's outcome is built: `_evaluation`, `_threshold_evaluation` and
-- `_negative_loss_evaluation` of risk/engine.py, and the owners of the limits.
use ta_model_v.Base.{String, Option, none, some, if◌then◌else◌}
use ta_model_v.Decimal.{Decimal}
use ta_model_v.Decimal
use ta_model_v.Contracts.Risk.{
  LimitId, product_mvp, required_state, active_state, max_notional, price_collar,
  instrument_exposure, strategy_exposure, total_spot_exposure, no_oversell, daily_account,
  daily_strategy, max_drawdown, participation, spread, volatility, freshness, venue_status,
  order_throttle, duplicate, reject_burst, latency, drift_or_calibration, cost_slippage,
  RiskLimitStatus, pass, soft_breach, hard_breach, RiskReasonCode, passed, RiskLimitEvaluation,
  is_pass,
}

-- `_LIMIT_OWNERS`
pub limit_owner : LimitId → String
limit_owner product_mvp = "Product / risk"
limit_owner required_state = "Risk / architecture"
limit_owner active_state = "Risk / ops"
limit_owner max_notional = "Risk / execution"
limit_owner price_collar = "Execution / risk"
limit_owner instrument_exposure = "Risk"
limit_owner strategy_exposure = "Risk / strategy owner"
limit_owner total_spot_exposure = "Risk / product"
limit_owner no_oversell = "Risk / execution"
limit_owner daily_account = "Risk"
limit_owner daily_strategy = "Risk / strategy owner"
limit_owner max_drawdown = "Risk / product"
limit_owner participation = "Execution / risk"
limit_owner spread = "Execution / risk"
limit_owner volatility = "Risk / quant"
limit_owner freshness = "Data / risk"
limit_owner venue_status = "Ops / execution"
limit_owner order_throttle = "Execution / ops"
limit_owner duplicate = "Execution / risk"
limit_owner reject_burst = "Execution / ops"
limit_owner latency = "Ops / risk"
limit_owner drift_or_calibration = "ML / risk"
limit_owner cost_slippage = "Execution / risk"

-- `status or RiskLimitStatus.PASS`
abbrev pub final_status : Option RiskLimitStatus → RiskLimitStatus
final_status none = pass
final_status (some s) = s

-- `_evaluation`: a status of `None` is a pass.
unfoldable pub evaluation :
    LimitId
    → Decimal
    → Decimal
    → Option RiskLimitStatus
    → RiskReasonCode
    → Option Decimal
    → Option Decimal
    → RiskLimitEvaluation
unfolding limit_owner
evaluation limit_id current hard status reason soft capped =
    let final = final_status status in
    record {
      limit_id = limit_id;
      owner = limit_owner limit_id;
      status = final;
      passed = is_pass final;
      current_value = current;
      soft_threshold = soft;
      hard_threshold = some hard;
      capped_value = capped;
      reason_code = reason;
    }

-- The common calls: a pass, a breach, and a soft breach that names the value to cap at.
abbrev pub pass_at : LimitId → Decimal → Decimal → Option Decimal → RiskLimitEvaluation
pass_at limit_id current hard soft = evaluation limit_id current hard none passed soft none

abbrev pub breach_at :
    LimitId
    → Decimal
    → Decimal
    → RiskLimitStatus
    → RiskReasonCode
    → Option Decimal
    → RiskLimitEvaluation
breach_at limit_id current hard status reason soft =
    evaluation limit_id current hard (some status) reason soft none

abbrev pub cap_at :
    LimitId → Decimal → Decimal → RiskReasonCode → Decimal → Decimal → RiskLimitEvaluation
cap_at limit_id current hard reason soft capped =
    evaluation limit_id current hard (some soft_breach) reason (some soft) (some capped)

-- `_threshold_evaluation`: above the hard threshold, above the soft one, or a pass.
unfoldable pub threshold_evaluation :
    LimitId → Decimal → Decimal → Decimal → RiskReasonCode → RiskReasonCode → RiskLimitEvaluation
unfolding evaluation
threshold_evaluation limit_id current soft hard soft_reason hard_reason =
    if Decimal.lt hard current
    then breach_at limit_id current hard hard_breach hard_reason (some soft)
    else if Decimal.lt soft current
    then cap_at limit_id current hard soft_reason soft soft
    else pass_at limit_id current hard (some soft)

-- `_negative_loss_evaluation`: the thresholds are negative, and reaching one is a breach.
unfoldable pub negative_loss_evaluation :
    LimitId → Decimal → Decimal → Decimal → RiskReasonCode → RiskReasonCode → RiskLimitEvaluation
unfolding evaluation
negative_loss_evaluation limit_id current soft hard soft_reason hard_reason =
    if Decimal.le current hard
    then breach_at limit_id current hard hard_breach hard_reason (some soft)
    else if Decimal.le current soft
    then breach_at limit_id current hard soft_breach soft_reason (some soft)
    else pass_at limit_id current hard (some soft)
