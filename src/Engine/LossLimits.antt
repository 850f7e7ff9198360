-- ===== src/Engine/LossLimits.antt =====
-- The limits on daily losses and on the drawdown.
use ta_model_v.Decimal
use ta_model_v.Contracts.Policy.{RiskPolicy}
use ta_model_v.Contracts.Risk.{
  daily_account, daily_strategy, max_drawdown, daily_account_loss_soft, daily_account_loss_hard,
  daily_strategy_loss_soft, daily_strategy_loss_hard, max_drawdown_soft, max_drawdown_hard,
  RiskLimitEvaluation, RiskCheckRequest,
}
use ta_model_v.Engine.Evaluation.{threshold_evaluation, negative_loss_evaluation}

unfoldable pub daily_account_loss_evaluation : RiskCheckRequest → RiskPolicy → RiskLimitEvaluation
unfolding negative_loss_evaluation
daily_account_loss_evaluation request policy =
    negative_loss_evaluation daily_account request.loss_risk.daily_account_pnl
      (Decimal.neg (Decimal.mul policy.paper_nav policy.max_daily_account_loss_soft_pct))
      (Decimal.neg (Decimal.mul policy.paper_nav policy.max_daily_account_loss_hard_pct))
      daily_account_loss_soft daily_account_loss_hard

unfoldable pub daily_strategy_loss_evaluation : RiskCheckRequest → RiskPolicy → RiskLimitEvaluation
unfolding negative_loss_evaluation
daily_strategy_loss_evaluation request policy =
    negative_loss_evaluation daily_strategy request.loss_risk.daily_strategy_pnl
      (Decimal.neg (Decimal.mul policy.paper_nav policy.max_daily_strategy_loss_soft_pct))
      (Decimal.neg (Decimal.mul policy.paper_nav policy.max_daily_strategy_loss_hard_pct))
      daily_strategy_loss_soft daily_strategy_loss_hard

unfoldable pub max_drawdown_evaluation : RiskCheckRequest → RiskPolicy → RiskLimitEvaluation
unfolding threshold_evaluation
max_drawdown_evaluation request policy =
    threshold_evaluation max_drawdown request.loss_risk.max_drawdown_pct
      policy.max_drawdown_soft_pct policy.max_drawdown_hard_pct max_drawdown_soft max_drawdown_hard
