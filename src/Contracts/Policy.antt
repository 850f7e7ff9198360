-- ===== src/Contracts/Policy.antt =====
-- The risk policy, its defaults and its validator (contracts/risk.py).
use ta_model_v.Base.{String, Bool, ◌&&◌}
use ta_model_v.Decimal.{Decimal, of_nat, literal}
use ta_model_v.Decimal
use ta_model_v.Contracts.Risk.{is_positive, is_nonneg}
use ta_model_v.Contracts.Result.{Result, ok, require, ◌>>◌, validation_error}
use ta_model_v.Contracts.Text.{is_non_empty_string}

pub record RiskPolicy : Type 0 where
  pub name : String
  pub paper_nav : Decimal
  pub max_order_notional_soft_pct : Decimal
  pub max_order_notional_hard_pct : Decimal
  pub max_instrument_exposure_soft_pct : Decimal
  pub max_instrument_exposure_hard_pct : Decimal
  pub max_strategy_exposure_soft_pct : Decimal
  pub max_strategy_exposure_hard_pct : Decimal
  pub max_total_spot_exposure_soft_pct : Decimal
  pub max_total_spot_exposure_hard_pct : Decimal
  pub min_cash_reserve_pct : Decimal
  pub price_collar_soft_bps : Decimal
  pub price_collar_hard_bps : Decimal
  pub max_daily_account_loss_soft_pct : Decimal
  pub max_daily_account_loss_hard_pct : Decimal
  pub max_daily_strategy_loss_soft_pct : Decimal
  pub max_daily_strategy_loss_hard_pct : Decimal
  pub max_drawdown_soft_pct : Decimal
  pub max_drawdown_hard_pct : Decimal
  pub max_participation_24h_quote_volume_soft_pct : Decimal
  pub max_participation_24h_quote_volume_hard_pct : Decimal
  pub max_participation_top_of_book_depth_soft_pct : Decimal
  pub max_participation_top_of_book_depth_hard_pct : Decimal
  pub max_spread_soft_bps : Decimal
  pub max_spread_hard_bps : Decimal
  pub max_volatility_envelope_soft_multiplier : Decimal
  pub max_volatility_envelope_hard_multiplier : Decimal
  pub tca_cost_slippage_soft_multiplier : Decimal
  pub tca_cost_slippage_hard_multiplier : Decimal

-- The defaults of the fields.
unfoldable pub default_policy : Decimal → String → RiskPolicy
default_policy paper_nav name = record {
  name = name;
  paper_nav = paper_nav;
  max_order_notional_soft_pct = literal 1 2;
  max_order_notional_hard_pct = literal 25 3;
  max_instrument_exposure_soft_pct = literal 15 2;
  max_instrument_exposure_hard_pct = literal 25 2;
  max_strategy_exposure_soft_pct = literal 20 2;
  max_strategy_exposure_hard_pct = literal 30 2;
  max_total_spot_exposure_soft_pct = literal 45 2;
  max_total_spot_exposure_hard_pct = literal 60 2;
  min_cash_reserve_pct = literal 30 2;
  price_collar_soft_bps = of_nat 50;
  price_collar_hard_bps = of_nat 100;
  max_daily_account_loss_soft_pct = literal 1 2;
  max_daily_account_loss_hard_pct = literal 2 2;
  max_daily_strategy_loss_soft_pct = literal 5 3;
  max_daily_strategy_loss_hard_pct = literal 1 2;
  max_drawdown_soft_pct = literal 5 2;
  max_drawdown_hard_pct = literal 8 2;
  max_participation_24h_quote_volume_soft_pct = literal 5 3;
  max_participation_24h_quote_volume_hard_pct = literal 1 2;
  max_participation_top_of_book_depth_soft_pct = literal 5 2;
  max_participation_top_of_book_depth_hard_pct = literal 10 2;
  max_spread_soft_bps = of_nat 25;
  max_spread_hard_bps = of_nat 50;
  max_volatility_envelope_soft_multiplier = of_nat 2;
  max_volatility_envelope_hard_multiplier = of_nat 3;
  tca_cost_slippage_soft_multiplier = of_nat 2;
  tca_cost_slippage_hard_multiplier = of_nat 3;
}

-- `Field(gt=0, le=1)`
abbrev pub is_fraction : Decimal → Bool
is_fraction d = is_positive d && Decimal.le d (of_nat 1)

-- A pair of fractions, and a pair of positive bounds, that pass `_raise_if_soft_above_hard`.
abbrev fractions : Decimal → Decimal → Bool
fractions soft hard = is_fraction soft && is_fraction hard && Decimal.le soft hard

abbrev positives : Decimal → Decimal → Bool
positives soft hard = is_positive soft && is_positive hard && Decimal.le soft hard

-- The fields' bounds and the validator `policy_is_consistent_and_deterministic`, without the
-- identity digests.
unfoldable pub policy_is_valid : RiskPolicy → Bool
policy_is_valid p =
    is_positive p.paper_nav
    && is_nonneg p.min_cash_reserve_pct
    && Decimal.le p.min_cash_reserve_pct (of_nat 1)
    && fractions p.max_order_notional_soft_pct p.max_order_notional_hard_pct
    && fractions p.max_instrument_exposure_soft_pct p.max_instrument_exposure_hard_pct
    && fractions p.max_strategy_exposure_soft_pct p.max_strategy_exposure_hard_pct
    && fractions p.max_total_spot_exposure_soft_pct p.max_total_spot_exposure_hard_pct
    && positives p.price_collar_soft_bps p.price_collar_hard_bps
    && fractions p.max_daily_account_loss_soft_pct p.max_daily_account_loss_hard_pct
    && fractions p.max_daily_strategy_loss_soft_pct p.max_daily_strategy_loss_hard_pct
    && fractions p.max_drawdown_soft_pct p.max_drawdown_hard_pct
    && fractions p.max_participation_24h_quote_volume_soft_pct
        p.max_participation_24h_quote_volume_hard_pct
    && fractions p.max_participation_top_of_book_depth_soft_pct
        p.max_participation_top_of_book_depth_hard_pct
    && positives p.max_spread_soft_bps p.max_spread_hard_bps
    && positives p.max_volatility_envelope_soft_multiplier p.max_volatility_envelope_hard_multiplier
    && positives p.tca_cost_slippage_soft_multiplier p.tca_cost_slippage_hard_multiplier

unfoldable pub make_default_risk_policy : Decimal → String → Result RiskPolicy
unfolding policy_is_valid default_policy
make_default_risk_policy paper_nav name = do
  require (is_non_empty_string name) (validation_error "name must be a non-empty text")
  require (policy_is_valid (default_policy paper_nav name)) (validation_error "invalid risk policy")
  ok (default_policy paper_nav name)
