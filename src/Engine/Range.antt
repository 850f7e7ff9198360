-- ===== src/Engine/Range.antt =====
-- The amounts that the risk engine (risk/engine.py) calculates with: a request's, those of its snapshot's
-- accounts, and the policy's.
use ta_model_v.Base.{Bool, Option, none, some, List, [], ◌∷◌, ◌++◌, all, ◌&&◌}
use ta_model_v.Decimal.{Decimal, is_ordinary}
use ta_model_v.Contracts.Instrument.{Account}
use ta_model_v.Contracts.Policy.{RiskPolicy}
use ta_model_v.Contracts.Risk.{RiskCheckRequest}

abbrev where_set : Option Decimal → List Decimal
where_set none = []
where_set (some d) = d ∷ []

abbrev request_amounts : RiskCheckRequest → List Decimal
request_amounts r =
    r.order_intent.quantity
      ∷ r.reference_price
      ∷ r.account_equity
      ∷ r.current_cash
      ∷ r.current_instrument_position_quantity
      ∷ r.current_instrument_exposure_notional
      ∷ r.current_strategy_exposure_notional
      ∷ r.current_total_spot_exposure_notional
      ∷ r.engine_latency.latency_budget_ms
      ∷ where_set r.liquidity_risk.rolling_24h_quote_volume_notional
    ++ where_set r.liquidity_risk.top_of_book_depth_notional

abbrev policy_amounts : RiskPolicy → List Decimal
policy_amounts p =
    p.paper_nav ∷ p.max_order_notional_soft_pct ∷ p.max_order_notional_hard_pct
    ∷ p.max_instrument_exposure_soft_pct ∷ p.max_instrument_exposure_hard_pct
    ∷ p.max_strategy_exposure_soft_pct ∷ p.max_strategy_exposure_hard_pct
    ∷ p.max_total_spot_exposure_soft_pct ∷ p.max_total_spot_exposure_hard_pct
    ∷ p.min_cash_reserve_pct ∷ p.max_daily_account_loss_soft_pct ∷ p.max_daily_account_loss_hard_pct
    ∷ p.max_daily_strategy_loss_soft_pct ∷ p.max_daily_strategy_loss_hard_pct
    ∷ p.max_participation_24h_quote_volume_soft_pct ∷ p.max_participation_top_of_book_depth_soft_pct
    ∷ []

abbrev account_amounts : Account → List Decimal
account_amounts a =
    a.risk_limits.max_order_notional_pct ∷ a.risk_limits.max_instrument_exposure_pct
    ∷ a.risk_limits.max_strategy_exposure_pct ∷ a.risk_limits.max_total_spot_exposure_pct
    ∷ a.risk_limits.min_cash_reserve_pct ∷ []

-- Every amount is ordinary, so that no result of the engine's arithmetic overflows.
abbrev pub amounts_are_ordinary : RiskCheckRequest → RiskPolicy → Bool
amounts_are_ordinary r p =
    all is_ordinary (request_amounts r)
    && all is_ordinary (policy_amounts p)
    && all (λ a. all is_ordinary (account_amounts a)) r.instrument_master_snapshot.accounts
