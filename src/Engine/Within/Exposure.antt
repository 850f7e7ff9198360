-- ===== src/Engine/Within/Exposure.antt =====
-- When the limits on an order, on the positions and on losses are not hard breaches.
use ta_model_v.Base.{true, Option, none, some, ◌≡◌, ◌↔◌, arith}
use ta_model_v.Decimal.{Decimal, of_nat}
use ta_model_v.Decimal
use ta_model_v.Decimal.Order.{AtMost, lower_bound_iff, max-AtMost, lt_irrefl}
use ta_model_v.Decimal.Rounding.{zero-lt-sub}
use ta_model_v.Contracts.Instrument.{market, Account, AccountRiskLimits, InstrumentConstraint}
use ta_model_v.Contracts.Order.{sell}
use ta_model_v.Contracts.Policy.{RiskPolicy}
use ta_model_v.Contracts.Risk.{RiskCheckRequest, OrderEffect}
use ta_model_v.Engine.Metadata.{MetadataView}
use ta_model_v.Engine.ExposureLimits.{
  account_limit, hard_share, constraint_notional, min_with, price_collar_evaluation,
  order_notional_limit, order_notional_evaluation, instrument_exposure_limit,
  instrument_exposure_evaluation, strategy_exposure_limit, strategy_exposure_evaluation,
  cash_reserve, total_spot_exposure_limit, total_spot_exposure_evaluation,
  no_short_or_oversell_evaluation,
}
use ta_model_v.Engine.LossLimits.{
  daily_account_loss_evaluation, daily_strategy_loss_evaluation, max_drawdown_evaluation,
}
use ta_model_v.Engine.Within.State.{IsNotHard}

pub price_collar_iff :
    (r : RiskCheckRequest) (p : RiskPolicy)
    → IsNotHard (price_collar_evaluation r p) ↔ (
        (r.price_risk.reference_price_available ≡ true)
        × AtMost r.price_risk.price_deviation_bps p.price_collar_hard_bps
        × (r.order_intent.order_type ≡ market
            → AtMost r.price_risk.price_deviation_bps p.price_collar_soft_bps))
unfolding price_collar_evaluation
price_collar_iff r p = ground arith

-- The account, where there is one, sets the bound at a share of the net asset value.
abbrev pub AtMostOfAccount :
    RiskPolicy → Option Account → (AccountRiskLimits → Decimal) → Decimal → Type 0
AtMostOfAccount p none share x = Unit
AtMostOfAccount p (some a) share x = AtMost x (Decimal.mul p.paper_nav (share a.risk_limits))

abbrev pub IsWithinBound : Option Decimal → Decimal → Type 0
IsWithinBound none x = Unit
IsWithinBound (some bound) x = AtMost x bound

by_bound :
    (d : Decimal) (bound : Option Decimal) (x : Decimal)
    → AtMost x (min_with d bound) ↔ (AtMost x d × IsWithinBound bound x)
by_bound d none x = ground arith
by_bound d (some b) x = lower_bound_iff x d b

-- The largest order that the constraint in force allows, where it sets one.
abbrev pub AtMostOfConstraint : Option InstrumentConstraint → Decimal → Type 0
AtMostOfConstraint none x = Unit
AtMostOfConstraint (some c) x = IsWithinBound c.max_order_notional x

-- At least the reserve that the account asks for, where there is an account.
abbrev pub KeepsAccountReserve : RiskPolicy → Option Account → Decimal → Type 0
KeepsAccountReserve p none cash = Unit
KeepsAccountReserve p (some a) cash =
    AtMost (Decimal.mul p.paper_nav a.risk_limits.min_cash_reserve_pct) cash

-- An amount is at most the policy's share of the net asset value and the account's.
abbrev pub WithinShares :
    RiskPolicy → Option Account → Decimal → (AccountRiskLimits → Decimal) → Decimal → Type 0
WithinShares p account share account_share x =
    AtMost x (Decimal.mul p.paper_nav share) × AtMostOfAccount p account account_share x

hard_share_iff :
    (p : RiskPolicy) (account : Option Account) (share : Decimal)
    (account_share : AccountRiskLimits → Decimal) (x : Decimal)
    → AtMost x (hard_share p share (account_limit account account_share share))
      ↔ WithinShares p account share account_share x
hard_share_iff p none share account_share x =
    ground
      (arith, lower_bound_iff x (Decimal.mul p.paper_nav share) (Decimal.mul p.paper_nav share))
hard_share_iff p (some a) share account_share x =
    lower_bound_iff x (Decimal.mul p.paper_nav share)
      (Decimal.mul p.paper_nav (account_share a.risk_limits))

min_with_iff :
    (d : Decimal) (constraint : Option InstrumentConstraint) (x : Decimal)
    → AtMost x (min_with d (constraint_notional constraint))
      ↔ (AtMost x d × AtMostOfConstraint constraint x)
min_with_iff d none x = ground arith
min_with_iff d (some c) x = by_bound d c.max_order_notional x

cash_reserve_iff :
    (p : RiskPolicy) (account : Option Account) (cash : Decimal)
    → AtMost
        (Decimal.max (Decimal.mul p.paper_nav p.min_cash_reserve_pct) (
          Decimal.mul p.paper_nav
            (account_limit account (λ l. l.min_cash_reserve_pct) p.min_cash_reserve_pct)))
        cash
      ↔ (AtMost (Decimal.mul p.paper_nav p.min_cash_reserve_pct) cash
          × KeepsAccountReserve p account cash)
cash_reserve_iff p none cash =
    let own = Decimal.mul p.paper_nav p.min_cash_reserve_pct in
    ground (arith, max-AtMost own own cash)
cash_reserve_iff p (some a) cash =
    max-AtMost (Decimal.mul p.paper_nav p.min_cash_reserve_pct)
      (Decimal.mul p.paper_nav a.risk_limits.min_cash_reserve_pct) cash

abbrev pub OrderWithin : RiskPolicy → MetadataView → Decimal → Type 0
OrderWithin p m x =
    WithinShares p m.account p.max_order_notional_hard_pct (λ l. l.max_order_notional_pct) x
    × AtMostOfConstraint m.constraint x

order_notional_limit_iff :
    (p : RiskPolicy) (m : MetadataView) (x : Decimal)
    → AtMost x (order_notional_limit p m) ↔ OrderWithin p m x
unfolding order_notional_limit
order_notional_limit_iff p m x =
    let shares =
      hard_share_iff p m.account p.max_order_notional_hard_pct (λ l. l.max_order_notional_pct) x in
    let both =
      min_with_iff
        (hard_share p p.max_order_notional_hard_pct
          (account_limit m.account (λ l. l.max_order_notional_pct) p.max_order_notional_hard_pct))
        m.constraint x in
    (λ h. (shares.0 (both.0 h).0, (both.0 h).1), λ h. both.1 (shares.1 h.0, h.1))

pub order_notional_iff :
    (p : RiskPolicy) (m : MetadataView) (e : OrderEffect)
    → IsNotHard (order_notional_evaluation p m e)
      ↔ (e.risk_increasing ≡ true → OrderWithin p m e.proposed_notional)
unfolding order_notional_evaluation
order_notional_iff p m e = ground (arith, order_notional_limit_iff p m e.proposed_notional)

pub instrument_exposure_iff :
    (p : RiskPolicy) (m : MetadataView) (e : OrderEffect)
    → IsNotHard (instrument_exposure_evaluation p m e) ↔ (
        e.risk_increasing ≡ true
        → WithinShares p m.account p.max_instrument_exposure_hard_pct
            (λ l. l.max_instrument_exposure_pct)
            e.resulting_instrument_exposure_notional)
unfolding instrument_exposure_evaluation instrument_exposure_limit
instrument_exposure_iff p m e = ground (
  arith,
  hard_share_iff p m.account p.max_instrument_exposure_hard_pct (λ l. l.max_instrument_exposure_pct)
      e.resulting_instrument_exposure_notional,
)

pub strategy_exposure_iff :
    (p : RiskPolicy) (m : MetadataView) (e : OrderEffect)
    → IsNotHard (strategy_exposure_evaluation p m e) ↔ (
        e.risk_increasing ≡ true
        → WithinShares p m.account p.max_strategy_exposure_hard_pct
            (λ l. l.max_strategy_exposure_pct)
            e.resulting_strategy_exposure_notional)
unfolding strategy_exposure_evaluation strategy_exposure_limit
strategy_exposure_iff p m e = ground (
  arith,
  hard_share_iff p m.account p.max_strategy_exposure_hard_pct (λ l. l.max_strategy_exposure_pct)
      e.resulting_strategy_exposure_notional,
)

pub total_spot_exposure_iff :
    (p : RiskPolicy) (m : MetadataView) (e : OrderEffect)
    → IsNotHard (total_spot_exposure_evaluation p m e) ↔ (
        e.risk_increasing ≡ true
        → AtMost (Decimal.mul p.paper_nav p.min_cash_reserve_pct) e.resulting_cash
          × KeepsAccountReserve p m.account e.resulting_cash
          × WithinShares p m.account p.max_total_spot_exposure_hard_pct
              (λ l. l.max_total_spot_exposure_pct)
              e.resulting_total_spot_exposure_notional)
unfolding total_spot_exposure_evaluation total_spot_exposure_limit cash_reserve
total_spot_exposure_iff p m e = ground (
  arith,
  cash_reserve_iff p m.account e.resulting_cash,
  hard_share_iff p m.account p.max_total_spot_exposure_hard_pct (λ l. l.max_total_spot_exposure_pct)
      e.resulting_total_spot_exposure_notional,
)

-- A sale of at most the position, although the difference that the code tests is rounded.
pub no_oversell_iff :
    (r : RiskCheckRequest)
    → IsNotHard (no_short_or_oversell_evaluation r) ↔ (
        r.order_intent.side ≡ sell
        → AtMost r.order_intent.quantity r.current_instrument_position_quantity)
unfolding no_short_or_oversell_evaluation Decimal.max
no_oversell_iff r = ground (
  arith,
  lt_irrefl (of_nat 0),
  zero-lt-sub r.order_intent.quantity r.current_instrument_position_quantity,
)

-- The part of the net asset value that a loss stays above.
abbrev pub loss_floor : RiskPolicy → Decimal → Decimal
loss_floor p pct = Decimal.neg (Decimal.mul p.paper_nav pct)

pub losses_iff :
    (r : RiskCheckRequest) (p : RiskPolicy)
    → (IsNotHard (daily_account_loss_evaluation r p)
        × IsNotHard (daily_strategy_loss_evaluation r p)
        × IsNotHard (max_drawdown_evaluation r p))
      ↔ ((Decimal.lt (loss_floor p p.max_daily_account_loss_hard_pct) r.loss_risk.daily_account_pnl
            ≡ true)
          × (Decimal.lt
                (loss_floor p p.max_daily_strategy_loss_hard_pct)
                r.loss_risk.daily_strategy_pnl
              ≡ true)
          × AtMost r.loss_risk.max_drawdown_pct p.max_drawdown_hard_pct)
unfolding daily_account_loss_evaluation daily_strategy_loss_evaluation max_drawdown_evaluation
losses_iff r p = ground arith
