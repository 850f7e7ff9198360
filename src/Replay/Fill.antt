-- ===== src/Replay/Fill.antt =====
-- `_replay_one` of simulation/replay.py: the bar that an intent is tried on, and its fill.
use ta_model_v.Base.{
  ℕ, suc, Bool, Option, none, some, List, [], ◌∷◌, get_elem?, not, ltb, leb, ◌&&◌, if◌then◌else◌,
  str_eq,
}
use ta_model_v.Base.Equality.{string_eq, pair_eq}
use ta_model_v.Decimal.{Decimal, of_nat}
use ta_model_v.Decimal
use ta_model_v.Contracts.Result.{Result, ok, ◌>>=◌}
use ta_model_v.Contracts.Instrument.{market, order_type_eq}
use ta_model_v.Contracts.Bar.{OhlctvBar}
use ta_model_v.Contracts.Order.{OrderIntent}
use ta_model_v.Contracts.ReplayResult.{
  ReplayRejectReason, unsupported_order_type, no_future_eligible_event, insufficient_liquidity,
  CostTrace, make_result,
}
use ta_model_v.Contracts.Simulation.{ExecutionCostModel}
use ta_model_v.Replay.Metadata.{metadata_reject_reason, constraint_reject_reason}
use ta_model_v.Replay.Draft.{ReplayDigests, no_trace, trace_of, free_draft, costed_draft}
use ta_model_v.Replay.Settle.{Venues, Balances, Outcome, leave, apply_balance_or_reject}

abbrev pub is_eligible : OrderIntent → OhlctvBar → Bool
is_eligible intent bar =
    str_eq bar.instrument_id intent.instrument_id
    && str_eq bar.venue_id intent.venue_id
    && leb intent.submitted_at bar.open_ts
    && ltb intent.submitted_at bar.close_ts

-- The eligible bars with their indices, counted from `index`.
unfoldable pub eligible_bars : OrderIntent → ℕ → List OhlctvBar → List (ℕ × OhlctvBar)
eligible_bars intent index [] = []
eligible_bars intent index (bar ∷ bars) =
    let rest = eligible_bars intent (suc index) bars in
    if is_eligible intent bar then (index, bar) ∷ rest else rest

-- The constraint check, which needs the snapshot.
abbrev pub constraint_reason :
    OrderIntent → Option Venues → OhlctvBar → Result (Option ReplayRejectReason)
constraint_reason intent none bar = ok none
constraint_reason intent (some v) bar =
    constraint_reject_reason intent v.snapshot bar.open_price bar.open_ts

-- Rejected with the given reason, or else what comes next.
abbrev pub reject_or :
    ReplayDigests
    → OrderIntent
    → Option ReplayRejectReason
    → CostTrace
    → Balances
    → Result Outcome
    → Result Outcome
reject_or digests intent none trace balances next = next
reject_or digests intent (some reason) trace balances next =
    leave digests intent reason trace balances

unfoldable pub fill_without_costs :
    ReplayDigests → Option Venues → OrderIntent → OhlctvBar → Balances → Result Outcome
fill_without_costs digests venues intent bar balances = do
  reason ← constraint_reason intent venues bar
  reject_or digests intent reason no_trace balances (do
    result ← make_result digests.result_id (free_draft intent bar)
    apply_balance_or_reject digests venues result balances)

-- The part of `_replay_one` below the constraint check, with a cost model.
unfoldable pub fill_limited :
    ReplayDigests
    → Option Venues
    → OrderIntent
    → ExecutionCostModel
    → OhlctvBar
    → CostTrace
    → Balances
    → Result Outcome
fill_limited digests venues intent model bar trace balances =
    let most = Decimal.mul bar.base_volume model.max_participation_rate in
    let quantity = Decimal.min intent.quantity most in
    if Decimal.le most (of_nat 0)
    then leave digests intent insufficient_liquidity trace balances
    else if Decimal.lt quantity intent.quantity && not model.allow_partial_fills
    then leave digests intent insufficient_liquidity trace balances
    else (do
      result ← make_result digests.result_id (costed_draft intent model bar quantity trace)
      apply_balance_or_reject digests venues result balances)

-- The attempt on the bar that the latency leads to, if there is one.
unfoldable pub fill_with_costs :
    ReplayDigests
    → Option Venues
    → OrderIntent
    → ExecutionCostModel
    → ℕ
    → Option (ℕ × OhlctvBar)
    → Balances
    → Result Outcome
fill_with_costs digests venues intent model first none balances =
    leave digests intent no_future_eligible_event (trace_of digests model (some first) none)
      balances
fill_with_costs digests venues intent model first (some (index, bar)) balances = do
  let trace = trace_of digests model (some first) (some index)
  reason ← constraint_reason intent venues bar
  reject_or digests intent reason trace balances
      (fill_limited digests venues intent model bar trace balances)

unfoldable pub fill_eligible :
    ReplayDigests
    → Option Venues
    → Option ExecutionCostModel
    → OrderIntent
    → List (ℕ × OhlctvBar)
    → Balances
    → Result Outcome
fill_eligible digests venues cost_model intent [] balances =
    leave digests intent no_future_eligible_event no_trace balances
fill_eligible digests venues none intent ((index, bar) ∷ rest) balances =
    fill_without_costs digests venues intent bar balances
fill_eligible digests venues (some model) intent ((index, bar) ∷ rest) balances =
    fill_with_costs digests venues intent model index
      (get_elem? ((index, bar) ∷ rest) model.latency_bars) balances

abbrev pub metadata_reason : OrderIntent → Option Venues → Option ReplayRejectReason
metadata_reason intent none = none
metadata_reason intent (some v) = metadata_reject_reason intent v.snapshot v.account_state

unfoldable pub replay_one :
    ReplayDigests
    → Option Venues
    → Option ExecutionCostModel
    → List OhlctvBar
    → OrderIntent
    → Balances
    → Result Outcome
replay_one digests venues cost_model bars intent balances =
    reject_or digests intent (metadata_reason intent venues) no_trace balances (
      if order_type_eq intent.order_type market
      then fill_eligible digests venues cost_model intent (eligible_bars intent 0 bars) balances
      else leave digests intent unsupported_order_type no_trace balances)
