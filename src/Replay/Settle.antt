-- ===== src/Replay/Settle.antt =====
-- `_apply_balance_or_reject` of simulation/replay.py: a fill against the simulated balances.
use ta_model_v.Base.{Option, none, some, if◌then◌else◌}
use ta_model_v.Base.Dict.{Dict, lookup, insert}
use ta_model_v.Base.Equality.{string_eq, pair_eq}
use ta_model_v.Decimal.{Decimal, of_nat}
use ta_model_v.Decimal
use ta_model_v.Contracts.Result.{Result, ok, err, ◌>>=◌, stop_iteration}
use ta_model_v.Contracts.Instrument.{Instrument, InstrumentMasterSnapshot}
use ta_model_v.Contracts.Order.{OrderIntent, OrderSide, buy, sell}
use ta_model_v.Contracts.ReplayResult.{
  ReplayRejectReason, insufficient_cash, insufficient_inventory, CostTrace, ReplayOrderResult,
}
use ta_model_v.Contracts.Simulation.{SimulatedAccountState, BalanceKey}
use ta_model_v.Replay.Metadata.{instrument_of}
use ta_model_v.Replay.Draft.{ReplayDigests, no_trace, unfilled_result}

-- The snapshot and the account state, which come together or not at all.
pub record Venues : Type 0 where
  pub snapshot : InstrumentMasterSnapshot
  pub account_state : SimulatedAccountState

abbrev pub Balances : Type 0
Balances = Dict BalanceKey Decimal

-- `balances.get(key, Decimal("0"))`
abbrev pub available : Option Decimal → Decimal
available none = of_nat 0
available (some d) = d

abbrev pub balance_of : Balances → BalanceKey → Decimal
balance_of balances key = available (lookup key balances)

abbrev pub Outcome : Type 0
Outcome = ReplayOrderResult × Balances

-- An unfilled result leaves the balances as they are.
abbrev pub leave :
    ReplayDigests → OrderIntent → ReplayRejectReason → CostTrace → Balances → Result Outcome
leave digests intent reason trace balances = do
  result ← unfilled_result digests intent reason trace
  ok (result, balances)

-- The cash side of a fill: what a buy costs with its fee.
abbrev pub debit : ReplayOrderResult → Decimal
debit result = Decimal.add result.attribution.effective_notional result.attribution.fee_cost

-- The balances of a buy and of a sale; `base` and `quote` are read before they are written.
unfoldable pub settle_buy :
    ReplayDigests → ReplayOrderResult → BalanceKey → BalanceKey → Balances → Result Outcome
settle_buy digests result base_key quote_key balances =
    let base = balance_of balances base_key in
    let quote = balance_of balances quote_key in
    if Decimal.lt quote (debit result)
    then leave digests result.intent insufficient_cash no_trace balances
    else ok (
      result,
      insert base_key (Decimal.add base result.filled_quantity)
          (insert quote_key (Decimal.sub quote (debit result)) balances),
    )

unfoldable pub settle_sell :
    ReplayDigests → ReplayOrderResult → BalanceKey → BalanceKey → Balances → Result Outcome
settle_sell digests result base_key quote_key balances =
    let base = balance_of balances base_key in
    let quote = balance_of balances quote_key in
    let a = result.attribution in
    if Decimal.lt base result.filled_quantity
    then leave digests result.intent insufficient_inventory no_trace balances
    else ok (
      result,
      insert quote_key (Decimal.sub (Decimal.add quote a.effective_notional) a.fee_cost)
          (insert base_key (Decimal.sub base result.filled_quantity) balances),
    )

abbrev pub settle :
    OrderSide
    → ReplayDigests
    → ReplayOrderResult
    → BalanceKey
    → BalanceKey
    → Balances
    → Result Outcome
settle buy = settle_buy
settle sell = settle_sell

-- `next(...)` without a default raises where there is no such instrument.
abbrev pub settle_for :
    ReplayDigests → ReplayOrderResult → Option Instrument → Balances → Result Outcome
settle_for digests result none balances = err (stop_iteration "no instrument")
settle_for digests result (some i) balances =
    settle result.intent.side digests result (result.intent.venue_id, i.base_asset_id)
      (result.intent.venue_id, i.quote_asset_id) balances

unfoldable pub apply_balance_or_reject :
    ReplayDigests → Option Venues → ReplayOrderResult → Balances → Result Outcome
unfolding settle_buy settle_sell
apply_balance_or_reject digests none result balances = ok (result, balances)
apply_balance_or_reject digests (some v) result balances =
    settle_for digests result (instrument_of v.snapshot result.intent) balances
