-- ===== src/Replay/Examples.antt =====
-- Concrete bars, orders, costs and accounts: inputs of the tests.
use ta_model_v.Base.{ℕ, String, false, Option, none, some, List, [], ◌∷◌}
use ta_model_v.Decimal.{of_nat, literal}
use ta_model_v.Decimal
use ta_model_v.Contracts.Result.{Result, ok, err}
use ta_model_v.Contracts.Bar.{OhlctvBar}
use ta_model_v.Contracts.Order.{OrderIntent, buy, sell}
use ta_model_v.Contracts.Constraint.{
  evaluate_order, price_codes, quantity_codes, notional_codes, is_decimal_multiple,
}
use ta_model_v.Contracts.Text.{is_canonical_id}
use ta_model_v.Contracts.Instrument.{is_effective}
use ta_model_v.Contracts.ReplayResult.{
  ReplayOrderResult, reason_value, result_bounds, common_rules, filled_rules, unfilled_rules,
  result_is_valid, make_result, count_reasons, build_rejection_counts,
}
use ta_model_v.Contracts.Simulation.{
  SimulatedAccountState, ExecutionCostModel, cost_model_is_valid, keys_are_unique,
  account_state_is_valid, make_account_state,
}
use ta_model_v.Engine.Examples.{order, snapshot}
use ta_model_v.Replay.Draft.{
  ReplayDigests, unfilled_result, effective_price, attribution_of, costed_draft, trace_of,
}
use ta_model_v.Replay.Fill.{
  eligible_bars, fill_without_costs, fill_limited, fill_with_costs, fill_eligible, replay_one,
}
use ta_model_v.Replay.Metadata.{metadata_reject_reason, constraint_reject_reason}
use ta_model_v.Replay.Rule.{identified}
use ta_model_v.Replay.Run.{
  ReplayReport, balances_from, balance_dict, replay_all, build_account_state,
  replay_ohlctv_market_orders,
}
use ta_model_v.Replay.Settle.{Venues, Balances, settle_buy, settle_sell, apply_balance_or_reject}
use ta_model_v.Replay.Validation.{
  scan_bar, scan_bars, validate_bars_are_safe, scan_intent, scan_intents, validate_order_intents,
}

abbrev pub replay_digests : ReplayDigests
replay_digests = record { result_id = λ r. r.intent.client_order_id; cost_model_hash = λ m. "HASH" }

-- A bar of the test instrument, that opens and closes at the given times.
abbrev pub bar : ℕ → ℕ → String → ℕ → OhlctvBar
bar opens closes close_iso price = record {
  instrument_id = "I1";
  venue_id = "V1";
  timeframe = "1m";
  open_ts = opens;
  close_ts = closes;
  source_ts = opens;
  close_iso = close_iso;
  open_price = of_nat price;
  high = of_nat price;
  low = of_nat price;
  close = of_nat price;
  base_volume = of_nat 100;
  vwap = none;
  raw_payload_id = "RAW1";
}

abbrev pub bars : List OhlctvBar
bars = bar 500 1500 "T1" 90 ∷ bar 2000 3000 "T2" 100 ∷ []

abbrev pub costs : ExecutionCostModel
costs = record {
  cost_model_id = "COSTS1";
  taker_fee_rate = literal 1 3;
  spread_bps = of_nat 2;
  slippage_bps = of_nat 1;
  latency_bars = 0;
  max_participation_rate = literal 1 1;
  allow_partial_fills = false;
}

abbrev pub account : SimulatedAccountState
account = record {
  account_id = "A1";
  balances =
      record { account_id = "A1"; venue_id = "V1"; asset_id = "USDT"; available = of_nat 10000 }
      ∷ [];
}

abbrev pub venues : Option Venues
venues = some (record { snapshot = snapshot; account_state = account })

-- An intent with a client order id of its own.
abbrev pub named : String → OrderIntent → OrderIntent
named id intent = record intent { client_order_id = id }

-- One order that fills, and one that sells more than the account holds.
abbrev pub intents : List OrderIntent
intents = named "C1" (order buy 5) ∷ named "C2" (order sell 7) ∷ []

-- Names what a replay computes with, for the tests.
unfoldable pub replaying : ℕ
unfolding Decimal.computing is_canonical_id metadata_reject_reason constraint_reject_reason
    price_codes quantity_codes notional_codes is_decimal_multiple evaluate_order is_effective
    reason_value result_bounds common_rules filled_rules unfilled_rules result_is_valid make_result
    count_reasons build_rejection_counts cost_model_is_valid keys_are_unique account_state_is_valid
    make_account_state unfilled_result effective_price attribution_of costed_draft eligible_bars
    fill_without_costs fill_limited fill_with_costs fill_eligible replay_one balances_from
    balance_dict replay_all build_account_state replay_ohlctv_market_orders settle_buy settle_sell
    apply_balance_or_reject scan_bar scan_bars validate_bars_are_safe scan_intent scan_intents
    validate_order_intents
replaying = 0

abbrev pub value_or : {A : Type 0} → A → Result A → A
value_or default (ok a) = a
value_or default (err e) = default

abbrev pub empty_report : ReplayReport
empty_report = record {
  run_id = "";
  result_ids = [];
  results = [];
  rejection_counts = [];
  final_account_state = none;
}

-- The report of the test replay.
abbrev pub report : ReplayReport
report = value_or empty_report (
    replay_ohlctv_market_orders replay_digests bars intents "R1" (some costs) (some snapshot)
      (some account))

-- The results of its loop, and the balances that the loop ends with.
abbrev pub loop : List ReplayOrderResult × Balances
loop =
    value_or ([], [])
      (replay_all replay_digests venues (some costs) bars intents (balance_dict venues))

-- The fill of the first order, on the second bar.
abbrev pub first_fill : ReplayOrderResult
first_fill = identified replay_digests (
    costed_draft (named "C1" (order buy 5)) costs (bar 2000 3000 "T2" 100) (of_nat 5)
      (trace_of replay_digests costs (some 1) (some 1)))
