-- ===== src/Replay/Tests.antt =====
-- The replay on concrete bars and orders.
use ta_model_v.Base.{
  String, some, true, false, ap, eq_iff, none, List, All, [], ◌∷◌, map, ◌&&◌, ◌≡◌, refl, inl, arith,
}
use ta_model_v.Decimal.{of_nat, literal}
use ta_model_v.Decimal
use ta_model_v.Decimal.Sign.{IsPositive}
use ta_model_v.Decimal.Representable.{small-IsWhole}
use ta_model_v.Contracts.Result.{ok}
use ta_model_v.Contracts.Order.{OrderIntent, buy, sell}
use ta_model_v.Engine.Examples.{order, snapshot}
use ta_model_v.Replay.Run.{
  replay_ohlctv_market_orders, replay_all, balance_dict, build_account_state,
}
use ta_model_v.Replay.Lookahead.{IsFilledOn}
use ta_model_v.Replay.Report.{one_result_per_intent, no_lookahead}
use ta_model_v.Replay.Solvency.{IsSolvent}
use ta_model_v.Replay.Solvent.{replay_keeps_IsSolvent}
use ta_model_v.Replay.Final.{balance_dict-IsSolvent, final_state_of, final_state_is_accepted}
use ta_model_v.Replay.Free.{IsTradable, free_results, free_replay_returns}
use ta_model_v.Base.Distinct.{distinct}
use ta_model_v.Contracts.Instrument.{InstrumentConstraint}
use ta_model_v.Contracts.Constraint.{ConstraintValidationResult}
use ta_model_v.Replay.Constrained.{IsAllowedFill, fills_meet_constraints}
use ta_model_v.Contracts.ReplayResult.{insufficient_inventory, build_rejection_counts}
use ta_model_v.Replay.Counts.{counted, tally, rejections_counted}
use ta_model_v.Contracts.Ensures.{Ensures}
use ta_model_v.Contracts.Simulation.{BalanceKey}
use ta_model_v.Replay.Settle.{settle}
use ta_model_v.Replay.Exact.{IsExact, settle-IsExact}
use ta_model_v.Replay.Validation.{empty_scan, validate_bars_are_safe, validate_order_intents}
use ta_model_v.Replay.Apart.{IsApart, AllLater, safe_bars-IsApart}
use ta_model_v.Replay.Order.{is_ok, same_client, in_order, validate_order_intents_iff}
use ta_model_v.Replay.Examples.{
  value_or, replay_digests, bars, intents, costs, account, venues, named, report, loop, first_fill,
  replaying,
}

run_returns :
    replay_ohlctv_market_orders replay_digests bars intents "R1"
      (some costs)
      (some snapshot)
      (some account)
    ≡ ok report
unfolding replaying
run_returns = refl

one_result_per_intent_example : map (λ r. r.intent) report.results ≡ intents
one_result_per_intent_example =
    one_result_per_intent replay_digests bars intents "R1" (some costs) (some snapshot)
      (some account) {report = report} run_returns

no_lookahead_example : IsFilledOn bars first_fill.intent first_fill
unfolding replaying
no_lookahead_example =
    no_lookahead replay_digests bars intents "R1" (some costs) (some snapshot) (some account)
      {report = report} run_returns first_fill (inl refl) refl

loop_returns :
    replay_all replay_digests venues (some costs) bars intents (balance_dict venues) ≡ ok loop
unfolding replaying
loop_returns = refl

start-IsSolvent : IsSolvent (balance_dict venues)
unfolding replaying
start-IsSolvent = balance_dict-IsSolvent venues refl

replay_keeps_IsSolvent_example : IsSolvent loop.1
unfolding replaying
replay_keeps_IsSolvent_example =
    replay_keeps_IsSolvent replay_digests venues (some costs) refl bars intents
      (balance_dict venues) loop.1 loop.0 start-IsSolvent loop_returns

final_state_is_accepted_example :
    build_account_state venues loop.1 ≡ ok (final_state_of venues loop.1)
unfolding replaying
final_state_is_accepted_example =
    final_state_is_accepted replay_digests venues (some costs) bars intents loop.0 loop.1 refl refl
      loop_returns

order-IsTradable : (id : String) → IsTradable (named id (order buy 5))
unfolding Decimal.lt
order-IsTradable id = record {
  positive = refl;
  held = record { nonneg = refl; whole = small-IsWhole 5 (omega arith) };
}

abbrev buys : List OrderIntent
buys = named "C1" (order buy 5) ∷ named "C2" (order buy 5) ∷ []

prices-IsPositive : All (λ b. IsPositive b.open_price) bars
unfolding Decimal.lt
prices-IsPositive = (refl, (refl, tt))

free_replay_returns_example :
    replay_ohlctv_market_orders replay_digests bars buys "R1" none none none
    ≡ ok (record {
      run_id = "R1";
      result_ids = "C1" ∷ "C2" ∷ [];
      results = free_results replay_digests bars buys;
      rejection_counts = [];
      final_account_state = none;
    })
unfolding replaying Decimal.is_ordinary
free_replay_returns_example =
    free_replay_returns replay_digests bars prices-IsPositive buys "R1" refl refl refl
      (order-IsTradable "C1", (order-IsTradable "C2", tt)) refl refl

bars_pass : validate_bars_are_safe bars ≡ ok (value_or empty_scan (validate_bars_are_safe bars))
unfolding replaying
bars_pass = refl

abbrev repeated : List OrderIntent
repeated = named "C1" (order buy 5) ∷ named "C1" (order sell 7) ∷ []

safe_bars-IsApart_example : AllLater IsApart bars
safe_bars-IsApart_example =
    safe_bars-IsApart bars {scan = value_or empty_scan (validate_bars_are_safe bars)} bars_pass

-- The second order bears the id of the first.
validate_order_intents_iff_example :
    is_ok (validate_order_intents repeated) ≡ (distinct same_client repeated && in_order repeated)
validate_order_intents_iff_example = validate_order_intents_iff repeated

repeated_raises : is_ok (validate_order_intents repeated) ≡ false
unfolding replaying
repeated_raises = refl

abbrev tight : InstrumentConstraint
tight = record {
  instrument_id = "I1";
  tick_size = literal 1 2;
  lot_size = literal 1 4;
  min_notional = of_nat 5;
  min_order_quantity = none;
  max_order_quantity = none;
  max_order_notional = none;
  effective_from = 100;
  effective_to = none;
}

abbrev evaluated : ConstraintValidationResult
evaluated = record {
  instrument_id = "I1";
  price = of_nat 100;
  quantity = of_nat 5;
  notional = Decimal.mul (of_nat 100) (of_nat 5);
  passed = true;
  reason_codes = [];
}

fills_meet_constraints_example : IsAllowedFill snapshot bars first_fill.intent first_fill
unfolding replaying
fills_meet_constraints_example =
    fills_meet_constraints replay_digests bars intents "R1" (some costs) snapshot account
      {report = report} run_returns first_fill (inl refl) refl

-- The second order of the test sells what the account does not hold.
rejections_counted_example :
    counted insufficient_inventory (build_rejection_counts report.results)
    ≡ tally insufficient_inventory report.results
rejections_counted_example = rejections_counted insufficient_inventory report.results

one_sale_rejected : tally insufficient_inventory report.results ≡ 1
unfolding replaying
one_sale_rejected = refl

btc_not_usdt : Path BalanceKey ("V1", "BTC") ("V1", "USDT") → ⊥
btc_not_usdt e = ground (arith, (eq_iff "BTC" "USDT").1 (ap (λ (k : BalanceKey). k.1) e))

settle-IsExact_example :
    Ensures
      (IsExact buy first_fill ("V1", "BTC") ("V1", "USDT") (balance_dict venues))
      (settle buy replay_digests first_fill ("V1", "BTC") ("V1", "USDT") (balance_dict venues))
settle-IsExact_example =
    settle-IsExact replay_digests first_fill ("V1", "BTC") ("V1", "USDT") (balance_dict venues) buy
      btc_not_usdt
