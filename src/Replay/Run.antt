-- ===== src/Replay/Run.antt =====
-- `replay_ohlctv_market_orders` of simulation/replay.py: the whole replay, and its report. The digests
-- of the report and of the market data are left out.
use ta_model_v.Base.{String, Bool, Option, none, some, List, [], ◌∷◌, map}
use ta_model_v.Base.Dict.{insert}
use ta_model_v.Base.Equality.{string_eq, pair_eq}
use ta_model_v.Base.Sort.{sorted}
use ta_model_v.Base.Text.{texts_lt}
use ta_model_v.Decimal.{Decimal}
use ta_model_v.Contracts.Result.{
  Result, ok, err, require, ◌>>◌, validation_error, ◌>>=◌, replay_build_error,
}
use ta_model_v.Contracts.Text.{is_canonical_id}
use ta_model_v.Contracts.Instrument.{InstrumentMasterSnapshot}
use ta_model_v.Contracts.Bar.{OhlctvBar}
use ta_model_v.Contracts.Order.{OrderIntent}
use ta_model_v.Contracts.ReplayResult.{
  ReplayOrderResult, ReplayRejectionCount, build_rejection_counts,
}
use ta_model_v.Contracts.Simulation.{
  SimulatedBalance, SimulatedAccountState, ExecutionCostModel, BalanceKey, balance_key,
  make_account_state,
}
use ta_model_v.Replay.Validation.{validate_bars_are_safe, validate_order_intents}
use ta_model_v.Replay.Draft.{ReplayDigests}
use ta_model_v.Replay.Settle.{Venues, Balances}
use ta_model_v.Replay.Fill.{replay_one}

pub record ReplayReport : Type 0 where
  pub run_id : String
  pub result_ids : List String
  pub results : List ReplayOrderResult
  pub rejection_counts : List ReplayRejectionCount
  pub final_account_state : Option SimulatedAccountState

-- Both or neither.
abbrev pub paired :
    Option InstrumentMasterSnapshot → Option SimulatedAccountState → Result (Option Venues)
paired none none = ok none
paired (some s) (some a) = ok (some (record { snapshot = s; account_state = a }))
paired _ _ = err (
    replay_build_error
      "instrument master snapshot and simulated account state must be supplied together")

-- A dict comprehension: a later balance of the same key takes its place.
unfoldable pub balances_from : Balances → List SimulatedBalance → Balances
balances_from balances [] = balances
balances_from balances (b ∷ bs) = balances_from (insert (balance_key b) b.available balances) bs

unfoldable pub balance_dict : Option Venues → Balances
balance_dict none = []
balance_dict (some v) = balances_from [] v.account_state.balances

-- The loop over the intents, with the balances passed on.
unfoldable pub replay_all :
    ReplayDigests
    → Option Venues
    → Option ExecutionCostModel
    → List OhlctvBar
    → List OrderIntent
    → Balances
    → Result (List ReplayOrderResult × Balances)
replay_all digests venues cost_model bars [] balances = ok ([], balances)
replay_all digests venues cost_model bars (intent ∷ intents) balances = do
  (result, after) ← replay_one digests venues cost_model bars intent balances
  (results, final) ← replay_all digests venues cost_model bars intents after
  ok (result ∷ results, final)

abbrev pub balance_lt : BalanceKey × Decimal → BalanceKey × Decimal → Bool
balance_lt a b = texts_lt ((a.0).0 ∷ (a.0).1 ∷ []) ((b.0).0 ∷ (b.0).1 ∷ [])

-- `_build_account_state`: the balances, sorted by key.
unfoldable pub build_account_state :
    Option Venues → Balances → Result (Option SimulatedAccountState)
build_account_state none balances = ok none
build_account_state (some v) balances = do
  state ← make_account_state (record {
    account_id = v.account_state.account_id;
    balances =
        map
          (λ e. record {
            account_id = v.account_state.account_id;
            venue_id = (e.0).0;
            asset_id = (e.0).1;
            available = e.1;
          })
          (sorted balance_lt balances);
  })
  ok (some state)

unfoldable pub replay_ohlctv_market_orders :
    ReplayDigests
    → List OhlctvBar
    → List OrderIntent
    → String
    → Option ExecutionCostModel
    → Option InstrumentMasterSnapshot
    → Option SimulatedAccountState
    → Result ReplayReport
replay_ohlctv_market_orders digests bars intents run_id cost_model snapshot account_state = do
  scan ← validate_bars_are_safe bars
  order ← validate_order_intents intents
  venues ← paired snapshot account_state
  (results, final) ← replay_all digests venues cost_model bars intents (balance_dict venues)
  final_state ← build_account_state venues final
  require (is_canonical_id run_id) (validation_error "run_id must be a canonical id")
  ok (record {
    run_id = run_id;
    result_ids = map (λ r. r.replay_order_result_id) results;
    results = results;
    rejection_counts = build_rejection_counts results;
    final_account_state = final_state;
  })
