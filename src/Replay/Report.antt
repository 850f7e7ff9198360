-- ===== src/Replay/Report.antt =====
-- What the report of `replay_ohlctv_market_orders` (simulation/replay.py) says of its intents.
use ta_model_v.Base.{String, true, Option, List, [], ◌∷◌, map, ◌≡◌, refl, sym, inl, inr}
use mathlib.Core.Path.{subst}
use ta_model_v.Base.Among.{Among}
use ta_model_v.Contracts.Result.{ok}
use ta_model_v.Contracts.Instrument.{InstrumentMasterSnapshot}
use ta_model_v.Contracts.Bar.{OhlctvBar}
use ta_model_v.Contracts.Order.{OrderIntent}
use ta_model_v.Contracts.ReplayResult.{is_filled, ReplayOrderResult}
use ta_model_v.Contracts.Simulation.{SimulatedAccountState, ExecutionCostModel}
use ta_model_v.Replay.Draft.{ReplayDigests}
use ta_model_v.Replay.Run.{ReplayReport, replay_ohlctv_market_orders}
use ta_model_v.Replay.Loop.{Pairwise, Among-Pairwise}
use ta_model_v.Replay.Lookahead.{IsFilledOn, IsAnswer, results-IsAnswer}

intents-Pairwise :
    (bars : List OhlctvBar) (intents : List OrderIntent) (results : List ReplayOrderResult)
    → Pairwise (IsAnswer bars) intents results
    → map (λ r. r.intent) results ≡ intents
intents-Pairwise bars [] [] h = refl
intents-Pairwise bars [] (r ∷ rs) h = absurd h
intents-Pairwise bars (i ∷ is) [] h = absurd h
intents-Pairwise bars (i ∷ is) (r ∷ rs) h = rw ((h.0).0, intents-Pairwise bars is rs h.1) refl

filled_side :
    (bars : List OhlctvBar) (intent : OrderIntent) (r : ReplayOrderResult)
    → IsAnswer bars intent r
    → is_filled r.status ≡ true
    → IsFilledOn bars r.intent r
filled_side bars intent r (same, valid, inl unfilled) h = cc
filled_side bars intent r (same, valid, inr filled) h =
    subst (λ i. IsFilledOn bars i r) (sym same) filled

module _ (digests : ReplayDigests) (bars : List OhlctvBar) (intents : List OrderIntent)
    (run_id : String) (cost_model : Option ExecutionCostModel)
    (snapshot : Option InstrumentMasterSnapshot) (account_state : Option SimulatedAccountState)
    {report : ReplayReport}
    (returned : replay_ohlctv_market_orders digests bars intents run_id cost_model snapshot
        account_state
      ≡ ok report) where
  -- A returned report has one result for each intent, in the order of the intents: the results'
  -- intents are the intents given.
  pub one_result_per_intent : map (λ r. r.intent) report.results ≡ intents
  one_result_per_intent =
      intents-Pairwise bars intents report.results
        (results-IsAnswer digests bars intents run_id cost_model snapshot account_state returned)

  -- A result of a returned report that is filled, fully or partially, is filled on a bar of the input
  -- for its order's instrument and venue that opens no earlier than the order was submitted and closes
  -- later, the result records that bar's times and payload, and no more than the order's quantity is
  -- filled.
  pub no_lookahead :
      (r : ReplayOrderResult)
      → Among r report.results
      → is_filled r.status ≡ true
      → IsFilledOn bars r.intent r
  no_lookahead r among filled =
      let answers =
        results-IsAnswer digests bars intents run_id cost_model snapshot account_state returned in
      let (intent, asked, answer) =
        Among-Pairwise (IsAnswer bars) intents report.results answers r among in
      filled_side bars intent r answer filled
