-- ===== src/Gateway/Run.antt =====
-- execution/gateway.py: a gateway run, through the risk-gated replay, with one lifecycle event for each
-- risk check.
use ta_model_v.Base.{
  String, Bool, Option, none, some, List, [], ◌∷◌, filter, length, is_some, ◌&&◌, ◌==◌,
}
use ta_model_v.Base.Dict.{Dict, lookup, insert}
use ta_model_v.Base.Equality.{string_eq}
use ta_model_v.Contracts.Result.{Result, ok, require, ◌>>=◌, ◌>>◌, value_error}
use ta_model_v.Contracts.Instrument.{InstrumentMasterSnapshot}
use ta_model_v.Contracts.Bar.{OhlctvBar}
use ta_model_v.Contracts.Event.{RiskCheckEvent, is_approval}
use ta_model_v.Contracts.ReplayResult.{ReplayOrderResult}
use ta_model_v.Contracts.Simulation.{SimulatedAccountState, ExecutionCostModel}
use ta_model_v.Gate.{ids_of, replay_risk_approved_market_orders}
use ta_model_v.Replay.Draft.{ReplayDigests}
use ta_model_v.Replay.Run.{ReplayReport, replay_ohlctv_market_orders}
use ta_model_v.Gateway.Event.{
  ExecutionGatewayKind, simulator, paper, ExecutionFillMode, event_time_replay,
  paper_simulated_fill, ExecutionGatewayLifecycleEvent, GatewayDigests,
}
use ta_model_v.Gateway.Draft.{make_execution_gateway_lifecycle_event}
use ta_model_v.Gateway.Report.{ExecutionGatewayReport, make_execution_gateway_report}

abbrev pub is_forwarded : RiskCheckEvent → Bool
is_forwarded c = is_approval c.final_decision && is_some c.approved_order_intent

abbrev pub ResultsById : Type 0
ResultsById = Dict String ReplayOrderResult

-- `dict(zip(ids, results))`: a later result of the same id takes its place.
unfoldable pub zipped : ResultsById → List String → List ReplayOrderResult → ResultsById
zipped d [] results = d
zipped d (id ∷ ids) [] = d
zipped d (id ∷ ids) (r ∷ results) = zipped (insert id r d) ids results

-- `_replay_results_by_risk_id`
unfoldable pub replay_results_by_risk_id :
    List RiskCheckEvent → List ReplayOrderResult → Result ResultsById
replay_results_by_risk_id checks results = do
  let ids = ids_of (filter is_forwarded checks)
  require (length ids == length results)
      (value_error "approved risk events and replay results must align")
  ok (zipped [] ids results)

unfoldable pub lifecycle_events :
    GatewayDigests
    → ExecutionGatewayKind
    → ExecutionFillMode
    → String
    → ResultsById
    → List RiskCheckEvent
    → Result (List ExecutionGatewayLifecycleEvent)
lifecycle_events d kind mode run_id results [] = ok []
lifecycle_events d kind mode run_id results (check ∷ checks) = do
  event ←
      make_execution_gateway_lifecycle_event d kind mode run_id check
        (lookup check.risk_check_id results)
  events ← lifecycle_events d kind mode run_id results checks
  ok (event ∷ events)

abbrev pub results_of : Option ReplayReport → List ReplayOrderResult
results_of none = []
results_of (some report) = report.results

-- `_run_risk_gated_gateway`
unfoldable pub run_risk_gated_gateway :
    GatewayDigests
    → ReplayDigests
    → List OhlctvBar
    → List RiskCheckEvent
    → String
    → ExecutionGatewayKind
    → ExecutionFillMode
    → Option ExecutionCostModel
    → Option InstrumentMasterSnapshot
    → Option SimulatedAccountState
    → Result ExecutionGatewayReport
run_risk_gated_gateway d digests bars checks run_id kind mode cost_model snapshot account_state = do
  gated ←
      replay_risk_approved_market_orders
        (λ intents.
          replay_ohlctv_market_orders digests bars intents run_id cost_model snapshot account_state)
        run_id checks
  results ← replay_results_by_risk_id checks (results_of gated.replay_report)
  events ← lifecycle_events d kind mode run_id results checks
  make_execution_gateway_report run_id kind mode gated events

unfoldable pub run_simulator_gateway_replay :
    GatewayDigests
    → ReplayDigests
    → List OhlctvBar
    → List RiskCheckEvent
    → String
    → Option ExecutionCostModel
    → Option InstrumentMasterSnapshot
    → Option SimulatedAccountState
    → Result ExecutionGatewayReport
run_simulator_gateway_replay d digests bars checks run_id =
    run_risk_gated_gateway d digests bars checks run_id simulator event_time_replay

unfoldable pub run_paper_gateway_replay :
    GatewayDigests
    → ReplayDigests
    → List OhlctvBar
    → List RiskCheckEvent
    → String
    → Option ExecutionCostModel
    → Option InstrumentMasterSnapshot
    → Option SimulatedAccountState
    → Result ExecutionGatewayReport
run_paper_gateway_replay d digests bars checks run_id =
    run_risk_gated_gateway d digests bars checks run_id paper paper_simulated_fill
