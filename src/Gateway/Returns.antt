-- ===== src/Gateway/Returns.antt =====
-- A gateway run (execution/gateway.py) returns where its replay does, with one lifecycle event for each
-- risk check.
use ta_model_v.Base.{
  String, true, Option, none, some, List, [], ◌∷◌, filter, length, All, ◌==◌, ◌≡◌, refl, ap, ◌∙◌,
  arith,
}
use mathlib.Core.Path.{subst}
use ta_model_v.Base.Distinct.{distinct}
use ta_model_v.Base.Equality.{string_eq}
use ta_model_v.Contracts.Result.{Result, ok, ◌>>=◌, >>=-eq-ok}
use ta_model_v.Contracts.Instrument.{InstrumentMasterSnapshot}
use ta_model_v.Contracts.Bar.{OhlctvBar}
use ta_model_v.Contracts.Order.{OrderIntent}
use ta_model_v.Contracts.Event.{RiskCheckEvent}
use ta_model_v.Contracts.ReplayResult.{ReplayOrderResult}
use ta_model_v.Contracts.Simulation.{SimulatedAccountState, ExecutionCostModel}
use ta_model_v.Gate.{split_events, ids_of, replay_report_of, RiskGatedReplayResult}
use ta_model_v.Gate.Forwarding.{expected, gate_returns, report_fits, split_forwards}
use ta_model_v.Replay.Draft.{ReplayDigests}
use ta_model_v.Replay.Run.{ReplayReport, replay_ohlctv_market_orders}
use ta_model_v.Replay.Lookahead.{IsAnswer, results-IsAnswer}
use ta_model_v.Replay.Loop.{Pairwise, ok_inj}
use ta_model_v.Gateway.Event.{
  ExecutionGatewayKind, ExecutionFillMode, GatewayDigests, fill_mode_fits,
}
use ta_model_v.Gateway.Report.{ExecutionGatewayReport, report_draft, make_execution_gateway_report}
use ta_model_v.Gateway.Run.{
  is_forwarded, zipped, results_of, replay_results_by_risk_id, lifecycle_events,
  run_risk_gated_gateway,
}
use ta_model_v.Gateway.Answers.{IsBacked, forwarded-IsBacked, length-Pairwise}
use ta_model_v.Gateway.Lifecycle.{IsOrderly, IsEventOf, same_id, lookup-IsFound, events-returned}
use ta_model_v.Gateway.Accepted.{report-returned}

length-ids : (checks : List RiskCheckEvent) → length (ids_of checks) ≡ length checks
length-ids [] = refl
length-ids (c ∷ cs) = omega (arith, length-ids cs)

-- The results that align with the forwarded checks are zipped with them.
by_id-returned :
    (checks : List RiskCheckEvent) (results : List ReplayOrderResult)
    → length (filter is_forwarded checks) ≡ length results
    → replay_results_by_risk_id checks results
      ≡ ok (zipped [] (ids_of (filter is_forwarded checks)) results)
unfolding replay_results_by_risk_id
by_id-returned checks results h =
    let same : (length (ids_of (filter is_forwarded checks)) == length results) ≡ true =
      ground (arith, length-ids (filter is_forwarded checks), h) in
    rw same refl

module _ (digests : ReplayDigests) (bars : List OhlctvBar) (run_id : String)
    (cost_model : Option ExecutionCostModel) (snapshot : Option InstrumentMasterSnapshot)
    (account_state : Option SimulatedAccountState) where
  -- The replay that the gate runs.
  abbrev pub replay_of : List OrderIntent → Result ReplayReport
  replay_of intents =
      replay_ohlctv_market_orders digests bars intents run_id cost_model snapshot account_state

  results-Pairwise :
      (intents : List OrderIntent) {report : Option ReplayReport}
      → replay_report_of replay_of intents ≡ ok report
      → Pairwise (IsAnswer bars) intents (results_of report)
  unfolding replay_report_of
  results-Pairwise [] {report} h =
      subst (λ x. Pairwise (IsAnswer bars) [] (results_of x)) (ok_inj none report h) tt
  results-Pairwise (i ∷ is) {report} h =
      let (r, replayed, same) = >>=-eq-ok (replay_of (i ∷ is)) (λ x. ok (some x)) h in
      subst (λ x. Pairwise (IsAnswer bars) (i ∷ is) (results_of x)) (ok_inj (some r) report same)
        (results-IsAnswer digests bars (i ∷ is) run_id cost_model snapshot account_state replayed)

  module _ (checks : List RiskCheckEvent) {report : Option ReplayReport}
      (replayed : replay_report_of replay_of (split_events checks).approved_intents
        ≡ ok report) where
    backed : Pairwise IsBacked (filter is_forwarded checks) (results_of report)
    backed =
        subst (λ cs. Pairwise IsBacked cs (results_of report)) (split_forwards checks).1
          (forwarded-IsBacked bars (split_events checks).approved_events
            (split_events checks).approved_intents (results_of report) (split_forwards checks).0
            (results-Pairwise (split_events checks).approved_intents replayed))

    pub gateway_run_returns :
        (d : GatewayDigests) (kind : ExecutionGatewayKind) (mode : ExecutionFillMode)
        → fill_mode_fits kind mode ≡ true
        → distinct same_id checks ≡ true
        → All IsOrderly checks
        → (r : ExecutionGatewayReport) × (run_risk_gated_gateway d digests bars checks run_id kind
              mode cost_model snapshot account_state
            ≡ ok r)
          × Pairwise (IsEventOf kind mode run_id) checks r.events
    unfolding run_risk_gated_gateway
    gateway_run_returns d kind mode fits unique orderly =
        let results = results_of report in
        let gated : RiskGatedReplayResult ReplayReport =
          expected replay_of run_id checks replayed in
        let by_id = zipped [] (ids_of (filter is_forwarded checks)) results in
        let aligned = length-Pairwise IsBacked (filter is_forwarded checks) results backed in
        let (events, listed, answered) =
          events-returned d kind mode fits run_id by_id checks orderly
            (lookup-IsFound checks results unique backed) in
        (
          report_draft run_id kind mode gated events,
          ap
                (λ m. m >>= λ g.
                  replay_results_by_risk_id checks (results_of g.replay_report) >>= λ found.
                  lifecycle_events d kind mode run_id found checks >>= λ es.
                  make_execution_gateway_report run_id kind mode g es)
                (gate_returns replay_of run_id checks replayed)
              ∙ ap
                  (λ m. m >>= λ found. lifecycle_events d kind mode run_id found checks >>= λ es.
                    make_execution_gateway_report run_id kind mode gated es)
                  (by_id-returned checks results aligned)
              ∙ ap (λ m. m >>= λ es. make_execution_gateway_report run_id kind mode gated es) listed
              ∙ report-returned kind mode run_id gated checks events fits refl refl refl
                  (report_fits replay_of run_id checks replayed) orderly answered,
          answered,
        )
