-- ===== src/Gateway/Within.antt =====
-- What a gateway places (execution/gateway.py) of what the risk engine evaluated (risk/engine.py).
use ta_model_v.Base.{String, true, Option, some, List, [], ◌∷◌, All, ◌≡◌, sym, ◌∙◌, ◌⊎◌, inl, inr}
use mathlib.Core.Path.{subst}
use ta_model_v.Base.Distinct.{distinct}
use ta_model_v.Contracts.Result.{ok}
use ta_model_v.Contracts.Instrument.{InstrumentMasterSnapshot}
use ta_model_v.Contracts.Bar.{OhlctvBar}
use ta_model_v.Contracts.Event.{RiskCheckEvent}
use ta_model_v.Contracts.Policy.{RiskPolicy}
use ta_model_v.Contracts.Simulation.{SimulatedAccountState, ExecutionCostModel}
use ta_model_v.Engine.Decision.{Digests}
use ta_model_v.Engine.Safety.{Within, approved-Within}
use ta_model_v.Gate.{split_events, replay_report_of}
use ta_model_v.Gate.Forwarding.{IsChecked}
use ta_model_v.Replay.Draft.{ReplayDigests}
use ta_model_v.Replay.Run.{ReplayReport}
use ta_model_v.Replay.Loop.{Pairwise, ok_inj}
use ta_model_v.Gateway.Event.{
  ExecutionGatewayKind, ExecutionFillMode, ExecutionGatewayLifecycleEvent, GatewayDigests,
  is_blocked, fill_mode_fits,
}
use ta_model_v.Gateway.Report.{ExecutionGatewayReport}
use ta_model_v.Gateway.Run.{run_risk_gated_gateway}
use ta_model_v.Gateway.Lifecycle.{IsOrderly, IsEventOf, same_id}
use ta_model_v.Gateway.Returns.{replay_of, gateway_run_returns}

-- A blocked event, or one whose order is the approved one of a request within every hard limit.
abbrev pub IsSafe : Digests → RiskPolicy → RiskCheckEvent → ExecutionGatewayLifecycleEvent → Type 0
IsSafe d p check e =
    (is_blocked e.status ≡ true)
    ⊎ ((check.approved_order_intent ≡ some e.order_intent) × Within d check.request p)

module _ (d : Digests) (p : RiskPolicy) where
  event-IsSafe :
      (check : RiskCheckEvent) (e : ExecutionGatewayLifecycleEvent)
      → IsChecked d p check
      → (is_blocked e.status ≡ true) ⊎ (check.approved_order_intent ≡ some e.order_intent)
      → IsSafe d p check e
  event-IsSafe check e checked (inl blocked) = inl blocked
  event-IsSafe check e checked (inr chosen) = inr (
    chosen,
    approved-Within d check.request p {event = check} checked {i = e.order_intent} chosen,
  )

  events-IsSafe :
      (kind : ExecutionGatewayKind) (mode : ExecutionFillMode) (run_id : String)
      (checks : List RiskCheckEvent) (events : List ExecutionGatewayLifecycleEvent)
      → All (IsChecked d p) checks
      → Pairwise (IsEventOf kind mode run_id) checks events
      → Pairwise (IsSafe d p) checks events
  events-IsSafe kind mode run_id [] [] checked h = tt
  events-IsSafe kind mode run_id [] (e ∷ es) checked h = absurd h
  events-IsSafe kind mode run_id (c ∷ cs) [] checked h = absurd h
  events-IsSafe kind mode run_id (c ∷ cs) (e ∷ es) checked h =
      (event-IsSafe c e checked.0 (h.0).intent, events-IsSafe kind mode run_id cs es checked.1 h.1)

module _ (digests : ReplayDigests) (bars : List OhlctvBar) (run_id : String)
    (cost_model : Option ExecutionCostModel) (snapshot : Option InstrumentMasterSnapshot)
    (account_state : Option SimulatedAccountState) (checks : List RiskCheckEvent)
    {report : Option ReplayReport}
    (replayed : replay_report_of
        (replay_of digests bars run_id cost_model snapshot account_state)
        (split_events checks).approved_intents
      ≡ ok report) where
  -- A gateway places only what the risk engine approves: where every check is what the risk check
  -- returned for its request, and the conditions under which a run returns hold, each event of the
  -- returned report is blocked, or places the approved order of a request within every hard limit.
  pub placed_only_within_limits :
      (engine : Digests) (policy : RiskPolicy) (d : GatewayDigests) (kind : ExecutionGatewayKind)
      (mode : ExecutionFillMode) {r : ExecutionGatewayReport}
      → fill_mode_fits kind mode ≡ true
      → distinct same_id checks ≡ true
      → All IsOrderly checks
      → All (IsChecked engine policy) checks
      → run_risk_gated_gateway d digests bars checks run_id kind mode cost_model snapshot
          account_state
        ≡ ok r
      → Pairwise (IsSafe engine policy) checks r.events
  placed_only_within_limits engine policy d kind mode {r} fits unique orderly checked returned =
      let (r', ran, answered) =
        gateway_run_returns digests bars run_id cost_model snapshot account_state checks replayed d
          kind mode fits unique orderly in
      subst (λ x. Pairwise (IsSafe engine policy) checks x.events)
        (ok_inj r' r (sym ran ∙ returned))
        (events-IsSafe engine policy kind mode run_id checks r'.events checked answered)
