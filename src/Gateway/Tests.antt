-- ===== src/Gateway/Tests.antt =====
-- A paper gateway on an approved and a rejected event of the risk check.
use ta_model_v.Base.{some, none, Option, List, [], ◌∷◌, All, ◌≡◌, refl, arith, if◌then◌else◌}
use ta_model_v.Decimal
use ta_model_v.Decimal.Representable.{small-IsWhole}
use ta_model_v.Contracts.Result.{ok}
use ta_model_v.Contracts.Order.{buy}
use ta_model_v.Contracts.Event.{RiskCheckEvent, is_approval}
use ta_model_v.Contracts.Risk.{RiskDecisionStatus, kill_switch_active}
use ta_model_v.Engine.Decision.{Digests}
use ta_model_v.Engine.Examples.{digests, policy, order, event_of, snapshot, checking}
use ta_model_v.Engine.Examples.Runs.{buy_request, stopped_request}
use ta_model_v.Gate.{split_events, replay_report_of}
use ta_model_v.Gate.Forwarding.{IsChecked}
use ta_model_v.Replay.Examples.{
  replay_digests, bars, costs, account, empty_report, value_or, replaying,
}
use ta_model_v.Replay.Free.{IsTradable}
use ta_model_v.Replay.Loop.{Pairwise}
use ta_model_v.Replay.Run.{ReplayReport}
use ta_model_v.Gateway.Event.{GatewayDigests, paper, paper_simulated_fill}
use ta_model_v.Gateway.Report.{ExecutionGatewayReport}
use ta_model_v.Gateway.Run.{run_risk_gated_gateway}
use ta_model_v.Gateway.Lifecycle.{IsOrderly}
use ta_model_v.Gateway.Returns.{replay_of, gateway_run_returns}
use ta_model_v.Gateway.Within.{IsSafe, placed_only_within_limits}

-- Digests that tell an approved check from another.
abbrev engine : Digests
engine = record digests {
  risk_check_id = λ e. if is_approval e.final_decision then "RISKCHECK:1" else "RISKCHECK:2";
}

abbrev gateway : GatewayDigests
gateway = record { order_id = λ kind run check client. client; event_id = λ e. e.risk_check_id }

abbrev bought : RiskCheckEvent
bought = event_of buy_request RiskDecisionStatus.approved [] (some (order buy 5))

abbrev stopped : RiskCheckEvent
stopped =
    record (event_of stopped_request RiskDecisionStatus.rejected (kill_switch_active ∷ []) none) {
      risk_check_id = "RISKCHECK:2";
    }

abbrev checks : List RiskCheckEvent
checks = bought ∷ stopped ∷ []

checks-IsChecked : All (IsChecked engine policy) checks
unfolding checking
checks-IsChecked = (refl, (refl, tt))

order-IsTradable : IsTradable (order buy 5)
unfolding Decimal.lt
order-IsTradable = record {
  positive = refl;
  held = record { nonneg = refl; whole = small-IsWhole 5 (omega arith) };
}

checks-IsOrderly : All IsOrderly checks
checks-IsOrderly = (
  record { approval_has_intent = refl; tradable = order-IsTradable },
  (record { approval_has_intent = refl; tradable = order-IsTradable }, tt),
)

-- The report of the replay of the approved order.
abbrev replay_report : Option ReplayReport
replay_report = some (
    value_or empty_report (
      replay_of replay_digests bars "R1" (some costs) (some snapshot) (some account)
        (order buy 5 ∷ [])))

replayed :
    replay_report_of
      (replay_of replay_digests bars "R1" (some costs) (some snapshot) (some account))
      (split_events checks).approved_intents
    ≡ ok replay_report
unfolding replaying split_events replay_report_of
replayed = refl

-- The report that the run returns.
placed_run :
    (r : ExecutionGatewayReport) × (run_risk_gated_gateway gateway replay_digests bars checks "R1"
        paper paper_simulated_fill
        (some costs)
        (some snapshot)
        (some account)
      ≡ ok r)
placed_run =
    let run =
      gateway_run_returns replay_digests bars "R1" (some costs) (some snapshot) (some account)
        checks {report = replay_report} replayed gateway paper paper_simulated_fill refl refl
        checks-IsOrderly in
    (run.0, run.1)

placed_only_within_limits_example : Pairwise (IsSafe engine policy) checks (placed_run.0).events
placed_only_within_limits_example =
    placed_only_within_limits replay_digests bars "R1" (some costs) (some snapshot) (some account)
      checks {report = replay_report} replayed engine policy gateway paper paper_simulated_fill
      {r = placed_run.0} refl refl checks-IsOrderly checks-IsChecked placed_run.1
