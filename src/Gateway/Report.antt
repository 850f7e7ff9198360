-- ===== src/Gateway/Report.antt =====
-- The report of a gateway run (contracts/execution.py): its construction and its validator. The
-- identifiers of the report and of its sources are digests and are left out, with the rules that only
-- compare them.
use ta_model_v.Base.{
  String, Bool, true, false, Option, none, some, List, [], ◌∷◌, ◌++◌, map, filter, all, is_some,
  is_nonempty, not, ◌&&◌, ◌||◌, str_eq,
}
use ta_model_v.Contracts.Result.{Result, ok, require, ◌>>◌, validation_error, value_error}
use ta_model_v.Contracts.Simulation.{SimulatedAccountState}
use ta_model_v.Gate.{RiskGatedReplayResult, is_partition}
use ta_model_v.Replay.Run.{ReplayReport}
use ta_model_v.Gateway.Event.{
  ExecutionGatewayKind, simulator, paper, ExecutionFillMode, event_time_replay,
  paper_simulated_fill, ExecutionGatewayLifecycleEvent, is_blocked, fill_mode_fits,
}

pub record ExecutionGatewayReport : Type 0 where
  pub run_id : String
  pub gateway_kind : ExecutionGatewayKind
  pub fill_mode : ExecutionFillMode
  pub risk_check_ids : List String
  pub approved_risk_check_ids : List String
  pub blocked_risk_check_ids : List String
  pub gateway_event_ids : List String
  pub events : List ExecutionGatewayLifecycleEvent
  pub source_replay_report : Option ReplayReport
  pub source_replay_final_account_state : Option SimulatedAccountState

-- Equality of tuples of identifiers.
abbrev pub texts_beq : List String → List String → Bool
texts_beq [] [] = true
texts_beq [] (y ∷ ys) = false
texts_beq (x ∷ xs) [] = false
texts_beq (x ∷ xs) (y ∷ ys) = str_eq x y && texts_beq xs ys

abbrev pub kind_beq : ExecutionGatewayKind → ExecutionGatewayKind → Bool
kind_beq simulator simulator = true
kind_beq paper paper = true
kind_beq _ _ = false

abbrev pub mode_beq : ExecutionFillMode → ExecutionFillMode → Bool
mode_beq event_time_replay event_time_replay = true
mode_beq paper_simulated_fill paper_simulated_fill = true
mode_beq _ _ = false

abbrev pub risk_ids : List ExecutionGatewayLifecycleEvent → List String
risk_ids = map (λ e. e.risk_check_id)

abbrev pub placed : List ExecutionGatewayLifecycleEvent → List String
placed events = risk_ids (filter (λ e. not (is_blocked e.status)) events)

abbrev pub withheld : List ExecutionGatewayLifecycleEvent → List String
withheld events = risk_ids (filter (λ e. is_blocked e.status) events)

-- The loop over the events.
unfoldable pub events_match : ExecutionGatewayReport → Bool
events_match r =
    all
      (λ e.
        str_eq e.run_id r.run_id
        && kind_beq e.gateway_kind r.gateway_kind
        && mode_beq e.fill_mode r.fill_mode)
      r.events

-- The validator `lifecycle_report_is_consistent_and_deterministic`.
unfoldable pub report_is_valid : ExecutionGatewayReport → Bool
report_is_valid r =
    fill_mode_fits r.gateway_kind r.fill_mode
    && texts_beq r.gateway_event_ids (map (λ e. e.gateway_event_id) r.events)
    && texts_beq r.risk_check_ids (risk_ids r.events)
    && texts_beq r.approved_risk_check_ids (placed r.events)
    && texts_beq r.blocked_risk_check_ids (withheld r.events)
    && is_partition (r.approved_risk_check_ids ++ r.blocked_risk_check_ids) r.risk_check_ids
    && events_match r
    && (is_some r.source_replay_report || not (is_some r.source_replay_final_account_state))
    && (not (is_nonempty r.approved_risk_check_ids) || is_some r.source_replay_report)
    && (is_nonempty r.approved_risk_check_ids || not (is_some r.source_replay_report))

abbrev pub final_state_of_report : Option ReplayReport → Option SimulatedAccountState
final_state_of_report none = none
final_state_of_report (some r) = r.final_account_state

abbrev pub report_draft :
    String
    → ExecutionGatewayKind
    → ExecutionFillMode
    → RiskGatedReplayResult ReplayReport
    → List ExecutionGatewayLifecycleEvent
    → ExecutionGatewayReport
report_draft run_id kind mode gated events = record {
  run_id = run_id;
  gateway_kind = kind;
  fill_mode = mode;
  risk_check_ids = gated.risk_check_ids;
  approved_risk_check_ids = gated.approved_risk_check_ids;
  blocked_risk_check_ids = gated.blocked_risk_check_ids;
  gateway_event_ids = map (λ e. e.gateway_event_id) events;
  events = events;
  source_replay_report = gated.replay_report;
  source_replay_final_account_state = final_state_of_report gated.replay_report;
}

unfoldable pub make_execution_gateway_report :
    String
    → ExecutionGatewayKind
    → ExecutionFillMode
    → RiskGatedReplayResult ReplayReport
    → List ExecutionGatewayLifecycleEvent
    → Result ExecutionGatewayReport
make_execution_gateway_report run_id kind mode gated events = do
  require (fill_mode_fits kind mode) (value_error "gateway reports must use the kind's fill mode")
  require (report_is_valid (report_draft run_id kind mode gated events))
      (validation_error "gateway report inconsistent")
  ok (report_draft run_id kind mode gated events)
