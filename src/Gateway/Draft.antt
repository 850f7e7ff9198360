-- ===== src/Gateway/Draft.antt =====
-- The lifecycle events that the gateways build (contracts/execution.py): without a replay result, and
-- from one.
use ta_model_v.Base.{String, Option, none, some}
use ta_model_v.Decimal.{of_nat}
use ta_model_v.Contracts.Result.{Result, ok, err, require, ◌>>◌, validation_error, value_error}
use ta_model_v.Contracts.Order.{OrderIntent}
use ta_model_v.Contracts.Event.{RiskCheckEvent}
use ta_model_v.Contracts.ReplayResult.{ReplayOrderResult}
use ta_model_v.Replay.Draft.{no_event, no_trace, no_attribution}
use ta_model_v.Gateway.Event.{
  ExecutionGatewayKind, ExecutionFillMode, blocked, ExecutionGatewayLifecycleEvent, GatewayDigests,
  gateway_status, fill_mode_fits, lifecycle_event_is_valid,
}

-- The draft of an event without a replay result, and with one.
abbrev pub blocked_draft :
    ExecutionGatewayKind
    → ExecutionFillMode
    → String
    → RiskCheckEvent
    → ExecutionGatewayLifecycleEvent
blocked_draft kind mode run_id check = record {
  gateway_event_id = "GATEWAYEVENT:PLACEHOLDER";
  gateway_order_id = none;
  gateway_kind = kind;
  fill_mode = mode;
  run_id = run_id;
  risk_check_id = check.risk_check_id;
  risk_decision = check.final_decision;
  risk_reason_codes = check.reason_codes;
  order_intent = check.request.order_intent;
  requested_quantity = check.request.order_intent.quantity;
  status = blocked;
  replay_order_result_id = none;
  replay_status = none;
  replay_reject_reason = none;
  fill_price = none;
  filled_quantity = of_nat 0;
  remaining_quantity = check.request.order_intent.quantity;
  event = no_event;
  cost_trace = no_trace;
  attribution = no_attribution;
}

abbrev pub replayed_draft :
    GatewayDigests
    → ExecutionGatewayKind
    → ExecutionFillMode
    → String
    → RiskCheckEvent
    → OrderIntent
    → ReplayOrderResult
    → ExecutionGatewayLifecycleEvent
replayed_draft d kind mode run_id check intent result = record {
  gateway_event_id = "GATEWAYEVENT:PLACEHOLDER";
  gateway_order_id = some (d.order_id kind run_id check.risk_check_id intent.client_order_id);
  gateway_kind = kind;
  fill_mode = mode;
  run_id = run_id;
  risk_check_id = check.risk_check_id;
  risk_decision = check.final_decision;
  risk_reason_codes = check.reason_codes;
  order_intent = intent;
  requested_quantity = check.request.order_intent.quantity;
  status = gateway_status result.status;
  replay_order_result_id = some result.replay_order_result_id;
  replay_status = some result.status;
  replay_reject_reason = result.reason;
  fill_price = result.fill_price;
  filled_quantity = result.filled_quantity;
  remaining_quantity = result.remaining_quantity;
  event = result.event;
  cost_trace = result.cost_trace;
  attribution = result.attribution;
}

-- `ExecutionGatewayLifecycleEvent(...)` of a draft, under the digest of the draft.
unfoldable pub make_event :
    GatewayDigests → ExecutionGatewayLifecycleEvent → Result ExecutionGatewayLifecycleEvent
make_event d draft = do
  require (lifecycle_event_is_valid d draft) (validation_error "gateway event inconsistent")
  ok (record draft { gateway_event_id = d.event_id draft })

abbrev pub replayed_event :
    GatewayDigests
    → ExecutionGatewayKind
    → ExecutionFillMode
    → String
    → RiskCheckEvent
    → Option OrderIntent
    → ReplayOrderResult
    → Result ExecutionGatewayLifecycleEvent
replayed_event d kind mode run_id check none result =
    err (value_error "replay-backed gateway events require approved risk intent")
replayed_event d kind mode run_id check (some intent) result =
    make_event d (replayed_draft d kind mode run_id check intent result)

abbrev pub event_for :
    GatewayDigests
    → ExecutionGatewayKind
    → ExecutionFillMode
    → String
    → RiskCheckEvent
    → Option ReplayOrderResult
    → Result ExecutionGatewayLifecycleEvent
event_for d kind mode run_id check none = make_event d (blocked_draft kind mode run_id check)
event_for d kind mode run_id check (some result) =
    replayed_event d kind mode run_id check check.approved_order_intent result

unfoldable pub make_execution_gateway_lifecycle_event :
    GatewayDigests
    → ExecutionGatewayKind
    → ExecutionFillMode
    → String
    → RiskCheckEvent
    → Option ReplayOrderResult
    → Result ExecutionGatewayLifecycleEvent
make_execution_gateway_lifecycle_event d kind mode run_id check result = do
  require (fill_mode_fits kind mode) (value_error "gateway reports must use the kind's fill mode")
  event_for d kind mode run_id check result
