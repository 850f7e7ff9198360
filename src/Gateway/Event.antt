-- ===== src/Gateway/Event.antt =====
-- The lifecycle events of the execution gateways (contracts/execution.py): their construction from a
-- risk check and a replay result, and their validator. Identifiers are digests of the other fields,
-- which are parameters.
use ta_model_v.Base.{
  String, Bool, true, false, Option, none, some, List, is_some, not, ◌&&◌, ◌||◌, ◌==◌,
  if◌then◌else◌, str_eq,
}
use ta_model_v.Decimal.{Decimal, of_nat}
use ta_model_v.Decimal
use ta_model_v.Contracts.Order.{OrderIntent}
use ta_model_v.Contracts.Risk.{RiskDecisionStatus, RiskReasonCode, is_positive, is_nonneg, bool_eq}
use ta_model_v.Contracts.Event.{is_approval}
use ta_model_v.Contracts.ReplayResult.{
  ReplayFillStatus, filled as replay_filled, partially_filled as replay_partially_filled,
  unfilled as replay_unfilled, rejected as replay_rejected, ReplayRejectReason, FillEvent,
  CostTrace, Attribution, nonneg_if_set, has_event, has_no_event, is_zero, prices_fit,
  has_no_attribution,
}

pub data ExecutionGatewayKind : Type 0 where
  simulator paper : ExecutionGatewayKind

pub data ExecutionFillMode : Type 0 where
  event_time_replay paper_simulated_fill : ExecutionFillMode

pub data ExecutionGatewayOrderStatus : Type 0 where
  blocked rejected unfilled partially_filled filled : ExecutionGatewayOrderStatus

-- `_REPLAY_TO_GATEWAY_STATUS`
abbrev pub gateway_status : ReplayFillStatus → ExecutionGatewayOrderStatus
gateway_status replay_filled = filled
gateway_status replay_partially_filled = partially_filled
gateway_status replay_unfilled = unfilled
gateway_status replay_rejected = rejected

abbrev pub is_blocked : ExecutionGatewayOrderStatus → Bool
is_blocked blocked = true
is_blocked _ = false

abbrev pub status_beq : ExecutionGatewayOrderStatus → ExecutionGatewayOrderStatus → Bool
status_beq blocked blocked = true
status_beq rejected rejected = true
status_beq unfilled unfilled = true
status_beq partially_filled partially_filled = true
status_beq filled filled = true
status_beq _ _ = false

-- The fields that the event copies from its order intent are the intent itself; `gateway_quantity` is
-- the intent's quantity.
pub record ExecutionGatewayLifecycleEvent : Type 0 where
  pub gateway_event_id : String
  pub gateway_order_id : Option String
  pub gateway_kind : ExecutionGatewayKind
  pub fill_mode : ExecutionFillMode
  pub run_id : String
  pub risk_check_id : String
  pub risk_decision : RiskDecisionStatus
  pub risk_reason_codes : List RiskReasonCode
  pub order_intent : OrderIntent
  pub requested_quantity : Decimal
  pub status : ExecutionGatewayOrderStatus
  pub replay_order_result_id : Option String
  pub replay_status : Option ReplayFillStatus
  pub replay_reject_reason : Option ReplayRejectReason
  pub fill_price : Option Decimal
  pub filled_quantity : Decimal
  pub remaining_quantity : Decimal
  pub event : FillEvent
  pub cost_trace : CostTrace
  pub attribution : Attribution

-- The digests: of an order's place in a run, and of an event's other fields.
pub record GatewayDigests : Type 0 where
  pub order_id : ExecutionGatewayKind → String → String → String → String
  pub event_id : ExecutionGatewayLifecycleEvent → String

-- `_validate_gateway_fill_mode`
abbrev pub fill_mode_fits : ExecutionGatewayKind → ExecutionFillMode → Bool
fill_mode_fits paper paper_simulated_fill = true
fill_mode_fits simulator event_time_replay = true
fill_mode_fits _ _ = false

-- `build_execution_gateway_order_id`
abbrev pub order_id_of : GatewayDigests → ExecutionGatewayLifecycleEvent → String
order_id_of d e = d.order_id e.gateway_kind e.run_id e.risk_check_id e.order_intent.client_order_id

-- The bounds of the fields.
unfoldable pub event_bounds : ExecutionGatewayLifecycleEvent → Bool
event_bounds e =
    is_positive e.requested_quantity
    && is_positive e.order_intent.quantity
    && nonneg_if_set e.fill_price
    && is_nonneg e.filled_quantity
    && is_nonneg e.remaining_quantity
    && nonneg_if_set e.attribution.arrival_reference_price
    && nonneg_if_set e.attribution.effective_fill_price
    && is_nonneg e.attribution.reference_notional
    && is_nonneg e.attribution.effective_notional
    && is_nonneg e.attribution.fee_cost
    && is_nonneg e.attribution.spread_cost
    && is_nonneg e.attribution.slippage_cost
    && is_nonneg e.attribution.total_cost

-- The rules for every status.
unfoldable pub event_rules : ExecutionGatewayLifecycleEvent → Bool
event_rules e =
    let a = e.attribution in
    fill_mode_fits e.gateway_kind e.fill_mode
    && bool_eq (is_some e.cost_trace.cost_model_id) (is_some e.cost_trace.cost_model_hash)
    && Decimal.eq a.total_cost (Decimal.add (Decimal.add a.fee_cost a.spread_cost) a.slippage_cost)
    && (not (is_positive a.total_cost)
        || is_some e.cost_trace.cost_model_id && is_some e.cost_trace.cost_model_hash)
    && Decimal.eq e.remaining_quantity (Decimal.sub e.order_intent.quantity e.filled_quantity)

abbrev pub has_no_trace : CostTrace → Bool
has_no_trace t =
    not (is_some t.cost_model_id)
    && not (is_some t.cost_model_hash)
    && t.latency_bars == 0
    && not (is_some t.eligible_event_index)
    && not (is_some t.fill_attempt_event_index)

-- `_validate_blocked_event`
unfoldable pub blocked_rules : ExecutionGatewayLifecycleEvent → Bool
blocked_rules e =
    not (is_some e.gateway_order_id)
    && not (is_some e.replay_order_result_id)
    && not (is_some e.replay_status)
    && not (is_some e.replay_reject_reason)
    && is_zero e.filled_quantity
    && Decimal.eq e.remaining_quantity e.order_intent.quantity
    && not (is_some e.fill_price)
    && has_no_event e.event
    && has_no_trace e.cost_trace
    && has_no_attribution e.attribution

abbrev pub part_rule : ExecutionGatewayOrderStatus → Decimal → Decimal → Bool
part_rule filled filled_quantity quantity = Decimal.eq filled_quantity quantity
part_rule _ filled_quantity quantity =
    Decimal.lt (of_nat 0) filled_quantity && Decimal.lt filled_quantity quantity

-- `_validate_filled_event`
unfoldable pub filled_event_rules : ExecutionGatewayLifecycleEvent → Bool
filled_event_rules e =
    not (is_some e.replay_reject_reason)
    && part_rule e.status e.filled_quantity e.order_intent.quantity
    && has_event e.event
    && prices_fit e.fill_price e.attribution.arrival_reference_price
        e.attribution.effective_fill_price e.filled_quantity e.attribution

-- `_validate_unfilled_or_rejected_event`
unfoldable pub unfilled_event_rules : ExecutionGatewayLifecycleEvent → Bool
unfilled_event_rules e =
    is_some e.replay_reject_reason
    && not (is_some e.fill_price)
    && is_zero e.filled_quantity
    && has_no_event e.event
    && has_no_attribution e.attribution
    && Decimal.eq e.remaining_quantity e.order_intent.quantity

abbrev pub is_fill : ExecutionGatewayOrderStatus → Bool
is_fill filled = true
is_fill partially_filled = true
is_fill _ = false

abbrev pub same_text : Option String → String → Bool
same_text none text = false
same_text (some t) text = str_eq t text

abbrev pub status_fits : ExecutionGatewayOrderStatus → Option ReplayFillStatus → Bool
status_fits status none = false
status_fits status (some replay_status) = status_beq status (gateway_status replay_status)

-- `_validate_replay_backed_event`
unfoldable pub replay_backed_rules : GatewayDigests → ExecutionGatewayLifecycleEvent → Bool
replay_backed_rules d e =
    same_text e.gateway_order_id (order_id_of d e)
    && is_some e.replay_order_result_id
    && status_fits e.status e.replay_status
    && (if is_fill e.status then filled_event_rules e else unfilled_event_rules e)

-- The bounds and the validator `lifecycle_event_is_consistent_and_deterministic`, without the identity.
unfoldable pub lifecycle_event_is_valid : GatewayDigests → ExecutionGatewayLifecycleEvent → Bool
lifecycle_event_is_valid d e =
    event_bounds e
    && event_rules e
    && (if is_blocked e.status
        then not (is_approval e.risk_decision) && blocked_rules e
        else is_approval e.risk_decision && replay_backed_rules d e)
