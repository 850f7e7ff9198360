-- ===== src/Gateway/Valid.antt =====
-- Which lifecycle events the gateways' contract accepts (contracts/execution.py): those of blocked risk
-- checks, and those of valid replay results of approved intents.
use ta_model_v.Base.{String, true, false, none, some, if◌then◌else◌, ◌≡◌, refl, sym, arith, eq_refl}
use ta_model_v.Decimal.{Decimal, of_nat}
use ta_model_v.Decimal.Difference.{sub-zero_kept}
use ta_model_v.Decimal.Sign.{IsPositive, IsPositive-IsNonneg}
use ta_model_v.Decimal.Order.{lt_irrefl}
use ta_model_v.Contracts.Result.{ok}
use ta_model_v.Contracts.Order.{OrderIntent}
use ta_model_v.Contracts.Event.{RiskCheckEvent, is_approval}
use ta_model_v.Contracts.ReplayResult.{
  ReplayFillStatus, is_filled, quantity_rule, ReplayOrderResult, result_bounds, common_rules,
  filled_rules, unfilled_rules, result_is_valid,
}
use ta_model_v.Replay.Free.{IsTradable, zero-lt-total, total-lt-zero}
use ta_model_v.Gateway.Event.{
  ExecutionGatewayKind, ExecutionFillMode, ExecutionGatewayLifecycleEvent, GatewayDigests, is_fill,
  is_blocked, status_beq, part_rule, gateway_status, ExecutionGatewayOrderStatus, fill_mode_fits,
  event_bounds, event_rules, blocked_rules, filled_event_rules, unfilled_event_rules,
  replay_backed_rules, lifecycle_event_is_valid,
}
use ta_model_v.Gateway.Draft.{
  blocked_draft, replayed_draft, make_event, make_execution_gateway_lifecycle_event,
}

is_fill-gateway_status : (s : ReplayFillStatus) → is_fill (gateway_status s) ≡ is_filled s
is_fill-gateway_status s = ground arith

pub is_blocked-gateway_status : (s : ReplayFillStatus) → is_blocked (gateway_status s) ≡ false
is_blocked-gateway_status s = ground arith

status_beq_refl : (s : ExecutionGatewayOrderStatus) → status_beq s s ≡ true
status_beq_refl s = ground arith

part_rule-gateway_status :
    (s : ReplayFillStatus) (part whole : Decimal)
    → is_filled s ≡ true
    → part_rule (gateway_status s) part whole ≡ quantity_rule s part whole
part_rule-gateway_status s part whole h = ground arith

-- An event under its identifier.
abbrev pub accepted :
    GatewayDigests → ExecutionGatewayLifecycleEvent → ExecutionGatewayLifecycleEvent
accepted d draft = record draft { gateway_event_id = d.event_id draft }

module _ (d : GatewayDigests) (kind : ExecutionGatewayKind) (mode : ExecutionFillMode)
    (fits : fill_mode_fits kind mode ≡ true) (run_id : String) (check : RiskCheckEvent) where
  blocked-valid :
      is_approval check.final_decision ≡ false
      → IsTradable check.request.order_intent
      → lifecycle_event_is_valid d (blocked_draft kind mode run_id check) ≡ true
  unfolding lifecycle_event_is_valid event_bounds event_rules blocked_rules
  blocked-valid blocks t =
      let q = check.request.order_intent.quantity in
      rw
        (
          blocks,
          fits,
          t.positive,
          IsPositive-IsNonneg q t.positive,
          zero-lt-total,
          total-lt-zero,
          sub-zero_kept q t.held,
          lt_irrefl (of_nat 0),
          lt_irrefl q,
        )
        refl

  module _ (result : ReplayOrderResult) (approves : is_approval check.final_decision ≡ true)
      (asked : IsPositive check.request.order_intent.quantity) where
    abbrev draft : ExecutionGatewayLifecycleEvent
    draft = replayed_draft d kind mode run_id check result.intent result

    draft-bounds : result_bounds result ≡ true → event_bounds draft ≡ true
    unfolding result_bounds event_bounds
    draft-bounds h = ground (arith, h, asked)

    draft-rules : common_rules result ≡ true → event_rules draft ≡ true
    unfolding common_rules event_rules
    draft-rules h = ground (arith, h, fits)

    draft-filled :
        is_filled result.status ≡ true
        → filled_rules result ≡ true
        → filled_event_rules draft ≡ true
    unfolding filled_rules filled_event_rules
    draft-filled f h =
        rw (part_rule-gateway_status result.status result.filled_quantity result.intent.quantity f)
          h

    draft-unfilled : unfilled_rules result ≡ true → unfilled_event_rules draft ≡ true
    unfolding unfilled_rules unfilled_event_rules
    draft-unfilled h = h

    draft-replay_backed :
        (if is_filled result.status then filled_rules result else unfilled_rules result) ≡ true
        → replay_backed_rules d draft ≡ true
    unfolding replay_backed_rules
    draft-replay_backed h = ground (
      arith,
      h,
      draft-filled,
      draft-unfilled,
      eq_refl (d.order_id kind run_id check.risk_check_id result.intent.client_order_id),
      status_beq_refl (gateway_status result.status),
      is_fill-gateway_status result.status,
    )

    draft-valid : result_is_valid result ≡ true → lifecycle_event_is_valid d draft ≡ true
    unfolding result_is_valid lifecycle_event_is_valid
    draft-valid h = ground (
      arith,
      h,
      approves,
      draft-bounds,
      draft-rules,
      draft-replay_backed,
      is_blocked-gateway_status result.status,
    )

  -- A valid replay result of the approved intent of an approving risk check makes an event that the
  -- contract accepts.
  pub replayed-accepted :
      (intent : OrderIntent) (result : ReplayOrderResult)
      → is_approval check.final_decision ≡ true
      → IsPositive check.request.order_intent.quantity
      → check.approved_order_intent ≡ some intent
      → result.intent ≡ intent
      → result_is_valid result ≡ true
      → make_execution_gateway_lifecycle_event d kind mode run_id check (some result)
        ≡ ok (accepted d (replayed_draft d kind mode run_id check intent result))
  unfolding make_execution_gateway_lifecycle_event make_event
  replayed-accepted intent result approves asked chosen same valid =
      rw (fits, chosen, sym same, draft-valid result approves asked valid) refl

  -- A risk check that does not approve makes a blocked event that the contract accepts.
  pub blocked-accepted :
      is_approval check.final_decision ≡ false
      → IsTradable check.request.order_intent
      → make_execution_gateway_lifecycle_event d kind mode run_id check none
        ≡ ok (accepted d (blocked_draft kind mode run_id check))
  unfolding make_execution_gateway_lifecycle_event make_event
  blocked-accepted blocks t = rw (fits, blocked-valid blocks t) refl
