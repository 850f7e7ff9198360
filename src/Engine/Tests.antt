-- ===== src/Engine/Tests.antt =====
-- The risk check on the concrete orders, and what the theorems say of them.
use ta_model_v.Base.{true, none, some, List, [], ◌∷◌, ◌≡◌, refl, any, all, ◌↔◌}
use ta_model_v.Decimal.{Decimal, of_nat, literal}
use ta_model_v.Decimal
use ta_model_v.Contracts.Result.{ok, err, validation_error}
use ta_model_v.Contracts.Order.{OrderIntent, OrderSide, buy, sell}
use ta_model_v.Contracts.KillSwitch
use ta_model_v.Contracts.Event.{RiskCheckEvent}
use ta_model_v.Contracts.Risk.{
  evaluation_is_valid, RiskCheckRequest, RequestIsValid, RiskDecisionStatus, RiskReasonCode,
  required_state_missing, unknown_kill_state, kill_switch_active, order_max_notional_soft,
}
use ta_model_v.Engine.Effect.{build_order_effect}
use ta_model_v.Engine.Decision.{evaluate_limits, evaluate_pre_trade_risk}
use ta_model_v.Engine.Outcome.{limits_of}
use ta_model_v.Engine.Metadata.{metadata_view}
use ta_model_v.Engine.Safety.{Within, IntentFits, rejected_iff, approved-Within, intent_fits}
use ta_model_v.Engine.Total.{evaluate-returns}
use ta_model_v.Engine.Total.Consistent.{evaluations_consistent}
use ta_model_v.Engine.Caps.{is_uncapped, IsCutTo}
use ta_model_v.Engine.Effects.{
  stops, sell_approved, uncapped_buy_blocked, soft_limited_blocks_buys, capped-IsCutTo,
  kill_switch_rejects,
}
use ta_model_v.Engine.Halt.{silent_store_rejects, halt_takes_effect}
use ta_model_v.KillSwitch.Store.{unusable, stored}
use ta_model_v.KillSwitch.Examples.{
  digest, account_scope, log, halt, halt_run, halted_file, halted_snapshot, halted_read,
  unknown_snapshot, unknown_read, storing,
}
use native.Mathlib.Omega.{arith}
use ta_model_v.Contracts.Text.{is_non_empty_string}
use ta_model_v.Contracts.Policy.{make_default_risk_policy}
use ta_model_v.Engine.Examples.{digests, policy, request, request_with, order, event_of, checking}
use ta_model_v.Engine.Examples.Runs.{
  buy_request, buy_run, stopped_request, stopped_event, stopped_run,
}

valid : RequestIsValid buy_request
unfolding checking
valid = record { amounts = refl; intent = refl; consistent = refl }

evaluate-returns_example :
    (event : RiskCheckEvent) × (evaluate_pre_trade_risk digests buy_request policy ≡ ok event)
unfolding checking Decimal.is_ordinary
evaluate-returns_example = evaluate-returns digests buy_request policy valid refl

approved-Within_example : Within digests buy_request policy
approved-Within_example = approved-Within digests buy_request policy buy_run refl

evaluations_consistent_example :
    all evaluation_is_valid (
      evaluate_limits digests buy_request policy
        (metadata_view buy_request)
        (build_order_effect buy_request))
    ≡ true
evaluations_consistent_example =
    evaluations_consistent digests buy_request policy (metadata_view buy_request)
      (build_order_effect buy_request)

rejected_iff_example :
    (stopped_event.final_decision ≡ RiskDecisionStatus.rejected)
    ↔ (¬ Within digests stopped_request policy)
rejected_iff_example = rejected_iff digests stopped_request policy stopped_run

kill_switch_rejects_example :
    (stopped_event.final_decision ≡ RiskDecisionStatus.rejected)
    × (stopped_event.approved_order_intent ≡ none)
unfolding stops
kill_switch_rejects_example = kill_switch_rejects digests stopped_request policy stopped_run refl

-- 20 units at 100 are 2000, above the soft limit of one percent of 100000: cut to 1000.
abbrev large_request : RiskCheckRequest
large_request = request buy 20 KillSwitch.clear

abbrev cut_order : OrderIntent
cut_order = record (order buy 20) {
  quantity = Decimal.div (Decimal.mul (of_nat 100000) (literal 1 2)) (of_nat 100);
}

abbrev cut_event : RiskCheckEvent
cut_event =
    event_of large_request RiskDecisionStatus.approved_after_cap (order_max_notional_soft ∷ [])
      (some cut_order)

ten_units : Decimal.eq cut_order.quantity (of_nat 10) ≡ true
unfolding Decimal.computing
ten_units = refl

cut_run : evaluate_pre_trade_risk digests large_request policy ≡ ok cut_event
unfolding checking
cut_run = refl

intent_fits_example :
    IntentFits large_request.order_intent cut_event.final_decision cut_event.approved_order_intent
intent_fits_example = intent_fits digests large_request policy cut_run

capped-IsCutTo_example :
    (large_request.order_intent.side ≡ buy)
    × IsCutTo large_request (limits_of digests large_request policy) cut_order
capped-IsCutTo_example = capped-IsCutTo digests large_request policy cut_run refl refl

-- While the switch is at SOFT_LIMITED, a sale is approved and a buy is not traded.
abbrev limited : OrderSide → RiskCheckRequest
limited side = request side 5 KillSwitch.soft_limited

abbrev sold_event : RiskCheckEvent
sold_event =
    event_of (limited sell) RiskDecisionStatus.approved (kill_switch_active ∷ [])
      (some (order sell 5))

sold_run : evaluate_pre_trade_risk digests (limited sell) policy ≡ ok sold_event
unfolding checking
sold_run = refl

sold-Within : Within digests (limited sell) policy
sold-Within = approved-Within digests (limited sell) policy sold_run refl

sell_approved_example :
    (sold_event.final_decision ≡ RiskDecisionStatus.approved)
    × (sold_event.approved_order_intent ≡ some (order sell 5))
sell_approved_example = sell_approved digests (limited sell) policy sold_run refl sold-Within

abbrev untraded_event : RiskCheckEvent
untraded_event = event_of (limited buy) RiskDecisionStatus.no_trade (kill_switch_active ∷ []) none

untraded_run : evaluate_pre_trade_risk digests (limited buy) policy ≡ ok untraded_event
unfolding checking
untraded_run = refl

soft_limited_blocks_buys_example : untraded_event.approved_order_intent ≡ none
soft_limited_blocks_buys_example =
    soft_limited_blocks_buys digests (limited buy) policy untraded_run refl refl

limited_uncapped : any (is_uncapped (limited buy)) (limits_of digests (limited buy) policy) ≡ true
unfolding checking
limited_uncapped = refl

uncapped_buy_blocked_example : untraded_event.approved_order_intent ≡ none
uncapped_buy_blocked_example =
    uncapped_buy_blocked digests (limited buy) policy untraded_run refl limited_uncapped

-- The default policy is made, and not with an empty name.
default_policy_made : make_default_risk_policy (of_nat 100000) "default" ≡ ok policy
unfolding make_default_risk_policy checking Decimal.computing is_non_empty_string
default_policy_made = refl

unnamed_policy_refused :
    make_default_risk_policy (of_nat 100000) ""
    ≡ err (validation_error "name must be a non-empty text")
unfolding make_default_risk_policy is_non_empty_string
unnamed_policy_refused = refl

-- With the store: the global scope is halted, and then the file is unusable.
abbrev rejection : RiskCheckRequest → List RiskReasonCode → RiskCheckEvent
rejection r codes = event_of r RiskDecisionStatus.rejected codes none

abbrev halted_request : RiskCheckRequest
halted_request = request_with sell 5 halted_snapshot

halted_run :
    evaluate_pre_trade_risk digests halted_request policy
    ≡ ok (rejection halted_request (kill_switch_active ∷ []))
unfolding checking storing
halted_run = refl

halt_takes_effect_example :
    ((rejection halted_request (kill_switch_active ∷ [])).final_decision
      ≡ RiskDecisionStatus.rejected)
    × ((rejection halted_request (kill_switch_active ∷ [])).approved_order_intent ≡ none)
unfolding storing
halt_takes_effect_example =
    halt_takes_effect digests halted_request policy halted_file 50 (account_scope ∷ []) halted_read
      halted_run digest (stored log) halt halt_run refl refl (omega arith)

abbrev unknown_request : RiskCheckRequest
unknown_request = request_with sell 5 unknown_snapshot

unknown_run :
    evaluate_pre_trade_risk digests unknown_request policy
    ≡ ok (rejection unknown_request (required_state_missing ∷ unknown_kill_state ∷ []))
unfolding checking storing
unknown_run = refl

silent_store_rejects_example :
    ((rejection unknown_request (required_state_missing ∷ unknown_kill_state ∷ [])).final_decision
      ≡ RiskDecisionStatus.rejected)
    × ((rejection unknown_request
          (required_state_missing ∷ unknown_kill_state ∷ [])).approved_order_intent
        ≡ none)
silent_store_rejects_example =
    silent_store_rejects digests unknown_request policy unusable 50 (account_scope ∷ [])
      unknown_read unknown_run refl
