-- ===== src/Engine/Examples/Runs.antt =====
-- An approved and a rejected run of the risk check: inputs of the tests.
use ta_model_v.Base.{some, none, [], ◌∷◌, ◌≡◌, refl}
use ta_model_v.Contracts.Result.{ok}
use ta_model_v.Contracts.Order.{buy}
use ta_model_v.Contracts.KillSwitch
use ta_model_v.Contracts.Event.{RiskCheckEvent}
use ta_model_v.Contracts.Risk.{RiskCheckRequest, RiskDecisionStatus, kill_switch_active}
use ta_model_v.Engine.Decision.{evaluate_pre_trade_risk}
use ta_model_v.Engine.Examples.{digests, policy, order, request, event_of, checking}

-- A buy within the limits, and a buy while the switch is at REDUCE_ONLY.
abbrev pub buy_request : RiskCheckRequest
buy_request = request buy 5 KillSwitch.clear

pub buy_run :
    evaluate_pre_trade_risk digests buy_request policy
    ≡ ok (event_of buy_request RiskDecisionStatus.approved [] (some (order buy 5)))
unfolding checking
buy_run = refl

abbrev pub stopped_request : RiskCheckRequest
stopped_request = request buy 5 KillSwitch.reduce_only

abbrev pub stopped_event : RiskCheckEvent
stopped_event = event_of stopped_request RiskDecisionStatus.rejected (kill_switch_active ∷ []) none

pub stopped_run : evaluate_pre_trade_risk digests stopped_request policy ≡ ok stopped_event
unfolding checking
stopped_run = refl
