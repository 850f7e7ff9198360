-- ===== src/Gate/Tests.antt =====
-- The gate on an approved and a rejected event of the risk check.
use ta_model_v.Base.{ℕ, some, List, [], ◌∷◌, All, filter, not, length, ◌≡◌}
use ta_model_v.Contracts.Result.{Result, ok}
use ta_model_v.Contracts.Order.{OrderIntent, buy}
use ta_model_v.Contracts.Event.{RiskCheckEvent}
use ta_model_v.Contracts.Risk.{RiskDecisionStatus}
use ta_model_v.Engine.Examples.{digests, policy, order, event_of}
use ta_model_v.Engine.Examples.Runs.{buy_request, buy_run, stopped_event, stopped_run}
use ta_model_v.Gate.{split_events}
use ta_model_v.Gate.Forwarding.{HasWithin, IsForwarded, forwards, split_forwards, forwarded-Within}

abbrev events : List RiskCheckEvent
events =
    event_of buy_request RiskDecisionStatus.approved [] (some (order buy 5)) ∷ stopped_event ∷ []

-- A replay that reports how many intents it was given.
abbrev counting : List OrderIntent → Result ℕ
counting intents = ok (length intents)

forwarded-Within_example : All (HasWithin digests policy) (split_events events).approved_events
forwarded-Within_example = forwarded-Within digests policy events (buy_run, (stopped_run, tt))

split_forwards_example :
    IsForwarded (split_events events).approved_events (split_events events).approved_intents
    × ((split_events events).approved_events ≡ filter forwards events)
    × ((split_events events).blocked_events ≡ filter (λ e. not (forwards e)) events)
split_forwards_example = split_forwards events
