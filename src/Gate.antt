-- ===== src/Gate.antt =====
-- The risk-gated replay (risk/replay.py) and its result (contracts/risk.py): only approved intents
-- are forwarded. The replay engine itself (simulation/replay.py) is a parameter, any function from the
-- intents to a report or an exception.
pub mod Partition
pub mod Forwarding
mod Tests
use ta_model_v.Base.{
  String, Bool, true, false, Option, none, some, List, [], ◌∷◌, ◌++◌, map, any, all, length,
  is_some, is_nonempty, not, ◌&&◌, ◌||◌, ◌==◌, if◌then◌else◌, str_eq,
}
use ta_model_v.Contracts.Result.{Result, ok, require, ◌>>=◌, ◌>>◌, validation_error}
use ta_model_v.Contracts.Order.{OrderIntent}
use ta_model_v.Contracts.Event.{RiskCheckEvent, is_approval}

-- What the loop over the events collects.
pub record Split : Type 0 where
  pub approved_events : List RiskCheckEvent
  pub blocked_events : List RiskCheckEvent
  pub approved_intents : List OrderIntent

-- One round of the loop, for an event whose approved intent is given.
abbrev pub split_event : RiskCheckEvent → Option OrderIntent → Split → Split
split_event event none rest = record rest { blocked_events = event ∷ rest.blocked_events }
split_event event (some intent) rest =
    if is_approval event.final_decision
    then record rest {
      approved_events = event ∷ rest.approved_events;
      approved_intents = intent ∷ rest.approved_intents;
    }
    else record rest { blocked_events = event ∷ rest.blocked_events }

-- The loop; the lists keep the order of the events.
unfoldable pub split_events : List RiskCheckEvent → Split
split_events [] = record { approved_events = []; blocked_events = []; approved_intents = [] }
split_events (event ∷ events) = split_event event event.approved_order_intent (split_events events)

abbrev pub ids_of : List RiskCheckEvent → List String
ids_of = map (λ e. e.risk_check_id)

abbrev pub is_subset : List String → List String → Bool
is_subset xs ys = all (λ x. any (str_eq x) ys) xs

-- The first rule of the validator: equal lengths and equal sets.
unfoldable pub is_partition : List String → List String → Bool
is_partition parts ids = length parts == length ids && is_subset parts ids && is_subset ids parts

pub record RiskGatedReplayResult (Report : Type 0) : Type 0 where
  pub run_id : String
  pub risk_check_ids : List String
  pub approved_risk_check_ids : List String
  pub blocked_risk_check_ids : List String
  pub replay_report : Option Report

module _ {Report : Type 0} where
  -- `make_risk_gated_replay_result`, with the validator; its digests are left out.
  unfoldable pub make_risk_gated_replay_result :
      RiskGatedReplayResult Report → Result (RiskGatedReplayResult Report)
  make_risk_gated_replay_result r = do
    require (is_partition (r.approved_risk_check_ids ++ r.blocked_risk_check_ids) r.risk_check_ids)
        (validation_error "risk-gated replay ids must partition input risk checks")
    require (is_nonempty r.approved_risk_check_ids || not (is_some r.replay_report))
        (validation_error "risk-gated replay must not create a replay report without approvals")
    require (not (is_nonempty r.approved_risk_check_ids) || is_some r.replay_report)
        (validation_error "approved risk checks require a replay report")
    ok r

  -- The replay runs only where there is an intent.
  unfoldable pub replay_report_of :
      (List OrderIntent → Result Report) → List OrderIntent → Result (Option Report)
  replay_report_of replay [] = ok none
  replay_report_of replay (intent ∷ intents) = do
    report ← replay (intent ∷ intents)
    ok (some report)

  unfoldable pub replay_risk_approved_market_orders :
      (List OrderIntent → Result Report)
      → String
      → List RiskCheckEvent
      → Result (RiskGatedReplayResult Report)
  replay_risk_approved_market_orders replay run_id events = do
    let split = split_events events
    report ← replay_report_of replay split.approved_intents
    make_risk_gated_replay_result (record {
      run_id = run_id;
      risk_check_ids = ids_of events;
      approved_risk_check_ids = ids_of split.approved_events;
      blocked_risk_check_ids = ids_of split.blocked_events;
      replay_report = report;
    })
