-- ===== src/Gate/Forwarding.antt =====
-- What the risk-gated replay forwards, and that it returns.
use ta_model_v.Base.{
  String, Bool, true, false, Option, none, some, is_some, List, [], ◌∷◌, All, is_nonempty, not,
  filter, ap, if◌then◌else◌, ◌&&◌, ◌||◌, ◌≡◌, refl, arith, sym, ◌∙◌, inl, inr, Bool-cases,
}
use ta_model_v.Contracts.Result.{Result, ok, require, ◌>>◌, >>=-eq-ok, Error}
use ta_model_v.Contracts.Order.{OrderIntent}
use ta_model_v.Contracts.Event.{RiskCheckEvent, is_approval}
use ta_model_v.Contracts.Policy.{RiskPolicy}
use ta_model_v.Engine.Decision.{Digests, evaluate_pre_trade_risk}
use ta_model_v.Engine.Safety.{Within, approved-Within}
use ta_model_v.Gate.{
  Split, split_event, split_events, ids_of, RiskGatedReplayResult, make_risk_gated_replay_result,
  replay_report_of, replay_risk_approved_market_orders,
}
use ta_model_v.Gate.Partition.{split-is_partition}

-- Intents that stand with approving events, one for each, in order.
unfoldable pub IsForwarded : List RiskCheckEvent → List OrderIntent → Type 0
IsForwarded [] [] = Unit
IsForwarded [] (i ∷ is) = ⊥
IsForwarded (e ∷ es) [] = ⊥
IsForwarded (e ∷ es) (i ∷ is) =
    (is_approval e.final_decision ≡ true) × (e.approved_order_intent ≡ some i) × IsForwarded es is

step-IsForwarded :
    (e : RiskCheckEvent) (i : Option OrderIntent) (s : Split)
    → e.approved_order_intent ≡ i
    → IsForwarded s.approved_events s.approved_intents
    → IsForwarded (split_event e i s).approved_events (split_event e i s).approved_intents
unfolding IsForwarded
step-IsForwarded e none s h k = ground arith
step-IsForwarded e (some i) s h k = ground arith

-- An event that approves and has an intent.
abbrev pub forwards : RiskCheckEvent → Bool
forwards e = is_approval e.final_decision && is_some e.approved_order_intent

split-forwarded :
    (c : RiskCheckEvent) (i : Option OrderIntent) (s : Split)
    → c.approved_order_intent ≡ i
    → ((split_event c i s).approved_events
        ≡ (if forwards c then c ∷ s.approved_events else s.approved_events))
      × ((split_event c i s).blocked_events
          ≡ (if not (forwards c) then c ∷ s.blocked_events else s.blocked_events))
split-forwarded c none s h = ground arith
split-forwarded c (some i) s h = ground arith

-- The gate's loop splits the checks by whether they are forwarded.
split-filter :
    (checks : List RiskCheckEvent)
    → ((split_events checks).approved_events ≡ filter forwards checks)
      × ((split_events checks).blocked_events ≡ filter (λ c. not (forwards c)) checks)
unfolding split_events
split-filter [] = (refl, refl)
split-filter (c ∷ cs) =
    let step = split-forwarded c c.approved_order_intent (split_events cs) refl in
    let rest = split-filter cs in
    (
      step.0 ∙ ap (λ l. if forwards c then c ∷ l else l) rest.0,
      step.1 ∙ ap (λ l. if not (forwards c) then c ∷ l else l) rest.1,
    )

split-IsForwarded :
    (events : List RiskCheckEvent)
    → IsForwarded (split_events events).approved_events (split_events events).approved_intents
unfolding split_events IsForwarded
split-IsForwarded [] = tt
split-IsForwarded (e ∷ es) =
    step-IsForwarded e e.approved_order_intent (split_events es) refl (split-IsForwarded es)

-- The gate splits the events, in order, into those that approve and have an intent and all others;
-- the forwarded intents are those of the first, one for each and in their order.
pub split_forwards :
    (events : List RiskCheckEvent)
    → IsForwarded (split_events events).approved_events (split_events events).approved_intents
      × ((split_events events).approved_events ≡ filter forwards events)
      × ((split_events events).blocked_events ≡ filter (λ e. not (forwards e)) events)
split_forwards events = (split-IsForwarded events, (split-filter events).0, (split-filter events).1)

-- An event that the risk check returned for its request.
abbrev pub IsChecked : Digests → RiskPolicy → RiskCheckEvent → Type 0
IsChecked d p e = evaluate_pre_trade_risk d e.request p ≡ ok e

module _ (d : Digests) (p : RiskPolicy) where
  abbrev pub HasWithin : RiskCheckEvent → Type 0
  HasWithin e = Within d e.request p

  step-Within :
      (e : RiskCheckEvent) (i : Option OrderIntent) (s : Split)
      → e.approved_order_intent ≡ i
      → IsChecked d p e
      → All HasWithin s.approved_events
      → All HasWithin (split_event e i s).approved_events
  step-Within e none s h c k = k
  step-Within e (some i) s h c k = elim (Bool-cases (is_approval e.final_decision)) [
    | inl b ↦ rw b (approved-Within d e.request p {event = e} c {i = i} h, k)
    | inr b ↦ rw b k
  ]

  -- Where every event is what the risk check returned for its request, each event whose intent is
  -- forwarded to the replay is of a request within every hard limit.
  pub forwarded-Within :
      (events : List RiskCheckEvent)
      → All (IsChecked d p) events
      → All HasWithin (split_events events).approved_events
  unfolding split_events
  forwarded-Within [] h = tt
  forwarded-Within (e ∷ es) h =
      step-Within e e.approved_order_intent (split_events es) refl h.0 (forwarded-Within es h.1)

forwarded_nonempty :
    (es : List RiskCheckEvent) (is : List OrderIntent)
    → IsForwarded es is
    → is_nonempty (ids_of es) ≡ is_nonempty is
unfolding IsForwarded
forwarded_nonempty [] [] h = refl
forwarded_nonempty [] (i ∷ is) h = absurd h
forwarded_nonempty (e ∷ es) [] h = absurd h
forwarded_nonempty (e ∷ es) (i ∷ is) h = refl

-- The two rules on the report, where it is there exactly for an approval.
rules_agree :
    {A : Type 0} (b : Bool) (e f : Error) (a : A)
    → (require (b || not b) e >> (require (not b || b) f >> ok a)) ≡ ok a
rules_agree true e f a = refl
rules_agree false e f a = refl

module _ {Report : Type 0} (replay : List OrderIntent → Result Report) (run_id : String)
    (events : List RiskCheckEvent) {report : Option Report}
    (replayed : replay_report_of replay (split_events events).approved_intents ≡ ok report) where
  report-is_some :
      (intents : List OrderIntent)
      → replay_report_of replay intents ≡ ok report
      → is_some report ≡ is_nonempty intents
  unfolding replay_report_of
  report-is_some [] h = ground (arith, h)
  report-is_some (i ∷ is) h =
      let (r, ran, same) = >>=-eq-ok (replay (i ∷ is)) (λ x. ok (some x)) h in ground (arith, same)

  pub report_fits : is_some report ≡ is_nonempty (ids_of (split_events events).approved_events)
  report_fits =
      report-is_some (split_events events).approved_intents replayed
      ∙ sym (
          forwarded_nonempty (split_events events).approved_events
            (split_events events).approved_intents (split_forwards events).0)

  abbrev pub expected : RiskGatedReplayResult Report
  expected = record {
    run_id = run_id;
    risk_check_ids = ids_of events;
    approved_risk_check_ids = ids_of (split_events events).approved_events;
    blocked_risk_check_ids = ids_of (split_events events).blocked_events;
    replay_report = report;
  }

  expected-valid : make_risk_gated_replay_result expected ≡ ok expected
  unfolding make_risk_gated_replay_result
  expected-valid =
      rw (split-is_partition events, report_fits)
        (rules_agree (is_nonempty (ids_of (split_events events).approved_events)) _ _ expected)

  pub gate_returns : replay_risk_approved_market_orders replay run_id events ≡ ok expected
  unfolding replay_risk_approved_market_orders
  gate_returns = rw replayed expected-valid
