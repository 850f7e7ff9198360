-- ===== src/Gate/Partition.antt =====
-- The approved and the blocked events of risk/replay.py partition the input.
use ta_model_v.Base.{
  String, Bool, true, Option, none, some, List, [], ◌∷◌, ◌++◌, any, length, ◌+◌, ◌||◌, str_eq,
  eq_refl, ◌≡◌, refl, arith, length-append, any-append,
}
use ta_model_v.Contracts.Order.{OrderIntent}
use ta_model_v.Contracts.Event.{RiskCheckEvent}
use ta_model_v.Gate.{Split, split_event, split_events, ids_of, is_subset, is_partition}

-- The approved ids, then the blocked ones.
abbrev pub parts : Split → List String
parts s = ids_of s.approved_events ++ ids_of s.blocked_events

step-length :
    (e : RiskCheckEvent) (i : Option OrderIntent) (s : Split)
    → length (parts (split_event e i s)) ≡ 1 + length (parts s)
step-length e none s = ground (
  arith,
  length-append (ids_of s.approved_events) (ids_of s.blocked_events),
  length-append (ids_of s.approved_events) (e.risk_check_id ∷ ids_of s.blocked_events),
)
step-length e (some i) s = ground (
  arith,
  length-append (ids_of s.approved_events) (ids_of s.blocked_events),
  length-append (ids_of s.approved_events) (e.risk_check_id ∷ ids_of s.blocked_events),
)

-- A round adds the event's id.
step-any :
    (q : String → Bool) (e : RiskCheckEvent) (i : Option OrderIntent) (s : Split)
    → any q (parts (split_event e i s)) ≡ (q e.risk_check_id || any q (parts s))
step-any q e none s = ground (
  arith,
  any-append q (ids_of s.approved_events) (ids_of s.blocked_events),
  any-append q (ids_of s.approved_events) (e.risk_check_id ∷ ids_of s.blocked_events),
)
step-any q e (some i) s = ground (
  arith,
  any-append q (ids_of s.approved_events) (ids_of s.blocked_events),
  any-append q (ids_of s.approved_events) (e.risk_check_id ∷ ids_of s.blocked_events),
)

parts-length :
    (events : List RiskCheckEvent) → length (parts (split_events events)) ≡ length (ids_of events)
unfolding split_events
parts-length [] = refl
parts-length (e ∷ es) =
    ground (arith, parts-length es, step-length e e.approved_order_intent (split_events es))

parts-any :
    (q : String → Bool) (events : List RiskCheckEvent)
    → any q (parts (split_events events)) ≡ any q (ids_of events)
unfolding split_events
parts-any q [] = refl
parts-any q (e ∷ es) =
    ground (arith, parts-any q es, step-any q e e.approved_order_intent (split_events es))

-- A list whose tests agree with another's is a subset of it.
subset_weaken :
    (xs zs : List String)
    → ((q : String → Bool) → any q xs ≡ true → any q zs ≡ true)
    → is_subset xs zs ≡ true
subset_weaken [] zs h = refl
subset_weaken (x ∷ xs) zs h =
    ground (arith, h (str_eq x), eq_refl x, subset_weaken xs zs (λ q k. h q (ground arith)))

pub split-is_partition :
    (events : List RiskCheckEvent)
    → is_partition (parts (split_events events)) (ids_of events) ≡ true
unfolding is_partition
split-is_partition events = ground (
  arith,
  parts-length events,
  subset_weaken (parts (split_events events)) (ids_of events)
      (λ q k. ground (arith, parts-any q events)),
  subset_weaken (ids_of events) (parts (split_events events))
      (λ q k. ground (arith, parts-any q events)),
)
