-- ===== src/Gateway/Lifecycle.antt =====
-- A gateway run (execution/gateway.py) answers each risk check with one lifecycle event.
use ta_model_v.Base.{
  String, Bool, true, false, Option, none, some, is_some, List, [], ◌∷◌, filter, All, not, str_eq,
  eq_iff, ◌≡◌, refl, sym, ap, ◌∙◌, ◌⊎◌, inl, inr, arith,
}
use mathlib.Core.Path.{subst}
use ta_model_v.Base.Among.{Among, Among-filter, filter-Among}
use ta_model_v.Base.Distinct.{distinct, distinct-Among}
use ta_model_v.Base.Dict.{lookup}
use ta_model_v.Base.Equality.{string_eq}
use ta_model_v.Contracts.Result.{ok, ◌>>=◌}
use ta_model_v.Contracts.Event.{RiskCheckEvent, is_approval}
use ta_model_v.Contracts.ReplayResult.{ReplayOrderResult}
use ta_model_v.Replay.Free.{IsTradable}
use ta_model_v.Replay.Loop.{Pairwise}
use ta_model_v.Gateway.Event.{
  ExecutionGatewayKind, ExecutionFillMode, ExecutionGatewayLifecycleEvent, GatewayDigests,
  fill_mode_fits, is_blocked,
}
use ta_model_v.Gateway.Draft.{blocked_draft, replayed_draft, make_execution_gateway_lifecycle_event}
use ta_model_v.Gateway.Valid.{
  accepted, replayed-accepted, blocked-accepted, is_blocked-gateway_status,
}
use ta_model_v.Gateway.Run.{is_forwarded, ResultsById, zipped, lifecycle_events}
use ta_model_v.Gateway.Answers.{IsBacked, lookup-zipped}
use ta_model_v.Gate.{ids_of}

-- A check as the risk engine's contract has it: an intent exactly where it approves, and an order of a
-- quantity above zero that 28 digits hold.
pub record IsOrderly (check : RiskCheckEvent) : Type 0 where
  pub approval_has_intent : is_some check.approved_order_intent ≡ is_approval check.final_decision
  pub tradable : IsTradable check.request.order_intent

-- The event of a check: blocked exactly where the check does not approve, and of the approved intent
-- where it does.
pub record IsEventOf (kind : ExecutionGatewayKind) (mode : ExecutionFillMode) (run_id : String)
    (check : RiskCheckEvent) (e : ExecutionGatewayLifecycleEvent) : Type 0 where
  pub same_check : e.risk_check_id ≡ check.risk_check_id
  pub same_decision : e.risk_decision ≡ check.final_decision
  pub same_run : e.run_id ≡ run_id
  pub same_kind : e.gateway_kind ≡ kind
  pub same_mode : e.fill_mode ≡ mode
  pub blocked_unless_approved : is_blocked e.status ≡ not (is_approval check.final_decision)
  pub intent : (is_blocked e.status ≡ true) ⊎ (check.approved_order_intent ≡ some e.order_intent)

-- What the lookup finds for a check.
abbrev pub IsFound : RiskCheckEvent → Option ReplayOrderResult → Type 0
IsFound check none = is_approval check.final_decision ≡ false
IsFound check (some r) = IsBacked check r

abbrev pub same_id : RiskCheckEvent → RiskCheckEvent → Bool
same_id a b = str_eq a.risk_check_id b.risk_check_id

same_id_symm : (a b : RiskCheckEvent) → same_id a b ≡ same_id b a
same_id_symm a b =
    ground (arith, eq_iff a.risk_check_id b.risk_check_id, eq_iff b.risk_check_id a.risk_check_id)

module _ (checks : List RiskCheckEvent) (results : List ReplayOrderResult)
    (unique : distinct same_id checks ≡ true)
    (backed : Pairwise IsBacked (filter is_forwarded checks) results) where
  abbrev found : String → Option ReplayOrderResult
  found k = lookup k (zipped [] (ids_of (filter is_forwarded checks)) results)

  not_forwarded :
      (check : RiskCheckEvent)
      → IsOrderly check
      → (is_forwarded check ≡ true → ⊥)
      → is_approval check.final_decision ≡ false
  not_forwarded check orderly h = ground (arith, orderly.approval_has_intent, h)

  pub lookup-IsFound :
      (check : RiskCheckEvent)
      → Among check checks
      → IsOrderly check
      → IsFound check (found check.risk_check_id)
  lookup-IsFound check among orderly =
      elim (lookup-zipped {R = IsBacked} (filter is_forwarded checks) results check.risk_check_id []
        backed) [
          | inl (c, r, forwarded, same, related, hit) ↦
              let here = Among-filter is_forwarded c checks forwarded in
              let alike =
                distinct-Among same_id same_id_symm c check checks unique here.0 among
                  ((eq_iff c.risk_check_id check.risk_check_id).1 same) in
              subst (IsFound check) (sym hit) (subst (λ x. IsBacked x r) alike related)
          | inr (miss, fresh) ↦ subst (IsFound check) (sym miss) (
              not_forwarded check orderly
                λ f. fresh check (filter-Among is_forwarded check checks among f) refl)
        ]

module _ (d : GatewayDigests) (kind : ExecutionGatewayKind) (mode : ExecutionFillMode)
    (fits : fill_mode_fits kind mode ≡ true) (run_id : String) where
  -- The event of a check for what the lookup finds.
  abbrev answer : RiskCheckEvent → Option ReplayOrderResult → ExecutionGatewayLifecycleEvent
  answer check none = accepted d (blocked_draft kind mode run_id check)
  answer check (some r) = accepted d (replayed_draft d kind mode run_id check r.intent r)

  answer-returned :
      (check : RiskCheckEvent) (r : Option ReplayOrderResult)
      → IsOrderly check
      → IsFound check r
      → make_execution_gateway_lifecycle_event d kind mode run_id check r ≡ ok (answer check r)
  answer-returned check none orderly h =
      blocked-accepted d kind mode fits run_id check h orderly.tradable
  answer-returned check (some r) orderly h =
      replayed-accepted d kind mode fits run_id check r.intent r h.approves
        (orderly.tradable).positive h.approved_intent refl h.valid

  answer-IsEventOf :
      (check : RiskCheckEvent) (r : Option ReplayOrderResult)
      → IsFound check r
      → IsEventOf kind mode run_id check (answer check r)
  answer-IsEventOf check none h = record {
    same_check = refl;
    same_decision = refl;
    same_run = refl;
    same_kind = refl;
    same_mode = refl;
    blocked_unless_approved = sym (ap not h);
    intent = inl refl;
  }
  answer-IsEventOf check (some r) h = record {
    same_check = refl;
    same_decision = refl;
    same_run = refl;
    same_kind = refl;
    same_mode = refl;
    blocked_unless_approved = is_blocked-gateway_status r.status ∙ sym (ap not h.approves);
    intent = inr h.approved_intent;
  }

  -- The events are returned, one for each check.
  pub events-returned :
      (by_id : ResultsById) (checks : List RiskCheckEvent)
      → All IsOrderly checks
      → ((c : RiskCheckEvent)
          → Among c checks
          → IsOrderly c
          → IsFound c (lookup c.risk_check_id by_id))
      → (events : List ExecutionGatewayLifecycleEvent) × (lifecycle_events d kind mode run_id by_id
            checks
          ≡ ok events)
        × Pairwise (IsEventOf kind mode run_id) checks events
  unfolding lifecycle_events
  events-returned by_id [] orderly h = ([], refl, tt)
  events-returned by_id (c ∷ cs) orderly h =
      let r = lookup c.risk_check_id by_id in
      let first = h c (inl refl) orderly.0 in
      let (events, returned, related) =
        events-returned by_id cs orderly.1 (λ c' among. h c' (inr among)) in
      (
        answer c r ∷ events,
        ap (λ m. m >>= λ e. lifecycle_events d kind mode run_id by_id cs >>= λ es. ok (e ∷ es))
              (answer-returned c r orderly.0 first)
            ∙ ap (λ m. m >>= λ es. ok (answer c r ∷ es)) returned,
        (answer-IsEventOf c r first, related),
      )
