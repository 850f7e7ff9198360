-- ===== src/Gateway/Accepted.antt =====
-- The report of a gateway run passes its validator (contracts/execution.py, execution/gateway.py).
use ta_model_v.Base.{
  String, Bool, true, Option, none, some, is_some, List, [], ◌∷◌, ◌++◌, map, filter, All, all,
  is_nonempty, not, ◌&&◌, ◌||◌, str_eq, eq_refl, ◌≡◌, refl, sym, ap, ◌∙◌, inl, inr, arith,
  Bool-cases,
}
use ta_model_v.Contracts.Result.{ok}
use ta_model_v.Contracts.Event.{RiskCheckEvent}
use ta_model_v.Gate.{RiskGatedReplayResult, ids_of, is_partition, split_events}
use ta_model_v.Gate.Partition.{split-is_partition}
use ta_model_v.Replay.Run.{ReplayReport}
use ta_model_v.Replay.Loop.{Pairwise}
use ta_model_v.Gateway.Event.{
  ExecutionGatewayKind, ExecutionFillMode, ExecutionGatewayLifecycleEvent, is_blocked,
  fill_mode_fits,
}
use ta_model_v.Gateway.Report.{
  texts_beq, kind_beq, mode_beq, risk_ids, placed, withheld, events_match, report_is_valid,
  report_draft, make_execution_gateway_report, final_state_of_report,
}
use ta_model_v.Gateway.Run.{is_forwarded}
use ta_model_v.Gate.Forwarding.{split_forwards}
use ta_model_v.Gateway.Lifecycle.{IsOrderly, IsEventOf}

texts_beq_refl : (xs : List String) → texts_beq xs xs ≡ true
texts_beq_refl [] = refl
texts_beq_refl (x ∷ xs) = rw (eq_refl x, texts_beq_refl xs) refl

kind_beq_refl : (k : ExecutionGatewayKind) → kind_beq k k ≡ true
kind_beq_refl k = ground arith

mode_beq_refl : (m : ExecutionFillMode) → mode_beq m m ≡ true
mode_beq_refl m = ground arith

module _ (kind : ExecutionGatewayKind) (mode : ExecutionFillMode) (run_id : String) where
  events-risk_ids :
      (checks : List RiskCheckEvent) (events : List ExecutionGatewayLifecycleEvent)
      → Pairwise (IsEventOf kind mode run_id) checks events
      → risk_ids events ≡ ids_of checks
  events-risk_ids [] [] p = refl
  events-risk_ids [] (e ∷ es) p = absurd p
  events-risk_ids (c ∷ cs) [] p = absurd p
  events-risk_ids (c ∷ cs) (e ∷ es) p = rw ((p.0).same_check, events-risk_ids cs es p.1) refl

  forwarded_unless_blocked :
      (c : RiskCheckEvent) (e : ExecutionGatewayLifecycleEvent)
      → IsOrderly c
      → IsEventOf kind mode run_id c e
      → is_blocked e.status ≡ not (is_forwarded c)
  forwarded_unless_blocked c e orderly h =
      ground (arith, h.blocked_unless_approved, orderly.approval_has_intent)

  -- The events that are placed, or blocked, are those of the checks that are forwarded, or not.
  events-split :
      (checks : List RiskCheckEvent) (events : List ExecutionGatewayLifecycleEvent)
      → All IsOrderly checks
      → Pairwise (IsEventOf kind mode run_id) checks events
      → (placed events ≡ ids_of (filter is_forwarded checks))
        × (withheld events ≡ ids_of (filter (λ c. not (is_forwarded c)) checks))
  events-split [] [] orderly p = (refl, refl)
  events-split [] (e ∷ es) orderly p = absurd p
  events-split (c ∷ cs) [] orderly p = absurd p
  events-split (c ∷ cs) (e ∷ es) orderly p =
      let rest = events-split cs es orderly.1 p.1 in
      let status = forwarded_unless_blocked c e orderly.0 p.0 in
      elim (Bool-cases (is_forwarded c)) [
        | inl forwarded ↦
            let blocked = status ∙ ap not forwarded in
            (
              rw (forwarded, blocked, (p.0).same_check, rest.0) refl,
              rw (forwarded, blocked, rest.1) refl,
            )
        | inr kept ↦
            let blocked = status ∙ ap not kept in
            (rw (kept, blocked, rest.0) refl, rw (kept, blocked, (p.0).same_check, rest.1) refl)
      ]

  events-match :
      (checks : List RiskCheckEvent) (events : List ExecutionGatewayLifecycleEvent)
      → Pairwise (IsEventOf kind mode run_id) checks events
      → all
          (λ e. str_eq e.run_id run_id && kind_beq e.gateway_kind kind && mode_beq e.fill_mode mode)
          events
        ≡ true
  events-match [] [] p = refl
  events-match [] (e ∷ es) p = absurd p
  events-match (c ∷ cs) [] p = absurd p
  events-match (c ∷ cs) (e ∷ es) p =
      rw
        (
          (p.0).same_run,
          (p.0).same_kind,
          (p.0).same_mode,
          eq_refl run_id,
          kind_beq_refl kind,
          mode_beq_refl mode,
          events-match cs es p.1,
        )
        refl

  state_needs_report :
      (report : Option ReplayReport)
      → (is_some report || not (is_some (final_state_of_report report))) ≡ true
  state_needs_report none = refl
  state_needs_report (some r) = refl

  agree : (a b : Bool) → a ≡ b → ((not b || a) ≡ true) × ((b || not a) ≡ true)
  agree a b h = ground (arith, h)

  pub report-returned :
      (gated : RiskGatedReplayResult ReplayReport) (checks : List RiskCheckEvent)
      (events : List ExecutionGatewayLifecycleEvent)
      → fill_mode_fits kind mode ≡ true
      → gated.risk_check_ids ≡ ids_of checks
      → gated.approved_risk_check_ids ≡ ids_of (split_events checks).approved_events
      → gated.blocked_risk_check_ids ≡ ids_of (split_events checks).blocked_events
      → is_some gated.replay_report ≡ is_nonempty gated.approved_risk_check_ids
      → All IsOrderly checks
      → Pairwise (IsEventOf kind mode run_id) checks events
      → make_execution_gateway_report run_id kind mode gated events
        ≡ ok (report_draft run_id kind mode gated events)
  unfolding make_execution_gateway_report report_is_valid events_match
  report-returned gated checks events fits all_ids approved_ids blocked_ids reported orderly p =
      let split = split_forwards checks in
      let sorted = events-split checks events orderly p in
      let placed_same = sorted.0 ∙ sym (ap ids_of split.1) ∙ sym approved_ids in
      let withheld_same = sorted.1 ∙ sym (ap ids_of split.2) ∙ sym blocked_ids in
      let ids_same = events-risk_ids checks events p ∙ sym all_ids in
      let partition : is_partition (gated.approved_risk_check_ids ++ gated.blocked_risk_check_ids)
            gated.risk_check_ids
          ≡ true =
        rw (approved_ids, blocked_ids, all_ids) (split-is_partition checks) in
      let rules =
        agree (is_some gated.replay_report) (is_nonempty gated.approved_risk_check_ids) reported in
      rw
        (
          fits,
          texts_beq_refl (map (λ e. e.gateway_event_id) events),
          ids_same,
          placed_same,
          withheld_same,
          texts_beq_refl gated.risk_check_ids,
          texts_beq_refl gated.approved_risk_check_ids,
          texts_beq_refl gated.blocked_risk_check_ids,
          partition,
          events-match checks events p,
          state_needs_report gated.replay_report,
          rules.0,
          rules.1,
        )
        refl
