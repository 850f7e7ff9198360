-- ===== src/Engine/Halt.antt =====
-- The pre-trade risk check on a snapshot that the kill-switch store returned: risk/kill_switch.py
-- and risk/engine.py together.
use ta_model_v.Base.{
  String, Bool, true, false, none, List, [], ◌∷◌, any, ◌≡◌, refl, ◌≤◌, arith, inl, inr, ap, ◌∙◌,
}
use ta_model_v.Contracts.Result.{ok, Timestamp}
use ta_model_v.Contracts.Order.{OrderSide}
use ta_model_v.Contracts.KillSwitch
use ta_model_v.Contracts.KillSwitch.{
  KillSwitchScope, KillSwitchState, KillSwitchRecord, Transition, severity, key,
}
use ta_model_v.Contracts.Policy.{RiskPolicy}
use ta_model_v.Contracts.Event.{RiskCheckEvent}
use ta_model_v.Contracts.Risk.{RiskCheckRequest, RiskDecisionStatus}
use ta_model_v.Engine.Decision.{Digests, evaluate_pre_trade_risk}
use ta_model_v.Engine.Effects.{stops, kill_switch_rejects}
use ta_model_v.KillSwitch.Store.{StoreFile, is_evaluated, load_snapshot, transition}
use ta_model_v.Base.Among.{Among}
use ta_model_v.KillSwitch.Snapshot.{logged, load-IsMostRestrictive}
use ta_model_v.KillSwitch.Writing.{is_newer, transition_takes_effect}

-- From cancel-only on, a state stops every order.
severe_stops :
    (state : KillSwitchState) (side : OrderSide) → 4 ≤ severity state → stops state side ≡ true
unfolding stops severity
severe_stops state side h = ground arith

none_of :
    {A : Type 0} (p : A → Bool) (xs : List A) (x : A)
    → any p xs ≡ false
    → Among x xs
    → p x ≡ true
    → ⊥
none_of p [] x h i e = absurd i
none_of p (y ∷ ys) x h (inl s) e = ground (arith, ap p s)
none_of p (y ∷ ys) x h (inr i) e = none_of p ys x (ground arith) i e

unknown_stops :
    (state : KillSwitchState) (side : OrderSide)
    → state ≡ KillSwitch.unknown_fail_closed
    → stops state side ≡ true
unfolding stops
unknown_stops state side h = rw h refl

module _ (d : Digests) (r : RiskCheckRequest) (p : RiskPolicy) {event : RiskCheckEvent}
    (file : StoreFile) (at : Timestamp) (scopes : List KillSwitchScope)
    (read : load_snapshot file at scopes ≡ ok r.kill_switch_snapshot)
    (run : evaluate_pre_trade_risk d r p ≡ ok event) where
  -- Where the file gives no record of an evaluated scope (it is absent, unusable or silent on them),
  -- and a run returns an event, a request that holds the file's snapshot is rejected without intent.
  pub silent_store_rejects :
      any (λ x. is_evaluated scopes (key x.scope)) (logged file) ≡ false
      → (event.final_decision ≡ RiskDecisionStatus.rejected) × (event.approved_order_intent ≡ none)
  silent_store_rejects silent = kill_switch_rejects d r p run (
      unknown_stops r.kill_switch_snapshot.active_state r.order_intent.side
        (elim (load-IsMostRestrictive file at scopes read).attained [
          | inl h ↦ absurd (
              none_of (λ (x : KillSwitchRecord). is_evaluated scopes (key x.scope)) (logged file)
                h.0 silent h.1.newest.logged
                (ap (is_evaluated scopes) h.1.newest.same_scope ∙ h.1.evaluated))
          | inr h ↦ h.0
        ]))

  -- After a transition of an evaluated scope to CANCEL_ONLY, HALTED or UNKNOWN_FAIL_CLOSED, later
  -- than the scope's other records, a request that holds the new file's snapshot is rejected without an
  -- intent, where its run returns an event.
  pub halt_takes_effect :
      (digest : Transition → String) (before : StoreFile) (t : Transition)
      {written : KillSwitchRecord}
      → transition digest before t ≡ ok (file, written)
      → is_newer t (logged before) ≡ true
      → is_evaluated scopes (key t.scope) ≡ true
      → 4 ≤ severity t.new_state
      → (event.final_decision ≡ RiskDecisionStatus.rejected) × (event.approved_order_intent ≡ none)
  halt_takes_effect digest before t {written} wrote newer e severe = kill_switch_rejects d r p run (
      severe_stops r.kill_switch_snapshot.active_state r.order_intent.side (
        omega
          (arith, severe, transition_takes_effect digest before t wrote at scopes newer e read)))
