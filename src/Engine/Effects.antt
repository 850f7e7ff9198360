-- ===== src/Engine/Effects.antt =====
-- What an event says of caps, of sales and of the kill switch.
use mathlib.Core.Path.{subst}
use ta_model_v.Base.{
  Bool, true, false, none, some, List, any, ◌≡◌, refl, sym, ◌∙◌, ◌⊎◌, inl, inr, arith,
}
use ta_model_v.Contracts.KillSwitch
use ta_model_v.Contracts.KillSwitch.{KillSwitchState}
use ta_model_v.Contracts.Result.{ok}
use ta_model_v.Contracts.Order.{OrderIntent, OrderSide, buy, sell, is_buy}
use ta_model_v.Contracts.Policy.{RiskPolicy}
use ta_model_v.Contracts.Event.{RiskCheckEvent, has_hard_breach}
use ta_model_v.Contracts.Risk.{
  RiskCheckRequest, OrderEffect, RiskLimitEvaluation, RiskDecisionStatus,
}
use ta_model_v.Engine.Metadata.{metadata_view}
use ta_model_v.Engine.Effect.{build_order_effect}
use ta_model_v.Engine.Decision.{
  Digests, evaluate_limits, approval_after_soft_caps, capped_approval, allowed_incremental_notional,
  allowed_notionals, evaluate_pre_trade_risk,
}
use ta_model_v.Engine.Outcome.{limits_of, evaluate-IsRun}
use ta_model_v.Engine.Safety.{Within, decide-cases, rejected_iff, intent_fits, IntentFits}
use ta_model_v.Engine.Caps.{
  is_uncapped, soft_breaches, allowed_notionals-uncapped, IsCutTo, capped_approval-IsCutTo,
}
use ta_model_v.Engine.StateLimits.{kill_switch_evaluation}
use ta_model_v.Engine.Within.{no_hard_breach_iff}
use ta_model_v.Engine.Within.State.{KillSwitchAllows}

module _ (r : RiskCheckRequest) (es : List RiskLimitEvaluation) where
  -- A buy goes through the soft caps, a sale does not.
  approval_of_buy :
      r.order_intent.side ≡ buy
      → approval_after_soft_caps r (build_order_effect r) es
        ≡ capped_approval r (allowed_notionals r (soft_breaches es))
  unfolding approval_after_soft_caps build_order_effect
  approval_of_buy b = rw b refl

  approval_of_sell :
      r.order_intent.side ≡ sell
      → approval_after_soft_caps r (build_order_effect r) es
        ≡ ok (RiskDecisionStatus.approved, some r.order_intent)
  unfolding approval_after_soft_caps
  approval_of_sell s = rw s refl

side-cases : (s : OrderSide) → (s ≡ buy) ⊎ (s ≡ sell)
side-cases buy = inl refl
side-cases sell = inr refl

-- The orders that a state of the kill switch stops.
unfoldable pub stops : KillSwitchState → OrderSide → Bool
stops KillSwitch.halted side = true
stops KillSwitch.cancel_only side = true
stops KillSwitch.unknown_fail_closed side = true
stops KillSwitch.pause_new_orders side = is_buy side
stops KillSwitch.reduce_only side = is_buy side
stops KillSwitch.clear side = false
stops KillSwitch.soft_limited side = false

-- A stopped order is not allowed through.
stops-not_allowed :
    (state : KillSwitchState) (r : RiskCheckRequest)
    → stops state r.order_intent.side ≡ true
    → ¬ KillSwitchAllows state (build_order_effect r).risk_increasing
unfolding stops build_order_effect
stops-not_allowed KillSwitch.halted r h w = w
stops-not_allowed KillSwitch.cancel_only r h w = w
stops-not_allowed KillSwitch.unknown_fail_closed r h w = w
stops-not_allowed KillSwitch.pause_new_orders r h w = ground arith
stops-not_allowed KillSwitch.reduce_only r h w = ground arith
stops-not_allowed KillSwitch.clear r h w = cc
stops-not_allowed KillSwitch.soft_limited r h w = cc

-- A soft-limited kill switch is a soft breach that names no cap.
soft_limited_uncapped :
    (r : RiskCheckRequest) (e : OrderEffect)
    → r.kill_switch_snapshot.active_state ≡ KillSwitch.soft_limited
    → is_uncapped r (kill_switch_evaluation r e) ≡ true
unfolding kill_switch_evaluation allowed_incremental_notional
soft_limited_uncapped r e h = rw h refl

soft_limited_any :
    (d : Digests) (r : RiskCheckRequest) (p : RiskPolicy)
    → r.kill_switch_snapshot.active_state ≡ KillSwitch.soft_limited
    → any (is_uncapped r) (limits_of d r p) ≡ true
unfolding evaluate_limits
soft_limited_any d r p h = ground (arith, soft_limited_uncapped r (build_order_effect r) h)

module _ (d : Digests) (r : RiskCheckRequest) (p : RiskPolicy) {event : RiskCheckEvent}
    (run : evaluate_pre_trade_risk d r p ≡ ok event) where
  cases :
      ((has_hard_breach (limits_of d r p) ≡ true)
        × (event.final_decision ≡ RiskDecisionStatus.rejected)
        × (event.approved_order_intent ≡ none))
      ⊎ ((has_hard_breach (limits_of d r p) ≡ false)
          × (approval_after_soft_caps r (build_order_effect r) (limits_of d r p)
              ≡ ok (event.final_decision, event.approved_order_intent)))
  cases =
      decide-cases r (build_order_effect r) (limits_of d r p)
        (evaluate-IsRun d r p event run).decided

  -- Where a run returns an event, a sale within the limits is approved as it stands, whatever soft
  -- limits it breaches.
  pub sell_approved :
      r.order_intent.side ≡ sell
      → Within d r p
      → (event.final_decision ≡ RiskDecisionStatus.approved)
        × (event.approved_order_intent ≡ some r.order_intent)
  sell_approved s w = elim cases [
    | inl hard ↦
        cc ((no_hard_breach_iff d r p (metadata_view r) (build_order_effect r)).1 w, hard.0)
    | inr soft ↦ ground (arith, soft.1, approval_of_sell r (limits_of d r p) s)
  ]

  -- Where a run returns an event, a buy with a soft breach that names no cap has no approved intent.
  pub uncapped_buy_blocked :
      r.order_intent.side ≡ buy
      → any (is_uncapped r) (limits_of d r p) ≡ true
      → event.approved_order_intent ≡ none
  unfolding capped_approval
  uncapped_buy_blocked b u = elim cases [
    | inl hard ↦ hard.2
    | inr soft ↦ ground (
      arith,
      soft.1,
      approval_of_buy r (limits_of d r p) b,
      allowed_notionals-uncapped r (limits_of d r p) u,
    )
  ]

  -- Where a run returns an event and the kill switch is soft-limited, a buy has no approved intent.
  pub soft_limited_blocks_buys :
      r.kill_switch_snapshot.active_state ≡ KillSwitch.soft_limited
      → r.order_intent.side ≡ buy
      → event.approved_order_intent ≡ none
  soft_limited_blocks_buys s b = uncapped_buy_blocked b (soft_limited_any d r p s)

  -- Where a run returns an event that approves an order after a cap, the order is the requested buy
  -- with its quantity cut to `allowed / reference_price`, for a positive `allowed` that is below the
  -- requested notional and at most what each breached soft limit allows; each of them names a cap.
  pub capped-IsCutTo :
      {i : OrderIntent}
      → event.final_decision ≡ RiskDecisionStatus.approved_after_cap
      → event.approved_order_intent ≡ some i
      → (r.order_intent.side ≡ buy) × IsCutTo r (limits_of d r p) i
  capped-IsCutTo {i} c h = elim cases [
    | inl hard ↦ cc (hard.1, c)
    | inr soft ↦ elim (side-cases r.order_intent.side) [
      | inl b ↦ (
        b,
        capped_approval-IsCutTo r (limits_of d r p)
            (allowed_notionals r (soft_breaches (limits_of d r p))) refl
            (sym (approval_of_buy r (limits_of d r p) b) ∙ soft.1 ∙ cc (c, h)),
      )
      | inr s ↦ cc (approval_of_sell r (limits_of d r p) s, soft.1, c)
    ]
  ]

  -- Where a run returns an event, an order that the kill switch stops (any order from CANCEL_ONLY on
  -- and when unknown, a buy at PAUSE_NEW_ORDERS and REDUCE_ONLY) is rejected without an intent.
  pub kill_switch_rejects :
      stops r.kill_switch_snapshot.active_state r.order_intent.side ≡ true
      → (event.final_decision ≡ RiskDecisionStatus.rejected) × (event.approved_order_intent ≡ none)
  kill_switch_rejects h =
      let rejection =
        (rejected_iff d r p run).1
          (λ w. stops-not_allowed r.kill_switch_snapshot.active_state r h w.state.kill_switch) in
      (
        rejection,
        subst (λ s. IntentFits r.order_intent s event.approved_order_intent) rejection
            (intent_fits d r p run),
      )
