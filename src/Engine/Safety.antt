-- ===== src/Engine/Safety.antt =====
-- What a returned risk-check event guarantees.
use ta_model_v.Base.{
  Bool, true, false, Option, none, some, List, [], ◌∷◌, ◌≡◌, ◌≢◌, refl, ◌⊎◌, inl, inr, ◌↔◌, arith,
  Bool-cases, sym, if◌then◌else◌,
}
use mathlib.Core.Path.{subst}
use ta_model_v.Decimal.{Decimal, of_nat}
use ta_model_v.Decimal
use ta_model_v.Contracts.Result.{Result, ok, err, ◌>>=◌, require_elim}
use ta_model_v.Contracts.Order.{OrderIntent, make_order_intent, positive_if_set, limit_price_fits}
use ta_model_v.Contracts.Policy.{RiskPolicy}
use ta_model_v.Contracts.Event.{RiskCheckEvent, has_hard_breach}
use ta_model_v.Contracts.Risk.{
  RiskCheckRequest, OrderEffect, RiskLimitEvaluation, RiskDecisionStatus, no_trade, approved,
  is_positive,
}
use ta_model_v.Engine.Metadata.{metadata_view}
use ta_model_v.Engine.Effect.{build_order_effect}
use ta_model_v.Engine.Decision.{
  Digests, Decided, with_quantity, decide, approval_after_soft_caps, capped_approval,
  evaluate_pre_trade_risk,
}
use ta_model_v.Engine.Outcome.{limits_of, evaluate-IsRun}
use ta_model_v.Engine.Within.{IsWithinLimits, no_hard_breach_iff}

-- The limits that apply to a request.
abbrev pub Within : Digests → RiskCheckRequest → RiskPolicy → Type 0
Within d r p = IsWithinLimits d r p (metadata_view r) (build_order_effect r)

-- A capped order is the original order with a positive quantity in place of its own.
abbrev pub IsCapped : OrderIntent → OrderIntent → Type 0
IsCapped original i =
    (q : Decimal) × (Decimal.lt (of_nat 0) q ≡ true) × (i ≡ record original { quantity = q })

-- What each decision says of the intent that goes with it.
abbrev pub IntentFits : OrderIntent → RiskDecisionStatus → Option OrderIntent → Type 0
IntentFits original RiskDecisionStatus.approved intent = intent ≡ some original
IntentFits original RiskDecisionStatus.approved_after_cap none = ⊥
IntentFits original RiskDecisionStatus.approved_after_cap (some i) = IsCapped original i
IntentFits original RiskDecisionStatus.rejected intent = intent ≡ none
IntentFits original RiskDecisionStatus.no_trade intent = intent ≡ none
IntentFits original RiskDecisionStatus.cancel_reduce_only_approved intent = ⊥

-- A decision other than a rejection, with the intent that goes with it; or an exception.
abbrev Fits : OrderIntent → Result Decided → Type 0
Fits original (ok (s, i)) = IntentFits original s i × (s ≢ RiskDecisionStatus.rejected)
Fits original (err e) = Unit

with_quantity-Fits :
    (original : OrderIntent) (q : Decimal) → Fits original (with_quantity original q)
unfolding make_order_intent
with_quantity-Fits original q = require_elim fits (is_positive q) tt λ pos_q.
    require_elim fits (positive_if_set original.limit_price) tt λ _.
      require_elim fits (limit_price_fits original.order_type original.limit_price) tt
        λ _. ((q, pos_q, refl), λ e. cc)
  where
    fits : Result OrderIntent → Type 0
    fits m = Fits original (m >>= λ c. ok (RiskDecisionStatus.approved_after_cap, some c))

module _ (original : OrderIntent) where
  -- The ladder of tests in `capped_approval`.
  ladder-Fits :
      (b b' b'' : Bool) (q : Decimal)
      → Fits original (
          if b
          then ok (no_trade, none)
          else if b'
          then ok (approved, some original)
          else if b''
          then ok (no_trade, none)
          else with_quantity original q)
  ladder-Fits true b' b'' q = (refl, λ e. cc)
  ladder-Fits false true b'' q = (refl, λ e. cc)
  ladder-Fits false false true q = (refl, λ e. cc)
  ladder-Fits false false false q = with_quantity-Fits original q

  unchanged-Fits :
      (b : Bool) (m : Result Decided)
      → Fits original m
      → Fits original (if b then m else ok (approved, some original))
  unchanged-Fits true m h = h
  unchanged-Fits false m h = (refl, λ e. cc)

capped_approval-Fits :
    (r : RiskCheckRequest) (caps : Option (List Decimal))
    → Fits r.order_intent (capped_approval r caps)
unfolding capped_approval
capped_approval-Fits r none = (refl, λ e. cc)
capped_approval-Fits r (some []) = (refl, λ e. cc)
capped_approval-Fits r (some (d ∷ ds)) = ladder-Fits r.order_intent _ _ _ _

approval_after_soft_caps-Fits :
    (r : RiskCheckRequest) (e : OrderEffect) (es : List RiskLimitEvaluation)
    → Fits r.order_intent (approval_after_soft_caps r e es)
unfolding approval_after_soft_caps
approval_after_soft_caps-Fits r e es = unchanged-Fits r.order_intent _ _ (capped_approval-Fits r _)

-- The run's decision, split by whether there is a hard breach.
pub decide-cases :
    (r : RiskCheckRequest) (e : OrderEffect) (es : List RiskLimitEvaluation)
    {s : RiskDecisionStatus} {i : Option OrderIntent}
    → decide r e es ≡ ok (s, i)
    → ((has_hard_breach es ≡ true) × (s ≡ RiskDecisionStatus.rejected) × (i ≡ none))
      ⊎ ((has_hard_breach es ≡ false) × (approval_after_soft_caps r e es ≡ ok (s, i)))
unfolding decide
decide-cases r e es {s} {i} h = elim (Bool-cases (has_hard_breach es)) [
  | inl hard ↦ inl (hard, ground arith, ground arith)
  | inr soft ↦ inr (soft, ground arith)
]

module _ (d : Digests) (r : RiskCheckRequest) (p : RiskPolicy) {event : RiskCheckEvent}
    (run : evaluate_pre_trade_risk d r p ≡ ok event) where
  abbrev decision : RiskDecisionStatus
  decision = event.final_decision

  abbrev intent : Option OrderIntent
  intent = event.approved_order_intent

  outcome :
      ((has_hard_breach (limits_of d r p) ≡ true)
        × (decision ≡ RiskDecisionStatus.rejected)
        × (intent ≡ none))
      ⊎ ((has_hard_breach (limits_of d r p) ≡ false)
          × IntentFits r.order_intent decision intent
          × (decision ≢ RiskDecisionStatus.rejected))
  outcome =
      elim (decide-cases r effect (limits_of d r p) (evaluate-IsRun d r p event run).decided) [
        | inl hard ↦ inl hard
        | inr soft ↦
            let fit =
              subst (Fits r.order_intent) soft.1
                (approval_after_soft_caps-Fits r effect (limits_of d r p)) in
            inr (soft.0, fit.0, fit.1)
      ]
    where
      effect : OrderEffect
      effect = build_order_effect r

  -- Where a run returns an event, it rejects the order exactly when the order is not within the
  -- hard limits, which `IsWithinLimits` writes out as bounds of the policy, the account and the
  -- instrument's constraint.
  pub rejected_iff : (event.final_decision ≡ RiskDecisionStatus.rejected) ↔ (¬ Within d r p)
  rejected_iff = elim outcome [
    | inl hard ↦ (λ _ w. clash hard.0 (no_breach.1 w), λ _. hard.1)
    | inr soft ↦ (λ e. absurd (soft.2 e), λ nw. absurd (nw (no_breach.0 soft.0)))
  ]
    where
      no_breach : (has_hard_breach (limits_of d r p) ≡ false) ↔ Within d r p
      no_breach = no_hard_breach_iff d r p (metadata_view r) (build_order_effect r)

      clash : {b : Bool} → b ≡ true → b ≡ false → ⊥
      clash h k = cc

  -- Where a run returns an event with an approved intent, the order is within every hard limit.
  pub approved-Within : {i : OrderIntent} → event.approved_order_intent ≡ some i → Within d r p
  approved-Within h = elim outcome [
    | inl hard ↦ cc (hard.2, h)
    | inr soft ↦ (no_hard_breach_iff d r p (metadata_view r) (build_order_effect r)).0 soft.0
  ]

  -- Where a run returns an event, its decision says what the approved intent is: the requested one,
  -- the requested one with another positive quantity, or none; CANCEL_REDUCE_ONLY is never decided.
  pub intent_fits : IntentFits r.order_intent event.final_decision event.approved_order_intent
  intent_fits = elim outcome [
    | inl hard ↦ subst (λ s. IntentFits r.order_intent s intent) (sym hard.1) hard.2
    | inr soft ↦ soft.1
  ]
