-- ===== src/Engine/Total.antt =====
-- The engine returns an event for every valid request: no validator that it runs can fail.
pub mod Consistent
use ta_model_v.Base.{
  String, Bool, true, false, Option, none, some, List, [], ◌∷◌, filter, is_nonempty, not, ◌&&◌, ◌≡◌,
  refl, ◌∙◌, ◌⊎◌, inl, inr, arith, if◌then◌else◌, Bool-cases, all,
}
use ta_model_v.Decimal.{Decimal, of_nat}
use ta_model_v.Decimal
use ta_model_v.Decimal.Sign.{
  IsNonneg, mul-IsNonneg, add-IsNonneg, max_zero-IsNonneg, IsPositive-IsNonneg,
}
use ta_model_v.Contracts.Result.{Result, ok, err, Error, require}
use ta_model_v.Contracts.Order.{
  OrderIntent, OrderSide, buy, sell, is_buy, make_order_intent, positive_if_set, limit_price_fits,
}
use ta_model_v.Contracts.Policy.{RiskPolicy}
use ta_model_v.Contracts.Event.{
  RiskCheckEvent, has_hard_breach, decision_fits, make_risk_check_event,
}
use ta_model_v.Contracts.Risk.{
  RiskCheckRequest, OrderEffect, RiskLimitEvaluation, RiskDecisionStatus, is_soft, is_nonneg,
  is_positive, RequestIsValid, amounts_are_valid, intent_is_valid, effect_is_valid,
  evaluation_is_valid,
}
use ta_model_v.Engine.Metadata.{MetadataView, metadata_view}
use ta_model_v.Engine.Effect.{exposure_after, position_after, build_order_effect}
use ta_model_v.Engine.Range.{amounts_are_ordinary}
use ta_model_v.Engine.Decision.{
  Digests, Decided, with_quantity, evaluate_limits, decide, approval_after_soft_caps,
  capped_approval, least_of, evaluate_pre_trade_risk,
}
use ta_model_v.Engine.Outcome.{limits_of}
use Consistent.{evaluations_consistent}

exposure_after-IsNonneg :
    (side : OrderSide) (current notional : Decimal)
    → IsNonneg current
    → IsNonneg notional
    → IsNonneg (exposure_after side current notional)
exposure_after-IsNonneg buy current notional h k = add-IsNonneg current notional h k
exposure_after-IsNonneg sell current notional h k = max_zero-IsNonneg (Decimal.sub current notional)

module _ (r : RiskCheckRequest) (v : RequestIsValid r) where
  abbrev notional : Decimal
  notional = Decimal.mul r.order_intent.quantity r.reference_price

  notional-IsNonneg : IsNonneg notional
  unfolding amounts_are_valid intent_is_valid
  notional-IsNonneg =
      mul-IsNonneg r.order_intent.quantity r.reference_price
        (IsPositive-IsNonneg r.order_intent.quantity (ground (arith, v.intent)))
        (IsPositive-IsNonneg r.reference_price (ground (arith, v.amounts)))

  after-IsNonneg :
      (current : Decimal)
      → IsNonneg current
      → IsNonneg (exposure_after r.order_intent.side current notional)
  after-IsNonneg current h =
      exposure_after-IsNonneg r.order_intent.side current notional h notional-IsNonneg

  -- The order effect of a valid request passes its validator.
  pub build_order_effect_valid : effect_is_valid (build_order_effect r) ≡ true
  unfolding build_order_effect effect_is_valid amounts_are_valid intent_is_valid
  build_order_effect_valid = ground (
    arith,
    v.intent,
    v.amounts,
    notional-IsNonneg,
    max_zero-IsNonneg (
        Decimal.mul
          (position_after r.order_intent.side r.current_instrument_position_quantity
            r.order_intent.quantity)
          r.reference_price),
    after-IsNonneg r.current_instrument_exposure_notional,
    after-IsNonneg r.current_strategy_exposure_notional,
    after-IsNonneg r.current_total_spot_exposure_notional,
  )

-- A step that returns, with a decision that the event's validator accepts when no limit is a hard
-- breach.
abbrev Returns : Result Decided → Type 0
Returns (ok (s, i)) = decision_fits [] s i ≡ true
Returns (err e) = ⊥

make_order_intent-ok : (i : OrderIntent) → intent_is_valid i ≡ true → make_order_intent i ≡ ok i
unfolding make_order_intent intent_is_valid
make_order_intent-ok i v = ground arith

module _ (original : OrderIntent) (valid : intent_is_valid original ≡ true) where
  with_quantity-Returns : (q : Decimal) → is_positive q ≡ true → Returns (with_quantity original q)
  unfolding intent_is_valid
  with_quantity-Returns q h =
      rw (make_order_intent-ok (record original { quantity = q }) (ground arith)) refl

  ladder-Returns :
      (b b' : Bool) (q : Decimal)
      → Returns (
          if b
          then ok (RiskDecisionStatus.no_trade, none)
          else if b'
          then ok (RiskDecisionStatus.approved, some original)
          else if Decimal.le q (of_nat 0)
          then ok (RiskDecisionStatus.no_trade, none)
          else with_quantity original q)
  ladder-Returns true b' q = refl
  ladder-Returns false true q = refl
  ladder-Returns false false q = elim (Bool-cases (is_positive q)) [
    | inl pos_q ↦ rw pos_q (with_quantity-Returns q pos_q)
    | inr not_pos ↦ rw not_pos refl
  ]

module _ (r : RiskCheckRequest) (valid : intent_is_valid r.order_intent ≡ true) where
  capped_approval-Returns : (caps : Option (List Decimal)) → Returns (capped_approval r caps)
  unfolding capped_approval
  capped_approval-Returns none = refl
  capped_approval-Returns (some []) = refl
  capped_approval-Returns (some (d ∷ ds)) =
      let allowed = least_of d ds in
      ladder-Returns r.order_intent valid (Decimal.le allowed (of_nat 0))
        (Decimal.le (Decimal.mul r.order_intent.quantity r.reference_price) allowed)
        (Decimal.div allowed r.reference_price)

  if_Returns :
      (b : Bool) (m : Result Decided)
      → Returns m
      → Returns (if b then m else ok (RiskDecisionStatus.approved, some r.order_intent))
  if_Returns true m h = h
  if_Returns false m h = refl

  approval_after_soft_caps-Returns :
      (e : OrderEffect) (es : List RiskLimitEvaluation) → Returns (approval_after_soft_caps r e es)
  unfolding approval_after_soft_caps
  approval_after_soft_caps-Returns e es =
      if_Returns (is_buy r.order_intent.side && e.risk_increasing) _ (capped_approval-Returns _)

-- A returned decision, with what the event's validator asks of it.
abbrev IsDecided : List RiskLimitEvaluation → Result Decided → Type 0
IsDecided es m =
    (s : RiskDecisionStatus) × (i : Option OrderIntent) × (m ≡ ok (s, i))
    × (decision_fits es s i ≡ true)

Returns-IsDecided :
    (es : List RiskLimitEvaluation) (m : Result Decided)
    → has_hard_breach es ≡ false
    → Returns m
    → IsDecided es m
Returns-IsDecided es (ok (s, i)) soft h = (s, i, refl, ground arith)
Returns-IsDecided es (err e) soft h = absurd h

decide_soft :
    (r : RiskCheckRequest) (e : OrderEffect) (es : List RiskLimitEvaluation)
    → has_hard_breach es ≡ false
    → decide r e es ≡ approval_after_soft_caps r e es
unfolding decide
decide_soft r e es soft = rw soft

decide-IsDecided :
    (r : RiskCheckRequest) (e : OrderEffect) (es : List RiskLimitEvaluation)
    → intent_is_valid r.order_intent ≡ true
    → IsDecided es (decide r e es)
unfolding decide
decide-IsDecided r e es valid = elim (Bool-cases (has_hard_breach es)) [
  | inl hard ↦ (RiskDecisionStatus.rejected, none, ground arith, ground arith)
  | inr soft ↦
      let (s, i, same, fits) =
        Returns-IsDecided es (approval_after_soft_caps r e es) soft
          (approval_after_soft_caps-Returns r valid e es) in
      (s, i, decide_soft r e es soft ∙ same, fits)
]

require-true : (b : Bool) (e : Error) → b ≡ true → require b e ≡ ok tt
require-true b e h = rw h

make_event-returns :
    (digest : RiskCheckEvent → String) (r : RiskCheckRequest) (e : OrderEffect)
    (es : List RiskLimitEvaluation) (s : RiskDecisionStatus) (i : Option OrderIntent)
    → is_nonempty es ≡ true
    → decision_fits es s i ≡ true
    → (event : RiskCheckEvent) × (make_risk_check_event digest r e es s i ≡ ok event)
unfolding make_risk_check_event
make_event-returns digest r e es s i h k =
    rw (require-true (is_nonempty es) _ h, require-true (decision_fits es s i) _ k) (_, refl)

evaluate_limits-nonempty :
    (d : Digests) (r : RiskCheckRequest) (p : RiskPolicy) (m : MetadataView) (e : OrderEffect)
    → is_nonempty (evaluate_limits d r p m e) ≡ true
unfolding evaluate_limits
evaluate_limits-nonempty d r p m e = refl

-- For every request whose fields pass their checks, and every policy, with amounts below 10 ^ 100 and
-- of at most 100 decimal places, the engine returns an event: no validator on the way raises an
-- exception.
pub evaluate-returns :
    (d : Digests) (r : RiskCheckRequest) (p : RiskPolicy)
    → RequestIsValid r
    → amounts_are_ordinary r p ≡ true
    → (event : RiskCheckEvent) × (evaluate_pre_trade_risk d r p ≡ ok event)
unfolding evaluate_pre_trade_risk
evaluate-returns d r p v ordinary =
    let m = metadata_view r in
    let e = build_order_effect r in
    let es = evaluate_limits d r p m e in
    let (s, i, decided, fits) = decide-IsDecided r e es (v.intent) in
    rw (build_order_effect_valid r v, evaluations_consistent d r p m e, decided)
      (make_event-returns d.risk_check_id r e es s i (evaluate_limits-nonempty d r p m e) fits)
