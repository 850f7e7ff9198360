-- ===== src/Replay/Rule.antt =====
-- What holds of every outcome of `_replay_one` (simulation/replay.py): an intent is left unfilled with
-- the balances as they were, or an acceptable fill on an eligible bar is settled.
use ta_model_v.Base.{
  ℕ, zero, suc, Bool, true, false, Option, none, some, List, [], ◌∷◌, get_elem?, if◌then◌else◌, ◌≡◌,
  refl, sym, ap, ◌∙◌, ◌⊎◌, inl, inr, arith,
}
use mathlib.Core.Path.{subst}
use ta_model_v.Base.Among.{Among, kept_or_later}
use ta_model_v.Decimal.{Decimal, of_nat}
use ta_model_v.Decimal
use ta_model_v.Contracts.Ensures.{Ensures, Ensures-bind, Ensures-mono}
use ta_model_v.Contracts.Result.{Result, ok, err, ◌>>=◌, require_elim}
use ta_model_v.Contracts.Instrument.{market, order_type_eq}
use ta_model_v.Contracts.Bar.{OhlctvBar}
use ta_model_v.Contracts.Order.{OrderIntent}
use ta_model_v.Contracts.ReplayResult.{
  ReplayRejectReason, is_filled, CostTrace, ReplayOrderResult, make_result, result_is_valid,
  result_bounds, common_rules, filled_rules, unfilled_rules, unsupported_order_type,
  no_future_eligible_event, insufficient_liquidity,
}
use ta_model_v.Contracts.Simulation.{ExecutionCostModel}
use ta_model_v.Replay.Draft.{
  ReplayDigests, unfilled_draft, unfilled_result, free_draft, costed_draft, status_of_reason,
  no_trace,
}
use ta_model_v.Replay.Settle.{Venues, Balances, Outcome, leave, apply_balance_or_reject}
use ta_model_v.Replay.Fill.{
  is_eligible, eligible_bars, constraint_reason, reject_or, fill_without_costs, fill_limited,
  fill_with_costs, fill_eligible, metadata_reason, replay_one,
}

-- A valid result of the intent without a fill, and the balances as they were.
pub record IsUnfilled (intent : OrderIntent) (balances : Balances) (o : Outcome) : Type 0 where
  pub same_intent : (o.0).intent ≡ intent
  pub not_filled : is_filled (o.0).status ≡ false
  pub same_balances : o.1 ≡ balances
  pub accepted : result_is_valid o.0 ≡ true

-- A result of a draft: the draft under its identifier, and valid.
pub IsMade : ReplayDigests → ReplayOrderResult → ReplayOrderResult → Type 0
IsMade digests draft r =
    (r ≡ record draft { replay_order_result_id = digests.result_id draft })
    × (result_is_valid draft ≡ true)

make_result-IsMade :
    (digests : ReplayDigests) (draft : ReplayOrderResult)
    → Ensures (IsMade digests draft) (make_result digests.result_id draft)
unfolding make_result IsMade
make_result-IsMade digests draft =
    require_elim (Ensures (IsMade digests draft)) (result_is_valid draft) tt λ v. (refl, v)

pub reason-not_filled : (reason : ReplayRejectReason) → is_filled (status_of_reason reason) ≡ false
reason-not_filled reason = ground arith

pub leave-IsUnfilled :
    (digests : ReplayDigests) (intent : OrderIntent) (reason : ReplayRejectReason)
    (trace : CostTrace) (balances : Balances)
    → Ensures (IsUnfilled intent balances) (leave digests intent reason trace balances)
unfolding unfilled_result IsMade result_is_valid result_bounds common_rules filled_rules
    unfilled_rules
leave-IsUnfilled digests intent reason trace balances =
    Ensures-bind (IsMade digests (unfilled_draft intent reason trace)) (IsUnfilled intent balances)
      (make_result digests.result_id (unfilled_draft intent reason trace)) (λ r. ok (r, balances))
      (make_result-IsMade digests (unfilled_draft intent reason trace))
      λ r made. record {
        same_intent = ap (λ (x : ReplayOrderResult). x.intent) made.0;
        not_filled =
            ap (λ (x : ReplayOrderResult). is_filled x.status) made.0 ∙ reason-not_filled reason;
        same_balances = refl;
        accepted = ap result_is_valid made.0 ∙ made.1;
      }

-- The eligible bars are bars of the input that pass the test.
abbrev pub IsEligibleOf : OrderIntent → List OhlctvBar → OhlctvBar → Type 0
IsEligibleOf intent bars bar = Among bar bars × (is_eligible intent bar ≡ true)

eligible-IsEligible :
    (intent : OrderIntent) (index : ℕ) (bars : List OhlctvBar) (e : ℕ × OhlctvBar)
    → Among e (eligible_bars intent index bars)
    → IsEligibleOf intent bars e.1
unfolding eligible_bars
eligible-IsEligible intent index [] e h = absurd h
eligible-IsEligible intent index (bar ∷ bars) e h =
    elim (kept_or_later (is_eligible intent bar) (index, bar) e
      (eligible_bars intent (suc index) bars) h) [
        | inl this ↦
            let same = ap (λ (x : ℕ × OhlctvBar). x.1) this.1 in
            (inl same, ap (is_eligible intent) same ∙ this.0)
        | inr later ↦
            let rest = eligible-IsEligible intent (suc index) bars e later in (inr rest.0, rest.1)
      ]

get_elem?-Among : {A : Type 0} (xs : List A) (n : ℕ) {a : A} → get_elem? xs n ≡ some a → Among a xs
get_elem?-Among [] n h = cc
get_elem?-Among (x ∷ xs) zero {a} h = inl (cc h)
get_elem?-Among (x ∷ xs) (suc n) {a} h = inr (get_elem?-Among xs n {a = a} h)

-- A draft on a bar: a free fill, or one with costs of what the bar's volume allows.
abbrev pub IsDraft :
    OrderIntent → Option ExecutionCostModel → OhlctvBar → ReplayOrderResult → Type 0
IsDraft intent cost_model bar draft =
    (draft ≡ free_draft intent bar)
    ⊎ ((model : ExecutionCostModel) × (trace : CostTrace) × (cost_model ≡ some model)
        × (draft
            ≡ costed_draft intent model bar
                (Decimal.min intent.quantity
                  (Decimal.mul bar.base_volume model.max_participation_rate))
                trace))

-- A valid draft on an eligible bar, where no constraint is violated.
pub record IsCandidate (venues : Option Venues) (intent : OrderIntent)
    (cost_model : Option ExecutionCostModel) (bars : List OhlctvBar) (draft : ReplayOrderResult)
    : Type 0 where
  pub bar : OhlctvBar
  pub eligible : IsEligibleOf intent bars bar
  pub drafted : IsDraft intent cost_model bar draft
  pub constrained : constraint_reason intent venues bar ≡ ok none
  pub valid : result_is_valid draft ≡ true

-- The draft under its identifier.
abbrev pub identified : ReplayDigests → ReplayOrderResult → ReplayOrderResult
identified digests draft = record draft { replay_order_result_id = digests.result_id draft }

module _ (digests : ReplayDigests) (venues : Option Venues) (cost_model : Option ExecutionCostModel)
    (bars : List OhlctvBar) (intent : OrderIntent) (balances : Balances) (P : Outcome → Type 0)
    (of_unfilled : (o : Outcome) → IsUnfilled intent balances o → P o)
    (of_fill : (draft : ReplayOrderResult)
      → IsCandidate venues intent cost_model bars draft
      → Ensures P
          (apply_balance_or_reject digests venues (identified digests draft) balances)) where
  rule_leave :
      (reason : ReplayRejectReason) (trace : CostTrace)
      → Ensures P (leave digests intent reason trace balances)
  rule_leave reason trace =
      Ensures-mono (IsUnfilled intent balances) P (leave digests intent reason trace balances)
        of_unfilled (leave-IsUnfilled digests intent reason trace balances)

  rule_reject :
      (reason : Option ReplayRejectReason) (trace : CostTrace) (next : Result Outcome)
      → Ensures P next
      → Ensures P (reject_or digests intent reason trace balances next)
  rule_reject none trace next h = h
  rule_reject (some reason) trace next h = rule_leave reason trace

  rule_fill :
      (bar : OhlctvBar) (draft : ReplayOrderResult)
      → IsEligibleOf intent bars bar
      → IsDraft intent cost_model bar draft
      → constraint_reason intent venues bar ≡ ok none
      → Ensures P (
          make_result digests.result_id draft >>= λ r.
          apply_balance_or_reject digests venues r balances)
  unfolding IsMade
  rule_fill bar draft eligible drafted constrained =
      Ensures-bind (IsMade digests draft) P (make_result digests.result_id draft)
        (λ r. apply_balance_or_reject digests venues r balances) (make_result-IsMade digests draft)
        λ r made.
          subst (λ x. Ensures P (apply_balance_or_reject digests venues x balances)) (sym made.0)
            (of_fill draft (record {
              bar = bar;
              eligible = eligible;
              drafted = drafted;
              constrained = constrained;
              valid = made.1;
            }))

  rule_constrained :
      (m : Result (Option ReplayRejectReason)) (trace : CostTrace) (next : Result Outcome)
      → (m ≡ ok none → Ensures P next)
      → Ensures P (m >>= λ reason. reject_or digests intent reason trace balances next)
  rule_constrained (ok none) trace next h = h refl
  rule_constrained (ok (some reason)) trace next h = rule_leave reason trace
  rule_constrained (err e) trace next h = tt

  rule_without_costs :
      (bar : OhlctvBar)
      → IsEligibleOf intent bars bar
      → Ensures P (fill_without_costs digests venues intent bar balances)
  unfolding fill_without_costs
  rule_without_costs bar eligible =
      rule_constrained (constraint_reason intent venues bar) no_trace _
        (rule_fill bar (free_draft intent bar) eligible (inl refl))

  rule_ladder :
      (b b' : Bool) (trace : CostTrace) (next : Result Outcome)
      → Ensures P next
      → Ensures P (
          if b
          then leave digests intent insufficient_liquidity trace balances
          else if b'
          then leave digests intent insufficient_liquidity trace balances
          else next)
  rule_ladder true b' trace next h = rule_leave insufficient_liquidity trace
  rule_ladder false true trace next h = rule_leave insufficient_liquidity trace
  rule_ladder false false trace next h = h

  rule_limited :
      (model : ExecutionCostModel) (bar : OhlctvBar) (trace : CostTrace)
      → cost_model ≡ some model
      → IsEligibleOf intent bars bar
      → constraint_reason intent venues bar ≡ ok none
      → Ensures P (fill_limited digests venues intent model bar trace balances)
  unfolding fill_limited
  rule_limited model bar trace same eligible constrained =
      rule_ladder _ _ trace _
        (rule_fill bar _ eligible (inr (model, trace, same, refl)) constrained)

  rule_with_costs :
      (model : ExecutionCostModel) (first : ℕ) (attempt : Option (ℕ × OhlctvBar))
      → cost_model ≡ some model
      → ((e : ℕ × OhlctvBar) → attempt ≡ some e → IsEligibleOf intent bars e.1)
      → Ensures P (fill_with_costs digests venues intent model first attempt balances)
  unfolding fill_with_costs
  rule_with_costs model first none same h = rule_leave no_future_eligible_event _
  rule_with_costs model first (some (index, bar)) same h =
      rule_constrained (constraint_reason intent venues bar) _ _
        (rule_limited model bar _ same (h (index, bar) refl))

  rule_eligible :
      (c : Option ExecutionCostModel) (es : List (ℕ × OhlctvBar))
      → cost_model ≡ c
      → ((e : ℕ × OhlctvBar) → Among e es → IsEligibleOf intent bars e.1)
      → Ensures P (fill_eligible digests venues c intent es balances)
  unfolding fill_eligible
  rule_eligible c [] same h = rule_leave no_future_eligible_event no_trace
  rule_eligible none ((index, bar) ∷ rest) same h =
      rule_without_costs bar (h (index, bar) (inl refl))
  rule_eligible (some model) ((index, bar) ∷ rest) same h =
      rule_with_costs model index (get_elem? ((index, bar) ∷ rest) model.latency_bars) same
        λ e found. h e (get_elem?-Among ((index, bar) ∷ rest) model.latency_bars {a = e} found)

  rule_type :
      (b : Bool)
      → Ensures P (
          if b
          then fill_eligible digests venues cost_model intent (eligible_bars intent 0 bars) balances
          else leave digests intent unsupported_order_type no_trace balances)
  rule_type true =
      rule_eligible cost_model (eligible_bars intent 0 bars) refl
        (eligible-IsEligible intent 0 bars)
  rule_type false = rule_leave unsupported_order_type no_trace

  -- A property of unfilled outcomes and of settled candidates holds of every outcome.
  pub replay_one_rule : Ensures P (replay_one digests venues cost_model bars intent balances)
  unfolding replay_one
  replay_one_rule =
      rule_reject (metadata_reason intent venues) no_trace _
        (rule_type (order_type_eq intent.order_type market))
