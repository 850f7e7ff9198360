-- ===== src/Replay/Solvent.antt =====
-- The fills of a replay (simulation/replay.py) can be settled without a negative balance, and the whole
-- replay keeps every balance from going below zero.
use ta_model_v.Base.{Bool, true, Option, none, some, List, ◌≡◌, refl, sym, ap, ◌∙◌, inl, inr, arith}
use mathlib.Core.Path.{subst}
use ta_model_v.Decimal.{Decimal, of_nat, literal}
use ta_model_v.Decimal
use ta_model_v.Decimal.Order.{AtMost, AtMost-trans}
use ta_model_v.Decimal.Rounding.{lt-sub-zero}
use ta_model_v.Decimal.Sign.{IsNonneg, add-IsNonneg}
use ta_model_v.Decimal.Bounds.{mul-IsHeld, sub-fee-IsNonneg}
use ta_model_v.Contracts.Result.{ok}
use ta_model_v.Contracts.Bar.{OhlctvBar}
use ta_model_v.Contracts.Order.{OrderIntent}
use ta_model_v.Contracts.ReplayResult.{CostTrace, ReplayOrderResult, result_bounds, result_is_valid}
use ta_model_v.Contracts.Simulation.{ExecutionCostModel, cost_model_is_valid}
use ta_model_v.Replay.Draft.{
  ReplayDigests, free_draft, costed_draft, effective_price, attribution_of,
}
use ta_model_v.Replay.Settle.{Venues, Balances, apply_balance_or_reject}
use ta_model_v.Replay.Fill.{replay_one}
use ta_model_v.Replay.Rule.{IsDraft, identified, replay_one_rule}
use ta_model_v.Contracts.Ensures.{Ensures, Ensures-mono, Ensures_elim}
use ta_model_v.Replay.Run.{replay_all}
use ta_model_v.Replay.Loop.{Pairwise, replay_all_rule}
use ta_model_v.Replay.Solvency.{IsSolvent, IsSettleable, apply-IsSolvent}

bounds-valid : (r : ReplayOrderResult) → result_is_valid r ≡ true → result_bounds r ≡ true
unfolding result_is_valid
bounds-valid r h = ground arith

quantity-bounds : (r : ReplayOrderResult) → result_bounds r ≡ true → IsNonneg r.filled_quantity
unfolding result_bounds
quantity-bounds r h = ground arith

notional-bounds :
    (r : ReplayOrderResult) → result_bounds r ≡ true → IsNonneg r.attribution.effective_notional
unfolding result_bounds
notional-bounds r h = ground arith

price-bounds :
    (r : ReplayOrderResult) (price : Decimal)
    → r.fill_price ≡ some price
    → result_bounds r ≡ true
    → IsNonneg price
unfolding result_bounds
price-bounds r price same h = ground arith

-- A fee rate of a valid cost model is between 0 and 1.
fee_rate-IsNonneg :
    (m : ExecutionCostModel) → cost_model_is_valid m ≡ true → IsNonneg m.taker_fee_rate
unfolding cost_model_is_valid
fee_rate-IsNonneg m h = ground arith

five_percent-AtMost : AtMost (literal 5 2) (of_nat 1)
unfolding Decimal.lt
five_percent-AtMost = refl

fee_rate-AtMost :
    (m : ExecutionCostModel) → cost_model_is_valid m ≡ true → AtMost m.taker_fee_rate (of_nat 1)
unfolding cost_model_is_valid
fee_rate-AtMost m h =
    AtMost-trans m.taker_fee_rate (literal 5 2) (of_nat 1) (ground arith) five_percent-AtMost

-- The cost model, where there is one, passes its validator.
abbrev pub model_is_valid : Option ExecutionCostModel → Bool
model_is_valid none = true
model_is_valid (some m) = cost_model_is_valid m

module _ (intent : OrderIntent) (bar : OhlctvBar) where
  free-IsSettleable :
      result_is_valid (free_draft intent bar) ≡ true → IsSettleable (free_draft intent bar)
  free-IsSettleable valid =
      let draft = free_draft intent bar in
      let bounds = bounds-valid draft valid in
      record {
        quantity = quantity-bounds draft bounds;
        proceeds = λ quote h.
            lt-sub-zero (Decimal.add quote draft.attribution.effective_notional) (of_nat 0)
            ∙ add-IsNonneg quote draft.attribution.effective_notional h
                (notional-bounds draft bounds);
      }

  costed-IsSettleable :
      (model : ExecutionCostModel) (quantity : Decimal) (trace : CostTrace)
      → cost_model_is_valid model ≡ true
      → result_is_valid (costed_draft intent model bar quantity trace) ≡ true
      → IsSettleable (costed_draft intent model bar quantity trace)
  unfolding costed_draft attribution_of
  costed-IsSettleable model quantity trace m valid =
      let draft = costed_draft intent model bar quantity trace in
      let price = effective_price intent.side model bar.open_price in
      let bounds = bounds-valid draft valid in
      let positive = quantity-bounds draft bounds in
      record {
        quantity = positive;
        proceeds = λ quote h.
            sub-fee-IsNonneg quote (Decimal.mul price quantity) model.taker_fee_rate h
              (mul-IsHeld price quantity (price-bounds draft price refl bounds) positive)
              (fee_rate-IsNonneg model m) (fee_rate-AtMost model m);
      }

  draft-IsSettleable :
      (cost_model : Option ExecutionCostModel) (draft : ReplayOrderResult)
      → model_is_valid cost_model ≡ true
      → IsDraft intent cost_model bar draft
      → result_is_valid draft ≡ true
      → IsSettleable draft
  draft-IsSettleable cost_model draft m (inl same) valid =
      subst IsSettleable (sym same) (free-IsSettleable (sym (ap result_is_valid same) ∙ valid))
  draft-IsSettleable cost_model draft m (inr (model, trace, chosen, same)) valid =
      subst IsSettleable (sym same) (
        costed-IsSettleable model _ trace (sym (ap model_is_valid chosen) ∙ m)
          (sym (ap result_is_valid same) ∙ valid))

identified-IsSettleable :
    (digests : ReplayDigests) (draft : ReplayOrderResult)
    → IsSettleable draft
    → IsSettleable (identified digests draft)
identified-IsSettleable digests draft s = record { quantity = s.quantity; proceeds = s.proceeds }

module _ (digests : ReplayDigests) (venues : Option Venues) (cost_model : Option ExecutionCostModel)
    (model_valid : model_is_valid cost_model ≡ true) (bars : List OhlctvBar) where
  round-IsSolvent :
      (intent : OrderIntent) (balances : Balances)
      → IsSolvent balances
      → Ensures
          (λ o. Unit {0} × IsSolvent o.1)
          (replay_one digests venues cost_model bars intent balances)
  round-IsSolvent intent balances solvent =
      replay_one_rule digests venues cost_model bars intent balances (λ o. Unit {0} × IsSolvent o.1)
        (λ o u. (tt, subst IsSolvent (sym u.same_balances) solvent))
        λ draft c.
          Ensures-mono (λ o. IsSolvent o.1) (λ o. Unit {0} × IsSolvent o.1)
            (apply_balance_or_reject digests venues (identified digests draft) balances)
            (λ o h. (tt, h))
            (apply-IsSolvent digests (identified digests draft)
              (identified-IsSettleable digests draft
                (draft-IsSettleable intent c.bar cost_model draft model_valid c.drafted c.valid))
              balances solvent venues)

  -- No balance goes below zero: with a valid cost model or none, a replay of any intents on any bars
  -- that starts from balances of at least zero leaves balances of at least zero.
  pub replay_keeps_IsSolvent :
      (intents : List OrderIntent) (balances after : Balances) (results : List ReplayOrderResult)
      → IsSolvent balances
      → replay_all digests venues cost_model bars intents balances ≡ ok (results, after)
      → IsSolvent after
  replay_keeps_IsSolvent intents balances after results solvent returned =
      (Ensures_elim (λ o. Pairwise (λ i r. Unit {0}) intents o.0 × IsSolvent o.1) _
        (replay_all_rule digests venues cost_model bars IsSolvent (λ i r. Unit {0}) round-IsSolvent
          intents balances solvent)
        returned).1
