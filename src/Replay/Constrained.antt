-- ===== src/Replay/Constrained.antt =====
-- A replay with an instrument master (simulation/replay.py) fills only orders that the venue's
-- constraints allow.
use ta_model_v.Base.{
  String, Bool, true, false, Option, none, some, List, [], ◌∷◌, filter, ◌&&◌, str_eq, ◌≡◌, refl,
  sym, ◌∙◌, ◌⊎◌, inl, inr, arith,
}
use mathlib.Core.Path.{subst}
use ta_model_v.Base.Among.{Among}
use ta_model_v.Decimal.{Decimal}
use ta_model_v.Contracts.Result.{Timestamp, Result, ok, >>=-eq-ok}
use ta_model_v.Contracts.Instrument.{InstrumentConstraint, InstrumentMasterSnapshot, is_effective}
use ta_model_v.Contracts.Bar.{OhlctvBar}
use ta_model_v.Contracts.Order.{OrderIntent}
use ta_model_v.Contracts.Constraint.{evaluate_order}
use ta_model_v.Contracts.ReplayResult.{
  ReplayRejectReason, constraint_violation, is_filled, ReplayOrderResult,
}
use ta_model_v.Contracts.Simulation.{SimulatedAccountState, ExecutionCostModel}
use ta_model_v.Replay.Draft.{ReplayDigests, event_of}
use ta_model_v.Replay.Metadata.{reason_of_constraints, reason_unless, constraint_reject_reason}
use ta_model_v.Replay.Settle.{Venues, Balances}
use ta_model_v.Replay.Fill.{replay_one}
use ta_model_v.Replay.Rule.{IsCandidate, identified, replay_one_rule}
use ta_model_v.Contracts.Ensures.{Ensures, Ensures_elim}
use ta_model_v.Replay.Lookahead.{draft-intent, draft-event, apply_rule}
use ta_model_v.Replay.Run.{ReplayReport, balance_dict, replay_all, replay_ohlctv_market_orders}
use ta_model_v.Replay.Loop.{ok_inj, Pairwise, Among-Pairwise, replay_all_rule, report-IsReplayed}
use ta_model_v.Replay.Allowed.{is_allowed, order_passed_iff}

-- The one constraint of the instrument that is in force, and it allows the order.
pub record IsPermitted (snapshot : InstrumentMasterSnapshot) (intent : OrderIntent)
    (price : Decimal) (at : Timestamp) : Type 0 where
  pub constraint : InstrumentConstraint
  pub in_force :
      filter
        (λ c. str_eq c.instrument_id intent.instrument_id && is_effective c at)
        snapshot.instrument_constraints
      ≡ constraint ∷ []
  pub allowed : is_allowed constraint price intent.quantity ≡ true

passed_unless :
    (passed : Bool) (reason : ReplayRejectReason)
    → Path (Result (Option ReplayRejectReason)) (ok (reason_unless passed reason)) (ok none)
    → passed ≡ true
passed_unless passed reason h = ground (arith, h)

-- One constraint passes the order, where there is no reason to reject it.
one-allowed :
    (cs : List InstrumentConstraint) (price quantity : Decimal)
    → reason_of_constraints cs price quantity ≡ ok none
    → (c : InstrumentConstraint) × (cs ≡ c ∷ []) × (is_allowed c price quantity ≡ true)
one-allowed [] price quantity h = cc
one-allowed (c ∷ []) price quantity h =
    let (r, ran, same) = >>=-eq-ok (evaluate_order c price quantity) _ h in
    (
      c,
      refl,
      sym (order_passed_iff c price quantity {r = r} ran)
          ∙ passed_unless r.passed constraint_violation same,
    )
one-allowed (c ∷ d ∷ cs) price quantity h = cc

pub reason-IsPermitted :
    (snapshot : InstrumentMasterSnapshot) (intent : OrderIntent) (price : Decimal) (at : Timestamp)
    → constraint_reject_reason intent snapshot price at ≡ ok none
    → IsPermitted snapshot intent price at
unfolding constraint_reject_reason
reason-IsPermitted snapshot intent price at h =
    let (c, only, allowed) = one-allowed _ price intent.quantity h in
    record { constraint = c; in_force = only; allowed = allowed }

-- The bar that a result records, and the constraint that allows the order at its open.
pub record IsAllowedFill (snapshot : InstrumentMasterSnapshot) (bars : List OhlctvBar)
    (intent : OrderIntent) (r : ReplayOrderResult) : Type 0 where
  pub bar : OhlctvBar
  pub among : Among bar bars
  pub recorded : r.event ≡ event_of bar
  pub permitted : IsPermitted snapshot intent bar.open_price bar.open_ts

-- A result of the intent, unfilled or such a fill.
abbrev IsConstrained :
    InstrumentMasterSnapshot → List OhlctvBar → OrderIntent → ReplayOrderResult → Type 0
IsConstrained snapshot bars intent r =
    (r.intent ≡ intent) × ((is_filled r.status ≡ false) ⊎ IsAllowedFill snapshot bars intent r)

module _ (digests : ReplayDigests) (v : Venues) (cost_model : Option ExecutionCostModel)
    (bars : List OhlctvBar) (intent : OrderIntent) (balances : Balances) where
  candidate-IsConstrained :
      (draft : ReplayOrderResult)
      → IsCandidate (some v) intent cost_model bars draft
      → IsConstrained v.snapshot bars intent (identified digests draft)
  candidate-IsConstrained draft c = (
    draft-intent {cost_model = cost_model} intent c.bar draft c.drafted,
    inr (record {
      bar = c.bar;
      among = c.eligible.0;
      recorded = draft-event {cost_model = cost_model} intent c.bar draft c.drafted;
      permitted =
          reason-IsPermitted v.snapshot intent (c.bar).open_price (c.bar).open_ts c.constrained;
    }),
  )

  round-IsConstrained :
      Ensures
        (λ o. IsConstrained v.snapshot bars intent o.0 × Unit {0})
        (replay_one digests (some v) cost_model bars intent balances)
  round-IsConstrained =
      replay_one_rule digests (some v) cost_model bars intent balances
        (λ o. IsConstrained v.snapshot bars intent o.0 × Unit {0})
        (λ o u. ((u.same_intent, inl u.not_filled), tt))
        λ draft c.
          apply_rule digests (identified digests draft) balances
            (λ o. IsConstrained v.snapshot bars intent o.0 × Unit {0})
            (λ o u. (
              (
                u.same_intent ∙ draft-intent {cost_model = cost_model} intent c.bar draft c.drafted,
                inl u.not_filled,
              ),
              tt,
            ))
            (λ after. (candidate-IsConstrained draft c, tt)) (some v)

fill_of :
    (snapshot : InstrumentMasterSnapshot) (bars : List OhlctvBar) (intent : OrderIntent)
    (r : ReplayOrderResult)
    → IsConstrained snapshot bars intent r
    → is_filled r.status ≡ true
    → IsAllowedFill snapshot bars r.intent r
fill_of snapshot bars intent r (same, inl unfilled) h = cc
fill_of snapshot bars intent r (same, inr fill) h =
    subst (λ i. IsAllowedFill snapshot bars i r) (sym same) fill

-- A replay with an instrument master fills only what the venue's constraints allow: a filled result of
-- a returned report records a bar of the input, at whose opening exactly one constraint of the order's
-- instrument is in force, and it allows the order's quantity at the bar's open price.
pub fills_meet_constraints :
    (digests : ReplayDigests) (bars : List OhlctvBar) (intents : List OrderIntent) (run_id : String)
    (cost_model : Option ExecutionCostModel) (snapshot : InstrumentMasterSnapshot)
    (account_state : SimulatedAccountState) {report : ReplayReport}
    → replay_ohlctv_market_orders digests bars intents run_id cost_model
        (some snapshot)
        (some account_state)
      ≡ ok report
    → (r : ReplayOrderResult) → Among r report.results
    → is_filled r.status ≡ true
    → IsAllowedFill snapshot bars r.intent r
fills_meet_constraints digests bars intents run_id cost_model snapshot account_state {report}
      returned r among filled =
    let v : Venues = record { snapshot = snapshot; account_state = account_state } in
    let parts =
      report-IsReplayed digests bars intents run_id cost_model (some snapshot) (some account_state)
        returned in
    let same = ok_inj (some v) parts.venues parts.supplied_together in
    let replayed =
      subst
        (λ w.
          replay_all digests w cost_model bars intents (balance_dict w)
          ≡ ok (report.results, parts.final))
        (sym same) parts.replayed in
    let all =
      Ensures_elim (λ o. Pairwise (IsConstrained snapshot bars) intents o.0 × Unit {0}) _
        (replay_all_rule digests (some v) cost_model bars (λ b. Unit {0})
          (IsConstrained snapshot bars)
          (λ intent balances h. round-IsConstrained digests v cost_model bars intent balances)
          intents (balance_dict (some v)) tt)
        replayed in
    let (intent, asked, answer) =
      Among-Pairwise (IsConstrained snapshot bars) intents report.results all.0 r among in
    fill_of snapshot bars intent r answer filled
