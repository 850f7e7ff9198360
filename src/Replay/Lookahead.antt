-- ===== src/Replay/Lookahead.antt =====
-- What a replay (simulation/replay.py) may fill an order on: a bar that opens no earlier than the order
-- was submitted, and no more than the order asks for.
use ta_model_v.Base.{
  String, Bool, true, false, Option, none, some, List, if◌then◌else◌, ◌≤◌, ◌<◌, ◌≡◌, sym, ap, ◌∙◌,
  ◌⊎◌, inl, inr, arith, eq_iff,
}
use mathlib.Core.Path.{subst}
use ta_model_v.Base.Among.{Among}
use ta_model_v.Decimal
use ta_model_v.Decimal.Order.{AtMost, min-AtMost, lt_irrefl}
use ta_model_v.Contracts.Result.{ok}
use ta_model_v.Contracts.Instrument.{InstrumentMasterSnapshot, Instrument}
use ta_model_v.Contracts.Bar.{OhlctvBar}
use ta_model_v.Contracts.Order.{OrderIntent, OrderSide, buy, sell}
use ta_model_v.Contracts.ReplayResult.{
  ReplayRejectReason, insufficient_cash, insufficient_inventory, is_filled, ReplayOrderResult,
  result_is_valid, result_bounds, common_rules, filled_rules, unfilled_rules,
}
use ta_model_v.Contracts.Simulation.{SimulatedAccountState, ExecutionCostModel, BalanceKey}
use ta_model_v.Replay.Draft.{ReplayDigests, event_of, no_trace, costed_draft}
use ta_model_v.Replay.Metadata.{instrument_of}
use ta_model_v.Replay.Settle.{
  Venues, Balances, Outcome, leave, settle_buy, settle_sell, settle, settle_for,
  apply_balance_or_reject,
}
use ta_model_v.Replay.Fill.{is_eligible, replay_one}
use ta_model_v.Replay.Rule.{
  IsUnfilled, leave-IsUnfilled, IsDraft, IsCandidate, identified, replay_one_rule,
}
use ta_model_v.Contracts.Ensures.{Ensures, Ensures-mono, Ensures_elim}
use ta_model_v.Replay.Run.{ReplayReport, balance_dict, replay_ohlctv_market_orders}
use ta_model_v.Replay.Loop.{Pairwise, replay_all_rule, report-IsReplayed}

-- A bar of the input for the order's instrument and venue, which opens no earlier than the order was
-- submitted, is recorded, and no more than the order's quantity is filled.
pub record IsFilledOn (bars : List OhlctvBar) (intent : OrderIntent) (r : ReplayOrderResult)
    : Type 0 where
  pub bar : OhlctvBar
  pub among : Among bar bars
  pub same_instrument : bar.instrument_id ≡ intent.instrument_id
  pub same_venue : bar.venue_id ≡ intent.venue_id
  pub opens_later : intent.submitted_at ≤ bar.open_ts
  pub closes_later : intent.submitted_at < bar.close_ts
  pub recorded : r.event ≡ event_of bar
  pub not_more : AtMost r.filled_quantity intent.quantity

-- A valid result of the intent, unfilled or filled on such a bar.
abbrev pub IsAnswer : List OhlctvBar → OrderIntent → ReplayOrderResult → Type 0
IsAnswer bars intent r =
    (r.intent ≡ intent)
    × (result_is_valid r ≡ true)
    × ((is_filled r.status ≡ false) ⊎ IsFilledOn bars intent r)

module _ (intent : OrderIntent) (bar : OhlctvBar) (h : is_eligible intent bar ≡ true) where
  eligible-instrument : bar.instrument_id ≡ intent.instrument_id
  eligible-instrument = ground (arith, eq_iff bar.instrument_id intent.instrument_id)

  eligible-venue : bar.venue_id ≡ intent.venue_id
  eligible-venue = ground (arith, eq_iff bar.venue_id intent.venue_id)

  eligible-opens : intent.submitted_at ≤ bar.open_ts
  eligible-opens = ground arith

  eligible-closes : intent.submitted_at < bar.close_ts
  eligible-closes = ground arith

module _ {cost_model : Option ExecutionCostModel} (intent : OrderIntent) (bar : OhlctvBar)
    (draft : ReplayOrderResult) where
  pub draft-intent : IsDraft intent cost_model bar draft → draft.intent ≡ intent
  unfolding costed_draft
  draft-intent (inl same) = ap (λ (r : ReplayOrderResult). r.intent) same
  draft-intent (inr (model, trace, chosen, same)) = ap (λ (r : ReplayOrderResult). r.intent) same

  pub draft-event : IsDraft intent cost_model bar draft → draft.event ≡ event_of bar
  unfolding costed_draft
  draft-event (inl same) = ap (λ (r : ReplayOrderResult). r.event) same
  draft-event (inr (model, trace, chosen, same)) = ap (λ (r : ReplayOrderResult). r.event) same

  draft-AtMost : IsDraft intent cost_model bar draft → AtMost draft.filled_quantity intent.quantity
  unfolding costed_draft
  draft-AtMost (inl same) =
      subst (λ (r : ReplayOrderResult). AtMost r.filled_quantity intent.quantity) (sym same)
        (lt_irrefl intent.quantity)
  draft-AtMost (inr (model, trace, chosen, same)) =
      subst (λ (r : ReplayOrderResult). AtMost r.filled_quantity intent.quantity) (sym same)
        (min-AtMost intent.quantity (Decimal.mul bar.base_volume model.max_participation_rate)).0

module _ (digests : ReplayDigests) (result : ReplayOrderResult) (balances : Balances)
    (P : Outcome → Type 0) (of_unfilled : (o : Outcome) → IsUnfilled result.intent balances o → P o)
    (of_settled : (after : Balances) → P (result, after)) where
  ladder :
      (b : Bool) (reason : ReplayRejectReason) (after : Balances)
      → Ensures P
          (if b then leave digests result.intent reason no_trace balances else ok (result, after))
  ladder true reason after =
      Ensures-mono (IsUnfilled result.intent balances) P
        (leave digests result.intent reason no_trace balances) of_unfilled
        (leave-IsUnfilled digests result.intent reason no_trace balances)
  ladder false reason after = of_settled after

  settled :
      (side : OrderSide) (base_key quote_key : BalanceKey)
      → Ensures P (settle side digests result base_key quote_key balances)
  unfolding settle_buy settle_sell
  settled buy base_key quote_key = ladder _ insufficient_cash _
  settled sell base_key quote_key = ladder _ insufficient_inventory _

  settled_for : (i : Option Instrument) → Ensures P (settle_for digests result i balances)
  settled_for none = tt
  settled_for (some i) = settled result.intent.side _ _

  -- A fill is settled as it is, or left unfilled.
  pub apply_rule :
      (venues : Option Venues) → Ensures P (apply_balance_or_reject digests venues result balances)
  unfolding apply_balance_or_reject
  apply_rule none = of_settled balances
  apply_rule (some v) = settled_for (instrument_of v.snapshot result.intent)

module _ (digests : ReplayDigests) (venues : Option Venues) (cost_model : Option ExecutionCostModel)
    (bars : List OhlctvBar) (intent : OrderIntent) (balances : Balances) where
  candidate-IsAnswer :
      (draft : ReplayOrderResult)
      → IsCandidate venues intent cost_model bars draft
      → IsAnswer bars intent (identified digests draft)
  unfolding result_is_valid result_bounds common_rules filled_rules unfilled_rules
  candidate-IsAnswer draft c =
      let passed = c.eligible.1 in
      (
        draft-intent {cost_model = cost_model} intent c.bar draft c.drafted,
        c.valid,
        inr (record {
          bar = c.bar;
          among = c.eligible.0;
          same_instrument = eligible-instrument intent c.bar passed;
          same_venue = eligible-venue intent c.bar passed;
          opens_later = eligible-opens intent c.bar passed;
          closes_later = eligible-closes intent c.bar passed;
          recorded = draft-event {cost_model = cost_model} intent c.bar draft c.drafted;
          not_more = draft-AtMost {cost_model = cost_model} intent c.bar draft c.drafted;
        }),
      )

  pub replay_one-IsAnswer :
      Ensures
        (λ o. IsAnswer bars intent o.0 × Unit {0})
        (replay_one digests venues cost_model bars intent balances)
  replay_one-IsAnswer =
      replay_one_rule digests venues cost_model bars intent balances
        (λ o. IsAnswer bars intent o.0 × Unit {0})
        (λ o u. ((u.same_intent, u.accepted, inl u.not_filled), tt))
        λ draft c.
          apply_rule digests (identified digests draft) balances
            (λ o. IsAnswer bars intent o.0 × Unit {0})
            (λ o u. (
              (
                u.same_intent ∙ draft-intent {cost_model = cost_model} intent c.bar draft c.drafted,
                u.accepted,
                inl u.not_filled,
              ),
              tt,
            ))
            (λ after. (candidate-IsAnswer draft c, tt)) venues

module _ (digests : ReplayDigests) (bars : List OhlctvBar) (intents : List OrderIntent)
    (run_id : String) (cost_model : Option ExecutionCostModel)
    (snapshot : Option InstrumentMasterSnapshot) (account_state : Option SimulatedAccountState)
    {report : ReplayReport}
    (returned : replay_ohlctv_market_orders digests bars intents run_id cost_model snapshot
        account_state
      ≡ ok report) where
  pub results-IsAnswer : Pairwise (IsAnswer bars) intents report.results
  results-IsAnswer =
      let parts =
        report-IsReplayed digests bars intents run_id cost_model snapshot account_state returned in
      let all =
        replay_all_rule digests parts.venues cost_model bars (λ b. Unit {0}) (IsAnswer bars)
          (λ intent balances h.
            replay_one-IsAnswer digests parts.venues cost_model bars intent balances)
          intents (balance_dict parts.venues) tt in
      (Ensures_elim (λ o. Pairwise (IsAnswer bars) intents o.0 × Unit {0}) _ all parts.replayed).0
