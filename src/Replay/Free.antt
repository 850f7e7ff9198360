-- ===== src/Replay/Free.antt =====
-- A replay without costs and without an instrument master (simulation/replay.py): each market order
-- fills at the open of its first eligible bar, and the replay returns.
use ta_model_v.Base.{
  ℕ, suc, String, Bool, true, false, Option, none, some, List, [], ◌∷◌, map, all, All, find?,
  if◌then◌else◌, ◌≡◌, refl, inl, inr, Bool-cases,
}
use ta_model_v.Decimal.{Decimal, of_nat, is_ordinary}
use ta_model_v.Decimal
use ta_model_v.Decimal.Sign.{IsPositive, IsPositive-IsNonneg, mul-IsNonneg}
use ta_model_v.Decimal.Order.{lt_irrefl}
use ta_model_v.Decimal.Bounds.{IsHeld}
use ta_model_v.Decimal.Rounding.{zero-lt-sub, lt-sub-zero}
use ta_model_v.Decimal.Difference.{sub-zero_kept}
use ta_model_v.Contracts.Result.{ok}
use ta_model_v.Contracts.Text.{is_canonical_id}
use ta_model_v.Contracts.Instrument.{market, order_type_eq}
use ta_model_v.Contracts.Bar.{OhlctvBar}
use ta_model_v.Contracts.Order.{OrderIntent}
use ta_model_v.Contracts.ReplayResult.{
  ReplayRejectReason, unsupported_order_type, no_future_eligible_event, ReplayOrderResult,
  result_bounds, common_rules, filled_rules, unfilled_rules, result_is_valid, make_result,
  build_rejection_counts,
}
use ta_model_v.Replay.Validation.{
  BarScan, IntentScan, validate_bars_are_safe, validate_order_intents,
}
use ta_model_v.Replay.Draft.{ReplayDigests, no_trace, unfilled_draft, unfilled_result, free_draft}
use ta_model_v.Replay.Settle.{Balances, leave, apply_balance_or_reject}
use ta_model_v.Replay.Fill.{
  is_eligible, eligible_bars, fill_without_costs, fill_eligible, replay_one,
}
use ta_model_v.Replay.Rule.{identified, reason-not_filled}
use ta_model_v.Replay.Run.{
  replay_all, balance_dict, build_account_state, replay_ohlctv_market_orders,
}

-- The result of an order, read off the bars: its first eligible bar, if there is one.
abbrev pub on_first_bar : OrderIntent → Option OhlctvBar → ReplayOrderResult
on_first_bar intent none = unfilled_draft intent no_future_eligible_event no_trace
on_first_bar intent (some bar) = free_draft intent bar

abbrev pub free_result : List OhlctvBar → OrderIntent → ReplayOrderResult
free_result bars intent =
    if order_type_eq intent.order_type market
    then on_first_bar intent (find? (is_eligible intent) bars)
    else unfilled_draft intent unsupported_order_type no_trace

-- A quantity above zero that 28 digits hold.
pub record IsTradable (intent : OrderIntent) : Type 0 where
  pub positive : IsPositive intent.quantity
  pub held : IsHeld intent.quantity

abbrev pub zero_total : Decimal
zero_total = Decimal.add (Decimal.add (of_nat 0) (of_nat 0)) (of_nat 0)

pub zero-lt-total : Decimal.lt (of_nat 0) zero_total ≡ false
unfolding Decimal.computing
zero-lt-total = refl

pub total-lt-zero : Decimal.lt zero_total (of_nat 0) ≡ false
unfolding Decimal.computing
total-lt-zero = refl

module _ (intent : OrderIntent) (t : IsTradable intent) where
  unfilled_draft-valid :
      (reason : ReplayRejectReason) → result_is_valid (unfilled_draft intent reason no_trace) ≡ true
  unfolding result_is_valid result_bounds common_rules unfilled_rules
  unfilled_draft-valid reason =
      rw
        (
          reason-not_filled reason,
          t.positive,
          IsPositive-IsNonneg intent.quantity t.positive,
          zero-lt-total,
          total-lt-zero,
          sub-zero_kept intent.quantity t.held,
          lt_irrefl (of_nat 0),
          lt_irrefl intent.quantity,
        )
        refl

  free_draft-valid :
      (bar : OhlctvBar) → IsPositive bar.open_price → result_is_valid (free_draft intent bar) ≡ true
  unfolding result_is_valid result_bounds common_rules filled_rules
  free_draft-valid bar price =
      let nonneg = IsPositive-IsNonneg intent.quantity t.positive in
      let price_nonneg = IsPositive-IsNonneg bar.open_price price in
      rw
        (
          t.positive,
          price,
          nonneg,
          price_nonneg,
          mul-IsNonneg bar.open_price intent.quantity price_nonneg nonneg,
          zero-lt-total,
          total-lt-zero,
          zero-lt-sub intent.quantity intent.quantity,
          lt-sub-zero intent.quantity intent.quantity,
          lt_irrefl (of_nat 0),
          lt_irrefl intent.quantity,
          lt_irrefl bar.open_price,
          lt_irrefl (Decimal.mul bar.open_price intent.quantity),
        )
        refl

made :
    (digests : ReplayDigests) (draft : ReplayOrderResult)
    → result_is_valid draft ≡ true
    → make_result digests.result_id draft ≡ ok (identified digests draft)
unfolding make_result
made digests draft valid = rw valid refl

module _ (digests : ReplayDigests) (intent : OrderIntent) (t : IsTradable intent)
    (balances : Balances) where
  leave-free :
      (reason : ReplayRejectReason)
      → leave digests intent reason no_trace balances
        ≡ ok (identified digests (unfilled_draft intent reason no_trace), balances)
  unfolding unfilled_result
  leave-free reason =
      rw
        (made digests (unfilled_draft intent reason no_trace)
          (unfilled_draft-valid intent t reason))
        refl

  fill-free :
      (bar : OhlctvBar)
      → IsPositive bar.open_price
      → fill_without_costs digests none intent bar balances
        ≡ ok (identified digests (free_draft intent bar), balances)
  unfolding fill_without_costs apply_balance_or_reject
  fill-free bar price =
      rw (made digests (free_draft intent bar) (free_draft-valid intent t bar price)) refl

  eligible-free :
      (index : ℕ) (bars : List OhlctvBar)
      → All (λ b. IsPositive b.open_price) bars
      → fill_eligible digests none none intent (eligible_bars intent index bars) balances
        ≡ ok (identified digests (on_first_bar intent (find? (is_eligible intent) bars)), balances)
  unfolding fill_eligible eligible_bars
  eligible-free index [] prices = leave-free no_future_eligible_event
  eligible-free index (bar ∷ bars) prices = elim (Bool-cases (is_eligible intent bar)) [
    | inl this ↦ rw this (fill-free bar prices.0)
    | inr later ↦ rw later (eligible-free (suc index) bars prices.1)
  ]

  typed-free :
      (b : Bool) (bars : List OhlctvBar)
      → All (λ b. IsPositive b.open_price) bars
      → (if b
          then fill_eligible digests none none intent (eligible_bars intent 0 bars) balances
          else leave digests intent unsupported_order_type no_trace balances)
        ≡ ok (
          identified digests (
              if b
              then on_first_bar intent (find? (is_eligible intent) bars)
              else unfilled_draft intent unsupported_order_type no_trace),
          balances,
        )
  typed-free true bars prices = eligible-free 0 bars prices
  typed-free false bars prices = leave-free unsupported_order_type

  pub replay_one-free :
      (bars : List OhlctvBar)
      → All (λ b. IsPositive b.open_price) bars
      → replay_one digests none none bars intent balances
        ≡ ok (identified digests (free_result bars intent), balances)
  unfolding replay_one
  replay_one-free bars prices = typed-free (order_type_eq intent.order_type market) bars prices

abbrev pub free_results : ReplayDigests → List OhlctvBar → List OrderIntent → List ReplayOrderResult
free_results digests bars = map (λ i. identified digests (free_result bars i))

module _ (digests : ReplayDigests) (bars : List OhlctvBar)
    (prices : All (λ b. IsPositive b.open_price) bars) where
  replay_all-free :
      (intents : List OrderIntent) (balances : Balances)
      → All IsTradable intents
      → replay_all digests none none bars intents balances
        ≡ ok (free_results digests bars intents, balances)
  unfolding replay_all
  replay_all-free [] balances t = refl
  replay_all-free (i ∷ is) balances t =
      rw (replay_one-free digests i t.0 balances bars prices, replay_all-free is balances t.1) refl

  -- A replay without costs and without an instrument master returns: where the bars and the intents
  -- pass their checks, the id of the run is canonical, every bar opens above zero, every quantity is
  -- above zero and held by 28 digits, and prices and quantities are below 10 ^ 100 with at most 100
  -- decimal places, the report has for each intent a fill of the whole quantity at the open of its first
  -- eligible bar, or no fill where the order is not a market order or has no such bar.
  pub free_replay_returns :
      (intents : List OrderIntent) (run_id : String) {scan : BarScan} {order : IntentScan}
      → is_canonical_id run_id ≡ true
      → all (λ b. is_ordinary b.open_price) bars ≡ true
      → all (λ i. is_ordinary i.quantity) intents ≡ true
      → All IsTradable intents
      → validate_bars_are_safe bars ≡ ok scan
      → validate_order_intents intents ≡ ok order
      → replay_ohlctv_market_orders digests bars intents run_id none none none
        ≡ ok (record {
          run_id = run_id;
          result_ids = map (λ r. r.replay_order_result_id) (free_results digests bars intents);
          results = free_results digests bars intents;
          rejection_counts = build_rejection_counts (free_results digests bars intents);
          final_account_state = none;
        })
  unfolding replay_ohlctv_market_orders balance_dict build_account_state
  free_replay_returns intents run_id named ordinary_prices ordinary_quantities t safe valid =
      rw (safe, valid, replay_all-free intents [] t, named) refl
