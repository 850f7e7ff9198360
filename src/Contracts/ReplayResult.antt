-- ===== src/Contracts/ReplayResult.antt =====
-- The result of a replayed order, its validator, and the counts of rejections
-- (contracts/simulation.py). Identifiers are digests of the other fields, which are parameters.
use ta_model_v.Base.{
  ℕ, suc, String, Bool, true, false, Option, none, some, List, [], ◌∷◌, is_some, not, ◌&&◌, ◌||◌,
  if◌then◌else◌, ◌≡◌, ◌↔◌, arith, map,
}
use ta_model_v.Base.Dict.{Dict, lookup, insert}
use ta_model_v.Base.Equality.{Eq}
use ta_model_v.Base.Sort.{sorted}
use ta_model_v.Base.Text.{text_lt}
use ta_model_v.Decimal.{Decimal, of_nat}
use ta_model_v.Decimal
use ta_model_v.Contracts.Result.{Timestamp, Result, ok, require, ◌>>◌, validation_error}
use ta_model_v.Contracts.Order.{OrderIntent}
use ta_model_v.Contracts.Risk.{is_positive, is_nonneg, bool_eq}

pub data ReplayFillStatus : Type 0 where
  filled partially_filled unfilled rejected : ReplayFillStatus

pub data ReplayRejectReason : Type 0 where
  unsupported_order_type no_future_eligible_event insufficient_liquidity venue_not_tradable
        instrument_not_tradable account_not_tradable constraint_violation insufficient_cash
        insufficient_inventory :
      ReplayRejectReason

-- The value of the enumeration, by which reasons are sorted.
unfoldable pub reason_value : ReplayRejectReason → String
reason_value unsupported_order_type = "unsupported_order_type"
reason_value no_future_eligible_event = "no_future_eligible_event"
reason_value insufficient_liquidity = "insufficient_liquidity"
reason_value venue_not_tradable = "venue_not_tradable"
reason_value instrument_not_tradable = "instrument_not_tradable"
reason_value account_not_tradable = "account_not_tradable"
reason_value constraint_violation = "constraint_violation"
reason_value insufficient_cash = "insufficient_cash"
reason_value insufficient_inventory = "insufficient_inventory"

abbrev pub reason_beq : ReplayRejectReason → ReplayRejectReason → Bool
reason_beq unsupported_order_type unsupported_order_type = true
reason_beq no_future_eligible_event no_future_eligible_event = true
reason_beq insufficient_liquidity insufficient_liquidity = true
reason_beq venue_not_tradable venue_not_tradable = true
reason_beq instrument_not_tradable instrument_not_tradable = true
reason_beq account_not_tradable account_not_tradable = true
reason_beq constraint_violation constraint_violation = true
reason_beq insufficient_cash insufficient_cash = true
reason_beq insufficient_inventory insufficient_inventory = true
reason_beq _ _ = false

pub reason_beq_iff : (a b : ReplayRejectReason) → (reason_beq a b ≡ true) ↔ (a ≡ b)
reason_beq_iff a b = ground arith

instance abbrev pub reason_eq : Eq ReplayRejectReason
reason_eq = record { beq = reason_beq; beq_iff = reason_beq_iff }

-- The bar that an order was filled on, and the cost model that it was tried with.
pub record FillEvent : Type 0 where
  pub fill_event_open_ts : Option Timestamp
  pub fill_event_close_ts : Option Timestamp
  pub fill_event_source_ts : Option Timestamp
  pub fill_raw_payload_id : Option String

pub record CostTrace : Type 0 where
  pub cost_model_id : Option String
  pub cost_model_hash : Option String
  pub latency_bars : ℕ
  pub eligible_event_index : Option ℕ
  pub fill_attempt_event_index : Option ℕ

-- The prices, notionals and costs of a fill.
pub record Attribution : Type 0 where
  pub arrival_reference_price : Option Decimal
  pub effective_fill_price : Option Decimal
  pub reference_notional : Decimal
  pub effective_notional : Decimal
  pub fee_cost : Decimal
  pub spread_cost : Decimal
  pub slippage_cost : Decimal
  pub total_cost : Decimal

-- The fields that every result copies from its intent are the intent itself.
pub record ReplayOrderResult : Type 0 where
  pub replay_order_result_id : String
  pub intent : OrderIntent
  pub status : ReplayFillStatus
  pub reason : Option ReplayRejectReason
  pub fill_price : Option Decimal
  pub filled_quantity : Decimal
  pub remaining_quantity : Decimal
  pub event : FillEvent
  pub cost_trace : CostTrace
  pub attribution : Attribution

abbrev pub is_filled : ReplayFillStatus → Bool
is_filled filled = true
is_filled partially_filled = true
is_filled unfilled = false
is_filled rejected = false

abbrev pub nonneg_if_set : Option Decimal → Bool
nonneg_if_set none = true
nonneg_if_set (some d) = is_nonneg d

-- The bounds of the fields.
unfoldable pub result_bounds : ReplayOrderResult → Bool
result_bounds r =
    is_positive r.intent.quantity
    && nonneg_if_set r.fill_price
    && is_nonneg r.filled_quantity
    && is_nonneg r.remaining_quantity
    && nonneg_if_set r.attribution.arrival_reference_price
    && nonneg_if_set r.attribution.effective_fill_price
    && is_nonneg r.attribution.reference_notional
    && is_nonneg r.attribution.effective_notional
    && is_nonneg r.attribution.fee_cost
    && is_nonneg r.attribution.spread_cost
    && is_nonneg r.attribution.slippage_cost
    && is_nonneg r.attribution.total_cost

-- The rules for every status.
unfoldable pub common_rules : ReplayOrderResult → Bool
common_rules r =
    let a = r.attribution in
    bool_eq (is_some r.cost_trace.cost_model_id) (is_some r.cost_trace.cost_model_hash)
    && Decimal.eq a.total_cost (Decimal.add (Decimal.add a.fee_cost a.spread_cost) a.slippage_cost)
    && (not (is_positive a.total_cost)
        || is_some r.cost_trace.cost_model_id && is_some r.cost_trace.cost_model_hash)
    && Decimal.eq r.remaining_quantity (Decimal.sub r.intent.quantity r.filled_quantity)

abbrev pub has_event : FillEvent → Bool
has_event e =
    is_some e.fill_event_open_ts
    && is_some e.fill_event_close_ts
    && is_some e.fill_event_source_ts
    && is_some e.fill_raw_payload_id

abbrev pub has_no_event : FillEvent → Bool
has_no_event e =
    not (is_some e.fill_event_open_ts)
    && not (is_some e.fill_event_close_ts)
    && not (is_some e.fill_event_source_ts)
    && not (is_some e.fill_raw_payload_id)

abbrev pub is_zero : Decimal → Bool
is_zero d = Decimal.eq d (of_nat 0)

-- `quantity_rule`: all of the quantity, or a part of it.
abbrev pub quantity_rule : ReplayFillStatus → Decimal → Decimal → Bool
quantity_rule filled filled_quantity quantity = Decimal.eq filled_quantity quantity
quantity_rule partially_filled filled_quantity quantity =
    Decimal.lt (of_nat 0) filled_quantity && Decimal.lt filled_quantity quantity
quantity_rule _ filled_quantity quantity = false

-- The prices of a fill: the effective price is the fill price, and the notionals are theirs.
abbrev pub prices_fit :
    Option Decimal → Option Decimal → Option Decimal → Decimal → Attribution → Bool
prices_fit (some fill) (some arrival) (some effective) filled_quantity a =
    is_positive fill
    && Decimal.eq effective fill
    && Decimal.eq a.reference_notional (Decimal.mul arrival filled_quantity)
    && Decimal.eq a.effective_notional (Decimal.mul effective filled_quantity)
prices_fit _ _ _ filled_quantity a = false

unfoldable pub filled_rules : ReplayOrderResult → Bool
filled_rules r =
    not (is_some r.reason)
    && quantity_rule r.status r.filled_quantity r.intent.quantity
    && has_event r.event
    && prices_fit r.fill_price r.attribution.arrival_reference_price
        r.attribution.effective_fill_price r.filled_quantity r.attribution

abbrev pub has_no_attribution : Attribution → Bool
has_no_attribution a =
    not (is_some a.arrival_reference_price)
    && not (is_some a.effective_fill_price)
    && is_zero a.reference_notional
    && is_zero a.effective_notional
    && is_zero a.fee_cost
    && is_zero a.spread_cost
    && is_zero a.slippage_cost
    && is_zero a.total_cost

unfoldable pub unfilled_rules : ReplayOrderResult → Bool
unfilled_rules r =
    is_some r.reason
    && not (is_some r.fill_price)
    && is_zero r.filled_quantity
    && has_no_event r.event
    && has_no_attribution r.attribution
    && Decimal.eq r.remaining_quantity r.intent.quantity

-- The bounds and the validator `result_is_consistent_and_deterministic`, without the identity.
unfoldable pub result_is_valid : ReplayOrderResult → Bool
result_is_valid r =
    result_bounds r
    && common_rules r
    && (if is_filled r.status then filled_rules r else unfilled_rules r)

-- `ReplayOrderResult(...)` of a draft, under the digest of the draft.
unfoldable pub make_result :
    (ReplayOrderResult → String) → ReplayOrderResult → Result ReplayOrderResult
make_result digest draft = do
  require (result_is_valid draft) (validation_error "replay order result inconsistent")
  ok (record draft { replay_order_result_id = digest draft })

pub record ReplayRejectionCount : Type 0 where
  pub reason : ReplayRejectReason
  pub count : ℕ

abbrev pub count_of : Option ℕ → ℕ
count_of none = 0
count_of (some n) = n

abbrev pub count_reason :
    Option ReplayRejectReason → Dict ReplayRejectReason ℕ → Dict ReplayRejectReason ℕ
count_reason none counts = counts
count_reason (some reason) counts = insert reason (suc (count_of (lookup reason counts))) counts

-- The loop of `build_rejection_counts`.
unfoldable pub count_reasons :
    Dict ReplayRejectReason ℕ → List ReplayOrderResult → Dict ReplayRejectReason ℕ
count_reasons counts [] = counts
count_reasons counts (r ∷ rs) = count_reasons (count_reason r.reason counts) rs

abbrev pub by_reason : ReplayRejectReason × ℕ → ReplayRejectReason × ℕ → Bool
by_reason a b = text_lt (reason_value a.0) (reason_value b.0)

unfoldable pub build_rejection_counts : List ReplayOrderResult → List ReplayRejectionCount
unfolding reason_value
build_rejection_counts results =
    map (λ c. record { reason = c.0; count = c.1 }) (sorted by_reason (count_reasons [] results))
