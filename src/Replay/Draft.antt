-- ===== src/Replay/Draft.antt =====
-- The results that simulation/replay.py builds: unfilled ones, and fills without and with costs.
use ta_model_v.Base.{ℕ, String, Option, none, some, if◌then◌else◌}
use ta_model_v.Base.Equality.{string_eq, pair_eq}
use ta_model_v.Decimal.{Decimal, of_nat}
use ta_model_v.Decimal
use ta_model_v.Contracts.Result.{Result}
use ta_model_v.Contracts.Bar.{OhlctvBar}
use ta_model_v.Contracts.Order.{OrderIntent, OrderSide, buy, sell}
use ta_model_v.Contracts.ReplayResult.{
  ReplayFillStatus, filled, partially_filled, unfilled, rejected, ReplayRejectReason,
  no_future_eligible_event, insufficient_liquidity, FillEvent, CostTrace, Attribution,
  ReplayOrderResult, make_result,
}
use ta_model_v.Contracts.Simulation.{ExecutionCostModel}

-- The digests that the replay calls: of a result's other fields, and of a cost model's.
pub record ReplayDigests : Type 0 where
  pub result_id : ReplayOrderResult → String
  pub cost_model_hash : ExecutionCostModel → String

abbrev pub no_trace : CostTrace
no_trace = record {
  cost_model_id = none;
  cost_model_hash = none;
  latency_bars = 0;
  eligible_event_index = none;
  fill_attempt_event_index = none;
}

abbrev pub trace_of : ReplayDigests → ExecutionCostModel → Option ℕ → Option ℕ → CostTrace
trace_of digests model eligible attempt = record {
  cost_model_id = some model.cost_model_id;
  cost_model_hash = some (digests.cost_model_hash model);
  latency_bars = model.latency_bars;
  eligible_event_index = eligible;
  fill_attempt_event_index = attempt;
}

abbrev pub no_event : FillEvent
no_event = record {
  fill_event_open_ts = none;
  fill_event_close_ts = none;
  fill_event_source_ts = none;
  fill_raw_payload_id = none;
}

abbrev pub event_of : OhlctvBar → FillEvent
event_of bar = record {
  fill_event_open_ts = some bar.open_ts;
  fill_event_close_ts = some bar.close_ts;
  fill_event_source_ts = some bar.source_ts;
  fill_raw_payload_id = some bar.raw_payload_id;
}

abbrev pub no_attribution : Attribution
no_attribution = record {
  arrival_reference_price = none;
  effective_fill_price = none;
  reference_notional = of_nat 0;
  effective_notional = of_nat 0;
  fee_cost = of_nat 0;
  spread_cost = of_nat 0;
  slippage_cost = of_nat 0;
  total_cost = of_nat 0;
}

abbrev pub status_of_reason : ReplayRejectReason → ReplayFillStatus
status_of_reason no_future_eligible_event = unfilled
status_of_reason insufficient_liquidity = unfilled
status_of_reason _ = rejected

abbrev pub unfilled_draft : OrderIntent → ReplayRejectReason → CostTrace → ReplayOrderResult
unfilled_draft intent reason trace = record {
  replay_order_result_id = "REPLAYORDER:PLACEHOLDER";
  intent = intent;
  status = status_of_reason reason;
  reason = some reason;
  fill_price = none;
  filled_quantity = of_nat 0;
  remaining_quantity = intent.quantity;
  event = no_event;
  cost_trace = trace;
  attribution = no_attribution;
}

unfoldable pub unfilled_result :
    ReplayDigests → OrderIntent → ReplayRejectReason → CostTrace → Result ReplayOrderResult
unfilled_result digests intent reason trace =
    make_result digests.result_id (unfilled_draft intent reason trace)

-- A fill of the whole quantity at the open, without costs.
abbrev pub free_draft : OrderIntent → OhlctvBar → ReplayOrderResult
free_draft intent bar =
    let notional = Decimal.mul bar.open_price intent.quantity in
    record {
      replay_order_result_id = "REPLAYORDER:PLACEHOLDER";
      intent = intent;
      status = filled;
      reason = none;
      fill_price = some bar.open_price;
      filled_quantity = intent.quantity;
      remaining_quantity = of_nat 0;
      event = event_of bar;
      cost_trace = no_trace;
      attribution = record no_attribution {
        arrival_reference_price = some bar.open_price;
        effective_fill_price = some bar.open_price;
        reference_notional = notional;
        effective_notional = notional;
      };
    }

abbrev pub ten_thousand : Decimal
ten_thousand = of_nat 10000

-- (spread + slippage) / 10000
abbrev pub adjustment : ExecutionCostModel → Decimal
adjustment model = Decimal.div (Decimal.add model.spread_bps model.slippage_bps) ten_thousand

unfoldable pub effective_price : OrderSide → ExecutionCostModel → Decimal → Decimal
effective_price buy model arrival = Decimal.mul arrival (Decimal.add (of_nat 1) (adjustment model))
effective_price sell model arrival = Decimal.mul arrival (Decimal.sub (of_nat 1) (adjustment model))

-- notional * bps / 10000
abbrev pub bps_cost : Decimal → Decimal → Decimal
bps_cost notional bps = Decimal.div (Decimal.mul (Decimal.copy_abs notional) bps) ten_thousand

unfoldable pub attribution_of : OrderSide → ExecutionCostModel → Decimal → Decimal → Attribution
unfolding effective_price
attribution_of side model arrival filled_quantity =
    let effective = effective_price side model arrival in
    let reference_notional = Decimal.mul arrival filled_quantity in
    let effective_notional = Decimal.mul effective filled_quantity in
    let fee = Decimal.mul (Decimal.copy_abs effective_notional) model.taker_fee_rate in
    let spread = bps_cost reference_notional model.spread_bps in
    let slippage = bps_cost reference_notional model.slippage_bps in
    record {
      arrival_reference_price = some arrival;
      effective_fill_price = some effective;
      reference_notional = reference_notional;
      effective_notional = effective_notional;
      fee_cost = fee;
      spread_cost = spread;
      slippage_cost = slippage;
      total_cost = Decimal.add (Decimal.add fee spread) slippage;
    }

-- A fill of the given quantity with its costs.
unfoldable pub costed_draft :
    OrderIntent → ExecutionCostModel → OhlctvBar → Decimal → CostTrace → ReplayOrderResult
unfolding attribution_of
costed_draft intent model bar filled_quantity trace =
    let a = attribution_of intent.side model bar.open_price filled_quantity in
    record {
      replay_order_result_id = "REPLAYORDER:PLACEHOLDER";
      intent = intent;
      status = if Decimal.eq filled_quantity intent.quantity then filled else partially_filled;
      reason = none;
      fill_price = a.effective_fill_price;
      filled_quantity = filled_quantity;
      remaining_quantity = Decimal.sub intent.quantity filled_quantity;
      event = event_of bar;
      cost_trace = trace;
      attribution = a;
    }
