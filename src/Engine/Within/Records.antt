-- ===== src/Engine/Within/Records.antt =====
-- When the data-health signals and the records of earlier orders are not hard breaches.
use ta_model_v.Base.{
  String, false, Option, none, some, List, [], ◌∷◌, ◌≡◌, ◌≢◌, ◌⊎◌, ◌↔◌, eq_iff, arith, All,
  is_nonempty-filter, any-All,
}
use ta_model_v.Contracts.Order.{OrderIntent}
use ta_model_v.Contracts.Telemetry.{
  OrderIdempotencyState, reconciled, OrderIdempotencyRecord, DataHealthSignal,
}
use ta_model_v.Contracts.Risk.{RiskCheckRequest}
use ta_model_v.Engine.ExecutionLimits.{
  concerns, is_blocking, data_freshness_evaluation, is_duplicate, idempotency_evaluation,
}
use ta_model_v.Engine.Within.State.{IsNotHard}

-- A blocked instrument is named, and it is not this one.
abbrev pub NamesOther : String → Option String → Type 0
NamesOther instrument_id none = ⊥
NamesOther instrument_id (some other) = other ≢ instrument_id

-- A signal that does not block trading, or names another instrument.
abbrev pub IsHarmless : String → DataHealthSignal → Type 0
IsHarmless instrument_id s =
    (s.blocks_trading ≡ false) ⊎ NamesOther instrument_id s.blocked_instrument_id

-- The state of an earlier order that is resolved.
abbrev pub IsResolved : OrderIdempotencyState → Type 0
IsResolved state = (state ≡ reconciled) ⊎ (state ≡ OrderIdempotencyState.rejected)

-- An earlier order that is resolved, or that differs from this one in its key, its client order, its
-- trace and its digest.
abbrev pub IsOther : RiskCheckRequest → String → OrderIdempotencyRecord → Type 0
IsOther r digest k =
    IsResolved k.state
    ⊎ ((k.idempotency_key ≢ r.idempotency_key)
        × (k.client_order_id ≢ r.order_intent.client_order_id)
        × (k.trace_id ≢ r.trace_id)
        × (k.order_intent_hash ≢ digest))

concerns_iff :
    (instrument_id : String) (blocked : Option String)
    → (concerns instrument_id blocked ≡ false) ↔ NamesOther instrument_id blocked
concerns_iff instrument_id none = ground arith
concerns_iff instrument_id (some b) = ground (arith, eq_iff b instrument_id)

signal_iff :
    (r : RiskCheckRequest) (s : DataHealthSignal)
    → (is_blocking r s ≡ false) ↔ IsHarmless r.order_intent.instrument_id s
signal_iff r s = ground (arith, concerns_iff r.order_intent.instrument_id s.blocked_instrument_id)

record_iff :
    (r : RiskCheckRequest) (digest : String) (k : OrderIdempotencyRecord)
    → (is_duplicate r digest k ≡ false) ↔ IsOther r digest k
record_iff r digest k = ground (
  arith,
  eq_iff k.idempotency_key r.idempotency_key,
  eq_iff k.client_order_id r.order_intent.client_order_id,
  eq_iff k.trace_id r.trace_id,
  eq_iff k.order_intent_hash digest,
)

signals_iff :
    (r : RiskCheckRequest) (ss : List DataHealthSignal)
    → All (λ s. is_blocking r s ≡ false) ss ↔ All (IsHarmless r.order_intent.instrument_id) ss
signals_iff r [] = ground arith
signals_iff r (s ∷ ss) =
    let this = signal_iff r s in
    let rest = signals_iff r ss in (λ h. (this.0 h.0, rest.0 h.1), λ h. (this.1 h.0, rest.1 h.1))

records_iff :
    (r : RiskCheckRequest) (digest : String) (ks : List OrderIdempotencyRecord)
    → All (λ k. is_duplicate r digest k ≡ false) ks ↔ All (IsOther r digest) ks
records_iff r digest [] = ground arith
records_iff r digest (k ∷ ks) =
    let this = record_iff r digest k in
    let rest = records_iff r digest ks in
    (λ h. (this.0 h.0, rest.0 h.1), λ h. (this.1 h.0, rest.1 h.1))

none_blocking_iff :
    (r : RiskCheckRequest)
    → IsNotHard (data_freshness_evaluation r)
      ↔ All (λ s. is_blocking r s ≡ false) r.data_health_signals
unfolding data_freshness_evaluation
none_blocking_iff r = ground (
  arith,
  is_nonempty-filter (is_blocking r) r.data_health_signals,
  any-All (is_blocking r) r.data_health_signals,
)

pub freshness_iff :
    (r : RiskCheckRequest)
    → IsNotHard (data_freshness_evaluation r)
      ↔ All (IsHarmless r.order_intent.instrument_id) r.data_health_signals
freshness_iff r =
    let none_blocking = none_blocking_iff r in
    let harmless = signals_iff r r.data_health_signals in
    (λ h. harmless.0 (none_blocking.0 h), λ h. none_blocking.1 (harmless.1 h))

no_duplicate_iff :
    (digest : OrderIntent → String) (r : RiskCheckRequest)
    → IsNotHard (idempotency_evaluation digest r)
      ↔ All (λ k. is_duplicate r (digest r.order_intent) k ≡ false) r.idempotency_records
unfolding idempotency_evaluation
no_duplicate_iff digest r = ground (
  arith,
  is_nonempty-filter (is_duplicate r (digest r.order_intent)) r.idempotency_records,
  any-All (is_duplicate r (digest r.order_intent)) r.idempotency_records,
)

pub idempotency_iff :
    (digest : OrderIntent → String) (r : RiskCheckRequest)
    → IsNotHard (idempotency_evaluation digest r)
      ↔ All (IsOther r (digest r.order_intent)) r.idempotency_records
idempotency_iff digest r =
    let no_duplicate = no_duplicate_iff digest r in
    let others = records_iff r (digest r.order_intent) r.idempotency_records in
    (λ h. others.0 (no_duplicate.0 h), λ h. no_duplicate.1 (others.1 h))
