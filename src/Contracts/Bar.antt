-- ===== src/Contracts/Bar.antt =====
-- OHLCTV bars (contracts/market_data.py).
use ta_model_v.Base.{String, Bool, true, Option, none, some, not, ltb, ◌&&◌}
use ta_model_v.Decimal.{Decimal}
use ta_model_v.Decimal
use ta_model_v.Contracts.Result.{Timestamp}
use ta_model_v.Contracts.Risk.{is_nonneg}

-- An aware datetime is an instant with an offset; `close_iso` is what `close_ts.isoformat()` prints,
-- which depends on both.
pub record OhlctvBar : Type 0 where
  pub instrument_id : String
  pub venue_id : String
  pub timeframe : String
  pub open_ts : Timestamp
  pub close_ts : Timestamp
  pub close_iso : String
  pub open_price : Decimal
  pub high : Decimal
  pub low : Decimal
  pub close : Decimal
  pub base_volume : Decimal
  pub vwap : Option Decimal
  pub source_ts : Timestamp
  pub raw_payload_id : String

abbrev pub within : Decimal → Decimal → Option Decimal → Bool
within low high none = true
within low high (some v) = Decimal.le low v && Decimal.le v high

-- The bounds of the fields and the validator `ohlc_invariants_hold`.
unfoldable pub bar_is_valid : OhlctvBar → Bool
bar_is_valid b =
    is_nonneg b.open_price
    && is_nonneg b.high
    && is_nonneg b.low
    && is_nonneg b.close
    && is_nonneg b.base_volume
    && ltb b.open_ts b.close_ts
    && not (Decimal.lt b.high (Decimal.max (Decimal.max b.open_price b.low) b.close))
    && not (Decimal.lt (Decimal.min (Decimal.min b.open_price b.high) b.close) b.low)
    && within b.low b.high b.vwap
