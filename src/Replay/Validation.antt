-- ===== src/Replay/Validation.antt =====
-- `_validate_bars_are_safe` and `_validate_order_intents` of simulation/replay.py.
use ta_model_v.Base.{
  String, Bool, true, Option, none, some, List, [], ◌∷◌, any, not, ◌&&◌, ◌||◌, ltb, ◌==◌, str_eq,
}
use ta_model_v.Base.Dict.{Dict, lookup, insert}
use ta_model_v.Base.Equality.{eqb, string_eq, pair_eq}
use ta_model_v.Base.Text.{text_lt, texts_lt}
use ta_model_v.Contracts.Result.{Result, ok, require, ◌>>=◌, ◌>>◌, replay_build_error}
use ta_model_v.Contracts.Bar.{OhlctvBar}
use ta_model_v.Contracts.Order.{OrderIntent}

-- (instrument_id, venue_id), and (instrument_id, venue_id, timeframe).
abbrev pub MarketKey : Type 0
MarketKey = String × String

abbrev pub StreamKey : Type 0
StreamKey = MarketKey × String

abbrev pub market_key : OhlctvBar → MarketKey
market_key b = (b.instrument_id, b.venue_id)

abbrev pub stream_key : OhlctvBar → StreamKey
stream_key b = (market_key b, b.timeframe)

abbrev pub CloseKey : Type 0
CloseKey = StreamKey × String

abbrev pub close_key : OhlctvBar → CloseKey
close_key b = (stream_key b, b.close_iso)

abbrev pub global_key : OhlctvBar → List String
global_key b = b.close_iso ∷ b.instrument_id ∷ b.venue_id ∷ b.timeframe ∷ []

-- The variables of the loop over the bars. The set of timeframes of a market never holds two, so the
-- first is enough.
pub record BarScan : Type 0 where
  pub seen_close_keys : List CloseKey
  pub last_by_stream : Dict StreamKey OhlctvBar
  pub timeframes_by_market : Dict MarketKey String
  pub previous_global_key : Option (List String)

abbrev pub empty_scan : BarScan
empty_scan = record {
  seen_close_keys = [];
  last_by_stream = [];
  timeframes_by_market = [];
  previous_global_key = none;
}

abbrev pub same_timeframe : String → Option String → Bool
same_timeframe timeframe none = true
same_timeframe timeframe (some first) = str_eq first timeframe

abbrev pub not_before : List String → Option (List String) → Bool
not_before key none = true
not_before key (some previous) = not (texts_lt key previous)

abbrev pub closes_after : OhlctvBar → Option OhlctvBar → Bool
closes_after b none = true
closes_after b (some last) = ltb last.close_ts b.close_ts

abbrev pub opens_after : OhlctvBar → Option OhlctvBar → Bool
opens_after b none = true
opens_after b (some last) = not (ltb b.open_ts last.close_ts)

-- One round of the loop.
unfoldable pub scan_bar : BarScan → OhlctvBar → Result BarScan
scan_bar s b = do
  let last = lookup (stream_key b) s.last_by_stream
  require (not (ltb b.close_ts b.source_ts))
      (replay_build_error "OHLCTV source_ts must not be after close_ts for replay")
  require (same_timeframe b.timeframe (lookup (market_key b) s.timeframes_by_market))
      (replay_build_error "mixed OHLCTV timeframes for one instrument/venue")
  require (not (any (λ k. eqb (close_key b) k) s.seen_close_keys))
      (replay_build_error "duplicate OHLCTV bars per instrument/venue/timeframe/close_ts")
  require (not_before (global_key b) s.previous_global_key)
      (replay_build_error "OHLCTV bars must be sorted by close_ts/instrument/venue/timeframe")
  require (closes_after b last) (replay_build_error "non-monotonic OHLCTV close_ts in stream")
  require (opens_after b last)
      (replay_build_error "overlapping OHLCTV bars are ambiguous for replay")
  ok (record {
    seen_close_keys = close_key b ∷ s.seen_close_keys;
    last_by_stream = insert (stream_key b) b s.last_by_stream;
    timeframes_by_market = insert (market_key b) b.timeframe s.timeframes_by_market;
    previous_global_key = some (global_key b);
  })

unfoldable pub scan_bars : BarScan → List OhlctvBar → Result BarScan
scan_bars s [] = ok s
scan_bars s (b ∷ bs) = scan_bar s b >>= λ s'. scan_bars s' bs

unfoldable pub validate_bars_are_safe : List OhlctvBar → Result BarScan
validate_bars_are_safe bars = scan_bars empty_scan bars

-- The loop over the intents: the ids that it has seen, and the last key.
pub record IntentScan : Type 0 where
  pub seen_client_order_ids : List String
  pub previous_order : Option OrderIntent

-- `(submitted_at, client_order_id)` of one intent below that of another.
abbrev pub is_before : OrderIntent → OrderIntent → Bool
is_before a b =
    ltb a.submitted_at b.submitted_at
    || a.submitted_at == b.submitted_at && text_lt a.client_order_id b.client_order_id

abbrev pub not_before_previous : OrderIntent → Option OrderIntent → Bool
not_before_previous i none = true
not_before_previous i (some previous) = not (is_before i previous)

unfoldable pub scan_intent : IntentScan → OrderIntent → Result IntentScan
scan_intent s i = do
  require (not (any (str_eq i.client_order_id) s.seen_client_order_ids))
      (replay_build_error "duplicate client_order_id in replay order intents")
  require (not_before_previous i s.previous_order)
      (replay_build_error "order intents must be sorted by submitted_at/client_order_id")
  ok (record {
    seen_client_order_ids = i.client_order_id ∷ s.seen_client_order_ids;
    previous_order = some i;
  })

unfoldable pub scan_intents : IntentScan → List OrderIntent → Result IntentScan
scan_intents s [] = ok s
scan_intents s (i ∷ is) = scan_intent s i >>= λ s'. scan_intents s' is

unfoldable pub validate_order_intents : List OrderIntent → Result IntentScan
validate_order_intents intents =
    scan_intents (record { seen_client_order_ids = []; previous_order = none }) intents
