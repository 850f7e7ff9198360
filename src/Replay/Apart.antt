-- ===== src/Replay/Apart.antt =====
-- What `_validate_bars_are_safe` (simulation/replay.py) accepts: bars of one market do not overlap.
use ta_model_v.Base.{
  String, true, Option, none, some, List, [], ◌∷◌, All, any, not, ltb, eq_iff, ◌≤◌, ◌<◌, ◌≡◌, ◌≢◌,
  refl, sym, ap, ◌∙◌, ◌⊎◌, inl, inr, arith, Bool-cases,
}
use mathlib.Core.Path.{subst}
use ta_model_v.Base.Dict.{lookup, insert, lookup-insert_self, lookup-insert_ne}
use ta_model_v.Base.Equality.{eqb, string_eq, pair_eq, pair_beq_iff}
use ta_model_v.Contracts.Result.{Result, ok, err, Error, require_elim}
use ta_model_v.Contracts.Bar.{OhlctvBar}
use ta_model_v.Contracts.Ensures.{Ensures, Ensures-bind, Ensures-mono, Ensures_elim}
use ta_model_v.Replay.Validation.{
  BarScan, empty_scan, market_key, stream_key, close_key, global_key, same_timeframe, not_before,
  closes_after, opens_after, scan_bar, scan_bars, validate_bars_are_safe, StreamKey,
}

-- A bar and a later one: of different markets, or of one timeframe, and the first closes before the
-- second opens.
abbrev pub IsApart : OhlctvBar → OhlctvBar → Type 0
IsApart a b =
    (market_key a ≢ market_key b) ⊎ ((a.timeframe ≡ b.timeframe) × (a.close_ts ≤ b.open_ts))

-- Each element is related to each later one.
abbrev pub AllLater : {A : Type 0} → (A → A → Type 0) → List A → Type 0
AllLater R [] = Unit
AllLater R (x ∷ xs) = All (R x) xs × AllLater R xs

-- What the scan remembers of a bar: the last bar of its stream, and the timeframe of its market.
record IsRemembered (s : BarScan) (a : OhlctvBar) : Type 0 where
  last : OhlctvBar
  found : lookup (stream_key a) s.last_by_stream ≡ some last
  not_after : a.close_ts ≤ last.close_ts
  timeframe : lookup (market_key a) s.timeframes_by_market ≡ some a.timeframe

-- A bar that the scan accepts has passed its checks, and is remembered.
record IsScanned (s : BarScan) (b : OhlctvBar) (s' : BarScan) : Type 0 where
  one_timeframe : same_timeframe b.timeframe (lookup (market_key b) s.timeframes_by_market) ≡ true
  later_close : closes_after b (lookup (stream_key b) s.last_by_stream) ≡ true
  later_open : opens_after b (lookup (stream_key b) s.last_by_stream) ≡ true
  streams : s'.last_by_stream ≡ insert (stream_key b) b s.last_by_stream
  timeframes : s'.timeframes_by_market ≡ insert (market_key b) b.timeframe s.timeframes_by_market

-- A round of the scan that raises, or that accepts the bar.
IsRound : BarScan → OhlctvBar → Result BarScan → Type 0
IsRound s b m = Ensures (IsScanned s b) m

err-IsRound : (s : BarScan) (b : OhlctvBar) (e : Error) → IsRound s b (err e)
unfolding IsRound
err-IsRound s b e = tt

passed-IsRound :
    (s : BarScan) (b : OhlctvBar) (s' : BarScan) → IsScanned s b s' → IsRound s b (ok s')
unfolding IsRound
passed-IsRound s b s' h = h

scan_bar-IsRound : (s : BarScan) (b : OhlctvBar) → IsRound s b (scan_bar s b)
unfolding scan_bar
scan_bar-IsRound s b =
    require_elim (IsRound s b) (not (ltb b.close_ts b.source_ts)) (err-IsRound s b _)
      λ before_close.
        require_elim (IsRound s b)
          (same_timeframe b.timeframe (lookup (market_key b) s.timeframes_by_market))
          (err-IsRound s b _)
          λ one_timeframe.
            require_elim (IsRound s b) (not (any (λ k. eqb (close_key b) k) s.seen_close_keys))
              (err-IsRound s b _)
              λ fresh.
                require_elim (IsRound s b) (not_before (global_key b) s.previous_global_key)
                  (err-IsRound s b _)
                  λ in_order.
                    require_elim (IsRound s b)
                      (closes_after b (lookup (stream_key b) s.last_by_stream)) (err-IsRound s b _)
                      λ later_close.
                        require_elim (IsRound s b)
                          (opens_after b (lookup (stream_key b) s.last_by_stream))
                          (err-IsRound s b _)
                          λ later_open. passed-IsRound s b _ (record {
                            one_timeframe = one_timeframe;
                            later_close = later_close;
                            later_open = later_open;
                            streams = refl;
                            timeframes = refl;
                          })

scan-IsScanned : (s : BarScan) (b : OhlctvBar) → Ensures (IsScanned s b) (scan_bar s b)
unfolding IsRound
scan-IsScanned s b = scan_bar-IsRound s b

same_timeframe-some :
    (t u : String) (o : Option String) → same_timeframe t o ≡ true → o ≡ some u → u ≡ t
same_timeframe-some t u none h k = cc
same_timeframe-some t u (some first) h k = ground (arith, h, k, eq_iff first t)

closes_after-some :
    (b last : OhlctvBar) (o : Option OhlctvBar)
    → closes_after b o ≡ true
    → o ≡ some last
    → last.close_ts < b.close_ts
closes_after-some b last o h k =
    let t : closes_after b (some last) ≡ true = subst (λ x. closes_after b x ≡ true) k h in
    ground (arith, t)

opens_after-some :
    (b last : OhlctvBar) (o : Option OhlctvBar)
    → opens_after b o ≡ true
    → o ≡ some last
    → last.close_ts ≤ b.open_ts
opens_after-some b last o h k =
    let t : opens_after b (some last) ≡ true = subst (λ x. opens_after b x ≡ true) k h in
    ground (arith, t)

same_or_other : (a b : OhlctvBar) → (market_key a ≡ market_key b) ⊎ (market_key a ≢ market_key b)
same_or_other a b = elim (Bool-cases (eqb (market_key a) (market_key b))) [
  | inl same ↦ inl ((pair_beq_iff (market_key a) (market_key b)).0 same)
  | inr differ ↦ inr λ e. ground (arith, differ, (pair_beq_iff (market_key a) (market_key b)).1 e)
]

module _ (s : BarScan) (b : OhlctvBar) (s' : BarScan) (scanned : IsScanned s b s') where
  new-IsRemembered : IsRemembered s' b
  new-IsRemembered = record {
    last = b;
    found =
        ap (lookup (stream_key b)) scanned.streams
        ∙ lookup-insert_self (stream_key b) b s.last_by_stream;
    not_after = omega arith;
    timeframe =
        ap (lookup (market_key b)) scanned.timeframes
        ∙ lookup-insert_self (market_key b) b.timeframe s.timeframes_by_market;
  }

  module _ (a : OhlctvBar) (r : IsRemembered s a) where
    -- A bar of another market leaves what is remembered.
    other-IsRemembered : market_key a ≢ market_key b → IsRemembered s' a
    other-IsRemembered differ = record {
      last = r.last;
      found =
          ap (lookup (stream_key a)) scanned.streams
          ∙ lookup-insert_ne (stream_key a) (stream_key b) b s.last_by_stream
              (λ e. differ (ap (λ (k : StreamKey). k.0) e))
          ∙ r.found;
      not_after = r.not_after;
      timeframe =
          ap (lookup (market_key a)) scanned.timeframes
          ∙ lookup-insert_ne (market_key a) (market_key b) b.timeframe s.timeframes_by_market differ
          ∙ r.timeframe;
    }

    module _ (same : market_key a ≡ market_key b) where
      same-timeframe : a.timeframe ≡ b.timeframe
      same-timeframe =
          same_timeframe-some b.timeframe a.timeframe _ scanned.one_timeframe
            (ap (λ k. lookup k s.timeframes_by_market) (sym same) ∙ r.timeframe)

      same-stream : stream_key a ≡ stream_key b
      same-stream = cc (same, same-timeframe)

      last-found : lookup (stream_key b) s.last_by_stream ≡ some r.last
      last-found = ap (λ k. lookup k s.last_by_stream) (sym same-stream) ∙ r.found

      -- A bar of the same market closes and opens later, and takes the place of the last one.
      same-IsRemembered : IsRemembered s' a
      unfolding new-IsRemembered
      same-IsRemembered =
          let later = closes_after-some b r.last _ scanned.later_close last-found in
          record {
            last = b;
            found = ap (λ k. lookup k s'.last_by_stream) same-stream ∙ new-IsRemembered.found;
            not_after = omega (arith, later, r.not_after);
            timeframe =
                ap (λ k. lookup k s'.timeframes_by_market) same
                ∙ new-IsRemembered.timeframe
                ∙ ap some (sym same-timeframe);
          }

      same-IsApart : IsApart a b
      same-IsApart =
          let later = opens_after-some b r.last _ scanned.later_open last-found in
          inr (same-timeframe, omega (arith, later, r.not_after))

    step-IsApart : IsApart a b × IsRemembered s' a
    step-IsApart = elim (same_or_other a b) [
      | inl same ↦ (same-IsApart same, same-IsRemembered same)
      | inr differ ↦ (inl differ, other-IsRemembered differ)
    ]

scan_bars-IsApart :
    (s : BarScan) (bars : List OhlctvBar) (a : OhlctvBar)
    → IsRemembered s a
    → Ensures (λ s'. All (IsApart a) bars) (scan_bars s bars)
unfolding scan_bars
scan_bars-IsApart s [] a r = tt
scan_bars-IsApart s (b ∷ bs) a r =
    Ensures-bind (IsScanned s b) (λ s'. All (IsApart a) (b ∷ bs)) (scan_bar s b) _
      (scan-IsScanned s b)
      λ s' scanned.
        let step = step-IsApart s b s' scanned a r in
        Ensures-mono (λ s''. All (IsApart a) bs) (λ s''. All (IsApart a) (b ∷ bs)) (scan_bars s' bs)
          (λ s'' rest. (step.0, rest)) (scan_bars-IsApart s' bs a step.1)

scan_bars-AllLater :
    (s : BarScan) (bars : List OhlctvBar) → Ensures (λ s'. AllLater IsApart bars) (scan_bars s bars)
unfolding scan_bars
scan_bars-AllLater s [] = tt
scan_bars-AllLater s (b ∷ bs) =
    Ensures-bind (IsScanned s b) (λ s'. AllLater IsApart (b ∷ bs)) (scan_bar s b) _
      (scan-IsScanned s b)
      λ s' scanned.
        Ensures-both s' (scan_bars s' bs)
          (scan_bars-IsApart s' bs b (new-IsRemembered s b s' scanned)) (scan_bars-AllLater s' bs)
  where
    Ensures-both :
        (s' : BarScan) (m : Result BarScan)
        → Ensures (λ s''. All (IsApart b) bs) m
        → Ensures (λ s''. AllLater IsApart bs) m
        → Ensures (λ s''. AllLater IsApart (b ∷ bs)) m
    Ensures-both s' (ok x) first rest = (first, rest)
    Ensures-both s' (err e) first rest = tt

-- Accepted bars do not overlap: where the validation of the bars returns, any two of them are of
-- different markets, or of one timeframe, and the one that stands first closes no later than the other
-- opens.
pub safe_bars-IsApart :
    (bars : List OhlctvBar) {scan : BarScan}
    → validate_bars_are_safe bars ≡ ok scan
    → AllLater IsApart bars
unfolding validate_bars_are_safe
safe_bars-IsApart bars h =
    Ensures_elim (λ s. AllLater IsApart bars) (scan_bars empty_scan bars)
      (scan_bars-AllLater empty_scan bars) h
