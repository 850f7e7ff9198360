-- ===== src/Replay/Counts.antt =====
-- `build_rejection_counts` (contracts/simulation.py) counts every rejected or unfilled result.
use ta_model_v.Base.{
  ℕ, suc, ◌+◌, Bool, Option, none, some, List, [], ◌∷◌, map, if◌then◌else◌, ◌≡◌, refl, ap, arith,
}
use ta_model_v.Base.Dict.{Dict, lookup, insert}
use ta_model_v.Base.Sort.{insert_sorted, sort_from, sorted}
use ta_model_v.Contracts.ReplayResult.{
  ReplayRejectReason, reason_beq, reason_beq_iff, reason_eq, ReplayOrderResult,
  ReplayRejectionCount, count_of, count_reason, count_reasons, by_reason, build_rejection_counts,
}

-- One, where a result has the reason.
abbrev pub one_for : ReplayRejectReason → Option ReplayRejectReason → ℕ
one_for reason none = 0
one_for reason (some other) = if reason_beq reason other then 1 else 0

-- The number of results with the reason.
abbrev pub tally : ReplayRejectReason → List ReplayOrderResult → ℕ
tally reason [] = 0
tally reason (r ∷ rs) = one_for reason r.reason + tally reason rs

-- What the counts say of the reason.
abbrev pub counted : ReplayRejectReason → List ReplayRejectionCount → ℕ
counted reason [] = 0
counted reason (c ∷ cs) = (if reason_beq reason c.reason then c.count else 0) + counted reason cs

module _ (reason : ReplayRejectReason) where
  abbrev share : ReplayRejectReason × ℕ → ℕ
  share e = if reason_beq reason e.0 then e.1 else 0

  abbrev sum : Dict ReplayRejectReason ℕ → ℕ
  sum [] = 0
  sum (e ∷ es) = share e + sum es

  sum-insert :
      (k : ReplayRejectReason) (d : Dict ReplayRejectReason ℕ)
      → sum (insert k (suc (count_of (lookup k d))) d) ≡ one_for reason (some k) + sum d
  sum-insert k [] = omega arith
  sum-insert k ((j, n) ∷ d) = ground (arith, sum-insert k d, reason_beq_iff k j)

  sum-count_reason :
      (o : Option ReplayRejectReason) (d : Dict ReplayRejectReason ℕ)
      → sum (count_reason o d) ≡ one_for reason o + sum d
  sum-count_reason none d = omega arith
  sum-count_reason (some k) d = sum-insert k d

  sum-count_reasons :
      (d : Dict ReplayRejectReason ℕ) (rs : List ReplayOrderResult)
      → sum (count_reasons d rs) ≡ sum d + tally reason rs
  unfolding count_reasons
  sum-count_reasons d [] = omega arith
  sum-count_reasons d (r ∷ rs) =
      omega (arith, sum-count_reasons (count_reason r.reason d) rs, sum-count_reason r.reason d)

  sum-insert_sorted :
      (lt : ReplayRejectReason × ℕ → ReplayRejectReason × ℕ → Bool) (e : ReplayRejectReason × ℕ)
      (es : List (ReplayRejectReason × ℕ))
      → sum (insert_sorted lt e es) ≡ share e + sum es
  sum-insert_sorted lt e [] = refl
  sum-insert_sorted lt e (f ∷ fs) = ground (arith, sum-insert_sorted lt e fs)

  sum-sort_from :
      (lt : ReplayRejectReason × ℕ → ReplayRejectReason × ℕ → Bool)
      (acc es : List (ReplayRejectReason × ℕ))
      → sum (sort_from lt acc es) ≡ sum acc + sum es
  sum-sort_from lt acc [] = omega arith
  sum-sort_from lt acc (e ∷ es) =
      omega (arith, sum-sort_from lt (insert_sorted lt e acc) es, sum-insert_sorted lt e acc)

  counted-map :
      (es : List (ReplayRejectReason × ℕ))
      → counted reason (map (λ c. record { reason = c.0; count = c.1 }) es) ≡ sum es
  counted-map [] = refl
  counted-map (e ∷ es) = ap (λ n. share e + n) (counted-map es)

-- The counts are complete: for each reason, they have as many as there are results with that reason.
pub rejections_counted :
    (reason : ReplayRejectReason) (results : List ReplayOrderResult)
    → counted reason (build_rejection_counts results) ≡ tally reason results
unfolding build_rejection_counts
rejections_counted reason results =
    let entries = count_reasons [] results in
    omega (
      arith,
      counted-map reason (sorted by_reason entries),
      sum-sort_from reason by_reason [] entries,
      sum-count_reasons reason [] results,
    )
