-- ===== src/Replay/Exact.antt =====
-- What a settled fill does to the balances (simulation/replay.py, `_apply_balance_or_reject`).
use ta_model_v.Base.{
  Bool, true, false, ◌≡◌, ◌≢◌, refl, sym, ap, ◌∙◌, ◌⊎◌, inl, inr, if◌then◌else◌, arith, Bool-cases,
}
use ta_model_v.Base.Dict.{insert, lookup-insert_self, lookup-insert_ne}
use ta_model_v.Base.Equality.{eqb, string_eq, pair_eq, pair_beq_iff}
use ta_model_v.Decimal.{Decimal}
use ta_model_v.Decimal
use ta_model_v.Contracts.Result.{ok}
use ta_model_v.Contracts.Ensures.{Ensures, Ensures-mono}
use ta_model_v.Contracts.Order.{OrderSide, buy, sell}
use ta_model_v.Contracts.ReplayResult.{
  ReplayRejectReason, insufficient_cash, insufficient_inventory, ReplayOrderResult,
}
use ta_model_v.Contracts.Simulation.{BalanceKey}
use ta_model_v.Replay.Draft.{ReplayDigests, no_trace}
use ta_model_v.Replay.Settle.{
  Balances, Outcome, available, balance_of, leave, settle_buy, settle_sell, settle,
}
use ta_model_v.Replay.Rule.{IsUnfilled, leave-IsUnfilled}

-- What the account holds of the base and of the quote asset after a fill.
abbrev pub base_after : OrderSide → ReplayOrderResult → Decimal → Decimal
base_after buy r base = Decimal.add base r.filled_quantity
base_after sell r base = Decimal.sub base r.filled_quantity

abbrev pub quote_after : OrderSide → ReplayOrderResult → Decimal → Decimal
quote_after buy r quote =
    Decimal.sub quote (Decimal.add r.attribution.effective_notional r.attribution.fee_cost)
quote_after sell r quote =
    Decimal.sub (Decimal.add quote r.attribution.effective_notional) r.attribution.fee_cost

-- The two balances move by the fill, and no other balance moves.
pub record IsSettled (side : OrderSide) (r : ReplayOrderResult) (base quote : BalanceKey)
    (before after : Balances) : Type 0 where
  pub base_moved : balance_of after base ≡ base_after side r (balance_of before base)
  pub quote_moved : balance_of after quote ≡ quote_after side r (balance_of before quote)
  pub others_kept :
      (key : BalanceKey)
      → (key ≡ base) ⊎ (key ≡ quote) ⊎ (balance_of after key ≡ balance_of before key)

-- Left unfilled with the balances as they were, or settled.
abbrev pub IsExact :
    OrderSide → ReplayOrderResult → BalanceKey → BalanceKey → Balances → Outcome → Type 0
IsExact side r base quote balances o =
    IsUnfilled r.intent balances o ⊎ ((o.0 ≡ r) × IsSettled side r base quote balances o.1)

same_or_other : (a b : BalanceKey) → (a ≡ b) ⊎ (a ≢ b)
same_or_other a b = elim (Bool-cases (eqb a b)) [
  | inl same ↦ inl ((pair_beq_iff a b).0 same)
  | inr differ ↦ inr λ e. ground (arith, differ, (pair_beq_iff a b).1 e)
]

-- A key is one of two, or keeps what it had.
kept_elsewhere :
    (base quote key : BalanceKey) (A : Type 0)
    → (key ≢ base → key ≢ quote → A)
    → (key ≡ base) ⊎ (key ≡ quote) ⊎ A
kept_elsewhere base quote key A h = elim (same_or_other key base) [
  | inl same ↦ inl same
  | inr b ↦ elim (same_or_other key quote) [ inl same ↦ inr (inl same) | inr q ↦ inr (inr (h b q)) ]
]

-- Two assignments to different keys.
module _ (k j : BalanceKey) (v w : Decimal) (balances : Balances) where
  abbrev written : Balances
  written = insert k v (insert j w balances)

  outer-written : balance_of written k ≡ v
  outer-written = ap available (lookup-insert_self k v (insert j w balances))

  inner-written : j ≢ k → balance_of written j ≡ w
  inner-written differ =
      ap available
        (lookup-insert_ne j k v (insert j w balances) differ ∙ lookup-insert_self j w balances)

  other-written :
      (key : BalanceKey) → key ≢ k → key ≢ j → balance_of written key ≡ balance_of balances key
  other-written key not_k not_j = ap available (
      lookup-insert_ne key k v (insert j w balances) not_k
      ∙ lookup-insert_ne key j w balances not_j)

module _ (digests : ReplayDigests) (r : ReplayOrderResult) (base quote : BalanceKey)
    (balances : Balances) where
  ladder :
      (side : OrderSide) (b : Bool) (reason : ReplayRejectReason) (after : Balances)
      → IsSettled side r base quote balances after
      → Ensures
          (IsExact side r base quote balances)
          (if b then leave digests r.intent reason no_trace balances else ok (r, after))
  ladder side true reason after h =
      Ensures-mono (IsUnfilled r.intent balances) (IsExact side r base quote balances)
        (leave digests r.intent reason no_trace balances) (λ o u. inl u)
        (leave-IsUnfilled digests r.intent reason no_trace balances)
  ladder side false reason after h = inr (refl, h)

  -- A settlement is exact: for different base and quote assets, it leaves the order unfilled and every
  -- balance as it was, or keeps the fill, moves the two balances by the filled quantity and by the
  -- notional with its fee, and moves no other balance.
  pub settle-IsExact :
      (side : OrderSide)
      → base ≢ quote
      → Ensures (IsExact side r base quote balances) (settle side digests r base quote balances)
  unfolding settle_buy settle_sell
  settle-IsExact buy differ = ladder buy _ insufficient_cash _ (record {
    base_moved = outer-written base quote _ _ balances;
    quote_moved = inner-written base quote _ _ balances (λ e. differ (sym e));
    others_kept =
        λ key. kept_elsewhere base quote key _ λ b q. other-written base quote _ _ balances key b q;
  })
  settle-IsExact sell differ = ladder sell _ insufficient_inventory _ (record {
    base_moved = inner-written quote base _ _ balances differ;
    quote_moved = outer-written quote base _ _ balances;
    others_kept =
        λ key. kept_elsewhere base quote key _ λ b q. other-written quote base _ _ balances key q b;
  })
