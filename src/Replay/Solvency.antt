-- ===== src/Replay/Solvency.antt =====
-- No balance of the simulated account goes below zero (simulation/replay.py).
use ta_model_v.Base.{
  Bool, true, false, Option, none, some, [], ◌∷◌, All, if◌then◌else◌, ◌≡◌, refl, sym, ◌∙◌, arith,
}
use mathlib.Core.Path.{subst}
use ta_model_v.Base.Dict.{insert}
use ta_model_v.Base.Distinct.{distinct, same_key, distinct-insert}
use ta_model_v.Base.Equality.{string_eq, pair_eq}
use ta_model_v.Decimal.{Decimal, of_nat, literal}
use ta_model_v.Decimal
use ta_model_v.Decimal.Rounding.{lt-sub-zero}
use ta_model_v.Decimal.Sign.{IsNonneg, add-IsNonneg}
use ta_model_v.Contracts.Result.{ok}
use ta_model_v.Contracts.Instrument.{Instrument}
use ta_model_v.Contracts.Order.{OrderSide, buy, sell}
use ta_model_v.Contracts.ReplayResult.{
  ReplayRejectReason, insufficient_cash, insufficient_inventory, ReplayOrderResult,
}
use ta_model_v.Contracts.Simulation.{BalanceKey}
use ta_model_v.Replay.Draft.{ReplayDigests, no_trace}
use ta_model_v.Replay.Metadata.{instrument_of}
use ta_model_v.Replay.Settle.{
  Venues, Balances, Outcome, balance_of, debit, leave, settle_buy, settle_sell, settle, settle_for,
  apply_balance_or_reject,
}
use ta_model_v.Replay.Rule.{IsUnfilled, leave-IsUnfilled}
use ta_model_v.Contracts.Ensures.{Ensures, Ensures-mono}

-- Every balance passes `>= 0`.
abbrev pub AllNonneg : Balances → Type 0
AllNonneg balances = All (λ e. IsNonneg e.1) balances

-- That, and one balance for each venue and asset.
unfoldable pub IsSolvent : Balances → Type 0
IsSolvent balances = AllNonneg balances × (distinct same_key balances ≡ true)

insert-AllNonneg :
    (key : BalanceKey) (d : Decimal) (balances : Balances)
    → IsNonneg d
    → AllNonneg balances
    → AllNonneg (insert key d balances)
insert-AllNonneg key d [] h s = (h, tt)
insert-AllNonneg key d ((k, e) ∷ rest) h s = ground (arith, insert-AllNonneg key d rest h)

pub insert-IsSolvent :
    (key : BalanceKey) (d : Decimal) (balances : Balances)
    → IsNonneg d
    → IsSolvent balances
    → IsSolvent (insert key d balances)
unfolding IsSolvent
insert-IsSolvent key d balances h s =
    (insert-AllNonneg key d balances h s.0, distinct-insert key d balances s.1)

lookup-AllNonneg :
    (key : BalanceKey) (balances : Balances)
    → AllNonneg balances
    → IsNonneg (balance_of balances key)
unfolding Decimal.lt
lookup-AllNonneg key [] s = refl
lookup-AllNonneg key ((k, e) ∷ rest) s = ground (arith, lookup-AllNonneg key rest)

lookup-IsNonneg :
    (key : BalanceKey) (balances : Balances)
    → IsSolvent balances
    → IsNonneg (balance_of balances key)
unfolding IsSolvent
lookup-IsNonneg key balances s = lookup-AllNonneg key balances s.0

-- What the settlement needs of a result.
pub record IsSettleable (r : ReplayOrderResult) : Type 0 where
  pub quantity : IsNonneg r.filled_quantity
  pub proceeds :
      (quote : Decimal)
      → IsNonneg quote
      → IsNonneg
          (Decimal.sub (Decimal.add quote r.attribution.effective_notional) r.attribution.fee_cost)

module _ (digests : ReplayDigests) (r : ReplayOrderResult) (s : IsSettleable r)
    (balances : Balances) (solvent : IsSolvent balances) where
  unfilled-IsSolvent : (o : Outcome) → IsUnfilled r.intent balances o → IsSolvent o.1
  unfilled-IsSolvent o u = subst IsSolvent (sym u.same_balances) solvent

  ladder :
      (b : Bool) (reason : ReplayRejectReason) (after : Balances)
      → (b ≡ false → IsSolvent after)
      → Ensures
          (λ o. IsSolvent o.1)
          (if b then leave digests r.intent reason no_trace balances else ok (r, after))
  ladder true reason after h =
      Ensures-mono (IsUnfilled r.intent balances) (λ o. IsSolvent o.1)
        (leave digests r.intent reason no_trace balances) unfilled-IsSolvent
        (leave-IsUnfilled digests r.intent reason no_trace balances)
  ladder false reason after h = h refl

  settle-IsSolvent :
      (side : OrderSide) (base quote : BalanceKey)
      → Ensures (λ o. IsSolvent o.1) (settle side digests r base quote balances)
  unfolding settle_buy settle_sell
  settle-IsSolvent buy base quote = ladder _ insufficient_cash _ λ enough.
      insert-IsSolvent base _ _
        (add-IsNonneg (balance_of balances base) r.filled_quantity
          (lookup-IsNonneg base balances solvent) s.quantity)
        (insert-IsSolvent quote _ balances
          (lt-sub-zero (balance_of balances quote) (debit r) ∙ enough) solvent)
  settle-IsSolvent sell base quote = ladder _ insufficient_inventory _ λ enough.
      insert-IsSolvent quote _ _
        (s.proceeds (balance_of balances quote) (lookup-IsNonneg quote balances solvent))
        (insert-IsSolvent base _ balances
          (lt-sub-zero (balance_of balances base) r.filled_quantity ∙ enough) solvent)

  settle_for-IsSolvent :
      (i : Option Instrument) → Ensures (λ o. IsSolvent o.1) (settle_for digests r i balances)
  settle_for-IsSolvent none = tt
  settle_for-IsSolvent (some i) = settle-IsSolvent r.intent.side _ _

  pub apply-IsSolvent :
      (venues : Option Venues)
      → Ensures (λ o. IsSolvent o.1) (apply_balance_or_reject digests venues r balances)
  unfolding apply_balance_or_reject
  apply-IsSolvent none = solvent
  apply-IsSolvent (some v) = settle_for-IsSolvent (instrument_of v.snapshot r.intent)
