-- ===== src/Contracts/Simulation.antt =====
-- Simulated accounts and execution-cost models (contracts/simulation.py).
use ta_model_v.Base.{ℕ, String, Bool, true, List, [], ◌∷◌, all, any, not, ◌&&◌, str_eq}
use ta_model_v.Base.Equality.{eqb, string_eq, pair_eq}
use ta_model_v.Decimal.{Decimal, of_nat, literal}
use ta_model_v.Decimal
use ta_model_v.Contracts.Result.{Result, ok, require, ◌>>◌, validation_error}
use ta_model_v.Contracts.Risk.{is_positive, is_nonneg}

pub record SimulatedBalance : Type 0 where
  pub account_id : String
  pub venue_id : String
  pub asset_id : String
  pub available : Decimal

pub record SimulatedAccountState : Type 0 where
  pub account_id : String
  pub balances : List SimulatedBalance

abbrev pub BalanceKey : Type 0
BalanceKey = String × String

abbrev pub balance_key : SimulatedBalance → BalanceKey
balance_key b = (b.venue_id, b.asset_id)

-- No key twice: the set `seen` of the validator.
unfoldable pub keys_are_unique : List SimulatedBalance → Bool
keys_are_unique [] = true
keys_are_unique (b ∷ bs) =
    not (any (λ c. eqb (balance_key b) (balance_key c)) bs) && keys_are_unique bs

-- `SimulatedBalance(...)` and `SimulatedAccountState(...)`, with the validator
-- `balances_are_unique_and_match_account`.
unfoldable pub account_state_is_valid : SimulatedAccountState → Bool
account_state_is_valid s =
    all (λ b. is_nonneg b.available) s.balances
    && all (λ b. str_eq b.account_id s.account_id) s.balances
    && keys_are_unique s.balances

unfoldable pub make_account_state : SimulatedAccountState → Result SimulatedAccountState
make_account_state s = do
  require (all (λ b. is_nonneg b.available) s.balances)
      (validation_error "available must not be negative")
  require (all (λ b. str_eq b.account_id s.account_id) s.balances)
      (validation_error "balance account_id must match simulated account state")
  require (keys_are_unique s.balances)
      (validation_error "duplicate simulated balance for venue_id/asset_id")
  ok s

pub record ExecutionCostModel : Type 0 where
  pub cost_model_id : String
  pub taker_fee_rate : Decimal
  pub spread_bps : Decimal
  pub slippage_bps : Decimal
  pub latency_bars : ℕ
  pub max_participation_rate : Decimal
  pub allow_partial_fills : Bool

-- The bounds of the fields and the validator, without the identity digest.
unfoldable pub cost_model_is_valid : ExecutionCostModel → Bool
cost_model_is_valid m =
    is_nonneg m.taker_fee_rate
    && Decimal.le m.taker_fee_rate (literal 5 2)
    && is_nonneg m.spread_bps
    && is_nonneg m.slippage_bps
    && is_positive m.max_participation_rate
    && Decimal.le m.max_participation_rate (of_nat 1)
    && Decimal.lt (Decimal.add m.spread_bps m.slippage_bps) (of_nat 10000)
