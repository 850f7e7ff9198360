-- ===== src/Replay/Final.antt =====
-- `_balance_dict` and `_build_account_state` of simulation/replay.py: the balances that a replay starts
-- from, and the account state that it ends with.
use ta_model_v.Base.{
  String, Bool, true, Option, none, some, List, [], ◌∷◌, all, str_eq, ◌≡◌, refl, ◌∙◌, map, arith,
  eq_refl,
}
use ta_model_v.Base.Distinct.{
  distinct, same_key, same_key_symm, distinct-map, distinct-sorted, all-map, all-sorted,
}
use ta_model_v.Base.Dict.{insert}
use ta_model_v.Base.Equality.{eqb, string_eq, pair_eq}
use ta_model_v.Base.Sort.{sorted}
use ta_model_v.Contracts.Result.{ok}
use ta_model_v.Contracts.Bar.{OhlctvBar}
use ta_model_v.Contracts.Order.{OrderIntent}
use ta_model_v.Contracts.Risk.{is_nonneg}
use ta_model_v.Contracts.ReplayResult.{ReplayOrderResult}
use ta_model_v.Contracts.Simulation.{
  SimulatedBalance, SimulatedAccountState, ExecutionCostModel, balance_key, keys_are_unique,
  account_state_is_valid, make_account_state,
}
use ta_model_v.Replay.Draft.{ReplayDigests}
use ta_model_v.Replay.Settle.{Venues, Balances}
use ta_model_v.Replay.Run.{balances_from, balance_dict, replay_all, balance_lt, build_account_state}
use ta_model_v.Replay.Solvency.{AllNonneg, IsSolvent, insert-IsSolvent}
use ta_model_v.Replay.Solvent.{model_is_valid, replay_keeps_IsSolvent}

balances_from-IsSolvent :
    (balances : Balances) (bs : List SimulatedBalance)
    → all (λ b. is_nonneg b.available) bs ≡ true
    → IsSolvent balances
    → IsSolvent (balances_from balances bs)
unfolding balances_from
balances_from-IsSolvent balances [] h s = s
balances_from-IsSolvent balances (b ∷ bs) h s =
    balances_from-IsSolvent (insert (balance_key b) b.available balances) bs (ground arith)
      (insert-IsSolvent (balance_key b) b.available balances (ground arith) s)

empty-IsSolvent : IsSolvent []
unfolding IsSolvent
empty-IsSolvent = (tt, refl)

-- The account state, where there is one, passes its validator.
abbrev pub account_is_valid : Option Venues → Bool
account_is_valid none = true
account_is_valid (some v) = account_state_is_valid v.account_state

pub balance_dict-IsSolvent :
    (venues : Option Venues) → account_is_valid venues ≡ true → IsSolvent (balance_dict venues)
unfolding balance_dict account_state_is_valid
balance_dict-IsSolvent none h = empty-IsSolvent
balance_dict-IsSolvent (some v) h =
    balances_from-IsSolvent [] v.account_state.balances (ground arith) empty-IsSolvent

-- The entries as balances of an account.
abbrev listed : String → Balances → List SimulatedBalance
listed account_id balances =
    map
      (λ e. record {
        account_id = account_id;
        venue_id = (e.0).0;
        asset_id = (e.0).1;
        available = e.1;
      })
      (sorted balance_lt balances)

all-AllNonneg :
    (balances : Balances) → AllNonneg balances → all (λ e. is_nonneg e.1) balances ≡ true
all-AllNonneg [] s = refl
all-AllNonneg (e ∷ es) s = ground (arith, all-AllNonneg es)

listed-nonneg :
    (account_id : String) (balances : Balances)
    → AllNonneg balances
    → all (λ b. is_nonneg b.available) (listed account_id balances) ≡ true
listed-nonneg account_id balances s =
    all-map _ _ (sorted balance_lt balances)
    ∙ all-sorted balance_lt (λ e. is_nonneg e.1) balances
    ∙ all-AllNonneg balances s

all_held : {A : Type 0} (b : Bool) (xs : List A) → b ≡ true → all (λ x. b) xs ≡ true
all_held b [] h = refl
all_held b (x ∷ xs) h = ground (arith, all_held b xs h)

listed-accounts :
    (account_id : String) (balances : Balances)
    → all (λ b. str_eq b.account_id account_id) (listed account_id balances) ≡ true
listed-accounts account_id balances =
    all-map _ _ (sorted balance_lt balances)
    ∙ all_held (str_eq account_id account_id) (sorted balance_lt balances) (eq_refl account_id)

keys-distinct :
    (bs : List SimulatedBalance)
    → keys_are_unique bs ≡ distinct (λ b c. eqb (balance_key b) (balance_key c)) bs
unfolding keys_are_unique
keys-distinct [] = refl
keys-distinct (b ∷ bs) = rw (keys-distinct bs) refl

listed_unique :
    (account_id : String) (balances : Balances)
    → distinct same_key balances ≡ true
    → keys_are_unique (listed account_id balances) ≡ true
listed_unique account_id balances h =
    keys-distinct (listed account_id balances)
    ∙ distinct-map _ _ (sorted balance_lt balances)
    ∙ distinct-sorted balance_lt same_key same_key_symm balances h

abbrev pub final_state_of : Option Venues → Balances → Option SimulatedAccountState
final_state_of none balances = none
final_state_of (some v) balances = some (record {
  account_id = v.account_state.account_id;
  balances = listed v.account_state.account_id balances;
})

pub build-IsSolvent :
    (venues : Option Venues) (balances : Balances)
    → IsSolvent balances
    → build_account_state venues balances ≡ ok (final_state_of venues balances)
unfolding build_account_state make_account_state IsSolvent
build-IsSolvent none balances s = refl
build-IsSolvent (some v) balances s =
    let account_id = v.account_state.account_id in
    rw
      (
        listed-nonneg account_id balances s.0,
        listed-accounts account_id balances,
        listed_unique account_id balances s.1,
      )
      refl

-- The final account state is always accepted: where the starting account state and the cost model pass
-- their validators and the loop over the intents returns, `_build_account_state` raises no error, and
-- returns the balances the loop ends with, sorted, as the account's.
pub final_state_is_accepted :
    (digests : ReplayDigests) (venues : Option Venues) (cost_model : Option ExecutionCostModel)
    (bars : List OhlctvBar) (intents : List OrderIntent) (results : List ReplayOrderResult)
    (final : Balances)
    → account_is_valid venues ≡ true
    → model_is_valid cost_model ≡ true
    → replay_all digests venues cost_model bars intents (balance_dict venues) ≡ ok (results, final)
    → build_account_state venues final ≡ ok (final_state_of venues final)
final_state_is_accepted digests venues cost_model bars intents results final account model
      returned =
    build-IsSolvent venues final (
      replay_keeps_IsSolvent digests venues cost_model model bars intents (balance_dict venues)
        final results (balance_dict-IsSolvent venues account) returned)
