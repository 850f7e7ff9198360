-- ===== src/KillSwitch/Tests.antt =====
-- The store on a concrete log, and what the theorems say of it.
use ta_model_v.Base.{[], ◌∷◌, ◌≡◌, refl, ◌≤◌}
use ta_model_v.Base.Equality.{string_eq, pair_eq, option_eq}
use ta_model_v.Contracts.Result.{ok}
use ta_model_v.Contracts.KillSwitch
use ta_model_v.Contracts.KillSwitch.{
  KillSwitchState, Transition, KillSwitchRecord, KillSwitchSnapshot, key, scope_type_eq, severity,
}
use ta_model_v.KillSwitch.Examples.{
  digest, change, logged_change, account_scope, log, halt, halt_run, halted_snapshot, halted_read,
  storing,
}
use ta_model_v.KillSwitch.Store.{StoreFile, unusable, stored, load_snapshot, loaded, transition}
use ta_model_v.KillSwitch.Latest.{IsNewest}
use ta_model_v.KillSwitch.Newest.{latest-IsNewest}
use ta_model_v.KillSwitch.Snapshot.{IsLoaded, snapshot_most_restrictive}
use ta_model_v.KillSwitch.Writing.{
  IsAppended, transition_appends, transition_takes_effect, unusable_file_cleared,
}

-- The account's last state counts, whatever the order of the log.
latest-IsNewest_example :
    IsNewest
      (key account_scope)
      (logged_change account_scope KillSwitch.soft_limited 20 "limit")
      log
unfolding storing
latest-IsNewest_example = latest-IsNewest log (key account_scope) refl

snapshot_most_restrictive_example :
    IsLoaded log (account_scope ∷ []) (load_snapshot (stored log) 50 (account_scope ∷ []))
snapshot_most_restrictive_example =
    snapshot_most_restrictive (stored log) 50 (account_scope ∷ []) refl

transition_appends_example :
    (after : StoreFile) × (r : KillSwitchRecord) × (transition digest (stored log) halt
      ≡ ok (after, r))
    × IsAppended digest (stored log) after halt r
unfolding storing
transition_appends_example = transition_appends digest (stored log) halt refl refl

transition_takes_effect_example : severity KillSwitch.halted ≤ severity halted_snapshot.active_state
unfolding storing
transition_takes_effect_example =
    transition_takes_effect digest (stored log) halt halt_run 50 (account_scope ∷ [])
      {s = halted_snapshot} refl refl halted_read

-- An unusable file, then a transition of the account to CLEAR.
abbrev reopen : Transition
reopen = change account_scope KillSwitch.clear 40 "reopen"

abbrev reopened : KillSwitchRecord
reopened = record { record_id = "reopen"; transition = reopen }

reopen_run : transition digest unusable reopen ≡ ok (stored (reopened ∷ []), reopened)
unfolding storing
reopen_run = refl

abbrev reopened_snapshot : KillSwitchSnapshot
reopened_snapshot = loaded 50 (account_scope ∷ []) reopened []

reopened_read :
    load_snapshot (stored (reopened ∷ [])) 50 (account_scope ∷ []) ≡ ok reopened_snapshot
unfolding storing
reopened_read = refl

unusable_file_cleared_example : reopened_snapshot.active_state ≡ KillSwitch.clear
unusable_file_cleared_example =
    unusable_file_cleared digest unusable reopen reopen_run 50 (account_scope ∷ [])
      {s = reopened_snapshot} refl refl refl reopened_read
