-- ===== src/KillSwitch/Examples.antt =====
-- A concrete log and concrete transitions: inputs of the tests.
use ta_model_v.Base.{ℕ, String, false, none, some, List, [], ◌∷◌, ◌++◌, ◌≡◌, refl}
use ta_model_v.Contracts.Result.{ok}
use ta_model_v.Contracts.KillSwitch
use ta_model_v.Contracts.KillSwitch.{
  KillSwitchState, KillSwitchScope, Transition, KillSwitchRecord, KillSwitchSnapshot,
  make_kill_switch_record, transition_is_valid, make_kill_switch_snapshot,
  make_unknown_kill_switch_snapshot, severity,
}
use ta_model_v.KillSwitch.Store.{
  StoreFile, unusable, stored, loaded, fold_latest, latest_records_by_scope, matching_records,
  most_severe, snapshot_of, load_records, load_snapshot, append_transition, transition,
}

abbrev pub digest : Transition → String
digest t = t.reason

abbrev pub global_scope : KillSwitchScope
global_scope = record { scope_type = KillSwitch.global; scope_id = none }

abbrev pub account_scope : KillSwitchScope
account_scope = record { scope_type = KillSwitch.account; scope_id = some "A1" }

-- A change of a scope's state at a time, named by its reason.
abbrev pub change : KillSwitchScope → KillSwitchState → ℕ → String → Transition
change scope state at name = record {
  scope = scope;
  prior_state = KillSwitch.unknown_fail_closed;
  new_state = state;
  actor = "ops";
  actor_role = "operator";
  transitioned_at = at;
  reason = name;
  cancel_open_orders = false;
  source = KillSwitch.manual;
  linked_incident_id = none;
}

abbrev pub logged_change : KillSwitchScope → KillSwitchState → ℕ → String → KillSwitchRecord
logged_change scope state at name = record {
  record_id = name;
  transition = change scope state at name;
}

-- The account is clear and later limited; the global scope is clear, written out of order.
abbrev pub log : List KillSwitchRecord
log =
    logged_change account_scope KillSwitch.soft_limited 20 "limit"
    ∷ logged_change global_scope KillSwitch.clear 10 "start"
    ∷ logged_change account_scope KillSwitch.clear 11 "open"
    ∷ []

abbrev pub halt : Transition
halt = change global_scope KillSwitch.halted 30 "halt"

-- Names what the store computes with.
unfoldable pub storing : ℕ
unfolding fold_latest latest_records_by_scope matching_records most_severe snapshot_of load_records
    load_snapshot append_transition transition make_kill_switch_record transition_is_valid
    make_kill_switch_snapshot make_unknown_kill_switch_snapshot severity
storing = 0

-- The global scope goes from CLEAR to HALTED.
abbrev pub halted_record : KillSwitchRecord
halted_record = record {
  record_id = "halt";
  transition = record halt { prior_state = KillSwitch.clear };
}

abbrev pub halted_file : StoreFile
halted_file = stored (log ++ (halted_record ∷ []))

pub halt_run : transition digest (stored log) halt ≡ ok (halted_file, halted_record)
unfolding storing
halt_run = refl

abbrev pub halted_snapshot : KillSwitchSnapshot
halted_snapshot =
    loaded 50 (account_scope ∷ []) halted_record
      (logged_change account_scope KillSwitch.soft_limited 20 "limit" ∷ [])

pub halted_read : load_snapshot halted_file 50 (account_scope ∷ []) ≡ ok halted_snapshot
unfolding storing
halted_read = refl

-- The snapshot of an unusable file.
abbrev pub unknown_snapshot : KillSwitchSnapshot
unknown_snapshot = record {
  evaluated_at = 50;
  evaluated_scopes = account_scope ∷ [];
  active_state = KillSwitch.unknown_fail_closed;
  active_records = [];
  store_available = false;
  reason = "durable kill-switch state unavailable or invalid";
}

pub unknown_read : load_snapshot unusable 50 (account_scope ∷ []) ≡ ok unknown_snapshot
unfolding storing
unknown_read = refl
