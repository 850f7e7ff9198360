-- ===== src/KillSwitch/Store.antt =====
-- `FileKillSwitchStateStore` of risk/kill_switch.py.
use ta_model_v.Base.Text.{text_lt}
use ta_model_v.Base.{
  String, Bool, true, false, Option, none, some, List, [], ◌∷◌, ◌++◌, filter, any, ltb, ◌==◌, ◌&&◌,
  ◌||◌, if◌then◌else◌,
}
use ta_model_v.Base.Dict.{Dict, lookup, insert}
use ta_model_v.Base.Equality.{eqb, string_eq, pair_eq, option_eq}
use ta_model_v.Base.Sort.{sorted}
use ta_model_v.Contracts.Result.{Timestamp, Result, ok, err, attribute_error, value_error, ◌>>=◌}
use ta_model_v.Contracts.KillSwitch.{
  global, KillSwitchState, unknown_fail_closed, severity, KillSwitchScope, ScopeKey, key,
  scope_type_eq, Transition, KillSwitchRecord, make_kill_switch_record, KillSwitchSnapshot,
  make_kill_switch_snapshot, make_unknown_kill_switch_snapshot,
}

-- The file at the store's path.
pub data StoreFile : Type 0 where
  absent unusable not_an_object undecodable : StoreFile
  stored : List KillSwitchRecord → StoreFile

-- `_read_records`: an absent file holds no record and an unusable one gives `None`. On a JSON value
-- that is not an object, `payload.get` raises an exception that is not caught; so does `read_text` on
-- a file that is not UTF-8 (`UnicodeDecodeError`), and `json.loads` on an integer of too many digits:
-- these are `ValueError`s but no `JSONDecodeError`.
abbrev pub read_records : StoreFile → Result (Option (List KillSwitchRecord))
read_records absent = ok (some [])
read_records unusable = ok none
read_records not_an_object = err (attribute_error "object has no attribute 'get'")
read_records undecodable = err (value_error "the file cannot be decoded")
read_records (stored records) = ok (some records)

-- The order of the tuples `(transitioned_at, record_id)`.
abbrev pub is_earlier : KillSwitchRecord → KillSwitchRecord → Bool
is_earlier a b =
    ltb a.transitioned_at b.transitioned_at
    || a.transitioned_at == b.transitioned_at && text_lt a.record_id b.record_id

-- The loop of `_latest_records_by_scope`.
unfoldable pub fold_latest :
    Dict ScopeKey KillSwitchRecord → List KillSwitchRecord → Dict ScopeKey KillSwitchRecord
fold_latest latest [] = latest
fold_latest latest (r ∷ rs) = fold_latest (insert (key r.scope) r latest) rs

unfoldable pub latest_records_by_scope : List KillSwitchRecord → Dict ScopeKey KillSwitchRecord
latest_records_by_scope records = fold_latest [] (sorted is_earlier records)

-- `key in keys`, for the keys of the evaluated scopes and the global key.
abbrev pub is_evaluated : List KillSwitchScope → ScopeKey → Bool
is_evaluated scopes k = any (λ s. eqb (key s) k) scopes || eqb (global, none) k

abbrev pub values {ℓ κ} : {K : Type ℓ} {V : Type κ} → List (K × V) → List V
values [] = []
values ((k, v) ∷ d) = v ∷ values d

unfoldable pub matching_records :
    Dict ScopeKey KillSwitchRecord → List KillSwitchScope → List KillSwitchRecord
matching_records latest scopes = values (filter (λ e. is_evaluated scopes e.0) latest)

-- `max(records, key=severity)`, for a list that begins with `best`.
unfoldable pub most_severe : KillSwitchRecord → List KillSwitchRecord → KillSwitchRecord
most_severe best [] = best
most_severe best (r ∷ rs) =
    most_severe (if ltb (severity best.new_state) (severity r.new_state) then r else best) rs

abbrev pub by_record_id : KillSwitchRecord → KillSwitchRecord → Bool
by_record_id a b = text_lt a.record_id b.record_id

-- The snapshot of matching records that begin with `r`.
abbrev pub loaded :
    Timestamp → List KillSwitchScope → KillSwitchRecord → List KillSwitchRecord → KillSwitchSnapshot
loaded at scopes r rs = record {
  evaluated_at = at;
  evaluated_scopes = scopes;
  active_state = (most_severe r rs).new_state;
  active_records = sorted by_record_id (r ∷ rs);
  store_available = true;
  reason = "durable kill-switch state loaded";
}

-- The last part of `load_snapshot`, for the matching records.
unfoldable pub snapshot_of :
    Timestamp → List KillSwitchScope → List KillSwitchRecord → Result KillSwitchSnapshot
snapshot_of at scopes [] =
    make_unknown_kill_switch_snapshot at scopes true
      "no applicable kill-switch record for requested scopes"
snapshot_of at scopes (r ∷ rs) = make_kill_switch_snapshot (loaded at scopes r rs)

unfoldable pub load_records :
    Timestamp → List KillSwitchScope → Option (List KillSwitchRecord) → Result KillSwitchSnapshot
load_records at scopes none =
    make_unknown_kill_switch_snapshot at scopes false
      "durable kill-switch state unavailable or invalid"
load_records at scopes (some []) =
    make_unknown_kill_switch_snapshot at scopes true "durable kill-switch state uninitialized"
load_records at scopes (some (r ∷ rs)) =
    snapshot_of at scopes (matching_records (latest_records_by_scope (r ∷ rs)) scopes)

unfoldable pub load_snapshot :
    StoreFile → Timestamp → List KillSwitchScope → Result KillSwitchSnapshot
unfolding load_records
load_snapshot file at scopes = read_records file >>= load_records at scopes

-- `records or ()`
abbrev pub or_empty : Option (List KillSwitchRecord) → List KillSwitchRecord
or_empty none = []
or_empty (some records) = records

abbrev pub prior_of : Option KillSwitchRecord → KillSwitchState
prior_of none = unknown_fail_closed
prior_of (some r) = r.new_state

-- The record and the file that `transition` writes after the records of the old file.
unfoldable pub append_transition :
    (Transition → String)
    → Transition
    → List KillSwitchRecord
    → Result (StoreFile × KillSwitchRecord)
append_transition digest t records = do
  let prior = prior_of (lookup (key t.scope) (latest_records_by_scope records))
  r ← make_kill_switch_record digest (record t { prior_state = prior })
  ok (stored (records ++ (r ∷ [])), r)

-- `transition`: the arguments come as a `Transition` whose prior state is filled in here. The
-- digest stands for `build_kill_switch_record_id`. The file is replaced by the longer log.
unfoldable pub transition :
    (Transition → String) → StoreFile → Transition → Result (StoreFile × KillSwitchRecord)
transition digest file t = do
  records ← read_records file
  append_transition digest t (or_empty records)
