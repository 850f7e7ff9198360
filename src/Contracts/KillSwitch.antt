-- ===== src/Contracts/KillSwitch.antt =====
-- Kill-switch scopes, transition records and snapshots (contracts/risk.py). The identifier of a
-- record is a digest of its other fields (`build_kill_switch_record_id`), a parameter here.
use ta_model_v.Base.{
  ℕ, String, Bool, true, false, Option, List, [], is_some, is_nonempty, not, ◌&&◌, ◌||◌, ◌≡◌, ◌↔◌,
  arith,
}
use ta_model_v.Base.Equality.{Eq, string_eq, pair_eq, option_eq}
use ta_model_v.Contracts.Result.{Timestamp, Result, ok, require, ◌>>◌, validation_error}
use ta_model_v.Contracts.Text.{is_non_empty_string, is_canonical_id, is_canonical_id_or_none}

pub data KillSwitchScopeType : Type 0 where
  global account venue instrument strategy : KillSwitchScopeType

pub data KillSwitchState : Type 0 where
  unknown_fail_closed clear soft_limited pause_new_orders reduce_only cancel_only halted :
      KillSwitchState

pub data KillSwitchTransitionSource : Type 0 where
  manual automated : KillSwitchTransitionSource

abbrev pub scope_type_beq : KillSwitchScopeType → KillSwitchScopeType → Bool
scope_type_beq global global = true
scope_type_beq account account = true
scope_type_beq venue venue = true
scope_type_beq instrument instrument = true
scope_type_beq strategy strategy = true
scope_type_beq _ _ = false

pub scope_type_beq_iff : (a b : KillSwitchScopeType) → (scope_type_beq a b ≡ true) ↔ (a ≡ b)
scope_type_beq_iff a b = ground arith

instance abbrev pub scope_type_eq : Eq KillSwitchScopeType
scope_type_eq = record { beq = scope_type_beq; beq_iff = scope_type_beq_iff }

-- The severity tables of risk/engine.py and risk/kill_switch.py, which agree.
unfoldable pub severity : KillSwitchState → ℕ
severity clear = 0
severity soft_limited = 1
severity pause_new_orders = 2
severity reduce_only = 3
severity cancel_only = 4
severity halted = 5
severity unknown_fail_closed = 6

pub record KillSwitchScope : Type 0 where
  pub scope_type : KillSwitchScopeType
  pub scope_id : Option String

abbrev pub ScopeKey : Type 0
ScopeKey = KillSwitchScopeType × Option String

-- `KillSwitchScope.key`
abbrev pub key : KillSwitchScope → ScopeKey
key s = (s.scope_type, s.scope_id)

-- The validator `scope_id_matches_scope_type`.
abbrev pub scope_id_fits : KillSwitchScopeType → Option String → Bool
scope_id_fits global id = not (is_some id)
scope_id_fits _ id = is_some id

unfoldable pub make_kill_switch_scope : KillSwitchScope → Result KillSwitchScope
make_kill_switch_scope s = do
  require (scope_id_fits s.scope_type s.scope_id)
      (validation_error "scope_id must fit the scope type")
  ok s

-- What a transition record says, and what its identifier is a digest of.
pub record Transition : Type 0 where
  pub scope : KillSwitchScope
  pub prior_state : KillSwitchState
  pub new_state : KillSwitchState
  pub actor : String
  pub actor_role : String
  pub transitioned_at : Timestamp
  pub reason : String
  pub cancel_open_orders : Bool
  pub source : KillSwitchTransitionSource
  pub linked_incident_id : Option String

pub record KillSwitchRecord : Type 0 where
  pub record_id : String
  pub transition : Transition
  pub open transition use *

-- The text fields of a record. The identifier is a digest of the texts as they are given, so a text that
-- pydantic strips makes the validator of the identifier raise.
unfoldable pub transition_is_valid : Transition → Bool
unfolding is_non_empty_string is_canonical_id
transition_is_valid t =
    is_non_empty_string t.actor
    && is_non_empty_string t.actor_role
    && is_non_empty_string t.reason
    && is_canonical_id_or_none t.linked_incident_id

unfoldable pub make_kill_switch_record :
    (Transition → String) → Transition → Result KillSwitchRecord
make_kill_switch_record digest t = do
  require (transition_is_valid t) (validation_error "invalid kill-switch record")
  ok (record { record_id = digest t; transition = t })

pub record KillSwitchSnapshot : Type 0 where
  pub evaluated_at : Timestamp
  pub evaluated_scopes : List KillSwitchScope
  pub active_state : KillSwitchState
  pub active_records : List KillSwitchRecord
  pub store_available : Bool
  pub reason : String

abbrev pub is_unknown : KillSwitchState → Bool
is_unknown unknown_fail_closed = true
is_unknown _ = false

-- `KillSwitchSnapshot(...)`: a state other than unknown rests on an active record.
unfoldable pub make_kill_switch_snapshot : KillSwitchSnapshot → Result KillSwitchSnapshot
make_kill_switch_snapshot s = do
  require (is_unknown s.active_state || is_nonempty s.active_records)
      (validation_error "non-unknown kill-switch snapshot requires an active record")
  ok s

unfoldable pub make_unknown_kill_switch_snapshot :
    Timestamp → List KillSwitchScope → Bool → String → Result KillSwitchSnapshot
unfolding make_kill_switch_snapshot
make_unknown_kill_switch_snapshot evaluated_at evaluated_scopes store_available reason =
    make_kill_switch_snapshot (record {
      evaluated_at = evaluated_at;
      evaluated_scopes = evaluated_scopes;
      active_state = unknown_fail_closed;
      active_records = [];
      store_available = store_available;
      reason = reason;
    })
