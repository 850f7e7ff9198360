-- ===== src/KillSwitch/Snapshot.antt =====
-- `load_snapshot` of risk/kill_switch.py against its contract: the most restrictive of the newest
-- states of the evaluated scopes, and unknown where there is none.
use ta_model_v.Base.{
  Bool, true, false, is_some, List, [], ◌∷◌, ◌≡◌, ◌⊎◌, inl, inr, refl, ◌≤◌, arith, if◌then◌else◌,
  sym, ap, ◌∙◌, Option-cases, ltb,
}
use ta_model_v.Base.Dict.{lookup}
use ta_model_v.Base.Equality.{string_eq, pair_eq, option_eq}
use mathlib.Core.Path.{subst}
use ta_model_v.Base.Sort.{sort-is_nonempty}
use ta_model_v.Contracts.Result.{Result, ok, Timestamp}
use ta_model_v.Contracts.KillSwitch.{
  ScopeKey, KillSwitchScope, KillSwitchState, unknown_fail_closed, key, scope_type_eq,
  KillSwitchRecord, severity, KillSwitchSnapshot, make_kill_switch_snapshot,
  make_unknown_kill_switch_snapshot,
}
use ta_model_v.KillSwitch.Store.{
  StoreFile, absent, unusable, not_an_object, undecodable, stored, by_record_id,
  latest_records_by_scope, matching_records, is_evaluated, most_severe, loaded, snapshot_of,
  load_records, load_snapshot,
}
use ta_model_v.Base.Among.{Among}
use ta_model_v.KillSwitch.Latest.{IsNewest}
use ta_model_v.KillSwitch.Newest.{latest-IsNewest, latest_is_some}
use ta_model_v.KillSwitch.Reading.{latest-IsMatch, match_has}

pub none_is_some : (true ≡ false) → ⊥
none_is_some e = ground arith

most_severe-Among :
    (best : KillSwitchRecord) (rs : List KillSwitchRecord) → Among (most_severe best rs) (best ∷ rs)
unfolding most_severe
most_severe-Among best [] = inl refl
most_severe-Among best (r ∷ rs) = ground (
  arith,
  most_severe-Among (if ltb (severity best.new_state) (severity r.new_state) then r else best) rs,
)

most_severe-first :
    (best : KillSwitchRecord) (rs : List KillSwitchRecord)
    → severity best.new_state ≤ severity (most_severe best rs).new_state
unfolding most_severe
most_severe-first best [] = omega arith
most_severe-first best (r ∷ rs) = ground (
  arith,
  most_severe-first (if ltb (severity best.new_state) (severity r.new_state) then r else best) rs,
)

most_severe-above :
    (best : KillSwitchRecord) (rs : List KillSwitchRecord) (x : KillSwitchRecord)
    → Among x (best ∷ rs)
    → severity x.new_state ≤ severity (most_severe best rs).new_state
unfolding most_severe
most_severe-above best rs x (inl e) = ground (arith, e, most_severe-first best rs)
most_severe-above best [] x (inr i) = absurd i
most_severe-above best (r ∷ rs) x (inr (inl e)) = ground (
  arith,
  e,
  most_severe-first (if ltb (severity best.new_state) (severity r.new_state) then r else best) rs,
)
most_severe-above best (r ∷ rs) x (inr (inr i)) =
    most_severe-above (if ltb (severity best.new_state) (severity r.new_state) then r else best) rs
      x (inr i)

module _ (log : List KillSwitchRecord) (scopes : List KillSwitchScope) where
  -- A newest record of an evaluated scope.
  pub record IsCurrent (r : KillSwitchRecord) : Type 0 where
    pub scope_key : ScopeKey
    pub evaluated : is_evaluated scopes scope_key ≡ true
    pub newest : IsNewest scope_key r log

  -- A current record of the scope of `x` that is not more severe than the state.
  pub record IsCovered (state : KillSwitchState) (x : KillSwitchRecord) : Type 0 where
    pub current : KillSwitchRecord
    pub newest : IsNewest (key x.scope) current log
    pub covered : severity current.new_state ≤ severity state

  -- What the state of a snapshot promises for the evaluated scopes: it is as severe as the current
  -- state of every scope that has a record, and it is one of these states, or else unknown, and then
  -- no evaluated scope has a record.
  pub record IsMostRestrictive (state : KillSwitchState) : Type 0 where
    pub covers :
        (x : KillSwitchRecord)
        → Among x log
        → is_evaluated scopes (key x.scope) ≡ true
        → IsCovered state x
    pub attained :
        ((r : KillSwitchRecord) × IsCurrent r × (r.new_state ≡ state))
        ⊎ ((state ≡ unknown_fail_closed)
            × ((x : KillSwitchRecord) → Among x log → is_evaluated scopes (key x.scope) ≡ true → ⊥))

  -- The matching record of the scope of a record.
  record HasMatch (x : KillSwitchRecord) : Type 0 where
    current : KillSwitchRecord
    newest : IsNewest (key x.scope) current log
    matched : Among current (matching_records (latest_records_by_scope log) scopes)

  match_of :
      (x : KillSwitchRecord) → Among x log → is_evaluated scopes (key x.scope) ≡ true → HasMatch x
  match_of x i e = elim (Option-cases (lookup (key x.scope) (latest_records_by_scope log))) [
    | inl h ↦ absurd (none_is_some (sym (latest_is_some log x i) ∙ ap is_some h))
    | inr h ↦ record {
      current = h.0;
      newest = latest-IsNewest log (key x.scope) {r = h.0} h.1;
      matched = match_has log scopes (key x.scope) {r = h.0} h.1 e;
    }
  ]

  match-IsCurrent :
      (r : KillSwitchRecord)
      → Among r (matching_records (latest_records_by_scope log) scopes)
      → IsCurrent r
  match-IsCurrent r i =
      let m = latest-IsMatch log scopes r i in
      record {
        scope_key = m.scope_key;
        evaluated = m.evaluated;
        newest = latest-IsNewest log m.scope_key {r = r} m.found;
      }

  -- A loaded snapshot: it is one, and it is the most restrictive.
  abbrev pub IsLoaded : Result KillSwitchSnapshot → Type 0
  IsLoaded result = (s : KillSwitchSnapshot) × (result ≡ ok s) × IsMostRestrictive s.active_state

  snapshot_of_nil :
      (at : Timestamp)
      → matching_records (latest_records_by_scope log) scopes ≡ []
      → IsLoaded (snapshot_of at scopes [])
  unfolding snapshot_of make_kill_switch_snapshot make_unknown_kill_switch_snapshot
  snapshot_of_nil at h =
      let no_match =
        λ (x : KillSwitchRecord) (i : Among x log) (e : is_evaluated scopes (key x.scope) ≡ true).
          subst (Among (match_of x i e).current) h (match_of x i e).matched in
      (
        _,
        refl,
        record { covers = λ x i e. absurd (no_match x i e); attained = inr (refl, no_match) },
      )

  snapshot_of_cons :
      (at : Timestamp) (r : KillSwitchRecord) (rs : List KillSwitchRecord)
      → matching_records (latest_records_by_scope log) scopes ≡ r ∷ rs
      → IsLoaded (snapshot_of at scopes (r ∷ rs))
  unfolding snapshot_of make_kill_switch_snapshot
  snapshot_of_cons at r rs h = (
    loaded at scopes r rs,
    ground (arith, sort-is_nonempty by_record_id (r ∷ []) rs refl),
    record {
      covers = λ x i e.
          let m = match_of x i e in
          record {
            current = m.current;
            newest = m.newest;
            covered = most_severe-above r rs m.current (subst (Among m.current) h m.matched);
          };
      attained = inl (
        most_severe r rs,
        match-IsCurrent (most_severe r rs)
            (subst (Among (most_severe r rs)) (sym h) (most_severe-Among r rs)),
        refl,
      );
    },
  )

by_matches :
    (log : List KillSwitchRecord) (scopes : List KillSwitchScope) (at : Timestamp)
    (rs : List KillSwitchRecord)
    → matching_records (latest_records_by_scope log) scopes ≡ rs
    → IsLoaded log scopes (snapshot_of at scopes rs)
by_matches log scopes at [] = snapshot_of_nil log scopes at
by_matches log scopes at (r ∷ rs) = snapshot_of_cons log scopes at r rs

-- `snapshot_of` for the matching records.
snapshot_of-IsLoaded :
    (log : List KillSwitchRecord) (scopes : List KillSwitchScope) (at : Timestamp)
    → IsLoaded log scopes
        (snapshot_of at scopes (matching_records (latest_records_by_scope log) scopes))
snapshot_of-IsLoaded log scopes at =
    by_matches log scopes at (matching_records (latest_records_by_scope log) scopes) refl

-- The records that a file gives; an unusable file and an absent one give none.
abbrev pub logged : StoreFile → List KillSwitchRecord
logged absent = []
logged unusable = []
logged not_an_object = []
logged undecodable = []
logged (stored log) = log

-- Whether reading the file raises no exception: it is no JSON value other than an object, and it can be
-- decoded.
abbrev pub is_readable : StoreFile → Bool
is_readable not_an_object = false
is_readable undecodable = false
is_readable _ = true

unknown-IsMostRestrictive :
    (scopes : List KillSwitchScope) → IsMostRestrictive [] scopes unknown_fail_closed
unknown-IsMostRestrictive scopes = record {
  covers = λ x i e. absurd i;
  attained = inr (refl, λ x i e. i);
}

-- Unless the file cannot be decoded (it is not UTF-8, or has an integer of too many digits) or is a JSON
-- value other than an object, a snapshot is returned. Its state is as
-- severe as the newest state of each evaluated scope (the global one included) that has a readable
-- record, and it is the newest state of one of them; where none has a record it is unknown.
pub snapshot_most_restrictive :
    (file : StoreFile) (at : Timestamp) (scopes : List KillSwitchScope)
    → is_readable file ≡ true
    → IsLoaded (logged file) scopes (load_snapshot file at scopes)
unfolding load_snapshot load_records make_kill_switch_snapshot make_unknown_kill_switch_snapshot
snapshot_most_restrictive absent at scopes h = (_, refl, unknown-IsMostRestrictive scopes)
snapshot_most_restrictive unusable at scopes h = (_, refl, unknown-IsMostRestrictive scopes)
snapshot_most_restrictive not_an_object at scopes h = cc
snapshot_most_restrictive undecodable at scopes h = cc
snapshot_most_restrictive (stored []) at scopes h = (_, refl, unknown-IsMostRestrictive scopes)
snapshot_most_restrictive (stored (r ∷ rs)) at scopes h = snapshot_of-IsLoaded (r ∷ rs) scopes at

readable_of_load :
    (file : StoreFile) (at : Timestamp) (scopes : List KillSwitchScope) {s : KillSwitchSnapshot}
    → load_snapshot file at scopes ≡ ok s
    → is_readable file ≡ true
unfolding load_snapshot
readable_of_load absent at scopes read = refl
readable_of_load unusable at scopes read = refl
readable_of_load not_an_object at scopes read = cc
readable_of_load undecodable at scopes read = cc
readable_of_load (stored log) at scopes read = refl

same_snapshot :
    {s t : KillSwitchSnapshot} → ◌≡◌ {A = Result KillSwitchSnapshot} (ok s) (ok t) → s ≡ t
same_snapshot e = cc e

-- A snapshot that is returned is the most restrictive.
pub load-IsMostRestrictive :
    (file : StoreFile) (at : Timestamp) (scopes : List KillSwitchScope) {s : KillSwitchSnapshot}
    → load_snapshot file at scopes ≡ ok s
    → IsMostRestrictive (logged file) scopes s.active_state
load-IsMostRestrictive file at scopes {s} read =
    let l = snapshot_most_restrictive file at scopes (readable_of_load file at scopes read) in
    subst (λ (x : KillSwitchSnapshot). IsMostRestrictive (logged file) scopes x.active_state)
      (same_snapshot (sym l.1 ∙ read)) l.2
