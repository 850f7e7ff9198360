-- ===== src/KillSwitch/Reading.antt =====
-- `_matching_records` of risk/kill_switch.py: the latest records of the evaluated scopes.
use ta_model_v.Base.{true, none, some, List, [], ◌∷◌, ◌≡◌, ◌⊎◌, inl, inr, arith, ap, Bool-cases}
use ta_model_v.Base.Dict.{Dict, lookup, insert, lookup-insert_ne}
use ta_model_v.Base.Sort.{sorted}
use ta_model_v.Base.Equality.{Eq, eqb, string_eq, pair_eq, option_eq}
use ta_model_v.Contracts.KillSwitch.{
  ScopeKey, KillSwitchScope, key, scope_type_eq, KillSwitchRecord,
}
use ta_model_v.KillSwitch.Store.{
  is_earlier, fold_latest, latest_records_by_scope, matching_records, is_evaluated,
}
use ta_model_v.Base.Among.{Among}

-- No key stands twice.
IsDict : Dict ScopeKey KillSwitchRecord → Type 0
IsDict [] = Unit
IsDict ((k, r) ∷ d) = (lookup k d ≡ none) × IsDict d

insert-IsDict :
    (k : ScopeKey) (r : KillSwitchRecord) (d : Dict ScopeKey KillSwitchRecord)
    → IsDict d
    → IsDict (insert k r d)
unfolding IsDict
insert-IsDict k r [] h = ground arith
insert-IsDict k r ((j, s) ∷ d) h =
    ground (arith, Eq.beq_iff pair_eq k j, insert-IsDict k r d, lookup-insert_ne j k r d)

fold_latest-IsDict :
    (d : Dict ScopeKey KillSwitchRecord) (xs : List KillSwitchRecord)
    → IsDict d
    → IsDict (fold_latest d xs)
unfolding fold_latest
fold_latest-IsDict d [] h = h
fold_latest-IsDict d (x ∷ xs) h =
    fold_latest-IsDict (insert (key x.scope) x d) xs (insert-IsDict (key x.scope) x d h)

-- The matching records of a dictionary are those that it has for an evaluated key.
matching_has :
    (scopes : List KillSwitchScope) (d : Dict ScopeKey KillSwitchRecord) (k : ScopeKey)
    (r : KillSwitchRecord)
    → lookup k d ≡ some r
    → is_evaluated scopes k ≡ true
    → Among r (matching_records d scopes)
unfolding matching_records
matching_has scopes [] k r h e = cc
matching_has scopes ((j, s) ∷ d) k r h e =
    ground (arith, Eq.beq_iff pair_eq k j, matching_has scopes d k r)

matching_cons :
    (scopes : List KillSwitchScope) (j : ScopeKey) (s : KillSwitchRecord)
    (d : Dict ScopeKey KillSwitchRecord) (r : KillSwitchRecord)
    → Among r (matching_records ((j, s) ∷ d) scopes)
    → ((r ≡ s) × (is_evaluated scopes j ≡ true)) ⊎ Among r (matching_records d scopes)
unfolding matching_records
matching_cons scopes j s d r i = ground arith

matching_nil :
    (scopes : List KillSwitchScope) (r : KillSwitchRecord)
    → Among r (matching_records [] scopes)
    → ⊥
unfolding matching_records
matching_nil scopes r i = i

not_both :
    (k j : ScopeKey) (d : Dict ScopeKey KillSwitchRecord) {r : KillSwitchRecord}
    → lookup j d ≡ none
    → lookup k d ≡ some r
    → k ≡ j
    → ⊥
not_both k j d {r} u h e = cc (u, h, ap (λ (z : ScopeKey). lookup z d) e)

lookup-tail :
    (j k : ScopeKey) (s : KillSwitchRecord) (d : Dict ScopeKey KillSwitchRecord)
    {r : KillSwitchRecord}
    → lookup j d ≡ none
    → lookup k d ≡ some r
    → lookup k ((j, s) ∷ d) ≡ some r
lookup-tail j k s d {r} u h = elim (Bool-cases (eqb k j)) [
  | inl b ↦ absurd (not_both k j d u h ((Eq.beq_iff pair_eq k j).0 b))
  | inr b ↦ ground (arith, b, h)
]

-- A matching record is the entry of an evaluated key.
pub record IsMatch (scopes : List KillSwitchScope) (d : Dict ScopeKey KillSwitchRecord)
    (r : KillSwitchRecord) : Type 0 where
  pub scope_key : ScopeKey
  pub found : lookup scope_key d ≡ some r
  pub evaluated : is_evaluated scopes scope_key ≡ true

matching_only :
    (scopes : List KillSwitchScope) (d : Dict ScopeKey KillSwitchRecord) (r : KillSwitchRecord)
    → IsDict d
    → Among r (matching_records d scopes)
    → IsMatch scopes d r
unfolding IsDict
matching_only scopes [] r u i = absurd (matching_nil scopes r i)
matching_only scopes ((j, s) ∷ d) r u i = elim (matching_cons scopes j s d r i) [
  | inl h ↦ record {
    scope_key = j;
    found = ground (arith, h.0, Eq.beq_iff pair_eq j j);
    evaluated = h.1;
  }
  | inr h ↦
      let rest = matching_only scopes d r u.1 h in
      record {
        scope_key = rest.scope_key;
        found = lookup-tail j rest.scope_key s d u.0 rest.found;
        evaluated = rest.evaluated;
      }
]

module _ (log : List KillSwitchRecord) (scopes : List KillSwitchScope) where
  pub latest-IsMatch :
      (r : KillSwitchRecord)
      → Among r (matching_records (latest_records_by_scope log) scopes)
      → IsMatch scopes (latest_records_by_scope log) r
  unfolding latest_records_by_scope IsDict
  latest-IsMatch r =
      matching_only scopes (latest_records_by_scope log) r
        (fold_latest-IsDict [] (sorted is_earlier log) tt)

  pub match_has :
      (k : ScopeKey) {r : KillSwitchRecord}
      → lookup k (latest_records_by_scope log) ≡ some r
      → is_evaluated scopes k ≡ true
      → Among r (matching_records (latest_records_by_scope log) scopes)
  match_has k {r} = matching_has scopes (latest_records_by_scope log) k r
