-- ===== src/KillSwitch/Newest.antt =====
-- The dictionary of latest records holds, for each scope of the log, its newest record.
use ta_model_v.Base.{
  true, false, Option, none, some, is_some, List, [], ◌∷◌, ◌≡◌, inl, inr, refl, ◌≤◌, arith,
  if◌then◌else◌, ◌↔◌, sym, ap, ◌∙◌, Bool-cases,
}
use ta_model_v.Base.Dict.{Dict, lookup, insert, lookup-insert_self, lookup-insert_ne}
use ta_model_v.Base.Equality.{Eq, eqb, string_eq, pair_eq, option_eq}
use ta_model_v.Base.Sort.{sorted}
use ta_model_v.Contracts.KillSwitch.{ScopeKey, key, scope_type_eq, KillSwitchRecord}
use ta_model_v.KillSwitch.Store.{is_earlier, fold_latest, latest_records_by_scope}
use ta_model_v.Base.Among.{Among}
use ta_model_v.KillSwitch.Latest.{Ascending, IsNewest, sort-Ascending, sort-Among}

-- Reference definition: the last record of the scope in a list, or `found` if there is none.
last_of : ScopeKey → Option KillSwitchRecord → List KillSwitchRecord → Option KillSwitchRecord
last_of k found [] = found
last_of k found (x ∷ xs) = last_of k (if eqb k (key x.scope) then some x else found) xs

lookup-insert :
    (k j : ScopeKey) (r : KillSwitchRecord) (d : Dict ScopeKey KillSwitchRecord)
    → lookup k (insert j r d) ≡ (if eqb k j then some r else lookup k d)
lookup-insert k j r d =
    ground (arith, Eq.beq_iff pair_eq k j, lookup-insert_self j r d, lookup-insert_ne k j r d)

lookup-fold_latest :
    (k : ScopeKey) (d : Dict ScopeKey KillSwitchRecord) (xs : List KillSwitchRecord)
    → lookup k (fold_latest d xs) ≡ last_of k (lookup k d) xs
unfolding fold_latest last_of
lookup-fold_latest k d [] = refl
lookup-fold_latest k d (x ∷ xs) =
    lookup-fold_latest k (insert (key x.scope) x d) xs ∙ rw (lookup-insert k (key x.scope) x d) refl

false-true : (false ≡ true) → ⊥
false-true e = ground arith

same_key : (k j : ScopeKey) → (eqb k j ≡ true) ↔ (k ≡ j)
same_key k j = Eq.beq_iff pair_eq k j

-- Records of the same scope do not differ in it.
not_same :
    (k : ScopeKey) (x y : KillSwitchRecord)
    → eqb k (key x.scope) ≡ false
    → y ≡ x
    → key y.scope ≡ k
    → ⊥
not_same k x y b e s =
    false-true
      (sym b ∙ (same_key k (key x.scope)).1 (sym s ∙ ap (λ (z : KillSwitchRecord). key z.scope) e))

-- The last record of an ascending list, begun with a record not younger than the list's.
record IsLast (k : ScopeKey) (c r : KillSwitchRecord) (xs : List KillSwitchRecord) : Type 0 where
  same_scope : key r.scope ≡ k
  from : Among r (c ∷ xs)
  above_first : c.transitioned_at ≤ r.transitioned_at
  above_all :
      (x : KillSwitchRecord) → Among x xs → key x.scope ≡ k → x.transitioned_at ≤ r.transitioned_at

last_of-IsLast :
    (k : ScopeKey) (c : KillSwitchRecord) (xs : List KillSwitchRecord) {r : KillSwitchRecord}
    → Ascending (c ∷ xs)
    → key c.scope ≡ k
    → last_of k (some c) xs ≡ some r
    → IsLast k c r xs
unfolding last_of
last_of-IsLast k c [] {r} asc same h = ground arith
last_of-IsLast k c (x ∷ xs) {r} asc same h = elim (Bool-cases (eqb k (key x.scope))) [
  | inl b ↦
      let rest =
        last_of-IsLast k x xs {r = r} (ground arith) (sym ((same_key k (key x.scope)).0 b))
          (ground arith) in
      record {
        same_scope = rest.same_scope;
        from = inr rest.from;
        above_first = ground (arith, rest.above_first);
        above_all = λ y i s. elim i [
          | inl e ↦ ground (arith, e, rest.above_first)
          | inr j ↦ rest.above_all y j s
        ];
      }
  | inr b ↦
      let rest = last_of-IsLast k c xs {r = r} (ground arith) same (ground arith) in
      record {
        same_scope = rest.same_scope;
        from = ground (arith, rest.from);
        above_first = rest.above_first;
        above_all = λ y i s. elim i [
          | inl e ↦ absurd (not_same k x y b e s)
          | inr j ↦ rest.above_all y j s
        ];
      }
]

-- The same for a list begun with no record.
last_of-IsNewest :
    (k : ScopeKey) (xs : List KillSwitchRecord) {r : KillSwitchRecord}
    → Ascending xs
    → last_of k none xs ≡ some r
    → IsNewest k r xs
unfolding last_of
last_of-IsNewest k [] asc h = cc
last_of-IsNewest k (x ∷ xs) {r} asc h = elim (Bool-cases (eqb k (key x.scope))) [
  | inl b ↦
      let rest =
        last_of-IsLast k x xs {r = r} asc (sym ((same_key k (key x.scope)).0 b)) (ground arith) in
      record {
        same_scope = rest.same_scope;
        logged = rest.from;
        newest = λ y i s. elim i [
          | inl e ↦ ground (arith, e, rest.above_first)
          | inr j ↦ rest.above_all y j s
        ];
      }
  | inr b ↦
      let rest = last_of-IsNewest k xs {r = r} asc.1 (ground arith) in
      record {
        same_scope = rest.same_scope;
        logged = inr rest.logged;
        newest =
            λ y i s. elim i [ inl e ↦ absurd (not_same k x y b e s) | inr j ↦ rest.newest y j s ];
      }
]

-- What the dictionary of latest records has for a scope is a record of the log, of that scope, and
-- no record of the scope in the log is later.
pub latest-IsNewest :
    (log : List KillSwitchRecord) (k : ScopeKey) {r : KillSwitchRecord}
    → lookup k (latest_records_by_scope log) ≡ some r
    → IsNewest k r log
unfolding latest_records_by_scope
latest-IsNewest log k {r} h =
    let newest =
      last_of-IsNewest k (sorted is_earlier log) {r = r} (sort-Ascending [] log tt)
        (sym (lookup-fold_latest k [] (sorted is_earlier log)) ∙ h) in
    record {
      same_scope = newest.same_scope;
      logged = ground (arith, newest.logged, sort-Among r [] log);
      newest = λ x i s. newest.newest x (ground (arith, i, sort-Among x [] log)) s;
    }

last_of-is_some :
    (k : ScopeKey) (found : Option KillSwitchRecord) (xs : List KillSwitchRecord)
    → is_some found ≡ true
    → is_some (last_of k found xs) ≡ true
unfolding last_of
last_of-is_some k found [] h = h
last_of-is_some k found (x ∷ xs) h =
    last_of-is_some k (if eqb k (key x.scope) then some x else found) xs (ground arith)

last_of-finds :
    (found : Option KillSwitchRecord) (xs : List KillSwitchRecord) (x : KillSwitchRecord)
    → Among x xs
    → is_some (last_of (key x.scope) found xs) ≡ true
unfolding last_of
last_of-finds found [] x h = absurd h
last_of-finds found (y ∷ ys) x (inl e) =
    last_of-is_some (key x.scope) (if eqb (key x.scope) (key y.scope) then some y else found) ys (
      rw ((same_key (key x.scope) (key y.scope)).1 (ap (λ (z : KillSwitchRecord). key z.scope) e))
        refl)
last_of-finds found (y ∷ ys) x (inr i) =
    last_of-finds (if eqb (key x.scope) (key y.scope) then some y else found) ys x i

-- Every scope with a record in the log has an entry.
pub latest_is_some :
    (log : List KillSwitchRecord) (x : KillSwitchRecord)
    → Among x log
    → is_some (lookup (key x.scope) (latest_records_by_scope log)) ≡ true
unfolding latest_records_by_scope
latest_is_some log x i =
    ap is_some (lookup-fold_latest (key x.scope) [] (sorted is_earlier log))
    ∙ last_of-finds none (sorted is_earlier log) x (ground (arith, i, sort-Among x [] log))
