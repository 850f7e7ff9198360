-- ===== src/KillSwitch/Writing.antt =====
-- `transition` of risk/kill_switch.py: what it appends, and what a later reading makes of it.
use ta_model_v.Base.{
  ℕ, String, Bool, true, false, is_some, List, [], ◌∷◌, ◌++◌, ◌≡◌, ◌⊎◌, inl, inr, refl, ◌≤◌, ◌<◌,
  arith, ◌↔◌, sym, ap, ◌∙◌, Option-cases, Bool-cases, all, not, ◌||◌, ltb,
}
use mathlib.Core.Path.{subst}
use ta_model_v.Base.Dict.{lookup}
use ta_model_v.Base.Equality.{Eq, eqb, string_eq, pair_eq, option_eq}
use ta_model_v.Contracts.Result.{Result, ok, Error, validation_error, require, ◌>>◌, Timestamp}
use ta_model_v.Contracts.KillSwitch.{
  ScopeKey, KillSwitchScope, KillSwitchState, clear, unknown_fail_closed, key, scope_type_eq,
  Transition, transition_is_valid, make_kill_switch_record, KillSwitchRecord, severity,
  KillSwitchSnapshot,
}
use ta_model_v.KillSwitch.Store.{
  StoreFile, absent, unusable, not_an_object, undecodable, stored, latest_records_by_scope,
  is_evaluated, load_snapshot, transition, append_transition, prior_of,
}
use ta_model_v.Base.Among.{Among}
use ta_model_v.KillSwitch.Latest.{IsNewest}
use ta_model_v.KillSwitch.Newest.{latest-IsNewest, latest_is_some}
use ta_model_v.KillSwitch.Snapshot.{
  logged, is_readable, IsMostRestrictive, load-IsMostRestrictive, none_is_some,
}

Among-append :
    {A : Type 0} (a b : A) (xs : List A) → Among a (xs ++ (b ∷ [])) ↔ (Among a xs ⊎ (a ≡ b))
Among-append a b [] = ground arith
Among-append a b (x ∷ xs) = ground (arith, Among-append a b xs)

-- The state of a scope before a transition: that of a newest record of the scope, or unknown where
-- the scope has none.
pub IsPrior : List KillSwitchRecord → ScopeKey → KillSwitchState → Type 0
IsPrior log k prior =
    ((c : KillSwitchRecord) × IsNewest k c log × (c.new_state ≡ prior))
    ⊎ ((prior ≡ unknown_fail_closed) × ((x : KillSwitchRecord) → Among x log → key x.scope ≡ k → ⊥))

prior_of-IsPrior :
    (log : List KillSwitchRecord) (k : ScopeKey)
    → IsPrior log k (prior_of (lookup k (latest_records_by_scope log)))
unfolding IsPrior
prior_of-IsPrior log k = elim (Option-cases (lookup k (latest_records_by_scope log))) [
  | inl h ↦ inr (
    rw h refl,
    λ x i e. none_is_some (
        sym (latest_is_some log x i)
        ∙ ap (λ j. is_some (lookup j (latest_records_by_scope log))) e
        ∙ ap is_some h),
  )
  | inr h ↦ inl (h.0, latest-IsNewest log k {r = h.0} h.1, rw h.1 refl)
]

-- What a transition leaves: the old records with one more, that says what was asked for.
pub record IsAppended (digest : Transition → String) (file after : StoreFile) (t : Transition)
    (r : KillSwitchRecord) : Type 0 where
  pub replaced : after ≡ stored (logged file ++ (r ∷ []))
  pub says : r.transition ≡ record t { prior_state = r.prior_state }
  pub identified : r.record_id ≡ digest r.transition
  pub prior : IsPrior (logged file) (key t.scope) r.prior_state

module _ (digest : Transition → String) (t : Transition) where
  -- The record that a valid transition writes after a log, and the file with it.
  abbrev asked : List KillSwitchRecord → Transition
  asked log = record t {
    prior_state = prior_of (lookup (key t.scope) (latest_records_by_scope log));
  }

  abbrev record_after : List KillSwitchRecord → KillSwitchRecord
  record_after log = record { record_id = digest (asked log); transition = asked log }

  abbrev written : List KillSwitchRecord → StoreFile × KillSwitchRecord
  written log = (stored (log ++ (record_after log ∷ [])), record_after log)

  abbrev checked : List KillSwitchRecord → Result (StoreFile × KillSwitchRecord)
  checked log =
      require (transition_is_valid t) (validation_error "invalid kill-switch record")
      >> ok (written log)

  append_transition_lem :
      (log : List KillSwitchRecord) → append_transition digest t log ≡ checked log
  unfolding append_transition make_kill_switch_record transition_is_valid
  append_transition_lem log = elim (Bool-cases (transition_is_valid t)) [
    | inl v ↦ rw v refl
    | inr v ↦ rw v refl
  ]

  readable-cases :
      (file : StoreFile)
      → is_readable file ≡ true
      → transition digest file t ≡ checked (logged file)
  unfolding transition
  readable-cases absent h = append_transition_lem []
  readable-cases unusable h = append_transition_lem []
  readable-cases not_an_object h = cc
  readable-cases undecodable h = cc
  readable-cases (stored log) h = append_transition_lem log

module _ (digest : Transition → String) (file : StoreFile) (t : Transition) where
  written-IsAppended :
      IsAppended digest file (written digest t (logged file)).0 t (written digest t (logged file)).1
  written-IsAppended = record {
    replaced = refl;
    says = refl;
    identified = refl;
    prior = prior_of-IsPrior (logged file) (key t.scope);
  }

  -- Unless the file cannot be decoded or is a JSON value other than an object, a transition whose actor,
  -- role and reason are texts without whitespace around them that are not empty, and whose incident id
  -- is canonical where it has one, is written. It leaves the readable records with one more, which says
  -- what was asked for, bears the digest of what it says, and names as prior state the newest state of
  -- the scope, or unknown where the scope has no record.
  pub transition_appends :
      is_readable file ≡ true
      → transition_is_valid t ≡ true
      → (after : StoreFile) × (r : KillSwitchRecord) × (transition digest file t ≡ ok (after, r))
        × IsAppended digest file after t r
  transition_appends h v =
      let w = written digest t (logged file) in
      (w.0, w.1, readable-cases digest t file h ∙ rw v refl, written-IsAppended)

readable_of :
    (digest : Transition → String) (file : StoreFile) (t : Transition)
    {p : StoreFile × KillSwitchRecord}
    → transition digest file t ≡ ok p
    → is_readable file ≡ true
unfolding transition
readable_of digest absent t run = refl
readable_of digest unusable t run = refl
readable_of digest not_an_object t run = cc
readable_of digest undecodable t run = cc
readable_of digest (stored log) t run = refl

checked_is : {A : Type 0} (b : Bool) (e : Error) (a p : A) → (require b e >> ok a) ≡ ok p → a ≡ p
checked_is true e a p h = cc
checked_is false e a p h = cc

written_is :
    (digest : Transition → String) (file : StoreFile) (t : Transition)
    {p : StoreFile × KillSwitchRecord}
    → transition digest file t ≡ ok p
    → written digest t (logged file) ≡ p
written_is digest file t {p} run =
    checked_is (transition_is_valid t) _ (written digest t (logged file)) p
      (sym (readable-cases digest t file (readable_of digest file t run)) ∙ run)

-- Whether a transition is later than each record of its scope.
abbrev pub is_newer : Transition → List KillSwitchRecord → Bool
is_newer t log =
    all (λ x. not (eqb (key x.scope) (key t.scope)) || ltb x.transitioned_at t.transitioned_at) log

newer_than :
    (t : Transition) (log : List KillSwitchRecord) (x : KillSwitchRecord)
    → is_newer t log ≡ true
    → Among x log
    → key x.scope ≡ key t.scope
    → x.transitioned_at < t.transitioned_at
newer_than t [] x h i k = absurd i
newer_than t (y ∷ ys) x h (inl e) k =
    ground (arith, e, Eq.beq_iff pair_eq (key y.scope) (key t.scope))
newer_than t (y ∷ ys) x h (inr i) k = newer_than t ys x (ground arith) i k

not_below : {a b c : ℕ} → a ≤ b → b < c → a ≡ c → ⊥
not_below p q e = omega arith

module _ (digest : Transition → String) (file : StoreFile) (t : Transition) {after : StoreFile}
    {r : KillSwitchRecord} (run : transition digest file t ≡ ok (after, r)) where
  pub run-IsAppended : IsAppended digest file after t r
  run-IsAppended =
      subst (λ (p : StoreFile × KillSwitchRecord). IsAppended digest file p.0 t p.1)
        (written_is digest file t run) (written-IsAppended digest file t)

  -- The snapshots that are read from the new file.
  read_after :
      (at : Timestamp) (scopes : List KillSwitchScope) {s : KillSwitchSnapshot}
      → load_snapshot after at scopes ≡ ok s
      → IsMostRestrictive (logged file ++ (r ∷ [])) scopes s.active_state
  read_after at scopes {s} read =
      load-IsMostRestrictive (stored (logged file ++ (r ∷ []))) at scopes
        (ap (λ f. load_snapshot f at scopes) (sym run-IsAppended.replaced) ∙ read)

  r-says : r.transition ≡ record t { prior_state = r.prior_state }
  r-says = run-IsAppended.says

  only_r : (x : KillSwitchRecord) → Among x (logged file ++ (r ∷ [])) → file ≡ unusable → x ≡ r
  only_r x i u = elim ((Among-append x r (logged file)).0 i) [
    | inl old ↦ absurd (subst (Among x) (ap logged u) old)
    | inr same ↦ same
  ]

  same_key : key r.scope ≡ key t.scope
  same_key = ap (λ (u : Transition). key u.scope) r-says

  r_logged : Among r (logged file ++ (r ∷ []))
  r_logged = (Among-append r r (logged file)).1 (inr refl)

  -- A current record of the transition's scope is the transition's, where it is newer than the rest.
  current_is_r :
      (c : KillSwitchRecord)
      → is_newer t (logged file) ≡ true
      → IsNewest (key r.scope) c (logged file ++ (r ∷ []))
      → c ≡ r
  current_is_r c newer n = elim ((Among-append c r (logged file)).0 n.logged) [
    | inl old ↦ absurd (
        not_below (n.newest r r_logged refl)
          (newer_than t (logged file) c newer old (n.same_scope ∙ same_key))
          (ap (λ (u : Transition). u.transitioned_at) r-says))
    | inr same ↦ same
  ]

  -- A transition takes effect: where its time is after that of each record of its scope, and its
  -- scope is evaluated, a snapshot read from the new file is at least as severe as the new state.
  pub transition_takes_effect :
      (at : Timestamp) (scopes : List KillSwitchScope) {s : KillSwitchSnapshot}
      → is_newer t (logged file) ≡ true
      → is_evaluated scopes (key t.scope) ≡ true
      → load_snapshot after at scopes ≡ ok s
      → severity t.new_state ≤ severity s.active_state
  transition_takes_effect at scopes {s} newer e read =
      let c =
        (read_after at scopes read).covers r r_logged (ap (is_evaluated scopes) same_key ∙ e) in
      let same = current_is_r c.current newer c.newest in
      let new = ap (λ (u : Transition). u.new_state) r-says in
      omega (
        arith,
        ap (λ (x : KillSwitchRecord). severity x.new_state) same,
        ap severity new,
        c.covered,
      )

  -- A transition to CLEAR on an unusable file, for an evaluated scope, leaves a file that reads as
  -- CLEAR: the records of the unusable file, whatever they were, no longer count.
  pub unusable_file_cleared :
      (at : Timestamp) (scopes : List KillSwitchScope) {s : KillSwitchSnapshot}
      → file ≡ unusable
      → t.new_state ≡ clear
      → is_evaluated scopes (key t.scope) ≡ true
      → load_snapshot after at scopes ≡ ok s
      → s.active_state ≡ clear
  unusable_file_cleared at scopes {s} u c e read = elim (read_after at scopes read).attained [
    | inl h ↦
        sym h.2
        ∙ ap (λ (x : KillSwitchRecord). x.new_state) (only_r h.0 (h.1).newest.logged u)
        ∙ ap (λ (u : Transition). u.new_state) r-says
        ∙ c
    | inr h ↦ absurd (h.1 r r_logged (ap (is_evaluated scopes) same_key ∙ e))
  ]
