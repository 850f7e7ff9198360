-- ===== src/KillSwitch/Latest.antt =====
-- What `_latest_records_by_scope` of risk/kill_switch.py leaves in the dictionary: for each scope a
-- record of the log that no record of the scope is younger than.
use ta_model_v.Base.{ℕ, true, false, List, [], ◌∷◌, All, ◌≡◌, ◌⊎◌, ◌≤◌, arith, ◌↔◌}
use ta_model_v.Base.Among.{Among}
use ta_model_v.Base.Equality.{string_eq, pair_eq, option_eq}
use ta_model_v.Base.Sort.{insert_sorted, sort_from}
use ta_model_v.Contracts.KillSwitch.{ScopeKey, key, scope_type_eq, KillSwitchRecord}
use ta_model_v.KillSwitch.Store.{is_earlier}

-- The list is in the order of the times.
abbrev pub Ascending : List KillSwitchRecord → Type 0
Ascending [] = Unit
Ascending (x ∷ xs) = All (λ y. x.transitioned_at ≤ y.transitioned_at) xs × Ascending xs

earlier_le :
    (a b : KillSwitchRecord) → is_earlier a b ≡ true → a.transitioned_at ≤ b.transitioned_at
earlier_le a b h = ground arith

not_earlier_le :
    (a b : KillSwitchRecord) → is_earlier a b ≡ false → b.transitioned_at ≤ a.transitioned_at
not_earlier_le a b h = ground arith

-- A bound on all records holds for a list with one more.
insert-All :
    (t : ℕ) (x : KillSwitchRecord) (ys : List KillSwitchRecord)
    → t ≤ x.transitioned_at
    → All (λ y. t ≤ y.transitioned_at) ys
    → All (λ y. t ≤ y.transitioned_at) (insert_sorted is_earlier x ys)
insert-All t x [] h hs = ground arith
insert-All t x (y ∷ ys) h hs = ground (arith, insert-All t x ys h)

All-le_trans :
    (s t : ℕ) (ys : List KillSwitchRecord)
    → s ≤ t
    → All (λ y. t ≤ y.transitioned_at) ys
    → All (λ y. s ≤ y.transitioned_at) ys
All-le_trans s t [] h hs = tt
All-le_trans s t (y ∷ ys) h hs = ground (arith, All-le_trans s t ys h)

insert-Ascending :
    (x : KillSwitchRecord) (ys : List KillSwitchRecord)
    → Ascending ys
    → Ascending (insert_sorted is_earlier x ys)
insert-Ascending x [] h = ground arith
insert-Ascending x (y ∷ ys) h = ground (
  arith,
  earlier_le x y,
  not_earlier_le x y,
  insert-Ascending x ys,
  insert-All y.transitioned_at x ys,
  All-le_trans x.transitioned_at y.transitioned_at ys,
)

pub sort-Ascending :
    (acc xs : List KillSwitchRecord) → Ascending acc → Ascending (sort_from is_earlier acc xs)
sort-Ascending acc [] h = h
sort-Ascending acc (x ∷ xs) h =
    sort-Ascending (insert_sorted is_earlier x acc) xs (insert-Ascending x acc h)

insert-Among :
    (a x : KillSwitchRecord) (ys : List KillSwitchRecord)
    → Among a (insert_sorted is_earlier x ys) ↔ ((a ≡ x) ⊎ Among a ys)
insert-Among a x [] = ground arith
insert-Among a x (y ∷ ys) = ground (arith, insert-Among a x ys)

-- Sorting keeps the elements.
pub sort-Among :
    (a : KillSwitchRecord) (acc xs : List KillSwitchRecord)
    → Among a (sort_from is_earlier acc xs) ↔ (Among a acc ⊎ Among a xs)
sort-Among a acc [] = ground arith
sort-Among a acc (x ∷ xs) =
    ground (arith, sort-Among a (insert_sorted is_earlier x acc) xs, insert-Among a x acc)

-- The newest record of a scope among those of a log.
pub record IsNewest (k : ScopeKey) (r : KillSwitchRecord) (log : List KillSwitchRecord)
    : Type 0 where
  pub same_scope : key r.scope ≡ k
  pub logged : Among r log
  pub newest :
      (x : KillSwitchRecord) → Among x log → key x.scope ≡ k → x.transitioned_at ≤ r.transitioned_at
