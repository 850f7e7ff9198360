-- ===== src/Base/Distinct.antt =====
-- Lists without two elements of one key, under assignment to a dict and under sorting.
use mathlib.Core.Path.{◌≡◌, refl, sym, ap, ◌∙◌}
use mathlib.Core.Logic.{inl, inr}
use mathlib.Core.Bool.{Bool, true, false, not, ◌&&◌, ◌||◌}
use mathlib.Core.List.{List, [], ◌∷◌, map}
use native.Mathlib.Omega.{arith}
use ta_model_v.Base.Lists.{any, all, All}
use ta_model_v.Base.Among.{Among}
use ta_model_v.Base.Equality.{Eq, eqb}
use ta_model_v.Base.Dict.{Dict, insert}
use ta_model_v.Base.Sort.{insert_sorted, sort_from, sorted}

-- No element has a key of a later one.
abbrev pub distinct : {A : Type 0} → (A → A → Bool) → List A → Bool
distinct same [] = true
distinct same (x ∷ xs) = not (any (same x) xs) && distinct same xs

pub distinct-map :
    {A B : Type 0} (same : A → A → Bool) (f : B → A) (xs : List B)
    → distinct same (map f xs) ≡ distinct (λ x y. same (f x) (f y)) xs
distinct-map same f [] = refl
distinct-map same f (x ∷ xs) = rw (any-map (same (f x)) f xs, distinct-map same f xs) refl
  where
    any-map :
        {A B : Type 0} (p : A → Bool) (f : B → A) (xs : List B)
        → any p (map f xs) ≡ any (λ x. p (f x)) xs
    any-map p f [] = refl
    any-map p f (x ∷ xs) = rw (any-map p f xs) refl

pub all-map :
    {A B : Type 0} (p : A → Bool) (f : B → A) (xs : List B)
    → all p (map f xs) ≡ all (λ x. p (f x)) xs
all-map p f [] = refl
all-map p f (x ∷ xs) = rw (all-map p f xs) refl

module _ {A : Type 0} (lt : A → A → Bool) (p : A → Bool) where
  any-insert_sorted : (x : A) (ys : List A) → any p (insert_sorted lt x ys) ≡ (p x || any p ys)
  any-insert_sorted x [] = refl
  any-insert_sorted x (y ∷ ys) = ground (arith, any-insert_sorted x ys)

  all-insert_sorted : (x : A) (ys : List A) → all p (insert_sorted lt x ys) ≡ (p x && all p ys)
  all-insert_sorted x [] = refl
  all-insert_sorted x (y ∷ ys) = ground (arith, all-insert_sorted x ys)

  all-sort_from : (acc xs : List A) → all p (sort_from lt acc xs) ≡ (all p acc && all p xs)
  all-sort_from acc [] = ground arith
  all-sort_from acc (x ∷ xs) =
      ground (arith, all-sort_from (insert_sorted lt x acc) xs, all-insert_sorted x acc)

  -- Sorting keeps what holds of all elements.
  pub all-sorted : (xs : List A) → all p (sorted lt xs) ≡ all p xs
  all-sorted xs = all-sort_from [] xs

module _ {A : Type 0} (lt : A → A → Bool) (same : A → A → Bool)
    (symm : (x y : A) → same x y ≡ same y x) where
  distinct-insert_sorted :
      (x : A) (ys : List A)
      → any (same x) ys ≡ false
      → distinct same ys ≡ true
      → distinct same (insert_sorted lt x ys) ≡ true
  distinct-insert_sorted x [] h k = refl
  distinct-insert_sorted x (y ∷ ys) h k =
      ground (arith, distinct-insert_sorted x ys, any-insert_sorted lt (same y) x ys, symm x y)

  -- Each element has the key of none of the others.
  abbrev Fresh : List A → List A → Type 0
  Fresh acc xs = All (λ x. any (same x) acc ≡ false) xs

  Fresh-insert_sorted :
      (x : A) (acc xs : List A)
      → any (same x) xs ≡ false
      → Fresh acc xs
      → Fresh (insert_sorted lt x acc) xs
  Fresh-insert_sorted x acc [] h k = tt
  Fresh-insert_sorted x acc (y ∷ ys) h k = (
    ground (arith, any-insert_sorted lt (same y) x acc, symm x y),
    Fresh-insert_sorted x acc ys (ground arith) k.1,
  )

  distinct-sort_from :
      (acc xs : List A)
      → distinct same acc ≡ true
      → distinct same xs ≡ true
      → Fresh acc xs
      → distinct same (sort_from lt acc xs) ≡ true
  distinct-sort_from acc [] h k f = h
  distinct-sort_from acc (x ∷ xs) h k f =
      distinct-sort_from (insert_sorted lt x acc) xs (distinct-insert_sorted x acc f.0 h)
        (ground arith) (Fresh-insert_sorted x acc xs (ground arith) f.1)

  Fresh-empty : (xs : List A) → Fresh [] xs
  Fresh-empty [] = tt
  Fresh-empty (x ∷ xs) = (refl, Fresh-empty xs)

  -- Sorting keeps keys distinct.
  pub distinct-sorted :
      (xs : List A) → distinct same xs ≡ true → distinct same (sorted lt xs) ≡ true
  distinct-sorted xs h = distinct-sort_from [] xs refl h (Fresh-empty xs)

module _ {K V : Type 0} ⦃e : Eq K⦄ where
  abbrev pub same_key : K × V → K × V → Bool
  same_key a b = eqb a.0 b.0

  pub same_key_symm : (a b : K × V) → same_key a b ≡ same_key b a
  same_key_symm a b = ground (arith, e.beq_iff a.0 b.0, e.beq_iff b.0 a.0)

  any-insert :
      (a : K × V) (k : K) (v : V) (d : Dict K V)
      → eqb a.0 k ≡ false
      → any (same_key a) (insert k v d) ≡ any (same_key a) d
  any-insert a k v [] h = ground (arith, h)
  any-insert a k v ((j, w) ∷ d) h = ground (arith, any-insert a k v d h)

  -- Assignment to a dict keeps its keys distinct.
  pub distinct-insert :
      (k : K) (v : V) (d : Dict K V)
      → distinct same_key d ≡ true
      → distinct same_key (insert k v d) ≡ true
  distinct-insert k v [] h = refl
  distinct-insert k v ((j, w) ∷ d) h =
      ground (arith, distinct-insert k v d, any-insert (j, w) k v d, e.beq_iff k j, e.beq_iff j k)

none_alike :
    {A : Type 0} (same : A → A → Bool) (z y : A) (zs : List A)
    → any (same z) zs ≡ false
    → Among y zs
    → same z y ≡ true
    → ⊥
none_alike same z y [] h k s = k
none_alike same z y (w ∷ ws) h (inl hy) s = let t = ap (same z) (sym hy) ∙ s in ground (arith, h, t)
none_alike same z y (w ∷ ws) h (inr hy) s = none_alike same z y ws (ground arith) hy s

-- Two elements of one key are the same, where keys are distinct.
pub distinct-Among :
    {A : Type 0} (same : A → A → Bool)
    → ((x y : A) → same x y ≡ same y x)
    → (x y : A) (xs : List A) → distinct same xs ≡ true
    → Among x xs
    → Among y xs
    → same x y ≡ true
    → x ≡ y
distinct-Among same symm x y [] d h k s = absurd h
distinct-Among same symm x y (z ∷ zs) d (inl hx) (inl hy) s = hx ∙ sym hy
distinct-Among same symm x y (z ∷ zs) d (inl hx) (inr hy) s =
    absurd (none_alike same z y zs (ground arith) hy (ap (λ w. same w y) (sym hx) ∙ s))
distinct-Among same symm x y (z ∷ zs) d (inr hx) (inl hy) s =
    absurd (none_alike same z x zs (ground arith) hx (ap (λ w. same w x) (sym hy) ∙ symm y x ∙ s))
distinct-Among same symm x y (z ∷ zs) d (inr hx) (inr hy) s =
    distinct-Among same symm x y zs (ground arith) hx hy s
