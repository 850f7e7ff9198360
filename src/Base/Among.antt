-- ===== src/Base/Among.antt =====
-- Membership in a list, as a sum that can be taken apart, and properties of all elements.
use mathlib.Core.Path.{◌≡◌, refl, sym, ap, ◌∙◌}
use mathlib.Core.Logic.{◌⊎◌, inl, inr}
use mathlib.Core.Bool.{Bool, true, false}
use mathlib.Core.List.{List, [], ◌∷◌}
use ta_model_v.Base.Lists.{All, filter}
use ta_model_v.Base.Tests.{if◌then◌else◌, Bool-cases}

-- An element of a list.
abbrev pub Among : {A : Type 0} → A → List A → Type 0
Among a [] = ⊥
Among a (x ∷ xs) = (a ≡ x) ⊎ Among a xs

-- All elements of a list have a property, from it for each.
pub All-of : {A : Type 0} (P : A → Type 0) (xs : List A) → ((a : A) → Among a xs → P a) → All P xs
All-of P [] f = tt
All-of P (x ∷ xs) f = (f x (inl refl), All-of P xs (λ a h. f a (inr h)))

-- An element of a list with an element kept or left out in front.
pub kept_or_later :
    {A : Type 0} (b : Bool) (x a : A) (rest : List A)
    → Among a (if b then x ∷ rest else rest)
    → ((b ≡ true) × (a ≡ x)) ⊎ Among a rest
kept_or_later true x a rest (inl same) = inl (refl, same)
kept_or_later true x a rest (inr later) = inr later
kept_or_later false x a rest h = inr h

-- The elements that a filter keeps.
pub Among-filter :
    {A : Type 0} (p : A → Bool) (x : A) (xs : List A)
    → Among x (filter p xs)
    → Among x xs × (p x ≡ true)
Among-filter p x [] h = absurd h
Among-filter p x (y ∷ ys) h = elim (kept_or_later (p y) y x (filter p ys) h) [
  | inl this ↦ (inl this.1, ap p this.1 ∙ this.0)
  | inr later ↦ let rest = Among-filter p x ys later in (inr rest.0, rest.1)
]

pub filter-Among :
    {A : Type 0} (p : A → Bool) (x : A) (xs : List A)
    → Among x xs
    → p x ≡ true
    → Among x (filter p xs)
filter-Among p x [] h k = absurd h
filter-Among p x (y ∷ ys) (inl same) k = rw (sym (ap p same) ∙ k) (inl same)
filter-Among p x (y ∷ ys) (inr later) k = elim (Bool-cases (p y)) [
  | inl kept ↦ rw kept (inr (filter-Among p x ys later k))
  | inr left ↦ rw left (filter-Among p x ys later k)
]
