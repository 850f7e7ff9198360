-- ===== src/Base/Sort.antt =====
-- Python's stable `sorted`, for a strict order given as a Boolean test.
use mathlib.Core.Path.{◌≡◌, refl}
use mathlib.Core.Bool.{Bool, true}
use mathlib.Core.List.{List, [], ◌∷◌}
use native.Mathlib.Omega.{arith}
use ta_model_v.Base.Tests.{if◌then◌else◌}
use ta_model_v.Base.Lists.{is_nonempty}

module _ {ℓ} {A : Type ℓ} (lt : A → A → Bool) where
  -- after every element that is not above `x`
  abbrev pub insert_sorted : A → List A → List A
  insert_sorted x [] = x ∷ []
  insert_sorted x (y ∷ ys) = if lt x y then x ∷ y ∷ ys else y ∷ insert_sorted x ys

  abbrev pub sort_from : List A → List A → List A
  sort_from acc [] = acc
  sort_from acc (x ∷ xs) = sort_from (insert_sorted x acc) xs

  abbrev pub sorted : List A → List A
  sorted = sort_from []

  pub insert-is_nonempty : (x : A) (ys : List A) → is_nonempty (insert_sorted x ys) ≡ true
  insert-is_nonempty x [] = refl
  insert-is_nonempty x (y ∷ ys) = ground arith

  pub sort-is_nonempty :
      (acc xs : List A) → is_nonempty acc ≡ true → is_nonempty (sort_from acc xs) ≡ true
  sort-is_nonempty acc [] h = h
  sort-is_nonempty acc (x ∷ xs) h =
      sort-is_nonempty (insert_sorted x acc) xs (insert-is_nonempty x acc)
