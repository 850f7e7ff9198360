-- ===== src/Base/Text.antt =====
-- The order of Python's strings and of tuples of them.
use Prim.Native.String.{String, compare}
use Prim.Native.Nat.{Ordering}
use mathlib.Core.Bool.{Bool, true, false}
use mathlib.Core.List.{List, [], ◌∷◌}

abbrev pub text_lt : String → String → Bool
text_lt a b = elim (compare a b) [ Ordering.lt ↦ true | _ ↦ false ]

-- `s < t` on tuples of one length: the first place where they differ decides.
abbrev pub texts_lt : List String → List String → Bool
texts_lt [] _ = false
texts_lt (a ∷ as') [] = false
texts_lt (a ∷ as') (b ∷ bs) =
    let rest = texts_lt as' bs in
    elim (compare a b) [ Ordering.lt ↦ true | Ordering.eq ↦ rest | Ordering.gt ↦ false ]
