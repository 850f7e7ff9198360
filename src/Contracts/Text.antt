-- ===== src/Contracts/Text.antt =====
-- The annotated text types of contracts/instrument_master.py: which texts a field of one of them
-- keeps as they are. pydantic strips the whitespace around a text before it checks it; the records
-- modelled here with such a field bear a digest that is taken before, so that a text which is changed
-- by stripping makes their validator of the digest raise, and is not accepted either.
use Prim.Native.Char.{Char, code}
use Prim.Native.String.{[], ◌∷◌, count}
use ta_model_v.Base.{ℕ, String, Bool, true, false, Option, none, some, not, leb, ◌==◌, ◌&&◌, ◌||◌}

abbrev between : ℕ → ℕ → ℕ → Bool
between low high n = leb low n && leb n high

-- The whitespace that is stripped: the code points with Unicode's `White_Space`.
unfoldable is_whitespace : Char → Bool
is_whitespace c =
    let n = code c in
    between 9 13 n
    || n == 32
    || n == 133
    || n == 160
    || n == 5760
    || between 8192 8202 n
    || between 8232 8233 n
    || n == 8239
    || n == 8287
    || n == 12288

-- Whether the last character of a text that begins with `c` is no whitespace.
unfoldable ends_well : Char → String → Bool
unfolding is_whitespace
ends_well c [] = not (is_whitespace c)
ends_well c (d ∷ s) = ends_well d s

-- `NonEmptyString`, for a text without whitespace around it.
unfoldable pub is_non_empty_string : String → Bool
unfolding is_whitespace ends_well
is_non_empty_string [] = false
is_non_empty_string (c ∷ s) = not (is_whitespace c) && ends_well c s

-- `A-Z0-9`
abbrev is_id_start : Char → Bool
is_id_start c = between 65 90 (code c) || between 48 57 (code c)

-- `A-Z0-9._:-`: the code points 45, 46 and 58 are those of `-`, `.` and `:`.
abbrev is_id_part : Char → Bool
is_id_part c = is_id_start c || between 45 46 (code c) || code c == 58 || code c == 95

unfoldable is_id_rest : String → Bool
is_id_rest [] = true
is_id_rest (c ∷ s) = is_id_part c && is_id_rest s

-- `CanonicalId`: at most 128 characters that match its pattern, which allows no whitespace.
unfoldable pub is_canonical_id : String → Bool
unfolding is_id_rest
is_canonical_id [] = false
is_canonical_id (c ∷ s) = is_id_start c && is_id_rest s && leb (count (c ∷ s)) 128

-- `CanonicalId | None`
abbrev pub is_canonical_id_or_none : Option String → Bool
is_canonical_id_or_none none = true
is_canonical_id_or_none (some id) = is_canonical_id id
