-- ===== src/Base/Strings.antt =====
-- The methods of Rust's `str` that the source calls, over lists of code points.
pub mod Splitting
pub mod Trimming
use Prim.Native.Nat.{ℕ, zero, suc, ◌+◌, ◌-◌}
use mathlib.Core.Bool.{Bool, true, false, ◌&&◌, ◌||◌}
use mathlib.Core.List.{List, [], ◌∷◌, map}
use mathlib.Core.Option.{Option, none, some}
use vercel_ddns.Base.Tests.{Text, leb, ltb, eqb, ◌==◌, text_eq, if◌then◌else◌}
use vercel_ddns.Base.Lists.{is_nil}

-- `char::is_whitespace`: the code points with the property White_Space.
unfoldable pub is_whitespace : ℕ → Bool
is_whitespace c =
    (leb 9 c && leb c 13)
    || eqb c 32
    || eqb c 0x85
    || eqb c 0xa0
    || eqb c 0x1680
    || (leb 0x2000 c && leb c 0x200a)
    || eqb c 0x2028
    || eqb c 0x2029
    || eqb c 0x202f
    || eqb c 0x205f
    || eqb c 0x3000

abbrev pub is_ascii_digit : ℕ → Bool
is_ascii_digit c = leb b'0' c && leb c b'9'

abbrev pub is_ascii_lowercase : ℕ → Bool
is_ascii_lowercase c = leb b'a' c && leb c b'z'

abbrev pub is_ascii_uppercase : ℕ → Bool
is_ascii_uppercase c = leb b'A' c && leb c b'Z'

abbrev pub is_ascii_alphanumeric : ℕ → Bool
is_ascii_alphanumeric c = is_ascii_digit c || is_ascii_lowercase c || is_ascii_uppercase c

unfoldable pub lower : ℕ → ℕ
lower c = if is_ascii_uppercase c then c + 32 else c

unfoldable pub upper : ℕ → ℕ
upper c = if is_ascii_lowercase c then c - 32 else c

unfoldable pub to_ascii_lowercase : Text → Text
to_ascii_lowercase = map lower

unfoldable pub to_ascii_uppercase : Text → Text
to_ascii_uppercase = map upper

-- The bytes of a code point in UTF-8.
abbrev pub len_utf8 : ℕ → ℕ
len_utf8 c = if ltb c 0x80 then 1 else if ltb c 0x800 then 2 else if ltb c 0x10000 then 3 else 4

-- `str::len`, in bytes.
unfoldable pub len : Text → ℕ
len [] = 0
len (c ∷ s) = len_utf8 c + len s

unfoldable pub contains_char : ℕ → Text → Bool
contains_char c [] = false
contains_char c (d ∷ s) = eqb d c || contains_char c s

-- `starts_with(c)` and `ends_with(c)` for a character.
abbrev pub starts_with_char : ℕ → Text → Bool
starts_with_char c [] = false
starts_with_char c (d ∷ _) = eqb d c

unfoldable pub ends_with_char : ℕ → Text → Bool
ends_with_char c [] = false
ends_with_char c (d ∷ s) = let rest = ends_with_char c s in if is_nil s then eqb d c else rest

-- `s.ends_with(suffix)`
unfoldable pub ends_with : Text → Text → Bool
ends_with suffix [] = is_nil suffix
ends_with suffix (c ∷ s) = suffix == (c ∷ s) || ends_with suffix s

abbrev pub starts_with : Text → Text → Bool
starts_with [] s = true
starts_with (c ∷ p) [] = false
starts_with (c ∷ p) (d ∷ s) = eqb c d && starts_with p s

-- `strip_prefix` and `strip_suffix` for one character.
abbrev pub strip_prefix_char : ℕ → Text → Option Text
strip_prefix_char c [] = none
strip_prefix_char c (d ∷ s) = if eqb d c then some s else none

abbrev pub prepend : ℕ → Option Text → Option Text
prepend d none = none
prepend d (some s) = some (d ∷ s)

unfoldable pub strip_suffix_char : ℕ → Text → Option Text
strip_suffix_char c [] = none
strip_suffix_char c (d ∷ s) =
    let rest = strip_suffix_char c s in
    if is_nil s then (if eqb d c then some [] else none) else prepend d rest

module _ (p : ℕ → Bool) where
  unfoldable pub trim_start_matches : Text → Text
  trim_start_matches [] = []
  trim_start_matches (c ∷ s) = if p c then trim_start_matches s else c ∷ s

  unfoldable pub trim_end_matches : Text → Text
  trim_end_matches [] = []
  trim_end_matches (c ∷ s) =
      let rest = trim_end_matches s in if is_nil rest && p c then [] else c ∷ rest

  -- `split_once` at the first character that passes.
  unfoldable pub split_once : Text → Option (Text × Text)
  split_once [] = none
  split_once (c ∷ s) =
      let rest = split_once s in
      if p c then some ([], s) else elim rest [ none ↦ none | some (a, b) ↦ some (c ∷ a, b) ]

module _ (p : ℕ → Bool) where
  -- `splitn(n, p)`: at most `n` pieces, the last one whole.
  unfoldable pub splitn : ℕ → Text → List Text
  splitn zero s = []
  splitn (suc zero) s = s ∷ []
  splitn (suc (suc n)) s = elim (split_once p s) [
    | none ↦ s ∷ []
    | some (a, rest) ↦ a ∷ splitn (suc n) rest
  ]

unfoldable pub trim : Text → Text
trim s = trim_end_matches is_whitespace (trim_start_matches is_whitespace s)

abbrev pub push_char : ℕ → List Text → List Text
push_char c [] = (c ∷ []) ∷ []
push_char c (s ∷ ss) = (c ∷ s) ∷ ss

-- `s.split(c)`: always at least one piece.
unfoldable pub split : ℕ → Text → List Text
split sep [] = [] ∷ []
split sep (c ∷ s) = let rest = split sep s in if eqb c sep then [] ∷ rest else push_char c rest

-- `a.eq_ignore_ascii_case(b)`
unfoldable pub eq_ignore_ascii_case : Text → Text → Bool
eq_ignore_ascii_case a b = to_ascii_lowercase a == to_ascii_lowercase b
