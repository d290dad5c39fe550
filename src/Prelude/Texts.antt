-- ===== src/Prelude/Texts.antt =====
-- Python's order on `str`, by code points and a proper prefix first, and `str.strip`.
use Prim.Native.Nat.{ℕ, zero, suc, compare, Ordering}
use Prim.Native.Char.{Char, code}
use mathlib.Core.Option.{Option, none, some}
use Prim.Native.String.{String, ◌++◌}
use mathlib.Core.List.{List, [], ◌∷◌}
use mathlib.Core.Bool.{not, Bool, true, false, ◌&&◌, ◌||◌}
use mathlib.Core.Path.{◌≡◌, refl}
use ps4_uk_stream.Prelude.Equality.{◌==◌, string_eq}
use ps4_uk_stream.Prelude.Tests.{leb, eqb, if◌then◌else◌}

-- `s <= t`
unfoldable pub str_le : String → String → Bool
str_le String.[] t = true
str_le (String.◌∷◌ c s) String.[] = false
str_le (String.◌∷◌ c s) (String.◌∷◌ d t) = elim (compare (code c) (code d)) [
  | Ordering.lt ↦ true
  | Ordering.gt ↦ false
  | Ordering.eq ↦ str_le s t
]

-- `s < t`
unfoldable pub str_lt : String → String → Bool
str_lt s String.[] = false
str_lt String.[] (String.◌∷◌ d t) = true
str_lt (String.◌∷◌ c s) (String.◌∷◌ d t) = elim (compare (code c) (code d)) [
  | Ordering.lt ↦ true
  | Ordering.gt ↦ false
  | Ordering.eq ↦ str_lt s t
]

-- `str.isspace` of one character
unfoldable pub is_space : ℕ → Bool
is_space c =
    (leb 9 c && leb c 13)
    || (leb 28 c && leb c 32)
    || eqb c 133
    || eqb c 160
    || eqb c 0x1680
    || (leb 0x2000 c && leb c 0x200a)
    || eqb c 0x2028
    || eqb c 0x2029
    || eqb c 0x202f
    || eqb c 0x205f
    || eqb c 0x3000

-- `s.lstrip()`
unfoldable pub lstrip : String → String
unfolding is_space
lstrip String.[] = String.[]
lstrip (String.◌∷◌ c s) = if is_space (code c) then lstrip s else String.◌∷◌ c s

unfoldable pub reverse_onto : String → String → String
reverse_onto String.[] t = t
reverse_onto (String.◌∷◌ c s) t = reverse_onto s (String.◌∷◌ c t)

-- `s.strip()`
unfoldable pub strip : String → String
unfolding lstrip reverse_onto
strip s = reverse_onto (lstrip (reverse_onto (lstrip s) String.[])) String.[]

strip_runs : strip "  a b \t" ≡ "a b"
unfolding strip
strip_runs = refl

-- `s.split(sep)` for a separator of one character; `part`, reversed, is being read.
unfoldable pub split_onto : ℕ → String → String → List String
unfolding reverse_onto
split_onto sep String.[] part = reverse_onto part String.[] ∷ []
split_onto sep (String.◌∷◌ c s) part =
    if eqb (code c) sep
    then reverse_onto part String.[] ∷ split_onto sep s String.[]
    else split_onto sep s (String.◌∷◌ c part)

unfoldable pub split : ℕ → String → List String
unfolding split_onto
split sep s = split_onto sep s String.[]

-- `sep.join(parts)`
unfoldable pub join : String → List String → String
join sep [] = String.[]
join sep (s ∷ []) = s
join sep (s ∷ t ∷ ts) = s ++ (sep ++ join sep (t ∷ ts))

split_runs : split 44 "a,,b" ≡ "a" ∷ "" ∷ "b" ∷ []
unfolding split
split_runs = refl

-- `s.startswith(prefix)`
unfoldable pub starts_with : String → String → Bool
starts_with String.[] s = true
starts_with (String.◌∷◌ c p) String.[] = false
starts_with (String.◌∷◌ c p) (String.◌∷◌ d s) = eqb (code c) (code d) && starts_with p s

starts_with_runs : starts_with "magnet:" "magnet:?xt" && not (starts_with "magnet:" "abc") ≡ true
unfolding starts_with
starts_with_runs = refl

-- `s.partition(c)` for one character: what stands before the first one, and what after it
unfoldable pub before : ℕ → String → String
before c String.[] = String.[]
before c (String.◌∷◌ d s) = if eqb (code d) c then String.[] else String.◌∷◌ d (before c s)

unfoldable pub after : ℕ → String → String
after c String.[] = String.[]
after c (String.◌∷◌ d s) = if eqb (code d) c then s else after c s

-- `s.endswith(suffix)`, for a suffix that is not empty
unfoldable pub ends_with : String → String → Bool
ends_with suffix String.[] = false
ends_with suffix (String.◌∷◌ c s) = String.◌∷◌ c s == suffix || ends_with suffix s

-- `s[:-len(suffix)]`, for a suffix that is not empty and at the end of `s`
unfoldable pub remove_suffix : String → String → String
remove_suffix suffix String.[] = String.[]
remove_suffix suffix (String.◌∷◌ c s) =
    if String.◌∷◌ c s == suffix then String.[] else String.◌∷◌ c (remove_suffix suffix s)

ends_with_runs : ends_with "cd" "abcd" && not (ends_with "bc" "abcd") ≡ true
unfolding ends_with
ends_with_runs = refl

remove_suffix_runs : remove_suffix "cd" "abcd" ≡ "ab"
unfolding remove_suffix
remove_suffix_runs = refl

-- `s[:n]`
unfoldable pub str_take : ℕ → String → String
str_take zero s = String.[]
str_take (suc n) String.[] = String.[]
str_take (suc n) (String.◌∷◌ c s) = String.◌∷◌ c (str_take n s)

-- `sub in s`
unfoldable pub includes : String → String → Bool
unfolding starts_with
includes sub String.[] = starts_with sub String.[]
includes sub (String.◌∷◌ c s) = starts_with sub (String.◌∷◌ c s) || includes sub s

-- `s.rpartition(c)` for one character, none where it does not occur
abbrev pub rpartition_step : ℕ → Char → String → Option (String × String) → Option (String × String)
rpartition_step c d s (some (head, tail)) = some (String.◌∷◌ d head, tail)
rpartition_step c d s none = if eqb (code d) c then some (String.[], s) else none

unfoldable pub rpartition : ℕ → String → Option (String × String)
rpartition c String.[] = none
rpartition c (String.◌∷◌ d s) = rpartition_step c d s (rpartition c s)
