-- ===== src/Examples/Seasons.antt =====
-- backend/cs_uk_api/wire_identity.py, the ids of seasons, at concrete inputs: numbers in unary, and the
-- superscript two, which `isdigit` accepts and `int` does not read.
use ps4_uk_stream.Prelude.{
  ℕ, zero, suc, String, ◌≡◌, refl, ap, ◌∙◌, Bool, true, false, ◌&&◌, ◌||◌, Option, none, some, eqb,
  if◌then◌else◌, nat_eq, string_eq,
}
use Prim.Native.Char.{code}
use Prim.Native.String.{◌++◌ as ◌<>◌}
use ps4_uk_stream.Prelude.Texts.{starts_with}
use ps4_uk_stream.WireIdentity.Grammar.{lacks}
use ps4_uk_stream.WireIdentity.Seasons.{
  is_group_key, Digits, DigitLaws, SeasonSplit, season_key, split_season_key,
  split_season_key-season_key, split_season_key_raises,
}

abbrev ones : ℕ → String
ones zero = "1"
ones (suc n) = String.◌∷◌ "1" (ones n)

abbrev all_digits : String → Bool
all_digits String.[] = true
all_digits (String.◌∷◌ c s) = (eqb (code c) 49 || eqb (code c) 178) && all_digits s

abbrev unary_digit : String → Bool
unary_digit String.[] = false
unary_digit (String.◌∷◌ c s) = (eqb (code c) 49 || eqb (code c) 178) && all_digits s

abbrev next_number : String → Option ℕ → Option ℕ
next_number String.[] rest = some 0
next_number (String.◌∷◌ c s) none = none
next_number (String.◌∷◌ c s) (some n) = some (suc n)

abbrev read_ones : String → Option ℕ
read_ones String.[] = none
read_ones (String.◌∷◌ c s) = if eqb (code c) 49 then next_number s (read_ones s) else none

abbrev unary : Digits
unary = record { decimal = ones; is_digit = unary_digit; int_of = read_ones }

ones_digits : (n : ℕ) → all_digits (ones n) ≡ true
ones_digits zero = refl
ones_digits (suc n) = ones_digits n

ones_unary : (n : ℕ) → unary_digit (ones n) ≡ true
ones_unary zero = refl
ones_unary (suc n) = ones_digits n

ones-lacks : (n : ℕ) → lacks 58 (ones n) ≡ true
ones-lacks zero = refl
ones-lacks (suc n) = ones-lacks n

next_number-ones : (n k : ℕ) → next_number (ones n) (some k) ≡ some (suc k)
next_number-ones zero k = refl
next_number-ones (suc n) k = refl

read_ones-ones : (n : ℕ) → read_ones (ones n) ≡ some n
read_ones-ones zero = refl
read_ones-ones (suc n) = ap (next_number (ones n)) (read_ones-ones n) ∙ next_number-ones n n

unary-DigitLaws : DigitLaws unary
unary-DigitLaws = record {
  decimal_is_digit = ones_unary;
  decimal_lacks = ones-lacks;
  int_of-decimal = read_ones-ones;
}

split_season_key-season_key_example :
    split_season_key unary (season_key unary "g2:abc" 2)
    ≡ SeasonSplit.season_split "g2:abc" (some 2)
unfolding starts_with is_group_key
split_season_key-season_key_example =
    split_season_key-season_key unary "g2:abc" 2 unary-DigitLaws refl

split_season_key_raises_example :
    split_season_key unary ("g2:abc" <> (":" <> ("S" <> "²"))) ≡ SeasonSplit.value_error
unfolding starts_with is_group_key
split_season_key_raises_example = split_season_key_raises unary "g2:abc" "²" refl refl refl refl
