-- ===== src/WireIdentity/Seasons.antt =====
-- backend/cs_uk_api/wire_identity.py: the ids of seasons. What Python's `str`, `str.isdigit` and
-- `int` say of a text is an argument; `isdigit` holds of more texts than `int` reads.
use ps4_uk_stream.Prelude.{
  ℕ, String, ◌≡◌, refl, ap, ◌∙◌, Bool, true, false, not, ◌&&◌, ◌||◌, Option, none, some, arith, eqb,
  if◌then◌else◌, nat_eq, string_eq,
}
use Prim.Native.Char.{code}
use Prim.Native.String.{◌++◌ as ◌<>◌}
use Prim.Native.String.append
use ps4_uk_stream.Prelude.Texts.{starts_with, rpartition}
use ps4_uk_stream.WireIdentity.Grammar.{lacks}

pub record Digits : Type 0 where
  pub decimal : ℕ → String
  pub is_digit : String → Bool
  pub int_of : String → Option ℕ

-- Python's texts of numbers are digits without a colon, and `int` reads them back.
pub record DigitLaws (digits : Digits) : Type 0 where
  pub decimal_is_digit : (n : ℕ) → digits.is_digit (digits.decimal n) ≡ true
  pub decimal_lacks : (n : ℕ) → lacks 58 (digits.decimal n) ≡ true
  pub int_of-decimal : (n : ℕ) → digits.int_of (digits.decimal n) ≡ some n

-- What `split_season_key` returns, or the ValueError of `int`
pub data SeasonSplit : Type 0 where
  season_split : String → Option ℕ → SeasonSplit
  value_error : SeasonSplit

unfoldable pub is_group_key : String → Bool
unfolding starts_with
is_group_key item_id = starts_with "g2:" item_id || starts_with "g3:" item_id

module _ (digits : Digits) where
  open digits use {decimal, is_digit, int_of}

  unfoldable pub season_key : String → ℕ → String
  season_key group_key season_number = group_key <> (":" <> ("S" <> decimal season_number))

  abbrev pub read_number : String → Option ℕ → SeasonSplit
  read_number head none = SeasonSplit.value_error
  read_number head (some n) = SeasonSplit.season_split head (some n)

  -- `tail.startswith("S") and tail[1:].isdigit()`, then `int(tail[1:])`; 83 is the letter S.
  unfoldable pub read_tail : String → String → String → SeasonSplit
  read_tail item_id head String.[] = SeasonSplit.season_split item_id none
  read_tail item_id head (String.◌∷◌ c rest) =
      if eqb (code c) 83 && is_digit rest
      then read_number head (int_of rest)
      else SeasonSplit.season_split item_id none

  abbrev pub read_parts : String → Option (String × String) → SeasonSplit
  read_parts item_id none = SeasonSplit.season_split item_id none
  read_parts item_id (some (head, tail)) = read_tail item_id head tail

  unfoldable pub split_season_key : String → SeasonSplit
  unfolding is_group_key read_tail rpartition
  split_season_key item_id =
      if not (is_group_key item_id)
      then SeasonSplit.season_split item_id none
      else read_parts item_id (rpartition 58 item_id)

starts_with-join : (p s t : String) → starts_with p s ≡ true → starts_with p (s <> t) ≡ true
unfolding starts_with
starts_with-join String.[] s t h = refl
starts_with-join (String.◌∷◌ c p) String.[] t h = absurd cc
starts_with-join (String.◌∷◌ c p) (String.◌∷◌ d s) t h =
    rw append.cons (ground (arith, starts_with-join p s t))

is_group_key-join : (g t : String) → is_group_key g ≡ true → is_group_key (g <> t) ≡ true
unfolding is_group_key
is_group_key-join g t h = ground (arith, starts_with-join "g2:" g t, starts_with-join "g3:" g t)

rpartition-lacks : (s : String) → lacks 58 s ≡ true → rpartition 58 s ≡ none
unfolding rpartition
rpartition-lacks String.[] h = refl
rpartition-lacks (String.◌∷◌ c s) h =
    let rest : lacks 58 s ≡ true = ground arith in
    let miss : eqb (code c) 58 ≡ false = ground arith in rw (rpartition-lacks s rest, miss) refl

rpartition-join :
    (head tail : String)
    → lacks 58 tail ≡ true
    → rpartition 58 (head <> String.◌∷◌ ":" tail) ≡ some (head, tail)
unfolding rpartition
rpartition-join String.[] tail h = rw (append.nil, rpartition-lacks tail h) refl
rpartition-join (String.◌∷◌ c head) tail h = rw (append.cons, rpartition-join head tail h) refl

module _ (digits : Digits) (group : String) where
  -- What `split_season_key` makes of a group key, `:S` and a text without a colon
  split_tail :
      (tail : String)
      → is_group_key group ≡ true
      → lacks 58 tail ≡ true
      → digits.is_digit tail ≡ true
      → split_season_key digits (group <> (":" <> ("S" <> tail)))
        ≡ read_number digits group (digits.int_of tail)
  unfolding split_season_key read_tail
  split_tail tail g l d =
      let colon : ":" <> ("S" <> tail) ≡ String.◌∷◌ ":" (String.◌∷◌ "S" tail) =
        rw (append.cons, append.nil, append.cons, append.nil) refl in
      rw
        (
          is_group_key-join group (":" <> ("S" <> tail)) g,
          colon,
          rpartition-join group (String.◌∷◌ "S" tail) l,
          d,
        )
        refl

  -- Splitting the season id of a group key and a season number gives the two back.
  pub split_season_key-season_key :
      (season_number : ℕ)
      → DigitLaws digits
      → is_group_key group ≡ true
      → split_season_key digits (season_key digits group season_number)
        ≡ SeasonSplit.season_split group (some season_number)
  unfolding season_key
  split_season_key-season_key season_number laws g =
      split_tail (digits.decimal season_number) g (laws.decimal_lacks season_number)
        (laws.decimal_is_digit season_number)
      ∙ ap (read_number digits group) (laws.int_of-decimal season_number)

  -- A group key, `:S` and a text without a colon that `isdigit` accepts and `int` does not read make
  -- `split_season_key` raise.
  pub split_season_key_raises :
      (tail : String)
      → is_group_key group ≡ true
      → lacks 58 tail ≡ true
      → digits.is_digit tail ≡ true
      → digits.int_of tail ≡ none
      → split_season_key digits (group <> (":" <> ("S" <> tail))) ≡ SeasonSplit.value_error
  split_season_key_raises tail g l d n = split_tail tail g l d ∙ ap (read_number digits group) n
