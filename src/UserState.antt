-- ===== src/UserState.antt =====
-- backend/cs_uk_api/user_state.py: `UserStateStore` in memory. A Python set is a list in which no
-- element stands twice; the program shows sets through `sorted` and `in` alone.
pub mod Marks
pub mod Dubs
pub mod Saved
pub mod Restart
use ps4_uk_stream.Prelude.{
  ℕ, zero, suc, String, Bool, Option, List, [], ◌∷◌, ltb, if◌then◌else◌, nat_eq, string_eq, length,
  take_last,
}
use ps4_uk_stream.Prelude.Dict
use ps4_uk_stream.Prelude.Dict.{Dict}
use ps4_uk_stream.Prelude.Sorting.{sorted}
use ps4_uk_stream.Prelude.Membership.{contains, without}
use ps4_uk_stream.Prelude.Texts.{str_le}

-- `MAX_MARKS`
abbrev pub max_marks : ℕ
max_marks = 256

-- `MAX_DUB_MEMORY`
abbrev pub max_dub_memory : ℕ
max_dub_memory = 50

pub record UserState : Type 0 where
  pub favorites : List String
  pub played : List String
  pub dub_memory : Dict String String

-- `s.add(x)`
unfoldable pub add : String → List String → List String
unfolding contains
add x s = if contains x s then s else x ∷ s

-- `s.discard(x)`
unfoldable pub discard : String → List String → List String
discard x s = without x s

-- One list of `_trim`: `set(sorted(marks)[-MAX_MARKS:])` over the cap
unfoldable pub trim_marks : List String → List String
trim_marks marks =
    if ltb max_marks (length marks) then take_last max_marks (sorted str_le marks) else marks

-- `_trim`
unfoldable pub trim : UserState → UserState
unfolding trim_marks
trim s = record s { favorites = trim_marks s.favorites; played = trim_marks s.played }

unfoldable pub set_favorite : String → Bool → UserState → UserState
unfolding trim add discard
set_favorite item_id is_favorite s = trim (record s {
  favorites = if is_favorite then add item_id s.favorites else discard item_id s.favorites;
})

unfoldable pub set_played : String → Bool → UserState → UserState
unfolding trim add discard
set_played item_id played s =
    trim (record s { played = if played then add item_id s.played else discard item_id s.played })

unfoldable pub is_favorite : String → UserState → Bool
unfolding contains
is_favorite item_id s = contains item_id s.favorites

unfoldable pub is_played : String → UserState → Bool
unfolding contains
is_played item_id s = contains item_id s.played

-- `favorites()`
unfoldable pub list_favorites : UserState → List String
list_favorites s = sorted str_le s.favorites

-- `played()`
unfoldable pub list_played : UserState → List String
list_played s = sorted str_le s.played

-- The `while` of `remember_dub`: the first key of the dict is dropped until the cap holds. `pop` takes
-- the only entry of that key; the loop ends since each round drops one.
unfoldable pub drop_oldest : ℕ → Dict String String → Dict String String
drop_oldest zero d = d
drop_oldest (suc rounds) [] = []
drop_oldest (suc rounds) ((k, v) ∷ d) =
    let rest = drop_oldest rounds (Dict.remove k ((k, v) ∷ d)) in
    if ltb max_dub_memory (length ((k, v) ∷ d)) then rest else (k, v) ∷ d

unfoldable pub remember_dub : String → String → UserState → UserState
unfolding drop_oldest
remember_dub series_group_key translation_label s =
    let remembered =
      Dict.put series_group_key translation_label (Dict.remove series_group_key s.dub_memory) in
    record s { dub_memory = drop_oldest (length remembered) remembered }

unfoldable pub dub_for : String → UserState → Option String
dub_for series_group_key s = Dict.get series_group_key s.dub_memory

-- `clear`
unfoldable pub clear : UserState → UserState
clear s = record s { favorites = []; played = []; dub_memory = [] }
