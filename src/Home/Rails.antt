-- ===== src/Home/Rails.antt =====
-- backend/cs_uk_api/home.py: `build_genre_rows`. The genres of a group's profile, a frozenset, are a list
-- here: what is counted and sorted does not depend on their order. `lower` and `isalnum` are arguments.
use Prim.Native.Char.{Char}
use ps4_uk_stream.Prelude.{
  ◌+◌, ℕ, zero, suc, String, Bool, false, not, ◌&&◌, Option, none, some, List, [], ◌∷◌, ltb, eqb,
  if◌then◌else◌, ◌==◌, nat_eq, string_eq, take, keep,
}
use ps4_uk_stream.Prelude.Dict
use ps4_uk_stream.Prelude.Dict.{Dict}
use ps4_uk_stream.Prelude.Membership.{contains}
use ps4_uk_stream.Prelude.Sorting.{sorted}
use ps4_uk_stream.Prelude.Texts.{str_le, strip, split, join}
use ps4_uk_stream.Models.{HomeItem, HomeRow}

-- `GENRE_RAILS_TOP_N`, `GENRE_RAILS_MIN_ITEMS` and `GENRE_RAILS_LIMIT`
abbrev pub genre_rails_top_n : ℕ
genre_rails_top_n = 6

abbrev pub genre_rails_min_items : ℕ
genre_rails_min_items = 3

abbrev pub genre_rails_limit : ℕ
genre_rails_limit = 20

abbrev pub Coverage : Type 0
Coverage = Dict String ℕ

abbrev pub or_zero : Option ℕ → ℕ
or_zero none = 0
or_zero (some n) = n

-- The loop over the genres of one profile, and the one over the labels of one card
unfoldable pub count_genres : List String → Coverage → Coverage
count_genres [] coverage = coverage
count_genres (genre ∷ genres) coverage =
    count_genres genres (Dict.put genre (or_zero (Dict.get genre coverage) + 1) coverage)

unfoldable pub default_labels : List String → Dict String String → Dict String String
default_labels [] labels = labels
default_labels (genre ∷ genres) labels = default_labels genres (Dict.setdefault genre genre labels)

-- `sorted(coverage.items(), key=lambda kv: (-kv[1], kv[0]))`
abbrev pub coverage_le : String × ℕ → String × ℕ → Bool
coverage_le (a, m) (b, n) = if eqb m n then str_le a b else ltb n m

-- `{it.group_key: it for it in home_items}`
unfoldable pub index_items : Dict String HomeItem → List HomeItem → Dict String HomeItem
index_items by_key [] = by_key
index_items by_key (it ∷ items) = index_items (Dict.put it.group_key it by_key) items

-- `by_key[it.group_key]`, which is there
abbrev pub item_or : HomeItem → Option HomeItem → HomeItem
item_or it none = it
item_or it (some found) = found

abbrev pub has_genre : String → Option (List String) → Bool
has_genre genre none = false
has_genre genre (some genres) = contains genre genres

module _ (lower : String → String) (is_alnum : Char → Bool)
    (genres_of : String → Option (List String)) where
  unfoldable pub card_labels : List String → Coverage → Dict String String → Dict String String
  card_labels [] coverage labels = labels
  card_labels (raw ∷ genres) coverage labels =
      let norm = lower (strip raw) in
      card_labels genres coverage (
        if not (norm == "") && Dict.member norm coverage
        then Dict.put norm (strip raw) labels
        else labels)

  -- The first loop of `build_genre_rows`
  unfoldable pub survey :
      List HomeItem → Coverage → Dict String String → Coverage × Dict String String
  unfolding count_genres default_labels card_labels
  survey [] coverage labels = (coverage, labels)
  survey (it ∷ items) coverage labels = elim (genres_of it.group_key) [
    | none ↦ survey items coverage labels
    | some genres ↦
        let coverage' = count_genres genres coverage in
        survey items coverage' (card_labels it.genres coverage' (default_labels genres labels))
  ]

  -- The loop that collects the members of a rail, with room for so many
  unfoldable pub members_of :
      String → Dict String HomeItem → ℕ → List String → List HomeItem → List HomeItem
  members_of genre by_key room seen [] = []
  members_of genre by_key zero seen (it ∷ items) = []
  members_of genre by_key (suc room) seen (it ∷ items) =
      let skipped = members_of genre by_key (suc room) seen items in
      let others = members_of genre by_key room (it.group_key ∷ seen) items in
      if has_genre genre (genres_of it.group_key) && not (contains it.group_key seen)
      then item_or it (Dict.get it.group_key by_key) ∷ others
      else skipped

  abbrev pub dashed : String → String
  dashed String.[] = String.[]
  dashed (String.◌∷◌ c s) = String.◌∷◌ (if is_alnum c then c else "-") (dashed s)

  -- `_genre_slug`; 45 is the dash.
  unfoldable pub genre_slug : String → String
  genre_slug genre =
      join "-" (keep (λ part. not (part == "")) (split 45 (dashed (lower (strip genre)))))

  abbrev pub label_or : String → Option String → String
  label_or genre none = genre
  label_or genre (some label) = label

  -- The loop over the genres of most coverage
  unfoldable pub rails : List HomeItem → Dict String String → ℕ → ℕ → Coverage → List HomeRow
  unfolding members_of index_items genre_slug
  rails home_items labels min_items limit [] = []
  rails home_items labels min_items limit ((genre, count) ∷ top) =
      let others = rails home_items labels min_items limit top in
      if ltb count min_items
      then others
      else record {
        title = label_or genre (Dict.get genre labels);
        kind = join "" ("genre:" ∷ genre_slug genre ∷ []);
        items = members_of genre (index_items [] home_items) limit [] home_items;
      }
        ∷ others

  unfoldable pub build_genre_rows : List HomeItem → ℕ → ℕ → ℕ → List HomeRow
  unfolding survey rails
  build_genre_rows home_items top_n min_items limit =
      let (coverage, labels) = survey home_items [] [] in
      rails home_items labels min_items limit (take top_n (sorted coverage_le coverage))
