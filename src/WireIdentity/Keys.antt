-- ===== src/WireIdentity/Keys.antt =====
-- backend/cs_uk_api/wire_identity.py: the aliases of a title and the keys of items. The regular
-- expressions, `lower` and the Unicode categories of the normalization, and SHA-1, are arguments, with
-- their results on a text.
use ps4_uk_stream.Prelude.{
  ℕ, String, Bool, not, ◌&&◌, Option, none, some, List, [], ◌∷◌, ◌++◌, if◌then◌else◌, ◌==◌, nat_eq,
  string_eq,
}
use ps4_uk_stream.Prelude.Membership.{contains}
use ps4_uk_stream.Prelude.Texts.{strip, join, str_take}
use ps4_uk_stream.Models.{form_name, SearchResult}
use ps4_uk_stream.Merge.{TitleRules, least_key}

-- What the keys take from `re`, `unicodedata` and `hashlib`: the pieces of a title between slashes,
-- one piece normalized, the year in a title, the hexadecimal digest of a text, the decimal digits of
-- a year, and the pattern of an IMDb id.
pub record TextTools : Type 0 where
  pub split_aliases : String → List String
  pub normalize_one : String → String
  pub extract_year : String → Option ℕ
  pub digest : String → String
  pub year_text : ℕ → String
  pub is_imdb_id : String → Bool

-- `imdb_id and pattern.fullmatch(imdb_id)`
abbrev pub valid_imdb : (String → Bool) → Option String → Option String
valid_imdb is_imdb_id none = none
valid_imdb is_imdb_id (some imdb_id) =
    if not (imdb_id == "") && is_imdb_id imdb_id then some imdb_id else none

module _ (tools : TextTools) where
  open tools use {split_aliases, normalize_one, extract_year, digest, year_text, is_imdb_id}

  -- The loop of `title_aliases` over the pieces, with what it has seen
  unfoldable pub aliases_onto : List String → List String → List String
  aliases_onto seen [] = seen
  aliases_onto seen (piece ∷ pieces) =
      let norm = normalize_one piece in
      aliases_onto
        (if not (norm == "") && not (contains norm seen) then seen ++ norm ∷ [] else seen) pieces

  unfoldable pub title_aliases : String → List String
  unfolding aliases_onto
  title_aliases raw = aliases_onto [] (split_aliases (strip raw))

  abbrev pub first_or_empty : List String → String
  first_or_empty [] = ""
  first_or_empty (a ∷ aliases) = a

  unfoldable pub normalize_title : String → String
  normalize_title raw = first_or_empty (title_aliases raw)

  abbrev pub effective_year : String → Option ℕ → Option ℕ
  effective_year title none = extract_year title
  effective_year title (some year) = some year

  -- `year or ''`
  abbrev pub year_or_empty : Option ℕ → String
  year_or_empty none = ""
  year_or_empty (some year) = if year == 0 then "" else year_text year

  unfoldable pub group_key : String → String → Option ℕ → String
  group_key alias form year =
      join ""
        ("g2:" ∷ str_take 16 (digest (join "|" (alias ∷ form ∷ year_or_empty year ∷ []))) ∷ [])

  abbrev pub imdb_key : String → String
  imdb_key imdb_id = join "" ("g3:" ∷ imdb_id ∷ [])

  -- Any other text raises ValueError.
  unfoldable pub group_key_from_imdb : String → Option String
  group_key_from_imdb imdb_id = if is_imdb_id imdb_id then some (imdb_key imdb_id) else none

  abbrev pub key_alias : List String → String → String
  key_alias [] item_id = join "" ("id:" ∷ item_id ∷ [])
  key_alias (a ∷ aliases) item_id = least_key (a ∷ aliases)

  unfoldable pub group_key_from : String → String → Option ℕ → String → String
  unfolding group_key title_aliases
  group_key_from title form year item_id =
      group_key (key_alias (title_aliases title) item_id) form (effective_year title year)

  abbrev pub item_key : SearchResult → Option String → String
  item_key it (some imdb_id) = imdb_key imdb_id
  item_key it none = group_key_from it.title (form_name it.form) it.year it.id

  -- `it.imdb_id and IMDB_ID_RE.fullmatch(it.imdb_id)`, then `group_key_from_imdb`, which cannot raise
  unfoldable pub item_group_key : SearchResult → String
  unfolding group_key_from
  item_group_key it = item_key it (valid_imdb is_imdb_id it.imdb_id)

  -- What merge.py takes from here; it calls `group_key_from_imdb` on valid ids only.
  abbrev pub wire_rules : TitleRules
  wire_rules = record {
    title_aliases = title_aliases;
    effective_year = effective_year;
    is_imdb_id = is_imdb_id;
    item_group_key = item_group_key;
    group_key_from_imdb = imdb_key;
  }
