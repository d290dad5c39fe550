-- ===== src/WireIdentity.antt =====
-- backend/cs_uk_api/wire_identity.py: the split of a provider's id, the movie sentinel, and the
-- projection of a merged group. Keys.antt has the keys of titles and Seasons.antt the ids of seasons; the
-- patterns of episodes are left out.
pub mod Keys
pub mod Grammar
pub mod Projection
pub mod Seasons
use ps4_uk_stream.Prelude.{
  ℕ, String, Bool, false, ◌&&◌, ◌||◌, Option, none, some, List, [], ◌∷◌, ◌++◌, map, leb,
  if◌then◌else◌, nat_eq, string_eq,
}
use ps4_uk_stream.Prelude.Dict
use ps4_uk_stream.Prelude.Dict.{Dict}
use ps4_uk_stream.Prelude.Membership.{contains}
use ps4_uk_stream.Prelude.Texts.{before, after, ends_with, remove_suffix}
use ps4_uk_stream.Models.{MediaForm, MediaStyle, SearchResult}
use ps4_uk_stream.Merge.{MergeGroup}
use Prim.Native.Char.{code}

abbrev pub movie_suffix : String
movie_suffix = ":__movie__"

unfoldable pub is_movie_wire_id : String → Bool
is_movie_wire_id item_id = ends_with movie_suffix item_id

unfoldable pub strip_movie_suffix : String → String
strip_movie_suffix item_id =
    if ends_with movie_suffix item_id then remove_suffix movie_suffix item_id else item_id

-- `composite.partition(":")`; 58 is the colon.
unfoldable pub split_wire_id : String → String × String
split_wire_id composite = (before 58 composite, after 58 composite)

pub record GroupProjection : Type 0 where
  pub key : String
  pub title : String
  pub year : Option ℕ
  pub poster : Option String
  pub form : MediaForm
  pub styles : List MediaStyle
  pub genres : List String
  pub providers : List String
  pub sources : List SearchResult
  pub member_keys : List String

-- `tuple(dict.fromkeys(xs))`, from the keys so far
unfoldable pub from_keys : List String → List String → List String
from_keys keys [] = keys
from_keys keys (x ∷ xs) = from_keys (if contains x keys then keys else keys ++ x ∷ []) xs

-- `_HAS_CYRILLIC.search`
unfoldable pub has_cyrillic : String → Bool
has_cyrillic String.[] = false
has_cyrillic (String.◌∷◌ c s) = (leb 0x400 (code c) && leb (code c) 0x4ff) || has_cyrillic s

-- `next((s for s in sources if _HAS_CYRILLIC.search(s.title)), first)`
unfoldable pub sample_of : SearchResult → List SearchResult → SearchResult
unfolding has_cyrillic
sample_of first [] = first
sample_of first (s ∷ sources) = if has_cyrillic s.title then s else sample_of first sources

-- `project_group` on the key and the sources; without a source it raises IndexError.
unfoldable pub projection :
    (SearchResult → String) → String → List SearchResult → Option GroupProjection
unfolding sample_of from_keys
projection key_of key [] = none
projection key_of key (first ∷ others) =
    let sample = sample_of first (first ∷ others) in
    some record {
      key = key;
      title = sample.title;
      year = sample.year;
      poster = sample.poster;
      form = sample.form;
      styles = sample.styles;
      genres = sample.genres;
      providers = from_keys [] (map (λ s. s.provider) (first ∷ others));
      sources = first ∷ others;
      member_keys = from_keys [] (map key_of (first ∷ others));
    }

unfoldable pub project_group : (SearchResult → String) → MergeGroup → Option GroupProjection
unfolding projection
project_group key_of mg = projection key_of mg.key mg.sources

-- The loop of `provider_union`, with `setdefault`
unfoldable pub union_onto : Dict String SearchResult → List SearchResult → Dict String SearchResult
union_onto union [] = union
union_onto union (s ∷ sources) =
    union_onto (if Dict.member s.provider union then union else Dict.put s.provider s union) sources

unfoldable pub provider_union : List SearchResult → Dict String SearchResult
unfolding union_onto
provider_union sources = union_onto [] sources
