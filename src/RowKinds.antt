-- ===== src/RowKinds.antt =====
-- backend/cs_uk_api/row_kinds.py: the table of the home rows and the maps that are derived from it. The
-- hash `uuid.uuid5(NAMESPACE_URL, _).hex` is a parameter.
pub mod Views
use mathlib.Core.Option.{map as option_map}
use Prim.Native.String.{◌++◌}
use ps4_uk_stream.Prelude.{
  String, Bool, true, false, Option, none, some, List, [], ◌∷◌, map, ◌==◌, nat_eq, string_eq, keep,
}
use ps4_uk_stream.Prelude.Dict
use ps4_uk_stream.Prelude.Dict.{Dict}
use ps4_uk_stream.Models.{MediaForm, form_eqb, SearchResult}

pub data FormFilter : Type 0 where
  form_filter any_filter : FormFilter

pub data SourcesSelector : Type 0 where
  from_newest from_popular by_type from_history from_idea : SourcesSelector

pub record RowKind : Type 0 where
  pub kind : String
  pub title : String
  pub filter : FormFilter
  pub form : Option MediaForm
  pub sources : SourcesSelector
  pub jf_type : String
  pub collection_type : String
  pub extendable : Bool

-- `ROW_KINDS`
unfoldable pub row_kinds : Dict String RowKind
row_kinds =
    (
      "recent_movie",
      record {
        kind = "recent_movie";
        title = "Нещодавно додані: Фільми";
        filter = FormFilter.form_filter;
        form = some MediaForm.movie;
        sources = SourcesSelector.from_newest;
        jf_type = "Movie";
        collection_type = "movies";
        extendable = true;
      },
    )
    ∷ (
      "recent_series",
      record {
        kind = "recent_series";
        title = "Нещодавно додані: Серіали";
        filter = FormFilter.form_filter;
        form = some MediaForm.series;
        sources = SourcesSelector.from_newest;
        jf_type = "Series";
        collection_type = "tvshows";
        extendable = true;
      },
    )
    ∷ (
      "new_episodes",
      record {
        kind = "new_episodes";
        title = "Нові серії";
        filter = FormFilter.form_filter;
        form = some MediaForm.series;
        sources = SourcesSelector.from_newest;
        jf_type = "Series";
        collection_type = "tvshows";
        extendable = false;
      },
    )
    ∷ (
      "recently_watched",
      record {
        kind = "recently_watched";
        title = "Нещодавно переглянуто";
        filter = FormFilter.any_filter;
        form = none;
        sources = SourcesSelector.from_history;
        jf_type = "Series";
        collection_type = "tvshows";
        extendable = false;
      },
    )
    ∷ (
      "popular",
      record {
        kind = "popular";
        title = "Популярні зараз";
        filter = FormFilter.any_filter;
        form = none;
        sources = SourcesSelector.from_popular;
        jf_type = "Series";
        collection_type = "tvshows";
        extendable = true;
      },
    )
    ∷ (
      "movie",
      record {
        kind = "movie";
        title = "Фільми";
        filter = FormFilter.form_filter;
        form = some MediaForm.movie;
        sources = SourcesSelector.by_type;
        jf_type = "Movie";
        collection_type = "movies";
        extendable = true;
      },
    )
    ∷ (
      "series",
      record {
        kind = "series";
        title = "Серіали";
        filter = FormFilter.form_filter;
        form = some MediaForm.series;
        sources = SourcesSelector.by_type;
        jf_type = "Series";
        collection_type = "tvshows";
        extendable = true;
      },
    )
    ∷ (
      "anime",
      record {
        kind = "anime";
        title = "Аніме";
        filter = FormFilter.any_filter;
        form = none;
        sources = SourcesSelector.by_type;
        jf_type = "Series";
        collection_type = "tvshows";
        extendable = true;
      },
    )
    ∷ (
      "cartoon",
      record {
        kind = "cartoon";
        title = "Мультфільми";
        filter = FormFilter.any_filter;
        form = none;
        sources = SourcesSelector.by_type;
        jf_type = "Series";
        collection_type = "tvshows";
        extendable = true;
      },
    )
    ∷ (
      "dorama",
      record {
        kind = "dorama";
        title = "Дорами";
        filter = FormFilter.any_filter;
        form = none;
        sources = SourcesSelector.by_type;
        jf_type = "Series";
        collection_type = "tvshows";
        extendable = true;
      },
    )
    ∷ (
      "llm_idea_1",
      record {
        kind = "llm_idea_1";
        title = "Ідея";
        filter = FormFilter.any_filter;
        form = none;
        sources = SourcesSelector.from_idea;
        jf_type = "Series";
        collection_type = "tvshows";
        extendable = false;
      },
    )
    ∷ (
      "llm_idea_2",
      record {
        kind = "llm_idea_2";
        title = "Ідея";
        filter = FormFilter.any_filter;
        form = none;
        sources = SourcesSelector.from_idea;
        jf_type = "Series";
        collection_type = "tvshows";
        extendable = false;
      },
    )
    ∷ []

-- `rk.view_id`
abbrev pub view_id : (String → String) → RowKind → String
view_id uuid5_hex rk = uuid5_hex ("cs-uk-api-view:" ++ rk.kind)

-- A dict comprehension: the later of two equal keys wins.
abbrev pub put_views :
    (String → String) → Dict String RowKind → Dict String String → Dict String String
put_views uuid5_hex [] views = views
put_views uuid5_hex ((k, rk) ∷ table) views =
    put_views uuid5_hex table (Dict.put (view_id uuid5_hex rk) rk.kind views)

-- `VIEW_TYPE_BY_ID`
unfoldable pub view_type_by_id : (String → String) → Dict String String
view_type_by_id uuid5_hex = put_views uuid5_hex row_kinds []

-- `KINDS_BY_JF_TYPE[t]`, the kinds in table order; the empty list for a type that no row has
unfoldable pub kinds_by_jf_type : String → List String
kinds_by_jf_type t = map (λ r. r.1.kind) (keep (λ r. r.1.jf_type == t) row_kinds)

abbrev pub is_by_type : SourcesSelector → Bool
is_by_type SourcesSelector.by_type = true
is_by_type _ = false

-- `TYPE_KINDS`
unfoldable pub type_kinds : List String
type_kinds = map (λ r. r.1.kind) (keep (λ r. is_by_type r.1.sources) row_kinds)

-- `item.form == entry.form`
abbrev pub has_form : MediaForm → Option MediaForm → Bool
has_form form none = false
has_form form (some f) = form_eqb form f

abbrev pub entry_admits : RowKind → SearchResult → Bool
entry_admits entry item = elim entry.filter [
  | form_filter ↦ has_form item.form entry.form
  | any_filter ↦ true
]

-- None is the `KeyError` of an unknown kind.
unfoldable pub item_matches_row : String → SearchResult → Option Bool
item_matches_row kind item = option_map (λ entry. entry_admits entry item) (Dict.get kind row_kinds)
