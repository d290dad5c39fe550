-- ===== src/Examples/Catalog.antt =====
-- backend/cs_uk_api/filters.py, row_kinds.py and catalog_warm.py at concrete inputs.
use ps4_uk_stream.Prelude.{
  ◌+◌, String, ◌≡◌, refl, ◌≢◌, false, not, none, some, List, [], ◌∷◌, if◌then◌else◌, ◌==◌, nat_eq,
  string_eq, length, keep, count_if,
}
use ps4_uk_stream.Models.{MediaForm, MediaStyle, SearchResult, Section}
use ps4_uk_stream.Filters.{has, style_key, Parsed, parse_style_filter}
use ps4_uk_stream.Filters.Keys.{parse_style_filter-style_key}
use ps4_uk_stream.RowKinds.{RowKind, FormFilter, SourcesSelector}
use ps4_uk_stream.CatalogWarm.{HomeRow, Resolved, first_card_keys, warm_catalog}
use ps4_uk_stream.CatalogWarm.Coverage.{warm, crashed, warm_catalog_accounts}

abbrev two_styles : List MediaStyle
two_styles = MediaStyle.dorama ∷ MediaStyle.anime ∷ []

parse_style_filter-style_key_example :
    (g : List MediaStyle) × (parse_style_filter (some (style_key (some two_styles)))
      ≡ Parsed.parsed (some g))
    × ((s : MediaStyle) → has s g ≡ has s two_styles)
parse_style_filter-style_key_example = parse_style_filter-style_key two_styles refl

abbrev card : SearchResult
card = record {
  id = "p:1";
  provider = "p";
  form = MediaForm.series;
  title = "Dune";
  year = some 2021;
  poster = none;
  url = "u";
  styles = MediaStyle.anime ∷ [];
  genres = [];
  imdb_id = none;
}

abbrev shelf : Section
shelf = record { id = "s"; title = "t"; form = some MediaForm.series; styles = some two_styles }

shelf_ne : shelf.styles ≢ some []
shelf_ne e = cc

abbrev new_episodes : RowKind
new_episodes = record {
  kind = "new_episodes";
  title = "Нові серії";
  filter = FormFilter.form_filter;
  form = some MediaForm.series;
  sources = SourcesSelector.from_newest;
  jf_type = "Series";
  collection_type = "tvshows";
  extendable = false;
}

abbrev rows : List HomeRow
rows =
    record { group_keys = "g1" ∷ "g2" ∷ [] } ∷ record { group_keys = "g1" ∷ "g3" ∷ "g4" ∷ [] } ∷ []

abbrev answers : String → Resolved
answers gk =
    if gk == "g1"
    then Resolved.content
    else if gk == "g2"
    then Resolved.raised
    else Resolved.unavailable

warm_catalog_accounts_example :
    let state = warm_catalog 2 answers (some rows) in
    let keys = first_card_keys 2 rows in
    (state.content_warmed ≡ count_if (λ k. warm (answers k)) keys)
    × (state.failed ≡ count_if (λ k. crashed (answers k)) keys)
    × (state.cold_keys ≡ keep (λ k. not (warm (answers k))) keys)
    × (state.planned ≡ state.content_warmed + length state.cold_keys)
warm_catalog_accounts_example = warm_catalog_accounts 2 answers rows
