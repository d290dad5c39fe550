-- ===== src/Examples/Catalogs.antt =====
-- backend/cs_uk_api/_catalog_state/_stores.py at concrete inputs.
use ps4_uk_stream.Prelude.{
  false, any, leb, if◌then◌else◌, ◌+◌, ◌≡◌, refl, ℕ, String, true, none, some, List, [], ◌∷◌, arith,
  nat_eq, string_eq,
}
use ps4_uk_stream.Prelude.Dict
use ps4_uk_stream.Prelude.Dict.{Dict}
use ps4_uk_stream.Prelude.Integers.{pos, max_zero}
use ps4_uk_stream.Prelude.Membership.{contains}
use ps4_uk_stream.Models.{MediaForm, SearchResult, SearchGroup, HomeItem, HomeResponse}
use ps4_uk_stream.WireIdentity.{provider_union}
use ps4_uk_stream.CatalogState.{
  Catalog, Sources, sources, sources_key, apply_snapshot, reset, no_card,
}
use ps4_uk_stream.CatalogState.Reads.{group_resolution, snapshot_entries}
use ps4_uk_stream.CatalogState.Searches.{register_search}
use ps4_uk_stream.CatalogState.Layers.{cell, is_live, only, owned_by}
use ps4_uk_stream.CatalogState.Snapshots.{Event, run, cell-apply_snapshot}
use ps4_uk_stream.CatalogState.Shelf.{shelf, latest, snapshot_entries-run}
use ps4_uk_stream.CatalogState.Actionable.{Answers, register_search-actionable}
use ps4_uk_stream.CatalogState.Lapses.{is_held, register_search_lifetime}
use ps4_uk_stream.CatalogState.News.{is_news}

abbrev card : String → SearchResult
card provider = record {
  id = "1";
  provider = provider;
  form = MediaForm.movie;
  title = "Дюна";
  year = some 2021;
  poster = none;
  url = "u";
  styles = [];
  genres = [];
  imdb_id = none;
}

abbrev dune : SearchGroup
dune = record {
  group_key = "g2:dune";
  title = "Дюна";
  year = some 2021;
  poster = none;
  form = MediaForm.movie;
  styles = [];
  genres = [];
  sources = card "uakino" ∷ card "animeon" ∷ [];
  member_keys = [];
}

abbrev home_row_item : HomeItem
home_row_item = record {
  group_key = "g2:alien";
  title = "Чужий";
  year = none;
  poster = none;
  form = MediaForm.movie;
  styles = [];
  genres = [];
  providers = "uakino" ∷ [];
  member_keys = "g2:alien" ∷ "g2:alien-1979" ∷ [];
}

abbrev home : HomeResponse
home = record {
  rows = record { title = "Фільми"; kind = "movie"; items = home_row_item ∷ [] } ∷ [];
}

abbrev empty_catalog : Catalog
empty_catalog = record {
  home_cache = record { default_ttl_s = pos 1800; entries = [] };
  sources_cache = record { default_ttl_s = pos 1800; entries = [] };
  row_deep_cache = record { default_ttl_s = pos 1800; entries = [] };
  index = [];
  registrations = [];
  search_ttl_s = 300;
  saved = none;
}

abbrev alien_sources : Sources
alien_sources = ("g2:alien", ("uakino", card "uakino") ∷ []) ∷ []

-- The snapshot is replaced and invalidated after the search.
abbrev events : List (ℕ × Event)
events =
    (150, Event.replaced home (some alien_sources) true)
    ∷ (200, Event.invalidated)
    ∷ (250, Event.searched [])
    ∷ (260, Event.resolved "g2:alien")
    ∷ (300, Event.replaced home (some []) true)
    ∷ []

register_search-actionable_example :
    let s' = run events (register_search 100 (dune ∷ []) empty_catalog) in
    Answers "g2:dune" "animeon" (group_resolution 400 "g2:dune" s') (sources 400 s').1
unfolding Dict.get Dict.put contains provider_union
register_search-actionable_example =
    register_search-actionable 100 300 (pos 1800) "g2:dune" "animeon" [] dune [] events 400
      empty_catalog (omega arith) (record { search_same = refl; map_same = refl }) tt tt
      (refl, refl) (omega arith) (omega arith)

snapshot_entries-run_example :
    snapshot_entries (run events (reset empty_catalog))
    ≡ shelf (latest events (record { rows = [] }))
snapshot_entries-run_example = snapshot_entries-run events empty_catalog

abbrev registered_catalog : Catalog
registered_catalog = record empty_catalog {
  registrations =
      ("g2:dune", record { expires_at = 400; providers = ("animeon", card "animeon") ∷ [] }) ∷ [];
  index = ("g2:dune", no_card) ∷ [];
  sources_cache = record {
    default_ttl_s = pos 1800;
    entries = (sources_key, (150, ("g2:dune", provider_union (dune.sources)) ∷ [])) ∷ [];
  };
}

cell-apply_snapshot_example :
    cell "g2:dune" "animeon"
      (sources 900 (apply_snapshot 350 home (some alien_sources) true registered_catalog)).1
    ≡ Dict.later (cell "g2:dune" "animeon" alien_sources) (
        owned_by "animeon"
          (only (is_live 350) (Dict.get "g2:dune" registered_catalog.registrations)))
unfolding Dict.get
cell-apply_snapshot_example =
    cell-apply_snapshot 350 900 home alien_sources true registered_catalog "g2:dune" "animeon"
      (refl, tt) (omega arith)

-- The map expires at 150, the results of the search at 420, and the search finds nothing new.
abbrev known_map : Sources
known_map = ("g2:dune", provider_union (dune.sources)) ∷ []

register_search_lifetime_example :
    is_held 200 (register_search 120 (dune ∷ []) registered_catalog)
    ≡ leb 200 (
        if any (is_news known_map registered_catalog.index) (dune ∷ [])
        then 120 + max_zero registered_catalog.sources_cache.default_ttl_s
        else 150)
unfolding Dict.get
register_search_lifetime_example =
    register_search_lifetime 120 150 200 known_map (dune ∷ []) registered_catalog refl (omega arith)

nothing_new : any (is_news known_map registered_catalog.index) (dune ∷ []) ≡ false
unfolding Dict.get Dict.put provider_union
nothing_new = refl
