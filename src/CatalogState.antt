-- ===== src/CatalogState.antt =====
-- backend/cs_uk_api/_catalog_state/_stores.py: `CatalogState`, the owner of the group index, of the
-- registrations that searches make, and of what is written to the home, source and deep row caches. The
-- clock is read once in a call, `now`; `persist` leaves what `SnapshotStore.save` is given in `saved`.
pub mod Reads
pub mod Searches
pub mod Layers
pub mod Loops
pub mod Kept
pub mod Snapshots
pub mod Shelf
pub mod Promises
pub mod Times
pub mod Actionable
pub mod News
pub mod Unchanged
pub mod Lapses
use ps4_uk_stream.Prelude.{
  ℕ, String, Bool, not, Option, none, some, List, [], ◌∷◌, ltb, if◌then◌else◌, nat_eq, string_eq,
  keep,
}
use ps4_uk_stream.Prelude.Dict
use ps4_uk_stream.Prelude.Dict.{Dict}
use ps4_uk_stream.Cache
use ps4_uk_stream.Cache.{TtlCache}
use ps4_uk_stream.Models.{SearchResult, HomeItem, HomeRow, HomeResponse}

-- The resolution map: group key to provider to card
abbrev pub Sources : Type 0
Sources = Dict String (Dict String SearchResult)

pub record GroupIndexEntry : Type 0 where
  pub home_item : Option HomeItem
  pub row_type : Option String

pub record Registration : Type 0 where
  pub expires_at : ℕ
  pub providers : Dict String SearchResult

-- The state: the caches, the index and the registrations; `saved` is the last snapshot persisted.
pub record Catalog : Type 0 where
  pub home_cache : TtlCache HomeResponse
  pub sources_cache : TtlCache Sources
  pub row_deep_cache : TtlCache (List HomeItem)
  pub index : Dict String GroupIndexEntry
  pub registrations : Dict String Registration
  pub search_ttl_s : ℕ
  pub saved : Option (HomeResponse × Sources)

-- `_HOME_KEY` and `_SOURCES_KEY`
abbrev pub home_key : String
home_key = "home:v1"

abbrev pub sources_key : String
sources_key = "home:sources:v1"

-- `x or {}`
abbrev pub or_empty {ℓ κ} : {K : Type ℓ} {V : Type κ} → Option (Dict K V) → Dict K V
or_empty none = []
or_empty (some d) = d

-- `item.member_keys or [item.group_key]`
abbrev pub keys_or : List String → String → List String
keys_or [] key = key ∷ []
keys_or (k ∷ ks) key = k ∷ ks

-- `GroupIndexEntry(home_item=None, row_type=None)`
abbrev pub no_card : GroupIndexEntry
no_card = record { home_item = none; row_type = none }

-- `_entries_from_rows`: the loops over the keys, the items and the rows
unfoldable pub add_keys :
    GroupIndexEntry → List String → Dict String GroupIndexEntry → Dict String GroupIndexEntry
add_keys entry [] entries = entries
add_keys entry (k ∷ ks) entries = add_keys entry ks (Dict.setdefault k entry entries)

unfoldable pub add_items :
    String → List HomeItem → Dict String GroupIndexEntry → Dict String GroupIndexEntry
unfolding add_keys
add_items kind [] entries = entries
add_items kind (item ∷ items) entries =
    let entry : GroupIndexEntry = record { home_item = some item; row_type = some kind } in
    add_items kind items (add_keys entry (keys_or item.member_keys item.group_key) entries)

unfoldable pub add_rows : List HomeRow → Dict String GroupIndexEntry → Dict String GroupIndexEntry
unfolding add_items
add_rows [] entries = entries
add_rows (row ∷ rows) entries = add_rows rows (add_items row.kind row.items entries)

unfoldable pub entries_from_rows : HomeResponse → Dict String GroupIndexEntry
unfolding add_rows
entries_from_rows home = add_rows home.rows []

-- `_live_registrations`: the expired ones are deleted from the registrations.
unfoldable pub live_registrations : ℕ → Dict String Registration → Dict String Registration
live_registrations now registrations = keep (λ e. not (ltb e.1.expires_at now)) registrations

-- The loop of `apply_snapshot` over the live registrations: the map, and the entries
unfoldable pub carry_sources : Dict String Registration → Sources → Sources
carry_sources [] merged = merged
carry_sources ((key, registration) ∷ live) merged =
    carry_sources live (
      Dict.put key (Dict.setdefaults (or_empty (Dict.get key merged)) registration.providers)
        merged)

unfoldable pub carry_entries :
    Dict String Registration → Dict String GroupIndexEntry → Dict String GroupIndexEntry
carry_entries [] entries = entries
carry_entries ((key, registration) ∷ live) entries =
    carry_entries live (Dict.setdefault key no_card entries)

-- `sources_cache.set(_SOURCES_KEY, merged)`, if there is a map
unfoldable pub install_sources :
    ℕ → Dict String Registration → Option Sources → TtlCache Sources → TtlCache Sources
unfolding carry_sources Cache.set
install_sources now live none cache = cache
install_sources now live (some sources) cache =
    Cache.set now sources_key (carry_sources live sources) none cache

-- `if persist and sources is not None`
unfoldable pub save_snapshot :
    Bool
    → HomeResponse
    → Option Sources
    → Option (HomeResponse × Sources)
    → Option (HomeResponse × Sources)
save_snapshot persist home none saved = saved
save_snapshot persist home (some sources) saved = if persist then some (home, sources) else saved

unfoldable pub apply_snapshot : ℕ → HomeResponse → Option Sources → Bool → Catalog → Catalog
unfolding live_registrations carry_entries install_sources save_snapshot entries_from_rows Cache.set
    Cache.clear
apply_snapshot now home sources persist s =
    let live = live_registrations now s.registrations in
    record s {
      home_cache = Cache.set now home_key home none s.home_cache;
      sources_cache = install_sources now live sources s.sources_cache;
      row_deep_cache = Cache.clear s.row_deep_cache;
      index = carry_entries live (entries_from_rows home);
      registrations = live;
      saved = save_snapshot persist home sources s.saved;
    }

-- `sources()`: a read of the cache, which drops an expired map
unfoldable pub sources : ℕ → Catalog → Catalog × Sources
unfolding Cache.get
sources now s =
    let (cache, found) = Cache.get now sources_key s.sources_cache in
    (record s { sources_cache = cache }, or_empty found)

unfoldable pub invalidate : Catalog → Catalog
unfolding Cache.clear
invalidate s = record s {
  home_cache = Cache.clear s.home_cache;
  row_deep_cache = Cache.clear s.row_deep_cache;
}

-- `seed_sources` and `reset`, the two handles of the tests
unfoldable pub seed_sources : ℕ → Sources → Catalog → Catalog
unfolding Cache.set
seed_sources now mapping s = record s {
  sources_cache = Cache.set now sources_key mapping none s.sources_cache;
}

unfoldable pub reset : Catalog → Catalog
unfolding Cache.clear
reset s = record s { sources_cache = Cache.clear s.sources_cache; index = []; registrations = [] }
