-- ===== src/CatalogState/Times.antt =====
-- No event changes the times to live of the searches and of the resolution map.
use ps4_uk_stream.Prelude.{
  ◌+◌, ℕ, inl, inr, none, some, List, [], ◌∷◌, ltb, Bool-cases, Option-cases, nat_eq, string_eq,
}
use ps4_uk_stream.Prelude.Dict
use ps4_uk_stream.Prelude.Dict.{Dict}
use ps4_uk_stream.Prelude.Integers.{ℤ}
use ps4_uk_stream.Cache
use ps4_uk_stream.Models.{SearchGroup}
use ps4_uk_stream.CatalogState.{
  Catalog, sources, sources_key, apply_snapshot, install_sources, invalidate,
}
use ps4_uk_stream.CatalogState.Reads.{group_resolution}
use ps4_uk_stream.CatalogState.Searches.{
  Registering, before_groups, register_search, register_groups, finish_search,
}
use ps4_uk_stream.CatalogState.Snapshots.{Event, step, replaced, searched, invalidated, resolved}
use ps4_uk_stream.CatalogState.Promises.{HasTtls}

pub sources-HasTtls :
    (search_ttl : ℕ) (map_ttl : ℤ) (now : ℕ) (s : Catalog)
    → HasTtls search_ttl map_ttl s
    → HasTtls search_ttl map_ttl (sources now s).0
unfolding sources Cache.get
sources-HasTtls search_ttl map_ttl now s h =
    elim (Option-cases (Dict.get sources_key s.sources_cache.entries)) [
      | inl gone ↦ rw gone (record { search_same = h.search_same; map_same = h.map_same })
      | inr ((until, m), found) ↦ elim (Bool-cases (ltb until now)) [
        | inl over ↦
            rw (found, over) (record { search_same = h.search_same; map_same = h.map_same })
        | inr alive ↦
            rw (found, alive) (record { search_same = h.search_same; map_same = h.map_same })
      ]
    ]

finish_search-HasTtls :
    (search_ttl : ℕ) (map_ttl : ℤ) (now : ℕ) (r : Registering) (s : Catalog)
    → HasTtls search_ttl map_ttl s
    → HasTtls search_ttl map_ttl (finish_search now r s)
unfolding finish_search Cache.set
finish_search-HasTtls search_ttl map_ttl now r s h = elim (Bool-cases r.changed) [
  | inl more ↦ rw more (record { search_same = h.search_same; map_same = h.map_same })
  | inr same ↦ rw same (record { search_same = h.search_same; map_same = h.map_same })
]

pub register_search-HasTtls :
    (search_ttl : ℕ) (map_ttl : ℤ) (now : ℕ) (groups : List SearchGroup) (s : Catalog)
    → HasTtls search_ttl map_ttl s
    → HasTtls search_ttl map_ttl (register_search now groups s)
unfolding register_search
register_search-HasTtls search_ttl map_ttl now [] s h = h
register_search-HasTtls search_ttl map_ttl now (group ∷ groups) s h =
    finish_search-HasTtls search_ttl map_ttl now
      (register_groups now (now + s.search_ttl_s) (group ∷ groups)
        (before_groups (sources now s).1 (sources now s).0))
      (sources now s).0 (sources-HasTtls search_ttl map_ttl now s h)

pub step-HasTtls :
    (search_ttl : ℕ) (map_ttl : ℤ) (now : ℕ) (event : Event) (s : Catalog)
    → HasTtls search_ttl map_ttl s
    → HasTtls search_ttl map_ttl (step now event s)
unfolding step apply_snapshot install_sources Cache.set invalidate group_resolution
step-HasTtls search_ttl map_ttl now (replaced home none persist) s h = record {
  search_same = h.search_same;
  map_same = h.map_same;
}
step-HasTtls search_ttl map_ttl now (replaced home (some m) persist) s h = record {
  search_same = h.search_same;
  map_same = h.map_same;
}
step-HasTtls search_ttl map_ttl now (searched groups) s h =
    register_search-HasTtls search_ttl map_ttl now groups s h
step-HasTtls search_ttl map_ttl now invalidated s h = record {
  search_same = h.search_same;
  map_same = h.map_same;
}
step-HasTtls search_ttl map_ttl now (resolved key) s h = sources-HasTtls search_ttl map_ttl now s h
