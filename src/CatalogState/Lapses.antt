-- ===== src/CatalogState/Lapses.antt =====
-- How long the resolution map lasts after a search: it can expire before the results of the search do.
use ps4_uk_stream.Prelude.{
  ◌∙◌, ap, ◌+◌, ◌≤◌, ℕ, ◌≡◌, refl, sym, inl, inr, Bool, none, some, List, [], ◌∷◌, arith, leb,
  nat_eq, string_eq, any, is_some, if◌then◌else◌, Bool-cases,
}
use mathlib.Core.Path.{subst}
use ps4_uk_stream.Prelude.Dict
use ps4_uk_stream.Prelude.Integers.{max_zero}
use ps4_uk_stream.Cache
use ps4_uk_stream.Cache.Reads.{get-fresh, get-set}
use ps4_uk_stream.Models.{SearchGroup}
use ps4_uk_stream.CatalogState.{Catalog, Sources, sources, sources_key}
use ps4_uk_stream.CatalogState.Searches.{
  Registering, before_groups, register_search, register_groups, finish_search,
}
use ps4_uk_stream.CatalogState.Promises.{sources_fresh}
use ps4_uk_stream.CatalogState.News.{is_news, changed-register_groups}

-- The map is in the cache at time `t`.
abbrev pub is_held : ℕ → Catalog → Bool
is_held t s = is_some (Cache.get t sources_key s.sources_cache).1

is_held_until :
    (until t : ℕ) (m : Sources) (s : Catalog)
    → Dict.get sources_key s.sources_cache.entries ≡ some (until, m)
    → is_held t s ≡ leb t until
is_held_until until t m s found =
    ap is_some (get-fresh t sources_key s.sources_cache) ∙ rw found (ground arith)

-- The end of `register_search`: a map that is set again lives its whole time.
is_held-finish_search :
    (start until t : ℕ) (m : Sources) (r : Registering) (s : Catalog)
    → Dict.get sources_key s.sources_cache.entries ≡ some (until, m)
    → is_held t (finish_search start r s)
      ≡ leb t (if r.changed then start + max_zero s.sources_cache.default_ttl_s else until)
unfolding finish_search Cache.ttl_or_default
is_held-finish_search start until t m r s found = elim (Bool-cases r.changed) [
  | inl more ↦ rw more (
      ap is_some (get-set start t sources_key sources_key r.existing none s.sources_cache)
      ∙ ground arith)
  | inr same ↦ rw same (is_held_until until t m s found)
]

-- A search at `start` on a map that lives until `until`. If some group of the search has a key that the
-- index or the map lacks, or a source of a provider that the map lacks under the key, the map lives from
-- `start` on for its whole time to live. If not, it still expires at `until`, however long the results of
-- the search and its registrations live: at each time `t` the cache holds the map exactly up to then.
pub register_search_lifetime :
    (start until t : ℕ) (m : Sources) (groups : List SearchGroup) (s : Catalog)
    → Dict.get sources_key s.sources_cache.entries ≡ some (until, m)
    → start ≤ until
    → is_held t (register_search start groups s)
      ≡ leb t (
          if any (is_news m s.index) groups
          then start + max_zero s.sources_cache.default_ttl_s
          else until)
unfolding register_search
register_search_lifetime start until t m [] s found fresh = is_held_until until t m s found
register_search_lifetime start until t m (group ∷ groups) s found fresh =
    let begun = before_groups m s in
    let r = register_groups start (start + s.search_ttl_s) (group ∷ groups) begun in
    let read : sources start s ≡ (s, m) = sources_fresh start until m s found fresh in
    subst
      (λ (x : Catalog × Sources).
        is_held t (
          finish_search start
            (register_groups start (start + s.search_ttl_s) (group ∷ groups)
              (before_groups x.1 x.0))
            x.0)
        ≡ leb t (
            if any (is_news m s.index) (group ∷ groups)
            then start + max_zero s.sources_cache.default_ttl_s
            else until))
      (sym read)
      (is_held-finish_search start until t m r s found
        ∙ rw (changed-register_groups start (start + s.search_ttl_s) (group ∷ groups) begun refl)
            refl)
