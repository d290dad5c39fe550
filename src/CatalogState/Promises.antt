-- ===== src/CatalogState/Promises.antt =====
-- What a search promises: its groups stay resolvable until its results expire, whatever snapshots,
-- searches, invalidations and lookups come between.
use ps4_uk_stream.Prelude.{
  ◌+◌, ◌≤◌, ℕ, String, ◌≡◌, refl, sym, ◌∙◌, inl, inr, Bool, true, false, Option, none, some, List,
  [], ◌∷◌, arith, ltb, is_some, Bool-cases, nat_eq, string_eq,
}
use mathlib.Core.Path.{subst}
use ps4_uk_stream.Prelude.Dict
use ps4_uk_stream.Prelude.Dict.{Dict, DistinctKeys, get-put_self}
use ps4_uk_stream.Prelude.Integers.{ℤ, max_zero}
use ps4_uk_stream.Cache
use ps4_uk_stream.Models.{SearchGroup, HomeResponse}
use ps4_uk_stream.CatalogState.{
  Catalog, Sources, sources, sources_key, apply_snapshot, install_sources, invalidate,
  live_registrations, carry_sources, entries_from_rows,
}
use ps4_uk_stream.CatalogState.Reads.{group_resolution}
use ps4_uk_stream.CatalogState.Searches.{
  Registering, before_groups, register_search, register_groups, finish_search,
}
use ps4_uk_stream.CatalogState.Layers.{
  cell, is_live, get-live_registrations, live_registrations-DistinctKeys, cell-carry_sources,
  get-carry_entries,
}
use ps4_uk_stream.CatalogState.Kept.{IsOwned, IsKept, later_second, register_groups-IsKept}
use ps4_uk_stream.CatalogState.Snapshots.{Event, step, replaced, searched, invalidated, resolved}

-- The map in the cache lasts to `d` and has a card of `p` under `k`.
pub record IsStored (d : ℕ) (k p : String) (o : Option (ℕ × Sources)) : Type 0 where
  pub until : ℕ
  pub stored : Sources
  pub found : o ≡ some (until, stored)
  pub lasts : d ≤ until
  pub mapped : is_some (cell k p stored) ≡ true

pub record IsPromised (d : ℕ) (k p : String) (s : Catalog) : Type 0 where
  pub distinct : DistinctKeys s.registrations
  pub held : IsOwned d p (Dict.get k s.registrations)
  pub indexed : Dict.member k s.index ≡ true
  pub map_kept : IsStored d k p (Dict.get sources_key s.sources_cache.entries)

-- The two times to live
pub record HasTtls (search_ttl : ℕ) (map_ttl : ℤ) (s : Catalog) : Type 0 where
  pub search_same : s.search_ttl_s ≡ search_ttl
  pub map_same : s.sources_cache.default_ttl_s ≡ map_ttl

-- Before `until`, a read leaves the cache as it is and answers the map.
pub sources_fresh :
    (now until : ℕ) (m : Sources) (s : Catalog)
    → Dict.get sources_key s.sources_cache.entries ≡ some (until, m)
    → now ≤ until
    → sources now s ≡ (s, m)
unfolding sources Cache.get
sources_fresh now until m s found fresh =
    let alive : ltb until now ≡ false = ground arith in rw (found, alive) refl

pub finish_search-IsPromised :
    (now d : ℕ) (k p : String) (r : Registering) (s : Catalog)
    → IsKept d k p r
    → d ≤ now + max_zero s.sources_cache.default_ttl_s
    → (r.changed ≡ false → IsStored d k p (Dict.get sources_key s.sources_cache.entries))
    → IsPromised d k p (finish_search now r s)
unfolding finish_search Cache.set
finish_search-IsPromised now d k p r s h lasts same = elim (Bool-cases r.changed) [
  | inl changed ↦ rw changed (record {
    distinct = h.distinct;
    held = h.held;
    indexed = h.indexed;
    map_kept = record {
      until = now + max_zero s.sources_cache.default_ttl_s;
      stored = r.existing;
      found = get-put_self sources_key _ s.sources_cache.entries;
      lasts = lasts;
      mapped = h.mapped;
    };
  })
  | inr unchanged ↦ rw unchanged (record {
    distinct = h.distinct;
    held = h.held;
    indexed = h.indexed;
    map_kept = same unchanged;
  })
]

module _ (d : ℕ) (k p : String) (search_ttl : ℕ) (map_ttl : ℤ) (now : ℕ) (from : now ≤ d)
    (until : d ≤ now + search_ttl) (map_lasts : d ≤ now + max_zero map_ttl) where
  register_search-IsPromised :
      (groups : List SearchGroup) (s : Catalog)
      → HasTtls search_ttl map_ttl s
      → IsPromised d k p s
      → IsPromised d k p (register_search now groups s)
  unfolding register_search
  register_search-IsPromised [] s t h = h
  register_search-IsPromised (group ∷ groups) s t h =
      let begun = before_groups h.map_kept.stored s in
      let r = register_groups now (now + s.search_ttl_s) (group ∷ groups) begun in
      let kept : IsKept d k p begun = record {
        distinct = h.distinct;
        held = h.held;
        indexed = h.indexed;
        mapped = h.map_kept.mapped;
      } in
      let later_kept : IsKept d k p r =
        register_groups-IsKept now (now + s.search_ttl_s) d from (rw (t.search_same) until) k p
          (group ∷ groups) begun kept in
      let fresh =
        sources_fresh now h.map_kept.until h.map_kept.stored s h.map_kept.found
          (omega (arith, h.map_kept.lasts)) in
      subst
        (λ (read : Catalog × Sources). IsPromised d k p (
          finish_search now
            (register_groups now (now + s.search_ttl_s) (group ∷ groups)
              (before_groups read.1 read.0))
            read.0))
        (sym fresh)
        (finish_search-IsPromised now d k p r s later_kept (rw (t.map_same) map_lasts)
          (λ unchanged. h.map_kept))

  install_sources-IsStored :
      (m : Option Sources) (s : Catalog)
      → HasTtls search_ttl map_ttl s
      → (h : IsPromised d k p s)
      → Dict.get k (live_registrations now s.registrations) ≡ some h.held.owner
      → IsStored d k p (
          Dict.get sources_key
            (install_sources now
              (live_registrations now s.registrations)
              m
              s.sources_cache).entries)
  unfolding install_sources Cache.set
  install_sources-IsStored none s t h carried = h.map_kept
  install_sources-IsStored (some m) s t h carried =
      let live = live_registrations now s.registrations in
      record {
        until = now + max_zero s.sources_cache.default_ttl_s;
        stored = carry_sources live m;
        found = get-put_self sources_key _ s.sources_cache.entries;
        lasts = rw (t.map_same) map_lasts;
        mapped =
            rw
              (
                cell-carry_sources k p live m
                    (live_registrations-DistinctKeys now s.registrations h.distinct),
                carried,
              )
              (later_second (cell k p m) _ h.held.has);
      }

  apply_snapshot-IsPromised :
      (home : HomeResponse) (m : Option Sources) (persist : Bool) (s : Catalog)
      → HasTtls search_ttl map_ttl s
      → IsPromised d k p s
      → IsPromised d k p (apply_snapshot now home m persist s)
  unfolding apply_snapshot
  apply_snapshot-IsPromised home m persist s t h =
      let live = live_registrations now s.registrations in
      let alive : is_live now h.held.owner ≡ true = ground (arith, h.held.lasts) in
      let carried : Dict.get k live ≡ some h.held.owner =
        get-live_registrations now k s.registrations h.distinct ∙ rw (h.held.found, alive) refl in
      record {
        distinct = live_registrations-DistinctKeys now s.registrations h.distinct;
        held = record {
          owner = h.held.owner;
          found = carried;
          lasts = h.held.lasts;
          has = h.held.has;
        };
        indexed =
            rw (get-carry_entries k live (entries_from_rows home), carried)
              (later_second (Dict.get k (entries_from_rows home)) _ refl);
        map_kept = install_sources-IsStored m s t h carried;
      }

  group_resolution-IsPromised :
      (key : String) (s : Catalog)
      → IsPromised d k p s
      → IsPromised d k p (group_resolution now key s).0
  unfolding group_resolution
  group_resolution-IsPromised key s h =
      let fresh =
        sources_fresh now h.map_kept.until h.map_kept.stored s h.map_kept.found
          (omega (arith, h.map_kept.lasts)) in
      subst (λ (read : Catalog × Sources). IsPromised d k p read.0) (sym fresh) h

  pub step-IsPromised :
      (event : Event) (s : Catalog)
      → HasTtls search_ttl map_ttl s
      → IsPromised d k p s
      → IsPromised d k p (step now event s)
  unfolding step invalidate
  step-IsPromised (replaced home m persist) s t h = apply_snapshot-IsPromised home m persist s t h
  step-IsPromised (searched groups) s t h = register_search-IsPromised groups s t h
  step-IsPromised invalidated s t h = record {
    distinct = h.distinct;
    held = h.held;
    indexed = h.indexed;
    map_kept = h.map_kept;
  }
  step-IsPromised (resolved key) s t h = group_resolution-IsPromised key s h
