-- ===== src/CatalogState/Actionable.antt =====
-- The results of a search stay actionable until they expire: what `register_search` promises at its end,
-- and what `group_resolution` answers after any run of the catalog.
use ps4_uk_stream.Prelude.{
  ◌+◌, ◌≤◌, ℕ, String, ◌≡◌, refl, sym, inl, inr, ◌⊎◌, ◌<◌, true, false, Option, none, some, List,
  [], ◌∷◌, ◌++◌, map, arith, ltb, is_some, Bool-cases, Option-cases, ◌==◌, nat_eq, string_eq, All,
}
use mathlib.Core.Path.{subst}
use ps4_uk_stream.Prelude.Dict
use ps4_uk_stream.Prelude.Dict.{Dict, DistinctKeys}
use ps4_uk_stream.Prelude.Integers.{ℤ, max_zero}
use ps4_uk_stream.Cache
use ps4_uk_stream.Models.{SearchResult, SearchGroup}
use ps4_uk_stream.Merge.Classes.{Occurs}
use ps4_uk_stream.CatalogState.{Catalog, Sources, GroupIndexEntry, sources, sources_key}
use ps4_uk_stream.CatalogState.Reads.{GroupResolution, group_resolution, resolution}
use ps4_uk_stream.CatalogState.Searches.{
  before_groups, register_search, register_groups, finish_search,
}
use ps4_uk_stream.CatalogState.Layers.{cell, card_in}
use ps4_uk_stream.CatalogState.Unchanged.{register_groups-Unchanged}
use ps4_uk_stream.CatalogState.Kept.{IsKept, Offers, register_groups-makes}
use ps4_uk_stream.CatalogState.Snapshots.{Event, step, run}
use ps4_uk_stream.CatalogState.Times.{sources-HasTtls, register_search-HasTtls, step-HasTtls}
use ps4_uk_stream.CatalogState.Promises.{
  IsStored, IsPromised, HasTtls, sources_fresh, finish_search-IsPromised, step-IsPromised,
}

-- Every event falls between the two times.
abbrev pub Within : ℕ → ℕ → List (ℕ × Event) → Type 0
Within start end events = All (λ e. (start ≤ e.0) × (e.0 ≤ end)) events

module _ (start search_ttl : ℕ) (map_ttl : ℤ) (long : search_ttl ≤ max_zero map_ttl)
    (k p : String) where
  run-IsPromised :
      (events : List (ℕ × Event)) (s : Catalog)
      → Within start (start + search_ttl) events
      → HasTtls search_ttl map_ttl s
      → IsPromised (start + search_ttl) k p s
      → IsPromised (start + search_ttl) k p (run events s)
  unfolding run
  run-IsPromised [] s w t h = h
  run-IsPromised ((now, event) ∷ events) s w t h =
      run-IsPromised events (step now event s) w.1 (step-HasTtls search_ttl map_ttl now event s t) (
        step-IsPromised (start + search_ttl) k p search_ttl map_ttl now (w.0.1)
          (omega (arith, w.0.0)) (omega (arith, w.0.0, long)) event s t h)

-- A map in the cache that has not expired at `now` lasts to `d`.
abbrev pub Outlives : ℕ → ℕ → Option (ℕ × Sources) → Type 0
Outlives d now none = Unit {0}
Outlives d now (some (until, m)) = (until < now) ⊎ (d ≤ until)

cell_empty : (k p : String) → is_some (cell k p []) ≡ false
unfolding Dict.get
cell_empty k p = refl

read-IsStored :
    (d now : ℕ) (k p : String) (s : Catalog) (o : Option (ℕ × Sources))
    → Dict.get sources_key s.sources_cache.entries ≡ o
    → Outlives d now o
    → is_some (cell k p (sources now s).1) ≡ true
    → IsStored d k p (Dict.get sources_key (sources now s).0.sources_cache.entries)
unfolding sources Cache.get
read-IsStored d now k p s none e w h = absurd (cc (rw e at h, cell_empty k p))
read-IsStored d now k p s (some (until, m)) e (inl over) h =
    let expired : ltb until now ≡ true = ground arith in
    absurd (cc (rw (e, expired) at h, cell_empty k p))
read-IsStored d now k p s (some (until, m)) e (inr lasts) h = elim (Bool-cases (ltb until now)) [
  | inl over ↦ absurd (cc (rw (e, over) at h, cell_empty k p))
  | inr alive ↦
      rw (e, alive)
        (record {
          until = until;
          stored = m;
          found = e;
          lasts = lasts;
          mapped = rw (e, alive) at h;
        })
]

-- What a client sees under the key: an answer whose sources have the provider's card of the map
abbrev pub Answers : String → String → Catalog × Option GroupResolution → Sources → Type 0
Answers k p (after, none) m = ⊥
Answers k p (after, some r) m = (c : SearchResult) × (cell k p m ≡ some c) × Occurs c r.sources

Occurs-cards :
    (p : String) (d : Dict String SearchResult) (c : SearchResult)
    → Dict.get p d ≡ some c
    → Occurs c (map (λ e. e.1) d)
unfolding Dict.get
Occurs-cards p [] c h = cc
Occurs-cards p ((q, b) ∷ d) c h = elim (Bool-cases (q == p)) [
  | inl hit ↦
      let same : b ≡ c = cc (rw hit at h) in
      subst (λ x. Occurs x (b ∷ map (λ e. e.1) d)) same Occurs.here
  | inr miss ↦ Occurs.there (Occurs-cards p d c (rw miss at h))
]

answer_lem :
    (k p : String) (entry : Option GroupIndexEntry) (o : Option (Dict String SearchResult))
    (m : Sources) (s : Catalog)
    → Dict.get k m ≡ o
    → is_some (card_in p o) ≡ true
    → Answers k p (s, resolution k entry o) m
unfolding resolution
answer_lem k p entry none m s e h = absurd cc
answer_lem k p none (some d) m s e h = elim (Option-cases (Dict.get p d)) [
  | inl gone ↦ absurd (cc (gone))
  | inr (c, found) ↦ (c, rw e found, Occurs-cards p d c found)
]
answer_lem k p (some entry) (some d) m s e h = elim (Option-cases (Dict.get p d)) [
  | inl gone ↦ absurd (cc (gone))
  | inr (c, found) ↦ (c, rw e found, Occurs-cards p d c found)
]

promised_answer :
    (d now : ℕ) (k p : String) (s : Catalog)
    → now ≤ d
    → IsPromised d k p s
    → Answers k p (group_resolution now k s) (sources now s).1
unfolding group_resolution
promised_answer d now k p s from h =
    let kept = h.map_kept in
    let fresh = sources_fresh now kept.until kept.stored s kept.found (omega (arith, kept.lasts)) in
    subst
      (λ (read : Catalog × Sources).
        Answers k p (read.0, resolution k (Dict.get k s.index) (Dict.get k read.1)) read.1)
      (sym fresh)
      (answer_lem k p (Dict.get k s.index) (Dict.get k kept.stored) kept.stored s refl kept.mapped)

begun_distinct :
    (now : ℕ) (s : Catalog)
    → DistinctKeys s.registrations
    → DistinctKeys (sources now s).0.registrations
unfolding sources
begun_distinct now s h = h

-- The body of `register_search` after its test for no groups
new_promise :
    (now search_ttl : ℕ) (map_ttl : ℤ) (k p : String) (before : List SearchGroup)
    (group : SearchGroup) (after : List SearchGroup) (s : Catalog)
    → search_ttl ≤ max_zero map_ttl
    → HasTtls search_ttl map_ttl s
    → DistinctKeys s.registrations
    → Outlives (now + search_ttl) now (Dict.get sources_key s.sources_cache.entries)
    → Offers k p group
    → IsPromised (now + search_ttl) k p (
        finish_search now
          (register_groups now
            (now + s.search_ttl_s)
            (before ++ group ∷ after)
            (before_groups (sources now s).1 (sources now s).0))
          (sources now s).0)
new_promise now search_ttl map_ttl k p before group after s long t h w o =
    let read = sources now s in
    let begun = before_groups read.1 read.0 in
    let groups = before ++ group ∷ after in
    let r = register_groups now (now + s.search_ttl_s) groups begun in
    let t' = sources-HasTtls search_ttl map_ttl now s t in
    let kept : IsKept (now + search_ttl) k p r =
      register_groups-makes now (now + s.search_ttl_s) (now + search_ttl) (omega arith)
        (rw (t.search_same) (omega arith)) k p before group after begun (begun_distinct now s h)
        o in
    finish_search-IsPromised now (now + search_ttl) k p r read.0 kept
      (rw (t'.map_same) (omega (arith, long)))
      (λ unchanged.
        read-IsStored (now + search_ttl) now k p s (Dict.get sources_key s.sources_cache.entries)
          refl w
          (subst (λ m. is_some (cell k p m) ≡ true)
            (register_groups-Unchanged now (now + s.search_ttl_s) groups begun unchanged).same_map
            kept.mapped))

-- The end of a search at `now`
register_search-IsPromised_new :
    (now search_ttl : ℕ) (map_ttl : ℤ) (k p : String) (before : List SearchGroup)
    (group : SearchGroup) (after : List SearchGroup) (s : Catalog)
    → search_ttl ≤ max_zero map_ttl
    → HasTtls search_ttl map_ttl s
    → DistinctKeys s.registrations
    → Outlives (now + search_ttl) now (Dict.get sources_key s.sources_cache.entries)
    → Offers k p group
    → IsPromised (now + search_ttl) k p (register_search now (before ++ group ∷ after) s)
unfolding register_search
register_search-IsPromised_new now search_ttl map_ttl k p [] group after s long t h w o =
    new_promise now search_ttl map_ttl k p [] group after s long t h w o
register_search-IsPromised_new now search_ttl map_ttl k p (g ∷ before) group after s long t h w o =
    new_promise now search_ttl map_ttl k p (g ∷ before) group after s long t h w o

-- What a search returns stays actionable until its results expire: a search at `start`, on a catalog
-- whose map has expired or lasts as long as the results, and whose map is kept no shorter than they
-- are (its registrations have distinct keys); then any snapshots, searches, invalidations and lookups
-- up to the end of that time. At their end each key of each group of the search is answered, and for each provider of the group the answer
-- has the card of that provider.
pub register_search-actionable :
    (start search_ttl : ℕ) (map_ttl : ℤ) (k p : String) (before : List SearchGroup)
    (group : SearchGroup) (after : List SearchGroup) (events : List (ℕ × Event)) (now : ℕ)
    (s : Catalog)
    → search_ttl ≤ max_zero map_ttl
    → HasTtls search_ttl map_ttl s
    → DistinctKeys s.registrations
    → Outlives (start + search_ttl) start (Dict.get sources_key s.sources_cache.entries)
    → Offers k p group
    → Within start (start + search_ttl) events
    → now ≤ start + search_ttl
    → let s' = run events (register_search start (before ++ group ∷ after) s) in
      Answers k p (group_resolution now k s') (sources now s').1
register_search-actionable start search_ttl map_ttl k p before group after events now s long t h w o
      inside early =
    promised_answer (start + search_ttl) now k p _ early (
      run-IsPromised start search_ttl map_ttl long k p events _ inside
        (register_search-HasTtls search_ttl map_ttl start (before ++ group ∷ after) s t)
        (register_search-IsPromised_new start search_ttl map_ttl k p before group after s long t h w
          o))
