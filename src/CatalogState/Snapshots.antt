-- ===== src/CatalogState/Snapshots.antt =====
-- What a snapshot replacement installs, and what the iteration over the snapshot layer shows.
use ps4_uk_stream.Prelude.{
  ◌+◌, ◌≤◌, ℕ, String, ◌≡◌, refl, ap, ◌∙◌, Bool, false, Option, none, some, List, [], ◌∷◌, arith,
  ltb, nat_eq, string_eq,
}
use ps4_uk_stream.Prelude.Dict
use ps4_uk_stream.Prelude.Dict.{Dict, DistinctKeys, later}
use ps4_uk_stream.Prelude.Integers.{max_zero}
use ps4_uk_stream.Cache
use ps4_uk_stream.Models.{SearchGroup, HomeResponse}
use ps4_uk_stream.CatalogState.{
  Catalog, Sources, sources, sources_key, apply_snapshot, invalidate, carry_sources,
  live_registrations,
}
use ps4_uk_stream.CatalogState.Reads.{group_resolution}
use ps4_uk_stream.CatalogState.Searches.{register_search}
use ps4_uk_stream.CatalogState.Layers.{
  cell, owned_by, only, is_live, get-live_registrations, live_registrations-DistinctKeys,
  cell-carry_sources,
}

-- A map that was set at `now` is read back until its time is over.
pub sources_set :
    (now t : ℕ) (m : Sources) (s : Catalog)
    → t ≤ now + max_zero s.sources_cache.default_ttl_s
    → (sources t (record s { sources_cache = Cache.set now sources_key m none s.sources_cache })).1
      ≡ m
unfolding sources Cache.set Cache.get
sources_set now t m s h =
    let over : ltb (now + max_zero s.sources_cache.default_ttl_s) t ≡ false = ground arith in
    rw (Dict.get-put_self sources_key _ s.sources_cache.entries, over) refl

-- A snapshot that is applied at `now` with its map, on registrations with distinct keys: until the time
-- to live of the map is over, each key and provider has the snapshot's card, and where the snapshot has
-- none, the card of the key's registration, if that has not expired at `now`. No other card is there.
pub cell-apply_snapshot :
    (now t : ℕ) (home : HomeResponse) (m : Sources) (persist : Bool) (s : Catalog) (k p : String)
    → DistinctKeys s.registrations
    → t ≤ now + max_zero s.sources_cache.default_ttl_s
    → cell k p (sources t (apply_snapshot now home (some m) persist s)).1
      ≡ later (cell k p m) (owned_by p (only (is_live now) (Dict.get k s.registrations)))
unfolding apply_snapshot sources
cell-apply_snapshot now t home m persist s k p h fresh =
    let live = live_registrations now s.registrations in
    ap (cell k p) (sources_set now t (carry_sources live m) s fresh)
    ∙ cell-carry_sources k p live m (live_registrations-DistinctKeys now s.registrations h)
    ∙ ap (λ o. later (cell k p m) (owned_by p o)) (get-live_registrations now k s.registrations h)

-- What a client or the process does to the catalog
pub data Event : Type 0 where
  replaced : HomeResponse → Option Sources → Bool → Event
  searched : List SearchGroup → Event
  invalidated : Event
  resolved : String → Event

unfoldable pub step : ℕ → Event → Catalog → Catalog
unfolding apply_snapshot register_search invalidate group_resolution
step now (replaced home m persist) s = apply_snapshot now home m persist s
step now (searched groups) s = register_search now groups s
step now invalidated s = invalidate s
step now (resolved key) s = (group_resolution now key s).0

unfoldable pub run : List (ℕ × Event) → Catalog → Catalog
run [] s = s
run ((now, event) ∷ events) s = run events (step now event s)
