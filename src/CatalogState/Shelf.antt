-- ===== src/CatalogState/Shelf.antt =====
-- The iteration over the snapshot layer shows the snapshot's cards, whatever searches register.
use ps4_uk_stream.Prelude.{
  ◌+◌, ℕ, String, ◌≡◌, refl, ap, ◌∙◌, inl, inr, Option, none, some, List, [], ◌∷◌, ◌++◌, Bool-cases,
  Option-cases, ◌==◌, nat_eq, string_eq, any,
}
use ps4_uk_stream.Prelude.Dict
use ps4_uk_stream.Prelude.Dict.{Dict, put_absent}
use ps4_uk_stream.Models.{SearchResult, SearchGroup, HomeResponse}
use ps4_uk_stream.WireIdentity.{provider_union}
use ps4_uk_stream.CatalogState.{
  Catalog, GroupIndexEntry, Registration, sources, no_card, keys_or, apply_snapshot, invalidate,
  carry_entries, live_registrations, entries_from_rows, reset,
}
use ps4_uk_stream.CatalogState.Reads.{
  SnapshotEntry, group_resolution, entries_onto, snapshot_entries,
}
use ps4_uk_stream.CatalogState.Searches.{
  before_groups, Registering, register_search, register_groups, register_keys, register_key,
  register_sources, register_index, finish_search, adds,
}
use ps4_uk_stream.CatalogState.Snapshots.{
  Event, step, run, replaced, searched, invalidated, resolved,
}

-- The snapshot that was applied last
abbrev pub latest : List (ℕ × Event) → HomeResponse → HomeResponse
latest [] home = home
latest ((now, replaced home m persist) ∷ events) last = latest events home
latest ((now, searched groups) ∷ events) last = latest events last
latest ((now, invalidated) ∷ events) last = latest events last
latest ((now, resolved key) ∷ events) last = latest events last

-- The cards of a snapshot's rows, each group once, in the order of the rows
abbrev pub shelf : HomeResponse → List SnapshotEntry
shelf home = entries_onto [] (entries_from_rows home)

entries_onto-no_card :
    (seen : List String) (k : String) (index : Dict String GroupIndexEntry)
    → entries_onto seen (index ++ (k, no_card) ∷ []) ≡ entries_onto seen index
entries_onto-no_card seen k [] = refl
entries_onto-no_card seen k ((j, entry) ∷ index) = elim (Option-cases entry.home_item) [
  | inl none_there ↦ rw none_there (entries_onto-no_card seen k index)
  | inr (card, there) ↦ rw there (elim (Bool-cases (any (λ i. i == card.group_key) seen)) [
    | inl again ↦ rw again (entries_onto-no_card seen k index)
    | inr new ↦ rw new (
        ap (◌∷◌ (record { card = card; row_type = entry.row_type }))
          (entries_onto-no_card (card.group_key ∷ seen) k index))
  ])
]

entries_onto-setdefault :
    (k : String) (index : Dict String GroupIndexEntry)
    → entries_onto [] (Dict.setdefault k no_card index) ≡ entries_onto [] index
unfolding Dict.setdefault
entries_onto-setdefault k index = elim (Option-cases (Dict.get k index)) [
  | inl new ↦ rw (new, put_absent k no_card index new) (entries_onto-no_card [] k index)
  | inr (entry, old) ↦ rw old refl
]

entries_onto-carry_entries :
    (live : Dict String Registration) (index : Dict String GroupIndexEntry)
    → entries_onto [] (carry_entries live index) ≡ entries_onto [] index
unfolding carry_entries
entries_onto-carry_entries [] index = refl
entries_onto-carry_entries ((k, r) ∷ live) index =
    entries_onto-carry_entries live (Dict.setdefault k no_card index)
    ∙ entries_onto-setdefault k index

index-register_sources :
    (key : String) (union : Dict String SearchResult) (o : Option (Dict String SearchResult))
    (s : Registering)
    → (register_sources key union o s).index ≡ s.index
unfolding register_sources
index-register_sources key union none s = refl
index-register_sources key union (some current) s = elim (Bool-cases (adds union current)) [
  | inl more ↦ rw more refl
  | inr same ↦ rw same refl
]

shown-register_index :
    (key : String) (s : Registering)
    → entries_onto [] (register_index key s).index ≡ entries_onto [] s.index
unfolding register_index
shown-register_index key s = elim (Option-cases (Dict.get key s.index)) [
  | inl new ↦ rw (new, put_absent key no_card s.index new) (entries_onto-no_card [] key s.index)
  | inr (entry, old) ↦ rw old refl
]

shown-register_key :
    (now expires_at : ℕ) (union : Dict String SearchResult) (key : String) (s : Registering)
    → entries_onto [] (register_key now expires_at union key s).index ≡ entries_onto [] s.index
unfolding register_key
shown-register_key now expires_at union key s =
    let s' = register_sources key union (Dict.get key s.existing) s in
    shown-register_index key s'
    ∙ ap (entries_onto []) (index-register_sources key union (Dict.get key s.existing) s)

shown-register_keys :
    (now expires_at : ℕ) (union : Dict String SearchResult) (keys : List String) (s : Registering)
    → entries_onto [] (register_keys now expires_at union keys s).index ≡ entries_onto [] s.index
unfolding register_keys
shown-register_keys now expires_at union [] s = refl
shown-register_keys now expires_at union (key ∷ keys) s =
    shown-register_keys now expires_at union keys (register_key now expires_at union key s)
    ∙ shown-register_key now expires_at union key s

shown-register_groups :
    (now expires_at : ℕ) (groups : List SearchGroup) (s : Registering)
    → entries_onto [] (register_groups now expires_at groups s).index ≡ entries_onto [] s.index
unfolding register_groups
shown-register_groups now expires_at [] s = refl
shown-register_groups now expires_at (group ∷ groups) s =
    shown-register_groups now expires_at groups _
    ∙ shown-register_keys now expires_at (provider_union group.sources)
        (keys_or group.member_keys group.group_key) s

index-finish_search :
    (now : ℕ) (r : Registering) (s : Catalog) → (finish_search now r s).index ≡ r.index
unfolding finish_search
index-finish_search now r s = elim (Bool-cases r.changed) [
  | inl yes_changed ↦ rw yes_changed refl
  | inr same ↦ rw same refl
]

shown-register_search :
    (now : ℕ) (groups : List SearchGroup) (s : Catalog)
    → entries_onto [] (register_search now groups s).index ≡ entries_onto [] s.index
unfolding register_search sources
shown-register_search now [] s = refl
shown-register_search now (group ∷ groups) s =
    let read = sources now s in
    let begun = before_groups read.1 read.0 in
    let r = register_groups now (now + s.search_ttl_s) (group ∷ groups) begun in
    ap (entries_onto []) (index-finish_search now r read.0)
    ∙ shown-register_groups now (now + s.search_ttl_s) (group ∷ groups) begun

shown-step :
    (now : ℕ) (event : Event) (s : Catalog) (home : HomeResponse)
    → entries_onto [] s.index ≡ shelf home
    → entries_onto [] (step now event s).index ≡ shelf (latest ((now, event) ∷ []) home)
unfolding step apply_snapshot invalidate group_resolution sources
shown-step now (replaced home' m persist) s home h =
    entries_onto-carry_entries (live_registrations now s.registrations) (entries_from_rows home')
shown-step now (searched groups) s home h = shown-register_search now groups s ∙ h
shown-step now invalidated s home h = h
shown-step now (resolved key) s home h = h

shown-run :
    (events : List (ℕ × Event)) (s : Catalog) (home : HomeResponse)
    → entries_onto [] s.index ≡ shelf home
    → entries_onto [] (run events s).index ≡ shelf (latest events home)
unfolding run
shown-run [] s home h = h
shown-run ((now, replaced home' m persist) ∷ events) s home h =
    shown-run events _ home' (shown-step now (replaced home' m persist) s home h)
shown-run ((now, searched groups) ∷ events) s home h =
    shown-run events _ home (shown-step now (searched groups) s home h)
shown-run ((now, invalidated) ∷ events) s home h =
    shown-run events _ home (shown-step now invalidated s home h)
shown-run ((now, resolved key) ∷ events) s home h =
    shown-run events _ home (shown-step now (resolved key) s home h)

-- After any snapshots, searches, invalidations and lookups on a catalog that was reset, the iteration
-- shows exactly what it shows of the snapshot that was applied last, taken alone, and nothing before the
-- first: a search adds no card and hides none.
pub snapshot_entries-run :
    (events : List (ℕ × Event)) (s : Catalog)
    → snapshot_entries (run events (reset s)) ≡ shelf (latest events (record { rows = [] }))
unfolding snapshot_entries
snapshot_entries-run events s =
    shown-run events (reset s) (record { rows = [] }) (unfold reset entries_from_rows in refl)
