-- ===== src/CatalogState/Searches.antt =====
-- backend/cs_uk_api/_catalog_state/_stores.py: `CatalogState.register_search`.
use ps4_uk_stream.Prelude.{
  ◌+◌, ℕ, String, Bool, true, false, not, Option, none, some, List, [], ◌∷◌, ltb, if◌then◌else◌,
  nat_eq, string_eq, any,
}
use ps4_uk_stream.Prelude.Dict
use ps4_uk_stream.Prelude.Dict.{Dict}
use ps4_uk_stream.Cache
use ps4_uk_stream.Models.{SearchResult, SearchGroup}
use ps4_uk_stream.WireIdentity.{provider_union}
use ps4_uk_stream.CatalogState.{
  Sources, GroupIndexEntry, Registration, Catalog, sources_key, keys_or, no_card, sources,
}

-- What the loops of `register_search` work on: `existing`, the index, the registrations and `changed`
pub record Registering : Type 0 where
  pub existing : Sources
  pub index : Dict String GroupIndexEntry
  pub registrations : Dict String Registration
  pub changed : Bool

-- `merged != current`: `setdefault` can only add providers.
abbrev pub adds : Dict String SearchResult → Dict String SearchResult → Bool
adds union current = any (λ e. not (Dict.member e.0 current)) union

unfoldable pub register_sources :
    String
    → Dict String SearchResult
    → Option (Dict String SearchResult)
    → Registering
    → Registering
register_sources key union none s = record s {
  existing = Dict.put key union s.existing;
  changed = true;
}
register_sources key union (some current) s =
    if adds union current
    then record s {
      existing = Dict.put key (Dict.setdefaults current union) s.existing;
      changed = true;
    }
    else s

unfoldable pub register_index : String → Registering → Registering
register_index key s =
    if Dict.member key s.index
    then s
    else record s { index = Dict.put key no_card s.index; changed = true }

-- `owned` before the new union: the providers of an earlier registration that still lives
unfoldable pub earlier_providers : ℕ → Option Registration → Dict String SearchResult
earlier_providers now none = []
earlier_providers now (some earlier) = if ltb earlier.expires_at now then [] else earlier.providers

unfoldable pub register_owned :
    ℕ → ℕ → String → Dict String SearchResult → Registering → Registering
unfolding earlier_providers
register_owned now expires_at key union s =
    let owned = Dict.setdefaults (earlier_providers now (Dict.get key s.registrations)) union in
    record s {
      registrations =
          Dict.put key (record { expires_at = expires_at; providers = owned }) s.registrations;
    }

unfoldable pub register_key : ℕ → ℕ → Dict String SearchResult → String → Registering → Registering
unfolding register_sources register_index register_owned
register_key now expires_at union key s =
    register_owned now expires_at key union
      (register_index key (register_sources key union (Dict.get key s.existing) s))

unfoldable pub register_keys :
    ℕ → ℕ → Dict String SearchResult → List String → Registering → Registering
unfolding register_key
register_keys now expires_at union [] s = s
register_keys now expires_at union (key ∷ keys) s =
    register_keys now expires_at union keys (register_key now expires_at union key s)

unfoldable pub register_groups : ℕ → ℕ → List SearchGroup → Registering → Registering
unfolding register_keys
register_groups now expires_at [] s = s
register_groups now expires_at (group ∷ groups) s = register_groups now expires_at groups (
    register_keys now expires_at (provider_union group.sources)
      (keys_or group.member_keys group.group_key) s)

-- The end of `register_search`: the map is set again only if something changed.
unfoldable pub finish_search : ℕ → Registering → Catalog → Catalog
unfolding Cache.set
finish_search now r s =
    let kept = record s { index = r.index; registrations = r.registrations } in
    if r.changed
    then record kept { sources_cache = Cache.set now sources_key r.existing none s.sources_cache }
    else kept

-- The variables of `register_search` before its loops
abbrev pub before_groups : Sources → Catalog → Registering
before_groups existing s = record {
  existing = existing;
  index = s.index;
  registrations = s.registrations;
  changed = false;
}

unfoldable pub register_search : ℕ → List SearchGroup → Catalog → Catalog
unfolding sources register_groups finish_search
register_search now [] s = s
register_search now (group ∷ groups) s =
    let (s', existing) = sources now s in
    finish_search now
      (register_groups now (now + s.search_ttl_s) (group ∷ groups) (before_groups existing s')) s'
