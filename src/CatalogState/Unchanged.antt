-- ===== src/CatalogState/Unchanged.antt =====
-- What the loops of `register_search` leave when they say that nothing changed.
use ps4_uk_stream.Prelude.{
  ℕ, String, ◌≡◌, refl, ◌∙◌, false, Option, none, some, List, [], ◌∷◌, arith, nat_eq, string_eq,
}
use ps4_uk_stream.Prelude.Dict
use ps4_uk_stream.Prelude.Dict.{Dict}
use ps4_uk_stream.Models.{SearchResult, SearchGroup}
use ps4_uk_stream.WireIdentity.{provider_union}
use ps4_uk_stream.CatalogState.{keys_or}
use ps4_uk_stream.CatalogState.Searches.{
  Registering, register_sources, register_index, register_owned, register_key, register_keys,
  register_groups,
}
use ps4_uk_stream.CatalogState.Loops.{index-register_sources, existing-register_index}

-- A loop that reports no change has left the map and the index as they were.
pub record Unchanged (s t : Registering) : Type 0 where
  pub same_map : t.existing ≡ s.existing
  pub same_index : t.index ≡ s.index
  pub said_so : s.changed ≡ false

register_sources-Unchanged :
    (key : String) (union : Dict String SearchResult) (o : Option (Dict String SearchResult))
    (s : Registering)
    → (register_sources key union o s).changed ≡ false
    → Unchanged s (register_sources key union o s)
unfolding register_sources
register_sources-Unchanged key union none s h = absurd (ground arith)
register_sources-Unchanged key union (some current) s h = record {
  same_map = ground arith;
  same_index = index-register_sources key union (some current) s;
  said_so = ground arith;
}

changed-register_index :
    (key : String) (s : Registering) → (register_index key s).changed ≡ false → s.changed ≡ false
unfolding register_index
changed-register_index key s h = ground arith

unchanged_index :
    (key : String) (s : Registering)
    → (register_index key s).changed ≡ false
    → (register_index key s).index ≡ s.index
unfolding register_index
unchanged_index key s h = ground arith

pub register_key-Unchanged :
    (now expires_at : ℕ) (union : Dict String SearchResult) (key : String) (s : Registering)
    → (register_key now expires_at union key s).changed ≡ false
    → Unchanged s (register_key now expires_at union key s)
unfolding register_key register_owned
register_key-Unchanged now expires_at union key s h =
    let s' = register_sources key union (Dict.get key s.existing) s in
    let first =
      register_sources-Unchanged key union (Dict.get key s.existing) s
        (changed-register_index key s' h) in
    record {
      same_map = existing-register_index key s' ∙ first.same_map;
      same_index = unchanged_index key s' h ∙ first.same_index;
      said_so = first.said_so;
    }

pub register_keys-Unchanged :
    (now expires_at : ℕ) (union : Dict String SearchResult) (keys : List String) (s : Registering)
    → (register_keys now expires_at union keys s).changed ≡ false
    → Unchanged s (register_keys now expires_at union keys s)
unfolding register_keys
register_keys-Unchanged now expires_at union [] s h = record {
  same_map = refl;
  same_index = refl;
  said_so = h;
}
register_keys-Unchanged now expires_at union (key ∷ keys) s h =
    let s' = register_key now expires_at union key s in
    let rest = register_keys-Unchanged now expires_at union keys s' h in
    let first = register_key-Unchanged now expires_at union key s rest.said_so in
    record {
      same_map = rest.same_map ∙ first.same_map;
      same_index = rest.same_index ∙ first.same_index;
      said_so = first.said_so;
    }

pub register_groups-Unchanged :
    (now expires_at : ℕ) (groups : List SearchGroup) (s : Registering)
    → (register_groups now expires_at groups s).changed ≡ false
    → Unchanged s (register_groups now expires_at groups s)
unfolding register_groups
register_groups-Unchanged now expires_at [] s h = record {
  same_map = refl;
  same_index = refl;
  said_so = h;
}
register_groups-Unchanged now expires_at (group ∷ groups) s h =
    let keys = keys_or group.member_keys group.group_key in
    let s' = register_keys now expires_at (provider_union group.sources) keys s in
    let rest = register_groups-Unchanged now expires_at groups s' h in
    let first =
      register_keys-Unchanged now expires_at (provider_union group.sources) keys s rest.said_so in
    record {
      same_map = rest.same_map ∙ first.same_map;
      same_index = rest.same_index ∙ first.same_index;
      said_so = first.said_so;
    }
