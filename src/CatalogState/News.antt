-- ===== src/CatalogState/News.antt =====
-- When `register_search` finds that something changed: told from the map and the index that it starts on.
use ps4_uk_stream.Prelude.{
  ℕ, String, ◌≡◌, refl, sym, ◌∙◌, inl, inr, Bool, true, false, not, ◌||◌, Option, none, some, List,
  [], ◌∷◌, ◌++◌, arith, Bool-cases, ◌==◌, ==_iff, nat_eq, string_eq, any,
}
use ps4_uk_stream.Prelude.Dict
use ps4_uk_stream.Prelude.Dict.{Dict, put_absent}
use ps4_uk_stream.Models.{SearchResult, SearchGroup}
use ps4_uk_stream.WireIdentity.{union_onto, provider_union}
use ps4_uk_stream.CatalogState.{Sources, GroupIndexEntry, keys_or}
use ps4_uk_stream.CatalogState.Searches.{
  Registering, adds, register_sources, register_index, register_key, register_owned, register_keys,
  register_groups,
}
use ps4_uk_stream.CatalogState.Loops.{index-register_sources}
use ps4_uk_stream.CatalogState.Unchanged.{register_key-Unchanged, register_keys-Unchanged}

-- Some source is of a provider that the map does not have under a key.
abbrev pub lacks : Option (Dict String SearchResult) → List SearchResult → Bool
lacks none sources = true
lacks (some current) sources = any (λ r. not (Dict.member r.provider current)) sources

-- Under some key of the group, the map lacks a source's provider or the key, or the index lacks the key.
abbrev pub is_news : Sources → Dict String GroupIndexEntry → SearchGroup → Bool
is_news m index group =
    any (λ k. lacks (Dict.get k m) group.sources || not (Dict.member k index))
      (keys_or group.member_keys group.group_key)

adds-append_one :
    (p : String) (r : SearchResult) (union current : Dict String SearchResult)
    → adds (union ++ (p, r) ∷ []) current ≡ (adds union current || not (Dict.member p current))
adds-append_one p r [] current = ground arith
adds-append_one p r (e ∷ union) current = ground (arith, adds-append_one p r union current)

adds_known :
    (p : String) (union current : Dict String SearchResult)
    → Dict.member p union ≡ true
    → (adds union current || not (Dict.member p current)) ≡ adds union current
unfolding Dict.get
adds_known p [] current h = absurd (cc h)
adds_known p ((q, c) ∷ union) current h = elim (Bool-cases (q == p)) [
  | inl hit ↦ rw ((==_iff q p).0 hit) (ground arith)
  | inr miss ↦ ground (arith, adds_known p union current (ground arith))
]

adds-union_onto :
    (union current : Dict String SearchResult) (sources : List SearchResult)
    → adds (union_onto union sources) current ≡ (adds union current || lacks (some current) sources)
unfolding union_onto
adds-union_onto union current [] = ground arith
adds-union_onto union current (r ∷ sources) = elim (Bool-cases (Dict.member r.provider union)) [
  | inl old ↦ rw old (
      adds-union_onto union current sources
      ∙ ground (arith, adds_known r.provider union current old))
  | inr new ↦
      let gone : Dict.get r.provider union ≡ none = ground arith in
      rw (new, put_absent r.provider r union gone)
        (adds-union_onto (union ++ (r.provider, r) ∷ []) current sources
          ∙ ground (arith, adds-append_one r.provider r union current))
]

-- What one key adds
abbrev fresh_at : List SearchResult → Sources → Dict String GroupIndexEntry → String → Bool
fresh_at sources m index key = lacks (Dict.get key m) sources || not (Dict.member key index)

changed-register_sources :
    (key : String) (sources : List SearchResult) (o : Option (Dict String SearchResult))
    (s : Registering)
    → (register_sources key (provider_union sources) o s).changed ≡ (lacks o sources || s.changed)
unfolding register_sources provider_union
changed-register_sources key sources none s = refl
changed-register_sources key sources (some current) s =
    ground (arith, adds-union_onto [] current sources)

changed-register_index :
    (key : String) (s : Registering)
    → (register_index key s).changed ≡ (not (Dict.member key s.index) || s.changed)
unfolding register_index
changed-register_index key s = ground arith

module _ (now expires_at : ℕ) where
  changed-register_key :
      (sources : List SearchResult) (key : String) (s : Registering)
      → (register_key now expires_at (provider_union sources) key s).changed
        ≡ (fresh_at sources s.existing s.index key || s.changed)
  unfolding register_key register_owned
  changed-register_key sources key s =
      let union = provider_union sources in
      let o = Dict.get key s.existing in
      changed-register_index key (register_sources key union o s)
      ∙ rw (index-register_sources key union o s, changed-register_sources key sources o s)
          (ground arith)

  register_keys_stays :
      (sources : List SearchResult) (keys : List String) (s : Registering)
      → s.changed ≡ true
      → (register_keys now expires_at (provider_union sources) keys s).changed ≡ true
  unfolding register_keys
  register_keys_stays sources [] s h = h
  register_keys_stays sources (key ∷ keys) s h =
      register_keys_stays sources keys _ (changed-register_key sources key s ∙ ground (arith, h))

  changed-register_keys :
      (sources : List SearchResult) (keys : List String) (s : Registering)
      → s.changed ≡ false
      → (register_keys now expires_at (provider_union sources) keys s).changed
        ≡ any (fresh_at sources s.existing s.index) keys
  unfolding register_keys
  changed-register_keys sources [] s h = h
  changed-register_keys sources (key ∷ keys) s h =
      let union = provider_union sources in
      let s' = register_key now expires_at union key s in
      let said = changed-register_key sources key s in
      elim (Bool-cases s'.changed) [
        | inl more ↦
            let new : fresh_at sources s.existing s.index key ≡ true =
              ground (arith, said, more, h) in
            register_keys_stays sources keys s' more ∙ rw new refl
        | inr same ↦
            let old : fresh_at sources s.existing s.index key ≡ false =
              ground (arith, said, same, h) in
            let kept = register_key-Unchanged now expires_at union key s same in
            changed-register_keys sources keys s' same
            ∙ rw (kept.same_map, kept.same_index, old) refl
      ]

  register_groups_stays :
      (groups : List SearchGroup) (s : Registering)
      → s.changed ≡ true
      → (register_groups now expires_at groups s).changed ≡ true
  unfolding register_groups
  register_groups_stays [] s h = h
  register_groups_stays (group ∷ groups) s h =
      register_groups_stays groups _
        (register_keys_stays group.sources (keys_or group.member_keys group.group_key) s h)

  -- The flag at the end says whether some group is news to the map and the index of the start.
  pub changed-register_groups :
      (groups : List SearchGroup) (s : Registering)
      → s.changed ≡ false
      → (register_groups now expires_at groups s).changed ≡ any (is_news s.existing s.index) groups
  unfolding register_groups
  changed-register_groups [] s h = h
  changed-register_groups (group ∷ groups) s h =
      let union = provider_union group.sources in
      let keys = keys_or group.member_keys group.group_key in
      let s' = register_keys now expires_at union keys s in
      let said = changed-register_keys group.sources keys s h in
      elim (Bool-cases s'.changed) [
        | inl more ↦
            let new : is_news s.existing s.index group ≡ true = sym said ∙ more in
            register_groups_stays groups s' more ∙ rw new refl
        | inr same ↦
            let old : is_news s.existing s.index group ≡ false = sym said ∙ same in
            let kept = register_keys-Unchanged now expires_at union keys s same in
            changed-register_groups groups s' same ∙ rw (kept.same_map, kept.same_index, old) refl
      ]
