-- ===== src/CatalogState/Kept.antt =====
-- One key and provider in the loops of `register_search`: a promise that holds is kept, and the loops
-- make one for each key of a group and each provider of its union.
use ps4_uk_stream.Prelude.{
  ◌++◌, ◌≤◌, ℕ, String, ◌≡◌, refl, ◌∙◌, inl, inr, true, false, Option, none, some, List, [], ◌∷◌,
  arith, ltb, is_some, Bool-cases, ◌==◌, ==_iff, ==_refl, nat_eq, string_eq,
}
use ps4_uk_stream.Prelude.Dict
use ps4_uk_stream.Prelude.Dict.{
  Dict, DistinctKeys, later, get-put, get-setdefaults, put-DistinctKeys,
}
use ps4_uk_stream.Prelude.Membership.{contains}
use ps4_uk_stream.Models.{SearchResult, SearchGroup}
use ps4_uk_stream.WireIdentity.{provider_union}
use ps4_uk_stream.CatalogState.{Registration, keys_or}
use ps4_uk_stream.CatalogState.Searches.{
  Registering, register_key, register_keys, register_groups, earlier_providers,
}
use ps4_uk_stream.CatalogState.Layers.{cell}
use ps4_uk_stream.CatalogState.Loops.{
  cell-register_key, indexed-register_key, registrations-register_key,
}

-- A registration of `k` that lasts to `d` and has a card of `p`
pub record IsOwned (d : ℕ) (p : String) (o : Option Registration) : Type 0 where
  pub owner : Registration
  pub found : o ≡ some owner
  pub lasts : d ≤ owner.expires_at
  pub has : Dict.member p owner.providers ≡ true

pub record IsKept (d : ℕ) (k p : String) (s : Registering) : Type 0 where
  pub distinct : DistinctKeys s.registrations
  pub held : IsOwned d p (Dict.get k s.registrations)
  pub indexed : Dict.member k s.index ≡ true
  pub mapped : is_some (cell k p s.existing) ≡ true

later_first {ℓ} : {A : Type ℓ} (o q : Option A) → is_some o ≡ true → is_some (later o q) ≡ true
later_first none q h = cc
later_first (some a) q h = refl

pub later_second {ℓ} : {A : Type ℓ} (o q : Option A) → is_some q ≡ true → is_some (later o q) ≡ true
later_second none q h = h
later_second (some a) q h = refl

-- The group has the key and a card of the provider.
abbrev pub Offers : String → String → SearchGroup → Type 0
Offers k p group =
    (contains k (keys_or group.member_keys group.group_key) ≡ true)
    × (Dict.member p (provider_union group.sources) ≡ true)

module _ (now expires_at d : ℕ) (from : now ≤ d) (until : d ≤ expires_at) (k p : String) where
  owned_again :
      (union : Dict String SearchResult) (o : Option Registration)
      → IsOwned d p o
      → Dict.member p (Dict.setdefaults (earlier_providers now o) union) ≡ true
  unfolding earlier_providers
  owned_again union none h = cc (h.found)
  owned_again union (some r) h =
      let same : r ≡ h.owner = cc (h.found) in
      let alive : ltb r.expires_at now ≡ false = rw same (ground (arith, h.lasts, from)) in
      let has : Dict.member p r.providers ≡ true = rw same h.has in
      rw (alive, get-setdefaults p r.providers union)
        (later_first (Dict.get p r.providers) (Dict.get p union) has)

  register_key-IsKept :
      (union : Dict String SearchResult) (key : String) (s : Registering)
      → IsKept d k p s
      → IsKept d k p (register_key now expires_at union key s)
  register_key-IsKept union key s h = record {
    distinct =
        rw (registrations-register_key now expires_at union key s)
          (put-DistinctKeys key _ s.registrations h.distinct);
    held =
        rw (registrations-register_key now expires_at union key s, get-put key k _ s.registrations)
          (elim (Bool-cases (key == k)) [
            | inl hit ↦ rw hit (record {
              owner = record {
                expires_at = expires_at;
                providers =
                    Dict.setdefaults (earlier_providers now (Dict.get key s.registrations)) union;
              };
              found = refl;
              lasts = until;
              has =
                  rw ((==_iff key k).0 hit) (owned_again union (Dict.get k s.registrations) h.held);
            })
            | inr miss ↦ rw miss h.held
          ]);
    indexed = indexed-register_key now expires_at union key k s ∙ ground (arith, h.indexed);
    mapped =
        rw (cell-register_key now expires_at union key k p s)
          (later_first (cell k p s.existing) _ h.mapped);
  }

  register_keys-IsKept :
      (union : Dict String SearchResult) (keys : List String) (s : Registering)
      → IsKept d k p s
      → IsKept d k p (register_keys now expires_at union keys s)
  unfolding register_keys
  register_keys-IsKept union [] s h = h
  register_keys-IsKept union (key ∷ keys) s h =
      register_keys-IsKept union keys (register_key now expires_at union key s)
        (register_key-IsKept union key s h)

  pub register_groups-IsKept :
      (groups : List SearchGroup) (s : Registering)
      → IsKept d k p s
      → IsKept d k p (register_groups now expires_at groups s)
  unfolding register_groups
  register_groups-IsKept [] s h = h
  register_groups-IsKept (group ∷ groups) s h = register_groups-IsKept groups _ (
      register_keys-IsKept (provider_union group.sources)
        (keys_or group.member_keys group.group_key) s h)

  made_here :
      (union : Dict String SearchResult) (s : Registering)
      → DistinctKeys s.registrations
      → Dict.member p union ≡ true
      → IsKept d k p (register_key now expires_at union k s)
  made_here union s h u = record {
    distinct =
        rw (registrations-register_key now expires_at union k s)
          (put-DistinctKeys k _ s.registrations h);
    held =
        rw
          (
            registrations-register_key now expires_at union k s,
            get-put k k _ s.registrations,
            ==_refl k,
          )
          (record {
            owner = record {
              expires_at = expires_at;
              providers =
                  Dict.setdefaults (earlier_providers now (Dict.get k s.registrations)) union;
            };
            found = refl;
            lasts = until;
            has =
                rw (get-setdefaults p (earlier_providers now (Dict.get k s.registrations)) union)
                  (later_second _ (Dict.get p union) u);
          });
    indexed = indexed-register_key now expires_at union k k s ∙ rw (==_refl k) refl;
    mapped =
        rw (cell-register_key now expires_at union k k p s, ==_refl k)
          (later_second (cell k p s.existing) (Dict.get p union) u);
  }

  register_keys-makes :
      (union : Dict String SearchResult) (keys : List String) (s : Registering)
      → DistinctKeys s.registrations
      → contains k keys ≡ true
      → Dict.member p union ≡ true
      → IsKept d k p (register_keys now expires_at union keys s)
  unfolding register_keys contains
  register_keys-makes union [] s h c u = cc
  register_keys-makes union (key ∷ keys) s h c u = elim (Bool-cases (key == k)) [
    | inl hit ↦
        register_keys-IsKept union keys _ (rw ((==_iff key k).0 hit) (made_here union s h u))
    | inr miss ↦
        register_keys-makes union keys _
          (rw (registrations-register_key now expires_at union key s)
            (put-DistinctKeys key _ s.registrations h))
          (rw miss at c) u
  ]

  register_keys-DistinctKeys :
      (union : Dict String SearchResult) (keys : List String) (s : Registering)
      → DistinctKeys s.registrations
      → DistinctKeys (register_keys now expires_at union keys s).registrations
  unfolding register_keys
  register_keys-DistinctKeys union [] s h = h
  register_keys-DistinctKeys union (key ∷ keys) s h = register_keys-DistinctKeys union keys _ (
      rw (registrations-register_key now expires_at union key s)
        (put-DistinctKeys key _ s.registrations h))

  pub register_groups-makes :
      (before : List SearchGroup) (group : SearchGroup) (after : List SearchGroup) (s : Registering)
      → DistinctKeys s.registrations
      → Offers k p group
      → IsKept d k p (register_groups now expires_at (before ++ group ∷ after) s)
  unfolding register_groups
  register_groups-makes [] group after s h o = register_groups-IsKept after _ (
      register_keys-makes (provider_union group.sources) (keys_or group.member_keys group.group_key)
        s h o.0 o.1)
  register_groups-makes (first ∷ before) group after s h o =
      register_groups-makes before group after _
        (register_keys-DistinctKeys (provider_union first.sources)
          (keys_or first.member_keys first.group_key) s h)
        o
