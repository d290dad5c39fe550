-- ===== src/Recommend/Pool.antt =====
-- No title ranks twice, and nothing watched ranks.
use ps4_uk_stream.Prelude.{
  Eq, ==_refl, String, ◌≡◌, refl, inl, inr, Bool, true, false, Option, some, List, [], ◌∷◌, ◌++◌,
  map, arith, Bool-cases, Option-cases, ◌==◌, nat_eq, string_eq, ==_iff, All,
}
use ps4_uk_stream.Prelude.Membership.{contains, IsDistinct}
use ps4_uk_stream.Models.{HomeItem}
use ps4_uk_stream.Recommend.{pool, TitleKey, title_key_eq, title_key, candidate, pool_from}

differs {ℓ} :
    {A : Type ℓ} ⦃e : Eq A⦄ (x y : A) (seen : List A)
    → contains x seen ≡ false
    → contains y seen ≡ true
    → (x == y) ≡ false
differs x y seen absent present = elim (Bool-cases (x == y)) [
  | inl hit ↦ absurd (let moved : contains y seen ≡ false = rw ((==_iff x y).0 hit) at absent in cc)
  | inr miss ↦ miss
]

module _ {Profile : Type 0} (normalize : String → String) (profile_of : String → Option Profile)
    (watched : String → Bool) where
  abbrev keys : List (HomeItem × Profile) → List String
  keys = map (λ e. e.0.group_key)

  abbrev titles : List (HomeItem × Profile) → List TitleKey
  titles = map (λ e. title_key normalize profile_of watched e.0)

  abbrev key_of : HomeItem → TitleKey
  key_of = title_key normalize profile_of watched

  abbrev rest : List String → List TitleKey → List HomeItem → List (HomeItem × Profile)
  rest = pool_from normalize profile_of watched

  -- What the code keeps of one item
  data Taken (item : HomeItem) : List (HomeItem × Profile) → Type 0 where
    left_out : Taken item []
    taken :
        (profile : Profile)
        → profile_of item.group_key ≡ some profile
        → watched item.group_key ≡ false
        → Taken item ((item, profile) ∷ [])

  candidate-Taken :
      (item : HomeItem)
      → Taken item (candidate normalize profile_of watched item (profile_of item.group_key))
  candidate-Taken item = elim (Option-cases (profile_of item.group_key)) [
    | inl absent ↦ rw absent Taken.left_out
    | inr (profile, found) ↦ elim (Bool-cases (watched item.group_key)) [
      | inl seen ↦ rw (found, seen) Taken.left_out
      | inr fresh ↦ rw (found, fresh) (Taken.taken profile found fresh)
    ]
  ]

  -- Each entry has its profile and is not watched, and no key and no title occurs twice.
  pub record IsPool (entries : List (HomeItem × Profile)) : Type 0 where
    pub allowed :
        All (λ e. (profile_of e.0.group_key ≡ some e.1) × (watched e.0.group_key ≡ false)) entries
    pub distinct_keys : IsDistinct (keys entries)
    pub distinct_titles : IsDistinct (titles entries)

  key_unseen :
      (item : HomeItem) (k : String) (new more : List (HomeItem × Profile))
      → Taken item new
      → (item.group_key == k) ≡ false
      → contains k (keys more) ≡ false
      → contains k (keys (new ++ more)) ≡ false
  unfolding contains
  key_unseen item k new more left_out h c = c
  key_unseen item k new more (taken profile found fresh) h c = rw (h, c) refl

  pool_from-keys :
      (items : List HomeItem) (seen_keys : List String) (seen_titles : List TitleKey) (k : String)
      → contains k seen_keys ≡ true
      → contains k (keys (rest seen_keys seen_titles items)) ≡ false
  unfolding pool_from contains
  pool_from-keys [] seen_keys seen_titles k h = refl
  pool_from-keys (item ∷ items) seen_keys seen_titles k h =
      elim (Bool-cases (contains item.group_key seen_keys)) [
        | inl again ↦ rw again (pool_from-keys items seen_keys seen_titles k h)
        | inr new ↦
            let more : contains k (item.group_key ∷ seen_keys) ≡ true = ground arith in
            elim (Bool-cases (contains (key_of item) seen_titles)) [
              | inl twin ↦
                  rw (new, twin)
                    (pool_from-keys items (item.group_key ∷ seen_keys) seen_titles k more)
              | inr fresh ↦
                  rw (new, fresh)
                    (key_unseen item k _ _ (candidate-Taken item)
                      (ground (arith, ==_iff item.group_key k))
                      (pool_from-keys items (item.group_key ∷ seen_keys) (key_of item ∷ seen_titles)
                        k more))
            ]
      ]

  title_unseen :
      (item : HomeItem) (t : TitleKey) (new more : List (HomeItem × Profile))
      → Taken item new
      → (key_of item == t) ≡ false
      → contains t (titles more) ≡ false
      → contains t (titles (new ++ more)) ≡ false
  unfolding contains
  title_unseen item t new more left_out h c = c
  title_unseen item t new more (taken profile found fresh) h c = rw (h, c) refl

  pool_from-titles :
      (items : List HomeItem) (seen_keys : List String) (seen_titles : List TitleKey) (t : TitleKey)
      → contains t seen_titles ≡ true
      → contains t (titles (rest seen_keys seen_titles items)) ≡ false
  unfolding pool_from contains
  pool_from-titles [] seen_keys seen_titles t h = refl
  pool_from-titles (item ∷ items) seen_keys seen_titles t h =
      elim (Bool-cases (contains item.group_key seen_keys)) [
        | inl again ↦ rw again (pool_from-titles items seen_keys seen_titles t h)
        | inr new ↦ elim (Bool-cases (contains (key_of item) seen_titles)) [
          | inl twin ↦
              rw (new, twin) (pool_from-titles items (item.group_key ∷ seen_keys) seen_titles t h)
          | inr fresh ↦
              let other : (key_of item == t) ≡ false =
                differs (key_of item) t seen_titles fresh h in
              rw (new, fresh)
                (title_unseen item t _ _ (candidate-Taken item) other (
                  pool_from-titles items (item.group_key ∷ seen_keys) (key_of item ∷ seen_titles) t
                    (rw other h)))
        ]
      ]

  IsPool-add :
      (item : HomeItem) (new more : List (HomeItem × Profile))
      → Taken item new
      → contains item.group_key (keys more) ≡ false
      → contains (key_of item) (titles more) ≡ false
      → IsPool more
      → IsPool (new ++ more)
  IsPool-add item new more left_out k t p = p
  IsPool-add item new more (taken profile found fresh) k t p = record {
    allowed = ((found, fresh), p.allowed);
    distinct_keys = (k, p.distinct_keys);
    distinct_titles = (t, p.distinct_titles);
  }

  unseen-IsPool :
      (items : List HomeItem) (seen_keys : List String) (seen_titles : List TitleKey)
      → IsPool (rest seen_keys seen_titles items)
  unfolding pool_from contains
  unseen-IsPool [] seen_keys seen_titles = record {
    allowed = tt;
    distinct_keys = tt;
    distinct_titles = tt;
  }
  unseen-IsPool (item ∷ items) seen_keys seen_titles =
      elim (Bool-cases (contains item.group_key seen_keys)) [
        | inl again ↦ rw again (unseen-IsPool items seen_keys seen_titles)
        | inr new ↦ elim (Bool-cases (contains (key_of item) seen_titles)) [
          | inl twin ↦ rw (new, twin) (unseen-IsPool items (item.group_key ∷ seen_keys) seen_titles)
          | inr fresh ↦
              rw (new, fresh)
                (IsPool-add item _ _ (candidate-Taken item)
                  (pool_from-keys items (item.group_key ∷ seen_keys) (key_of item ∷ seen_titles)
                    item.group_key (rw ==_refl refl))
                  (pool_from-titles items (item.group_key ∷ seen_keys) (key_of item ∷ seen_titles)
                    (key_of item) (rw ==_refl refl))
                  (unseen-IsPool items (item.group_key ∷ seen_keys) (key_of item ∷ seen_titles)))
        ]
      ]

  -- Each candidate of the pool has the profile of its group and is not watched, and no group key and
  -- no title with its year occurs twice.
  pub pool-IsPool : (items : List HomeItem) → IsPool (pool normalize profile_of watched items)
  unfolding pool
  pool-IsPool items = unseen-IsPool items [] []
