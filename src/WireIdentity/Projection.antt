-- ===== src/WireIdentity/Projection.antt =====
-- The projections of a group agree with each other, and the keys of its members with its own.
use ps4_uk_stream.Prelude.{
  String, ◌≡◌, refl, sym, ap, ◌∙◌, inl, inr, Option, none, some, List, [], ◌∷◌, ◌++◌, map, arith,
  if◌then◌else◌, Bool-cases, Option-cases, is_some, ◌==◌, nat_eq, string_eq, keep,
}
use ps4_uk_stream.Prelude.Dict
use ps4_uk_stream.Prelude.Dict.{Dict, put_absent}
use ps4_uk_stream.Prelude.Membership.{contains}
use ps4_uk_stream.Models.{SearchResult}
use ps4_uk_stream.Merge.{
  least_key, preferred, MergeGroup, merge_results, members_of, group_key_of, imdb_ids, checked_imdb,
  year_of,
}
use ps4_uk_stream.Merge.Buckets.{bucket_by, merge_buckets_lem}
use ps4_uk_stream.WireIdentity.{
  from_keys, union_onto, provider_union, GroupProjection, project_group, projection,
}
use ps4_uk_stream.WireIdentity.Keys.{TextTools, item_group_key, wire_rules, valid_imdb}

abbrev pub keys_of : Dict String SearchResult → List String
keys_of d = map (λ e. e.0) d

keys_of-append :
    (d : Dict String SearchResult) (e : String × SearchResult)
    → keys_of (d ++ e ∷ []) ≡ keys_of d ++ e.0 ∷ []
keys_of-append [] e = refl
keys_of-append (x ∷ d) e = ap (◌∷◌ x.0) (keys_of-append d e)

contains-keys_of :
    (k : String) (d : Dict String SearchResult) → contains k (keys_of d) ≡ Dict.member k d
unfolding contains Dict.get
contains-keys_of k [] = refl
contains-keys_of k ((j, v) ∷ d) = ground (arith, contains-keys_of k d)

keys_of-union_onto :
    (union : Dict String SearchResult) (sources : List SearchResult)
    → keys_of (union_onto union sources) ≡ from_keys (keys_of union) (map (λ s. s.provider) sources)
unfolding union_onto from_keys
keys_of-union_onto union [] = refl
keys_of-union_onto union (s ∷ sources) = elim (Option-cases (Dict.get s.provider union)) [
  | inl fresh ↦
      rw (fresh, from_keys, contains-keys_of s.provider union, fresh)
        (keys_of-union_onto (Dict.put s.provider s union) sources
          ∙ ap (λ keys. from_keys keys (map (λ t. t.provider) sources))
              (ap keys_of (put_absent s.provider s union fresh)
                ∙ keys_of-append union (s.provider, s)))
  | inr (other, present) ↦
      rw (present, from_keys, contains-keys_of s.provider union, present)
        (keys_of-union_onto union sources)
]

first_of : String → List SearchResult → Option SearchResult
first_of p [] = none
first_of p (s ∷ sources) = if s.provider == p then some s else first_of p sources

providers_or : Option GroupProjection → List String
providers_or none = []
providers_or (some p) = p.providers

providers_lem :
    (key_of : SearchResult → String) (key : String) (sources : List SearchResult)
    (p : GroupProjection)
    → projection key_of key sources ≡ some p
    → p.providers ≡ from_keys [] (map (λ s. s.provider) sources)
unfolding projection providers_or
providers_lem key_of key [] p h = absurd cc
providers_lem key_of key (first ∷ others) p h = sym (ap (λ o. providers_or o) h)

module _ (tools : TextTools) where
  checked_valid :
      (o : Option String) → checked_imdb (wire_rules tools) o ≡ valid_imdb tools.is_imdb_id o
  checked_valid none = refl
  checked_valid (some imdb) = refl

  least_preferred :
      (it : SearchResult)
      → least_key (
          map
            (item_group_key tools)
            (preferred (keep (λ t. is_some (year_of (wire_rules tools) t)) (it ∷ [])) (it ∷ [])))
        ≡ item_group_key tools it
  least_preferred it = elim (Bool-cases (is_some (year_of (wire_rules tools) it))) [
    | inl known ↦ rw known refl
    | inr unknown ↦ rw unknown refl
  ]

  group_key_of-single :
      (it : SearchResult) → group_key_of (wire_rules tools) (it ∷ []) ≡ item_group_key tools it
  unfolding group_key_of imdb_ids
  group_key_of-single it = elim (Option-cases (valid_imdb tools.is_imdb_id it.imdb_id)) [
    | inl h ↦ rw (group_key_of, imdb_ids, checked_valid it.imdb_id, h) (least_preferred it)
    | inr (imdb, h) ↦
        rw (group_key_of, imdb_ids, checked_valid it.imdb_id, h)
          (unfold item_group_key in rw h refl)
  ]

  -- The merge of one item alone is one group, whose key is the item's own.
  pub merge_results-single :
      (it : SearchResult)
      → merge_results (wire_rules tools) (it ∷ [])
        ≡ record { key = item_group_key tools it; sources = it ∷ [] } ∷ []
  unfolding merge_results bucket_by members_of Dict.put Dict.get
  merge_results-single it =
      rw (merge_buckets_lem (wire_rules tools) (it ∷ []), group_key_of-single it) refl

-- The providers of the projection are the keys of `provider_union`, in its order.
pub project_group-providers :
    (key_of : SearchResult → String) (mg : MergeGroup) (p : GroupProjection)
    → project_group key_of mg ≡ some p
    → p.providers ≡ keys_of (provider_union mg.sources)
unfolding provider_union project_group
project_group-providers key_of mg p h =
    providers_lem key_of mg.key mg.sources p h ∙ sym (keys_of-union_onto [] mg.sources)
