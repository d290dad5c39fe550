-- ===== src/Merge/Sources.antt =====
-- The sources of the groups: `items[m]` is in range, and no item is lost or listed twice.
use ps4_uk_stream.Prelude.{
  ℕ, zero, suc, ◌+◌, ◌≤◌, ◌<◌, ◌≡◌, refl, ◌∙◌, inl, inr, List, [], ◌∷◌, ◌++◌, arith, Bool-cases,
  ◌==◌, nat_eq, string_eq, length, take, drop, All, length-append, length-take, length-drop,
}
use ps4_uk_stream.Prelude.Dict
use ps4_uk_stream.Prelude.Dict.{Dict}
use ps4_uk_stream.Models.{SearchResult}
use ps4_uk_stream.Merge.{
  TitleRules, MergeGroup, add_to, indices, merge_buckets, members_of, groups_of, merge_results,
}
use ps4_uk_stream.Merge.Buckets.{bucket_by, total, class_of, merge_buckets_lem, merge_buckets-total}

abbrev AllBelow : ℕ → List ℕ → Type 0
AllBelow n = All (λ m. m < n)

abbrev InRange : ℕ → Dict ℕ (List ℕ) → Type 0
InRange n = All (λ e. AllBelow n e.1)

AllBelow-append : (n : ℕ) (xs : List ℕ) (i : ℕ) → AllBelow n xs → i < n → AllBelow n (xs ++ i ∷ [])
AllBelow-append n [] i a h = (h, tt)
AllBelow-append n (x ∷ xs) i a h = (a.0, AllBelow-append n xs i a.1 h)

InRange-put :
    (n k : ℕ) (members : List ℕ) (buckets : Dict ℕ (List ℕ))
    → AllBelow n members
    → InRange n buckets
    → InRange n (Dict.put k members buckets)
unfolding Dict.put
InRange-put n k members [] a r = (a, tt)
InRange-put n k members ((j, others) ∷ buckets) a r = elim (Bool-cases (j == k)) [
  | inl hit ↦ rw hit (a, r.1)
  | inr miss ↦ rw miss (r.0, InRange-put n k members buckets a r.1)
]

-- `buckets.setdefault(root, []).append(i)` keeps every member in range.
add_to_below :
    (n k i : ℕ) (buckets : Dict ℕ (List ℕ))
    → i < n
    → InRange n buckets
    → AllBelow n (add_to (Dict.get k buckets) i)
unfolding Dict.get
add_to_below n k i [] h r = (h, tt)
add_to_below n k i ((j, others) ∷ buckets) h r = elim (Bool-cases (j == k)) [
  | inl hit ↦ rw hit (AllBelow-append n others i r.0 h)
  | inr miss ↦ rw miss (add_to_below n k i buckets h r.1)
]

InRange-bucket_by :
    (n : ℕ) (rep : ℕ → ℕ) (is : List ℕ) (buckets : Dict ℕ (List ℕ))
    → AllBelow n is
    → InRange n buckets
    → InRange n (bucket_by rep is buckets)
unfolding bucket_by
InRange-bucket_by n rep [] buckets a r = r
InRange-bucket_by n rep (i ∷ is) buckets a r =
    InRange-bucket_by n rep is _ a.1
      (InRange-put n (rep i) _ buckets (add_to_below n (rep i) i buckets a.0 r) r)

indices_below : (n i k : ℕ) → i + k ≤ n → AllBelow n (indices i k)
indices_below n i zero h = tt
indices_below n i (suc k) h = (omega arith, indices_below n (suc i) k (omega arith))

length-members_of :
    (items : List SearchResult) (ms : List ℕ)
    → AllBelow (length items) ms
    → length (members_of items ms) ≡ length ms
unfolding members_of
length-members_of items [] a = refl
length-members_of items (m ∷ ms) a = omega (
  arith,
  a.0,
  length-append (take 1 (drop m items)) (members_of items ms),
  length-take 1 (drop m items),
  length-drop m items,
  length-members_of items ms a.1,
)

abbrev pub source_count : List MergeGroup → ℕ
source_count [] = 0
source_count (group ∷ groups) = length group.sources + source_count groups

module _ (rules : TitleRules) (items : List SearchResult) where
  groups_of_count :
      (buckets : Dict ℕ (List ℕ))
      → InRange (length items) buckets
      → source_count (groups_of rules items buckets) ≡ total buckets
  groups_of_count [] r = refl
  groups_of_count ((root, members) ∷ buckets) r =
      omega (arith, length-members_of items members r.0, groups_of_count buckets r.1)

  -- The groups together have as many sources as there are items.
  pub merge_results-source_count : source_count (merge_results rules items) ≡ length items
  unfolding merge_results
  merge_results-source_count =
      groups_of_count (merge_buckets rules items) (
        rw (merge_buckets_lem rules items) (
          InRange-bucket_by (length items) (class_of rules items) (indices 0 (length items)) []
            (indices_below (length items) 0 (length items) (omega arith)) tt))
      ∙ merge_buckets-total rules items
