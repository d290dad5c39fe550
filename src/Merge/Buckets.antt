-- ===== src/Merge/Buckets.antt =====
-- The buckets of `merge_results`: each is one class, and together they hold each index once.
use ps4_uk_stream.Prelude.{
  ℕ, zero, suc, ◌+◌, ◌≤◌, ◌<◌, ◌≡◌, refl, sym, ap, ◌∙◌, ◌↔◌, inl, inr, Bool, true, ◌&&◌, Option,
  none, some, List, [], ◌∷◌, ◌++◌, arith, ltb, leb, Bool-cases, ◌==◌, nat_eq, string_eq, ==_refl,
  ==_iff, length, keep, length-append,
}
use ps4_uk_stream.Prelude.Dict
use ps4_uk_stream.Prelude.Dict.{Dict, get-put}
use ps4_uk_stream.Prelude.Membership.{contains}
use ps4_uk_stream.Merge.{
  SearchResult, TitleRules, Parents, add_to, or_empty, fill_buckets, indices, union_calls,
  merge_buckets,
}
use ps4_uk_stream.Merge.Classes.{labels, Connected, labels-Connected}
use ps4_uk_stream.Merge.Forest.{Forest, find-Forest, unions-Forest, identity-Forest}

-- The buckets of a labelling
unfoldable pub bucket_by : (ℕ → ℕ) → List ℕ → Dict ℕ (List ℕ) → Dict ℕ (List ℕ)
bucket_by rep [] buckets = buckets
bucket_by rep (i ∷ is) buckets =
    bucket_by rep is (Dict.put (rep i) (add_to (Dict.get (rep i) buckets) i) buckets)

pub fill_buckets-bucket_by :
    (fuel : ℕ) (is : List ℕ) {parent : Parents} {rep height : ℕ → ℕ} {bound : ℕ}
    (buckets : Dict ℕ (List ℕ))
    → Forest parent rep height bound
    → bound ≤ fuel
    → fill_buckets fuel is parent buckets ≡ bucket_by rep is buckets
unfolding fill_buckets bucket_by
fill_buckets-bucket_by fuel [] buckets f h = refl
fill_buckets-bucket_by fuel (i ∷ is) buckets f h =
    let (f', e) = find-Forest fuel i f (omega (arith, f.height_le i)) in
    rw e (fill_buckets-bucket_by fuel is _ f' h)

or_empty-add_to :
    (o : Option (List ℕ)) (i : ℕ) → or_empty (some (add_to o i)) ≡ or_empty o ++ i ∷ []
or_empty-add_to none i = refl
or_empty-add_to (some is) i = refl

append_one : (xs : List ℕ) (i : ℕ) (ys : List ℕ) → (xs ++ i ∷ []) ++ ys ≡ xs ++ i ∷ ys
append_one [] i ys = refl
append_one (x ∷ xs) i ys = ap (◌∷◌ x) (append_one xs i ys)

append_nil : (xs : List ℕ) → xs ++ [] ≡ xs
append_nil [] = refl
append_nil (x ∷ xs) = ap (◌∷◌ x) (append_nil xs)

get-bucket_by :
    (rep : ℕ → ℕ) (k : ℕ) (is : List ℕ) (buckets : Dict ℕ (List ℕ))
    → or_empty (Dict.get k (bucket_by rep is buckets))
      ≡ or_empty (Dict.get k buckets) ++ keep (λ j. rep j == k) is
unfolding bucket_by
get-bucket_by rep k [] buckets = sym (append_nil _)
get-bucket_by rep k (i ∷ is) buckets = elim (Bool-cases (rep i == k)) [
  | inl hit ↦
      let e : rep i ≡ k = (==_iff (rep i) k).0 hit in
      get-bucket_by rep k is _
      ∙ rw (get-put, hit, e, or_empty-add_to)
          (append_one (or_empty (Dict.get k buckets)) i (keep (λ j. rep j == k) is))
  | inr miss ↦ get-bucket_by rep k is _ ∙ rw (get-put, miss) refl
]

contains-keep :
    (p : ℕ → Bool) (j : ℕ) (is : List ℕ) → contains j (keep p is) ≡ (contains j is && p j)
unfolding contains
contains-keep p j [] = refl
contains-keep p j (i ∷ is) = ground (arith, ==_iff i j, contains-keep p j is)

contains-indices : (j i n : ℕ) → contains j (indices i n) ≡ (leb i j && ltb j (i + n))
unfolding contains
contains-indices j i zero = ground arith
contains-indices j i (suc n) = ground (arith, ==_iff i j, contains-indices j (suc i) n)

abbrev pub total : Dict ℕ (List ℕ) → ℕ
total [] = 0
total ((root, members) ∷ buckets) = length members + total buckets

total-put :
    (k : ℕ) (members : List ℕ) (buckets : Dict ℕ (List ℕ))
    → total (Dict.put k members buckets) + length (or_empty (Dict.get k buckets))
      ≡ total buckets + length members
unfolding Dict.put Dict.get
total-put k members [] = omega arith
total-put k members ((j, others) ∷ buckets) = ground (arith, total-put k members buckets)

length-add_to : (o : Option (List ℕ)) (i : ℕ) → length (add_to o i) ≡ length (or_empty o) + 1
length-add_to none i = refl
length-add_to (some is) i = omega (arith, length-append is (i ∷ []))

total-bucket_by :
    (rep : ℕ → ℕ) (is : List ℕ) (buckets : Dict ℕ (List ℕ))
    → total (bucket_by rep is buckets) ≡ total buckets + length is
unfolding bucket_by
total-bucket_by rep [] buckets = omega arith
total-bucket_by rep (i ∷ is) buckets =
    let found = Dict.get (rep i) buckets in
    omega (
      arith,
      total-bucket_by rep is (Dict.put (rep i) (add_to found i) buckets),
      total-put (rep i) (add_to found i) buckets,
      length-add_to found i,
    )

length-indices : (i n : ℕ) → length (indices i n) ≡ n
length-indices i zero = refl
length-indices i (suc n) = omega (arith, length-indices (suc i) n)

some_of :
    (o : Option (List ℕ)) (i : ℕ) (members : List ℕ)
    → or_empty o ≡ members
    → contains i members ≡ true
    → o ≡ some members
unfolding contains
some_of none i members e h = absurd (ground arith)
some_of (some is) i members e h = ap some e

-- Some bucket has as members exactly the indices below `n` that are related to `i`.
abbrev pub HoldsClass : (ℕ → ℕ → Type 0) → ℕ → Dict ℕ (List ℕ) → ℕ → Type 0
HoldsClass R n buckets i =
    (root : ℕ) × (members : List ℕ) × (Dict.get root buckets ≡ some members)
    × ((j : ℕ) → (contains j members ≡ true) ↔ ((j < n) × R i j))

module _ (rules : TitleRules) (items : List SearchResult) where
  abbrev pub class_of : ℕ → ℕ
  class_of = labels (union_calls rules items) (λ i. i)

  same_class : (i j : ℕ) → (class_of i ≡ class_of j) ↔ Connected (union_calls rules items) i j
  same_class i j = labels-Connected (union_calls rules items) i j

  pub merge_buckets_lem :
      merge_buckets rules items ≡ bucket_by class_of (indices 0 (length items)) []
  unfolding merge_buckets
  merge_buckets_lem =
      let calls = union_calls rules items in
      fill_buckets-bucket_by (length calls) (indices 0 (length items)) []
        (unions-Forest (length calls) calls 0 identity-Forest (omega arith)) (omega arith)

  -- The index of each item stands in one bucket, whose members are the indices of the items that
  -- the calls of `union` connect with it.
  pub merge_buckets-Connected :
      (i : ℕ)
      → i < length items
      → HoldsClass
          (Connected (union_calls rules items))
          (length items)
          (merge_buckets rules items)
          i
  unfolding Dict.get
  merge_buckets-Connected i h =
      let members = keep (λ j. class_of j == class_of i) (indices 0 (length items)) in
      let held : (j : ℕ) → contains j members ≡ (ltb j (length items) && class_of j == class_of i) =
        λ j.
          contains-keep (λ k. class_of k == class_of i) j (indices 0 (length items))
          ∙ ap (λ b. b && class_of j == class_of i)
              (contains-indices j 0 (length items) ∙ ground arith) in
      (
        class_of i,
        members,
        rw merge_buckets_lem (
            some_of _ i members (get-bucket_by class_of (class_of i) (indices 0 (length items)) [])
              (ground (arith, held i, ==_refl (class_of i)))),
        λ j. (
          λ c. (
            ground (arith, held j),
            (same_class i j).0 (ground (arith, held j, ==_iff (class_of j) (class_of i))),
          ),
          λ (lt, joined).
              ground (arith, held j, (same_class i j).1 joined, ==_iff (class_of j) (class_of i)),
        ),
      )

  pub merge_buckets-total : total (merge_buckets rules items) ≡ length items
  merge_buckets-total = rw merge_buckets_lem (
      omega (
        arith,
        total-bucket_by class_of (indices 0 (length items)) [],
        length-indices 0 (length items),
      ))
