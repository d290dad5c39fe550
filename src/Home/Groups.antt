-- ===== src/Home/Groups.antt =====
-- `aggregate_by_group_key`: one card for each group, with the providers of all its cards.
use ps4_uk_stream.Prelude.{
  ◌+◌, ◌≤◌, String, ◌≡◌, refl, sym, ap, ◌∙◌, inl, inr, Bool, false, ◌&&◌, ◌||◌, Option, none, some,
  List, [], ◌∷◌, ◌++◌, map, arith, Bool-cases, ◌==◌, ==_iff, nat_eq, string_eq, any, length, All,
  length-map,
}
use ps4_uk_stream.Prelude.Dict
use ps4_uk_stream.Prelude.Dict.{Dict, DistinctKeys, get-put, length-put, put-DistinctKeys}
use ps4_uk_stream.Prelude.Membership.{contains, IsDistinct}
use ps4_uk_stream.Models.{HomeItem}
use ps4_uk_stream.Home.{add_providers, fold_item, aggregate_onto, aggregate_by_group_key, values}

contains-append_one :
    (x y : String) (xs : List String) → contains x (xs ++ y ∷ []) ≡ (contains x xs || y == x)
unfolding contains
contains-append_one x y [] = ground arith
contains-append_one x y (z ∷ zs) = ground (arith, contains-append_one x y zs)

contains-add_providers :
    (x : String) (ps qs : List String)
    → contains x (add_providers ps qs) ≡ (contains x ps || contains x qs)
unfolding add_providers contains
contains-add_providers x ps [] = ground arith
contains-add_providers x ps (q ∷ qs) = elim (Bool-cases (contains q ps)) [
  | inl old ↦ rw old (ground (arith, contains-add_providers x ps qs, ==_iff q x))
  | inr new ↦
      rw new
        (ground (arith, contains-add_providers x (ps ++ q ∷ []) qs, contains-append_one x q ps))
]

-- A card of the group `k` names the provider.
abbrev pub offers : String → String → Option HomeItem → Bool
offers k pid none = false
offers k pid (some it) = contains pid it.providers

abbrev pub named_in : String → String → List HomeItem → Bool
named_in k pid items = any (λ it. it.group_key == k && contains pid it.providers) items

offers-fold_item :
    (k pid : String) (o : Option HomeItem) (c : HomeItem) (rest : List HomeItem)
    → (offers k pid (some (fold_item c o)) || named_in k pid rest)
      ≡ (offers k pid o || (contains pid c.providers || named_in k pid rest))
offers-fold_item k pid none c rest = refl
offers-fold_item k pid (some e) c rest =
    ground (arith, contains-add_providers pid e.providers c.providers)

offers-aggregate_onto :
    (k pid : String) (by_key : Dict String HomeItem) (items : List HomeItem)
    → offers k pid (Dict.get k (aggregate_onto by_key items))
      ≡ (offers k pid (Dict.get k by_key) || named_in k pid items)
unfolding aggregate_onto
offers-aggregate_onto k pid by_key [] = ground arith
offers-aggregate_onto k pid by_key (it ∷ items) =
    let put_it = fold_item it (Dict.get it.group_key by_key) in
    offers-aggregate_onto k pid (Dict.put it.group_key put_it by_key) items
    ∙ rw (get-put it.group_key k put_it by_key) (elim (Bool-cases (it.group_key == k)) [
      | inl hit ↦ rw hit (
          ap (λ j. offers k pid (some (fold_item it (Dict.get j by_key))) || named_in k pid items)
            ((==_iff it.group_key k).0 hit)
          ∙ offers-fold_item k pid (Dict.get k by_key) it items)
      | inr miss ↦ rw miss refl
    ])

-- Each entry stands under its own group key.
abbrev pub IsKeyed : Dict String HomeItem → Type 0
IsKeyed = All (λ e. e.1.group_key ≡ e.0)

fold_item-key :
    (it : HomeItem) (by_key : Dict String HomeItem)
    → IsKeyed by_key
    → (fold_item it (Dict.get it.group_key by_key)).group_key ≡ it.group_key
unfolding Dict.get
fold_item-key it [] h = refl
fold_item-key it ((j, e) ∷ d) h = elim (Bool-cases (j == it.group_key)) [
  | inl hit ↦ rw hit (h.0 ∙ (==_iff j it.group_key).0 hit)
  | inr miss ↦ rw miss (fold_item-key it d h.1)
]

pub put-IsKeyed :
    (k : String) (c : HomeItem) (d : Dict String HomeItem)
    → c.group_key ≡ k
    → IsKeyed d
    → IsKeyed (Dict.put k c d)
unfolding Dict.put
put-IsKeyed k c [] e h = (e, tt)
put-IsKeyed k c ((j, b) ∷ d) e h = elim (Bool-cases (j == k)) [
  | inl hit ↦ rw hit (e ∙ sym ((==_iff j k).0 hit), h.1)
  | inr miss ↦ rw miss (h.0, put-IsKeyed k c d e h.1)
]

aggregate_onto-IsKeyed :
    (d : Dict String HomeItem) (items : List HomeItem)
    → IsKeyed d
    → IsKeyed (aggregate_onto d items)
unfolding aggregate_onto
aggregate_onto-IsKeyed d [] h = h
aggregate_onto-IsKeyed d (it ∷ items) h =
    aggregate_onto-IsKeyed (Dict.put it.group_key (fold_item it (Dict.get it.group_key d)) d) items
      (put-IsKeyed it.group_key _ d (fold_item-key it d h) h)

aggregate_onto-DistinctKeys :
    (d : Dict String HomeItem) (items : List HomeItem)
    → DistinctKeys d
    → DistinctKeys (aggregate_onto d items)
unfolding aggregate_onto
aggregate_onto-DistinctKeys d [] h = h
aggregate_onto-DistinctKeys d (it ∷ items) h =
    aggregate_onto-DistinctKeys (Dict.put it.group_key (fold_item it (Dict.get it.group_key d)) d)
      items (put-DistinctKeys it.group_key _ d h)

length-aggregate_onto-le :
    (d : Dict String HomeItem) (items : List HomeItem)
    → length (aggregate_onto d items) ≤ length d + length items
unfolding aggregate_onto
length-aggregate_onto-le d [] = omega arith
length-aggregate_onto-le d (it ∷ items) = ground (
  arith,
  length-aggregate_onto-le (Dict.put it.group_key (fold_item it (Dict.get it.group_key d)) d) items,
  length-put it.group_key (fold_item it (Dict.get it.group_key d)) d,
)

abbrev pub keys_of : List HomeItem → List String
keys_of items = map (λ it. it.group_key) items

absent_key :
    (k : String) (d : Dict String HomeItem)
    → IsKeyed d
    → Dict.get k d ≡ none
    → contains k (keys_of (values d)) ≡ false
unfolding Dict.get contains
absent_key k [] h g = refl
absent_key k ((j, e) ∷ d) h g = elim (Bool-cases (j == k)) [
  | inl hit ↦ absurd (cc (rw hit at g))
  | inr miss ↦ rw (h.0, miss) (absent_key k d h.1 (rw miss at g))
]

values-IsDistinct :
    (d : Dict String HomeItem) → IsKeyed d → DistinctKeys d → IsDistinct (keys_of (values d))
values-IsDistinct [] h k = tt
values-IsDistinct ((j, e) ∷ d) h k =
    (rw (h.0) (absent_key j d h.1 k.0), values-IsDistinct d h.1 k.1)

-- The cards of the result have different group keys.
pub aggregate_by_group_key-IsDistinct :
    (items : List HomeItem) → IsDistinct (keys_of (aggregate_by_group_key items))
unfolding aggregate_by_group_key
aggregate_by_group_key-IsDistinct items =
    values-IsDistinct (aggregate_onto [] items) (aggregate_onto-IsKeyed [] items tt)
      (aggregate_onto-DistinctKeys [] items tt)

pub length-aggregate-le :
    (items : List HomeItem) → length (aggregate_by_group_key items) ≤ length items
unfolding aggregate_by_group_key
length-aggregate-le items =
    omega
      (arith, length-aggregate_onto-le [] items, length-map (aggregate_onto [] items) (λ e. e.1))

named-values :
    (k pid : String) (d : Dict String HomeItem)
    → IsKeyed d
    → DistinctKeys d
    → named_in k pid (values d) ≡ offers k pid (Dict.get k d)
unfolding Dict.get
named-values k pid [] h u = refl
named-values k pid ((j, e) ∷ d) h u = elim (Bool-cases (j == k)) [
  | inl hit ↦
      let gone : Dict.get k d ≡ none = rw ((==_iff j k).0 hit) at (u.0) in
      let others : named_in k pid (values d) ≡ false =
        named-values k pid d h.1 u.1 ∙ rw gone refl in
      rw (h.0, hit) (ground (arith, others))
  | inr miss ↦ rw (h.0, miss) (named-values k pid d h.1 u.1)
]

-- A provider stands on the card of a group exactly if some card of that group had it before.
pub named_in-aggregate_by_group_key :
    (k pid : String) (items : List HomeItem)
    → named_in k pid (aggregate_by_group_key items) ≡ named_in k pid items
unfolding aggregate_by_group_key
named_in-aggregate_by_group_key k pid items =
    named-values k pid (aggregate_onto [] items) (aggregate_onto-IsKeyed [] items tt)
      (aggregate_onto-DistinctKeys [] items tt)
    ∙ offers-aggregate_onto k pid [] items
    ∙ unfold Dict.get in refl
