-- ===== src/Home/Members.antt =====
-- What a genre rail holds: groups whose profile has the genre, each once, and no more than the rail's limit.
use Prim.Native.Char.{Char}
use ps4_uk_stream.Prelude.{
  ◌≤◌, ℕ, zero, suc, String, ◌≡◌, refl, ◌∙◌, inl, inr, Bool, true, false, not, ◌&&◌, Option, List,
  [], ◌∷◌, arith, ltb, Bool-cases, ◌==◌, ==_iff, nat_eq, string_eq, length, take, All, length-take,
}
use ps4_uk_stream.Prelude.Dict
use ps4_uk_stream.Prelude.Dict.{Dict}
use ps4_uk_stream.Prelude.Membership.{contains, IsDistinct}
use ps4_uk_stream.Prelude.Sorting.{sorted}
use ps4_uk_stream.Models.{HomeItem, HomeRow}
use ps4_uk_stream.Home.Groups.{keys_of, IsKeyed, put-IsKeyed}
use ps4_uk_stream.Home.Rails.{
  Coverage, has_genre, item_or, index_items, members_of, rails, survey, build_genre_rows,
  coverage_le,
}

index_items-IsKeyed :
    (by_key : Dict String HomeItem) (items : List HomeItem)
    → IsKeyed by_key
    → IsKeyed (index_items by_key items)
unfolding index_items
index_items-IsKeyed by_key [] h = h
index_items-IsKeyed by_key (it ∷ items) h =
    index_items-IsKeyed (Dict.put it.group_key it by_key) items
      (put-IsKeyed it.group_key it by_key refl h)

item_or-key :
    (it : HomeItem) (by_key : Dict String HomeItem)
    → IsKeyed by_key
    → (item_or it (Dict.get it.group_key by_key)).group_key ≡ it.group_key
unfolding Dict.get
item_or-key it [] h = refl
item_or-key it ((j, e) ∷ d) h = elim (Bool-cases (j == it.group_key)) [
  | inl hit ↦ rw hit (h.0 ∙ (==_iff j it.group_key).0 hit)
  | inr miss ↦ rw miss (item_or-key it d h.1)
]

module _ (lower : String → String) (is_alnum : Char → Bool)
    (genres_of : String → Option (List String)) where
  -- The profile of the card's group has the genre, and the group is none of those seen.
  abbrev IsMember : String → List String → HomeItem → Type 0
  IsMember genre seen it =
      (has_genre genre (genres_of it.group_key) ≡ true) × (contains it.group_key seen ≡ false)

  -- A rail of the genre
  pub record IsRail (genre : String) (limit : ℕ) (items : List HomeItem) : Type 0 where
    pub capped : length items ≤ limit
    pub distinct : IsDistinct (keys_of items)
    pub carries : All (λ it. has_genre genre (genres_of it.group_key) ≡ true) items

  unseen :
      (genre k : String) (seen : List String) (items : List HomeItem)
      → All (IsMember genre (k ∷ seen)) items
      → (contains k (keys_of items) ≡ false) × All (IsMember genre seen) items
  unfolding contains
  unseen genre k seen [] h = (refl, tt)
  unseen genre k seen (it ∷ items) h =
      let rest = unseen genre k seen items h.1 in
      (
        ground (arith, rest.0, h.0.1, ==_iff it.group_key k, ==_iff k it.group_key),
        ((h.0.0, ground (arith, h.0.1)), rest.1),
      )

  carrying :
      (genre : String) (seen : List String) (items : List HomeItem)
      → All (IsMember genre seen) items
      → All (λ it. has_genre genre (genres_of it.group_key) ≡ true) items
  carrying genre seen [] h = tt
  carrying genre seen (it ∷ items) h = (h.0.0, carrying genre seen items h.1)

  -- The members so far unseen, of different groups, no more than the room
  record AreMembers (genre : String) (room : ℕ) (seen : List String) (items : List HomeItem)
      : Type 0 where
    fits : length items ≤ room
    distinct : IsDistinct (keys_of items)
    members : All (IsMember genre seen) items

  members_of-AreMembers :
      (genre : String) (by_key : Dict String HomeItem) (room : ℕ) (seen : List String)
      (items : List HomeItem)
      → IsKeyed by_key
      → AreMembers genre room seen
          (members_of lower is_alnum genres_of genre by_key room seen items)
  unfolding members_of
  members_of-AreMembers genre by_key room seen [] h = record {
    fits = omega arith;
    distinct = tt;
    members = tt;
  }
  members_of-AreMembers genre by_key zero seen (it ∷ items) h = record {
    fits = omega arith;
    distinct = tt;
    members = tt;
  }
  members_of-AreMembers genre by_key (suc room) seen (it ∷ items) h =
      let key = item_or-key it by_key h in
      elim (Bool-cases
        (has_genre genre (genres_of it.group_key) && not (contains it.group_key seen))) [
          | inl taken ↦
              let rest = members_of-AreMembers genre by_key room (it.group_key ∷ seen) items h in
              let apart = unseen genre it.group_key seen _ (rest.members) in
              rw taken (record {
                fits = omega (arith, rest.fits);
                distinct = (rw key (apart.0), rest.distinct);
                members = (rw key (ground (arith, taken)), apart.1);
              })
          | inr skipped ↦ rw skipped (members_of-AreMembers genre by_key (suc room) seen items h)
        ]

  abbrev pub IsGenreRow : ℕ → HomeRow → Type 0
  IsGenreRow limit row = (genre : String) × IsRail genre limit row.items

  rails-IsGenreRow :
      (home_items : List HomeItem) (labels : Dict String String) (min_items limit : ℕ)
      (top : Coverage)
      → All
          (IsGenreRow limit)
          (rails lower is_alnum genres_of home_items labels min_items limit top)
        × (length (rails lower is_alnum genres_of home_items labels min_items limit top)
            ≤ length top)
  unfolding rails
  rails-IsGenreRow home_items labels min_items limit [] = (tt, omega arith)
  rails-IsGenreRow home_items labels min_items limit ((genre, count) ∷ top) =
      let rest = rails-IsGenreRow home_items labels min_items limit top in
      elim (Bool-cases (ltb count min_items)) [
        | inl few ↦ rw few (rest.0, omega (arith, rest.1))
        | inr enough ↦
            let m =
              members_of-AreMembers genre (index_items [] home_items) limit [] home_items
                (index_items-IsKeyed [] home_items tt) in
            rw enough (
              (
                (
                  genre,
                  record {
                    capped = m.fits;
                    distinct = m.distinct;
                    carries = carrying genre [] _ (m.members);
                  },
                ),
                rest.0,
              ),
              omega (arith, rest.1),
            )
      ]

  -- There are at most `top_n` rails. Each holds at most `limit` cards, no group twice, and belongs to a
  -- genre that the profile of each of its groups has.
  pub build_genre_rows-IsGenreRow :
      (home_items : List HomeItem) (top_n min_items limit : ℕ)
      → All
          (IsGenreRow limit)
          (build_genre_rows lower is_alnum genres_of home_items top_n min_items limit)
        × (length (build_genre_rows lower is_alnum genres_of home_items top_n min_items limit)
            ≤ top_n)
  unfolding build_genre_rows
  build_genre_rows-IsGenreRow home_items top_n min_items limit =
      let surveyed = survey lower is_alnum genres_of home_items [] [] in
      let top = take top_n (sorted coverage_le surveyed.0) in
      let rows = rails-IsGenreRow home_items surveyed.1 min_items limit top in
      (rows.0, omega (arith, rows.1, length-take top_n (sorted coverage_le surveyed.0)))
