-- ===== src/Home/Caps.antt =====
-- The rows that `build_home_rows` answers: how long they are, which groups they hold and which kinds.
use ps4_uk_stream.Prelude.{
  ◌+◌, ◌≤◌, ℕ, String, ◌≡◌, inl, inr, false, not, Option, none, some, List, [], ◌∷◌, ◌++◌, map,
  arith, ltb, leb, Bool-cases, nat_eq, string_eq, length, take, keep, All, length-map, length-take,
  length-append,
}
use ps4_uk_stream.Prelude.Dict
use ps4_uk_stream.Prelude.Dict.{Dict}
use ps4_uk_stream.Prelude.Membership.{contains, IsDistinct}
use ps4_uk_stream.Models.{MediaForm, form_eqb, SearchResult, HomeItem, HomeRow}
use ps4_uk_stream.Merge.{TitleRules, MergeGroup, merge_results}
use ps4_uk_stream.RowKinds.{type_kinds}
use ps4_uk_stream.Home.{
  Listings, cards_of, project_groups, round_robin_dedup, aggregate_by_group_key,
}
use ps4_uk_stream.Home.Rows.{
  filtered, listings_of, topup_onto, row_if, any_listed, recent_items, recent_row, new_episodes_row,
  recently_watched_row, popular_row, type_row, type_rows, build_home_rows, history_item, pick,
}
use ps4_uk_stream.Home.Groups.{keys_of, aggregate_by_group_key-IsDistinct, length-aggregate-le}

-- At most `limit` cards, of different groups
pub record IsRow (limit : ℕ) (row : HomeRow) : Type 0 where
  pub capped : length row.items ≤ limit
  pub distinct : IsDistinct (keys_of row.items)

-- A row that may be shown: its kind is not hidden.
pub record IsShown (limit : ℕ) (excluded_kinds : List String) (row : HomeRow) : Type 0 where
  pub is_row : IsRow limit row
  pub allowed : contains row.kind excluded_kinds ≡ false

length-cards_of-le :
    (key_of : SearchResult → String) (key : String) (sources : List SearchResult)
    → length (cards_of key_of key sources) ≤ 1
unfolding cards_of
length-cards_of-le key_of key [] = omega arith
length-cards_of-le key_of key (s ∷ ss) = omega arith

length-project_groups-le :
    (key_of : SearchResult → String) (groups : List MergeGroup)
    → length (project_groups key_of groups) ≤ length groups
unfolding project_groups
length-project_groups-le key_of [] = omega arith
length-project_groups-le key_of (mg ∷ groups) = omega (
  arith,
  length-append (cards_of key_of mg.key mg.sources) (project_groups key_of groups),
  length-cards_of-le key_of mg.key mg.sources,
  length-project_groups-le key_of groups,
)

pub length-round_robin_dedup-le :
    (rules : TitleRules) (by_provider : Listings) (limit : ℕ)
    → length (round_robin_dedup rules by_provider limit) ≤ limit
unfolding round_robin_dedup
length-round_robin_dedup-le rules by_provider limit = omega (
  arith,
  length-project_groups-le rules.item_group_key (take limit (merge_results rules _)),
  length-take limit (merge_results rules _),
)

length-topup_onto-le :
    (limit : ℕ) (existing : List String) (items_row topup : List HomeItem)
    → length items_row + 1 ≤ limit
    → length (topup_onto limit existing items_row topup) ≤ limit
unfolding topup_onto
length-topup_onto-le limit existing items_row [] h = omega arith
length-topup_onto-le limit existing items_row (it ∷ topup) h =
    let longer = items_row ++ it ∷ [] in
    let one_more : length longer ≡ length items_row + 1 =
      omega (arith, length-append items_row (it ∷ [])) in
    elim (Bool-cases (contains it.group_key existing)) [
      | inl old ↦ rw old (length-topup_onto-le limit existing items_row topup h)
      | inr new ↦ rw new (elim (Bool-cases (leb limit (length longer))) [
        | inl full ↦ rw full (omega arith)
        | inr room ↦
            let fits : length longer + 1 ≤ limit = ground arith in
            rw room (length-topup_onto-le limit (it.group_key ∷ existing) longer topup fits)
      ])
    ]

aggregated-IsRow :
    (limit : ℕ) (title kind : String) (items : List HomeItem)
    → length items ≤ limit
    → IsRow limit (record { title = title; kind = kind; items = aggregate_by_group_key items })
aggregated-IsRow limit title kind items h = record {
  capped = omega (arith, length-aggregate-le items);
  distinct = aggregate_by_group_key-IsDistinct items;
}

row_if-IsRow :
    (limit : ℕ) (title kind : String) (items : List HomeItem)
    → length items ≤ limit
    → All
        (IsRow limit)
        (row_if items (record { title = title; kind = kind; items = aggregate_by_group_key items }))
row_if-IsRow limit title kind [] h = tt
row_if-IsRow limit title kind (it ∷ items) h =
    (aggregated-IsRow limit title kind (it ∷ items) h, tt)

All-append {ℓ κ} :
    {A : Type ℓ} (P : A → Type κ) (xs ys : List A) → All P xs → All P ys → All P (xs ++ ys)
All-append P [] ys h k = k
All-append P (x ∷ xs) ys h k = (h.0, All-append P xs ys h.1 k)

module _ (rules : TitleRules) (limit : ℕ) where
  length-recent_items-le :
      (form : MediaForm) (newest : Listings) (by_type : Dict String Listings)
      → length (recent_items rules form newest by_type limit) ≤ limit
  unfolding recent_items
  length-recent_items-le form newest by_type =
      let newest_of = filtered (λ it. form_eqb it.form form) newest in
      let items_row = round_robin_dedup rules newest_of limit in
      let base = length-round_robin_dedup-le rules newest_of limit in
      elim (Bool-cases (ltb (length items_row) limit)) [
        | inl short ↦ rw short (length-topup_onto-le limit _ items_row _ (ground arith))
        | inr full ↦ rw full base
      ]

  recent_row-IsRow :
      (form : MediaForm) (label kind : String) (newest : Listings) (by_type : Dict String Listings)
      → All (IsRow limit) (recent_row rules form label kind newest by_type limit)
  unfolding recent_row
  recent_row-IsRow form label kind newest by_type =
      row_if-IsRow limit label kind (recent_items rules form newest by_type limit)
        (length-recent_items-le form newest by_type)

  new_episodes_row-IsRow :
      (newest : Listings) (watched_series : Option (List String))
      → All (IsRow limit) (new_episodes_row rules newest watched_series limit)
  unfolding new_episodes_row
  new_episodes_row-IsRow newest none = tt
  new_episodes_row-IsRow newest (some watched_series) =
      row_if-IsRow limit _ _ (round_robin_dedup rules _ limit)
        (length-round_robin_dedup-le rules _ limit)

  recently_watched_row-IsRow :
      (newest : Listings) (by_type : Dict String Listings) (history : Option (List String))
      → All (IsRow limit) (recently_watched_row rules newest by_type history limit)
  unfolding recently_watched_row
  recently_watched_row-IsRow newest by_type none = tt
  recently_watched_row-IsRow newest by_type (some history_groups) =
      row_if-IsRow limit _ _ (map (history_item rules) (take limit (pick rules _ history_groups))) (
        omega (
          arith,
          length-map (take limit (pick rules _ history_groups)) (history_item rules),
          length-take limit (pick rules _ history_groups),
        ))

  popular_row-IsRow : (popular : Listings) → All (IsRow limit) (popular_row rules popular limit)
  unfolding popular_row
  popular_row-IsRow popular = elim (Bool-cases (any_listed popular)) [
    | inl there ↦ rw there (
      aggregated-IsRow limit _ _ (round_robin_dedup rules popular limit)
          (length-round_robin_dedup-le rules popular limit),
      tt,
    )
    | inr dry ↦ rw dry tt
  ]

  type_row-IsRow :
      (kind : String) (by_type : Dict String Listings)
      → All (IsRow limit) (type_row rules kind by_type limit)
  unfolding type_row
  type_row-IsRow kind by_type =
      elim (Bool-cases (any_listed (listings_of (Dict.get kind by_type)))) [
        | inl there ↦ rw there (
            row_if-IsRow limit _ kind (round_robin_dedup rules _ limit)
              (length-round_robin_dedup-le rules _ limit))
        | inr dry ↦ rw dry tt
      ]

  type_rows-IsRow :
      (kinds : List String) (by_type : Dict String Listings)
      → All (IsRow limit) (type_rows rules kinds by_type limit)
  unfolding type_rows
  type_rows-IsRow [] by_type = tt
  type_rows-IsRow (kind ∷ kinds) by_type =
      All-append (IsRow limit) (type_row rules kind by_type limit) _ (type_row-IsRow kind by_type)
        (type_rows-IsRow kinds by_type)

  keep-IsShown :
      (excluded : List String) (rows : List HomeRow)
      → All (IsRow limit) rows
      → All (IsShown limit excluded) (keep (λ row. not (contains row.kind excluded)) rows)
  keep-IsShown excluded [] h = tt
  keep-IsShown excluded (row ∷ rows) h = elim (Bool-cases (contains row.kind excluded)) [
    | inl hidden ↦ rw hidden (keep-IsShown excluded rows h.1)
    | inr shown ↦
        rw shown (record { is_row = h.0; allowed = shown }, keep-IsShown excluded rows h.1)
  ]

-- Whatever the providers list and the viewer has watched: each row of the home view has at most
-- `newest_limit` cards, no group twice, and none of the hidden kinds.
pub build_home_rows-IsShown :
    (rules : TitleRules) (newest popular : Listings) (by_type : Dict String Listings)
    (newest_limit : ℕ) (watched_series history_groups : Option (List String))
    (excluded_kinds : List String)
    → All (IsShown newest_limit excluded_kinds) (
        build_home_rows rules newest popular by_type newest_limit watched_series history_groups
          excluded_kinds)
unfolding build_home_rows
build_home_rows-IsShown rules newest popular by_type limit watched_series history_groups excluded =
    let P = IsRow limit in
    keep-IsShown rules limit excluded _ (
      All-append P (recent_row rules MediaForm.movie _ _ newest by_type limit) _
        (recent_row-IsRow rules limit MediaForm.movie _ _ newest by_type)
        (All-append P (recent_row rules MediaForm.series _ _ newest by_type limit) _
          (recent_row-IsRow rules limit MediaForm.series _ _ newest by_type)
          (All-append P (new_episodes_row rules newest watched_series limit) _
            (new_episodes_row-IsRow rules limit newest watched_series)
            (All-append P (recently_watched_row rules newest by_type history_groups limit) _
              (recently_watched_row-IsRow rules limit newest by_type history_groups)
              (All-append P (popular_row rules popular limit) _
                (popular_row-IsRow rules limit popular)
                (type_rows-IsRow rules limit type_kinds by_type))))))
