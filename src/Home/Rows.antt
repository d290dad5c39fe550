-- ===== src/Home/Rows.antt =====
-- backend/cs_uk_api/home.py: `build_home_rows`, row by row.
use ps4_uk_stream.Prelude.{
  ℕ, String, Bool, true, false, not, ◌&&◌, Option, none, some, List, [], ◌∷◌, ◌++◌, map, ltb, leb,
  if◌then◌else◌, nat_eq, string_eq, any, keep, take, length,
}
use ps4_uk_stream.Prelude.Dict
use ps4_uk_stream.Prelude.Dict.{Dict}
use ps4_uk_stream.Prelude.Membership.{contains}
use ps4_uk_stream.Models.{MediaForm, form_eqb, form_name, SearchResult, HomeItem, HomeRow}
use ps4_uk_stream.Merge.{TitleRules}
use ps4_uk_stream.RowKinds.{row_kinds, type_kinds, item_matches_row}
use ps4_uk_stream.Home.{Listings, values, round_robin_dedup, aggregate_by_group_key}

-- `{pid: [it for it in items if p(it)] for pid, items in listings.items()}`
abbrev pub filtered : (SearchResult → Bool) → Listings → Listings
filtered p listings = map (λ e. (e.0, keep p e.1)) listings

-- The kinds that are asked for stand in the table, so there is no KeyError.
abbrev pub matches_row : String → SearchResult → Bool
matches_row kind it = elim (item_matches_row kind it) [ none ↦ false | some b ↦ b ]

abbrev pub title_of : String → String
title_of kind = elim (Dict.get kind row_kinds) [ none ↦ "" | some entry ↦ entry.title ]

abbrev pub listings_of : Option Listings → Listings
listings_of none = []
listings_of (some listings) = listings

-- The loop that tops a recent row up
unfoldable pub topup_onto : ℕ → List String → List HomeItem → List HomeItem → List HomeItem
topup_onto limit existing items_row [] = items_row
topup_onto limit existing items_row (it ∷ topup) =
    let skipped = topup_onto limit existing items_row topup in
    let longer = items_row ++ it ∷ [] in
    let more = topup_onto limit (it.group_key ∷ existing) longer topup in
    if contains it.group_key existing
    then skipped
    else if leb limit (length longer)
    then longer
    else more

-- A row that is there only with items
abbrev pub row_if : List HomeItem → HomeRow → List HomeRow
row_if [] row = []
row_if (it ∷ items) row = row ∷ []

-- `any(listings.values())`
abbrev pub is_listed : List SearchResult → Bool
is_listed [] = false
is_listed (it ∷ items) = true

abbrev pub any_listed : Listings → Bool
any_listed listings = any (λ e. is_listed e.1) listings

module _ (rules : TitleRules) where
  open rules use {item_group_key}

  unfoldable pub recent_items : MediaForm → Listings → Dict String Listings → ℕ → List HomeItem
  unfolding round_robin_dedup topup_onto
  recent_items form newest by_type limit =
      let items_row =
        round_robin_dedup rules (filtered (λ it. form_eqb it.form form) newest) limit in
      let section_per_pid = listings_of (Dict.get (form_name form) by_type) in
      let topup =
        round_robin_dedup rules (filtered (matches_row (form_name form)) section_per_pid) limit in
      if ltb (length items_row) limit
      then topup_onto limit (map (λ it. it.group_key) items_row) items_row topup
      else items_row

  unfoldable pub recent_row :
      MediaForm → String → String → Listings → Dict String Listings → ℕ → List HomeRow
  unfolding recent_items aggregate_by_group_key
  recent_row form label kind newest by_type limit =
      let items_row = recent_items form newest by_type limit in
      row_if items_row
        (record { title = label; kind = kind; items = aggregate_by_group_key items_row })

  unfoldable pub new_episodes_row : Listings → Option (List String) → ℕ → List HomeRow
  unfolding round_robin_dedup aggregate_by_group_key
  new_episodes_row newest none limit = []
  new_episodes_row newest (some watched_series) limit =
      let watched_items =
        round_robin_dedup rules
          (filtered
            (λ it. form_eqb it.form MediaForm.series && contains (item_group_key it) watched_series)
            newest)
          limit in
      row_if watched_items (record {
        title = "Нові серії";
        kind = "new_episodes";
        items = aggregate_by_group_key watched_items;
      })

  -- `known.setdefault(item_group_key(cand), cand)` over one listing
  unfoldable pub know : Dict String SearchResult → List SearchResult → Dict String SearchResult
  know known [] = known
  know known (cand ∷ listing) = know (Dict.setdefault (item_group_key cand) cand known) listing

  unfoldable pub know_all :
      Dict String SearchResult → List (List SearchResult) → Dict String SearchResult
  unfolding know
  know_all known [] = known
  know_all known (listing ∷ listings) = know_all (know known listing) listings

  abbrev pub sections : Dict String Listings → List (List SearchResult)
  sections [] = []
  sections ((kind, per_pid) ∷ by_type) = values per_pid ++ sections by_type

  -- `[known[gk] for gk in history_groups if gk in known]`
  abbrev pub pick : Dict String SearchResult → List String → List SearchResult
  pick known [] = []
  pick known (gk ∷ gks) = elim (Dict.get gk known) [
    | none ↦ pick known gks
    | some it ↦ it ∷ pick known gks
  ]

  abbrev pub history_item : SearchResult → HomeItem
  history_item it = record {
    group_key = item_group_key it;
    title = it.title;
    year = it.year;
    poster = it.poster;
    form = it.form;
    styles = it.styles;
    genres = it.genres;
    providers = it.provider ∷ [];
    member_keys = item_group_key it ∷ [];
  }

  unfoldable pub recently_watched_row :
      Listings → Dict String Listings → Option (List String) → ℕ → List HomeRow
  unfolding know_all aggregate_by_group_key
  recently_watched_row newest by_type none limit = []
  recently_watched_row newest by_type (some history_groups) limit =
      let known = know_all [] (values newest ++ sections by_type) in
      let items = map history_item (take limit (pick known history_groups)) in
      row_if items (record {
        title = "Нещодавно переглянуто";
        kind = "recently_watched";
        items = aggregate_by_group_key items;
      })

  unfoldable pub popular_row : Listings → ℕ → List HomeRow
  unfolding round_robin_dedup aggregate_by_group_key row_kinds
  popular_row popular limit =
      let deduped = round_robin_dedup rules popular limit in
      if any_listed popular
      then record {
        title = title_of "popular";
        kind = "popular";
        items = aggregate_by_group_key deduped;
      }
        ∷ []
      else []

  unfoldable pub type_row : String → Dict String Listings → ℕ → List HomeRow
  unfolding round_robin_dedup aggregate_by_group_key row_kinds
  type_row kind by_type limit =
      let per_pid = listings_of (Dict.get kind by_type) in
      let deduped = round_robin_dedup rules (filtered (matches_row kind) per_pid) limit in
      if any_listed per_pid
      then row_if deduped
          (record { title = title_of kind; kind = kind; items = aggregate_by_group_key deduped })
      else []

  unfoldable pub type_rows : List String → Dict String Listings → ℕ → List HomeRow
  unfolding type_row
  type_rows [] by_type limit = []
  type_rows (kind ∷ kinds) by_type limit =
      type_row kind by_type limit ++ type_rows kinds by_type limit

  unfoldable pub build_home_rows :
      Listings
      → Listings
      → Dict String Listings
      → ℕ
      → Option (List String)
      → Option (List String)
      → List String
      → List HomeRow
  unfolding recent_row new_episodes_row recently_watched_row popular_row type_rows type_kinds
  build_home_rows newest popular by_type newest_limit watched_series history_groups excluded_kinds =
      keep (λ row. not (contains row.kind excluded_kinds))
        (recent_row MediaForm.movie "Нещодавно додані: Фільми" "recent_movie" newest by_type
            newest_limit
          ++ (recent_row MediaForm.series "Нещодавно додані: Серіали" "recent_series" newest by_type
                newest_limit
              ++ (new_episodes_row newest watched_series newest_limit
                  ++ (recently_watched_row newest by_type history_groups newest_limit
                      ++ (popular_row popular newest_limit
                          ++ type_rows type_kinds by_type newest_limit)))))
