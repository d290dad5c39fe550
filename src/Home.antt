-- ===== src/Home.antt =====
-- backend/cs_uk_api/home.py: the rows of the home view from the listings of the providers. What a profile
-- store answers for a group is the genres of its profile; the case folding of genre labels is an argument.
pub mod Rows
pub mod RoundRobin
pub mod Groups
pub mod Caps
pub mod Rails
pub mod Members
use ps4_uk_stream.Prelude.{
  ◌*◌, ℕ, String, Option, none, some, List, [], ◌∷◌, ◌++◌, map, if◌then◌else◌, nat_eq, string_eq,
  take,
}
use ps4_uk_stream.Prelude.Dict
use ps4_uk_stream.Prelude.Dict.{Dict}
use ps4_uk_stream.Prelude.Membership.{contains}
use ps4_uk_stream.Models.{MediaForm, form_name, style_name, SearchResult, Section, HomeItem}
use ps4_uk_stream.Merge.{TitleRules, MergeGroup, merge_results, least_key}
use ps4_uk_stream.WireIdentity.{from_keys}
use ps4_uk_stream.Home.RoundRobin.{walk}

-- provider to its listing
abbrev pub Listings : Type 0
Listings = Dict String (List SearchResult)

-- `_WALK_BUDGET_MULTIPLIER`
abbrev pub walk_budget_multiplier : ℕ
walk_budget_multiplier = 4

abbrev pub values {ℓ} : {V : Type ℓ} → Dict String V → List V
values d = map (λ e. e.1) d

-- The card of a group; a group without sources, at which the code raises IndexError, gives none.
unfoldable pub cards_of : (SearchResult → String) → String → List SearchResult → List HomeItem
unfolding from_keys
cards_of key_of key [] = []
cards_of key_of key (sample ∷ others) =
    record {
      group_key = key;
      title = sample.title;
      year = sample.year;
      poster = sample.poster;
      form = sample.form;
      styles = sample.styles;
      genres = sample.genres;
      providers = from_keys [] (map (λ s. s.provider) (sample ∷ others));
      member_keys = from_keys [] (map key_of (sample ∷ others));
    }
    ∷ []

-- The loop over the groups
unfoldable pub project_groups : (SearchResult → String) → List MergeGroup → List HomeItem
unfolding cards_of
project_groups key_of [] = []
project_groups key_of (mg ∷ groups) =
    cards_of key_of mg.key mg.sources ++ project_groups key_of groups

unfoldable pub round_robin_dedup : TitleRules → Listings → ℕ → List HomeItem
unfolding walk merge_results project_groups
round_robin_dedup rules by_provider limit =
    let walk_budget = limit * walk_budget_multiplier in
    let collected = walk walk_budget walk_budget (values by_provider) in
    project_groups rules.item_group_key (take limit (merge_results rules collected))

-- `if pid not in existing.providers: existing.providers.append(pid)`
unfoldable pub add_providers : List String → List String → List String
add_providers providers [] = providers
add_providers providers (pid ∷ pids) =
    add_providers (if contains pid providers then providers else providers ++ pid ∷ []) pids

abbrev pub fold_item : HomeItem → Option HomeItem → HomeItem
fold_item it none = it
fold_item it (some existing) = record existing {
  providers = add_providers existing.providers it.providers;
}

-- The loop of `aggregate_by_group_key`; the keys of `by_key` stand in the order of `order`.
unfoldable pub aggregate_onto : Dict String HomeItem → List HomeItem → Dict String HomeItem
unfolding add_providers
aggregate_onto by_key [] = by_key
aggregate_onto by_key (it ∷ items) =
    aggregate_onto (Dict.put it.group_key (fold_item it (Dict.get it.group_key by_key)) by_key)
      items

unfoldable pub aggregate_by_group_key : List HomeItem → List HomeItem
unfolding aggregate_onto
aggregate_by_group_key items = values (aggregate_onto [] items)

-- `section_row_type`: `min(section.styles)`, if there is one
abbrev pub form_kind : Option MediaForm → Option String
form_kind none = none
form_kind (some form) = some (form_name form)

unfoldable pub section_row_type : Section → Option String
section_row_type section = elim section.styles [
  | none ↦ form_kind section.form
  | some styles ↦ elim styles [
    | [] ↦ form_kind section.form
    | s ∷ ss ↦ some (least_key (map style_name (s ∷ ss)))
  ]
]
