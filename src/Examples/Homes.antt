-- ===== src/Examples/Homes.antt =====
-- backend/cs_uk_api/home.py and _catalog_state/search.py at concrete inputs.
use Prim.Native.Char.{Char}
use ps4_uk_stream.Prelude.{
  ◌≤◌, ◌↔◌, ◌≡◌, refl, sym, ap, ◌∙◌, inl, inr, Bool-cases, ℕ, String, Bool, true, false, Option,
  none, some, List, [], ◌∷◌, arith, any, All, take, length, ◌==◌, if◌then◌else◌, nat_eq, string_eq,
  ==_iff,
}
use ps4_uk_stream.Prelude.Dict
use ps4_uk_stream.Prelude.Dict.{Dict}
use ps4_uk_stream.Prelude.Membership.{contains}
use ps4_uk_stream.Models.{MediaForm, SearchResult, HomeItem}
use ps4_uk_stream.Merge.{merge_results, TitleRules}
use ps4_uk_stream.Health.{HealthTracker}
use ps4_uk_stream.Home.{aggregate_by_group_key, Listings}
use ps4_uk_stream.Home.Rows.{build_home_rows}
use ps4_uk_stream.Home.RoundRobin.{walk, across, walk-across}
use ps4_uk_stream.Home.Groups.{named_in, named_in-aggregate_by_group_key}
use ps4_uk_stream.Home.Caps.{IsShown, build_home_rows-IsShown}
use ps4_uk_stream.Home.Rails.{build_genre_rows}
use ps4_uk_stream.Home.Members.{IsGenreRow, build_genre_rows-IsGenreRow}
use ps4_uk_stream.MergedSearch.{
  SearchState, FanOut, emit_failures, emit_results, sweep, collect_pending, collect_done, Provider,
  Ended, SearchResponse, respond,
}
use ps4_uk_stream.MergedSearch.Order.{Same}
use ps4_uk_stream.MergedSearch.Search.{merged_search}
use ps4_uk_stream.MergedSearch.Repeats.{IsRepeated, held, key_of_search, merged_search-IsRepeated}
use ps4_uk_stream.Prelude.Integers.{pos}
use ps4_uk_stream.Cache
use ps4_uk_stream.MergedSearch.Answers.{
  expected_failures, response_to, respond-order, respond-failures, respond-none_iff,
}

abbrev listed : String → String → SearchResult
listed provider title = record {
  id = title;
  provider = provider;
  form = MediaForm.movie;
  title = title;
  year = none;
  poster = none;
  url = "u";
  styles = [];
  genres = [];
  imdb_id = none;
}

abbrev rules : TitleRules
rules = record {
  title_aliases = λ t. t ∷ [];
  effective_year = λ t y. y;
  is_imdb_id = λ i. false;
  item_group_key = λ it. it.title;
  group_key_from_imdb = λ i. i;
}

abbrev columns : List (List ℕ)
columns = (1 ∷ 2 ∷ 3 ∷ []) ∷ [] ∷ (4 ∷ []) ∷ (5 ∷ 6 ∷ []) ∷ []

-- Room for five of six items, in listings of different lengths
walk-across_example : walk 5 5 columns ≡ take 5 (across 3 columns)
walk-across_example = walk-across 3 5 5 columns (omega arith) (omega arith)

abbrev newest : Listings
newest =
    ("uakino", listed "uakino" "Дюна" ∷ listed "uakino" "Чужий" ∷ [])
    ∷ ("animeon", listed "animeon" "Дюна" ∷ [])
    ∷ []

build_home_rows-IsShown_example : All (IsShown 2 ("popular" ∷ [])) (
    build_home_rows rules newest newest
      (("movie", newest) ∷ [])
      2
      (some [])
      (some ("Дюна" ∷ []))
      ("popular" ∷ []))
build_home_rows-IsShown_example =
    build_home_rows-IsShown rules newest newest (("movie", newest) ∷ []) 2 (some [])
      (some ("Дюна" ∷ [])) ("popular" ∷ [])

abbrev shown : String → String → HomeItem
shown group_key provider = record {
  group_key = group_key;
  title = group_key;
  year = none;
  poster = none;
  form = MediaForm.movie;
  styles = [];
  genres = "Драми" ∷ [];
  providers = provider ∷ [];
  member_keys = [];
}

abbrev shown_items : List HomeItem
shown_items = shown "a" "uakino" ∷ shown "b" "uakino" ∷ shown "a" "animeon" ∷ []

named_in-aggregate_by_group_key_example :
    named_in "a" "animeon" (aggregate_by_group_key shown_items) ≡ named_in "a" "animeon" shown_items
named_in-aggregate_by_group_key_example = named_in-aggregate_by_group_key "a" "animeon" shown_items

abbrev genres_of : String → Option (List String)
genres_of group_key = if group_key == "b" then none else some ("драми" ∷ [])

abbrev no_dash : Char → Bool
no_dash c = true

build_genre_rows-IsGenreRow_example :
    All
      (IsGenreRow (λ s. s) no_dash genres_of 20)
      (build_genre_rows (λ s. s) no_dash genres_of shown_items 6 1 20)
    × (length (build_genre_rows (λ s. s) no_dash genres_of shown_items 6 1 20) ≤ 6)
build_genre_rows-IsGenreRow_example =
    build_genre_rows-IsGenreRow (λ s. s) no_dash genres_of shown_items 6 1 20

abbrev registry : List Provider
registry =
    record { id = "uakino"; can_gate = false }
    ∷ record { id = "animeon"; can_gate = true }
    ∷ record { id = "eneyida"; can_gate = false }
    ∷ []

abbrev gate : String → List SearchResult → Option (List SearchResult)
gate pid items = some (take 1 items)

abbrev tracker : HealthTracker
tracker = record {
  window = 20;
  min_samples = 3;
  degraded_at = 800;
  down_at = 200;
  samples = [];
  errors = [];
  markers = [];
}

abbrev ended : List (String × Ended)
ended =
    ("animeon", Ended.found (listed "animeon" "Дюна" ∷ listed "animeon" "Чужий" ∷ []))
    ∷ ("uakino", Ended.unreachable)
    ∷ []

abbrev ended_later : List (String × Ended)
ended_later =
    ("uakino", Ended.unreachable)
    ∷ ("animeon", Ended.found (listed "animeon" "Дюна" ∷ listed "animeon" "Чужий" ∷ []))
    ∷ []

ended-Same : Same ended ended_later
unfolding Dict.get
ended-Same p = elim (Bool-cases ("animeon" == p)) [
  | inl first ↦ elim (Bool-cases ("uakino" == p)) [
    | inl second ↦
        let same = (==_iff "animeon" p).0 first ∙ sym ((==_iff "uakino" p).0 second) in
        absurd (cc (ap (λ s. s == "uakino") same))
    | inr other ↦ rw (first, other) refl
  ]
  | inr other ↦ rw other refl
]

respond-order_example :
    response_to rules registry gate "дюна" none none 5 tracker ended ("eneyida" ∷ [])
    ≡ response_to rules registry gate "дюна" none none 5 tracker ended_later ("eneyida" ∷ [])
unfolding Dict.get
respond-order_example =
    respond-order rules registry gate "дюна" none none 5 tracker ended ended_later ("eneyida" ∷ [])
      ("eneyida" ∷ []) (refl, (refl, tt)) (refl, (refl, tt)) ended-Same (λ p. refl)

abbrev one_ended : List (String × Ended)
one_ended = ("animeon", Ended.unreachable) ∷ []

abbrev two_failures : SearchResponse
two_failures = record {
  query = "дюна";
  groups = [];
  failures =
      record { provider = "animeon"; code = "upstream_unreachable" }
      ∷ record { provider = "eneyida"; code = "timeout" }
      ∷ [];
}

respond-failures_example :
    two_failures.failures ≡ expected_failures one_ended ("eneyida" ∷ []) registry
unfolding Dict.get respond collect_done collect_pending sweep emit_results emit_failures
    merge_results ps4_uk_stream.Merge.fill_buckets Dict.put
respond-failures_example =
    respond-failures rules registry gate "дюна" none none 5 tracker one_ended ("eneyida" ∷ [])
      two_failures (refl, tt) refl

respond-none_iff_example :
    (response_to rules registry gate "дюна" none none 5 tracker [] ("uakino" ∷ []) ≡ none) ↔ (
      (◌≡◌ {A = List (String × Ended)} [] [])
      × (any (λ prov. contains prov.id ("uakino" ∷ [])) registry ≡ true))
respond-none_iff_example =
    respond-none_iff rules registry gate "дюна" none none 5 tracker [] ("uakino" ∷ []) tt

abbrev searching : SearchState
searching = record {
  shelf = record { items = []; queries = []; finished = [] };
  search_cache = record { default_ttl_s = pos 300; entries = [] };
  tracker = tracker;
}

abbrev fan_out : List Provider → FanOut
fan_out selected = record { done = one_ended; pending = "eneyida" ∷ [] }

-- Later no provider answers at all.
abbrev nobody : List Provider → FanOut
nobody selected = record { done = []; pending = "uakino" ∷ [] }

merged_search-IsRepeated_example :
    let (s', reply) =
      merged_search rules registry gate 5 "дюна" "all" none none false true fan_out searching in
    IsRepeated reply
      (held 305 (key_of_search rules registry gate "дюна" "all" none none false) s')
      (merged_search rules registry gate 305 "дюна" "all" none none false true nobody s').1
unfolding Cache.get Dict.get ps4_uk_stream.Prelude.Texts.strip
merged_search-IsRepeated_example =
    merged_search-IsRepeated rules registry gate "дюна" "all" none none false 5 305 true true
      fan_out nobody searching (omega arith) (omega arith) refl refl
