-- ===== src/MergedSearch/Search.antt =====
-- backend/cs_uk_api/_catalog_state/search.py: `merged_search` around the fan-out: the cache, the selection of
-- the providers, and what leaves.
use ps4_uk_stream.Prelude.{
  ℕ, String, Bool, not, ◌&&◌, Option, none, some, List, [], ◌∷◌, if◌then◌else◌, nat_eq, string_eq,
  keep, any, ◌==◌,
}
use ps4_uk_stream.Prelude.Texts.{strip, join}
use ps4_uk_stream.Cache
use ps4_uk_stream.Resume.{record_query}
use ps4_uk_stream.Filters.{style_key}
use ps4_uk_stream.Models.{MediaForm, MediaStyle, form_name, SearchResult}
use ps4_uk_stream.Merge.{TitleRules}
use ps4_uk_stream.MergedSearch.{
  unknown_provider, not_ready, answered, search_timeout, SearchResponse, Reply, Provider,
  SearchState, FanOut, collect_done, collect_pending, respond,
}

abbrev pub form_or_empty : Option MediaForm → String
form_or_empty none = ""
form_or_empty (some form) = form_name form

-- `cache_key`
unfoldable pub cache_key :
    String → String → Option MediaForm → Option (List MediaStyle) → Bool → String
cache_key provider q form style_filter skip_uakino = join "" (
    "search:"
    ∷ provider
    ∷ ":"
    ∷ q
    ∷ ":"
    ∷ form_or_empty form
    ∷ ":"
    ∷ style_key style_filter
    ∷ (if skip_uakino then ":no-uakino" else "")
    ∷ [])

-- The response is cached; the 502 is not.
unfoldable pub finish : ℕ → String → Option SearchResponse → SearchState → SearchState × Reply
unfolding Cache.set
finish now key none s = (s, search_timeout)
finish now key (some resp) s =
    (record s { search_cache = Cache.set now key resp none s.search_cache }, answered resp)

abbrev pub hit_or_miss :
    Option SearchResponse → SearchState → SearchState × Reply → SearchState × Reply
hit_or_miss none s missed = missed
hit_or_miss (some cached) s missed = (s, answered cached)

module _ (rules : TitleRules) (providers : List Provider)
    (gate : String → List SearchResult → Option (List SearchResult)) where
  -- From the selection of the providers on
  unfoldable pub fan_out_search :
      ℕ
      → String
      → Option MediaForm
      → Option (List MediaStyle)
      → String
      → List Provider
      → FanOut
      → SearchState
      → SearchState × Reply
  unfolding respond finish collect_done collect_pending
  fan_out_search now q form style_filter key [] out s =
      finish now key (some record { query = q; groups = []; failures = [] }) s
  fan_out_search now q form style_filter key (prov ∷ selected) out s =
      let c =
        collect_pending now out.pending (
          collect_done now out.done
            (record { results = []; failures = []; tracker = s.tracker })) in
      finish now key (respond rules providers gate q form style_filter out.done c)
        (record s { tracker = c.tracker })

  -- `selected`; None is the KeyError of an unknown id.
  unfoldable pub select : String → Bool → Option (List Provider)
  select provider skip_uakino =
      if skip_uakino
      then some (keep (λ p. not (p.id == "uakino")) providers)
      else if provider == "all"
      then some providers
      else if any (λ p. p.id == provider) providers
      then some (keep (λ p. p.id == provider) providers)
      else none

  -- A miss of the cache: the wait for uakino, which may raise, and then the fan-out
  unfoldable pub search_miss :
      ℕ
      → String
      → String
      → Option MediaForm
      → Option (List MediaStyle)
      → Bool
      → Bool
      → (List Provider → FanOut)
      → SearchState
      → SearchState × Reply
  unfolding select fan_out_search cache_key
  search_miss now q provider form style_filter skip_uakino uakino_ready fan_out s =
      if provider == "uakino" && not uakino_ready
      then (s, not_ready)
      else elim (select provider skip_uakino) [
        | none ↦ (s, unknown_provider)
        | some selected ↦
            fan_out_search now q form style_filter
              (cache_key provider q form style_filter skip_uakino) selected (fan_out selected) s
      ]

  -- `merged_search`; `cold_uakino` is what `should_skip_uakino_in_fanout` says.
  unfoldable pub merged_search :
      ℕ
      → String
      → String
      → Option MediaForm
      → Option (List MediaStyle)
      → Bool
      → Bool
      → (List Provider → FanOut)
      → SearchState
      → SearchState × Reply
  unfolding search_miss record_query Cache.get cache_key
  merged_search now q provider form style_filter cold_uakino uakino_ready fan_out s =
      let skip_uakino = provider == "all" && cold_uakino in
      let key = cache_key provider q form style_filter skip_uakino in
      let (cache, cached) = Cache.get now key s.search_cache in
      let s' = record s { shelf = record_query q s.shelf; search_cache = cache } in
      if strip q == ""
      then (s, answered record { query = q; groups = []; failures = [] })
      else hit_or_miss cached s'
          (search_miss now q provider form style_filter skip_uakino uakino_ready fan_out s')
