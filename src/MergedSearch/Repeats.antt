-- ===== src/MergedSearch/Repeats.antt =====
-- What a search leaves in the cache of searches for the same search later.
use ps4_uk_stream.Prelude.{
  ◌+◌, ◌≤◌, ℕ, String, ◌≡◌, refl, sym, ◌∙◌, inl, inr, Bool, false, not, ◌&&◌, Option, none, some,
  List, [], ◌∷◌, arith, ltb, Bool-cases, Option-cases, ◌==◌, ==_refl, nat_eq, string_eq,
}
use mathlib.Core.Path.{subst}
use ps4_uk_stream.Prelude.Dict
use ps4_uk_stream.Prelude.Texts.{strip}
use ps4_uk_stream.Prelude.Integers.{max_zero}
use ps4_uk_stream.Cache
use ps4_uk_stream.Cache.{TtlCache}
use ps4_uk_stream.Cache.Reads.{fresh, default_ttl_s-get, get-fresh, fresh-get, get-set}
use ps4_uk_stream.Resume.{record_query}
use ps4_uk_stream.Models.{MediaForm, MediaStyle, SearchResult}
use ps4_uk_stream.Merge.{TitleRules}
use ps4_uk_stream.MergedSearch.{
  respond, collect_done, collect_pending, Provider, SearchResponse, SearchState, Reply, FanOut,
  answered, search_timeout, not_ready, unknown_provider,
}
use ps4_uk_stream.MergedSearch.Search.{
  cache_key, finish, fan_out_search, select, search_miss, merged_search,
}

-- What a read of the cache answers
abbrev pub held : ℕ → String → SearchState → Option SearchResponse
held t key s = (Cache.get t key s.search_cache).1

abbrev pub response_in : Reply → Option SearchResponse
response_in (answered resp) = some resp
response_in search_timeout = none
response_in not_ready = none
response_in unknown_provider = none

-- A response answers the next search too; an error is not held, so the next search asks again.
abbrev pub IsRepeated : Reply → Option SearchResponse → Reply → Type 0
IsRepeated (answered resp) cached next = next ≡ answered resp
IsRepeated search_timeout cached next = cached ≡ none
IsRepeated not_ready cached next = cached ≡ none
IsRepeated unknown_provider cached next = cached ≡ none

-- No time before the deadline of what is written at `now`
abbrev pub IsInTime : ℕ → ℕ → SearchState → Type 0
IsInTime now t s = t ≤ now + max_zero s.search_cache.default_ttl_s

held-finish :
    (now t : ℕ) (key : String) (o : Option SearchResponse) (s : SearchState)
    → IsInTime now t s
    → held t key s ≡ none
    → held t key (finish now key o s).0 ≡ response_in (finish now key o s).1
unfolding finish Cache.ttl_or_default
held-finish now t key none s h missed = missed
held-finish now t key (some resp) s h missed =
    let alive : ltb (now + max_zero s.search_cache.default_ttl_s) t ≡ false = ground arith in
    get-set now t key key resp none s.search_cache ∙ rw (==_refl key, alive) refl

-- An entry that a read did not find, or dropped, is not found later either.
held_later :
    (now t : ℕ) (key : String) (c : TtlCache SearchResponse)
    → now ≤ t
    → (Cache.get now key c).1 ≡ none
    → (Cache.get t key (Cache.get now key c).0).1 ≡ none
held_later now t key c h missed =
    get-fresh t key (Cache.get now key c).0
    ∙ fresh-get now t key key c h
    ∙ still (Dict.get key c.entries) (sym (get-fresh now key c) ∙ missed)
  where
    still : (o : Option (ℕ × SearchResponse)) → fresh now o ≡ none → fresh t o ≡ none
    still none e = refl
    still (some (expires_at, value)) e = ground arith

module _ (rules : TitleRules) (providers : List Provider)
    (gate : String → List SearchResult → Option (List SearchResult)) (q provider : String)
    (form : Option MediaForm) (style_filter : Option (List MediaStyle)) (cold_uakino : Bool) where
  abbrev pub key_of_search : String
  key_of_search = cache_key provider q form style_filter (provider == "all" && cold_uakino)

  held-fan_out_search :
      (now t : ℕ) (key : String) (selected : List Provider) (out : FanOut) (s : SearchState)
      → IsInTime now t s
      → held t key s ≡ none
      → held t key
          (fan_out_search rules providers gate now q form style_filter key selected out s).0
        ≡ response_in
            (fan_out_search rules providers gate now q form style_filter key selected out s).1
  unfolding fan_out_search
  held-fan_out_search now t key [] out s h missed =
      held-finish now t key (some record { query = q; groups = []; failures = [] }) s h missed
  held-fan_out_search now t key (prov ∷ selected) out s h missed =
      let c =
        collect_pending now out.pending (
          collect_done now out.done
            (record { results = []; failures = []; tracker = s.tracker })) in
      held-finish now t key (respond rules providers gate q form style_filter out.done c)
        (record s { tracker = c.tracker }) h missed

  held-search_miss :
      (now t : ℕ) (ready : Bool) (fan_out : List Provider → FanOut) (s : SearchState)
      → IsInTime now t s
      → held t key_of_search s ≡ none
      → let r =
          search_miss rules providers gate now q provider form style_filter
            (provider == "all" && cold_uakino)
            ready
            fan_out
            s in
        held t key_of_search r.0 ≡ response_in r.1
  unfolding search_miss
  held-search_miss now t ready fan_out s h missed =
      elim (Bool-cases (provider == "uakino" && not ready)) [
        | inl cold ↦ rw cold missed
        | inr warm ↦
            elim (Option-cases
              (select rules providers gate provider (provider == "all" && cold_uakino))) [
                | inl unknown ↦ rw (warm, unknown) missed
                | inr (selected, known) ↦
                    rw (warm, known)
                      (held-fan_out_search now t key_of_search selected (fan_out selected) s h
                        missed)
              ]
      ]

  reply-IsRepeated :
      (t : ℕ) (ready : Bool) (fan_out : List Provider → FanOut) (reply : Reply) (s : SearchState)
      → (strip q == "") ≡ false
      → held t key_of_search s ≡ response_in reply
      → IsRepeated reply
          (held t key_of_search s)
          (merged_search rules providers gate t q provider form style_filter cold_uakino ready
            fan_out s).1
  unfolding merged_search
  reply-IsRepeated t ready fan_out (answered resp) s asked found = rw (asked, found) refl
  reply-IsRepeated t ready fan_out search_timeout s asked found = found
  reply-IsRepeated t ready fan_out not_ready s asked found = found
  reply-IsRepeated t ready fan_out unknown_provider s asked found = found

  -- The state after the query is recorded and the cache is read
  abbrev pub begun : ℕ → SearchState → SearchState
  begun now s = record s {
    shelf = record_query q s.shelf;
    search_cache = (Cache.get now key_of_search s.search_cache).0;
  }

  merged_search-missed :
      (now : ℕ) (ready : Bool) (fan_out : List Provider → FanOut) (s : SearchState)
      → (strip q == "") ≡ false
      → held now key_of_search s ≡ none
      → merged_search rules providers gate now q provider form style_filter cold_uakino ready
          fan_out s
        ≡ search_miss rules providers gate now q provider form style_filter
            (provider == "all" && cold_uakino)
            ready
            fan_out
            (begun now s)
  unfolding merged_search
  merged_search-missed now ready fan_out s asked missed = rw (asked, missed) refl

  -- The same search, of a query that is not blank, again, after one that the cache did not answer and
  -- within the time to live of its entries: a response is answered again, whatever the providers would say now; after an error (the
  -- 502 of a search that timed out everywhere included) the cache holds nothing.
  pub merged_search-IsRepeated :
      (now t : ℕ) (ready ready' : Bool) (fan_out fan_out' : List Provider → FanOut)
      (s : SearchState)
      → now ≤ t
      → t ≤ now + max_zero s.search_cache.default_ttl_s
      → (strip q == "") ≡ false
      → held now key_of_search s ≡ none
      → let (s', reply) =
          merged_search rules providers gate now q provider form style_filter cold_uakino ready
            fan_out s in
        IsRepeated reply
          (held t key_of_search s')
          (merged_search rules providers gate t q provider form style_filter cold_uakino ready'
            fan_out' s').1
  merged_search-IsRepeated now t ready ready' fan_out fan_out' s later in_time asked missed =
      let kept = default_ttl_s-get now key_of_search s.search_cache in
      subst
        (λ (r : SearchState × Reply).
          IsRepeated r.1 (held t key_of_search r.0)
            (merged_search rules providers gate t q provider form style_filter cold_uakino ready'
              fan_out' r.0).1)
        (sym (merged_search-missed now ready fan_out s asked missed))
        (reply-IsRepeated t ready' fan_out' _ _ asked (
          held-search_miss now t ready fan_out (begun now s) (rw kept in_time)
            (held_later now t key_of_search s.search_cache later missed)))
