-- ===== src/HttpCache/Replay.antt =====
-- The transport: the store stays within its bound, and a 304 that the store asked for is answered
-- with the stored page.
use ps4_uk_stream.Prelude.{
  ℕ, ◌≤◌, String, ◌≡◌, refl, ap, inl, inr, false, not, ◌&&◌, Option, none, some, [], ◌∷◌, arith,
  eqb, Bool-cases, ◌==◌, nat_eq, string_eq,
}
use ps4_uk_stream.Prelude.Dict
use ps4_uk_stream.Prelude.Dict.{Dict, DistinctKeys, remove-DistinctKeys, put-DistinctKeys}
use ps4_uk_stream.HttpCache.{
  with_headers, Headers, Row, CachedPage, ConditionalCache, HttpTools, total_bytes, read_row, get,
  put, refresh, touch, page_of,
}
use ps4_uk_stream.HttpCache.Transport.{
  is_left_out, Request, Response, Inner, store, caller_conditional, with_conditions, lookup,
  answer_304, answer, handle_async_request,
}
use ps4_uk_stream.HttpCache.Cap.{enforce_size_cap-bound, enforce_size_cap-DistinctKeys}

-- Each URL once, and the bodies within the bound
pub record Fits (c : ConditionalCache) : Type 0 where
  pub distinct : DistinctKeys c.pages
  pub within : total_bytes c.pages ≤ c.max_bytes

total_bytes-remove-le :
    (url : String) (pages : Dict String Row)
    → total_bytes (Dict.remove url pages) ≤ total_bytes pages
unfolding Dict.remove
total_bytes-remove-le url [] = omega arith
total_bytes-remove-le url ((u, r) ∷ pages) = ground (arith, total_bytes-remove-le url pages)

module _ (now : ℕ) (url : String) (etag last_modified : Option String) where
  total_bytes-refresh :
      (pages : Dict String Row)
      → total_bytes (refresh now url etag last_modified pages) ≡ total_bytes pages
  unfolding refresh
  total_bytes-refresh [] = refl
  total_bytes-refresh ((u, r) ∷ pages) = ground (arith, total_bytes-refresh pages)

  refresh_absent :
      (u : String) (pages : Dict String Row)
      → Dict.get u pages ≡ none
      → Dict.get u (refresh now url etag last_modified pages) ≡ none
  unfolding refresh Dict.get
  refresh_absent u [] h = refl
  refresh_absent u ((v, r) ∷ pages) h = ground (arith, refresh_absent u pages)

  refresh-DistinctKeys :
      (pages : Dict String Row)
      → DistinctKeys pages
      → DistinctKeys (refresh now url etag last_modified pages)
  unfolding refresh
  refresh-DistinctKeys [] d = tt
  refresh-DistinctKeys ((u, r) ∷ pages) d = elim (Bool-cases (u == url)) [
    | inl hit ↦ rw hit (refresh_absent u pages d.0, refresh-DistinctKeys pages d.1)
    | inr miss ↦ rw miss (refresh_absent u pages d.0, refresh-DistinctKeys pages d.1)
  ]

  refreshed : Row → Row
  refreshed row = record row { etag = etag; last_modified = last_modified; fetched_at = now }

  get-refresh :
      (row : Row) (pages : Dict String Row)
      → Dict.get url pages ≡ some row
      → Dict.get url (refresh now url etag last_modified pages) ≡ some (refreshed row)
  unfolding refresh Dict.get refreshed
  get-refresh row [] h = absurd cc
  get-refresh row ((u, r) ∷ pages) h = elim (Bool-cases (u == url)) [
    | inl hit ↦
        let found : some r ≡ some row = rw hit at h in
        let same : r ≡ row = cc in rw (hit, hit) (ap (λ x. some (refreshed x)) same)
    | inr miss ↦ rw (miss, miss) (get-refresh row pages (rw miss at h))
  ]

module _ (tools : HttpTools) where
  with_headers-Fits :
      (url : String) (row : Row) (headers : Option Headers) (c : ConditionalCache)
      → Fits c
      → Fits (with_headers tools url row headers c).0
  with_headers-Fits url row none c f = record {
    distinct = remove-DistinctKeys url c.pages f.distinct;
    within = omega (arith, f.within, total_bytes-remove-le url c.pages);
  }
  with_headers-Fits url row (some headers) c f = f

  read_row-Fits :
      (url : String) (row : Option Row) (c : ConditionalCache)
      → Fits c
      → Fits (read_row tools url row c).0
  read_row-Fits url none c f = f
  read_row-Fits url (some row) c f = with_headers-Fits url row (tools.load row.headers) c f

  get-Fits : (url : String) (c : ConditionalCache) → Fits c → Fits (get tools url c).0
  unfolding get
  get-Fits url c f = read_row-Fits url (Dict.get url c.pages) c f

  touch-Fits :
      (now : ℕ) (url : String) (etag last_modified : Option String) (c : ConditionalCache)
      → Fits c
      → Fits (touch tools now url etag last_modified c).0
  unfolding touch
  touch-Fits now url etag last_modified c f =
      let got =
        get-Fits url (record c { pages = refresh now url etag last_modified c.pages })
          (record {
            distinct = refresh-DistinctKeys now url etag last_modified c.pages f.distinct;
            within =
                omega (arith, f.within, total_bytes-refresh now url etag last_modified c.pages);
          }) in
      record { distinct = got.distinct; within = got.within }

  store-Fits :
      (now : ℕ) (url : String) (response : Response) (c : ConditionalCache)
      → Fits c
      → Fits (store tools now url response c)
  unfolding store put
  store-Fits now url response c f = elim (Bool-cases (is_left_out tools response)) [
    | inl out ↦ rw out f
    | inr kept ↦ rw kept (record {
      distinct =
          enforce_size_cap-DistinctKeys c.max_bytes _ (put-DistinctKeys url _ c.pages f.distinct);
      within = enforce_size_cap-bound c.max_bytes _ (put-DistinctKeys url _ c.pages f.distinct);
    })
  ]

  answer-Fits :
      (now : ℕ) (request : Request) (cached : Option CachedPage) (response : Response)
      (c : ConditionalCache)
      → Fits c
      → Fits (answer tools now request cached response c).0
  unfolding answer answer_304
  answer-Fits now request none response c f =
      elim (Bool-cases (request.method == "GET" && eqb response.status_code 200)) [
        | inl full ↦ rw full (store-Fits now request.url response c f)
        | inr other ↦ rw other f
      ]
  answer-Fits now request (some cached) response c f =
      elim (Bool-cases (eqb response.status_code 304)) [
        | inl same ↦ rw same (touch-Fits now request.url _ _ c f)
        | inr new ↦ elim (Bool-cases (request.method == "GET" && eqb response.status_code 200)) [
          | inl full ↦ rw (new, full) (store-Fits now request.url response c f)
          | inr other ↦ rw (new, other) f
        ]
      ]

  lookup-Fits :
      (request : Request) (c : ConditionalCache) → Fits c → Fits (lookup tools request c).0
  lookup-Fits request c f =
      elim (Bool-cases (request.method == "GET" && not (caller_conditional request))) [
        | inl asks ↦ rw asks (get-Fits request.url c f)
        | inr passes ↦ rw passes f
      ]

  -- Whatever the origin answers, a request leaves each URL once in the store and its bodies within
  -- `max_bytes` together, when they were so before.
  pub handle_async_request-Fits :
      (S : Type 0) (inner : Inner S) (now : ℕ) (request : Request) (s : S) (c : ConditionalCache)
      → Fits c
      → Fits (handle_async_request tools S inner now request (s, c)).0.1
  unfolding handle_async_request
  handle_async_request-Fits S inner now request s c f =
      let found = lookup tools request c in
      answer-Fits now request found.1 (inner s (with_conditions found.1 request)).1 found.0
        (lookup-Fits request c f)

  answer_304_lem :
      (now : ℕ) (url : String) (row : Row) (headers : Headers) (response : Response)
      (c : ConditionalCache)
      → Dict.get url c.pages ≡ some row
      → tools.load row.headers ≡ some headers
      → (answer_304 tools now url (page_of row headers) response c).1
        ≡ record { status_code = 200; headers = headers; content = row.body }
  unfolding answer_304 touch get refreshed
  answer_304_lem now url row headers response c stored loads =
      rw (get-refresh now url _ _ row c.pages stored, loads) refl

  -- For a GET without conditions of its own, when the store has a row for the URL and its headers
  -- load: if the origin, asked with the row's validators, answers 304, the caller gets a 200 with the
  -- row's headers and body.
  pub handle_async_request_304 :
      (S : Type 0) (inner : Inner S) (now : ℕ) (request : Request) (s : S) (c : ConditionalCache)
      (row : Row) (headers : Headers)
      → request.method ≡ "GET"
      → caller_conditional request ≡ false
      → Dict.get request.url c.pages ≡ some row
      → tools.load row.headers ≡ some headers
      → (inner s (with_conditions (some (page_of row headers)) request)).1.status_code ≡ 304
      → (handle_async_request tools S inner now request (s, c)).1
        ≡ record { status_code = 200; headers = headers; content = row.body }
  unfolding handle_async_request answer get
  handle_async_request_304 S inner now request s c row headers method plain stored loads status =
      let found : lookup tools request c ≡ (c, some (page_of row headers)) =
        rw (method, plain, stored, loads) refl in
      rw (found, status)
        (answer_304_lem now request.url row headers
          (inner s (with_conditions (some (page_of row headers)) request)).1 c stored loads)
