-- ===== src/HttpCache/Transport.antt =====
-- backend/cs_uk_api/http_cache.py: `CachingTransport`, which asks with the stored validators and
-- answers a 304 from the store. The wrapped transport is an argument, on a state of its own.
use ps4_uk_stream.Prelude.{
  ℕ, String, Bool, true, false, not, ◌&&◌, ◌||◌, Option, none, some, List, [], ◌∷◌, ltb, eqb,
  if◌then◌else◌, ◌==◌, nat_eq, string_eq, length, keep,
}
use ps4_uk_stream.Prelude.Membership.{contains}
use ps4_uk_stream.Prelude.Texts.{starts_with, includes}
use ps4_uk_stream.HttpCache.{
  Bytes, Headers, CachedPage, ConditionalCache, HttpTools, get, put, touch,
}

abbrev pub max_body_bytes : ℕ
max_body_bytes = 4_194_304

abbrev pub drop_headers : List String
drop_headers = "content-encoding" ∷ "content-length" ∷ "transfer-encoding" ∷ "connection" ∷ []

pub record Request : Type 0 where
  pub method : String
  pub url : String
  pub if_none_match : Option String
  pub if_modified_since : Option String

pub record Response : Type 0 where
  pub status_code : ℕ
  pub headers : Headers
  pub content : Bytes

-- `bool(value)`
abbrev pub truthy : Option String → Bool
truthy none = false
truthy (some s) = not (s == "")

-- `a or b`
abbrev pub or_else : Option String → Option String → Option String
or_else a b = if truthy a then a else b

abbrev pub replay : CachedPage → Response
replay page = record { status_code = 200; headers = page.headers; content = page.body }

abbrev pub caller_conditional : Request → Bool
caller_conditional request = truthy request.if_none_match || truthy request.if_modified_since

-- `if cached.etag:` and `if cached.last_modified:`
abbrev pub with_conditions : Option CachedPage → Request → Request
with_conditions none request = request
with_conditions (some cached) request = record request {
  if_none_match = or_else cached.etag request.if_none_match;
  if_modified_since = or_else cached.last_modified request.if_modified_since;
}

abbrev pub page_or : Option CachedPage → CachedPage → CachedPage
page_or none cached = cached
page_or (some page) cached = page

-- The wrapped transport
abbrev pub Inner : Type 0 → Type 0
Inner S = S → Request → S × Response

module _ (tools : HttpTools) where
  open tools use {header, lower, is_fixdate, parses_date}

  unfoldable pub cacheable_content_type : Option String → Bool
  cacheable_content_type none = true
  cacheable_content_type (some value) =
      value == ""
      || (starts_with "text/" (lower value)
          || (includes "json" (lower value) || includes "xml" (lower value)))

  abbrev pub valid_http_date : Option String → Option String
  valid_http_date none = none
  valid_http_date (some value) =
      if not (value == "") && is_fixdate value && parses_date value then some value else none

  unfoldable pub stored_headers : Response → Headers
  stored_headers response = keep (λ h. not (contains (lower h.0) drop_headers)) response.headers

  -- No validator, no text, or too long a body
  unfoldable pub is_left_out : Response → Bool
  is_left_out response =
      not (
        truthy (header "etag" response.headers)
        || truthy (valid_http_date (header "last-modified" response.headers)))
      || (not (cacheable_content_type (header "content-type" response.headers))
          || ltb max_body_bytes (length response.content))

  -- `_store`
  unfoldable pub store : ℕ → String → Response → ConditionalCache → ConditionalCache
  unfolding put is_left_out
  store now url response c =
      if is_left_out response
      then c
      else put tools now url response.content (stored_headers response)
          (header "etag" response.headers)
          (valid_http_date (header "last-modified" response.headers)) c

  -- The page to ask about, if any
  abbrev pub lookup : Request → ConditionalCache → ConditionalCache × Option CachedPage
  lookup request c =
      if request.method == "GET" && not (caller_conditional request)
      then get tools request.url c
      else (c, none)

  -- The 304 of the origin to a page of the cache
  unfoldable pub answer_304 :
      ℕ → String → CachedPage → Response → ConditionalCache → ConditionalCache × Response
  unfolding touch
  answer_304 now url cached response c =
      let (c', page) =
        touch tools now url (or_else (header "etag" response.headers) cached.etag)
          (or_else (valid_http_date (header "last-modified" response.headers)) cached.last_modified)
          c in
      (c', replay (page_or page cached))

  unfoldable pub answer :
      ℕ → Request → Option CachedPage → Response → ConditionalCache → ConditionalCache × Response
  unfolding store answer_304
  answer now request none response c =
      if request.method == "GET" && eqb response.status_code 200
      then (store now request.url response c, response)
      else (c, response)
  answer now request (some cached) response c =
      if eqb response.status_code 304
      then answer_304 now request.url cached response c
      else if request.method == "GET" && eqb response.status_code 200
      then (store now request.url response c, response)
      else (c, response)

  -- `handle_async_request`
  unfoldable pub handle_async_request :
      (S : Type 0)
      → Inner S
      → ℕ
      → Request
      → S × ConditionalCache
      → (S × ConditionalCache) × Response
  unfolding get answer
  handle_async_request S inner now request (s, c) =
      let (c', cached) = lookup request c in
      let (s', response) = inner s (with_conditions cached request) in
      let (c'', shown) = answer now request cached response c' in ((s', c''), shown)
