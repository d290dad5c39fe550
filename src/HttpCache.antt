-- ===== src/HttpCache.antt =====
-- backend/cs_uk_api/http_cache.py: the store of validators and bodies, and the transport that answers
-- a 304 from it. The table is a dict by URL in rowid order, a time a number; httpx's headers, JSON,
-- regular expressions and `lower` are arguments, and so is the wrapped transport. The connection is
-- open throughout; logging is left out.
pub mod Cap
pub mod Transport
pub mod Replay
use ps4_uk_stream.Prelude.{
  ℕ, zero, suc, ◌+◌, ◌-◌, String, Bool, not, Option, none, some, List, [], ◌∷◌, ltb, if◌then◌else◌,
  ◌==◌, nat_eq, string_eq, length, keep,
}
use ps4_uk_stream.Prelude.Dict
use ps4_uk_stream.Prelude.Dict.{Dict}

abbrev pub prune_after_s : ℕ
prune_after_s = 1_209_600

abbrev pub max_cache_bytes : ℕ
max_cache_bytes = 536_870_912

abbrev pub Bytes : Type 0
Bytes = List ℕ

abbrev pub Headers : Type 0
Headers = List (String × String)

-- A row of `pages`, without its key
pub record Row : Type 0 where
  pub etag : Option String
  pub last_modified : Option String
  pub headers : String
  pub body : Bytes
  pub fetched_at : ℕ

pub record CachedPage : Type 0 where
  pub etag : Option String
  pub last_modified : Option String
  pub headers : Headers
  pub body : Bytes

pub record CacheSummary : Type 0 where
  pub stored : ℕ
  pub revalidated : ℕ
  pub bytes_saved : ℕ

pub record ConditionalCache : Type 0 where
  pub max_bytes : ℕ
  pub pages : Dict String Row
  pub counters : CacheSummary

-- `httpx.Headers.get`, `json.dumps` and `json.loads` of the header pairs (none where it raises or the
-- result is no list of pairs), `str.lower`, the pattern of the date and whether it parses
pub record HttpTools : Type 0 where
  pub header : String → Headers → Option String
  pub dump : Headers → String
  pub load : String → Option Headers
  pub lower : String → String
  pub is_fixdate : String → Bool
  pub parses_date : String → Bool

-- `SUM(LENGTH(body))`
abbrev pub total_bytes : Dict String Row → ℕ
total_bytes [] = 0
total_bytes ((url, row) ∷ pages) = length row.body + total_bytes pages

-- `ORDER BY fetched_at ASC, rowid ASC LIMIT 1`
unfoldable pub oldest_from : String × Row → Dict String Row → String × Row
oldest_from e [] = e
oldest_from e (f ∷ pages) =
    if ltb f.1.fetched_at e.1.fetched_at then oldest_from f pages else oldest_from e pages

unfoldable pub oldest : Dict String Row → Option (String × Row)
unfolding oldest_from
oldest [] = none
oldest (e ∷ pages) = some (oldest_from e pages)

-- The loop of `_enforce_size_cap`: a round costs a unit of fuel.
unfoldable pub evict : ℕ → ℕ → ℕ → Dict String Row → Dict String Row
evict max_bytes zero total pages = pages
evict max_bytes (suc fuel) total pages =
    if ltb max_bytes total
    then elim (oldest pages) [
      | none ↦ pages
      | some e ↦ evict max_bytes fuel (total - length e.1.body) (Dict.remove e.0 pages)
    ]
    else pages

-- `_enforce_size_cap`; each round removes a row.
unfoldable pub enforce_size_cap : ℕ → Dict String Row → Dict String Row
unfolding evict
enforce_size_cap max_bytes pages = evict max_bytes (length pages) (total_bytes pages) pages

-- `_prune`
unfoldable pub prune : ℕ → Dict String Row → Dict String Row
prune now pages = keep (λ e. not (ltb (e.1.fetched_at + prune_after_s) now)) pages

abbrev pub empty_summary : CacheSummary
empty_summary = record { stored = 0; revalidated = 0; bytes_saved = 0 }

-- `__init__` on the table that is there
unfoldable pub open_cache : ℕ → ℕ → Dict String Row → ConditionalCache
unfolding prune
open_cache max_bytes now pages = record {
  max_bytes = max_bytes;
  pages = prune now pages;
  counters = empty_summary;
}

abbrev pub page_of : Row → Headers → CachedPage
page_of row headers = record {
  etag = row.etag;
  last_modified = row.last_modified;
  headers = headers;
  body = row.body;
}

-- `UPDATE pages SET ... WHERE url = ?`
unfoldable pub refresh :
    ℕ → String → Option String → Option String → Dict String Row → Dict String Row
refresh now url etag last_modified [] = []
refresh now url etag last_modified ((u, row) ∷ pages) =
    let rest = refresh now url etag last_modified pages in
    if u == url
    then (u, record row { etag = etag; last_modified = last_modified; fetched_at = now }) ∷ rest
    else (u, row) ∷ rest

abbrev pub count_revalidated : Option CachedPage → CacheSummary → CacheSummary
count_revalidated none s = s
count_revalidated (some page) s = record s {
  revalidated = s.revalidated + 1;
  bytes_saved = s.bytes_saved + length page.body;
}

module _ (tools : HttpTools) where
  open tools use {header, dump, load, lower, is_fixdate, parses_date}

  -- A row whose headers do not load is deleted.
  abbrev pub with_headers :
      String → Row → Option Headers → ConditionalCache → ConditionalCache × Option CachedPage
  with_headers url row none c = (record c { pages = Dict.remove url c.pages }, none)
  with_headers url row (some headers) c = (c, some (page_of row headers))

  abbrev pub read_row :
      String → Option Row → ConditionalCache → ConditionalCache × Option CachedPage
  read_row url none c = (c, none)
  read_row url (some row) c = with_headers url row (load row.headers) c

  unfoldable pub get : String → ConditionalCache → ConditionalCache × Option CachedPage
  get url c = read_row url (Dict.get url c.pages) c

  unfoldable pub put :
      ℕ
      → String
      → Bytes
      → Headers
      → Option String
      → Option String
      → ConditionalCache
      → ConditionalCache
  unfolding enforce_size_cap
  put now url body headers etag last_modified c =
      let row : Row = record {
        etag = etag;
        last_modified = last_modified;
        headers = dump headers;
        body = body;
        fetched_at = now;
      } in
      record c {
        pages = enforce_size_cap c.max_bytes (Dict.put url row c.pages);
        counters = record c.counters { stored = c.counters.stored + 1 };
      }

  unfoldable pub touch :
      ℕ
      → String
      → Option String
      → Option String
      → ConditionalCache
      → ConditionalCache × Option CachedPage
  unfolding refresh get
  touch now url etag last_modified c =
      let (c', page) = get url (record c { pages = refresh now url etag last_modified c.pages }) in
      (record c' { counters = count_revalidated page c'.counters }, page)
