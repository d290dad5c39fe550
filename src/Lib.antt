-- ===== src/Lib.antt =====
-- Verification of the core of the ps4-uk-stream backend (backend/cs_uk_api): the stores, caches and
-- guards around the providers' scrapers, and the monitors that judge the providers.
--
-- The parts and their files, with the code that each models (paths under backend/cs_uk_api):
--   Cache            cache.py: `TtlCache`, the lists with a time to live.
--   Health           health.py: `HealthTracker`, the sliding window of outcomes of each provider.
--   Watchdog         watchdog.py: `WedgedClientWatchdog`, which reads the tracker through the protocol
--                    `HealthSource` and resets the HTTP client when every provider is down.
--   CrawlGuard       crawl_guard.py: `ProviderGuard`, the circuit breaker of the nightly crawl;
--                    CrawlGuard/Saved.antt is its saved state.
--   Storage          versioned_store.py: `VersionedFileStore` and its atomic writes, as the states of a
--                    directory under faults; Storage/Debounce.antt has `AsyncDebouncedSave`.
--   Resume           resume_store.py: `ResumeStore` in memory; Resume/Writes.antt joins it to the
--                    debounced saver and so to the file, with saves that may fail.
--   UserState        user_state.py: favourites, played marks and the memory of dubs;
--                    UserState/Saved.antt has the adapters of its file, and
--                    UserState/Restart.antt joins the store to Storage.
--   PlayAttestation  play_attestation.py: the counters of what each play request got.
--   Drift            drift/baseline.py, drift/attestation.py and drift/monitor.py: the verdict on a
--                    probe, the calibration, the verdict on playback, and one provider's sweep.
--   Filters          filters.py: the filter axes of search and browse.
--   RowKinds         row_kinds.py: the table of the home rows and the maps derived from it.
--   CatalogWarm      catalog_warm.py: the startup warm.
--   Merge            merge.py: the merge of listings into titles. Forest.antt is the union-find,
--                    Classes.antt what it should compute, Links.antt, Ids.antt and Sound.antt the rule of
--                    one title, Titles.antt and Sources.antt the groups.
--   WireIdentity     wire_identity.py: the split of ids, the keys of titles, the projection of a group;
--                    it fills the interface `TitleRules` of Merge. Seasons.antt has the ids of seasons.
--   TorrentLane      torrent_lane.py: the order of the candidates and the talk with the engine, which is
--                    a section's argument; TorrentLane/Files.antt is the pick of a file in torrent_engine.py.
--   PlayRequest      play_request.py: one attempt to play, over Health, PlayAttestation and the answers
--                    of a provider.
--   HttpCache        http_cache.py: the store of pages and the transport that replays them.
--   Recommend        recommend.py: the pool of candidates of the recommendation rows.
--   CatalogState     _catalog_state/_stores.py: `CatalogState`, the owner of the group index and of the
--                    registrations of searches, and of the cached resolution map. Searches.antt has
--                    `register_search`, Reads.antt the answers from the state.
--   MergedSearch     _catalog_state/search.py: `merged_search`, over Merge, WireIdentity, Health, Cache
--                    and Resume. Search.antt is the call around the fan-out.
--   Home             home.py: the rows of the home view, over Merge and RowKinds; RoundRobin.antt is the
--                    walk over the listings, Rows.antt `build_home_rows`, Rails.antt the genre rails.
--   CatalogCrawl     catalog_index.py: the nightly crawler with its retry passes.
--   Models           models.py: the listing item, the section, the items and rows of the home view and
--                    the group of a search that these share.
-- Prelude holds the library's names passed on, Boolean tests, lists, Python's dict, sorting, strings and
-- sets as lists; Examples applies the theorems at concrete inputs. Below a component, a child
-- module is named for what it shows (Cache/Reads.antt, Resume/Shelves.antt).
--
-- How code becomes definitions: a method that changes `self` is a function from its arguments and the
-- state to the new state and the result; a parameter that the code reads from outside (the clock, a
-- running event loop, whether a system call succeeds, a probe's answer) is an argument. Names are those
-- of the code, without the leading underscore; where a method has several stages, each stage is a function.
-- A Python dict is a list of pairs in insertion order (Prelude/Dict.antt), a set is a list that only
-- `sorted` and membership read, None is `none`, and an exception that leaves a method is a constructor.
--
-- Bounds. Loops are structural recursions over their lists. Four loops run on a condition, here on fuel.
-- The `while` of `remember_dub` has the length of the dict: each round drops an entry. The `while` of
-- `_enforce_size_cap` has the number of rows: each round deletes one. The `while` of `find` has the
-- number of calls of `union`: a path grows by at most one in a call, and halving never makes one longer. The
-- `while` of `round_robin_dedup` has its budget: each round with progress collects an item, and one
-- without ends it. The pages and the passes of a crawl are counted by the code itself.
-- Times are whole clock units. The health thresholds are thousandths and the finished share is
-- twentieths; both give the answers of the code's floating-point tests for windows of at most twenty
-- samples and positions below 2^53 ticks. Shares of a listing are kept as a count and a total.
--
-- Taken from outside as parameters: `json.loads` and `json.dumps`, the adapters that Storage is given,
-- UTF-8 encoding, `date.isoformat` with its order (CrawlGuard/Dates.antt), the search for a 403,
-- `uuid.uuid5`, `urllib.parse.quote`, SHA-1, the regular expressions of titles,
-- httpx's headers, the torrent engine, the origin's answers, the providers' answers, the catalog's
-- resolver, `close_client` and the issue tracker; how the tasks of a search end and in which order, the gate of
-- subscriptions, the session of uakino, a section's pages, whether SQLite takes a batch of rows, the
-- genres of a profile, `str.lower` and `str.isalnum`.
--
-- Not modelled: the scrapers (providers, extractors), the routes (main.py, jellyfin, native), the HTTP
-- client, the adapter of the torrent engine, the browser session and the language model, which are I/O;
-- the episode ids of wire_identity.py, the scores of recommend.py, the build of the home snapshot and the
-- resolution of an item (snapshot.py, resolution.py and warm.py of _catalog_state), and the SQL, the ranking
-- and the hints of catalog_index.py, which are left for a later extension; log lines, reason texts and report files;
-- the thread-based `DebouncedSave`; and the adapters of resume_store.py's file.
pub mod Prelude
pub mod Models
pub mod Cache
pub mod Health
pub mod Watchdog
pub mod CrawlGuard
pub mod Storage
pub mod Resume
pub mod UserState
pub mod PlayAttestation
pub mod Drift
pub mod Filters
pub mod RowKinds
pub mod CatalogWarm
pub mod Merge
pub mod WireIdentity
pub mod TorrentLane
pub mod PlayRequest
pub mod HttpCache
pub mod Recommend
pub mod CatalogState
pub mod MergedSearch
pub mod Home
pub mod CatalogCrawl
pub mod Examples
