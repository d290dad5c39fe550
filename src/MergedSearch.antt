-- ===== src/MergedSearch.antt =====
-- backend/cs_uk_api/_catalog_state/search.py: `merged_search`. How the tasks of the fan-out ended, and in
-- which order, is an argument, and so are the state of the uakino session, the subscription gate and its
-- time limit. The messages of failures are left out.
pub mod Search
pub mod Repeats
pub mod Answers
pub mod Order
use ps4_uk_stream.Prelude.{
  ℕ, String, Bool, true, false, Option, none, some, List, [], ◌∷◌, ◌++◌, if◌then◌else◌, nat_eq,
  string_eq, keep,
}
use ps4_uk_stream.Prelude.Dict
use ps4_uk_stream.Prelude.Dict.{Dict}
use ps4_uk_stream.Cache
use ps4_uk_stream.Cache.{TtlCache}
use ps4_uk_stream.Health.{HealthTracker, record_sample, record_verdict}
use ps4_uk_stream.Resume.{Shelf}
use ps4_uk_stream.Filters.{matches_axes}
use ps4_uk_stream.Models.{MediaForm, MediaStyle, SearchResult, SearchGroup}
use ps4_uk_stream.Merge.{TitleRules, MergeGroup, merge_results}
use ps4_uk_stream.WireIdentity.{GroupProjection, project_group}

pub record ProviderFailure : Type 0 where
  pub provider : String
  pub code : String

pub record SearchResponse : Type 0 where
  pub query : String
  pub groups : List SearchGroup
  pub failures : List ProviderFailure

-- How a finished task ended: with results, with an exception that `run` caught (a timeout or another),
-- with one that it did not catch, or cancelled
pub data Ended : Type 0 where
  found : List SearchResult → Ended
  timed_out unreachable escaped cancelled : Ended

-- What leaves `merged_search`
pub data Reply : Type 0 where
  answered : SearchResponse → Reply
  search_timeout not_ready unknown_provider : Reply

-- A registered provider
pub record Provider : Type 0 where
  pub id : String
  pub can_gate : Bool

-- The state that a search changes
pub record SearchState : Type 0 where
  pub shelf : Shelf
  pub search_cache : TtlCache SearchResponse
  pub tracker : HealthTracker

-- `done`, in the order in which it is walked, and `pending`
pub record FanOut : Type 0 where
  pub done : List (String × Ended)
  pub pending : List String

-- `results_by_pid`, `failures_by_pid` and the tracker
pub record Collected : Type 0 where
  pub results : Dict String (List SearchResult)
  pub failures : Dict String ProviderFailure
  pub tracker : HealthTracker

abbrev pub failure : String → String → ProviderFailure
failure pid code = record { provider = pid; code = code }

-- One finished task
unfoldable pub collect_one : ℕ → String → Ended → Collected → Collected
collect_one now pid (found results) c = record c {
  results = Dict.put pid results c.results;
  tracker = record_sample now pid true c.tracker;
}
collect_one now pid timed_out c = record c {
  failures = Dict.put pid (failure pid "timeout") c.failures;
  tracker = record_verdict now pid (some "timeout") c.tracker;
}
collect_one now pid unreachable c = record c {
  failures = Dict.put pid (failure pid "upstream_unreachable") c.failures;
  tracker = record_verdict now pid (some "upstream_unreachable") c.tracker;
}
collect_one now pid escaped c = record c {
  failures = Dict.put pid (failure pid "internal") c.failures;
  tracker = record_verdict now pid none c.tracker;
}
collect_one now pid cancelled c = c

unfoldable pub collect_done : ℕ → List (String × Ended) → Collected → Collected
unfolding collect_one
collect_done now [] c = c
collect_done now ((pid, ended) ∷ done) c = collect_done now done (collect_one now pid ended c)

-- The tasks that the budget cut off
unfoldable pub collect_pending : ℕ → List String → Collected → Collected
collect_pending now [] c = c
collect_pending now (pid ∷ pending) c = collect_pending now pending (record c {
  failures = Dict.put pid (failure pid "timeout") c.failures;
  tracker = record_verdict now pid (some "timeout") c.tracker;
})

-- `results_by_pid[prov.id] = ...`, unless the check of the gate runs out of time
abbrev pub gated :
    String
    → Option (List SearchResult)
    → Dict String (List SearchResult)
    → Dict String (List SearchResult)
gated pid none results = results
gated pid (some checked) results = Dict.put pid checked results

abbrev pub gate_one :
    (String → List SearchResult → Option (List SearchResult))
    → String
    → Option (List SearchResult)
    → Dict String (List SearchResult)
    → Dict String (List SearchResult)
gate_one gate pid none results = results
gate_one gate pid (some items) results = gated pid (gate pid items) results

unfoldable pub sweep :
    (String → List SearchResult → Option (List SearchResult))
    → List Provider
    → Dict String (List SearchResult)
    → Dict String (List SearchResult)
sweep gate [] results = results
sweep gate (prov ∷ providers) results =
    sweep gate providers
      (if prov.can_gate then gate_one gate prov.id (Dict.get prov.id results) results else results)

abbrev pub or_none {ℓ} : {A : Type ℓ} → Option (List A) → List A
or_none none = []
or_none (some xs) = xs

abbrev pub as_list {ℓ} : {A : Type ℓ} → Option A → List A
as_list none = []
as_list (some a) = a ∷ []

-- Results and failures in the order of the registry
unfoldable pub emit_results : List Provider → Dict String (List SearchResult) → List SearchResult
emit_results [] results = []
emit_results (prov ∷ providers) results =
    or_none (Dict.get prov.id results) ++ emit_results providers results

unfoldable pub emit_failures : List Provider → Dict String ProviderFailure → List ProviderFailure
emit_failures [] failures = []
emit_failures (prov ∷ providers) failures =
    as_list (Dict.get prov.id failures) ++ emit_failures providers failures

-- `if form is not None or style_filter is not None`
abbrev pub on_axes :
    Option MediaForm → Option (List MediaStyle) → List SearchResult → List SearchResult
on_axes none none results = results
on_axes form style_filter results = keep (λ r. matches_axes r form style_filter) results

-- The group of a projection; a merged group has a source, so there is one.
abbrev pub group_of : Option GroupProjection → List SearchGroup
group_of none = []
group_of (some proj) =
    record {
      group_key = proj.key;
      title = proj.title;
      year = proj.year;
      poster = proj.poster;
      form = proj.form;
      styles = proj.styles;
      genres = proj.genres;
      sources = proj.sources;
      member_keys = proj.member_keys;
    }
    ∷ []

unfoldable pub groups_of : (SearchResult → String) → List MergeGroup → List SearchGroup
groups_of key_of [] = []
groups_of key_of (mg ∷ groups) = group_of (project_group key_of mg) ++ groups_of key_of groups

-- `not done and failures`
abbrev pub all_timed_out : List (String × Ended) → List ProviderFailure → Bool
all_timed_out [] [] = false
all_timed_out [] (f ∷ fs) = true
all_timed_out (d ∷ ds) fs = false

module _ (rules : TitleRules) (providers : List Provider)
    (gate : String → List SearchResult → Option (List SearchResult)) where
  -- The response from what the fan-out left: `none` is the 502 of a search that timed out everywhere.
  unfoldable pub respond :
      String
      → Option MediaForm
      → Option (List MediaStyle)
      → List (String × Ended)
      → Collected
      → Option SearchResponse
  unfolding sweep emit_results emit_failures groups_of merge_results
  respond q form style_filter done c =
      let failures = emit_failures providers c.failures in
      let out_results =
        on_axes form style_filter (emit_results providers (sweep gate providers c.results)) in
      if all_timed_out done failures
      then none
      else some record {
        query = q;
        groups = groups_of rules.item_group_key (merge_results rules out_results);
        failures = failures;
      }
