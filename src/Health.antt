-- ===== src/Health.antt =====
-- backend/cs_uk_api/health.py: the sliding-window health tracker. The thresholds are in
-- thousandths (0.8 is 800), so that a rate is compared exactly; on every window of at most the
-- default twenty samples the code's floating-point tests at 0.4 and 0.8 give the same answers.
-- `datetime.now` is the argument `now`.
pub mod Window
use ps4_uk_stream.Prelude.{
  ◌||◌, ℕ, ◌*◌, String, Bool, false, not, Option, none, some, List, [], ◌∷◌, ◌++◌, ltb, leb, eqb,
  if◌then◌else◌, ◌==◌, nat_eq, string_eq, length, any, count_if, take_last,
}
use ps4_uk_stream.Prelude.Dict
use ps4_uk_stream.Prelude.Dict.{Dict}

pub data HealthStatus : Type 0 where
  status_ok status_degraded status_down : HealthStatus

pub record HealthTracker : Type 0 where
  pub window : ℕ
  pub min_samples : ℕ
  pub degraded_at : ℕ
  pub down_at : ℕ
  pub samples : Dict String (List Bool)
  pub errors : Dict String ℕ
  pub markers : Dict String String

-- `__init__`
unfoldable pub new : ℕ → ℕ → ℕ → ℕ → HealthTracker
new window min_samples degraded_at down_at = record {
  window = window;
  min_samples = min_samples;
  degraded_at = degraded_at;
  down_at = down_at;
  samples = [];
  errors = [];
  markers = [];
}

-- `TRACKER = HealthTracker()`
abbrev pub default_tracker : HealthTracker
unfolding new
default_tracker = new 20 5 400 800

-- `samples.append(ok)` on a `deque(maxlen=window)`, made empty when the provider is new.
unfoldable pub push_sample : ℕ → Bool → Option (List Bool) → List Bool
push_sample window ok none = take_last window (ok ∷ [])
push_sample window ok (some samples) = take_last window (samples ++ ok ∷ [])

-- `record`
unfoldable pub record_sample : ℕ → String → Bool → HealthTracker → HealthTracker
unfolding push_sample
record_sample now provider_id ok t = record t {
  samples =
      Dict.put provider_id (push_sample t.window ok (Dict.get provider_id t.samples)) t.samples;
  errors = if ok then t.errors else Dict.put provider_id now t.errors;
}

unfoldable pub mark_startup : String → String → HealthTracker → HealthTracker
mark_startup provider_id reason t = record t { markers = Dict.put provider_id reason t.markers }

unfoldable pub startup_marker : String → HealthTracker → Option String
startup_marker provider_id t = Dict.get provider_id t.markers

abbrev pub failures : List Bool → ℕ
failures = count_if not

-- The tests on `error_rate`, for a window with samples.
unfoldable pub rate_status : HealthTracker → List Bool → HealthStatus
rate_status t samples =
    if ltb (length samples) t.min_samples || eqb (length samples) 0
    then HealthStatus.status_ok
    else if leb (t.down_at * length samples) (1000 * failures samples)
    then HealthStatus.status_down
    else if leb (t.degraded_at * length samples) (1000 * failures samples)
    then HealthStatus.status_degraded
    else HealthStatus.status_ok

unfoldable pub samples_status : HealthTracker → Option (List Bool) → HealthStatus
unfolding rate_status
samples_status t none = HealthStatus.status_ok
samples_status t (some samples) = rate_status t samples

unfoldable pub status : String → HealthTracker → HealthStatus
unfolding samples_status
status provider_id t =
    if Dict.member provider_id t.markers
    then HealthStatus.status_down
    else samples_status t (Dict.get provider_id t.samples)

unfoldable pub last_error_at : String → HealthTracker → Option ℕ
last_error_at provider_id t = Dict.get provider_id t.errors

unfoldable pub reset : HealthTracker → HealthTracker
reset t = record t { samples = []; errors = []; markers = [] }

-- `ITEM_VERDICT_CODES`
abbrev pub item_verdict_codes : List String
item_verdict_codes = "gated" ∷ "not_found" ∷ "invalid_translation" ∷ "translation_missing" ∷ []

-- `LANE_VERDICT_CODES`
abbrev pub lane_verdict_codes : List String
lane_verdict_codes =
    "unreachable" ∷ "upstream_unreachable" ∷ "parse_failed" ∷ "timeout" ∷ "internal" ∷ []

unfoldable pub is_classified : String → Bool
is_classified code =
    any (λ c. c == code) item_verdict_codes || any (λ c. c == code) lane_verdict_codes

-- `record_verdict`: an item-level code is not recorded; no code, or any other, is a lane fault.
unfoldable pub record_verdict : ℕ → String → Option String → HealthTracker → HealthTracker
record_verdict now provider_id none t = record_sample now provider_id false t
record_verdict now provider_id (some code) t =
    if any (λ c. c == code) item_verdict_codes then t else record_sample now provider_id false t
