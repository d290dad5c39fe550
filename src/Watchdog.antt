-- ===== src/Watchdog.antt =====
-- backend/cs_uk_api/watchdog.py: `WedgedClientWatchdog`. The tracker is the protocol `HealthSource`, the
-- providers are the keys of the registry in order, and the readings of `time.monotonic()` are arguments.
-- `close_client` belongs to the HTTP client: its outcome is an argument.
pub mod Spacing
use ps4_uk_stream.Prelude.{
  ℕ, ◌+◌, ◌-◌, String, Bool, true, false, Option, none, some, List, [], ◌∷◌, ltb, if◌then◌else◌,
  nat_eq, string_eq, all, keep,
}
use ps4_uk_stream.Health.{HealthStatus, HealthTracker, status, startup_marker}

-- The protocol `HealthSource`
pub record HealthSource : Type 0 where
  pub status_of : String → HealthStatus
  pub marker_of : String → Option String

unfoldable pub tracker_source : HealthTracker → HealthSource
tracker_source t = record { status_of = λ p. status p t; marker_of = λ p. startup_marker p t }

pub record Watchdog : Type 0 where
  pub providers : List String
  pub cooldown_s : ℕ
  pub last_reset_at : Option ℕ
  pub reset_count : ℕ

-- `__init__`
unfoldable pub new : List String → ℕ → Watchdog
new providers cooldown_s = record {
  providers = providers;
  cooldown_s = cooldown_s;
  last_reset_at = none;
  reset_count = 0;
}

abbrev pub is_down : HealthStatus → Bool
is_down HealthStatus.status_down = true
is_down _ = false

-- `relevant`: the providers that no startup marker pins.
unfoldable pub relevant : HealthSource → List String → List String
relevant source providers =
    keep (λ p. elim (source.marker_of p) [ none ↦ true | some _ ↦ false ]) providers

-- `if not relevant: return False`, then the test of each.
unfoldable pub down_together : HealthSource → List String → Bool
down_together source [] = false
down_together source (p ∷ ps) = all (λ q. is_down (source.status_of q)) (p ∷ ps)

unfoldable pub all_relevant_down : HealthSource → Watchdog → Bool
unfolding relevant down_together
all_relevant_down source w = down_together source (relevant source w.providers)

abbrev pub cooling : ℕ → ℕ → Option ℕ → Bool
cooling now cooldown_s none = false
cooling now cooldown_s (some at) = ltb (now - at) cooldown_s

unfoldable pub should_reset : ℕ → HealthSource → Watchdog → Bool
should_reset now source w =
    if all_relevant_down source w
    then (if cooling now w.cooldown_s w.last_reset_at then false else true)
    else false

-- What a tick does: nothing, a reset, or the exception of `close_client`.
pub data Tick : Type 0 where
  idle reset_done raised : Tick

-- The tick once `should_reset` holds; `closed` is the clock when `close_client` has returned, or none when
-- it raises.
abbrev pub close_and_count : Option ℕ → Watchdog → Watchdog × Tick
close_and_count none w = (w, Tick.raised)
close_and_count (some at) w =
    (record w { last_reset_at = some at; reset_count = w.reset_count + 1 }, Tick.reset_done)

unfoldable pub check_and_reset : ℕ → HealthSource → Option ℕ → Watchdog → Watchdog × Tick
check_and_reset now source closed w =
    if should_reset now source w then close_and_count closed w else (w, Tick.idle)

unfoldable pub reset : Watchdog → Watchdog
reset w = record w { last_reset_at = none; reset_count = 0 }
