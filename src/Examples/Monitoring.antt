-- ===== src/Examples/Monitoring.antt =====
-- backend/cs_uk_api/health.py, watchdog.py and play_attestation.py at concrete inputs.
use ps4_uk_stream.Prelude.{
  ℕ, ◌+◌, ◌≡◌, refl, Bool, true, false, none, some, List, [], ◌∷◌, arith, nat_eq, string_eq,
  count_if,
}
use ps4_uk_stream.Prelude.Dict
use ps4_uk_stream.Health.{HealthStatus, HealthTracker, default_tracker, new, status, rate_status}
use ps4_uk_stream.Health.Window.{record_all, status-record_all}
use ps4_uk_stream.Watchdog.{HealthSource, Watchdog}
use ps4_uk_stream.Watchdog.Spacing.{TickInput, reset_times, Spaced, reset_times-Spaced}
use ps4_uk_stream.PlayAttestation
use ps4_uk_stream.PlayAttestation.{PlayAttestationTracker, bucket_of}
use ps4_uk_stream.PlayAttestation.Counts
use ps4_uk_stream.PlayAttestation.Counts.{
  Event, code_count, says_served, says_refused, says_code, says_stopped, counts-record_all,
}

abbrev mixed : List Bool
mixed = true ∷ false ∷ false ∷ false ∷ false ∷ []

status-record_all_example :
    status "a" (record_all 4 "a" mixed default_tracker) ≡ HealthStatus.status_down
unfolding Dict.get new rate_status
status-record_all_example = status-record_all 4 "a" mixed default_tracker refl refl

-- A window of three samples
abbrev small : HealthTracker
unfolding new
small = new 3 2 400 800

abbrev wedged : HealthSource
wedged = record { status_of = λ p. HealthStatus.status_down; marker_of = λ p. none }

abbrev dog : Watchdog
dog = record {
  providers = "a" ∷ "b" ∷ [];
  cooldown_s = 300;
  last_reset_at = some 100;
  reset_count = 1;
}

abbrev at_time : ℕ → TickInput
at_time t = record { now = t; source = wedged; closed = some (t + 1) }

abbrev ticks : List TickInput
ticks = at_time 350 ∷ at_time 450 ∷ at_time 800 ∷ []

reset_times-Spaced_example : Spaced 300 (some 100) (reset_times ticks dog)
reset_times-Spaced_example =
    reset_times-Spaced ticks dog
      (omega arith, omega arith, (omega arith, omega arith, (omega arith, omega arith, tt)))

abbrev dead_lane : HealthTracker
dead_lane = record default_tracker {
  samples = ("a", false ∷ false ∷ false ∷ false ∷ false ∷ []) ∷ [];
}

abbrev lone_dog : Watchdog
lone_dog = record { providers = "a" ∷ []; cooldown_s = 300; last_reset_at = none; reset_count = 0 }

abbrev plays : List Event
plays =
    Event.play_served (some "a")
    ∷ Event.play_refused "t" (some "a") "i" none "stream"
    ∷ Event.play_stopped "u" none "i"
    ∷ []

abbrev attested : PlayAttestationTracker
attested = PlayAttestation.new 20

counts-record_all_example :
    let before = bucket_of "a" attested.buckets in
    let after = bucket_of "a" (Counts.record_all plays attested).buckets in
    (after.served ≡ before.served + count_if (says_served "a") plays)
    × (after.refused ≡ before.refused + count_if (says_refused "a") plays)
    × (code_count "unknown" after
        ≡ code_count "unknown" before + count_if (says_code "a" "unknown") plays)
    × (after.no_progress ≡ before.no_progress + count_if (says_stopped "a") plays)
counts-record_all_example = counts-record_all "a" "unknown" plays attested
