-- ===== src/Examples/Drift.antt =====
-- backend/cs_uk_api/drift at concrete inputs.
use ps4_uk_stream.Prelude.{ℕ, ◌≡◌, refl, ◌≢◌, true, false, none, some, [], ◌∷◌, nat_eq, string_eq}
use ps4_uk_stream.Prelude.Texts.{strip}
use ps4_uk_stream.Models.{MediaForm, SearchResult}
use ps4_uk_stream.Drift.Playback.{PlayCounters}
use ps4_uk_stream.Drift.Baseline.{
  ListingProbeResult, verdict_for, update_signature, floor_reason, fields_present,
}
use ps4_uk_stream.Drift.Baseline.Calibration.{verdict_for-update_signature}
use ps4_uk_stream.Drift.Monitor.{Sweep, SweepState, Ending, sweep}
use ps4_uk_stream.Drift.Monitor.Convergence.{again, sweep_converges}

abbrev counters : ℕ → ℕ → PlayCounters
counters served no_progress = record { served = served; no_progress = no_progress }

abbrev card : SearchResult
card = record {
  id = "p:1";
  provider = "p";
  form = MediaForm.series;
  title = "Dune";
  year = none;
  poster = none;
  url = "u";
  styles = [];
  genres = [];
  imdb_id = none;
}

abbrev page : ListingProbeResult
page = record { ok = true; cards = card ∷ card ∷ card ∷ card ∷ card ∷ card ∷ [] }

page_usable : floor_reason page ≡ none
unfolding floor_reason fields_present strip
page_usable = refl

verdict_for-update_signature_example :
    (verdict_for page (some (update_signature none page))).ok ≡ true
verdict_for-update_signature_example = verdict_for-update_signature page none page_usable

-- The baseline is of a longer listing, so the first sweeps fail.
abbrev before : SweepState
before = record {
  consecutive_failures = 0;
  shape_streak = 0;
  signature = some (record {
    count_low = 20;
    count_high = 30;
    form_frac = [];
    style_frac = [];
    fields_ok = true;
  });
  issue_open = false;
}

abbrev good : Sweep
good = record { listing = page; deep = none; skip_issues = false; tracker_works = true }

sweep_converges_example :
    ((sweep good (again 3 good before)).1 ≡ Ending.passed)
    × ((sweep good (again 3 good before)).0.consecutive_failures ≡ 0)
    × ((sweep good (again 3 good before)).0.shape_streak ≡ 0)
    × (good.skip_issues ≡ false
        → good.tracker_works ≡ true
        → (sweep good (again 3 good before)).0.issue_open ≡ false)
sweep_converges_example = sweep_converges good before refl page_usable

abbrev dead : Sweep
dead = record {
  listing = record { ok = false; cards = [] };
  deep = none;
  skip_issues = false;
  tracker_works = true;
}

dead_floor : floor_reason dead.listing ≢ none
unfolding floor_reason
dead_floor e = cc
