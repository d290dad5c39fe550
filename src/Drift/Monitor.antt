-- ===== src/Drift/Monitor.antt =====
-- backend/cs_uk_api/drift/monitor.py: the bookkeeping of one sweep for one provider, in `run_once`. The
-- probes and the issue tracker are outside: their answers are arguments.
pub mod Convergence
use ps4_uk_stream.Prelude.{
  ◌||◌, ℕ, ◌+◌, Bool, true, false, not, ◌&&◌, Option, none, some, ltb, leb, if◌then◌else◌, nat_eq,
  string_eq,
}
use ps4_uk_stream.Drift.Baseline.{
  ListingProbeResult, Signature, Verdict, DriftKind, shape_recalibrate_after, verdict_for,
  update_signature,
}

-- The listing axis of `ProviderState`, and whether the provider's drift issue is open.
pub record SweepState : Type 0 where
  pub consecutive_failures : ℕ
  pub shape_streak : ℕ
  pub signature : Option Signature
  pub issue_open : Bool

-- How a sweep of the provider ends.
pub data Ending : Type 0 where
  passed failed recalibrated : Ending

-- What the environment answers: the listing, the deep probe if there was one, whether issues are
-- handled, and whether the issue tracker works.
pub record Sweep : Type 0 where
  pub listing : ListingProbeResult
  pub deep : Option Bool
  pub skip_issues : Bool
  pub tracker_works : Bool

-- `deep is None or deep.ok`
abbrev pub deep_ok : Option Bool → Bool
deep_ok none = true
deep_ok (some ok) = ok

-- `_maybe_file_issue`: on the second failure in a row; an open issue is reused.
unfoldable pub maybe_file_issue : Bool → ℕ → Bool → Bool
maybe_file_issue tracker_works consecutive_failures issue_open =
    if ltb consecutive_failures 2 then issue_open else issue_open || tracker_works

-- `_maybe_close_issue`, by `_maybe_close_recovered` and `_maybe_close_recalibrated`
unfoldable pub maybe_close_issue : Bool → Bool → Bool
maybe_close_issue tracker_works issue_open = issue_open && not tracker_works

abbrev pub is_shape : DriftKind → Bool
is_shape DriftKind.shape = true
is_shape _ = false

-- `verdict_ok`: a healthy pass
unfoldable pub healthy_pass : Sweep → SweepState → SweepState × Ending
unfolding maybe_close_issue
healthy_pass w s = (
  record {
    consecutive_failures = 0;
    shape_streak = 0;
    signature = some (update_signature s.signature w.listing);
    issue_open =
        if w.skip_issues then s.issue_open else maybe_close_issue w.tracker_works s.issue_open;
  },
  Ending.passed,
)

-- The branch of a failure once `shape_streak` is set to `streak`
unfoldable pub failing_pass : Sweep → ℕ → SweepState → SweepState × Ending
unfolding maybe_file_issue maybe_close_issue
failing_pass w streak s =
    if leb shape_recalibrate_after streak
    then (
      record {
        consecutive_failures = 0;
        shape_streak = 0;
        signature = some (update_signature s.signature w.listing);
        issue_open =
            if w.skip_issues then s.issue_open else maybe_close_issue w.tracker_works s.issue_open;
      },
      Ending.recalibrated,
    )
    else (
      record s {
        consecutive_failures = s.consecutive_failures + 1;
        shape_streak = streak;
        issue_open =
            if w.skip_issues
            then s.issue_open
            else maybe_file_issue w.tracker_works (s.consecutive_failures + 1) s.issue_open;
      },
      Ending.failed,
    )

-- `state.shape_streak + 1` after a shape failure with a good deep probe, and 0 after any other
abbrev pub next_streak : Verdict → Sweep → SweepState → ℕ
next_streak verdict w s = if is_shape verdict.kind && deep_ok w.deep then s.shape_streak + 1 else 0

unfoldable pub sweep : Sweep → SweepState → SweepState × Ending
unfolding healthy_pass failing_pass
sweep w s =
    let verdict = verdict_for w.listing s.signature in
    if verdict.ok && deep_ok w.deep
    then healthy_pass w s
    else failing_pass w (next_streak verdict w s) s
