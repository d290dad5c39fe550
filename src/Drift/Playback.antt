-- ===== src/Drift/Playback.antt =====
-- backend/cs_uk_api/drift/attestation.py: the playback verdict for the window between two sweeps. The
-- verdict's reason, a text for the report, is left out.
use ps4_uk_stream.Prelude.{
  ◌||◌, ℕ, ◌+◌, ◌-◌, ◌≤◌, ◌<◌, ◌≡◌, ◌↔◌, Option, none, some, arith, ltb, leb, eqb, if◌then◌else◌,
  nat_eq, string_eq,
}

pub record PlayCounters : Type 0 where
  pub served : ℕ
  pub no_progress : ℕ

pub data PlayVerdictKind : Type 0 where
  clean no_progress_fault no_evidence : PlayVerdictKind

pub record PlayVerdict : Type 0 where
  pub kind : PlayVerdictKind
  pub served_delta : ℕ
  pub no_progress_delta : ℕ

abbrev verdict : PlayVerdictKind → ℕ → ℕ → PlayVerdict
verdict kind served no_progress = record {
  kind = kind;
  served_delta = served;
  no_progress_delta = no_progress;
}

-- The tests after the counters were compared with the last ones.
unfoldable pub window_verdict : ℕ → ℕ → PlayVerdict
window_verdict served no_progress =
    if eqb served 0
    then verdict PlayVerdictKind.no_evidence 0 no_progress
    else if eqb no_progress 0
    then verdict PlayVerdictKind.clean served 0
    else if leb served no_progress
    then verdict PlayVerdictKind.no_progress_fault served no_progress
    else verdict PlayVerdictKind.clean served no_progress

unfoldable pub play_verdict : Option PlayCounters → PlayCounters → PlayVerdict
unfolding window_verdict
play_verdict none current = verdict PlayVerdictKind.no_evidence 0 0
play_verdict (some last) current =
    if ltb current.served last.served || ltb current.no_progress last.no_progress
    then verdict PlayVerdictKind.no_evidence 0 0
    else window_verdict (current.served - last.served) (current.no_progress - last.no_progress)

-- An accusation has evidence behind it, and the evidence accuses: the verdict is the fault exactly when
-- neither counter went back since the last sweep, some stream was served, and at least as many plays
-- stopped at zero progress as streams were served.
play_verdict-fault_iff :
    (last current : PlayCounters)
    → ((play_verdict (some last) current).kind ≡ PlayVerdictKind.no_progress_fault) ↔ (
        (last.served < current.served)
        × (last.no_progress ≤ current.no_progress)
        × (current.served - last.served ≤ current.no_progress - last.no_progress))
unfolding play_verdict
play_verdict-fault_iff last current =
    (λ h. (ground arith, ground arith, ground arith), λ h. ground arith)

pub record PlayState : Type 0 where
  pub play_failures : ℕ
  pub last_play : Option PlayCounters

-- One lane in the loop of `_sweep_playback`, without the issues that it files and closes
unfoldable pub sweep_lane : PlayCounters → PlayState → PlayState × PlayVerdictKind
sweep_lane current s = elim (play_verdict s.last_play current).kind [
  | no_progress_fault ↦ (
    record { play_failures = s.play_failures + 1; last_play = some current },
    PlayVerdictKind.no_progress_fault,
  )
  | clean ↦ (record { play_failures = 0; last_play = some current }, PlayVerdictKind.clean)
  | no_evidence ↦ (record s { last_play = some current }, PlayVerdictKind.no_evidence)
]
