-- ===== src/Drift/Monitor/Convergence.antt =====
-- What repeated sweeps of one provider lead to.
use ps4_uk_stream.Prelude.{
  ◌||◌, ◌||◌, ◌||◌, ◌||◌, ◌||◌, ◌||◌, ◌||◌, ◌||◌, ◌||◌, ℕ, zero, suc, ◌+◌, ◌≤◌, ◌<◌, ◌≡◌, refl, ◌≢◌,
  ◌⊎◌, inl, inr, true, false, not, ◌&&◌, Option, none, some, arith, ltb, leb, Bool-cases,
  Option-cases, nat_eq, string_eq,
}
use ps4_uk_stream.Drift.Baseline.{
  shape_recalibrate_after, ListingProbeResult, Signature, verdict_for, floor_reason, band_verdict,
  style_verdict, update_signature,
}
use ps4_uk_stream.Drift.Baseline.Calibration.{verdict_for-update_signature}
use ps4_uk_stream.Drift.Monitor.{
  maybe_close_issue, Ending, healthy_pass, maybe_file_issue, deep_ok, failing_pass, SweepState,
  Sweep, is_shape, sweep, next_streak,
}

-- The same answers, sweep after sweep.
pub again : ℕ → Sweep → SweepState → SweepState
again zero w s = s
again (suc n) w s = again n w (sweep w s).0

abbrev Accepts : Sweep → SweepState → Type 0
Accepts w s = (verdict_for w.listing s.signature).ok ≡ true

-- With usable data, a verdict that is not ok is a shape failure.
shape_of_usable :
    (result : ListingProbeResult) (signature : Option Signature)
    → floor_reason result ≡ none
    → (verdict_for result signature).ok ≡ false
    → is_shape (verdict_for result signature).kind ≡ true
unfolding verdict_for band_verdict style_verdict
shape_of_usable result none usable h = ground arith
shape_of_usable result (some signature) usable h = ground arith

verdict_of_Accepts :
    (w : Sweep) (s : SweepState)
    → deep_ok w.deep ≡ true
    → Accepts w s
    → sweep w s ≡ healthy_pass w s
unfolding sweep
verdict_of_Accepts w s deep h = rw (h, deep) refl

sweep_failing :
    (w : Sweep) (s : SweepState)
    → (verdict_for w.listing s.signature).ok && deep_ok w.deep ≡ false
    → sweep w s ≡ failing_pass w (next_streak (verdict_for w.listing s.signature) w s) s
unfolding sweep
sweep_failing w s h = rw h refl

sweep_shape :
    (w : Sweep) (s : SweepState)
    → deep_ok w.deep ≡ true
    → floor_reason w.listing ≡ none
    → (verdict_for w.listing s.signature).ok ≡ false
    → sweep w s ≡ failing_pass w (s.shape_streak + 1) s
sweep_shape w s deep usable h =
    rw (sweep_failing w s (rw h refl))
      (rw (shape_of_usable w.listing s.signature usable h, deep) refl)

again-Accepts :
    (n : ℕ) (w : Sweep) (s : SweepState)
    → deep_ok w.deep ≡ true
    → floor_reason w.listing ≡ none
    → Accepts w s
    → Accepts w (again n w s)
unfolding again
again-Accepts zero w s deep usable h = h
again-Accepts (suc n) w s deep usable h = again-Accepts n w (sweep w s).0 deep usable (
    rw (verdict_of_Accepts w s deep h)
      (unfold healthy_pass in verdict_for-update_signature w.listing s.signature usable))

failing_pass-adopts :
    (w : Sweep) (streak : ℕ) (s : SweepState)
    → leb shape_recalibrate_after streak ≡ true
    → (failing_pass w streak s).0.signature ≡ some (update_signature s.signature w.listing)
unfolding failing_pass
failing_pass-adopts w streak s h = rw h refl

failing_pass-waits :
    (w : Sweep) (streak : ℕ) (s : SweepState)
    → leb shape_recalibrate_after streak ≡ false
    → (failing_pass w streak s).0.shape_streak ≡ streak
unfolding failing_pass
failing_pass-waits w streak s h = rw h refl

again_after_failure :
    (n : ℕ) (w : Sweep) (s : SweepState)
    → deep_ok w.deep ≡ true
    → floor_reason w.listing ≡ none
    → shape_recalibrate_after ≤ suc n + s.shape_streak
    → ((t : SweepState)
        → 0 < n
        → shape_recalibrate_after ≤ n + t.shape_streak
        → Accepts w (again n w t))
    → Accepts w (again n w (failing_pass w (s.shape_streak + 1) s).0)
again_after_failure n w s deep usable enough rest =
    elim (Bool-cases (leb shape_recalibrate_after (s.shape_streak + 1))) [
      | inl adopted ↦ again-Accepts n w (failing_pass w (s.shape_streak + 1) s).0 deep usable (
          rw (failing_pass-adopts w (s.shape_streak + 1) s adopted)
            (verdict_for-update_signature w.listing s.signature usable))
      | inr waits ↦
          rest (failing_pass w (s.shape_streak + 1) s).0 (ground arith)
            (rw (failing_pass-waits w (s.shape_streak + 1) s waits) (omega arith))
    ]

again_converges :
    (n : ℕ) (w : Sweep) (s : SweepState)
    → deep_ok w.deep ≡ true
    → floor_reason w.listing ≡ none
    → 0 < n
    → shape_recalibrate_after ≤ n + s.shape_streak
    → Accepts w (again n w s)
unfolding again
again_converges zero w s deep usable pos enough = absurd (omega arith)
again_converges (suc n) w s deep usable pos enough =
    elim (Bool-cases (verdict_for w.listing s.signature).ok) [
      | inl good ↦ again-Accepts (suc n) w s deep usable good
      | inr moved ↦
          rw (again, sweep_shape w s deep usable moved)
            (again_after_failure n w s deep usable enough
              (λ t pot e. again_converges n w t deep usable pot e))
    ]

-- The monitor converges on a provider that serves: when the same usable listing, with no failing deep
-- probe, is seen sweep after sweep, then from any state the fourth sweep passes, the failure counters
-- are 0 after it, and with a working issue tracker no drift issue of the provider stays open.
pub sweep_converges :
    (w : Sweep) (s : SweepState)
    → deep_ok w.deep ≡ true
    → floor_reason w.listing ≡ none
    → ((sweep w (again 3 w s)).1 ≡ Ending.passed)
      × ((sweep w (again 3 w s)).0.consecutive_failures ≡ 0)
      × ((sweep w (again 3 w s)).0.shape_streak ≡ 0)
      × (w.skip_issues ≡ false
          → w.tracker_works ≡ true
          → (sweep w (again 3 w s)).0.issue_open ≡ false)
sweep_converges w s deep usable =
    rw
      (verdict_of_Accepts w (again 3 w s) deep
        (again_converges 3 w s deep usable (omega arith) (omega arith)))
      (unfold healthy_pass maybe_close_issue in (refl, refl, refl, λ handled works. ground arith))

-- Below a hard floor no signature accepts the listing, and the failure is not of its shape.
verdict_for-floor :
    (result : ListingProbeResult) (signature : Option Signature)
    → floor_reason result ≢ none
    → ((verdict_for result signature).ok ≡ false)
      × (is_shape (verdict_for result signature).kind ≡ false)
unfolding verdict_for
verdict_for-floor result signature broken = elim (Option-cases (floor_reason result)) [
  | inl usable ↦ absurd (broken usable)
  | inr (reason, h) ↦ rw (verdict_for, h) (refl, refl)
]

broken_fails :
    (w : Sweep) (s : SweepState)
    → (floor_reason w.listing ≢ none) ⊎ (deep_ok w.deep ≡ false)
    → (verdict_for w.listing s.signature).ok && deep_ok w.deep ≡ false
broken_fails w s (inl floor) = rw ((verdict_for-floor w.listing s.signature floor).0) refl
broken_fails w s (inr deep) = rw deep (ground arith)

broken_streak :
    (w : Sweep) (s : SweepState)
    → (floor_reason w.listing ≢ none) ⊎ (deep_ok w.deep ≡ false)
    → next_streak (verdict_for w.listing s.signature) w s ≡ 0
broken_streak w s (inl floor) = rw ((verdict_for-floor w.listing s.signature floor).1) refl
broken_streak w s (inr deep) = rw deep (ground arith)

-- A provider without usable data, or whose deep probe failed, is never adopted: the sweep fails, keeps
-- the baseline, starts the shape streak again, counts one more
-- failure in a row, and has an open drift issue afterwards if it had one before, or if issues are handled,
-- the tracker works and this is at least the second failure.
sweep_broken :
    (w : Sweep) (s : SweepState)
    → (floor_reason w.listing ≢ none) ⊎ (deep_ok w.deep ≡ false)
    → ((sweep w s).1 ≡ Ending.failed)
      × ((sweep w s).0.signature ≡ s.signature)
      × ((sweep w s).0.shape_streak ≡ 0)
      × ((sweep w s).0.consecutive_failures ≡ s.consecutive_failures + 1)
      × ((sweep w s).0.issue_open ≡ (
          s.issue_open || (not w.skip_issues && (w.tracker_works && ltb 0 s.consecutive_failures))))
sweep_broken w s broken =
    rw (sweep_failing w s (broken_fails w s broken), broken_streak w s broken)
      (unfold failing_pass maybe_file_issue in (refl, refl, refl, refl, ground arith))
