-- ===== src/Health/Window.antt =====
-- What a provider's status says about the outcomes recorded for it.
use ps4_uk_stream.Prelude.{
  ℕ, ◌-◌, ◌*◌, ◌≤◌, ◌<◌, min, String, ◌≡◌, refl, sym, ap, ◌∙◌, ◌≢◌, inl, inr, Bool, not, Option,
  none, some, List, [], ◌∷◌, ◌++◌, arith, Bool-cases, ◌==◌, nat_eq, string_eq, ==_iff, length,
  take_last, length-take_last, drop-length-le, take_last-take_last-append, take_last-append-ge,
  count_if-drop-le, count_if-eq-length-drop,
}
use ps4_uk_stream.Prelude.Dict
use mathlib.Core.List.{append-nil, append_assoc}
use ps4_uk_stream.Prelude.Dict.{Dict, get-put, get-put_self}
use ps4_uk_stream.Health.{
  HealthStatus, HealthTracker, record_sample, push_sample, status, samples_status, rate_status,
  failures,
}

-- The calls `record(provider_id, ok)` for each outcome in turn.
pub record_all : ℕ → String → List Bool → HealthTracker → HealthTracker
record_all now p [] t = t
record_all now p (ok ∷ oks) t = record_all now p oks (record_sample now p ok t)

-- The status of one provider does not change when an outcome of another is recorded.
status-record_sample_ne :
    (now : ℕ) (p q : String) (ok : Bool) (t : HealthTracker)
    → p ≢ q
    → status q (record_sample now p ok t) ≡ status q t
unfolding status record_sample rate_status samples_status
status-record_sample_ne now p q ok t h = elim (Bool-cases (p == q)) [
  | inl e ↦ absurd (h ((==_iff p q).0 e))
  | inr e ↦
      rw (get-put p q (push_sample t.window ok (Dict.get p t.samples)) t.samples, e) (ground arith)
]

abbrev pub seen : Option (List Bool) → List Bool
seen none = []
seen (some samples) = samples

seen-record_sample :
    (now : ℕ) (p : String) (ok : Bool) (t : HealthTracker)
    → seen (Dict.get p (record_sample now p ok t).samples)
      ≡ take_last t.window (seen (Dict.get p t.samples) ++ ok ∷ [])
unfolding record_sample
seen-record_sample now p ok t =
    rw (get-put_self p (push_sample t.window ok (Dict.get p t.samples)) t.samples)
      (unfold push_sample in ground arith)

seen-record_all :
    (now : ℕ) (p : String) (oks s : List Bool) (t : HealthTracker)
    → seen (Dict.get p t.samples) ≡ take_last t.window s
    → seen (Dict.get p (record_all now p oks t).samples) ≡ take_last t.window (s ++ oks)
unfolding record_all
seen-record_all now p [] s t h = rw append-nil h
seen-record_all now p (ok ∷ oks) s t h =
    seen-record_all now p oks (s ++ ok ∷ []) (record_sample now p ok t) (
      seen-record_sample now p ok t
      ∙ ap (λ l. take_last t.window (l ++ ok ∷ [])) h
      ∙ take_last-take_last-append t.window s (ok ∷ [])
      ∙ unfold record_sample in refl)
    ∙ (unfold record_sample in ap (take_last t.window) (append_assoc s (ok ∷ []) oks))

status-seen :
    (p : String) (t : HealthTracker)
    → Dict.get p t.markers ≡ none
    → status p t ≡ rate_status t (seen (Dict.get p t.samples))
unfolding status
status-seen p t h = ground arith

rate_status-record_all :
    (now : ℕ) (p : String) (oks l : List Bool) (t : HealthTracker)
    → rate_status (record_all now p oks t) l ≡ rate_status t l
unfolding record_all
rate_status-record_all now p [] l t = refl
rate_status-record_all now p (ok ∷ oks) l t =
    rate_status-record_all now p oks l (record_sample now p ok t)
    ∙ unfold record_sample rate_status in refl

markers-record_all :
    (now : ℕ) (p : String) (oks : List Bool) (t : HealthTracker)
    → (record_all now p oks t).markers ≡ t.markers
unfolding record_all
markers-record_all now p [] t = refl
markers-record_all now p (ok ∷ oks) t =
    markers-record_all now p oks (record_sample now p ok t) ∙ unfold record_sample in refl

-- From a tracker that has no startup marker and no sample for the provider, the status after any
-- outcomes is that of the last `window` outcomes alone, recomputed from the whole history.
pub status-record_all :
    (now : ℕ) (p : String) (oks : List Bool) (t : HealthTracker)
    → Dict.get p t.markers ≡ none
    → Dict.get p t.samples ≡ none
    → status p (record_all now p oks t) ≡ rate_status t (take_last t.window oks)
status-record_all now p oks t unmarked unseen =
    status-seen p (record_all now p oks t)
      (ap (Dict.get p) (markers-record_all now p oks t) ∙ unmarked)
    ∙ rate_status-record_all now p oks _ t
    ∙ ap (rate_status t) (
        seen-record_all now p oks [] t
          (ap seen unseen ∙ sym (drop-length-le (0 - t.window) [] (omega arith))))

seen_steady :
    (now : ℕ) (p : String) (oks : List Bool) (t : HealthTracker)
    → t.window ≤ length oks
    → 0 < length oks
    → seen (Dict.get p (record_all now p oks t).samples) ≡ take_last t.window oks
unfolding record_all
seen_steady now p [] t h pos = absurd (omega arith)
seen_steady now p (ok ∷ oks) t h pos =
    seen-record_all now p oks (seen (Dict.get p t.samples) ++ ok ∷ []) (record_sample now p ok t)
      (seen-record_sample now p ok t ∙ unfold record_sample in refl)
    ∙ (unfold record_sample in
        ap (take_last t.window) (append_assoc (seen (Dict.get p t.samples)) (ok ∷ []) oks)
        ∙ take_last-append-ge t.window (seen (Dict.get p t.samples)) (ok ∷ oks) h)

rate_status_clean :
    (t : HealthTracker) (l : List Bool)
    → 0 < t.degraded_at
    → 0 < t.down_at
    → failures l ≡ 0
    → rate_status t l ≡ HealthStatus.status_ok
unfolding rate_status
rate_status_clean t [] d e h = ground arith
rate_status_clean t (x ∷ l) d e h = grind arith

rate_status_dirty :
    (t : HealthTracker) (l : List Bool)
    → t.down_at ≤ 1000
    → t.min_samples ≤ length l
    → 0 < length l
    → failures l ≡ length l
    → rate_status t l ≡ HealthStatus.status_down
unfolding rate_status
rate_status_dirty t [] d e f h = absurd (omega arith)
rate_status_dirty t (x ∷ l) d e f h =
    let bound : t.down_at * length (x ∷ l) ≤ 1000 * length (x ∷ l) = grind arith in
    let all_bad : 1000 * failures (x ∷ l) ≡ 1000 * length (x ∷ l) = omega arith in
    ground (arith, bound, all_bad)

-- Whatever was recorded before, successes in a row that fill the window, one at least, make an
-- unmarked provider ok, when both thresholds are positive.
status-record_all_recovers :
    (now : ℕ) (p : String) (oks : List Bool) (t : HealthTracker)
    → Dict.get p t.markers ≡ none
    → 0 < t.degraded_at
    → 0 < t.down_at
    → t.window ≤ length oks
    → 0 < length oks
    → failures oks ≡ 0
    → status p (record_all now p oks t) ≡ HealthStatus.status_ok
status-record_all_recovers now p oks t unmarked deg down full pos good =
    status-seen p (record_all now p oks t)
      (ap (Dict.get p) (markers-record_all now p oks t) ∙ unmarked)
    ∙ rate_status-record_all now p oks _ t
    ∙ ap (rate_status t) (seen_steady now p oks t full pos)
    ∙ rate_status_clean t (take_last t.window oks) deg down
        (omega (arith, count_if-drop-le not (length oks - t.window) oks))

-- Whatever was recorded before, failures in a row that fill the window take an unmarked provider
-- down, when the window is not empty and holds the minimal number of samples, and the threshold for
-- down is at most 1.
status-record_all_down :
    (now : ℕ) (p : String) (oks : List Bool) (t : HealthTracker)
    → Dict.get p t.markers ≡ none
    → t.down_at ≤ 1000
    → t.min_samples ≤ t.window
    → 0 < t.window
    → t.window ≤ length oks
    → failures oks ≡ length oks
    → status p (record_all now p oks t) ≡ HealthStatus.status_down
status-record_all_down now p oks t unmarked down min pos full bad =
    status-seen p (record_all now p oks t)
      (ap (Dict.get p) (markers-record_all now p oks t) ∙ unmarked)
    ∙ rate_status-record_all now p oks _ t
    ∙ ap (rate_status t) (seen_steady now p oks t full (omega arith))
    ∙ rate_status_dirty t (take_last t.window oks) down
        (omega (arith, length-take_last t.window oks))
        (omega (arith, length-take_last t.window oks))
        (count_if-eq-length-drop not (length oks - t.window) oks bad)
