-- ===== src/PlayAttestation/Counts.antt =====
-- The tracker against the log of the calls that it got.
use ps4_uk_stream.Prelude.{
  ℕ, ◌+◌, ◌-◌, String, ◌≡◌, refl, sym, ap, ◌∙◌, inl, inr, Bool, false, ◌&&◌, Option, none, some,
  List, [], ◌∷◌, ◌++◌, arith, if◌then◌else◌, Bool-cases, ◌==◌, nat_eq, string_eq, ==_refl, ==_iff,
  count_if, take_last, drop-length-le, take_last-take_last-append,
}
use mathlib.Core.List.{append-nil, append_assoc}
use ps4_uk_stream.Prelude.Dict
use ps4_uk_stream.Prelude.Dict.{Dict, get-put}
use ps4_uk_stream.PlayAttestation.{
  PlayAttestationTracker, Bucket, PlayFault, PlayOutcome, new, bucket_key, bucket_of, on_bucket,
  or_unknown, count_of, add_served, add_refused, add_no_progress, served, refused, no_progress,
}

-- A call of a recorder
pub data Event : Type 0 where
  play_served : Option String → Event
  play_refused : String → Option String → String → Option String → String → Event
  play_stopped : String → Option String → String → Event

pub record_event : Event → PlayAttestationTracker → PlayAttestationTracker
record_event (play_served p) t = served p t
record_event (play_refused now p i c s) t = refused now p i c s t
record_event (play_stopped now p i) t = no_progress now p i t

pub record_all : List Event → PlayAttestationTracker → PlayAttestationTracker
record_all [] t = t
record_all (e ∷ es) t = record_all es (record_event e t)

-- The specification: what each call says of a provider's key.
abbrev pub says_served : String → Event → Bool
says_served k (play_served p) = bucket_key p == k
says_served k (play_refused now p i c s) = false
says_served k (play_stopped now p i) = false

abbrev pub says_refused : String → Event → Bool
says_refused k (play_served p) = false
says_refused k (play_refused now p i c s) = bucket_key p == k
says_refused k (play_stopped now p i) = false

abbrev pub says_code : String → String → Event → Bool
says_code k code (play_served p) = false
says_code k code (play_refused now p i c s) = bucket_key p == k && or_unknown c == code
says_code k code (play_stopped now p i) = false

abbrev pub says_stopped : String → Event → Bool
says_stopped k (play_served p) = false
says_stopped k (play_refused now p i c s) = false
says_stopped k (play_stopped now p i) = bucket_key p == k

pub fault_of : Event → List PlayFault
fault_of (play_served p) = []
fault_of (play_refused now p i c s) =
    record {
      at = now;
      outcome = PlayOutcome.refused_play;
      provider = bucket_key p;
      item_id = i;
      code = c;
      surface = some s;
    }
    ∷ []
fault_of (play_stopped now p i) =
    record {
      at = now;
      outcome = PlayOutcome.no_progress_play;
      provider = bucket_key p;
      item_id = i;
      code = none;
      surface = none;
    }
    ∷ []

pub faults_of : List Event → List PlayFault
faults_of [] = []
faults_of (e ∷ es) = fault_of e ++ faults_of es

bucket_of-on_bucket :
    (k : String) (p : Option String) (change : Bucket → Bucket) (buckets : Dict String Bucket)
    → bucket_of k (on_bucket p change buckets)
      ≡ (if bucket_key p == k then change (bucket_of k buckets) else bucket_of k buckets)
unfolding bucket_of on_bucket
bucket_of-on_bucket k p change buckets = elim (Bool-cases (bucket_key p == k)) [
  | inl same ↦ rw (get-put, (==_iff (bucket_key p) k).0 same, ==_refl k) refl
  | inr other ↦ rw (get-put, other) refl
]

abbrev pub code_count : String → Bucket → ℕ
code_count code b = count_of (Dict.get code b.refused_codes)

-- One call adds what it says of the key.
count_event :
    (k code : String) (e : Event) (t : PlayAttestationTracker)
    → let before = bucket_of k t.buckets in
      let after = bucket_of k (record_event e t).buckets in
      (after.served ≡ before.served + (if says_served k e then 1 else 0))
      × (after.refused ≡ before.refused + (if says_refused k e then 1 else 0))
      × (code_count code after ≡ code_count code before + (if says_code k code e then 1 else 0))
      × (after.no_progress ≡ before.no_progress + (if says_stopped k e then 1 else 0))
unfolding record_event served refused no_progress
count_event k code (Event.play_served p) t =
    rw (bucket_of-on_bucket k p add_served t.buckets)
      (ground arith, ground arith, ground arith, ground arith)
count_event k code (Event.play_refused now p i c s) t =
    rw (bucket_of-on_bucket k p (add_refused (or_unknown c)) t.buckets) (
      ground arith,
      ground arith,
      ground (
        arith,
        get-put (or_unknown c) code (code_count (or_unknown c) (bucket_of k t.buckets) + 1)
            (bucket_of k t.buckets).refused_codes,
        ==_iff (or_unknown c) code,
      ),
      ground arith,
    )
count_event k code (Event.play_stopped now p i) t =
    rw (bucket_of-on_bucket k p add_no_progress t.buckets)
      (ground arith, ground arith, ground arith, ground arith)

-- The counters of a provider's bucket are the numbers of calls for it: served ones, refused ones, those
-- refused with each code, and stopped ones, from any state of the tracker.
pub counts-record_all :
    (k code : String) (es : List Event) (t : PlayAttestationTracker)
    → let before = bucket_of k t.buckets in
      let after = bucket_of k (record_all es t).buckets in
      (after.served ≡ before.served + count_if (says_served k) es)
      × (after.refused ≡ before.refused + count_if (says_refused k) es)
      × (code_count code after ≡ code_count code before + count_if (says_code k code) es)
      × (after.no_progress ≡ before.no_progress + count_if (says_stopped k) es)
unfolding record_all
counts-record_all k code [] t = (omega arith, omega arith, omega arith, omega arith)
counts-record_all k code (e ∷ es) t =
    let one = count_event k code e t in
    let rest = counts-record_all k code es (record_event e t) in
    (
      omega (arith, one.0, rest.0),
      omega (arith, one.1, rest.1),
      omega (arith, one.2, rest.2),
      omega (arith, one.3, rest.3),
    )

recent-record_event :
    (e : Event) (s : List PlayFault) (t : PlayAttestationTracker)
    → t.recent ≡ take_last t.recent_max s
    → (record_event e t).recent ≡ take_last t.recent_max (s ++ fault_of e)
unfolding record_event served refused no_progress fault_of
recent-record_event (Event.play_served p) s t h = rw append-nil h
recent-record_event (Event.play_refused now p i c u) s t h =
    rw h (take_last-take_last-append t.recent_max s _)
recent-record_event (Event.play_stopped now p i) s t h =
    rw h (take_last-take_last-append t.recent_max s _)

recent_max-record_event :
    (e : Event) (t : PlayAttestationTracker) → (record_event e t).recent_max ≡ t.recent_max
unfolding record_event served refused no_progress
recent_max-record_event (Event.play_served p) t = refl
recent_max-record_event (Event.play_refused now p i c u) t = refl
recent_max-record_event (Event.play_stopped now p i) t = refl

recent_from :
    (es : List Event) (s : List PlayFault) (t : PlayAttestationTracker)
    → t.recent ≡ take_last t.recent_max s
    → (record_all es t).recent ≡ take_last t.recent_max (s ++ faults_of es)
unfolding record_all faults_of
recent_from [] s t h = rw append-nil h
recent_from (e ∷ es) s t h =
    recent_from es (s ++ fault_of e) (record_event e t)
      (rw (recent_max-record_event e t) (recent-record_event e s t h))
    ∙ rw (recent_max-record_event e t)
        (ap (take_last t.recent_max) (append_assoc s (fault_of e) (faults_of es)))

-- The deque of faults is the last `recent_max` faults of the log, oldest first.
recent-record_all :
    (m : ℕ) (es : List Event) → (record_all es (new m)).recent ≡ take_last m (faults_of es)
recent-record_all m es = recent_from es [] (new m) (sym (drop-length-le (0 - m) [] (omega arith)))
