-- ===== src/PlayRequest/Recording.antt =====
-- What one attempt records, told from the attempt that it returns.
use ps4_uk_stream.Prelude.{
  ℕ, String, ◌≡◌, refl, sym, ap, ◌∙◌, inl, inr, true, false, Option, none, some, arith,
  if◌then◌else◌, Bool-cases, Option-cases, ◌==◌, nat_eq, string_eq, any,
}
use ps4_uk_stream.Prelude.Dict
use ps4_uk_stream.Prelude.Membership.{contains}
use ps4_uk_stream.Health.{HealthTracker, record_sample, record_verdict, item_verdict_codes}
use ps4_uk_stream.PlayAttestation.{PlayAttestationTracker, served, refused}
use ps4_uk_stream.TorrentLane.{StreamResponse, ProviderError}
use ps4_uk_stream.PlayRequest.{
  invalid_translation, translations, translations_crash, StreamAnswer, stream_ready, stream_error,
  stream_crash, TranslationAnswer, Provider, Recorders, PlayAttempt, Registry, Clock, PlayCall,
  translation_error, translation_verdict, attributed, attest, record_failure, after_stream,
  after_gate, attempt_with, attempt_play,
}

-- The verdict of an attempt on the health of what it names: served, an item's verdict, or a fault
pub tracker_after :
    ℕ → Option String → Option StreamResponse → Option String → HealthTracker → HealthTracker
tracker_after now none stream code t = t
tracker_after now (some p) (some response) code t = record_sample now p true t
tracker_after now (some p) none none t = record_sample now p false t
tracker_after now (some p) none (some code) t =
    if any (λ c. c == code) item_verdict_codes then t else record_sample now p false t

-- The play outcome of an attempt, when a playback surface asked
pub attestation_after :
    Clock → PlayCall → PlayAttempt → PlayAttestationTracker → PlayAttestationTracker
attestation_after clock call attempt t = elim call.surface [
  | none ↦ t
  | some surface ↦ elim attempt.stream [
    | some response ↦ served attempt.provider_id t
    | none ↦
        refused clock.text attempt.provider_id call.item_id (call.refusal_code attempt.code) surface
          t
  ]
]

-- The two records are those that the attempt tells of.
pub Recorded : Clock → PlayCall → Recorders → Recorders × PlayAttempt → Type 0
Recorded clock call r (r', attempt) =
    (r'.tracker ≡ tracker_after clock.now attempt.provider_id attempt.stream attempt.code r.tracker)
    × (r'.attestation ≡ attestation_after clock call attempt r.attestation)

attest-tracker :
    (clock : Clock) (call : PlayCall) (p code : Option String) (r : Recorders)
    → (attest clock call p code r).tracker ≡ r.tracker
attest-tracker clock call p code r = elim (Option-cases call.surface) [
  | inl h ↦ rw h refl
  | inr (surface, h) ↦ rw h refl
]

attest-attestation :
    (clock : Clock) (call : PlayCall) (p code : Option String) (r : Recorders)
    → (attest clock call p code r).attestation
      ≡ attestation_after clock call
          (record { stream = none; provider_id = p; code = code })
          r.attestation
unfolding attestation_after
attest-attestation clock call p code r = elim (Option-cases call.surface) [
  | inl h ↦ rw h refl
  | inr (surface, h) ↦ rw h refl
]

served-Recorded :
    (clock : Clock) (call : PlayCall) (response : StreamResponse) (r : Recorders)
    → Recorded clock call r (after_stream clock call (StreamAnswer.stream_ready response) r)
unfolding Recorded after_stream tracker_after attestation_after
served-Recorded clock call response r = elim (Option-cases call.surface) [
  | inl h ↦ rw h (refl, refl)
  | inr (surface, h) ↦ rw h (refl, refl)
]

failure_lem :
    (now : ℕ) (p code : String) (t : HealthTracker)
    → record_failure now p code t ≡ tracker_after now (some p) none (some code) t
unfolding record_failure record_verdict tracker_after
failure_lem now p code t = ground arith

stream-Recorded :
    (clock : Clock) (call : PlayCall) (answer : StreamAnswer) (r : Recorders)
    → Recorded clock call r (after_stream clock call answer r)
unfolding Recorded after_stream record_verdict tracker_after
stream-Recorded clock call (stream_ready response) r = served-Recorded clock call response r
stream-Recorded clock call (stream_error error) r = (
  attest-tracker clock call _ _ _
      ∙ failure_lem clock.now (attributed call.provider_id error) error.code r.tracker,
  attest-attestation clock call _ _ _,
)
stream-Recorded clock call stream_crash r =
    (attest-tracker clock call _ _ _ ∙ refl, attest-attestation clock call _ _ _)

verdict_code :
    (t : String) (answer : TranslationAnswer) (error : ProviderError)
    → translation_verdict t answer ≡ some error
    → error.code ≡ "invalid_translation"
verdict_code t translations_crash error h = absurd cc
verdict_code t (translations none) error h = absurd cc
verdict_code t (translations (some allowed)) error h = elim (Bool-cases (contains t allowed)) [
  | inl hit ↦ absurd (let h' = rw hit at h in cc)
  | inr miss ↦
      let h' = rw miss at h in let e : invalid_translation ≡ error = cc in sym (ap (λ x. x.code) e)
]

-- The gate only ever refuses with `invalid_translation`.
gate_code :
    (provider : Provider) (external_id : String) (translation : Option String)
    (error : ProviderError)
    → translation_error provider external_id translation ≡ some error
    → error.code ≡ "invalid_translation"
gate_code provider external_id none error h = absurd cc
gate_code provider external_id (some t) error h =
    verdict_code t (provider.episode_translations external_id) error h

gate-Recorded :
    (clock : Clock) (call : PlayCall) (provider : Provider) (verdict : Option ProviderError)
    (r : Recorders)
    → ((error : ProviderError) → verdict ≡ some error → error.code ≡ "invalid_translation")
    → Recorded clock call r (after_gate clock call provider verdict r)
unfolding Recorded after_gate
gate-Recorded clock call provider (some error) r h = (
  attest-tracker clock call _ _ _ ∙ rw (h error refl) (unfold tracker_after in refl),
  attest-attestation clock call _ _ _,
)
gate-Recorded clock call provider none r h =
    stream-Recorded clock call (provider.stream call.external_id call.translation) r

with-Recorded :
    (clock : Clock) (call : PlayCall) (found : Option Provider) (r : Recorders)
    → Recorded clock call r (attempt_with clock call found r)
unfolding Recorded attempt_with tracker_after
with-Recorded clock call none r =
    (attest-tracker clock call _ _ _, attest-attestation clock call _ _ _)
with-Recorded clock call (some provider) r =
    gate-Recorded clock call provider (translation_error provider call.external_id call.translation)
      r (λ error. gate_code provider call.external_id call.translation error)

-- What the two recorders hold after an attempt follows from the attempt that it returns. The health
-- tracker of the provider that the attempt names gets a success when it has a stream, nothing when
-- its code is one of an item's verdicts or it names no provider, and a failure in the other cases.
-- The attestation gets one call, served or refused with the surface's code, exactly when a playback
-- surface asked.
pub attempt_play-Recorded :
    (providers : Registry) (clock : Clock) (call : PlayCall) (r : Recorders)
    → Recorded clock call r (attempt_play providers clock call r)
unfolding attempt_play
attempt_play-Recorded providers clock call r =
    with-Recorded clock call (Dict.get call.provider_id providers) r
