-- ===== src/PlayRequest.antt =====
-- backend/cs_uk_api/play_request.py: one attempt to play, and what it leaves in the health tracker
-- (health.py) and in the play attestation (play_attestation.py). A provider is what it answers to
-- the two calls; the clocks of the recorders are arguments. Logging is left out.
pub mod Recording
use ps4_uk_stream.Prelude.{
  ℕ, String, Bool, true, false, not, ◌&&◌, Option, none, some, List, if◌then◌else◌, is_some, ◌==◌,
  nat_eq, string_eq, any,
}
use ps4_uk_stream.Prelude.Dict
use ps4_uk_stream.Prelude.Dict.{Dict}
use ps4_uk_stream.Prelude.Membership.{contains}
use ps4_uk_stream.Health.{HealthTracker, record_sample, record_verdict, item_verdict_codes}
use ps4_uk_stream.PlayAttestation.{PlayAttestationTracker, served, refused}
use ps4_uk_stream.TorrentLane.{StreamResponse, ProviderError}
use ps4_uk_stream.WireIdentity.{split_wire_id}

abbrev pub engine_tracker_id : String
engine_tracker_id = "yts:engine"

-- What `provider.stream` returns or raises
pub data StreamAnswer : Type 0 where
  stream_ready : StreamResponse → StreamAnswer
  stream_error : ProviderError → StreamAnswer
  stream_crash : StreamAnswer

-- What `provider.episode_translations` returns or raises
pub data TranslationAnswer : Type 0 where
  translations : Option (List String) → TranslationAnswer
  translations_crash : TranslationAnswer

pub record Provider : Type 0 where
  pub episode_translations : String → TranslationAnswer
  pub stream : String → Option String → StreamAnswer

-- `TRACKER` and `PLAY_ATTESTATION`
pub record Recorders : Type 0 where
  pub tracker : HealthTracker
  pub attestation : PlayAttestationTracker

-- The error itself is left out: it only carries the message.
pub record PlayAttempt : Type 0 where
  pub stream : Option StreamResponse
  pub provider_id : Option String
  pub code : Option String

abbrev pub is_served : PlayAttempt → Bool
is_served attempt = is_some attempt.stream

abbrev pub refusal : Option String → Option String → PlayAttempt
refusal provider_id code = record { stream = none; provider_id = provider_id; code = code }

-- `PROVIDERS`
abbrev pub Registry : Type 0
Registry = Dict String Provider

unfoldable pub playable_target : Registry → String → Option (String × String)
playable_target providers item_id =
    let (provider_id, external_id) = split_wire_id item_id in
    if Dict.member provider_id providers && not (external_id == "")
    then some (provider_id, external_id)
    else none

-- The times at which the two recorders write
pub record Clock : Type 0 where
  pub now : ℕ
  pub text : String

abbrev pub attest_refusal :
    Clock → Option String → String → Option String → Option String → Recorders → Recorders
attest_refusal clock provider_id item_id code none r = r
attest_refusal clock provider_id item_id code (some surface) r = record r {
  attestation = refused clock.text provider_id item_id code surface r.attestation;
}

abbrev pub attest_served : String → Option String → Recorders → Recorders
attest_served provider_id none r = r
attest_served provider_id (some surface) r = record r {
  attestation = served (some provider_id) r.attestation;
}

abbrev pub invalid_translation : ProviderError
invalid_translation = record { code = "invalid_translation"; engine_path = false }

-- What the code does with the answer to `episode_translations`
abbrev pub translation_verdict : String → TranslationAnswer → Option ProviderError
translation_verdict translation translations_crash = none
translation_verdict translation (translations none) = none
translation_verdict translation (translations (some allowed)) =
    if contains translation allowed then none else some invalid_translation

abbrev pub translation_error : Provider → String → Option String → Option ProviderError
translation_error provider external_id none = none
translation_error provider external_id (some translation) =
    translation_verdict translation (provider.episode_translations external_id)

abbrev pub attributed : String → ProviderError → String
attributed provider_id error = if error.engine_path then engine_tracker_id else provider_id

-- The recording of a `ProviderError`: an item's verdict leaves the tracker alone.
unfoldable pub record_failure : ℕ → String → String → HealthTracker → HealthTracker
record_failure now attributed_id code t =
    if any (λ c. c == code) item_verdict_codes
    then t
    else record_verdict now attributed_id (some code) t

-- What a call of `attempt_play` is given, beside the registry and the recorders
pub record PlayCall : Type 0 where
  pub provider_id : String
  pub external_id : String
  pub translation : Option String
  pub item_id : String
  pub surface : Option String
  pub refusal_code : Option String → Option String

abbrev pub attest : Clock → PlayCall → Option String → Option String → Recorders → Recorders
attest clock call provider_id code =
    attest_refusal clock provider_id call.item_id (call.refusal_code code) call.surface

-- What the code does with the answer of `provider.stream`
unfoldable pub after_stream : Clock → PlayCall → StreamAnswer → Recorders → Recorders × PlayAttempt
unfolding record_failure
after_stream clock call (stream_ready response) r = (
  attest_served call.provider_id call.surface
      (record r { tracker = record_sample clock.now call.provider_id true r.tracker }),
  record { stream = some response; provider_id = some call.provider_id; code = none },
)
after_stream clock call (stream_error error) r =
    let who : String = attributed call.provider_id error in
    (
      attest clock call (some who) (some error.code)
          (record r { tracker = record_failure clock.now who error.code r.tracker }),
      refusal (some who) (some error.code),
    )
after_stream clock call stream_crash r = (
  attest clock call (some call.provider_id) none
      (record r { tracker = record_verdict clock.now call.provider_id none r.tracker }),
  refusal (some call.provider_id) none,
)

-- What the code does with the verdict of the translation gate
unfoldable pub after_gate :
    Clock → PlayCall → Provider → Option ProviderError → Recorders → Recorders × PlayAttempt
unfolding after_stream
after_gate clock call provider (some gate_error) r = (
  attest clock call (some call.provider_id) (some gate_error.code) r,
  refusal (some call.provider_id) (some gate_error.code),
)
after_gate clock call provider none r =
    after_stream clock call (provider.stream call.external_id call.translation) r

unfoldable pub attempt_with :
    Clock → PlayCall → Option Provider → Recorders → Recorders × PlayAttempt
unfolding after_gate
attempt_with clock call none r =
    (attest clock call none (some "not_found") r, refusal none (some "not_found"))
attempt_with clock call (some provider) r =
    after_gate clock call provider (translation_error provider call.external_id call.translation) r

unfoldable pub attempt_play : Registry → Clock → PlayCall → Recorders → Recorders × PlayAttempt
unfolding attempt_with
attempt_play providers clock call r =
    attempt_with clock call (Dict.get call.provider_id providers) r
