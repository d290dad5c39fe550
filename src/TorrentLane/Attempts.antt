-- ===== src/TorrentLane/Attempts.antt =====
-- The talk with the engine: how often it is asked, for what, and what comes out.
use ps4_uk_stream.Prelude.{
  ℕ, ◌+◌, ◌*◌, ◌≤◌, String, ◌≡◌, refl, inl, inr, Bool, true, Option, List, [], ◌∷◌, ◌++◌, arith,
  Bool-cases, nat_eq, string_eq, length, take, length-append, length-take,
}
use ps4_uk_stream.Prelude.Sorting.{sorted}
use ps4_uk_stream.TorrentLane.{
  ended, next_candidate, TorrentCandidate, policy_le, EngineStream, torrent_stream_response,
  unreachable_engine, dead_torrent, Answer, session, engine_rejected, engine_path_error, Outcome,
  Round, identifier_of, attempt_all, play_from, play_torrent, max_session_attempts,
}

abbrev pub Engine : Type 0 → Type 0
Engine E = String → Option String → E → E × Answer

-- The engine with the log of the identifiers that it was asked for
abbrev pub logged : (E : Type 0) → Engine E → Engine (E × List String)
logged E ensure identifier file_hint (e, log) =
    let (e', answer) = ensure identifier file_hint e in ((e', log ++ identifier ∷ []), answer)

pub data AnswerView (answer : Answer) : Type 0 where
  plays : (result : EngineStream) → answer ≡ Answer.session result → AnswerView answer
  rejects : (retryable : Bool) → answer ≡ Answer.engine_rejected retryable → AnswerView answer
  fails : answer ≡ Answer.engine_path_error → AnswerView answer

pub answer_view : (answer : Answer) → AnswerView answer
answer_view (session result) = AnswerView.plays result refl
answer_view (engine_rejected retryable) = AnswerView.rejects retryable refl
answer_view engine_path_error = AnswerView.fails refl

pub data RoundView (round : Round) : Type 0 where
  closes : (outcome : Outcome) → round ≡ Round.ended outcome → RoundView round
  goes_on : round ≡ Round.next_candidate → RoundView round

pub round_view : (round : Round) → RoundView round
round_view (ended outcome) = RoundView.closes outcome refl
round_view next_candidate = RoundView.goes_on refl

module _ {E : Type 0} (quote : String → String) (ensure : Engine E) where
  attempts_bound :
      (identifier : String) (file_hint : Option String) (attempts : List ℕ) (e : E)
      (log : List String)
      → length (attempt_all (logged E ensure) identifier file_hint attempts (e, log)).0.1
        ≤ length log + length attempts
  unfolding attempt_all
  attempts_bound identifier file_hint [] e log = omega arith
  attempts_bound identifier file_hint (attempt ∷ attempts) e log =
      let rest =
        attempts_bound identifier file_hint attempts (ensure identifier file_hint e).0
          (log ++ identifier ∷ []) in
      let one = length-append log (identifier ∷ []) in
      elim (answer_view (ensure identifier file_hint e).1) [
        | plays result h ↦ rw h (omega arith)
        | rejects retryable h ↦ rw h (ground arith)
        | fails h ↦ rw h (omega arith)
      ]

  round_bound :
      (file_hint : Option String) (cs : List TorrentCandidate) (e : E) (log : List String)
      → length (play_from (logged E ensure) quote file_hint cs (e, log)).0.1
        ≤ length log + 2 * length cs
  unfolding play_from
  round_bound file_hint [] e log = omega arith
  round_bound file_hint (c ∷ cs) e log =
      let tried =
        attempt_all (logged E ensure) (identifier_of quote c) file_hint (1 ∷ 2 ∷ []) (e, log) in
      let here = attempts_bound (identifier_of quote c) file_hint (1 ∷ 2 ∷ []) e log in
      let rest = round_bound file_hint cs tried.0.0 tried.0.1 in
      elim (round_view tried.1) [
        | closes outcome h ↦ rw h (omega arith)
        | goes_on h ↦ rw h (omega arith)
      ]

  -- Whatever the engine answers, it is asked at most six times.
  pub play_torrent-calls :
      (file_hint : Option String) (cs : List TorrentCandidate) (e : E)
      → length (play_torrent (logged E ensure) quote file_hint cs (e, [])).0.1 ≤ 6
  unfolding play_torrent
  play_torrent-calls file_hint cs e = omega (
    arith,
    round_bound file_hint (take max_session_attempts (sorted policy_le cs)) e [],
    length-take max_session_attempts (sorted policy_le cs),
  )

  -- When the engine rejects the candidate that comes first in the order with a retryable verdict and
  -- gives a session to the next request of the same identifier, that session is what plays.
  play_torrent_retries :
      (file_hint : Option String) (cs others : List TorrentCandidate) (c : TorrentCandidate) (e : E)
      (e' : E) (e'' : E) (result : EngineStream)
      → sorted policy_le cs ≡ c ∷ others
      → ensure (identifier_of quote c) file_hint e ≡ (e', Answer.engine_rejected true)
      → ensure (identifier_of quote c) file_hint e' ≡ (e'', Answer.session result)
      → play_torrent ensure quote file_hint cs e
        ≡ (e'', Outcome.playing (torrent_stream_response result))
  unfolding play_torrent play_from attempt_all
  play_torrent_retries file_hint cs others c e e' e'' result order cold warm =
      rw (order, cold, warm) refl

-- An engine whose answers do not change
abbrev pub fixed : (E : Type 0) → (String → Option String → Answer) → Engine E
fixed E answer identifier file_hint e = (e, answer identifier file_hint)

abbrev pub settles : Answer → Outcome → Outcome
settles (session result) otherwise = Outcome.playing (torrent_stream_response result)
settles (engine_rejected retryable) otherwise = otherwise
settles engine_path_error otherwise = Outcome.provider_error unreachable_engine

-- The first candidate that is not rejected decides.
abbrev pub first_settled :
    (String → String)
    → (String → Option String → Answer)
    → Option String
    → List TorrentCandidate
    → Outcome
first_settled quote answer file_hint [] = Outcome.provider_error dead_torrent
first_settled quote answer file_hint (c ∷ cs) =
    settles (answer (identifier_of quote c) file_hint) (first_settled quote answer file_hint cs)

module _ {E : Type 0} (quote : String → String) (answer : String → Option String → Answer) where
  play_from-first_settled :
      (file_hint : Option String) (cs : List TorrentCandidate) (e : E)
      → (play_from (fixed E answer) quote file_hint cs e).1
        ≡ first_settled quote answer file_hint cs
  unfolding play_from attempt_all
  play_from-first_settled file_hint [] e = refl
  play_from-first_settled file_hint (c ∷ cs) e =
      elim (answer_view (answer (identifier_of quote c) file_hint)) [
        | plays result h ↦ rw h refl
        | rejects retryable h ↦ elim (Bool-cases retryable) [
          | inl again ↦ rw (h, again) (play_from-first_settled file_hint cs e)
          | inr final ↦ rw (h, final) (play_from-first_settled file_hint cs e)
        ]
        | fails h ↦ rw h refl
      ]

  -- With an engine whose answers do not change, the first candidate in the order that is not
  -- rejected decides the outcome, among the first three; when those are all rejected, the outcome is
  -- `not_found`, no fault of the lane.
  pub play_torrent-first_settled :
      (file_hint : Option String) (cs : List TorrentCandidate) (e : E)
      → (play_torrent (fixed E answer) quote file_hint cs e).1
        ≡ first_settled quote answer file_hint (take max_session_attempts (sorted policy_le cs))
  unfolding play_torrent
  play_torrent-first_settled file_hint cs e =
      play_from-first_settled file_hint (take max_session_attempts (sorted policy_le cs)) e
