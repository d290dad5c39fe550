-- ===== src/TorrentLane.antt =====
-- backend/cs_uk_api/torrent_lane.py: the policy that orders the candidates, and the bounded talk
-- with the torrent engine. `urllib.parse.quote` is an argument; so is the engine, as a function on a
-- state of its own, with the answers of torrent_engine.py's protocol. Logging is left out.
pub mod Candidates
pub mod Files
pub mod Policy
pub mod Attempts
use ps4_uk_stream.Prelude.{
  ℕ, suc, String, Bool, true, false, not, ◌&&◌, ◌||◌, Option, none, some, List, [], ◌∷◌, map, ltb,
  eqb, if◌then◌else◌, ◌==◌, nat_eq, string_eq, take,
}
use ps4_uk_stream.Prelude.Integers.{ℤ, int_le}
use ps4_uk_stream.Prelude.Sorting.{sorted}
use ps4_uk_stream.Prelude.Texts.{starts_with, join}

abbrev pub quality_preference : List String
quality_preference = "1080p" ∷ "720p" ∷ []

abbrev pub max_session_attempts : ℕ
max_session_attempts = 3

abbrev pub same_candidate_attempts : ℕ
same_candidate_attempts = 2

abbrev pub trackers : List String
trackers =
    "udp://tracker.opentrackr.org:1337/announce" ∷ "udp://tracker.openbittorrent.com:6969/announce"
    ∷ "udp://exodus.desync.com:6969/announce" ∷ []

pub record TorrentCandidate : Type 0 where
  pub quality : String
  pub info_hash : String
  pub seeds : ℤ

-- `xs.index(x)`, and the length of `xs` where it raises ValueError
abbrev pub index_or_length : String → List String → ℕ
index_or_length x [] = 0
index_or_length x (y ∷ ys) = if y == x then 0 else suc (index_or_length x ys)

unfoldable pub quality_rank : String → ℕ
quality_rank quality = index_or_length quality quality_preference

-- `_policy_key(a) <= _policy_key(b)`: the tier first, then more seeds first
unfoldable pub policy_le : TorrentCandidate → TorrentCandidate → Bool
policy_le a b =
    ltb (quality_rank a.quality) (quality_rank b.quality)
    || (eqb (quality_rank a.quality) (quality_rank b.quality) && int_le b.seeds a.seeds)

-- `min(..., key=_policy_key)`: a later candidate takes over only when its key is less.
unfoldable pub least_candidate : TorrentCandidate → List TorrentCandidate → TorrentCandidate
least_candidate c [] = c
least_candidate c (d ∷ ds) =
    if not (policy_le c d) then least_candidate d ds else least_candidate c ds

unfoldable pub select_torrent : List TorrentCandidate → Option TorrentCandidate
select_torrent [] = none
select_torrent (c ∷ cs) = some (least_candidate c cs)

-- `container` and `type` are of `StreamType`, here its wire text.
pub record EngineStream : Type 0 where
  pub url : String
  pub container : String
  pub seekable : Bool
  pub subtitle_url : Option String

-- The fields of `StreamResponse` in models.py
pub record StreamResponse : Type 0 where
  pub url : String
  pub stream_type : String
  pub headers : List (String × String)
  pub seekable : Option Bool
  pub allowed_domains : List String
  pub subtitle_url : Option String

unfoldable pub torrent_stream_response : EngineStream → StreamResponse
torrent_stream_response result = record {
  url = result.url;
  stream_type = result.container;
  headers = [];
  seekable = some result.seekable;
  allowed_domains = [];
  subtitle_url = result.subtitle_url;
}

-- `ProviderError`
pub record ProviderError : Type 0 where
  pub code : String
  pub engine_path : Bool

abbrev pub unreachable_engine : ProviderError
unreachable_engine = record { code = "unreachable"; engine_path = true }

abbrev pub dead_torrent : ProviderError
dead_torrent = record { code = "not_found"; engine_path = false }

-- What `ensure_session` returns or raises
pub data Answer : Type 0 where
  session : EngineStream → Answer
  engine_rejected : Bool → Answer
  engine_path_error : Answer

-- What `play_torrent` returns or raises
pub data Outcome : Type 0 where
  playing : StreamResponse → Outcome
  provider_error : ProviderError → Outcome

-- How the attempts on one candidate end: with the outcome, or on to the next candidate
pub data Round : Type 0 where
  ended : Outcome → Round
  next_candidate : Round

-- What the code does with an answer to the attempt of that number, where `again` is the rest of the
-- attempts
abbrev pub after_answer : {E : Type 0} → Answer → ℕ → E → E × Round → E × Round
after_answer (session result) attempt e again =
    (e, Round.ended (Outcome.playing (torrent_stream_response result)))
after_answer (engine_rejected retryable) attempt e again =
    if retryable && ltb attempt same_candidate_attempts then again else (e, Round.next_candidate)
after_answer engine_path_error attempt e again =
    (e, Round.ended (Outcome.provider_error unreachable_engine))

abbrev pub after_round : {E : Type 0} → Round → E → E × Outcome → E × Outcome
after_round (ended outcome) e rest = (e, outcome)
after_round next_candidate e rest = rest

-- `range(1, _SAME_CANDIDATE_ATTEMPTS + 1)`
abbrev pub attempt_numbers : List ℕ
attempt_numbers = 1 ∷ 2 ∷ []

module _ (quote : String → String) where
  unfoldable pub build_magnet : String → String
  build_magnet info_hash = join "" (
      "magnet:?xt=urn:btih:"
      ∷ info_hash
      ∷ "&"
      ∷ join "&" (map (λ t. join "" ("tr=" ∷ quote t ∷ [])) trackers)
      ∷ [])

  unfoldable pub identifier_of : TorrentCandidate → String
  unfolding build_magnet
  identifier_of candidate =
      if starts_with "magnet:" candidate.info_hash
      then candidate.info_hash
      else build_magnet candidate.info_hash

module _ {E : Type 0} (ensure_session : String → Option String → E → E × Answer) where
  -- The attempts on one candidate
  unfoldable pub attempt_all : String → Option String → List ℕ → E → E × Round
  attempt_all identifier file_hint [] e = (e, Round.next_candidate)
  attempt_all identifier file_hint (attempt ∷ attempts) e =
      let (e', answer) = ensure_session identifier file_hint e in
      after_answer answer attempt e' (attempt_all identifier file_hint attempts e')

  unfoldable pub play_from :
      (String → String) → Option String → List TorrentCandidate → E → E × Outcome
  unfolding attempt_all identifier_of
  play_from quote file_hint [] e = (e, Outcome.provider_error dead_torrent)
  play_from quote file_hint (candidate ∷ candidates) e =
      let (e', round) = attempt_all (identifier_of quote candidate) file_hint attempt_numbers e in
      after_round round e' (play_from quote file_hint candidates e')

  unfoldable pub play_torrent :
      (String → String) → Option String → List TorrentCandidate → E → E × Outcome
  unfolding play_from
  play_torrent quote file_hint candidates e =
      play_from quote file_hint (take max_session_attempts (sorted policy_le candidates)) e
