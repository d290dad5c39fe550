-- ===== src/Examples/Plays.antt =====
-- backend/cs_uk_api/torrent_lane.py, play_request.py and http_cache.py at concrete inputs.
use ps4_uk_stream.Prelude.{
  ℕ, suc, ◌≤◌, String, ◌≡◌, refl, true, false, Option, none, some, List, [], ◌∷◌, arith, nat_eq,
  string_eq, length, take,
}
use ps4_uk_stream.Prelude.Dict
use ps4_uk_stream.Prelude.Integers.{pos}
use ps4_uk_stream.Prelude.Sorting.{sorted}
use ps4_uk_stream.Health.{default_tracker}
use ps4_uk_stream.PlayAttestation
use ps4_uk_stream.TorrentLane.{
  least_candidate, quality_rank, TorrentCandidate, Answer, policy_le, select_torrent, play_torrent,
  max_session_attempts,
}
use ps4_uk_stream.TorrentLane.Attempts.{
  logged, fixed, first_settled, play_torrent-calls, play_torrent-first_settled,
}
use ps4_uk_stream.PlayRequest.{
  Provider, StreamAnswer, TranslationAnswer, Recorders, Registry, Clock, PlayCall, attempt_play,
}
use ps4_uk_stream.PlayRequest.Recording.{Recorded, attempt_play-Recorded}
use ps4_uk_stream.HttpCache.{
  oldest, Row, HttpTools, ConditionalCache, empty_summary, enforce_size_cap,
}
use ps4_uk_stream.HttpCache.Transport.{Request, Response, handle_async_request}
use ps4_uk_stream.HttpCache.Replay.{Fits, handle_async_request-Fits}

abbrev torrent : String → String → ℕ → TorrentCandidate
torrent quality info_hash seeds = record {
  quality = quality;
  info_hash = info_hash;
  seeds = pos seeds;
}

abbrev torrents : List TorrentCandidate
torrents =
    torrent "720p" "aa" 90
    ∷ torrent "1080p" "bb" 5
    ∷ torrent "1080p" "cc" 7
    ∷ torrent "2160p" "dd" 3
    ∷ []

picks_runs : select_torrent torrents ≡ some (torrent "1080p" "cc" 7)
unfolding select_torrent least_candidate policy_le quality_rank
picks_runs = refl

abbrev refusing : String → Option String → Answer
refusing identifier file_hint = Answer.engine_rejected true

play_torrent-calls_example :
    length (play_torrent (logged ℕ (fixed ℕ refusing)) (λ t. t) none torrents (0, [])).0.1 ≤ 6
play_torrent-calls_example = play_torrent-calls (λ t. t) (fixed ℕ refusing) none torrents 0

play_torrent-first_settled_example :
    (play_torrent (fixed ℕ refusing) (λ t. t) none torrents 0).1
    ≡ first_settled (λ t. t) refusing none (take max_session_attempts (sorted policy_le torrents))
play_torrent-first_settled_example = play_torrent-first_settled (λ t. t) refusing none torrents 0

abbrev dead_title : Provider
dead_title = record {
  episode_translations = λ external_id. TranslationAnswer.translations none;
  stream = λ external_id translation.
      StreamAnswer.stream_error (record { code = "not_found"; engine_path = false });
}

abbrev registry : Registry
registry = ("yts", dead_title) ∷ []

abbrev clock : Clock
clock = record { now = 7; text = "now" }

abbrev press : PlayCall
press = record {
  provider_id = "yts";
  external_id = "tt1";
  translation = none;
  item_id = "yts:tt1";
  surface = some "native";
  refusal_code = λ code. code;
}

abbrev recorders : Recorders
recorders = record { tracker = default_tracker; attestation = PlayAttestation.new 20 }

attempt_play-Recorded_example :
    Recorded clock press recorders (attempt_play registry clock press recorders)
attempt_play-Recorded_example = attempt_play-Recorded registry clock press recorders

abbrev row : ℕ → Row
row fetched_at = record {
  etag = some "e";
  last_modified = none;
  headers = "";
  body = 1 ∷ 2 ∷ [];
  fetched_at = fetched_at;
}

abbrev pages : Dict.Dict String Row
pages = ("a", row 3) ∷ ("b", row 1) ∷ []

pages-DistinctKeys : Dict.DistinctKeys pages
unfolding Dict.get
pages-DistinctKeys = (refl, (refl, tt))

gone_runs : Dict.get "b" (enforce_size_cap 3 pages) ≡ none
unfolding Dict.get Dict.remove enforce_size_cap oldest
gone_runs = refl

kept_runs : Dict.get "a" (enforce_size_cap 3 pages) ≡ some (row 3)
unfolding Dict.get Dict.remove enforce_size_cap oldest
kept_runs = refl

present_runs : Dict.get "b" pages ≡ some (row 1)
unfolding Dict.get
present_runs = refl

abbrev http : HttpTools
http = record {
  header = λ name headers. none;
  dump = λ headers. "";
  load = λ text. some [];
  lower = λ text. text;
  is_fixdate = λ text. false;
  parses_date = λ text. false;
}

abbrev cache : ConditionalCache
cache = record { max_bytes = 4; pages = pages; counters = empty_summary }

abbrev unchanged : ℕ → Request → ℕ × Response
unchanged s request = (suc s, record { status_code = 304; headers = []; content = [] })

abbrev ask : Request
ask = record { method = "GET"; url = "b"; if_none_match = none; if_modified_since = none }

handle_async_request-Fits_example :
    Fits (handle_async_request http ℕ unchanged 9 ask (0, cache)).0.1
handle_async_request-Fits_example =
    handle_async_request-Fits http ℕ unchanged 9 ask 0 cache
      (record { distinct = pages-DistinctKeys; within = omega arith })
