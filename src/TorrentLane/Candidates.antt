-- ===== src/TorrentLane/Candidates.antt =====
-- backend/cs_uk_api/torrent_lane.py: the candidates in an entry of popcorn.
use ps4_uk_stream.Prelude.{
  String, Option, none, some, List, [], ◌∷◌, ◌++◌, if◌then◌else◌, ◌==◌, nat_eq, string_eq,
}
use ps4_uk_stream.Prelude.Integers.{ℤ, pos}
use ps4_uk_stream.Storage.Documents.{Json, Items, nil, cons, field_of}
use ps4_uk_stream.TorrentLane.{TorrentCandidate}

-- `isinstance(value, str) and value`
abbrev pub full_text : Option Json → Option String
full_text (some (Json.str s)) = if s == "" then none else some s
full_text _ = none

-- A bool is not taken for an int here.
abbrev pub seeds_of : Option Json → ℤ
seeds_of (some (Json.int z)) = z
seeds_of _ = pos 0

abbrev pub usable : Option String → Option String → ℤ → List TorrentCandidate
usable (some quality) (some info_hash) seeds =
    record { quality = quality; info_hash = info_hash; seeds = seeds } ∷ []
usable (some quality) none seeds = []
usable none info_hash seeds = []

abbrev pub candidate_of : Json → List TorrentCandidate
candidate_of (Json.obj entry) =
    usable (full_text (field_of "quality" entry)) (full_text (field_of "hash" entry))
      (seeds_of (field_of "seeds" entry))
candidate_of _ = []

unfoldable pub torrent_candidates : Items → List TorrentCandidate
torrent_candidates nil = []
torrent_candidates (cons entry entries) = candidate_of entry ++ torrent_candidates entries
