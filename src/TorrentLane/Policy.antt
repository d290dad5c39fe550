-- ===== src/TorrentLane/Policy.antt =====
-- The pick of `select_torrent` against the order of `play_torrent`.
use ps4_uk_stream.Prelude.{
  ◌≡◌, refl, sym, ap, ◌∙◌, inl, inr, true, false, Option, none, some, List, [], ◌∷◌, arith,
  if◌then◌else◌, Bool-cases, nat_eq, string_eq,
}
use ps4_uk_stream.Prelude.Integers.{int_le_trans, int_le_total}
use ps4_uk_stream.Prelude.Sorting.{sorted, insort}
use ps4_uk_stream.TorrentLane.{TorrentCandidate, policy_le, least_candidate, select_torrent}

policy_le_trans :
    (a b c : TorrentCandidate) → policy_le a b ≡ true → policy_le b c ≡ true → policy_le a c ≡ true
unfolding policy_le
policy_le_trans a b c h k = ground (arith, int_le_trans c.seeds b.seeds a.seeds)

policy_le_total : (a b : TorrentCandidate) → policy_le a b ≡ false → policy_le b a ≡ true
unfolding policy_le
policy_le_total a b h = ground (arith, int_le_total b.seeds a.seeds)

abbrev pub first : List TorrentCandidate → Option TorrentCandidate
first [] = none
first (c ∷ cs) = some c

abbrev first_or : TorrentCandidate → List TorrentCandidate → TorrentCandidate
first_or c [] = c
first_or c (d ∷ ds) = if policy_le c d then c else d

first-insort :
    (c : TorrentCandidate) (ds : List TorrentCandidate)
    → first (insort policy_le c ds) ≡ some (first_or c ds)
unfolding insort
first-insort c [] = refl
first-insort c (d ∷ ds) = ground arith

first_or-insort :
    (c d : TorrentCandidate) (ds : List TorrentCandidate)
    → first_or c (insort policy_le d ds) ≡ (if policy_le c d then first_or c ds else first_or d ds)
unfolding insort
first_or-insort c d [] = ground arith
first_or-insort c d (e ∷ es) = ground (
  arith,
  policy_le_trans c d e,
  policy_le_trans c e d,
  policy_le_trans d c e,
  policy_le_trans d e c,
  policy_le_trans e c d,
  policy_le_trans e d c,
  policy_le_total c d,
  policy_le_total d e,
  policy_le_total c e,
)

least_candidate_lem :
    (c : TorrentCandidate) (ds : List TorrentCandidate)
    → least_candidate c ds ≡ first_or c (sorted policy_le ds)
unfolding least_candidate sorted
least_candidate_lem c [] = refl
least_candidate_lem c (d ∷ ds) = rw first_or-insort (elim (Bool-cases (policy_le c d)) [
  | inl keeps ↦ rw keeps (least_candidate_lem c ds)
  | inr yields ↦ rw yields (least_candidate_lem d ds)
])

-- The candidate that `select_torrent` picks is the first of those that `play_torrent` tries, ties
-- included; it picks none exactly when there is none.
pub select_torrent-sorted :
    (cs : List TorrentCandidate) → select_torrent cs ≡ first (sorted policy_le cs)
unfolding select_torrent sorted
select_torrent-sorted [] = refl
select_torrent-sorted (c ∷ cs) =
    ap some (least_candidate_lem c cs) ∙ sym (first-insort c (sorted policy_le cs))
