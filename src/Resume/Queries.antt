-- ===== src/Resume/Queries.antt =====
-- The search queries that the resume store keeps, against the whole history of queries.
use ps4_uk_stream.Prelude.{
  String, ◌≡◌, ap, inl, inr, List, [], ◌∷◌, if◌then◌else◌, Bool-cases, ◌==◌, nat_eq, string_eq,
  take,
}
use ps4_uk_stream.Prelude.Membership.{
  without, IsDistinct, contains-without_self, without-IsDistinct, take-without-take,
}
use ps4_uk_stream.Prelude.Texts.{strip}
use ps4_uk_stream.Resume.{Shelf, max_queries, record_query}

pub record_queries : List String → Shelf → Shelf
record_queries [] s = s
record_queries (q ∷ qs) s = record_queries qs (record_query q s)

-- One more query of the history: a blank one is ignored, any other comes to the front.
pub note_query : String → List String → List String
note_query q h = if strip q == "" then h else strip q ∷ without (strip q) h

-- Every query ever recorded, each once, the newest first.
pub query_history : List String → List String → List String
query_history [] h = h
query_history (q ∷ qs) h = query_history qs (note_query q h)

note_query-IsDistinct : (q : String) (h : List String) → IsDistinct h → IsDistinct (note_query q h)
unfolding note_query
note_query-IsDistinct q h d = elim (Bool-cases (strip q == "")) [
  | inl blank ↦ rw blank d
  | inr more ↦ rw more (contains-without_self (strip q) h, without-IsDistinct (strip q) h d)
]

record_query-note :
    (q : String) (h : List String) (s : Shelf)
    → IsDistinct h
    → s.queries ≡ take max_queries h
    → (record_query q s).queries ≡ take max_queries (note_query q h)
unfolding note_query record_query
record_query-note q h s d e = elim (Bool-cases (strip q == "")) [
  | inl blank ↦ rw blank e
  | inr more ↦ rw (more, e) (ap (◌∷◌ (strip q)) (take-without-take 49 (strip q) h d))
]

queries_from :
    (qs h : List String) (s : Shelf)
    → IsDistinct h
    → s.queries ≡ take max_queries h
    → (record_queries qs s).queries ≡ take max_queries (query_history qs h)
unfolding record_queries query_history
queries_from [] h s d e = e
queries_from (q ∷ qs) h s d e =
    queries_from qs (note_query q h) (record_query q s) (note_query-IsDistinct q h d)
      (record_query-note q h s d e)

-- From a store without queries, the queries kept after any calls of `record_query` are exactly the
-- 50 newest of all the queries recorded, stripped, without the blank ones, each once.
pub queries-record_queries :
    (qs : List String) (s : Shelf)
    → s.queries ≡ []
    → (record_queries qs s).queries ≡ take max_queries (query_history qs [])
queries-record_queries qs s e = queries_from qs [] s tt e
