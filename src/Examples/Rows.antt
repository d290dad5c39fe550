-- ===== src/Examples/Rows.antt =====
-- backend/cs_uk_api/recommend.py and the saved states of crawl_guard.py and user_state.py at concrete
-- inputs.
use ps4_uk_stream.Prelude.{
  false, true, refl, ℕ, String, Bool, Option, none, some, List, [], ◌∷◌, ◌==◌, nat_eq, string_eq,
}
use ps4_uk_stream.Prelude.Dict
use ps4_uk_stream.CrawlGuard.Saved.{Entries}
use ps4_uk_stream.UserState.{UserState}
use ps4_uk_stream.Storage.Documents.{Json}
use ps4_uk_stream.Storage.{FileContent, Parsed, Faults}
use ps4_uk_stream.Storage.Ladder.{all_ok}
use ps4_uk_stream.UserState.Restart.{
  Change, Store, change, run, call, document, RestartsAs, run-RestartsAs,
}
use ps4_uk_stream.Models.{HomeItem, MediaForm}
use ps4_uk_stream.Recommend.{pool}
use ps4_uk_stream.Recommend.Pool.{IsPool, pool-IsPool}

abbrev home_item : String → String → HomeItem
home_item group_key title = record {
  group_key = group_key;
  title = title;
  year = none;
  poster = none;
  form = MediaForm.movie;
  styles = [];
  genres = [];
  providers = [];
  member_keys = [];
}

-- One group twice, one title under two groups, and a watched group
abbrev home_items : List HomeItem
home_items =
    home_item "g2:a" "a"
    ∷ home_item "g2:a" "a"
    ∷ home_item "g3:a" "a"
    ∷ home_item "g2:b" "b"
    ∷ home_item "g2:c" "c"
    ∷ []

abbrev profile_of : String → Option ℕ
profile_of group_key = some 0

abbrev watched : String → Bool
watched group_key = group_key == "g2:b"

pool-IsPool_example :
    IsPool (λ t. t) profile_of watched (pool (λ t. t) profile_of watched home_items)
pool-IsPool_example = pool-IsPool (λ t. t) profile_of watched home_items

abbrev entries : Entries
entries =
    ("uakino", record { nights = 2; skip_until = none; last_counted = some "2026-07-01" })
    ∷ ("animeon", record { nights = 3; skip_until = some "2026-07-09"; last_counted = none })
    ∷ []

entries-DistinctKeys : Dict.DistinctKeys entries
unfolding Dict.get
entries-DistinctKeys = (refl, (refl, tt))

abbrev marked : UserState
marked = record {
  favorites = "uakino:b" ∷ "animeon:a" ∷ [];
  played = "uakino:b" ∷ [];
  dub_memory = ("g2:b", "Субтитри") ∷ ("g2:a", "Озвучення") ∷ [];
}

marked-DistinctKeys : Dict.DistinctKeys marked.dub_memory
unfolding Dict.get
marked-DistinctKeys = (refl, (refl, tt))

-- The rename of the first write fails, and then the removal of the temporary file.
abbrev lost : Faults
lost = record { mkstemp_ok = true; write_ok = true; replace_ok = false; unlink_ok = false }

abbrev first_change : Change
first_change = Change.favorite "eneyida:c" true

abbrev last_change : Change
last_change = Change.played "animeon:a" true

abbrev dumps : Json → Option String
dumps value = some "marks"

abbrev loads : String → Parsed
loads raw = Parsed.document (document (change last_change (change first_change marked)))

abbrev is_utf8 : String → Bool
is_utf8 raw = true

abbrev mark_store : Store
mark_store = record {
  state = marked;
  directory = some (record { target = FileContent.missing; temps = [] });
}

run-RestartsAs_example :
    let after =
      call dumps loads is_utf8 all_ok "ma" last_change
        (run dumps loads is_utf8 ((lost, ("mar", first_change)) ∷ []) mark_store) in
    RestartsAs dumps loads is_utf8 after.directory after.state
unfolding run call
run-RestartsAs_example =
    run-RestartsAs dumps loads is_utf8 ((lost, ("mar", first_change)) ∷ []) "ma" "marks" last_change
      mark_store refl marked-DistinctKeys refl refl refl
