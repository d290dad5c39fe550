-- ===== src/Examples/Resume.antt =====
-- backend/cs_uk_api/resume_store.py at concrete inputs.
use ps4_uk_stream.Prelude.{
  ◌≡◌, refl, Bool, true, false, none, some, List, [], ◌∷◌, nat_eq, string_eq,
}
use ps4_uk_stream.Prelude.Integers.{pos}
use ps4_uk_stream.Storage.Debounce
use ps4_uk_stream.Resume.{Shelf}
use ps4_uk_stream.Resume.Writes.{save_all, save_self, schedule_write, step, Store, Call, run, flush}
use ps4_uk_stream.Resume.Flushes.{IsSettled, flush-run}

abbrev shelf : Shelf
shelf = record {
  items =
      ("film", record { position_ticks = 50; runtime_ticks = some (pos 100); updated_at = some 3 })
      ∷ [];
  queries = [];
  finished = [];
}

abbrev store : Store
unfolding Debounce.new
store = record { shelf = shelf; saver = some Debounce.new; file = some shelf; saves = [] }

-- A report whose timed write fails; the `flush` after it finds nothing that waits.
abbrev store_calls : List (Bool × Call)
store_calls = (true, Call.report 9 "show" (pos 7) none false true) ∷ (false, Call.timer) ∷ []

flush-run_example :
    let s' = flush true (run store_calls store) in IsSettled store.file store.shelf s'.saves s'
unfolding store
flush-run_example = flush-run store_calls true store refl refl

unsaved : (flush true (run store_calls store)).file ≡ some shelf
unfolding store flush run step schedule_write save_self save_all Debounce.new Debounce.request
    Debounce.write_pending Debounce.flush
unsaved = refl
