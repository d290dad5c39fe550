-- ===== src/Resume/Writes.antt =====
-- How the state in memory reaches the file: `_schedule_write`, `flush` and the debounce. The saver's
-- payload is the store itself, encoded when it is written. A `save` never raises and either puts the
-- state of that moment into the file or leaves the file as it was (Storage/Atomic.antt); which of the
-- two is the argument `ok` of a call, in which at most one save is made.
use ps4_uk_stream.Prelude.{
  ℕ, String, Bool, false, Option, none, some, List, [], ◌∷◌, ltb, if◌then◌else◌, ◌==◌, nat_eq,
  string_eq,
}
use ps4_uk_stream.Prelude.Integers.{ℤ, pos, negsuc}
use ps4_uk_stream.Prelude.Texts.{strip}
use ps4_uk_stream.Storage.Debounce
use ps4_uk_stream.Storage.Debounce.{Saver}
use ps4_uk_stream.Resume.{Shelf, record_position, record_query, clear_shelf}

-- `ResumeStore`: `saver` is None in memory-only mode. `file` is what stands in the file, and `saves` are
-- the calls of `save(self)` so far, the latest first, with whether they succeeded.
pub record Store : Type 0 where
  pub shelf : Shelf
  pub saver : Option (Saver (Unit {0}))
  pub file : Option Shelf
  pub saves : List (Bool × Shelf)

-- `self._persist.save(self)`
unfoldable pub save_self : Bool → Store → Store
save_self ok s = record s {
  file = if ok then some s.shelf else s.file;
  saves = (ok, s.shelf) ∷ s.saves;
}

-- The saves that the saver makes in one call
unfoldable pub save_all : Bool → List (Option (Unit {0})) → Store → Store
unfolding save_self
save_all ok [] s = s
save_all ok (_ ∷ payloads) s = save_all ok payloads (save_self ok s)

abbrev pub after_saver : Bool → Store → Saver (Unit {0}) × List (Option (Unit {0})) → Store
after_saver ok s (saver, payloads) = save_all ok payloads (record s { saver = some saver })

-- `_schedule_write`
unfoldable pub schedule_on : Bool → Bool → Bool → Option (Saver (Unit {0})) → Store → Store
unfolding save_self save_all
schedule_on ok immediate running none s = s
schedule_on ok immediate running (some saver) s =
    if immediate
    then save_self ok s
    else after_saver ok s (Debounce.request (some tt) running saver)

unfoldable pub schedule_write : Bool → Bool → Bool → Store → Store
unfolding schedule_on
schedule_write ok immediate running s = schedule_on ok immediate running s.saver s

-- A call on the store. `report` is `record`, with whether a Stopped report asks for a flush; `timer` is
-- the loop's call of `_write_pending`.
pub data Call : Type 0 where
  report : ℕ → String → ℤ → Option ℤ → Bool → Bool → Call
  query : String → Bool → Call
  clearing : Bool → Call
  timer : Call
  flushing : Call

-- `flush`
unfoldable pub flush_on : Bool → Option (Saver (Unit {0})) → Store → Store
unfolding save_all
flush_on ok none s = s
flush_on ok (some saver) s = after_saver ok s (Debounce.flush saver)

unfoldable pub flush : Bool → Store → Store
unfolding flush_on
flush ok s = flush_on ok s.saver s

abbrev pub fire : Bool → Option (Saver (Unit {0})) → Store → Store
fire ok none s = s
fire ok (some saver) s = after_saver ok s (Debounce.write_pending saver)

abbrev pub is_positive : ℤ → Bool
is_positive (pos n) = ltb 0 n
is_positive (negsuc n) = false

-- An ignored position or a blank query schedules no write; `clear` requests one.
unfoldable pub step : Bool → Call → Store → Store
unfolding schedule_write flush save_all
step ok (report now item position runtime stopped running) s =
    if is_positive position
    then schedule_write ok stopped running
        (record s { shelf = record_position now item position runtime s.shelf })
    else s
step ok (query q running) s =
    if strip q == ""
    then s
    else schedule_write ok false running (record s { shelf = record_query q s.shelf })
step ok (clearing running) s =
    schedule_write ok false running (record s { shelf = clear_shelf s.shelf })
step ok timer s = fire ok s.saver s
step ok flushing s = flush ok s

unfoldable pub run : List (Bool × Call) → Store → Store
unfolding step
run [] s = s
run ((ok, call) ∷ calls) s = run calls (step ok call s)
