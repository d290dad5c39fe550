-- ===== src/Resume/Flushes.antt =====
-- What the file holds after a shutdown, when saves may fail.
use ps4_uk_stream.Prelude.{
  sym, ap, is_some, ◌∙◌, Option-cases, ◌≡◌, refl, ◌⊎◌, inl, inr, Bool, true, false, Option, none,
  some, List, [], ◌∷◌, if◌then◌else◌, Bool-cases, ◌==◌, nat_eq, string_eq,
}
use ps4_uk_stream.Prelude.Texts.{strip}
use ps4_uk_stream.Storage.Debounce
use ps4_uk_stream.Storage.Debounce.{Saver}
use ps4_uk_stream.Resume.{Shelf}
use ps4_uk_stream.Resume.Writes.{
  report, query, clearing, timer, flushing, clearing, query, report, Store, Call, save_self,
  save_all, after_saver, schedule_on, schedule_write, flush_on, flush, fire, is_positive, step, run,
}

-- What stands in the file after the saves: what the latest one that succeeded put there
abbrev pub file_after : Option Shelf → List (Bool × Shelf) → Option Shelf
file_after file [] = file
file_after file ((ok, shelf) ∷ saves) =
    let before = file_after file saves in if ok then some shelf else before

-- The state that the latest save was given
abbrev pub last_given : Shelf → List (Bool × Shelf) → Shelf
last_given shelf [] = shelf
last_given shelf ((ok, given) ∷ saves) = given

module _ (old_file : Option Shelf) (old_shelf : Shelf) where
  abbrev Waits : Saver (Unit {0}) → Type 0
  Waits saver = (saver.has_pending ≡ true) × (saver.pending ≡ some tt)

  -- The file is that of the saves, and a state that no save was given waits for one.
  abbrev TracksOn : Option (Saver (Unit {0})) → Store → Type 0
  TracksOn none s = ⊥
  TracksOn (some saver) s =
      (s.file ≡ file_after old_file s.saves)
      × (Waits saver ⊎ (s.shelf ≡ last_given old_shelf s.saves))

  abbrev Tracks : Store → Type 0
  Tracks s = TracksOn s.saver s

  file-save_self :
      (ok : Bool) (s : Store)
      → s.file ≡ file_after old_file s.saves
      → (save_self ok s).file ≡ file_after old_file (save_self ok s).saves
  unfolding save_self
  file-save_self ok s h = rw h refl

  -- After any write that was asked for, a save was given the state, or the state waits.
  schedule-Tracks :
      (ok immediate running : Bool) (saver : Saver (Unit {0})) (s : Store)
      → s.saver ≡ some saver
      → s.file ≡ file_after old_file s.saves
      → Tracks (schedule_on ok immediate running (some saver) s)
  unfolding schedule_on save_self save_all Debounce.request Debounce.write_pending
  schedule-Tracks ok true running saver s e h = rw e (file-save_self ok s h, inr refl)
  schedule-Tracks ok false running saver s e h =
      let written = file-save_self ok s h in
      elim (Bool-cases saver.closed) [
        | inl closed ↦ rw closed (written, inr refl)
        | inr still_open ↦ elim (Bool-cases running) [
          | inl loop ↦ rw (still_open, loop) (h, inl (refl, refl))
          | inr no_loop ↦ rw (still_open, no_loop) (written, inr refl)
        ]
      ]

  scheduled :
      (ok immediate running : Bool) (shelf : Shelf) (s : Store) (found : Option (Saver (Unit {0})))
      → s.saver ≡ found
      → TracksOn found s
      → Tracks (schedule_write ok immediate running (record s { shelf = shelf }))
  unfolding schedule_write
  scheduled ok immediate running shelf s none e h = absurd h
  scheduled ok immediate running shelf s (some saver) e h = rw e (
      schedule-Tracks ok immediate running saver (record s { shelf = shelf; saver = some saver })
        refl h.0)

  -- What waits is given to a save, and then nothing waits.
  abbrev Given : Store → Type 0
  Given s =
      (is_some s.saver ≡ true)
      × ((s.file ≡ file_after old_file s.saves) × (s.shelf ≡ last_given old_shelf s.saves))

  Given-Tracks :
      (s : Store) (found : Option (Saver (Unit {0}))) → s.saver ≡ found → Given s → Tracks s
  Given-Tracks s none e h = absurd (cc (rw e at (h.0)))
  Given-Tracks s (some saver) e h = rw e (h.1.0, inr (h.1.1))

  write_pending-Given :
      (ok : Bool) (saver : Saver (Unit {0})) (s : Store)
      → TracksOn (some saver) s
      → Given (after_saver ok s (Debounce.write_pending saver))
  unfolding save_self save_all Debounce.write_pending
  write_pending-Given ok saver s (h, inl (has, waiting)) =
      rw (has, waiting) (refl, (file-save_self ok s h, refl))
  write_pending-Given ok saver s (h, inr given) = elim (Bool-cases saver.has_pending) [
    | inl has ↦ elim (Option-cases saver.pending) [
      | inl empty ↦ rw (has, empty) (refl, (h, given))
      | inr (p, waiting) ↦ rw (has, waiting) (refl, (file-save_self ok s h, refl))
    ]
    | inr none_waits ↦ rw none_waits (refl, (h, given))
  ]

  fire-Given :
      (ok : Bool) (found : Option (Saver (Unit {0}))) (s : Store)
      → TracksOn found s
      → Given (fire ok found s)
  fire-Given ok none s h = absurd h
  fire-Given ok (some saver) s h = write_pending-Given ok saver s h

  flush-Given :
      (ok : Bool) (found : Option (Saver (Unit {0}))) (s : Store)
      → TracksOn found s
      → Given (flush_on ok found s)
  unfolding flush_on Debounce.flush
  flush-Given ok none s h = absurd h
  flush-Given ok (some saver) s h = write_pending-Given ok (record saver { timer = false }) s h

  step-Tracks : (ok : Bool) (call : Call) (s : Store) → Tracks s → Tracks (step ok call s)
  unfolding step flush
  step-Tracks ok (report now item position runtime stopped running) s h =
      elim (Bool-cases (is_positive position)) [
        | inl p ↦ rw p (scheduled ok stopped running _ s s.saver refl h)
        | inr p ↦ rw p h
      ]
  step-Tracks ok (query q running) s h = elim (Bool-cases (strip q == "")) [
    | inl blank ↦ rw blank h
    | inr more ↦ rw more (scheduled ok false running _ s s.saver refl h)
  ]
  step-Tracks ok (clearing running) s h = scheduled ok false running _ s s.saver refl h
  step-Tracks ok timer s h = Given-Tracks (fire ok s.saver s) _ refl (fire-Given ok s.saver s h)
  step-Tracks ok flushing s h =
      Given-Tracks (flush_on ok s.saver s) _ refl (flush-Given ok s.saver s h)

  run-Tracks : (calls : List (Bool × Call)) (s : Store) → Tracks s → Tracks (run calls s)
  unfolding run
  run-Tracks [] s h = h
  run-Tracks ((ok, call) ∷ calls) s h = run-Tracks calls (step ok call s) (step-Tracks ok call s h)

-- What is left by the saves: if there was none, the state and the file of before. Else the latest one was
-- given the state in memory; if it succeeded, that is in the file, and if it failed, the file holds what
-- the latest one that succeeded put there.
abbrev pub IsSettled : Option Shelf → Shelf → List (Bool × Shelf) → Store → Type 0
IsSettled old_file old_shelf [] s = (s.file ≡ old_file) × (s.shelf ≡ old_shelf)
IsSettled old_file old_shelf ((true, given) ∷ saves) s = s.file ≡ some s.shelf
IsSettled old_file old_shelf ((false, given) ∷ saves) s =
    (given ≡ s.shelf) × (s.file ≡ file_after old_file saves)

settled :
    (old_file : Option Shelf) (old_shelf : Shelf) (saves : List (Bool × Shelf)) (s : Store)
    → s.file ≡ file_after old_file saves
    → s.shelf ≡ last_given old_shelf saves
    → IsSettled old_file old_shelf saves s
settled old_file old_shelf [] s written given = (written, given)
settled old_file old_shelf ((true, shelf) ∷ saves) s written given = written ∙ ap some (sym given)
settled old_file old_shelf ((false, shelf) ∷ saves) s written given = (sym given, written)

started :
    (s : Store) (found : Option (Saver (Unit {0})))
    → s.saver ≡ found
    → is_some found ≡ true
    → s.saves ≡ []
    → Tracks s.file s.shelf s
started s none e there fresh = absurd (cc there)
started s (some saver) e there fresh = rw (e, fresh) (refl, inr refl)

-- What a failing write can lose: from any store with a file, before its first save, after any reports,
-- queries, clears, timers and flushes and a final `flush` (the shutdown), whichever of their saves failed:
-- if the latest save succeeded, the file holds exactly the state in memory. If it failed, it had been given that state,
-- and the file holds what the latest save that succeeded put there, or what it held before, if none did.
-- If there was no save, state and file are those of before.
pub flush-run :
    (calls : List (Bool × Call)) (ok : Bool) (s : Store)
    → is_some s.saver ≡ true
    → s.saves ≡ []
    → let s' = flush ok (run calls s) in IsSettled s.file s.shelf s'.saves s'
unfolding flush
flush-run calls ok s there fresh =
    let s1 = run calls s in
    let given =
      flush-Given s.file s.shelf ok s1.saver s1
        (run-Tracks s.file s.shelf calls s (started s s.saver refl there fresh)) in
    settled s.file s.shelf (flush_on ok s1.saver s1).saves (flush_on ok s1.saver s1) (given.1.0)
      (given.1.1)
