-- ===== src/Examples/Storage.antt =====
-- backend/cs_uk_api/versioned_store.py at concrete inputs.
use ps4_uk_stream.Prelude.{
  ℕ, String, ◌≡◌, refl, ◌↔◌, Bool, true, false, Option, none, some, List, [], ◌∷◌, ◌++◌,
  if◌then◌else◌, ◌==◌, nat_eq, string_eq, get_last?, All,
}
use ps4_uk_stream.Prelude.Integers.{pos}
use ps4_uk_stream.Storage.Documents.{Json}
use ps4_uk_stream.Storage.{
  FileContent, Parsed, Outcome, Directory, Faults, load, save, envelope, newest, blob_of, final,
}
use ps4_uk_stream.Storage.Ladder.{Raises, load-raised_iff, all_ok, load-save}
use ps4_uk_stream.Storage.Atomic.{MayWrite, save-MayWrite}
use ps4_uk_stream.Storage.Debounce.{new}
use ps4_uk_stream.Storage.Debounce.Coalescing.{Event, saves, requests, saves-flushed}

-- A store of one number; `dumps` and `loads` know one document.
abbrev encode : ℕ → Option Json
encode n = some (Json.int (pos n))

abbrev decode : Json → Option ℕ
decode (Json.int (pos n)) = some n
decode _ = none

abbrev five : Json
unfolding envelope
five = envelope 1 (Json.int (pos 5))

abbrev dumps : Json → Option String
dumps doc = some "five"

abbrev loads : String → Parsed
loads raw = if raw == "five" then Parsed.document five else Parsed.decode_error

abbrev is_utf8 : String → Bool
is_utf8 raw = true

abbrev empty_directory : Directory
empty_directory = record { target = FileContent.missing; temps = [] }

load-raised_iff_example :
    (load (1 ∷ []) decode loads FileContent.undecodable ≡ Outcome.raised)
    ↔ Raises loads FileContent.undecodable
load-raised_iff_example = load-raised_iff (1 ∷ []) decode loads FileContent.undecodable

load-save_example :
    let after =
      final empty_directory (save (1 ∷ []) encode dumps is_utf8 all_ok "fi" 5 empty_directory) in
    (load (1 ∷ []) decode loads after.target ≡ Outcome.returned (some 5)) × (after.temps ≡ [])
unfolding newest five
load-save_example =
    load-save (1 ∷ []) encode decode dumps loads is_utf8 "fi" "five" 1 (Json.int (pos 5)) 5
      empty_directory refl refl refl refl refl refl

-- The rename fails, and then the removal of the temporary file.
abbrev torn : Faults
torn = record { mkstemp_ok = true; write_ok = true; replace_ok = false; unlink_ok = false }

save-MayWrite_example :
    All
      (MayWrite (1 ∷ []) encode dumps is_utf8 FileContent.missing (some "five"))
      (save (1 ∷ []) encode dumps is_utf8 torn "fi" 5 empty_directory)
unfolding blob_of newest
save-MayWrite_example = save-MayWrite (1 ∷ []) encode dumps is_utf8 torn "fi" 5 empty_directory

abbrev events : List (Event ℕ)
events = Event.requested 1 true ∷ Event.requested 2 true ∷ Event.fired ∷ Event.requested 3 true ∷ []

saves-flushed_example :
    get_last? (saves (events ++ Event.flushed ∷ []) new) ≡ get_last? (requests events)
saves-flushed_example = saves-flushed events
