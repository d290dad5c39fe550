-- ===== src/Storage.antt =====
-- backend/cs_uk_api/versioned_store.py: `VersionedFileStore`. The directory holds the store's file and
-- the temporary files of unfinished writes; which system calls fail is the argument `faults`.
-- `json.loads`, `json.dumps` and the adapter's `encode` and `decode` are the section's parameters.
pub mod Documents
pub mod Ladder
pub mod Atomic
pub mod Debounce
use ps4_uk_stream.Prelude.Integers.{ℤ, pos, negsuc}
use Documents.{Json, Fields, field_of, or_null, as_int}
use ps4_uk_stream.Prelude.{
  ℕ, max, String, Bool, false, Option, none, some, List, [], ◌∷◌, if◌then◌else◌, ◌==◌, nat_eq,
  string_eq, any,
}

-- What `read_text` meets at the path.
pub data FileContent : Type 0 where
  missing : FileContent
  unreadable : FileContent
  undecodable : FileContent
  text : String → FileContent

-- What `json.loads` answers: a document, `JSONDecodeError`, or another exception.
pub data Parsed : Type 0 where
  document : Json → Parsed
  decode_error : Parsed
  other_error : Parsed

-- A method returns, or an exception leaves it.
pub data Outcome (A : Type 0) : Type 0 where
  returned : A → Outcome A
  raised : Outcome A

-- `doc["version"] in self._supported`
unfoldable pub supports : List ℕ → ℤ → Bool
supports versions (pos n) = any (λ v. v == n) versions
supports versions (negsuc n) = false

-- `max(self._supported)`, which raises on an empty tuple
unfoldable pub newest : List ℕ → Option ℕ
newest [] = none
newest (v ∷ vs) = some (elim (newest vs) [ none ↦ v | some w ↦ max v w ])

pub record Directory : Type 0 where
  pub target : FileContent
  pub temps : List String

-- Which calls of `_atomic_write` succeed.
pub record Faults : Type 0 where
  pub mkstemp_ok : Bool
  pub write_ok : Bool
  pub replace_ok : Bool
  pub unlink_ok : Bool

-- The handler of a failed write: `os.unlink(tmp)`, whose own failure is passed over.
unfoldable pub unlink_tmp : Faults → Directory → Directory → Directory
unlink_tmp faults d d' = if faults.unlink_ok then record d' { temps = d.temps } else d'

-- `_atomic_write`: the directory after each of its system calls. `tmp` is what the temporary file
-- holds when its write ends, the whole text or, when the write fails, the part `partial` of it.
unfoldable pub atomic_write : Faults → String → String → Directory → List Directory
unfolding unlink_tmp
atomic_write faults blob partial d =
    if faults.mkstemp_ok
    then (let opened = record d { temps = "" ∷ d.temps } in
        if faults.write_ok
        then (let written = record d { temps = blob ∷ d.temps } in
            if faults.replace_ok
            then opened ∷ written ∷ record d { target = text blob } ∷ []
            else opened ∷ written ∷ unlink_tmp faults d written ∷ [])
        else (let torn = record d { temps = partial ∷ d.temps } in
            opened ∷ torn ∷ unlink_tmp faults d torn ∷ []))
    else d ∷ []

-- The directory when the call returns.
abbrev pub final : Directory → List Directory → Directory
final d [] = d
final d (s ∷ states) = final s states

module _ {P : Type 0} (supported : List ℕ) (decode : Json → Option P)
    (loads : String → Parsed) where
  -- The `data` value through the adapter; any exception of it degrades to None.
  unfoldable pub decode_data : Fields → Option ℤ → Outcome (Option P)
  unfolding supports field_of
  decode_data fields none = returned none
  decode_data fields (some version) =
      if supports supported version
      then returned (decode (or_null (field_of "data" fields)))
      else returned none

  unfoldable pub load_document : Json → Outcome (Option P)
  unfolding decode_data as_int
  load_document (Json.obj fields) = decode_data fields (as_int (field_of "version" fields))
  load_document _ = returned none

  -- `except json.JSONDecodeError` stops no other exception.
  unfoldable pub load_parsed : Parsed → Outcome (Option P)
  unfolding load_document
  load_parsed (document doc) = load_document doc
  load_parsed decode_error = returned none
  load_parsed other_error = raised

  -- `read_text` raises `UnicodeDecodeError`, which is no `OSError`, on bytes that are not UTF-8.
  unfoldable pub load : FileContent → Outcome (Option P)
  unfolding load_parsed
  load missing = returned none
  load unreadable = returned none
  load undecodable = raised
  load (text raw) = load_parsed (loads raw)

-- `{"version": max(self._supported), "data": self._encode(payload)}`
unfoldable pub envelope : ℕ → Json → Json
envelope version value =
    Json.obj
      (Fields.field "version" (Json.int (pos version)) (Fields.field "data" value Fields.end))

-- `atomic_write_text`: `text.encode("utf-8")` may raise, and then nothing is written.
unfoldable pub atomic_write_text :
    (String → Bool) → Faults → String → String → Directory → List Directory
atomic_write_text utf8_ok faults blob partial d =
    if utf8_ok blob then atomic_write faults blob partial d else d ∷ []

-- The end of `save`: a text that was not made, for an exception on the way, is not written.
unfoldable pub write_blob :
    (String → Bool) → Faults → String → Option String → Directory → List Directory
unfolding atomic_write_text
write_blob utf8_ok faults partial none d = d ∷ []
write_blob utf8_ok faults partial (some blob) d = atomic_write_text utf8_ok faults blob partial d

module _ {P : Type 0} (supported : List ℕ) (encode : P → Option Json) (dumps : Json → Option String)
    (utf8_ok : String → Bool) where
  -- The text that `save` writes, if nothing raises on the way.
  unfoldable pub blob_of : P → Option String
  unfolding newest envelope
  blob_of payload = elim (newest supported) [
    | none ↦ none
    | some version ↦ elim (encode payload) [
      | none ↦ none
      | some value ↦ dumps (envelope version value)
    ]
  ]

  -- `save`: the states of the directory on the way. It never raises.
  unfoldable pub save : Faults → String → P → Directory → List Directory
  save faults partial payload d = write_blob utf8_ok faults partial (blob_of payload) d
