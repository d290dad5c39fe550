-- ===== src/Storage/Ladder.antt =====
-- The load ladder: when a read degrades to nothing, when it raises, and that it reads back a save.
use ps4_uk_stream.Prelude.Integers.{ℤ}
use ps4_uk_stream.Storage.Documents.{Json, Fields, field_of, as_int}
use ps4_uk_stream.Prelude.{
  ℕ, String, ◌≡◌, refl, ap, ◌∙◌, ◌≢◌, ◌↔◌, inl, inr, Bool, true, Option, none, some, List, [], ◌∷◌,
  arith, Option-cases, ◌==◌, nat_eq, string_eq, ==_refl, ==_iff, any,
}
use ps4_uk_stream.Storage.{
  FileContent, missing, unreadable, undecodable, text, Parsed, document, decode_error, other_error,
  returned, raised, newest, Directory, Faults, atomic_write, final, decode_data, load_document,
  load_parsed, load, envelope, blob_of, write_blob, save,
}

-- The contents on which an exception leaves `load`: bytes that are not UTF-8, and a text on which the
-- JSON parser raises anything but its own error.
abbrev pub Raises : (String → Parsed) → FileContent → Type 0
Raises loads missing = ⊥
Raises loads unreadable = ⊥
Raises loads undecodable = Unit
Raises loads (text raw) = loads raw ≡ other_error

any_self : (v : ℕ) (vs : List ℕ) → any (λ w. w == v) (v ∷ vs) ≡ true
any_self v vs = ground (arith, ==_refl v)

any-newest : (vs : List ℕ) (v : ℕ) → newest vs ≡ some v → any (λ w. w == v) vs ≡ true
unfolding newest
any-newest [] v h = cc
any-newest (x ∷ vs) v h = elim (Option-cases (newest vs)) [
  | inl e ↦ ground (arith, ==_iff x v)
  | inr (w, e) ↦ ground (arith, ==_iff x v, any-newest vs w e)
]

module _ {P : Type 0} (supported : List ℕ) (decode : Json → Option P)
    (loads : String → Parsed) where
  decode_data-ne-raised :
      (fields : Fields) (version : Option ℤ)
      → decode_data supported decode loads fields version ≢ raised
  unfolding decode_data
  decode_data-ne-raised fields none h = cc
  decode_data-ne-raised fields (some version) h = ground arith

  load_document-ne-raised : (doc : Json) → load_document supported decode loads doc ≢ raised
  unfolding load_document
  load_document-ne-raised (Json.obj fields) h =
      decode_data-ne-raised fields (as_int (field_of "version" fields)) h
  load_document-ne-raised _ h = cc

  load_parsed-raised_iff :
      (parsed : Parsed)
      → (load_parsed supported decode loads parsed ≡ raised) ↔ (parsed ≡ other_error)
  unfolding load_parsed
  load_parsed-raised_iff (document doc) = (λ h. absurd (load_document-ne-raised doc h), λ h. cc)
  load_parsed-raised_iff decode_error = (λ h. cc, λ h. cc)
  load_parsed-raised_iff other_error = (λ h. refl, λ h. refl)

  -- An exception leaves `load` exactly on bytes that are not UTF-8 and on a text on which the JSON
  -- parser raises anything but its own error; on every other content it returns.
  pub load-raised_iff :
      (c : FileContent) → (load supported decode loads c ≡ raised) ↔ Raises loads c
  unfolding load
  load-raised_iff missing = (λ h. cc, λ h. absurd h)
  load-raised_iff unreadable = (λ h. cc, λ h. absurd h)
  load-raised_iff undecodable = (λ h. tt, λ h. refl)
  load-raised_iff (text raw) = load_parsed-raised_iff (loads raw)

abbrev pub all_ok : Faults
all_ok = record { mkstemp_ok = true; write_ok = true; replace_ok = true; unlink_ok = true }

pub blob_of-eq :
    {P : Type 0} (supported : List ℕ) (encode : P → Option Json) (dumps : Json → Option String)
    (utf8_ok : String → Bool) (blob : String) (version : ℕ) (value : Json) (payload : P)
    → newest supported ≡ some version
    → encode payload ≡ some value
    → dumps (envelope version value) ≡ some blob
    → blob_of supported encode dumps utf8_ok payload ≡ some blob
unfolding blob_of
blob_of-eq supported encode dumps utf8_ok blob version value payload n e w = ground arith

pub save-target :
    {P : Type 0} (supported : List ℕ) (encode : P → Option Json) (dumps : Json → Option String)
    (utf8_ok : String → Bool) (partial blob : String) (payload : P) (d : Directory)
    → blob_of supported encode dumps utf8_ok payload ≡ some blob
    → utf8_ok blob ≡ true
    → final d (save supported encode dumps utf8_ok all_ok partial payload d)
      ≡ record d { target = text blob }
unfolding save write_blob atomic_write
save-target supported encode dumps utf8_ok partial blob payload d b u = rw (b, u)

pub load-envelope :
    {P : Type 0} (supported : List ℕ) (decode : Json → Option P) (loads : String → Parsed)
    (blob : String) (version : ℕ) (value : Json)
    → newest supported ≡ some version
    → loads blob ≡ document (envelope version value)
    → load supported decode loads (text blob) ≡ returned (decode value)
unfolding load envelope
load-envelope supported decode loads blob version value n p = rw (p, any-newest supported version n)

-- A save in which no call fails is read back: if the payload encodes, the envelope has the text `blob`
-- in UTF-8, and the parser and the adapter read back that text and that value, then the file loads as
-- the payload, and the temporary files are those of before.
pub load-save :
    {P : Type 0} (supported : List ℕ) (encode : P → Option Json) (decode : Json → Option P)
    (dumps : Json → Option String) (loads : String → Parsed) (utf8_ok : String → Bool)
    (partial blob : String) (version : ℕ) (value : Json) (payload : P) (d : Directory)
    → newest supported ≡ some version
    → encode payload ≡ some value
    → dumps (envelope version value) ≡ some blob
    → utf8_ok blob ≡ true
    → loads blob ≡ document (envelope version value)
    → decode value ≡ some payload
    → let d' = final d (save supported encode dumps utf8_ok all_ok partial payload d) in
      (load supported decode loads d'.target ≡ returned (some payload)) × (d'.temps ≡ d.temps)
load-save supported encode decode dumps loads utf8_ok partial blob version value payload d n e w u p
      c =
    let written : final d (save supported encode dumps utf8_ok all_ok partial payload d)
        ≡ record d { target = text blob } =
      save-target supported encode dumps utf8_ok partial blob payload d
        (blob_of-eq supported encode dumps utf8_ok blob version value payload n e w) u in
    rw written (load-envelope supported decode loads blob version value n p ∙ ap returned c, refl)
