-- ===== src/Storage/Atomic.antt =====
-- What another reader, or a restart after a crash, can find while a save is under way.
use ps4_uk_stream.Storage.Documents.{Json}
use ps4_uk_stream.Prelude.{
  ℕ, String, ◌≡◌, refl, ◌⊎◌, inl, inr, Bool, Option, none, some, List, arith, Bool-cases,
  Option-cases, nat_eq, string_eq, All,
}
use ps4_uk_stream.Storage.{
  FileContent, text, Directory, Faults, atomic_write, unlink_tmp, blob_of, write_blob, save,
}

-- The file is as before, or holds exactly the text `blob`.
abbrev pub OldOrNew : FileContent → String → Directory → Type 0
OldOrNew old blob d = (d.target ≡ old) ⊎ (d.target ≡ text blob)

atomic_write-OldOrNew :
    (faults : Faults) (blob partial : String) (d : Directory)
    → All (OldOrNew d.target blob) (atomic_write faults blob partial d)
unfolding atomic_write
atomic_write-OldOrNew faults blob partial d = elim (Bool-cases faults.mkstemp_ok) [
  | inl m ↦ elim (Bool-cases faults.write_ok) [
    | inl w ↦ elim (Bool-cases faults.replace_ok) [
      | inl r ↦ simp (m, w, r) (inl refl, (inl refl, (inr refl, tt)))
      | inr r ↦ simp (m, w, r) (inl refl, (inl refl, (unlinked _, tt)))
    ]
    | inr w ↦ simp (m, w) (inl refl, (inl refl, (unlinked _, tt)))
  ]
  | inr m ↦ simp m (inl refl, tt)
]
  where
    unlinked :
        (d' : List String) → OldOrNew d.target blob (unlink_tmp faults d (record d { temps = d' }))
    unlinked d' = ground arith

module _ {P : Type 0} (supported : List ℕ) (encode : P → Option Json) (dumps : Json → Option String)
    (utf8_ok : String → Bool) where
  -- The text that a save may leave in the file.
  abbrev pub MayWrite : FileContent → Option String → Directory → Type 0
  MayWrite old none d = d.target ≡ old
  MayWrite old (some blob) d = OldOrNew old blob d

  -- Whatever fails, and at whatever point a save is cut short, the file holds what it held before or
  -- the whole new text; it never holds a part of it. A payload that does not encode changes nothing.
  pub save-MayWrite :
      (faults : Faults) (partial : String) (payload : P) (d : Directory)
      → All
          (MayWrite d.target (blob_of supported encode dumps utf8_ok payload))
          (save supported encode dumps utf8_ok faults partial payload d)
  unfolding save write_blob
  save-MayWrite faults partial payload d =
      elim (Option-cases (blob_of supported encode dumps utf8_ok payload)) [
        | inl e ↦ rw e (refl, tt)
        | inr (blob, e) ↦ rw e (elim (Bool-cases (utf8_ok blob)) [
          | inl u ↦ rw u (atomic_write-OldOrNew faults blob partial d)
          | inr u ↦ rw u (inl refl, tt)
        ])
      ]
