-- ===== src/TorrentLane/Files.antt =====
-- backend/cs_uk_api/torrent_engine.py: which file of a torrent plays, and which subtitle goes with it.
-- `str.lower` and `os.path.splitext` are arguments; a file is its index with its name.
use ps4_uk_stream.Prelude.{
  ℕ, String, ◌≡◌, refl, sym, ◌≢◌, ◌↔◌, inl, inr, Bool, true, false, ◌||◌, Option, none, some, List,
  [], ◌∷◌, arith, if◌then◌else◌, Bool-cases, Option-cases, is_some, ◌==◌, nat_eq, string_eq, any,
  keep,
}
use ps4_uk_stream.Prelude.Membership.{contains}
use ps4_uk_stream.Prelude.Texts.{ends_with, includes}

abbrev pub File : Type 0
File = ℕ × String

-- `next(f for f in files if test(f))`, none where there is no such file
abbrev pub find_file : (File → Bool) → List File → Option File
find_file test [] = none
find_file test (f ∷ files) = if test f then some f else find_file test files

abbrev pub first_file : List File → Option File
first_file [] = none
first_file (f ∷ files) = some f

abbrev pub or_then : Option File → Option File → Option File
or_then none o = o
or_then (some f) o = some f

module _ (lower : String → String) (splitext : String → String × String)
    (video_extensions : List String) where
  abbrev pub extension : File → String
  extension f = lower (splitext f.1).1

  abbrev pub matches_hint : String → File → Bool
  matches_hint hint f = includes (lower hint) (lower f.1)

  abbrev pub is_video : File → Bool
  is_video f = contains (extension f) video_extensions

  -- `if file_hint:` and the loop below it
  abbrev pub hinted : Option String → List File → Option File
  hinted none files = none
  hinted (some hint) files = if hint == "" then none else find_file (matches_hint hint) files

  -- Of no files at all, `files[0]` raises IndexError.
  unfoldable pub select_file : Option String → List File → Option File
  select_file file_hint files =
      or_then (hinted file_hint files) (or_then (find_file is_video files) (first_file files))

  abbrev pub is_srt : File → Bool
  is_srt f = extension f == ".srt"

  abbrev pub is_english : File → Bool
  is_english f = let stem = lower (splitext f.1).0 in ends_with ".en" stem || includes ".en." stem

  abbrev pub index_of : Option File → Option ℕ
  index_of none = none
  index_of (some f) = some f.0

  unfoldable pub select_subtitle : List File → Option ℕ
  select_subtitle files =
      let srts = keep is_srt files in
      index_of (or_then (find_file is_english srts) (first_file srts))

find_file_found :
    (test : File → Bool) (files : List File)
    → any test files ≡ true
    → is_some (find_file test files) ≡ true
find_file_found test [] h = h
find_file_found test (f ∷ files) h = ground (arith, find_file_found test files)

find_file_test :
    (test : File → Bool) (files : List File) (f : File)
    → find_file test files ≡ some f
    → test f ≡ true
find_file_test test [] f h = absurd cc
find_file_test test (g ∷ files) f h = elim (Bool-cases (test g)) [
  | inl hit ↦
      let found : some g ≡ some f = rw hit at h in let same : g ≡ f = cc in rw (sym same) hit
  | inr miss ↦ find_file_test test files f (rw miss at h)
]

not_lost : (o p : Option File) (f : File) → or_then o (or_then p (some f)) ≢ none
not_lost none none f e = cc
not_lost none (some g) f e = cc
not_lost (some g) p f e = cc

module _ (lower : String → String) (splitext : String → String × String)
    (video_extensions : List String) where
  -- When some file matches a hint that is not empty, the file that plays matches it.
  select_file_hinted :
      (hint : String) (files : List File)
      → (hint == "") ≡ false
      → any (matches_hint lower splitext video_extensions hint) files ≡ true
      → (f : File) × (select_file lower splitext video_extensions (some hint) files ≡ some f)
        × (matches_hint lower splitext video_extensions hint f ≡ true)
  unfolding select_file
  select_file_hinted hint files full some_match =
      let test = matches_hint lower splitext video_extensions hint in
      elim (Option-cases (find_file test files)) [
        | inl absent ↦ absurd (let h = find_file_found test files some_match in ground arith)
        | inr (f, found) ↦ (f, rw (full, found) refl, find_file_test test files f found)
      ]

  -- Some file plays exactly when there is a file.
  select_file-none :
      (file_hint : Option String) (files : List File)
      → (select_file lower splitext video_extensions file_hint files ≡ none) ↔ (files ≡ [])
  unfolding select_file
  select_file-none none [] = (λ e. refl, λ e. refl)
  select_file-none (some hint) [] = (λ e. refl, λ e. ground arith)
  select_file-none file_hint (f ∷ files) = (
    λ e. absurd (
        not_lost (hinted lower splitext video_extensions file_hint (f ∷ files))
          (find_file (is_video lower splitext video_extensions) (f ∷ files)) f e),
    λ e. absurd cc,
  )
