-- ===== src/Filters.antt =====
-- backend/cs_uk_api/filters.py: the predicates of the search and browse filters. A frozenset is a list, read
-- through membership alone.
pub mod Keys
pub mod Answers
use Prim.Native.String.{◌++◌}
use ps4_uk_stream.Prelude.{
  String, Bool, true, false, not, ◌&&◌, Option, none, some, List, [], ◌∷◌, map, if◌then◌else◌,
  is_some, ◌==◌, nat_eq, string_eq, any, keep,
}
use ps4_uk_stream.Prelude.Sorting.{sorted}
use ps4_uk_stream.Prelude.Texts.{strip, str_le, split, join}
use ps4_uk_stream.Models.{
  MediaForm, MediaStyle, form_eqb, style_eqb, style_name, SearchResult, Section,
}

-- `bool(a & b)`
abbrev pub meets : List MediaStyle → List MediaStyle → Bool
meets a b = any (λ s. any (style_eqb s) b) a

abbrev pub is_empty {ℓ} : {A : Type ℓ} → List A → Bool
is_empty [] = true
is_empty (x ∷ xs) = false

-- `form is None or item.form == form`
abbrev pub form_passes : MediaForm → Option MediaForm → Bool
form_passes item_form none = true
form_passes item_form (some form) = form_eqb item_form form

abbrev pub styles_match : List MediaStyle → Option (List MediaStyle) → Bool
styles_match item_styles none = true
styles_match item_styles (some styles) =
    if is_empty styles then is_empty item_styles else meets item_styles styles

unfoldable pub section_matches : SearchResult → Section → Bool
section_matches item section =
    if not (form_passes item.form section.form)
    then false
    else styles_match item.styles section.styles

abbrev pub style_passes : List MediaStyle → Option (List MediaStyle) → Bool
style_passes item_styles none = true
style_passes item_styles (some style_filter) = meets item_styles style_filter

unfoldable pub matches_axes : SearchResult → Option MediaForm → Option (List MediaStyle) → Bool
matches_axes item form style_filter =
    form_passes item.form form && style_passes item.styles style_filter

-- What a parser of a query parameter does: an answer, or the 400 with its error code and message.
pub data Parsed {ℓ} (A : Type ℓ) : Type ℓ where
  parsed : A → Parsed A
  bad_request : String → String → Parsed A

abbrev pub style_of_token : String → Option MediaStyle
style_of_token p =
    if p == "anime"
    then some MediaStyle.anime
    else if p == "cartoon"
    then some MediaStyle.cartoon
    else if p == "dorama"
    then some MediaStyle.dorama
    else none

abbrev pub form_of_token : String → Option MediaForm
form_of_token p =
    if p == "movie"
    then some MediaForm.movie
    else if p == "series"
    then some MediaForm.series
    else none

-- The styles of the tokens; read where no token is invalid.
unfoldable pub styles_of : List String → List MediaStyle
styles_of [] = []
styles_of (p ∷ ps) = elim (style_of_token p) [ none ↦ styles_of ps | some s ↦ s ∷ styles_of ps ]

-- `[p.strip() for p in raw.split(",") if p.strip()]`
unfoldable pub style_parts : String → List String
style_parts raw = keep (λ p. not (p == "")) (map strip (split 44 raw))

-- `[p for p in parts if p not in STYLE_TOKENS]`
unfoldable pub invalid_parts : List String → List String
invalid_parts parts = keep (λ p. not (is_some (style_of_token p))) parts

abbrev pub parse_style_parts : List String → Parsed (Option (List MediaStyle))
parse_style_parts parts =
    if is_empty parts
    then parsed none
    else if not (is_empty (invalid_parts parts))
    then bad_request "invalid_style" ("unknown style token(s): " ++ join ", " (invalid_parts parts))
    else parsed (some (styles_of parts))

unfoldable pub parse_style_filter : Option String → Parsed (Option (List MediaStyle))
parse_style_filter none = parsed none
parse_style_filter (some raw) = parse_style_parts (style_parts raw)

abbrev pub parse_form_token : String → Parsed (Option MediaForm)
parse_form_token token = elim (form_of_token token) [
  | none ↦ bad_request "invalid_form" ("unknown form token: " ++ token)
  | some form ↦ parsed (some form)
]

unfoldable pub parse_form_filter : Option String → Parsed (Option MediaForm)
parse_form_filter none = parsed none
parse_form_filter (some raw) = if strip raw == "" then parsed none else parse_form_token (strip raw)

-- `x in s`
abbrev pub has : MediaStyle → List MediaStyle → Bool
has s styles = any (style_eqb s) styles

-- The elements of a set, each once
abbrev pub distinct : List MediaStyle → List MediaStyle
distinct [] = []
distinct (s ∷ ss) = if has s ss then distinct ss else s ∷ distinct ss

unfoldable pub style_key : Option (List MediaStyle) → String
style_key none = ""
style_key (some style_filter) =
    if is_empty style_filter
    then ""
    else join "," (sorted str_le (map style_name (distinct style_filter)))
