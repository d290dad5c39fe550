-- ===== src/Filters/Answers.antt =====
-- What the parser of `?style=` answers, and how sections and search axes compare.
use ps4_uk_stream.Prelude.{
  String, ◌≡◌, refl, ◌≢◌, true, false, Option, none, some, List, [], ◌∷◌, arith, nat_eq, string_eq,
}
use ps4_uk_stream.Models.{MediaStyle, SearchResult, Section}
use ps4_uk_stream.Filters.{
  Parsed, parse_style_filter, is_empty, section_matches, matches_axes, styles_match, style_parts,
  invalid_parts, styles_of, parse_style_parts, style_passes,
}

styles_match-style_passes :
    (item_styles : List MediaStyle) (styles : Option (List MediaStyle))
    → styles ≢ some []
    → styles_match item_styles styles ≡ style_passes item_styles styles
styles_match-style_passes item_styles none h = refl
styles_match-style_passes item_styles (some []) h = absurd (h refl)
styles_match-style_passes item_styles (some (s ∷ ss)) h = refl

-- A section whose `styles` is not the empty set filters as the search axes with its form and styles.
section_matches-matches_axes :
    (item : SearchResult) (section : Section)
    → section.styles ≢ some []
    → section_matches item section ≡ matches_axes item section.form section.styles
unfolding section_matches matches_axes
section_matches-matches_axes item section h =
    ground (arith, styles_match-style_passes item.styles section.styles h)

styles_of_ne :
    (p : String) (ps : List String)
    → is_empty (invalid_parts (p ∷ ps)) ≡ true
    → is_empty (styles_of (p ∷ ps)) ≡ false
unfolding styles_of invalid_parts
styles_of_ne p ps h = ground arith

parse_style_parts_ne : (parts : List String) → parse_style_parts parts ≢ Parsed.parsed (some [])
parse_style_parts_ne [] e = cc
parse_style_parts_ne (p ∷ ps) e = ground (arith, styles_of_ne p ps)

-- The parser of `?style=` never makes the empty filter.
parse_style_filter_ne : (raw : Option String) → parse_style_filter raw ≢ Parsed.parsed (some [])
unfolding parse_style_filter
parse_style_filter_ne none e = cc
parse_style_filter_ne (some raw) e = parse_style_parts_ne (style_parts raw) e
