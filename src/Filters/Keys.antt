-- ===== src/Filters/Keys.antt =====
-- The cache key of a style filter, and what the parser makes of it.
use ps4_uk_stream.Prelude.{
  ◌||◌, String, ◌≡◌, refl, sym, ap, ◌∙◌, ◌↔◌, Bool, true, false, Option, none, some, List, [], ◌∷◌,
  map, arith, if◌then◌else◌, nat_eq, string_eq,
}
use ps4_uk_stream.Prelude.Sorting.{sorted, insort}
use ps4_uk_stream.Prelude.Texts.{strip, str_le, split, join}
use ps4_uk_stream.Models.{MediaStyle, style_name}
use ps4_uk_stream.Filters.{
  has, distinct, style_key, Parsed, parse_style_filter, is_empty, style_parts, invalid_parts,
  styles_of,
}

-- The sorted elements of a set, from its three memberships
abbrev one_of : Bool → MediaStyle → List MediaStyle → List MediaStyle
one_of true s rest = s ∷ rest
one_of false s rest = rest

abbrev canonical : Bool → Bool → Bool → List MediaStyle
canonical a c d =
    one_of a MediaStyle.anime (one_of c MediaStyle.cartoon (one_of d MediaStyle.dorama []))

abbrev names_of : Bool → Bool → Bool → List String
names_of a c d = map style_name (canonical a c d)

insort_anime : (c d : Bool) → insort str_le "anime" (names_of false c d) ≡ names_of true c d
unfolding insort str_le
insort_anime false false = refl
insort_anime false true = refl
insort_anime true false = refl
insort_anime true true = refl

insort_cartoon : (a d : Bool) → insort str_le "cartoon" (names_of a false d) ≡ names_of a true d
unfolding insort str_le
insort_cartoon false false = refl
insort_cartoon false true = refl
insort_cartoon true false = refl
insort_cartoon true true = refl

insort_dorama : (a c : Bool) → insort str_le "dorama" (names_of a c false) ≡ names_of a c true
unfolding insort str_le
insort_dorama false false = refl
insort_dorama false true = refl
insort_dorama true false = refl
insort_dorama true true = refl

abbrev sorted_names_of : List MediaStyle → List String
sorted_names_of f = sorted str_le (map style_name f)

with_anime :
    (a c d : Bool) (f : List MediaStyle)
    → sorted_names_of f ≡ names_of a c d
    → sorted_names_of (if a then f else MediaStyle.anime ∷ f) ≡ names_of true c d
unfolding sorted
with_anime true c d f h = h
with_anime false c d f h = rw h (insort_anime c d)

with_cartoon :
    (a c d : Bool) (f : List MediaStyle)
    → sorted_names_of f ≡ names_of a c d
    → sorted_names_of (if c then f else MediaStyle.cartoon ∷ f) ≡ names_of a true d
unfolding sorted
with_cartoon a true d f h = h
with_cartoon a false d f h = rw h (insort_cartoon a d)

with_dorama :
    (a c d : Bool) (f : List MediaStyle)
    → sorted_names_of f ≡ names_of a c d
    → sorted_names_of (if d then f else MediaStyle.dorama ∷ f) ≡ names_of a c true
unfolding sorted
with_dorama a c true f h = h
with_dorama a c false f h = rw h (insort_dorama a c)

sorted_names :
    (f : List MediaStyle)
    → sorted_names_of (distinct f)
      ≡ names_of (has MediaStyle.anime f) (has MediaStyle.cartoon f) (has MediaStyle.dorama f)
unfolding sorted
sorted_names [] = refl
sorted_names (MediaStyle.anime ∷ f) = with_anime _ _ _ (distinct f) (sorted_names f)
sorted_names (MediaStyle.cartoon ∷ f) = with_cartoon _ _ _ (distinct f) (sorted_names f)
sorted_names (MediaStyle.dorama ∷ f) = with_dorama _ _ _ (distinct f) (sorted_names f)

names_key :
    (f : List MediaStyle)
    → style_key (some f)
      ≡ join ","
          (names_of (has MediaStyle.anime f) (has MediaStyle.cartoon f) (has MediaStyle.dorama f))
unfolding style_key
names_key [] = unfold join in refl
names_key (s ∷ f) = ap (join ",") (sorted_names (s ∷ f))

abbrev key_answer : Bool → Bool → Bool → Parsed (Option (List MediaStyle))
key_answer a c d = Parsed.parsed (if a || c || d then some (canonical a c d) else none)

parse_key :
    (a c d : Bool) → parse_style_filter (some (join "," (names_of a c d))) ≡ key_answer a c d
unfolding parse_style_filter style_parts invalid_parts styles_of split strip join
parse_key false false false = refl
parse_key false false true = refl
parse_key false true false = refl
parse_key false true true = refl
parse_key true false false = refl
parse_key true false true = refl
parse_key true true false = refl
parse_key true true true = refl

has-canonical :
    (a c d : Bool)
    → (has MediaStyle.anime (canonical a c d) ≡ a)
      × (has MediaStyle.cartoon (canonical a c d) ≡ c)
      × (has MediaStyle.dorama (canonical a c d) ≡ d)
has-canonical a c d = (ground arith, ground arith, ground arith)

has-canonical_of :
    (f : List MediaStyle) (s : MediaStyle)
    → has s
        (canonical (has MediaStyle.anime f) (has MediaStyle.cartoon f) (has MediaStyle.dorama f))
      ≡ has s f
has-canonical_of f MediaStyle.anime = (has-canonical _ _ _).0
has-canonical_of f MediaStyle.cartoon = (has-canonical _ _ _).1
has-canonical_of f MediaStyle.dorama = (has-canonical _ _ _).2

some_style :
    (f : List MediaStyle)
    → (is_empty f ≡ false)
    → (has MediaStyle.anime f || has MediaStyle.cartoon f || has MediaStyle.dorama f) ≡ true
some_style [] h = ground arith
some_style (MediaStyle.anime ∷ f) h = refl
some_style (MediaStyle.cartoon ∷ f) h = ground arith
some_style (MediaStyle.dorama ∷ f) h = ground arith

-- The cache key of a style filter reads back as the filter: parsing the key of a filter with some style
-- gives a filter of the same styles.
pub parse_style_filter-style_key :
    (f : List MediaStyle)
    → is_empty f ≡ false
    → (g : List MediaStyle) × (parse_style_filter (some (style_key (some f)))
        ≡ Parsed.parsed (some g))
      × ((s : MediaStyle) → has s g ≡ has s f)
parse_style_filter-style_key f h = (
  canonical (has MediaStyle.anime f) (has MediaStyle.cartoon f) (has MediaStyle.dorama f),
  ap (λ k. parse_style_filter (some k)) (names_key f) ∙ parse_key _ _ _ ∙ rw (some_style f h) refl,
  has-canonical_of f,
)

abbrev answer_has : MediaStyle → Parsed (Option (List MediaStyle)) → Bool
answer_has s (Parsed.parsed (some styles)) = has s styles
answer_has s (Parsed.parsed none) = false
answer_has s (Parsed.bad_request error message) = false

answer_has-key_answer :
    (s : MediaStyle) (a c d : Bool) → answer_has s (key_answer a c d) ≡ has s (canonical a c d)
answer_has-key_answer MediaStyle.anime false false false = refl
answer_has-key_answer MediaStyle.cartoon false false false = refl
answer_has-key_answer MediaStyle.dorama false false false = refl
answer_has-key_answer s false false true = refl
answer_has-key_answer s false true d = refl
answer_has-key_answer s true c d = refl

answer_has-style_key :
    (f : List MediaStyle) (s : MediaStyle)
    → answer_has s (parse_style_filter (some (style_key (some f)))) ≡ has s f
answer_has-style_key f s =
    ap (λ k. answer_has s (parse_style_filter (some k))) (names_key f)
    ∙ ap (answer_has s) (parse_key _ _ _)
    ∙ answer_has-key_answer s _ _ _
    ∙ has-canonical_of f s

-- Two style filters have the same cache key exactly when they have the same styles, in any order: the key
-- neither splits the entries of one filter nor confuses two.
style_key_iff :
    (f g : List MediaStyle)
    → (style_key (some f) ≡ style_key (some g)) ↔ ((s : MediaStyle) → has s f ≡ has s g)
style_key_iff f g = (
  λ e s.
      sym (answer_has-style_key f s)
      ∙ ap (λ k. answer_has s (parse_style_filter (some k))) e
      ∙ answer_has-style_key g s,
  λ h.
      names_key f
      ∙ rw (h MediaStyle.anime, h MediaStyle.cartoon, h MediaStyle.dorama) (sym (names_key g)),
)
