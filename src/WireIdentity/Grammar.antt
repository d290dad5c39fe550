-- ===== src/WireIdentity/Grammar.antt =====
-- Round trips of the provider's prefix and of the movie sentinel.
use ps4_uk_stream.Prelude.{
  ℕ, suc, ◌+◌, ◌<◌, String, ◌≡◌, refl, ap, inl, inr, Bool, true, false, not, ◌&&◌, arith, eqb,
  Bool-cases, ◌==◌, nat_eq, string_eq, ==_refl, ==_iff,
}
use Prim.Native.Char.{Char, code}
use Prim.Native.String.append
use Prim.Native.String.{◌++◌ as ◌<>◌}
use ps4_uk_stream.Prelude.Texts.{before, after, ends_with, remove_suffix}
use ps4_uk_stream.WireIdentity.{movie_suffix, is_movie_wire_id, strip_movie_suffix, split_wire_id}

-- No character of the text is the one given.
abbrev pub lacks : ℕ → String → Bool
lacks c String.[] = true
lacks c (String.◌∷◌ d s) = not (eqb (code d) c) && lacks c s

before_join :
    (provider rest : String)
    → lacks 58 provider ≡ true
    → before 58 (provider <> String.◌∷◌ ":" rest) ≡ provider
unfolding before
before_join String.[] rest h = rw append.nil refl
before_join (String.◌∷◌ d s) rest h = rw append.cons (ground (arith, before_join s rest))

after_join :
    (provider rest : String)
    → lacks 58 provider ≡ true
    → after 58 (provider <> String.◌∷◌ ":" rest) ≡ rest
unfolding after
after_join String.[] rest h = rw append.nil refl
after_join (String.◌∷◌ d s) rest h = rw append.cons (ground (arith, after_join s rest))

colon_join : (rest : String) → ":" <> rest ≡ String.◌∷◌ ":" rest
colon_join rest = rw (append.cons, append.nil) refl

-- Splitting `provider:external` gives the two back, for a provider without a colon; the external id
-- may have colons.
split_wire_id-join :
    (provider external : String)
    → lacks 58 provider ≡ true
    → split_wire_id (provider <> (":" <> external)) ≡ (provider, external)
unfolding split_wire_id
split_wire_id-join provider external h =
    rw (colon_join external, before_join provider external h, after_join provider external h) refl

str_length : String → ℕ
str_length String.[] = 0
str_length (String.◌∷◌ c s) = suc (str_length s)

str_length-join : (s t : String) → str_length (s <> t) ≡ str_length s + str_length t
unfolding str_length
str_length-join String.[] t = rw append.nil (omega arith)
str_length-join (String.◌∷◌ c s) t = rw append.cons (omega (arith, str_length-join s t))

longer : (s t : String) → str_length t < str_length s → (s == t) ≡ false
longer s t h = elim (Bool-cases (s == t)) [
  | inl hit ↦ absurd (let e : s ≡ t = (==_iff s t).0 hit in let l = ap str_length e in omega arith)
  | inr miss ↦ miss
]

longer_join : (c : Char) (s t : String) → (String.◌∷◌ c (s <> t) == t) ≡ false
unfolding str_length
longer_join c s t = longer (String.◌∷◌ c (s <> t)) t (omega (arith, str_length-join s t))

remove_suffix-join :
    (s suffix : String) (c : Char)
    → remove_suffix (String.◌∷◌ c suffix) (s <> String.◌∷◌ c suffix) ≡ s
unfolding remove_suffix
remove_suffix-join String.[] suffix c = rw (append.nil, ==_refl) refl
remove_suffix-join (String.◌∷◌ d s) suffix c =
    rw (append.cons, longer_join d s (String.◌∷◌ c suffix), remove_suffix-join s suffix c) refl

ends_with-join :
    (s suffix : String) (c : Char)
    → ends_with (String.◌∷◌ c suffix) (s <> String.◌∷◌ c suffix) ≡ true
unfolding ends_with
ends_with-join String.[] suffix c = rw (append.nil, ==_refl) refl
ends_with-join (String.◌∷◌ d s) suffix c =
    rw (append.cons, longer_join d s (String.◌∷◌ c suffix)) (ends_with-join s suffix c)

-- The id of a movie, the external id with the sentinel, is known as one, and stripping it gives the
-- external id back.
strip_movie_suffix-join :
    (external : String)
    → (is_movie_wire_id (external <> movie_suffix) ≡ true)
      × (strip_movie_suffix (external <> movie_suffix) ≡ external)
unfolding is_movie_wire_id strip_movie_suffix
strip_movie_suffix-join external =
    let known = ends_with-join external "__movie__" ":" in
    (known, rw known (remove_suffix-join external "__movie__" ":"))
