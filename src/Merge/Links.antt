-- ===== src/Merge/Links.antt =====
-- The calls of `union` that the two passes make join what the rule of merge.py calls the same title.
use ps4_uk_stream.Prelude.{
  ℕ, String, ◌≡◌, refl, sym, ◌⊎◌, inl, inr, true, Option, none, some, List, [], ◌∷◌, ◌++◌, arith,
  if◌then◌else◌, Bool-cases, ◌==◌, nat_eq, string_eq, ==_refl, ==_iff,
}
use ps4_uk_stream.Prelude.Dict
use ps4_uk_stream.Prelude.Dict.{Dict, get-put}
use ps4_uk_stream.Models.{SearchResult, AliasKey, alias_key_eq}
use ps4_uk_stream.Merge.{
  TitleRules, years_match, or_empty, Seen, year_of, calls_with, alias_round, alias_calls,
  checked_imdb,
}
use ps4_uk_stream.Merge.Classes.{base, same, flip, step, Occurs, here, there, Closure, Connected}

pub Occurs-left {ℓ} :
    {A : Type ℓ} {x : A} {xs : List A} (ys : List A) → Occurs x xs → Occurs x (xs ++ ys)
Occurs-left ys here = Occurs.here
Occurs-left ys (there o) = Occurs.there (Occurs-left ys o)

pub Occurs-right {ℓ} :
    {A : Type ℓ} {x : A} (xs : List A) {ys : List A} → Occurs x ys → Occurs x (xs ++ ys)
Occurs-right [] o = o
Occurs-right (y ∷ xs) o = Occurs.there (Occurs-right xs o)

pub Occurs-split {ℓ} :
    {A : Type ℓ} {x : A} (xs : List A) {ys : List A}
    → Occurs x (xs ++ ys)
    → Occurs x xs ⊎ Occurs x ys
Occurs-split [] o = inr o
Occurs-split (y ∷ xs) here = inl Occurs.here
Occurs-split (y ∷ xs) (there o) = elim (Occurs-split xs o) [
  | inl l ↦ inl (Occurs.there l)
  | inr r ↦ inr r
]

pub Closure-mono :
    {R S : ℕ → ℕ → Type 0} → ((i j : ℕ) → R i j → S i j) → {i j : ℕ} → Closure R i j → Closure S i j
Closure-mono m (base {i} {j} r) = Closure.base (m i j r)
Closure-mono m same = Closure.same
Closure-mono m (flip c) = Closure.flip (Closure-mono m c)
Closure-mono m (step c d) = Closure.step (Closure-mono m c) (Closure-mono m d)

abbrev pub Entry : Type 0
Entry = ℕ × SearchResult

abbrev pub under : AliasKey → Seen → List Entry
under key seen = or_empty (Dict.get key seen)

abbrev pub add : AliasKey → Entry → Seen → Seen
add key e seen = Dict.put key (under key seen ++ e ∷ []) seen

pub under-add :
    (key k : AliasKey) (x : Entry) (seen : Seen)
    → under k (add key x seen) ≡ (if key == k then under k seen ++ x ∷ [] else under k seen)
under-add key k x seen = elim (Bool-cases (key == k)) [
  | inl hit ↦ rw (get-put, hit, (==_iff key k).0 hit) refl
  | inr miss ↦ rw (get-put, miss) refl
]

under-add_keeps :
    (key k : AliasKey) (x e : Entry) (seen : Seen)
    → Occurs e (under k seen)
    → Occurs e (under k (add key x seen))
under-add_keeps key k x e seen o = rw (under-add key k x seen) (elim (Bool-cases (key == k)) [
  | inl hit ↦ rw hit (Occurs-left (x ∷ []) o)
  | inr miss ↦ rw miss o
])

module _ (rules : TitleRules) where
  open rules use {title_aliases}

  -- Same alias, same form, and years that do not disagree
  pub record SameAlias (it other : SearchResult) : Type 0 where
    pub alias : String
    pub of_first : Occurs alias (title_aliases it.title)
    pub of_second : Occurs alias (title_aliases other.title)
    pub forms : it.form ≡ other.form
    pub years : years_match (year_of rules it) (year_of rules other) ≡ true

  -- The same valid IMDb id
  pub record SameImdb (it other : SearchResult) : Type 0 where
    pub imdb : String
    pub of_first : checked_imdb rules it.imdb_id ≡ some imdb
    pub of_second : checked_imdb rules other.imdb_id ≡ some imdb

  abbrev pub key_of : String → SearchResult → AliasKey
  key_of alias it = record { alias = alias; form = it.form }

  pub round_keeps :
      (i : ℕ) (it : SearchResult) (k : AliasKey) (e : Entry) (aliases : List String) (seen : Seen)
      → Occurs e (under k seen)
      → Occurs e (under k (alias_round rules i it aliases seen).1)
  unfolding alias_round
  round_keeps i it k e [] seen o = o
  round_keeps i it k e (alias ∷ aliases) seen o =
      round_keeps i it k e aliases _ (under-add_keeps (key_of alias it) k (i, it) e seen o)

  round_adds :
      (i : ℕ) (it : SearchResult) (alias : String) (aliases : List String) (seen : Seen)
      → Occurs alias aliases
      → Occurs (i, it) (under (key_of alias it) (alias_round rules i it aliases seen).1)
  unfolding alias_round
  round_adds i it alias [] seen o = elim o [ ]
  round_adds i it alias (a ∷ aliases) seen here =
      round_keeps i it (key_of alias it) (i, it) aliases _
        (rw (under-add (key_of alias it) (key_of alias it) (i, it) seen, ==_refl (key_of alias it))
          (Occurs-right (under (key_of alias it) seen) Occurs.here))
  round_adds i it alias (a ∷ aliases) seen (there o) = round_adds i it alias aliases _ o

  calls_with_complete :
      (i j : ℕ) (it other : SearchResult) (others : List Entry)
      → years_match (year_of rules it) (year_of rules other) ≡ true
      → Occurs (j, other) others
      → Occurs (i, j) (calls_with rules i it others)
  unfolding calls_with
  calls_with_complete i j it other [] y o = elim o [ ]
  calls_with_complete i j it other (e ∷ others) y here = rw y Occurs.here
  calls_with_complete i j it other ((k, it') ∷ others) y (there o) =
      let rest = calls_with_complete i j it other others y o in
      elim (Bool-cases (years_match (year_of rules it) (year_of rules it'))) [
        | inl hit ↦ rw hit (Occurs.there rest)
        | inr miss ↦ rw miss rest
      ]

  round_complete :
      (i j : ℕ) (it other : SearchResult) (alias : String) (aliases : List String) (seen : Seen)
      → years_match (year_of rules it) (year_of rules other) ≡ true
      → Occurs alias aliases
      → Occurs (j, other) (under (key_of alias it) seen)
      → Occurs (i, j) (alias_round rules i it aliases seen).0
  unfolding alias_round
  round_complete i j it other alias [] seen y a o = elim a [ ]
  round_complete i j it other alias (b ∷ aliases) seen y here o =
      Occurs-left _ (calls_with_complete i j it other (under (key_of alias it) seen) y o)
  round_complete i j it other alias (b ∷ aliases) seen y (there a) o =
      Occurs-right (calls_with rules i it (under (key_of b it) seen)) (
        round_complete i j it other alias aliases _ y a
          (under-add_keeps (key_of b it) (key_of alias it) (i, it) (j, other) seen o))

  later_complete :
      (i j : ℕ) (it other : SearchResult) (alias : String) (its : List Entry) (seen : Seen)
      → years_match (year_of rules it) (year_of rules other) ≡ true
      → Occurs alias (title_aliases it.title)
      → Occurs (i, it) its
      → Occurs (j, other) (under (key_of alias it) seen)
      → Occurs (i, j) (alias_calls rules its seen)
  unfolding alias_calls
  later_complete i j it other alias [] seen y a m o = elim m [ ]
  later_complete i j it other alias (e ∷ its) seen y a here o =
      Occurs-left _ (round_complete i j it other alias (title_aliases it.title) seen y a o)
  later_complete i j it other alias ((k, it') ∷ its) seen y a (there m) o =
      Occurs-right (alias_round rules k it' (title_aliases it'.title) seen).0 (
        later_complete i j it other alias its _ y a m
          (round_keeps k it' (key_of alias it) (j, other) (title_aliases it'.title) seen o))

  years_match_sym : (a b : Option ℕ) → years_match a b ≡ true → years_match b a ≡ true
  years_match_sym none none h = refl
  years_match_sym none (some b) h = refl
  years_match_sym (some a) none h = refl
  years_match_sym (some a) (some b) h = ground (arith, ==_iff a b, ==_iff b a)

  pub alias_complete :
      (i j : ℕ) (it other : SearchResult) (its : List Entry) (seen : Seen)
      → SameAlias it other
      → Occurs (i, it) its
      → Occurs (j, other) its
      → Connected (alias_calls rules its seen) i j
  unfolding alias_calls
  alias_complete i j it other [] seen s m n = elim m [ ]
  alias_complete i j it other (e ∷ its) seen s here here = Closure.same
  alias_complete i j it other (e ∷ its) seen s here (there n) =
      let placed = round_adds i it s.alias (title_aliases it.title) seen s.of_first in
      let moved : Occurs (i, it)
          (under (key_of s.alias other) (alias_round rules i it (title_aliases it.title) seen).1) =
        rw (sym s.forms) placed in
      Closure.flip (
        Closure.base (
          Occurs-right (alias_round rules i it (title_aliases it.title) seen).0 (
            later_complete j i other it s.alias its _
              (years_match_sym (year_of rules it) (year_of rules other) s.years) s.of_second n
              moved)))
  alias_complete i j it other (e ∷ its) seen s (there m) here =
      let placed = round_adds j other s.alias (title_aliases other.title) seen s.of_second in
      let moved : Occurs (j, other)
          (under (key_of s.alias it)
            (alias_round rules j other (title_aliases other.title) seen).1) =
        rw s.forms placed in
      Closure.base (
        Occurs-right (alias_round rules j other (title_aliases other.title) seen).0
          (later_complete i j it other s.alias its _ s.years s.of_first m moved))
  alias_complete i j it other ((k, it') ∷ its) seen s (there m) (there n) =
      Closure-mono (λ a b. Occurs-right (alias_round rules k it' (title_aliases it'.title) seen).0)
        (alias_complete i j it other its _ s m n)
