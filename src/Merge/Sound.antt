-- ===== src/Merge/Sound.antt =====
-- Each call of `union` joins two listed items that the rule of merge.py calls the same title.
use ps4_uk_stream.Prelude.{
  ◌++◌, ℕ, String, ◌≡◌, refl, sym, ap, ◌⊎◌, inl, inr, true, List, [], ◌∷◌, ◌++◌, Bool-cases, ◌==◌,
  nat_eq, string_eq, ==_iff,
}
use ps4_uk_stream.Models.{SearchResult, AliasKey, alias_key_eq}
use ps4_uk_stream.Merge.{
  TitleRules, years_match, Seen, year_of, calls_with, alias_round, alias_calls,
}
use ps4_uk_stream.Merge.Classes.{Occurs, here, there}
use ps4_uk_stream.Merge.Links.{
  Entry, Occurs-split, under, add, under-add, key_of, SameAlias, SameImdb,
}

Occurs-cons {ℓ} : {A : Type ℓ} {x y : A} {xs : List A} → Occurs x (y ∷ xs) → (x ≡ y) ⊎ Occurs x xs
Occurs-cons here = inl refl
Occurs-cons (there o) = inr o

pub Occurs-single {ℓ} : {A : Type ℓ} {x y : A} → Occurs x (y ∷ []) → x ≡ y
Occurs-single here = refl
Occurs-single (there o) = elim o [ ]

module _ (rules : TitleRules) (world : List (ℕ × SearchResult)) where
  open rules use {title_aliases}

  -- Two listed items that the rule calls the same title
  pub record SameTitle (i j : ℕ) : Type 0 where
    pub first : SearchResult
    pub second : SearchResult
    pub first_listed : Occurs (i, first) world
    pub second_listed : Occurs (j, second) world
    pub reason : SameAlias rules first second ⊎ SameImdb rules first second

  -- An item that stands in `seen` under the key is listed and has the alias and the form.
  pub record Filed (key : AliasKey) (e : Entry) : Type 0 where
    listed : Occurs e world
    named : Occurs key.alias (title_aliases e.1.title)
    formed : key.form ≡ e.1.form

  abbrev pub AllFiled : Seen → Type 0
  AllFiled seen = (key : AliasKey) (e : Entry) → Occurs e (under key seen) → Filed key e

  AllFiled-add :
      (key : AliasKey) (x : Entry) (seen : Seen)
      → Filed key x
      → AllFiled seen
      → AllFiled (add key x seen)
  AllFiled-add key x seen new old k e o =
      let o' = rw (under-add key k x seen) at o in
      elim (Bool-cases (key == k)) [
        | inl hit ↦ elim (Occurs-split (under k seen) (rw hit at o')) [
          | inl l ↦ old k e l
          | inr r ↦ let e_x : e ≡ x = Occurs-single r in rw (e_x, sym ((==_iff key k).0 hit)) new
        ]
        | inr miss ↦ old k e (rw miss at o')
      ]

  calls_with_sound :
      (i a b : ℕ) (it : SearchResult) (others : List Entry)
      → Occurs (a, b) (calls_with rules i it others)
      → (a ≡ i)
        × (other : SearchResult) × Occurs (b, other) others
        × (years_match (year_of rules it) (year_of rules other) ≡ true)
  unfolding calls_with
  calls_with_sound i a b it [] o = elim o [ ]
  calls_with_sound i a b it ((j, other) ∷ others) o =
      elim (Bool-cases (years_match (year_of rules it) (year_of rules other))) [
        | inl hit ↦ elim (Occurs-cons (rw hit at o)) [
          | inl e ↦ (ap (λ p. p.0) e, other, rw (ap (λ p. p.1) e) Occurs.here, hit)
          | inr r ↦
              let (ea, w, m, y) = calls_with_sound i a b it others r in (ea, w, Occurs.there m, y)
        ]
        | inr miss ↦
            let (ea, w, m, y) = calls_with_sound i a b it others (rw miss at o) in
            (ea, w, Occurs.there m, y)
      ]

  -- What the rounds have found so far, each call with its reason
  abbrev pub AllSound : List (ℕ × ℕ) → Type 0
  AllSound calls = (i j : ℕ) → Occurs (i, j) calls → SameTitle i j

  pub AllSound-append : (xs ys : List (ℕ × ℕ)) → AllSound xs → AllSound ys → AllSound (xs ++ ys)
  AllSound-append xs ys p q i j o = elim (Occurs-split xs o) [ inl l ↦ p i j l | inr r ↦ q i j r ]

  round_sound :
      (i : ℕ) (it : SearchResult) (aliases : List String) (seen : Seen)
      → Occurs (i, it) world
      → ((alias : String) → Occurs alias aliases → Occurs alias (title_aliases it.title))
      → AllFiled seen
      → AllSound (alias_round rules i it aliases seen).0
        × AllFiled (alias_round rules i it aliases seen).1
  unfolding alias_round
  round_sound i it [] seen w s f = (λ a b o. elim o [ ], f)
  round_sound i it (alias ∷ aliases) seen w s f =
      let key = key_of rules alias it in
      let filed : Filed key (i, it) = record {
        listed = w;
        named = s alias Occurs.here;
        formed = refl;
      } in
      let (sound, f') =
        round_sound i it aliases (add key (i, it) seen) w (λ a o. s a (Occurs.there o))
          (AllFiled-add key (i, it) seen filed f) in
      (
        AllSound-append (calls_with rules i it (under key seen)) _
            (λ a b o.
              let (e, other, m, y) = calls_with_sound i a b it (under key seen) o in
              let found = f key (b, other) m in
              record {
                first = it;
                second = other;
                first_listed = rw e w;
                second_listed = found.listed;
                reason = inl (record {
                  alias = alias;
                  of_first = s alias Occurs.here;
                  of_second = found.named;
                  forms = found.formed;
                  years = y;
                });
              })
            sound,
        f',
      )

  pub alias_sound :
      (its : List Entry) (seen : Seen)
      → ((e : Entry) → Occurs e its → Occurs e world)
      → AllFiled seen
      → AllSound (alias_calls rules its seen)
  unfolding alias_calls
  alias_sound [] seen w f = λ i j o. elim o [ ]
  alias_sound ((k, it) ∷ its) seen w f =
      let (sound, f') =
        round_sound k it (title_aliases it.title) seen (w (k, it) Occurs.here) (λ a o. o) f in
      AllSound-append (alias_round rules k it (title_aliases it.title) seen).0 _ sound
        (alias_sound its _ (λ e o. w e (Occurs.there o)) f')
