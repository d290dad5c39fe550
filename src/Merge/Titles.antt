-- ===== src/Merge/Titles.antt =====
-- The groups are the classes of the rule of merge.py.
use ps4_uk_stream.Prelude.{
  ℕ, ◌<◌, String, ◌≡◌, refl, sym, ap, inl, inr, Option, none, some, List, [], ◌∷◌, arith,
  Bool-cases, Option-cases, ◌==◌, nat_eq, string_eq, ==_iff, length,
}
use ps4_uk_stream.Prelude.Dict
use ps4_uk_stream.Prelude.Dict.{Dict, get-put}
use ps4_uk_stream.Models.{SearchResult, alias_key_eq}
use ps4_uk_stream.Merge.{
  TitleRules, enumerate, alias_calls, checked_imdb, first_with, imdb_step, imdb_calls, union_calls,
  merge_buckets,
}
use ps4_uk_stream.Merge.Classes.{Occurs, Closure, Connected, base, same, flip, step}
use ps4_uk_stream.Merge.Links.{Entry, Occurs-left, Occurs-right, Closure-mono, alias_complete}
use ps4_uk_stream.Merge.Ids.{imdb_complete}
use ps4_uk_stream.Merge.Sound.{Occurs-single, SameTitle, AllSound, AllSound-append, alias_sound}
use ps4_uk_stream.Merge.Buckets.{HoldsClass, merge_buckets-Connected}

module _ (rules : TitleRules) (world : List (ℕ × SearchResult)) where
  -- The index that stands in `imdb_seen` is that of a listed item with the id.
  abbrev AllFirst : Dict String ℕ → Type 0
  AllFirst seen =
      (imdb : String) (f : ℕ)
      → Dict.get imdb seen ≡ some f
      → (other : SearchResult) × Occurs (f, other) world
        × (checked_imdb rules other.imdb_id ≡ some imdb)

  first_sound :
      (i : ℕ) (it : SearchResult) (imdb : String) (seen : Dict String ℕ)
      → Occurs (i, it) world
      → checked_imdb rules it.imdb_id ≡ some imdb
      → AllFirst seen
      → (other : SearchResult) × Occurs (first_with (Dict.get imdb seen) i, other) world
        × (checked_imdb rules other.imdb_id ≡ some imdb)
  first_sound i it imdb seen w c f = elim (Option-cases (Dict.get imdb seen)) [
    | inl fresh ↦ rw fresh (it, w, c)
    | inr (g, found) ↦ rw found (f imdb g found)
  ]

  step_sound :
      (i : ℕ) (it : SearchResult) (o : Option String) (seen : Dict String ℕ)
      → Occurs (i, it) world
      → checked_imdb rules it.imdb_id ≡ o
      → AllFirst seen
      → AllSound rules world (imdb_step rules i o seen).0 × AllFirst (imdb_step rules i o seen).1
  step_sound i it none seen w c f = (λ a b o. elim o [ ], f)
  step_sound i it (some imdb) seen w c f =
      let (other, m, d) = first_sound i it imdb seen w c f in
      (
        λ a b o.
            let e = Occurs-single o in
            record {
              first = it;
              second = other;
              first_listed = rw (ap (λ p. p.0) e) w;
              second_listed = rw (ap (λ p. p.1) e) m;
              reason = inr (record { imdb = imdb; of_first = c; of_second = d });
            },
        λ t g h.
            let h' = rw get-put at h in
            elim (Bool-cases (imdb == t)) [
              | inl hit ↦
                  let same_first : some (first_with (Dict.get imdb seen) i) ≡ some g =
                    rw hit at h' in
                  let e : first_with (Dict.get imdb seen) i ≡ g = cc in
                  (other, rw (sym e) m, rw ((==_iff imdb t).0 hit) at d)
              | inr miss ↦ f t g (rw miss at h')
            ],
      )

  pub imdb_sound :
      (its : List Entry) (seen : Dict String ℕ)
      → ((e : Entry) → Occurs e its → Occurs e world)
      → AllFirst seen
      → AllSound rules world (imdb_calls rules its seen)
  unfolding imdb_calls
  imdb_sound [] seen w f = λ i j o. elim o [ ]
  imdb_sound ((k, it) ∷ its) seen w f =
      let (sound, f') =
        step_sound k it (checked_imdb rules it.imdb_id) seen (w (k, it) Occurs.here) refl f in
      AllSound-append rules world (imdb_step rules k (checked_imdb rules it.imdb_id) seen).0 _ sound
        (imdb_sound its _ (λ e o. w e (Occurs.there o)) f')

pub Closure-bind :
    {R S : ℕ → ℕ → Type 0}
    → ((i j : ℕ) → R i j → Closure S i j)
    → {i j : ℕ} → Closure R i j
    → Closure S i j
Closure-bind m (base {i} {j} r) = m i j r
Closure-bind m same = Closure.same
Closure-bind m (flip c) = Closure.flip (Closure-bind m c)
Closure-bind m (step c d) = Closure.step (Closure-bind m c) (Closure-bind m d)

module _ (rules : TitleRules) (items : List SearchResult) where
  -- The items at the two indices are the same title by one of the two rules.
  abbrev pub Same : ℕ → ℕ → Type 0
  Same = SameTitle rules (enumerate 0 items)

  calls_sound : (i j : ℕ) → Occurs (i, j) (union_calls rules items) → Same i j
  unfolding union_calls Dict.get
  calls_sound =
      AllSound-append rules (enumerate 0 items) (alias_calls rules (enumerate 0 items) []) _
        (alias_sound rules (enumerate 0 items) (enumerate 0 items) [] (λ e o. o)
          (λ key e o. elim o [ ]))
        (imdb_sound rules (enumerate 0 items) (enumerate 0 items) [] (λ e o. o)
          (λ imdb f h. absurd (ground arith)))

  calls_complete : (i j : ℕ) → Same i j → Connected (union_calls rules items) i j
  unfolding union_calls
  calls_complete i j s = elim s.reason [
    | inl alias ↦
        Closure-mono (λ a b. Occurs-left (imdb_calls rules (enumerate 0 items) []))
          (alias_complete rules i j s.first s.second (enumerate 0 items) [] alias s.first_listed
            s.second_listed)
    | inr imdb ↦
        Closure-mono (λ a b. Occurs-right (alias_calls rules (enumerate 0 items) []))
          (imdb_complete rules i j s.first s.second (enumerate 0 items) [] imdb s.first_listed
            s.second_listed)
  ]

  -- The bucket that holds the index of an item holds exactly the indices of the items that a chain
  -- of steps joins to it, each step between two items of the same title: a shared alias with the
  -- same form and years that are equal or not both known, or the same valid IMDb id.
  pub merge_buckets-SameTitle :
      (i : ℕ)
      → i < length items
      → HoldsClass (Closure Same) (length items) (merge_buckets rules items) i
  merge_buckets-SameTitle i h =
      let (root, members, found, held) = merge_buckets-Connected rules items i h in
      (
        root,
        members,
        found,
        λ j. (
          λ c. let (lt, joined) = (held j).0 c in (lt, Closure-mono calls_sound joined),
          λ (lt, joined). (held j).1 (lt, Closure-bind calls_complete joined),
        ),
      )
