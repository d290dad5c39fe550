-- ===== src/Prelude/Dict.antt =====
-- Python's `dict`, insertion order included: assignment to a present key keeps its place, a new
-- key goes to the end, and `pop(key, None)` leaves the order of the others.
use Prim.Native.Nat.{◌+◌, ◌≤◌}
use mathlib.Core.Path.{◌≡◌, refl, ◌∙◌}
use mathlib.Core.Logic.{inl, inr}
use mathlib.Core.Bool.{Bool}
use mathlib.Core.List.{List, [], ◌∷◌, ◌++◌}
use mathlib.Core.Option.{Option, none, some}
use native.Mathlib.Omega.{arith}
use ps4_uk_stream.Prelude.Tests.{if◌then◌else◌, is_some, Bool-cases, Option-cases}
use ps4_uk_stream.Prelude.Lists.{length, All}
use ps4_uk_stream.Prelude.Equality.{Eq, ◌==◌, ==_iff, ==_refl}

abbrev pub Dict {ℓ κ} : Type ℓ → Type κ → Type (ℓ ⊔ κ)
Dict K V = List (K × V)

-- The value of a later assignment, or that of an earlier one
abbrev pub later {ℓ} : {A : Type ℓ} → Option A → Option A → Option A
later none o = o
later (some v) o = some v

pub later-none {ℓ} : {A : Type ℓ} (o : Option A) → o ≡ later o none
later-none none = refl
later-none (some v) = refl

pub later-some {ℓ} :
    {A : Type ℓ} (o : Option A) (v : A) (p : Option A)
    → later (later o (some v)) p ≡ later o (some v)
later-some none v p = refl
later-some (some w) v p = refl

pub later_assoc {ℓ} : {A : Type ℓ} (o p : Option A) → later (later o none) p ≡ later o p
later_assoc none p = refl
later_assoc (some w) p = refl

module _ {ℓ κ} {K : Type ℓ} {V : Type κ} ⦃e : Eq K⦄ where
  -- d.get(k)
  unfoldable pub get : K → Dict K V → Option V
  get k [] = none
  get k ((j, v) ∷ d) = if j == k then some v else get k d

  -- d[k] = v
  unfoldable pub put : K → V → Dict K V → Dict K V
  put k v [] = (k, v) ∷ []
  put k v ((j, w) ∷ d) = if j == k then (j, v) ∷ d else (j, w) ∷ put k v d

  -- d.pop(k, None)
  unfoldable pub remove : K → Dict K V → Dict K V
  remove k [] = []
  remove k ((j, w) ∷ d) = if j == k then remove k d else (j, w) ∷ remove k d

  -- d.setdefault(k, v)
  unfoldable pub setdefault : K → V → Dict K V → Dict K V
  unfolding get put
  setdefault k v d = if is_some (get k d) then d else put k v d

  -- `for k, v in more.items(): d.setdefault(k, v)`
  unfoldable pub setdefaults : Dict K V → Dict K V → Dict K V
  unfolding setdefault
  setdefaults d [] = d
  setdefaults d ((k, v) ∷ more) = setdefaults (setdefault k v d) more

  -- k in d
  abbrev pub member : K → Dict K V → Bool
  member k d = is_some (get k d)

  pub get-put :
      (k j : K) (v : V) (d : Dict K V) → get j (put k v d) ≡ (if k == j then some v else get j d)
  unfolding get put
  get-put k j v [] = refl
  get-put k j v ((i, w) ∷ d) = ground (arith, ==_iff k j, ==_iff i k, ==_iff i j, get-put k j v d)

  pub get-remove :
      (k j : K) (d : Dict K V) → get j (remove k d) ≡ (if k == j then none else get j d)
  unfolding get remove
  get-remove k j [] = ground arith
  get-remove k j ((i, w) ∷ d) = ground (arith, ==_iff k j, ==_iff i k, ==_iff i j, get-remove k j d)

  pub get-put_self : (k : K) (v : V) (d : Dict K V) → get k (put k v d) ≡ some v
  get-put_self k v d = rw (get-put, ==_refl)

  pub get-remove_self : (k : K) (d : Dict K V) → get k (remove k d) ≡ none
  get-remove_self k d = rw (get-remove, ==_refl)

  pub length-put :
      (k : K) (v : V) (d : Dict K V)
      → length (put k v d) ≡ (if is_some (get k d) then length d else length d + 1)
  unfolding get put
  length-put k v [] = omega arith
  length-put k v ((i, w) ∷ d) = ground (arith, length-put k v d)

  pub length-remove-le : (k : K) (d : Dict K V) → length (remove k d) ≤ length d
  unfolding remove
  length-remove-le k [] = omega arith
  length-remove-le k ((i, w) ∷ d) = ground (arith, length-remove-le k d)

  -- A key that is present is one less after its removal.
  pub length-remove-lt :
      (k : K) (d : Dict K V) (v : V) → get k d ≡ some v → length (remove k d) + 1 ≤ length d
  unfolding get remove
  length-remove-lt k [] v h = cc
  length-remove-lt k ((i, w) ∷ d) v h = ground (arith, length-remove-lt k d v, length-remove-le k d)

  -- An absent key is appended.
  pub put_absent : (k : K) (v : V) (d : Dict K V) → get k d ≡ none → put k v d ≡ d ++ (k, v) ∷ []
  unfolding get put
  put_absent k v [] h = refl
  put_absent k v ((i, w) ∷ d) h = ground (arith, put_absent k v d)

  pub remove_absent : (k : K) (d : Dict K V) → get k d ≡ none → remove k d ≡ d
  unfolding get remove
  remove_absent k [] h = refl
  remove_absent k ((i, w) ∷ d) h = ground (arith, remove_absent k d)

  -- Each key once.
  abbrev pub DistinctKeys : Dict K V → Type κ
  DistinctKeys [] = Unit
  DistinctKeys ((k, v) ∷ d) = (get k d ≡ none) × DistinctKeys d

  pub put-DistinctKeys : (k : K) (v : V) (d : Dict K V) → DistinctKeys d → DistinctKeys (put k v d)
  unfolding put
  put-DistinctKeys k v [] h = (unfold get in refl, tt)
  put-DistinctKeys k v ((j, w) ∷ d) h = elim (Bool-cases (j == k)) [
    | inl hit ↦ rw hit h
    | inr miss ↦
        rw miss
          (ground (arith, get-put k j v d, ==_iff j k, ==_iff k j), put-DistinctKeys k v d h.1)
  ]

  pub remove-DistinctKeys : (k : K) (d : Dict K V) → DistinctKeys d → DistinctKeys (remove k d)
  unfolding remove
  remove-DistinctKeys k [] h = tt
  remove-DistinctKeys k ((j, w) ∷ d) h = elim (Bool-cases (j == k)) [
    | inl hit ↦ rw hit (remove-DistinctKeys k d h.1)
    | inr miss ↦ rw miss (ground (arith, get-remove k j d), remove-DistinctKeys k d h.1)
  ]

  -- Each listed entry is the one that its key reads.
  abbrev pub Stored : Dict K V → K × V → Type κ
  Stored d e = get e.0 d ≡ some e.1

  Stored-cons :
      (x : K × V) (d es : Dict K V) → get x.0 d ≡ none → All (Stored d) es → All (Stored (x ∷ d)) es
  unfolding get
  Stored-cons x d [] h p = tt
  Stored-cons x d (f ∷ es) h p = (ground (arith, ==_iff x.0 f.0), Stored-cons x d es h p.1)

  pub Stored-self : (d : Dict K V) → DistinctKeys d → All (Stored d) d
  unfolding get
  Stored-self [] h = tt
  Stored-self (x ∷ d) h = (rw ==_refl refl, Stored-cons x d d h.0 (Stored-self d h.1))

  pub later_empty : (o : Option V) (k : K) → later o (get k []) ≡ o
  unfolding get
  later_empty none k = refl
  later_empty (some v) k = refl

  -- `d` is assigned after `k`, which it does not have.
  pub later-put :
      (k j : K) (v : V) (d earlier : Dict K V)
      → get k d ≡ none
      → later (get j d) (if k == j then some v else get j earlier)
        ≡ later (get j ((k, v) ∷ d)) (get j earlier)
  unfolding get
  later-put k j v d earlier h = elim (Bool-cases (k == j)) [
    | inl hit ↦ let gone : get j d ≡ none = rw ((==_iff k j).0 hit) at h in rw (hit, gone) refl
    | inr miss ↦ rw miss refl
  ]

module _ {ℓ κ} {K : Type ℓ} {V : Type κ} ⦃e : Eq K⦄ where
  pub get-setdefault :
      (k j : K) (v : V) (d : Dict K V)
      → get j (setdefault k v d) ≡ later (get j d) (if k == j then some v else none)
  unfolding setdefault
  get-setdefault k j v d = elim (Option-cases (get k d)) [
    | inl new ↦
        rw (new, get-put k j v d)
          (elim (Bool-cases (k == j)) [
            | inl hit ↦ rw (hit, rw ((==_iff k j).0 hit) at new) refl
            | inr miss ↦ rw miss (later-none (get j d))
          ])
    | inr (w, old) ↦ rw old (elim (Bool-cases (k == j)) [
      | inl hit ↦ rw (hit, rw ((==_iff k j).0 hit) at old) refl
      | inr miss ↦ rw miss (later-none (get j d))
    ])
  ]

  pub get-setdefaults :
      (j : K) (d more : Dict K V) → get j (setdefaults d more) ≡ later (get j d) (get j more)
  unfolding setdefaults get
  get-setdefaults j d [] = later-none (get j d)
  get-setdefaults j d ((k, v) ∷ more) =
      get-setdefaults j (setdefault k v d) more
      ∙ rw (get-setdefault k j v d) (elim (Bool-cases (k == j)) [
        | inl hit ↦ rw hit (later-some (get j d) v (get j more))
        | inr miss ↦ rw miss (later_assoc (get j d) (get j more))
      ])

  pub setdefault-DistinctKeys :
      (k : K) (v : V) (d : Dict K V) → DistinctKeys d → DistinctKeys (setdefault k v d)
  unfolding setdefault
  setdefault-DistinctKeys k v d h = elim (Option-cases (get k d)) [
    | inl new ↦ rw new (put-DistinctKeys k v d h)
    | inr (w, old) ↦ rw old h
  ]

pub ruleset dict_laws = (get-put, get-remove)
