-- ===== src/Prelude/Membership.antt =====
-- `x in xs`, lists without repetition, and how filters, slices and sorting treat them.
use Prim.Native.Nat.{ℕ, zero, suc}
use mathlib.Core.Path.{◌≡◌, refl, ap, ◌∙◌}
use mathlib.Core.Logic.{inl, inr}
use mathlib.Core.Bool.{Bool, false, not, ◌||◌}
use mathlib.Core.List.{List, [], ◌∷◌}
use native.Mathlib.Omega.{arith}
use ps4_uk_stream.Prelude.Tests.{if◌then◌else◌, Bool-cases}
use ps4_uk_stream.Prelude.Lists.{length-take, take, drop, keep, take_of_length-le}
use ps4_uk_stream.Prelude.Equality.{Eq, ◌==◌, ==_iff, ==_refl}
use ps4_uk_stream.Prelude.Sorting.{insort, sorted}

module _ {ℓ} {A : Type ℓ} ⦃e : Eq A⦄ where
  unfoldable pub contains : A → List A → Bool
  contains x [] = false
  contains x (y ∷ ys) = y == x || contains x ys

  abbrev pub IsDistinct : List A → Type 0
  IsDistinct [] = Unit
  IsDistinct (x ∷ xs) = (contains x xs ≡ false) × IsDistinct xs

  abbrev pub without : A → List A → List A
  without x = keep (λ y. not (y == x))

  pub contains-without :
      (x y : A) (xs : List A)
      → contains y (without x xs) ≡ (if x == y then false else contains y xs)
  unfolding contains
  contains-without x y [] = ground arith
  contains-without x y (z ∷ zs) =
      ground (arith, ==_iff z x, ==_iff z y, ==_iff x y, contains-without x y zs)

  pub contains-without_self : (x : A) (xs : List A) → contains x (without x xs) ≡ false
  contains-without_self x xs = rw (contains-without x x xs, ==_refl x)

  contains-without_of :
      (x y : A) (xs : List A) → contains y xs ≡ false → contains y (without x xs) ≡ false
  contains-without_of x y xs h = ground (arith, contains-without x y xs)

  pub without-IsDistinct : (x : A) (xs : List A) → IsDistinct xs → IsDistinct (without x xs)
  without-IsDistinct x [] d = tt
  without-IsDistinct x (y ∷ ys) d = elim (Bool-cases (y == x)) [
    | inl hit ↦ rw hit (without-IsDistinct x ys d.1)
    | inr miss ↦ rw miss (contains-without_of x y ys d.0, without-IsDistinct x ys d.1)
  ]

  contains-take :
      (n : ℕ) (x : A) (xs : List A) → contains x xs ≡ false → contains x (take n xs) ≡ false
  unfolding contains
  contains-take zero x xs h = refl
  contains-take (suc n) x [] h = refl
  contains-take (suc n) x (y ∷ ys) h = ground (arith, contains-take n x ys)

  pub take-IsDistinct : (n : ℕ) (xs : List A) → IsDistinct xs → IsDistinct (take n xs)
  take-IsDistinct zero xs d = tt
  take-IsDistinct (suc n) [] d = tt
  take-IsDistinct (suc n) (x ∷ xs) d = (contains-take n x xs d.0, take-IsDistinct n xs d.1)

  pub drop-IsDistinct : (n : ℕ) (xs : List A) → IsDistinct xs → IsDistinct (drop n xs)
  drop-IsDistinct zero xs d = d
  drop-IsDistinct (suc n) [] d = tt
  drop-IsDistinct (suc n) (x ∷ xs) d = drop-IsDistinct n xs d.1

  pub without_absent : (x : A) (xs : List A) → contains x xs ≡ false → without x xs ≡ xs
  unfolding contains
  without_absent x [] h = refl
  without_absent x (y ∷ ys) h = ground (arith, without_absent x ys)

  -- Of a list without repetition, `n + 1` elements are enough to have `n` that are not `x`.
  pub take-without-take :
      (n : ℕ) (x : A) (xs : List A)
      → IsDistinct xs
      → take n (without x (take (suc n) xs)) ≡ take n (without x xs)
  take-without-take zero x xs d = refl
  take-without-take (suc n) x [] d = refl
  take-without-take (suc n) x (y ∷ ys) d = elim (Bool-cases (y == x)) [
    | inl hit ↦
        let absent : contains x ys ≡ false = rw ((==_iff y x).0 hit) at (d.0) in
        rw
          (
            hit,
            without_absent x ys absent,
            without_absent x (take (suc n) ys) (contains-take (suc n) x ys absent),
          )
          (take_of_length-le (suc n) (take (suc n) ys) (omega (arith, length-take (suc n) ys)))
    | inr miss ↦ rw miss (ap (◌∷◌ y) (take-without-take n x ys d.1))
  ]

  module _ (le : A → A → Bool) where
    pub contains-insort :
        (x y : A) (ys : List A) → contains x (insort le y ys) ≡ (y == x || contains x ys)
    unfolding contains insort
    contains-insort x y [] = refl
    contains-insort x y (z ∷ zs) = ground (arith, contains-insort x y zs)

    pub contains-sorted : (x : A) (xs : List A) → contains x (sorted le xs) ≡ contains x xs
    unfolding contains sorted
    contains-sorted x [] = refl
    contains-sorted x (y ∷ ys) =
        ground (arith, contains-insort x y (sorted le ys), contains-sorted x ys)

    insort-IsDistinct :
        (y : A) (ys : List A) → contains y ys ≡ false → IsDistinct ys → IsDistinct (insort le y ys)
    unfolding insort contains
    insort-IsDistinct y [] h d = (h, tt)
    insort-IsDistinct y (z ∷ zs) h d = elim (Bool-cases (le y z)) [
      | inl first ↦ rw first (h, d)
      | inr later ↦ rw later (
        ground (arith, contains-insort z y zs, ==_iff y z, ==_iff z y),
        insort-IsDistinct y zs (ground arith) d.1,
      )
    ]

    pub sorted-IsDistinct : (xs : List A) → IsDistinct xs → IsDistinct (sorted le xs)
    unfolding sorted
    sorted-IsDistinct [] d = tt
    sorted-IsDistinct (x ∷ xs) d =
        insort-IsDistinct x (sorted le xs) (contains-sorted x xs ∙ d.0) (sorted-IsDistinct xs d.1)
