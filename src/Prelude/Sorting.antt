-- ===== src/Prelude/Sorting.antt =====
-- Python's stable `sorted`, as insertion sort over a Boolean order on the elements.
use Prim.Native.Nat.{◌+◌}
use mathlib.Core.Path.{◌≡◌, refl}
use mathlib.Core.Bool.{Bool}
use mathlib.Core.List.{List, [], ◌∷◌}
use native.Mathlib.Omega.{arith}
use ps4_uk_stream.Prelude.Tests.{if◌then◌else◌}
use ps4_uk_stream.Prelude.Lists.{length, count_if}

module _ {ℓ} {A : Type ℓ} (le : A → A → Bool) where
  -- `x` came before the elements of the sorted list, so it goes before its equals.
  unfoldable pub insort : A → List A → List A
  insort x [] = x ∷ []
  insort x (y ∷ ys) = if le x y then x ∷ y ∷ ys else y ∷ insort x ys

  unfoldable pub sorted : List A → List A
  unfolding insort
  sorted [] = []
  sorted (x ∷ xs) = insort x (sorted xs)

  pub count_if-insort :
      (p : A → Bool) (x : A) (xs : List A) → count_if p (insort x xs) ≡ count_if p (x ∷ xs)
  unfolding insort
  count_if-insort p x [] = refl
  count_if-insort p x (y ∷ ys) = ground (arith, count_if-insort p x ys)

  pub count_if-sorted : (p : A → Bool) (xs : List A) → count_if p (sorted xs) ≡ count_if p xs
  unfolding sorted
  count_if-sorted p [] = refl
  count_if-sorted p (x ∷ xs) = omega (arith, count_if-insort p x (sorted xs), count_if-sorted p xs)

  pub length-insort : (x : A) (xs : List A) → length (insort x xs) ≡ length xs + 1
  unfolding insort
  length-insort x [] = omega arith
  length-insort x (y ∷ ys) = ground (arith, length-insort x ys)

  pub length-sorted : (xs : List A) → length (sorted xs) ≡ length xs
  unfolding sorted
  length-sorted [] = refl
  length-sorted (x ∷ xs) = omega (arith, length-insort x (sorted xs), length-sorted xs)
