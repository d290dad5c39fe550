-- ===== src/UserState/Marks.antt =====
-- Favourites and played marks: their bound, what a toggle shows, and what the bound drops.
use ps4_uk_stream.Prelude.{
  ◌||◌, ◌+◌, ◌-◌, ◌≤◌, String, ◌≡◌, refl, ◌∙◌, inl, inr, Bool, true, false, not, ◌&&◌, List, [],
  ◌∷◌, arith, ltb, if◌then◌else◌, Bool-cases, ◌==◌, nat_eq, string_eq, ==_iff, length, all,
  length-take_last, length-keep-le,
}
use ps4_uk_stream.Prelude.Membership.{
  contains, IsDistinct, contains-without, without-IsDistinct, drop-IsDistinct, contains-sorted,
  sorted-IsDistinct,
}
use ps4_uk_stream.Prelude.Sorting.{sorted, insort, length-sorted}
use ps4_uk_stream.Prelude.Texts.{str_le}
use ps4_uk_stream.UserState.{
  UserState, max_marks, add, discard, trim_marks, trim, set_favorite, set_played, is_favorite,
  is_played,
}

-- At most 256 marks, each once.
pub record AreMarks (marks : List String) : Type 0 where
  pub bounded : length marks ≤ max_marks
  pub distinct : IsDistinct marks

pub record IsValid (s : UserState) : Type 0 where
  pub favorites_ok : AreMarks s.favorites
  pub played_ok : AreMarks s.played

trim_marks-AreMarks : (marks : List String) → IsDistinct marks → AreMarks (trim_marks marks)
unfolding trim_marks
trim_marks-AreMarks marks d = elim (Bool-cases (ltb max_marks (length marks))) [
  | inl over ↦ rw over (record {
    bounded = omega (arith, length-take_last max_marks (sorted str_le marks));
    distinct =
        drop-IsDistinct (length (sorted str_le marks) - max_marks) (sorted str_le marks)
          (sorted-IsDistinct str_le marks d);
  })
  | inr fits ↦ rw fits (record { bounded = ground arith; distinct = d })
]

add-IsDistinct : (x : String) (marks : List String) → IsDistinct marks → IsDistinct (add x marks)
unfolding add
add-IsDistinct x marks d = elim (Bool-cases (contains x marks)) [
  | inl old ↦ rw old d
  | inr new ↦ rw new (new, d)
]

toggle-IsDistinct :
    (x : String) (mark : Bool) (marks : List String)
    → IsDistinct marks
    → IsDistinct (if mark then add x marks else discard x marks)
unfolding discard
toggle-IsDistinct x true marks d = add-IsDistinct x marks d
toggle-IsDistinct x false marks d = without-IsDistinct x marks d

-- Every toggle, from any valid state, leaves a valid state: both lists without repetition and with 256
-- marks at most.
pub toggles-IsValid :
    (x : String) (mark : Bool) (s : UserState)
    → IsValid s
    → IsValid (set_favorite x mark s) × IsValid (set_played x mark s)
unfolding set_favorite set_played trim
toggles-IsValid x mark s v = (
  record {
    favorites_ok =
        trim_marks-AreMarks _ (toggle-IsDistinct x mark s.favorites v.favorites_ok.distinct);
    played_ok = trim_marks-AreMarks s.played v.played_ok.distinct;
  },
  record {
    favorites_ok = trim_marks-AreMarks s.favorites v.favorites_ok.distinct;
    played_ok = trim_marks-AreMarks _ (toggle-IsDistinct x mark s.played v.played_ok.distinct);
  },
)

contains-add :
    (x y : String) (marks : List String) → contains y (add x marks) ≡ (x == y || contains y marks)
unfolding add contains
contains-add x y marks = ground (arith, ==_iff x y)

trim_fits : (marks : List String) → length marks ≤ max_marks → trim_marks marks ≡ marks
unfolding trim_marks
trim_fits marks h = ground arith

length-toggle :
    (x : String) (mark : Bool) (marks : List String)
    → length marks + (if mark then 1 else 0) ≤ max_marks
    → length (if mark then add x marks else discard x marks) ≤ max_marks
unfolding add discard
length-toggle x true marks h = ground arith
length-toggle x false marks h = omega (arith, length-keep-le (λ y. not (y == x)) marks)

contains-toggle :
    (x y : String) (mark : Bool) (marks : List String)
    → contains y (if mark then add x marks else discard x marks)
      ≡ (if x == y then mark else contains y marks)
unfolding discard
contains-toggle x y true marks = ground (arith, contains-add x y marks)
contains-toggle x y false marks = contains-without x y marks

-- From a valid state with room (fewer than 256 favourites, or an unmarking), the item toggled reads
-- back as it was set, and every other item, and the played mark of every item, reads as before.
is_favorite-set_favorite :
    (x y : String) (mark : Bool) (s : UserState)
    → IsValid s
    → length s.favorites + (if mark then 1 else 0) ≤ max_marks
    → (is_favorite y (set_favorite x mark s) ≡ (if x == y then mark else is_favorite y s))
      × (is_played y (set_favorite x mark s) ≡ is_played y s)
unfolding set_favorite trim is_favorite is_played
is_favorite-set_favorite x y mark s v room = (
  rw (trim_fits _ (length-toggle x mark s.favorites room)) (contains-toggle x y mark s.favorites),
  rw (trim_fits s.played v.played_ok.bounded) refl,
)

insort_first :
    (x : String) (ys : List String) → all (λ y. str_le x y) ys ≡ true → insort str_le x ys ≡ x ∷ ys
unfolding insort
insort_first x [] h = refl
insort_first x (y ∷ ys) h = ground arith

all-insort :
    (p : String → Bool) (x : String) (ys : List String)
    → all p (insort str_le x ys) ≡ (p x && all p ys)
unfolding insort
all-insort p x [] = refl
all-insort p x (y ∷ ys) = ground (arith, all-insort p x ys)

all-sorted : (p : String → Bool) (xs : List String) → all p (sorted str_le xs) ≡ all p xs
unfolding sorted
all-sorted p [] = refl
all-sorted p (x ∷ xs) = ground (arith, all-insort p x (sorted str_le xs), all-sorted p xs)

-- With 256 favourites, an item that is not one of them and sorts before them all is dropped by the
-- very call that marks it, which so has no effect on it.
pub set_favorite_lost :
    (x : String) (s : UserState)
    → length s.favorites ≡ max_marks
    → contains x s.favorites ≡ false
    → all (λ y. str_le x y) s.favorites ≡ true
    → is_favorite x (set_favorite x true s) ≡ false
unfolding set_favorite trim trim_marks is_favorite add
set_favorite_lost x s full new first =
    let ordered : sorted str_le (x ∷ s.favorites) ≡ x ∷ sorted str_le s.favorites =
      unfold sorted in
      insort_first x (sorted str_le s.favorites)
        (all-sorted (λ y. str_le x y) s.favorites ∙ first) in
    rw (new, full)
      (rw (ordered, length-sorted str_le s.favorites, full)
        (contains-sorted str_le x s.favorites ∙ new))
