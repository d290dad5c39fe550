-- ===== src/Merge/Forest.antt =====
-- `parent` as a forest: `find` and `union` keep it one, and as much fuel as calls is enough.
use ps4_uk_stream.Prelude.{
  [], ◌∷◌, length, List, zero, suc, ◌∙◌, ne_of_beq, inr, ◌+◌, inl, suc, if◌then◌else◌, refl, ◌==◌,
  Bool-cases, ==_refl, sym, ℕ, ◌≤◌, ◌<◌, ◌≡◌, ◌≢◌, arith, nat_eq, string_eq, ==_iff,
}
use ps4_uk_stream.Merge.Classes.{relabel, labels}
use ps4_uk_stream.Merge.{link, unions, union, find, Parents, update}

-- The heights that a union leaves
abbrev pub raised : ℕ × ℕ → (ℕ → ℕ) → (ℕ → ℕ) → ℕ → ℕ
raised (a, b) rep height =
    if rep a == rep b then height else (λ y. if rep y == rep a then height y + 1 else height y)

-- `rep` gives each index its root, and `height` falls on the way to it.
pub record Forest (parent : Parents) (rep height : ℕ → ℕ) (bound : ℕ) : Type 0 where
  pub along : (x : ℕ) → rep (parent x) ≡ rep x
  pub at_root : (x : ℕ) → parent (rep x) ≡ rep x
  pub at_top : (x : ℕ) → parent x ≡ x → rep x ≡ x
  pub falls : (x : ℕ) → parent x ≢ x → height (parent x) < height x
  pub floor : (x : ℕ) → height (rep x) ≡ 0
  pub height_le : (x : ℕ) → height x ≤ bound

module _ {parent : Parents} {rep height : ℕ → ℕ} {bound : ℕ}
    (f : Forest parent rep height bound) where
  rep_rep : (x : ℕ) → rep (rep x) ≡ rep x
  rep_rep x = f.at_top (rep x) (f.at_root x)

  halved : (x : ℕ) → parent x ≢ x → Forest (update x (parent (parent x)) parent) rep height bound
  unfolding update
  halved x moves = record {
    along = λ y. ground (arith, f.along y, f.along x, f.along (parent x), ==_iff y x);
    at_root = λ y. ground (arith, f.at_root y, ==_iff (rep y) x);
    at_top = λ y loop. ground (arith, f.at_top y, f.falls x, f.falls (parent x), ==_iff y x);
    falls = λ y out. ground (arith, f.falls y, f.falls x, f.falls (parent x), ==_iff y x);
    floor = f.floor;
    height_le = f.height_le;
  }

  at_floor : (x : ℕ) → height x ≡ 0 → rep x ≡ x
  at_floor x h = f.at_top x (ground (arith, f.falls x, ==_iff (parent x) x))

  hop_le : (x : ℕ) → parent x ≢ x → height (parent (parent x)) < height x
  hop_le x moves =
      ground (arith, f.falls x, f.falls (parent x), ==_iff (parent (parent x)) (parent x))

  joined :
      (a b : ℕ)
      → rep a ≢ rep b
      → Forest
          (update (rep a) (rep b) parent)
          (relabel (a, b) rep)
          (λ y. if rep y == rep a then height y + 1 else height y)
          (bound + 1)
  unfolding update relabel
  joined a b apart = record {
    along = λ y. ground (
      arith,
      f.along y,
      rep_rep a,
      rep_rep b,
      rep_rep y,
      ==_iff y (rep a),
      ==_iff (rep y) (rep a),
      ==_iff (rep b) (rep a),
    );
    at_root = λ y. ground (
      arith,
      f.at_root b,
      f.at_root y,
      rep_rep a,
      rep_rep b,
      rep_rep y,
      ==_iff y (rep a),
      ==_iff (rep y) (rep a),
      ==_iff (rep b) (rep a),
    );
    at_top = λ y loop. ground (
      arith,
      f.at_top y,
      rep_rep a,
      rep_rep b,
      rep_rep y,
      ==_iff y (rep a),
      ==_iff (rep y) (rep a),
      ==_iff (rep b) (rep a),
    );
    falls = λ y out. ground (
      arith,
      f.falls y,
      f.along y,
      f.floor a,
      f.floor b,
      rep_rep a,
      rep_rep b,
      rep_rep y,
      ==_iff y (rep a),
      ==_iff (rep y) (rep a),
      ==_iff (rep b) (rep a),
    );
    floor = λ y. ground (
      arith,
      f.floor b,
      f.floor y,
      rep_rep a,
      rep_rep b,
      rep_rep y,
      ==_iff y (rep a),
      ==_iff (rep y) (rep a),
      ==_iff (rep b) (rep a),
    );
    height_le = λ y. ground (arith, f.height_le y);
  }

  undone : (a b : ℕ) → rep a ≡ rep b → Forest parent (relabel (a, b) rep) height (bound + 1)
  unfolding relabel
  undone a b met = record {
    along = λ y. ground (arith, f.along y);
    at_root = λ y. ground (arith, f.at_root b, f.at_root y);
    at_top = λ y loop. ground (arith, f.at_top y, ==_iff (rep y) (rep a));
    falls = f.falls;
    floor = λ y. ground (arith, f.floor b, f.floor y);
    height_le = λ y. omega (arith, f.height_le y);
  }

  linked :
      (a b : ℕ)
      → Forest
          (link (rep a) (rep b) parent)
          (relabel (a, b) rep)
          (raised (a, b) rep height)
          (bound + 1)
  unfolding link
  linked a b = elim (Bool-cases (rep a == rep b)) [
    | inl met ↦ rw met (undone a b ((==_iff (rep a) (rep b)).0 met))
    | inr apart ↦ rw apart (joined a b (ne_of_beq (rep a) (rep b) apart))
  ]

update_self : (x v : ℕ) (parent : Parents) → update x v parent x ≡ v
unfolding update
update_self x v parent = rw (==_refl x) refl

-- `find` answers the root and keeps the forest, on fuel that is no less than the heights.
pub find-Forest :
    (fuel x : ℕ) {parent : Parents} {rep height : ℕ → ℕ} {bound : ℕ}
    → Forest parent rep height bound
    → height x ≤ fuel
    → Forest (find fuel x parent).0 rep height bound × ((find fuel x parent).1 ≡ rep x)
unfolding find
find-Forest zero x f h = (f, sym (at_floor f x (omega arith)))
find-Forest (suc fuel) x {parent} f h = elim (Bool-cases (parent x == x)) [
  | inl root ↦ rw root (f, sym (f.at_top x ((==_iff (parent x) x).0 root)))
  | inr on ↦
      let moves : parent x ≢ x = ne_of_beq (parent x) x on in
      let (f', e) =
        find-Forest fuel (parent (parent x)) (halved f x moves) (omega (arith, hop_le f x moves)) in
      rw (on, update_self x (parent (parent x)) parent) (f', e ∙ f.along (parent x) ∙ f.along x)
]

-- A call of `union` joins the two classes, on fuel that is no less than the heights.
pub union-Forest :
    (fuel : ℕ) (call : ℕ × ℕ) {parent : Parents} {rep height : ℕ → ℕ} {bound : ℕ}
    → Forest parent rep height bound
    → bound ≤ fuel
    → Forest (union fuel call parent) (relabel call rep) (raised call rep height) (bound + 1)
unfolding union
union-Forest fuel (a, b) f h =
    let (fa, ea) = find-Forest fuel a f (omega (arith, f.height_le a)) in
    let (fb, eb) = find-Forest fuel b fa (omega (arith, fa.height_le b)) in
    rw (ea, eb) (linked fb a b)

abbrev pub all_raised : List (ℕ × ℕ) → (ℕ → ℕ) → (ℕ → ℕ) → ℕ → ℕ
all_raised [] rep height = height
all_raised (call ∷ calls) rep height = all_raised calls (relabel call rep) (raised call rep height)

pub unions-Forest :
    (fuel : ℕ) (calls : List (ℕ × ℕ)) {parent : Parents} {rep height : ℕ → ℕ} (bound : ℕ)
    → Forest parent rep height bound
    → bound + length calls ≤ fuel
    → Forest (unions fuel calls parent) (labels calls rep) (all_raised calls rep height) fuel
unfolding unions labels
unions-Forest fuel [] bound f h = record {
  along = f.along;
  at_root = f.at_root;
  at_top = f.at_top;
  falls = f.falls;
  floor = f.floor;
  height_le = λ x. omega (arith, f.height_le x);
}
unions-Forest fuel (call ∷ calls) bound f h =
    unions-Forest fuel calls (bound + 1) (union-Forest fuel call f (omega arith)) (omega arith)

pub identity-Forest : Forest (λ i. i) (λ i. i) (λ i. 0) 0
identity-Forest = record {
  along = λ x. refl;
  at_root = λ x. refl;
  at_top = λ x h. refl;
  falls = λ x h. absurd (h refl);
  floor = λ x. refl;
  height_le = λ x. omega arith;
}

-- From the parents that are each their own, fuel that is no less than the number of the calls is
-- enough for every loop of `find`, in the calls of `union` and after them: `find` then returns the
-- label that its index gets when each call renames the class of its first end to that of its second.
pub find-unions :
    (fuel : ℕ) (calls : List (ℕ × ℕ)) (x : ℕ)
    → length calls ≤ fuel
    → (find fuel x (unions fuel calls (λ i. i))).1 ≡ labels calls (λ i. i) x
find-unions fuel calls x h =
    let f = unions-Forest fuel calls 0 identity-Forest (omega arith) in
    (find-Forest fuel x f (omega (arith, f.height_le x))).1
