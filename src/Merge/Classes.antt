-- ===== src/Merge/Classes.antt =====
-- The classes that a list of `union` calls makes: as labels, one class renamed after the other, and
-- as the least equivalence that joins the ends of every call.
use ps4_uk_stream.Prelude.{
  ℕ, ◌≡◌, refl, sym, ◌∙◌, ◌↔◌, inl, inr, List, [], ◌∷◌, arith, if◌then◌else◌, Bool-cases, ◌==◌,
  nat_eq, string_eq, ==_iff,
}

-- The call renames the class of its first end to that of its second.
unfoldable pub relabel : ℕ × ℕ → (ℕ → ℕ) → ℕ → ℕ
relabel (a, b) rep y = if rep y == rep a then rep b else rep y

unfoldable pub labels : List (ℕ × ℕ) → (ℕ → ℕ) → ℕ → ℕ
labels [] rep = rep
labels (call ∷ calls) rep = labels calls (relabel call rep)

pub data Occurs {ℓ} {A : Type ℓ} (x : A) : List A → Type ℓ where
  here : {xs : List A} → Occurs x (x ∷ xs)
  there : {y : A} {xs : List A} → Occurs x xs → Occurs x (y ∷ xs)

pub data Closure (R : ℕ → ℕ → Type 0) : ℕ → ℕ → Type 0 where
  base : {i j : ℕ} → R i j → Closure R i j
  same : {i : ℕ} → Closure R i i
  flip : {i j : ℕ} → Closure R i j → Closure R j i
  step : {i j k : ℕ} → Closure R i j → Closure R j k → Closure R i k

abbrev pub Called : List (ℕ × ℕ) → ℕ → ℕ → Type 0
Called calls i j = Occurs (i, j) calls

abbrev pub Connected : List (ℕ × ℕ) → ℕ → ℕ → Type 0
Connected calls = Closure (Called calls)

relabel_equal :
    (call : ℕ × ℕ) (rep : ℕ → ℕ) (i j : ℕ) → rep i ≡ rep j → relabel call rep i ≡ relabel call rep j
unfolding relabel
relabel_equal (a, b) rep i j h = rw h refl

relabel_ends : (a b : ℕ) (rep : ℕ → ℕ) → relabel (a, b) rep a ≡ relabel (a, b) rep b
unfolding relabel
relabel_ends a b rep = ground arith

labels_equal :
    (calls : List (ℕ × ℕ)) (rep : ℕ → ℕ) (i j : ℕ)
    → rep i ≡ rep j
    → labels calls rep i ≡ labels calls rep j
unfolding labels
labels_equal [] rep i j h = h
labels_equal (call ∷ calls) rep i j h =
    labels_equal calls (relabel call rep) i j (relabel_equal call rep i j h)

labels-Called :
    (calls : List (ℕ × ℕ)) (rep : ℕ → ℕ) (i j : ℕ)
    → Called calls i j
    → labels calls rep i ≡ labels calls rep j
unfolding labels
labels-Called [] rep i j o = elim o [ ]
labels-Called (call ∷ calls) rep i j here =
    labels_equal calls (relabel (i, j) rep) i j (relabel_ends i j rep)
labels-Called (call ∷ calls) rep i j (there o) = labels-Called calls (relabel call rep) i j o

labels-Closure :
    (calls : List (ℕ × ℕ)) (rep : ℕ → ℕ) {i j : ℕ}
    → Connected calls i j
    → labels calls rep i ≡ labels calls rep j
labels-Closure calls rep (base {i} {j} o) = labels-Called calls rep i j o
labels-Closure calls rep same = refl
labels-Closure calls rep (flip c) = sym (labels-Closure calls rep c)
labels-Closure calls rep (step c d) = labels-Closure calls rep c ∙ labels-Closure calls rep d

relabel-Closure :
    (R : ℕ → ℕ → Type 0) (a b : ℕ) (rep : ℕ → ℕ)
    → R a b
    → ((y : ℕ) → Closure R (rep y) y)
    → (y : ℕ) → Closure R (relabel (a, b) rep y) y
unfolding relabel
relabel-Closure R a b rep r c y = elim (Bool-cases (rep y == rep a)) [
  | inl hit ↦
      let e : rep y ≡ rep a = (==_iff (rep y) (rep a)).0 hit in
      let back : Closure R (rep a) y = rw e at (c y) in
      rw hit (
        Closure.step (c b)
          (Closure.step (Closure.flip (Closure.base r)) (Closure.step (Closure.flip (c a)) back)))
  | inr miss ↦ rw miss (c y)
]

labels_sound :
    (R : ℕ → ℕ → Type 0) (calls : List (ℕ × ℕ)) (rep : ℕ → ℕ)
    → ((i j : ℕ) → Called calls i j → R i j)
    → ((y : ℕ) → Closure R (rep y) y)
    → (y : ℕ) → Closure R (labels calls rep y) y
unfolding labels
labels_sound R [] rep s c y = c y
labels_sound R ((a, b) ∷ calls) rep s c y =
    labels_sound R calls (relabel (a, b) rep) (λ i j o. s i j (Occurs.there o))
      (relabel-Closure R a b rep (s a b Occurs.here) c) y

-- Two indices get the same label exactly when the calls connect them.
pub labels-Connected :
    (calls : List (ℕ × ℕ)) (i j : ℕ)
    → (labels calls (λ y. y) i ≡ labels calls (λ y. y) j) ↔ Connected calls i j
labels-Connected calls i j = (
  λ e.
      let c : (y : ℕ) → Connected calls (labels calls (λ x. x) y) y =
        labels_sound (Called calls) calls (λ y. y) (λ a b o. o) (λ y. Closure.same) in
      Closure.step (Closure.flip (c i)) (rw e (c j)),
  labels-Closure calls (λ y. y),
)
