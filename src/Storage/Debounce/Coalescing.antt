-- ===== src/Storage/Debounce/Coalescing.antt =====
-- Over any run of calls and timers: what is saved, and in which order.
use ps4_uk_stream.Prelude.{
  ◌≡◌, refl, sym, ap, ◌∙◌, ◌⊎◌, inl, inr, Bool, true, false, Option, none, some, List, [], ◌∷◌,
  ◌++◌, arith, if◌then◌else◌, Bool-cases, nat_eq, string_eq, get_last?,
}
use mathlib.Core.List.{append-nil, append_assoc}
use ps4_uk_stream.Storage.Debounce.{Saver, new, save_some, write_pending, request, flush, close}

module _ {ℓ} {A : Type ℓ} where
  -- `xs` is `ys` with some elements left out.
  pub data Subseq : List A → List A → Type ℓ where
    done : Subseq [] []
    skip : {y : A} {xs ys : List A} → Subseq xs ys → Subseq xs (y ∷ ys)
    take_one : {y : A} {xs ys : List A} → Subseq xs ys → Subseq (y ∷ xs) (y ∷ ys)

  skip_all : {xs ys : List A} (zs : List A) → Subseq xs ys → Subseq xs (zs ++ ys)
  skip_all [] h = h
  skip_all (z ∷ zs) h = skip (skip_all zs h)

  keep_all : {xs ys : List A} (zs : List A) → Subseq xs ys → Subseq (zs ++ xs) (zs ++ ys)
  keep_all [] h = h
  keep_all (z ∷ zs) h = take_one (keep_all zs h)

  get_last?-append :
      (xs ys : List A)
      → get_last? (xs ++ ys) ≡ elim (get_last? ys) [ none ↦ get_last? xs | some y ↦ some y ]
  get_last?-append [] ys = ground arith
  get_last?-append (x ∷ []) [] = refl
  get_last?-append (x ∷ []) (y ∷ []) = refl
  get_last?-append (x ∷ []) (y ∷ y' ∷ ys) = get_last?-append (x ∷ []) (y' ∷ ys)
  get_last?-append (x ∷ x' ∷ xs) ys = get_last?-append (x' ∷ xs) ys

  get_last?_append_eq :
      (zs xs ys : List A)
      → get_last? xs ≡ get_last? ys
      → get_last? (zs ++ xs) ≡ get_last? (zs ++ ys)
  get_last?_append_eq zs xs ys h = rw (get_last?-append zs xs, h) (sym (get_last?-append zs ys))

module _ {ℓ} {A : Type ℓ} where
  get_last?_skip :
      (zs : List A) (y : A) (ys : List A) → get_last? (zs ++ y ∷ ys) ≡ get_last? (y ∷ ys)
  get_last?_skip [] y ys = refl
  get_last?_skip (z ∷ []) y ys = refl
  get_last?_skip (z ∷ z' ∷ zs) y ys = get_last?_skip (z' ∷ zs) y ys

  -- The three ways in which a call moves the waiting payload `w`, with `xs` saved later, `rest` still
  -- waiting at the end, and `asked` requested later.
  last_now :
      (p : A) (saved w left xs rest asked : List A)
      → saved ≡ p ∷ []
      → left ≡ []
      → get_last? (xs ++ rest) ≡ get_last? (left ++ asked)
      → get_last? ((saved ++ xs) ++ rest) ≡ get_last? (w ++ p ∷ asked)
  last_now p saved w left xs rest asked e f h =
      rw (e, get_last?_skip w p asked)
        (get_last?_append_eq (p ∷ []) (xs ++ rest) asked (h ∙ ap (λ l. get_last? (l ++ asked)) f))

  last_later :
      (p : A) (saved w left xs rest asked : List A)
      → saved ≡ []
      → left ≡ p ∷ []
      → get_last? (xs ++ rest) ≡ get_last? (left ++ asked)
      → get_last? ((saved ++ xs) ++ rest) ≡ get_last? (w ++ p ∷ asked)
  last_later p saved w left xs rest asked e f h =
      rw (e, get_last?_skip w p asked) (h ∙ ap (λ l. get_last? (l ++ asked)) f)

  last_written :
      (saved w left xs rest asked : List A)
      → saved ≡ w
      → left ≡ []
      → get_last? (xs ++ rest) ≡ get_last? (left ++ asked)
      → get_last? ((saved ++ xs) ++ rest) ≡ get_last? (w ++ asked)
  last_written saved w left xs rest asked e f h =
      rw (e, append_assoc w xs rest)
        (get_last?_append_eq w (xs ++ rest) asked (h ∙ ap (λ l. get_last? (l ++ asked)) f))

pub data Event (P : Type 0) : Type 0 where
  requested : P → Bool → Event P
  fired flushed closing : Event P

module _ {P : Type 0} where
  pub step : Event P → Saver P → Saver P × List (Option P)
  step (requested p running) s = request (some p) running s
  step fired s = write_pending s
  step flushed s = flush s
  step closing s = close s

  pub after : List (Event P) → Saver P → Saver P
  after [] s = s
  after (e ∷ es) s = after es (step e s).0

  pub saves : List (Event P) → Saver P → List (Option P)
  saves [] s = []
  saves (e ∷ es) s = (step e s).1 ++ saves es (step e s).0

  pub requests : List (Event P) → List (Option P)
  requests [] = []
  requests (requested p running ∷ es) = some p ∷ requests es
  requests (fired ∷ es) = requests es
  requests (flushed ∷ es) = requests es
  requests (closing ∷ es) = requests es

  -- A pending payload is what the next write saves.
  abbrev pub waiting : Saver P → List (Option P)
  waiting s = if s.has_pending then save_some s.pending else []

  -- After `close` nothing waits.
  abbrev IsSound : Saver P → Type 0
  IsSound s = s.closed ≡ true → s.has_pending ≡ false

  -- What one call does to the payload that waits.
  abbrev Effect : Saver P → Event P → Saver P × List (Option P) → Type 0
  Effect s (requested p running) r =
      ((r.1 ≡ some p ∷ []) × (waiting r.0 ≡ [])) ⊎ ((r.1 ≡ []) × (waiting r.0 ≡ some p ∷ []))
  Effect s _ r = (r.1 ≡ waiting s) × (waiting r.0 ≡ [])

  step-Effect : (e : Event P) (s : Saver P) → IsSound s → Effect s e (step e s)
  unfolding step request flush close write_pending
  step-Effect (requested p running) s h = elim (Bool-cases s.closed) [
    | inl shut ↦ ground arith
    | inr open_ ↦ ground arith
  ]
  step-Effect fired s h = ground arith
  step-Effect flushed s h = ground arith
  step-Effect closing s h = ground arith

  step-IsSound : (e : Event P) (s : Saver P) → IsSound s → IsSound (step e s).0
  unfolding step request flush close write_pending
  step-IsSound (requested p running) s h = ground arith
  step-IsSound fired s h = ground arith
  step-IsSound flushed s h = ground arith
  step-IsSound closing s h = ground arith

  Subseq-from :
      (es : List (Event P)) (s : Saver P)
      → IsSound s
      → Subseq (saves es s) (waiting s ++ requests es)
  unfolding saves requests
  Subseq-from [] s h = skip_all (waiting s) done
  Subseq-from (requested p running ∷ es) s h =
      let rest =
        Subseq-from es (step (requested p running) s).0 (step-IsSound (requested p running) s h) in
      elim (step-Effect (requested p running) s h) [
        | inl now ↦ rw now.0 (skip_all (waiting s) (take_one (rw now.1 at rest)))
        | inr later ↦ rw later.0 (skip_all (waiting s) (rw later.1 at rest))
      ]
  Subseq-from (fired ∷ es) s h =
      let (saved, emptied) = step-Effect fired s h in
      rw saved (
        keep_all (waiting s)
          (rw emptied at (Subseq-from es (step fired s).0 (step-IsSound fired s h))))
  Subseq-from (flushed ∷ es) s h =
      let (saved, emptied) = step-Effect flushed s h in
      rw saved (
        keep_all (waiting s)
          (rw emptied at (Subseq-from es (step flushed s).0 (step-IsSound flushed s h))))
  Subseq-from (closing ∷ es) s h =
      let (saved, emptied) = step-Effect closing s h in
      rw saved (
        keep_all (waiting s)
          (rw emptied at (Subseq-from es (step closing s).0 (step-IsSound closing s h))))

  -- Writes are coalesced and never invented or reordered: over any run of calls and timers on a new
  -- saver, the payloads saved are the payloads requested, in the same order, with some left out.
  pub saves-Subseq-requests : (es : List (Event P)) → Subseq (saves es new) (requests es)
  saves-Subseq-requests es = unfold new in Subseq-from es new (λ e. refl)

  last_from :
      (es : List (Event P)) (s : Saver P)
      → IsSound s
      → get_last? (saves es s ++ waiting (after es s)) ≡ get_last? (waiting s ++ requests es)
  unfolding saves requests after
  last_from [] s h = rw append-nil refl
  last_from (requested p running ∷ es) s h =
      let rest =
        last_from es (step (requested p running) s).0 (step-IsSound (requested p running) s h) in
      elim (step-Effect (requested p running) s h) [
        | inl now ↦ last_now (some p) _ (waiting s) _ _ _ _ now.0 now.1 rest
        | inr later ↦ last_later (some p) _ (waiting s) _ _ _ _ later.0 later.1 rest
      ]
  last_from (fired ∷ es) s h =
      let (saved, emptied) = step-Effect fired s h in
      last_written _ _ _ _ _ _ saved emptied
        (last_from es (step fired s).0 (step-IsSound fired s h))
  last_from (flushed ∷ es) s h =
      let (saved, emptied) = step-Effect flushed s h in
      last_written _ _ _ _ _ _ saved emptied
        (last_from es (step flushed s).0 (step-IsSound flushed s h))
  last_from (closing ∷ es) s h =
      let (saved, emptied) = step-Effect closing s h in
      last_written _ _ _ _ _ _ saved emptied
        (last_from es (step closing s).0 (step-IsSound closing s h))

  saves-append :
      (es fs : List (Event P)) (s : Saver P)
      → saves (es ++ fs) s ≡ saves es s ++ saves fs (after es s)
  unfolding saves after
  saves-append [] fs s = refl
  saves-append (e ∷ es) fs s =
      rw (saves-append es fs (step e s).0) (sym (append_assoc (step e s).1 _ _))

  last_save : (s : Saver P) → saves (flushed ∷ []) s ≡ waiting s
  unfolding saves step flush write_pending
  last_save s = ground arith

  -- The latest request wins: after any run of calls and timers on a new saver and a final `flush`,
  -- the last payload saved is the last one requested.
  pub saves-flushed :
      (es : List (Event P)) → get_last? (saves (es ++ flushed ∷ []) new) ≡ get_last? (requests es)
  saves-flushed es =
      rw (saves-append es (flushed ∷ []) new, last_save (after es new))
        (unfold new in last_from es new (λ e. refl))
