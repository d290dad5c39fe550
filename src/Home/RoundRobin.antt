-- ===== src/Home/RoundRobin.antt =====
-- backend/cs_uk_api/home.py: the walk of `round_robin_dedup` over the listings of the providers. A cursor
-- into a listing is here the rest of the listing from the cursor on.
use ps4_uk_stream.Prelude.{
  ◌+◌, ◌-◌, ◌≤◌, ℕ, zero, suc, ◌≡◌, refl, sym, ap, ◌∙◌, inl, inr, List, [], ◌∷◌, ◌++◌, arith, leb,
  Bool-cases, length, take, length-take, take_of_length-le, All,
}

module _ {A : Type 0} where
  -- One round of the inner loop, with room for so many items: what it collects, and the rests. It stops
  -- in the middle when the room is used up.
  unfoldable pub pass : ℕ → List (List A) → List A × List (List A)
  pass zero listings = ([], listings)
  pass (suc room) [] = ([], [])
  pass (suc room) ([] ∷ listings) =
      let (collected, rests) = pass (suc room) listings in (collected, [] ∷ rests)
  pass (suc zero) ((x ∷ xs) ∷ listings) = (x ∷ [], xs ∷ listings)
  pass (suc (suc room)) ((x ∷ xs) ∷ listings) =
      let (collected, rests) = pass (suc room) listings in (x ∷ collected, xs ∷ rests)

  -- `if not progress: break`
  abbrev pub after_round : List A → List A → List A
  after_round [] others = []
  after_round (x ∷ xs) others = x ∷ xs ++ others

  -- The outer loop: a round without progress ends it. Each other round collects an item, so it has as
  -- much fuel as room.
  unfoldable pub walk : ℕ → ℕ → List (List A) → List A
  unfolding pass
  walk zero room listings = []
  walk (suc fuel) zero listings = []
  walk (suc fuel) (suc room) listings =
      let (collected, rests) = pass (suc room) listings in
      let others = walk fuel (suc room - length collected) rests in after_round collected others

  -- The first items of the listings, and the listings without them
  abbrev pub heads : List (List A) → List A
  heads [] = []
  heads ([] ∷ listings) = heads listings
  heads ((x ∷ xs) ∷ listings) = x ∷ heads listings

  abbrev pub tails : List (List A) → List (List A)
  tails [] = []
  tails ([] ∷ listings) = [] ∷ tails listings
  tails ((x ∷ xs) ∷ listings) = xs ∷ tails listings

  -- The listings read across: all first items, all second items, and so on for `n` rounds
  abbrev pub across : ℕ → List (List A) → List A
  across zero listings = []
  across (suc n) listings = heads listings ++ across n (tails listings)

  abbrev pub AllShorter : ℕ → List (List A) → Type 0
  AllShorter n = All (λ xs. length xs ≤ n)

  tails-AllShorter :
      (n : ℕ) (listings : List (List A))
      → AllShorter (suc n) listings
      → AllShorter n (tails listings)
  tails-AllShorter n [] h = tt
  tails-AllShorter n ([] ∷ listings) h = (omega arith, tails-AllShorter n listings h.1)
  tails-AllShorter n ((x ∷ xs) ∷ listings) h = (omega (arith, h.0), tails-AllShorter n listings h.1)

  collected-pass :
      (room : ℕ) (listings : List (List A)) → (pass room listings).0 ≡ take room (heads listings)
  unfolding pass
  collected-pass zero listings = refl
  collected-pass (suc room) [] = refl
  collected-pass (suc room) ([] ∷ listings) = collected-pass (suc room) listings
  collected-pass (suc zero) ((x ∷ xs) ∷ listings) = refl
  collected-pass (suc (suc room)) ((x ∷ xs) ∷ listings) =
      ap (◌∷◌ x) (collected-pass (suc room) listings)

  rests-pass :
      (room : ℕ) (listings : List (List A))
      → length (heads listings) + 1 ≤ room
      → (pass room listings).1 ≡ tails listings
  unfolding pass
  rests-pass zero listings h = absurd (omega arith)
  rests-pass (suc room) [] h = refl
  rests-pass (suc room) ([] ∷ listings) h = ap (◌∷◌ []) (rests-pass (suc room) listings h)
  rests-pass (suc zero) ((x ∷ xs) ∷ listings) h = absurd (omega arith)
  rests-pass (suc (suc room)) ((x ∷ xs) ∷ listings) h =
      ap (◌∷◌ xs) (rests-pass (suc room) listings (omega arith))

  across_dry : (n : ℕ) (listings : List (List A)) → heads listings ≡ [] → across n listings ≡ []
  across_dry zero listings h = refl
  across_dry (suc n) listings h = rw h (across_dry n (tails listings) (dry_tails listings h))
    where
      dry_tails : (ls : List (List A)) → heads ls ≡ [] → heads (tails ls) ≡ []
      dry_tails [] e = refl
      dry_tails ([] ∷ ls) e = dry_tails ls e
      dry_tails ((x ∷ xs) ∷ ls) e = absurd (cc e)

  take-append_over :
      (n : ℕ) (xs ys : List A) → length xs ≤ n → take n (xs ++ ys) ≡ xs ++ take (n - length xs) ys
  take-append_over n [] ys h = let e : n ≡ n - 0 = omega arith in ap (λ m. take m ys) e
  take-append_over zero (x ∷ xs) ys h = absurd (omega arith)
  take-append_over (suc n) (x ∷ xs) ys h =
      let e : n - length xs ≡ suc n - suc (length xs) = omega arith in
      ap (◌∷◌ x) (take-append_over n xs ys (omega arith) ∙ ap (λ m. xs ++ take m ys) e)

  take-append_within : (n : ℕ) (xs ys : List A) → n ≤ length xs → take n (xs ++ ys) ≡ take n xs
  take-append_within zero xs ys h = refl
  take-append_within (suc n) [] ys h = absurd (omega arith)
  take-append_within (suc n) (x ∷ xs) ys h = ap (◌∷◌ x) (take-append_within n xs ys (omega arith))

  walk_full : (fuel : ℕ) (listings : List (List A)) → walk fuel zero listings ≡ []
  unfolding walk
  walk_full zero listings = refl
  walk_full (suc fuel) listings = refl

  heads_empty : (listings : List (List A)) → AllShorter zero listings → heads listings ≡ []
  heads_empty [] h = refl
  heads_empty ([] ∷ listings) h = heads_empty listings h.1
  heads_empty ((x ∷ xs) ∷ listings) h = absurd (omega (arith, h.0))

  after_round-nonempty : (xs others : List A) → 1 ≤ length xs → after_round xs others ≡ xs ++ others
  after_round-nonempty [] others h = absurd (omega arith)
  after_round-nonempty (x ∷ xs) others h = refl

  append_nil : (xs : List A) → xs ++ [] ≡ xs
  append_nil [] = refl
  append_nil (x ∷ xs) = ap (◌∷◌ x) (append_nil xs)

  length_zero : (xs : List A) → length xs ≤ 0 → xs ≡ []
  length_zero [] h = refl
  length_zero (x ∷ xs) h = absurd (omega arith)

  walk_round :
      (fuel room : ℕ) (listings : List (List A)) (got : List A) (rests : List (List A))
      → (pass (suc room) listings).0 ≡ got
      → (pass (suc room) listings).1 ≡ rests
      → walk (suc fuel) (suc room) listings
        ≡ after_round got (walk fuel (suc room - length got) rests)
  unfolding walk
  walk_round fuel room listings got rests g r = rw (g, r) refl

  -- With no less fuel than room, the walk collects what the listings hold when read across, all first
  -- items, then all second ones, and so on, up to the room; `n` is a bound on their lengths.
  pub walk-across :
      (n fuel room : ℕ) (listings : List (List A))
      → AllShorter n listings
      → room ≤ fuel
      → walk fuel room listings ≡ take room (across n listings)
  walk-across n zero zero listings a h = walk_full zero listings
  walk-across n zero (suc room) listings a h = absurd (omega arith)
  walk-across n (suc fuel) zero listings a h = walk_full (suc fuel) listings
  walk-across zero (suc fuel) (suc room) listings a h =
      let dry : take (suc room) (heads listings) ≡ [] =
        ap (take (suc room)) (heads_empty listings a) in
      walk_round fuel room listings [] (pass (suc room) listings).1
        (collected-pass (suc room) listings ∙ dry) refl
  walk-across (suc n) (suc fuel) (suc room) listings a h =
      let hs = heads listings in
      let got = collected-pass (suc room) listings in
      elim (Bool-cases (leb (length hs) room)) [
        | inl within ↦
            let le : length hs ≤ room = ground arith in
            let round =
              walk_round fuel room listings hs (tails listings)
                (got ∙ take_of_length-le (suc room) hs (omega arith))
                (rests-pass (suc room) listings (omega arith)) in
            elim (Bool-cases (leb 1 (length hs))) [
              | inl some_got ↦
                  round
                  ∙ after_round-nonempty hs _ (ground arith)
                  ∙ ap (λ r. hs ++ r)
                      (walk-across n fuel (suc room - length hs) (tails listings)
                        (tails-AllShorter n listings a) (ground arith))
                  ∙ sym (take-append_over (suc room) hs (across n (tails listings)) (omega arith))
              | inr dry ↦
                  let nothing : hs ≡ [] = length_zero hs (ground arith) in
                  round
                  ∙ ap (λ xs. after_round xs (walk fuel (suc room - length xs) (tails listings)))
                      nothing
                  ∙ sym (ap (take (suc room)) (across_dry (suc n) listings nothing))
            ]
        | inr over ↦
            let ge : suc room ≤ length hs = ground arith in
            let full : length (take (suc room) hs) ≡ suc room =
              omega (arith, length-take (suc room) hs) in
            let spent : suc room - length (take (suc room) hs) ≡ 0 = omega arith in
            let rests = (pass (suc room) listings).1 in
            walk_round fuel room listings (take (suc room) hs) rests got refl
            ∙ ap (λ r. after_round (take (suc room) hs) (walk fuel r rests)) spent
            ∙ ap (after_round (take (suc room) hs)) (walk_full fuel rests)
            ∙ after_round-nonempty (take (suc room) hs) [] (omega arith)
            ∙ append_nil (take (suc room) hs)
            ∙ sym (take-append_within (suc room) hs (across n (tails listings)) ge)
      ]
