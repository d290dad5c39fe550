-- ===== src/UserState/Dubs.antt =====
-- The dub memory: the newest pick wins, stands last, and only the oldest picks are evicted.
use ps4_uk_stream.Prelude.{
  ℕ, zero, suc, ◌+◌, ◌-◌, ◌≤◌, String, ◌≡◌, refl, sym, ap, ◌∙◌, inl, inr, [], ◌∷◌, ◌++◌, arith, leb,
  Bool-cases, nat_eq, string_eq, ==_refl, length, drop, take_last,
}
use ps4_uk_stream.Prelude.Dict
use ps4_uk_stream.Prelude.Dict.{
  Dict, DistinctKeys, get-remove_self, put_absent, length-put, length-remove-le, remove_absent,
  put-DistinctKeys, remove-DistinctKeys,
}
use ps4_uk_stream.UserState.{UserState, max_dub_memory, drop_oldest, remember_dub}

remove_head : (k v : String) (d : Dict String String) → Dict.remove k ((k, v) ∷ d) ≡ Dict.remove k d
unfolding Dict.remove
remove_head k v d = rw ==_refl refl

length-drop_oldest-le :
    (rounds : ℕ) (d : Dict String String)
    → length d ≤ rounds + max_dub_memory
    → length (drop_oldest rounds d) ≤ max_dub_memory
unfolding drop_oldest
length-drop_oldest-le zero d h = omega arith
length-drop_oldest-le (suc rounds) [] h = omega arith
length-drop_oldest-le (suc rounds) ((k, v) ∷ d) h =
    rw (remove_head k v d)
      (ground (arith, length-drop_oldest-le rounds (Dict.remove k d), length-remove-le k d))

drop_oldest_fits :
    (rounds : ℕ) (d : Dict String String) → length d ≤ max_dub_memory → drop_oldest rounds d ≡ d
unfolding drop_oldest
drop_oldest_fits zero d h = refl
drop_oldest_fits (suc rounds) [] h = refl
drop_oldest_fits (suc rounds) ((k, v) ∷ d) h = ground arith

drop_oldest_over :
    (rounds : ℕ) (k v : String) (d : Dict String String)
    → length d ≡ max_dub_memory
    → DistinctKeys ((k, v) ∷ d)
    → drop_oldest (suc rounds) ((k, v) ∷ d) ≡ d
unfolding drop_oldest
drop_oldest_over rounds k v d h u =
    rw (remove_head k v d, remove_absent k d u.0, drop_oldest_fits rounds d (omega arith))
      (ground arith)

drop_oldest-take_last :
    (d : Dict String String)
    → DistinctKeys d
    → length d ≤ max_dub_memory + 1
    → drop_oldest (length d) d ≡ take_last max_dub_memory d
drop_oldest-take_last [] u h = unfold drop_oldest in refl
drop_oldest-take_last ((k, v) ∷ d) u h =
    elim (Bool-cases (leb (length ((k, v) ∷ d)) max_dub_memory)) [
      | inl fits ↦
          let le : length ((k, v) ∷ d) ≤ max_dub_memory = ground arith in
          let none_over : length ((k, v) ∷ d) - max_dub_memory ≡ 0 = omega arith in
          drop_oldest_fits (length ((k, v) ∷ d)) ((k, v) ∷ d) le
          ∙ sym (ap (λ n. drop n ((k, v) ∷ d)) none_over)
      | inr over ↦
          let full : length d ≡ max_dub_memory = ground arith in
          let one_over : length ((k, v) ∷ d) - max_dub_memory ≡ 1 = omega arith in
          drop_oldest_over (length d) k v d full u ∙ sym (ap (λ n. drop n ((k, v) ∷ d)) one_over)
    ]

-- In a memory of 50 series at most, each once, a pick puts the series last, behind the others in
-- their order, and only the 50 newest picks stay: the memory runs from the least to the most
-- recently picked series.
pub remember_dub-take_last :
    (series label : String) (s : UserState)
    → DistinctKeys s.dub_memory
    → length s.dub_memory ≤ max_dub_memory
    → (remember_dub series label s).dub_memory
      ≡ take_last max_dub_memory (Dict.remove series s.dub_memory ++ (series, label) ∷ [])
unfolding remember_dub
remember_dub-take_last series label s u h =
    let others = Dict.remove series s.dub_memory in
    let appended : Dict.put series label others ≡ others ++ (series, label) ∷ [] =
      put_absent series label others (get-remove_self series s.dub_memory) in
    drop_oldest-take_last (Dict.put series label others)
      (put-DistinctKeys series label others (remove-DistinctKeys series s.dub_memory u))
      (ground (arith, length-put series label others, length-remove-le series s.dub_memory))
    ∙ ap (take_last max_dub_memory) appended
