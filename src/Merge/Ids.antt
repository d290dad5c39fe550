-- ===== src/Merge/Ids.antt =====
-- The calls of the pass over the IMDb ids join all the items of one id.
use ps4_uk_stream.Prelude.{
  ℕ, String, ◌≡◌, refl, inl, inr, Option, none, some, List, [], ◌∷◌, Bool-cases, ◌==◌, nat_eq,
  string_eq, ==_refl, ==_iff,
}
use ps4_uk_stream.Prelude.Dict
use ps4_uk_stream.Prelude.Dict.{Dict, get-put}
use ps4_uk_stream.Models.{SearchResult}
use ps4_uk_stream.Merge.{TitleRules, checked_imdb, first_with, imdb_step, imdb_calls}
use ps4_uk_stream.Merge.Classes.{Occurs, here, there, Closure, Connected}
use ps4_uk_stream.Merge.Links.{Entry, Occurs-right, Closure-mono, SameImdb}

module _ (rules : TitleRules) where
  first_stays :
      (i : ℕ) (o : Option String) (imdb : String) (f : ℕ) (seen : Dict String ℕ)
      → Dict.get imdb seen ≡ some f
      → Dict.get imdb (imdb_step rules i o seen).1 ≡ some f
  first_stays i none imdb f seen h = h
  first_stays i (some t) imdb f seen h = elim (Bool-cases (t == imdb)) [
    | inl hit ↦ rw (get-put, hit, (==_iff t imdb).0 hit, h) refl
    | inr miss ↦ rw (get-put, miss) h
  ]

  imdb_later :
      (i f : ℕ) (it : SearchResult) (imdb : String) (its : List Entry) (seen : Dict String ℕ)
      → checked_imdb rules it.imdb_id ≡ some imdb
      → Dict.get imdb seen ≡ some f
      → Occurs (i, it) its
      → Occurs (i, f) (imdb_calls rules its seen)
  unfolding imdb_calls
  imdb_later i f it imdb [] seen c h m = elim m [ ]
  imdb_later i f it imdb (e ∷ its) seen c h here = rw (c, h) Occurs.here
  imdb_later i f it imdb ((k, it') ∷ its) seen c h (there m) =
      Occurs-right (imdb_step rules k (checked_imdb rules it'.imdb_id) seen).0 (
        imdb_later i f it imdb its _ c
          (first_stays k (checked_imdb rules it'.imdb_id) imdb f seen h) m)

  imdb_head :
      (i j : ℕ) (it other : SearchResult) (imdb : String) (its : List Entry) (seen : Dict String ℕ)
      → checked_imdb rules it.imdb_id ≡ some imdb
      → checked_imdb rules other.imdb_id ≡ some imdb
      → Occurs (j, other) its
      → Connected (imdb_calls rules ((i, it) ∷ its) seen) i j
  unfolding imdb_calls
  imdb_head i j it other imdb its seen c d n =
      let f : ℕ = first_with (Dict.get imdb seen) i in
      rw c (
        Closure.step (Closure.base Occurs.here) (
          Closure.flip (
            Closure.base (
              Occurs.there
                (imdb_later j f other imdb its _ d (rw (get-put, ==_refl imdb) refl) n)))))

  pub imdb_complete :
      (i j : ℕ) (it other : SearchResult) (its : List Entry) (seen : Dict String ℕ)
      → SameImdb rules it other
      → Occurs (i, it) its
      → Occurs (j, other) its
      → Connected (imdb_calls rules its seen) i j
  unfolding imdb_calls
  imdb_complete i j it other [] seen s m n = elim m [ ]
  imdb_complete i j it other (e ∷ its) seen s here here = Closure.same
  imdb_complete i j it other (e ∷ its) seen s here (there n) =
      imdb_head i j it other s.imdb its seen s.of_first s.of_second n
  imdb_complete i j it other (e ∷ its) seen s (there m) here =
      Closure.flip (imdb_head j i other it s.imdb its seen s.of_second s.of_first m)
  imdb_complete i j it other ((k, it') ∷ its) seen s (there m) (there n) =
      Closure-mono (λ a b. Occurs-right (imdb_step rules k (checked_imdb rules it'.imdb_id) seen).0)
        (imdb_complete i j it other its _ s m n)
