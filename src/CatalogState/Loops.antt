-- ===== src/CatalogState/Loops.antt =====
-- The loops of `register_search`: what they add and what they keep.
use ps4_uk_stream.Prelude.{
  ℕ, String, ◌≡◌, refl, sym, ap, ◌∙◌, inl, inr, false, ◌||◌, Option, none, some, [], ◌∷◌, arith,
  if◌then◌else◌, Bool-cases, Option-cases, ◌==◌, ==_iff, nat_eq, string_eq,
}
use ps4_uk_stream.Prelude.Dict
use ps4_uk_stream.Prelude.Dict.{Dict, later, get-put, get-setdefaults}
use ps4_uk_stream.Models.{SearchResult}
use ps4_uk_stream.CatalogState.{Sources, no_card}
use ps4_uk_stream.CatalogState.Searches.{
  Registering, adds, register_sources, register_index, register_owned, register_key,
  earlier_providers,
}
use ps4_uk_stream.CatalogState.Layers.{cell}

covered :
    (p : String) (union current : Dict String SearchResult)
    → adds union current ≡ false
    → later (Dict.get p current) (Dict.get p union) ≡ Dict.get p current
unfolding Dict.get
covered p [] current h = sym (Dict.later-none (Dict.get p current))
covered p ((q, c) ∷ union) current h = elim (Bool-cases (q == p)) [
  | inl hit ↦ elim (Option-cases (Dict.get p current)) [
    | inl gone ↦
        let missing : Dict.get q current ≡ none = rw (← (==_iff q p).0 hit) at gone in
        absurd (ground (arith, missing))
    | inr (w, there) ↦ rw there refl
  ]
  | inr miss ↦ rw miss (covered p union current (ground arith))
]

cell-put :
    (key k p : String) (d : Dict String SearchResult) (m : Sources)
    → cell k p (Dict.put key d m) ≡ (if key == k then Dict.get p d else cell k p m)
cell-put key k p d m = elim (Bool-cases (key == k)) [
  | inl hit ↦ rw (get-put key k d m, hit) refl
  | inr miss ↦ rw (get-put key k d m, miss) refl
]

cell-register_sources :
    (key k p : String) (union : Dict String SearchResult) (o : Option (Dict String SearchResult))
    (s : Registering)
    → Dict.get key s.existing ≡ o
    → cell k p (register_sources key union o s).existing
      ≡ later (cell k p s.existing) (if key == k then Dict.get p union else none)
unfolding register_sources
cell-register_sources key k p union none s h = elim (Bool-cases (key == k)) [
  | inl hit ↦
      let gone : Dict.get k s.existing ≡ none = rw ((==_iff key k).0 hit) at h in
      rw (cell-put key k p union s.existing, hit, gone) refl
  | inr miss ↦ rw (cell-put key k p union s.existing, miss) (Dict.later-none (cell k p s.existing))
]
cell-register_sources key k p union (some current) s h = elim (Bool-cases (adds union current)) [
  | inl more ↦ rw more (elim (Bool-cases (key == k)) [
    | inl hit ↦
        let there : Dict.get k s.existing ≡ some current = rw ((==_iff key k).0 hit) at h in
        rw (cell-put key k p (Dict.setdefaults current union) s.existing, hit, there)
          (get-setdefaults p current union)
    | inr miss ↦
        rw (cell-put key k p (Dict.setdefaults current union) s.existing, miss)
          (Dict.later-none (cell k p s.existing))
  ])
  | inr same ↦ rw same (elim (Bool-cases (key == k)) [
    | inl hit ↦
        let there : Dict.get k s.existing ≡ some current = rw ((==_iff key k).0 hit) at h in
        rw (hit, there) (sym (covered p union current same))
    | inr miss ↦ rw miss (Dict.later-none (cell k p s.existing))
  ])
]

pub existing-register_index :
    (key : String) (s : Registering) → (register_index key s).existing ≡ s.existing
unfolding register_index
existing-register_index key s = ground arith

-- A round adds the union to the key's entry of the map, first seen first.
pub cell-register_key :
    (now expires_at : ℕ) (union : Dict String SearchResult) (key k p : String) (s : Registering)
    → cell k p (register_key now expires_at union key s).existing
      ≡ later (cell k p s.existing) (if key == k then Dict.get p union else none)
unfolding register_key register_owned
cell-register_key now expires_at union key k p s =
    let s' = register_sources key union (Dict.get key s.existing) s in
    ap (cell k p) (existing-register_index key s')
    ∙ cell-register_sources key k p union (Dict.get key s.existing) s refl

pub index-register_sources :
    (key : String) (union : Dict String SearchResult) (o : Option (Dict String SearchResult))
    (s : Registering)
    → (register_sources key union o s).index ≡ s.index
unfolding register_sources
index-register_sources key union none s = refl
index-register_sources key union (some current) s = ground arith

registrations-register_sources :
    (key : String) (union : Dict String SearchResult) (o : Option (Dict String SearchResult))
    (s : Registering)
    → (register_sources key union o s).registrations ≡ s.registrations
unfolding register_sources
registrations-register_sources key union none s = refl
registrations-register_sources key union (some current) s = ground arith

registrations-register_index :
    (key : String) (s : Registering) → (register_index key s).registrations ≡ s.registrations
unfolding register_index
registrations-register_index key s = ground arith

indexed-register_index :
    (key k : String) (s : Registering)
    → Dict.member k (register_index key s).index ≡ (key == k || Dict.member k s.index)
unfolding register_index
indexed-register_index key k s = elim (Bool-cases (Dict.member key s.index)) [
  | inl old ↦ rw old (ground (arith, ==_iff key k))
  | inr new ↦ rw new (ground (arith, get-put key k no_card s.index))
]

pub indexed-register_key :
    (now expires_at : ℕ) (union : Dict String SearchResult) (key k : String) (s : Registering)
    → Dict.member k (register_key now expires_at union key s).index
      ≡ (key == k || Dict.member k s.index)
unfolding register_key register_owned
indexed-register_key now expires_at union key k s =
    let s' = register_sources key union (Dict.get key s.existing) s in
    indexed-register_index key k s'
    ∙ ap (λ i. key == k || Dict.member k i)
        (index-register_sources key union (Dict.get key s.existing) s)

pub registrations-register_key :
    (now expires_at : ℕ) (union : Dict String SearchResult) (key : String) (s : Registering)
    → (register_key now expires_at union key s).registrations
      ≡ Dict.put key
          (record {
            expires_at = expires_at;
            providers =
                Dict.setdefaults (earlier_providers now (Dict.get key s.registrations)) union;
          })
          s.registrations
unfolding register_key register_owned
registrations-register_key now expires_at union key s =
    let s' = register_sources key union (Dict.get key s.existing) s in
    rw
      (
        registrations-register_index key s',
        registrations-register_sources key union (Dict.get key s.existing) s,
      )
      refl
