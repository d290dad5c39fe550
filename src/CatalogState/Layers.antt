-- ===== src/CatalogState/Layers.antt =====
-- What the resolution map has for a key and a provider, and how the loops of the catalog state change it.
use ps4_uk_stream.Prelude.{
  ℕ, String, ◌≡◌, refl, sym, ◌∙◌, inl, inr, Bool, true, false, not, Option, none, some, [], ◌∷◌,
  arith, ltb, if◌then◌else◌, Bool-cases, Eq, ◌==◌, ==_iff, nat_eq, string_eq, keep,
}
use ps4_uk_stream.Prelude.Dict
use ps4_uk_stream.Prelude.Dict.{Dict, DistinctKeys, later, get-put, get-setdefault, get-setdefaults}
use ps4_uk_stream.Models.{SearchResult}
use ps4_uk_stream.CatalogState.{
  Sources, GroupIndexEntry, Registration, or_empty, no_card, live_registrations, carry_sources,
  carry_entries,
}

abbrev pub card_in : String → Option (Dict String SearchResult) → Option SearchResult
card_in p none = none
card_in p (some cards) = Dict.get p cards

-- The card of a provider under a key of the resolution map
abbrev pub cell : String → String → Sources → Option SearchResult
cell k p m = card_in p (Dict.get k m)

abbrev pub owned_by : String → Option Registration → Option SearchResult
owned_by p none = none
owned_by p (some r) = Dict.get p r.providers

-- The card of a provider in the registration of a key
abbrev pub owned : String → String → Dict String Registration → Option SearchResult
owned k p registrations = owned_by p (Dict.get k registrations)

abbrev pub only {ℓ} : {A : Type ℓ} → (A → Bool) → Option A → Option A
only q none = none
only q (some a) = if q a then some a else none

module _ {ℓ κ} {K : Type ℓ} {V : Type κ} ⦃e : Eq K⦄ where
  get_absent-keep :
      (k : K) (q : V → Bool) (d : Dict K V)
      → Dict.get k d ≡ none
      → Dict.get k (keep (λ x. q x.1) d) ≡ none
  unfolding Dict.get
  get_absent-keep k q [] h = refl
  get_absent-keep k q ((j, v) ∷ d) h = ground (arith, get_absent-keep k q d)

  pub get-keep :
      (k : K) (q : V → Bool) (d : Dict K V)
      → DistinctKeys d
      → Dict.get k (keep (λ x. q x.1) d) ≡ only q (Dict.get k d)
  unfolding Dict.get
  get-keep k q [] h = refl
  get-keep k q ((j, v) ∷ d) h = elim (Bool-cases (j == k)) [
    | inl hit ↦
        let gone = get_absent-keep k q d (rw ((==_iff j k).0 hit) at (h.0)) in
        elim (Bool-cases (q v)) [
          | inl kept ↦ rw (kept, hit, kept) refl
          | inr dropped ↦ rw (dropped, hit, dropped) gone
        ]
    | inr miss ↦ elim (Bool-cases (q v)) [
      | inl kept ↦ rw (kept, miss) (get-keep k q d h.1)
      | inr dropped ↦ rw (dropped, miss) (get-keep k q d h.1)
    ]
  ]

  pub keep-DistinctKeys :
      (q : V → Bool) (d : Dict K V) → DistinctKeys d → DistinctKeys (keep (λ x. q x.1) d)
  keep-DistinctKeys q [] h = tt
  keep-DistinctKeys q ((j, v) ∷ d) h = elim (Bool-cases (q v)) [
    | inl kept ↦ rw kept (get_absent-keep j q d h.0, keep-DistinctKeys q d h.1)
    | inr dropped ↦ rw dropped (keep-DistinctKeys q d h.1)
  ]

abbrev pub is_live : ℕ → Registration → Bool
is_live now r = not (ltb r.expires_at now)

pub get-live_registrations :
    (now : ℕ) (k : String) (registrations : Dict String Registration)
    → DistinctKeys registrations
    → Dict.get k (live_registrations now registrations)
      ≡ only (is_live now) (Dict.get k registrations)
unfolding live_registrations
get-live_registrations now k registrations h = get-keep k (is_live now) registrations h

pub live_registrations-DistinctKeys :
    (now : ℕ) (registrations : Dict String Registration)
    → DistinctKeys registrations
    → DistinctKeys (live_registrations now registrations)
unfolding live_registrations
live_registrations-DistinctKeys now registrations h =
    keep-DistinctKeys (is_live now) registrations h

get-or_empty :
    (p : String) (o : Option (Dict String SearchResult)) → Dict.get p (or_empty o) ≡ card_in p o
unfolding Dict.get
get-or_empty p none = refl
get-or_empty p (some d) = refl

-- `d.setdefault` of a union onto what stands under a key
pub cell-put-setdefaults :
    (j k p : String) (union : Dict String SearchResult) (m : Sources)
    → cell k p (Dict.put j (Dict.setdefaults (or_empty (Dict.get j m)) union) m)
      ≡ later (cell k p m) (if j == k then Dict.get p union else none)
cell-put-setdefaults j k p union m = elim (Bool-cases (j == k)) [
  | inl hit ↦
      rw (get-put j k _ m, hit)
        (get-setdefaults p (or_empty (Dict.get j m)) union
          ∙ rw (get-or_empty p (Dict.get j m), (==_iff j k).0 hit) refl)
  | inr miss ↦ rw (get-put j k _ m, miss) (Dict.later-none (cell k p m))
]

pub cell-carry_sources :
    (k p : String) (live : Dict String Registration) (m : Sources)
    → DistinctKeys live
    → cell k p (carry_sources live m) ≡ later (cell k p m) (owned k p live)
unfolding carry_sources Dict.get
cell-carry_sources k p [] m h = Dict.later-none (cell k p m)
cell-carry_sources k p ((j, r) ∷ live) m h =
    let next = cell-carry_sources k p live _ h.1 in
    let step = cell-put-setdefaults j k p r.providers m in
    elim (Bool-cases (j == k)) [
      | inl hit ↦
          let gone : Dict.get k live ≡ none = rw ((==_iff j k).0 hit) at (h.0) in
          next ∙ rw (step, hit, gone) (sym (Dict.later-none _))
      | inr miss ↦ next ∙ rw (step, miss) (Dict.later_assoc (cell k p m) (owned k p live))
    ]

abbrev pub entry_if : Bool → Option GroupIndexEntry
entry_if true = some no_card
entry_if false = none

pub get-carry_entries :
    (k : String) (live : Dict String Registration) (entries : Dict String GroupIndexEntry)
    → Dict.get k (carry_entries live entries)
      ≡ later (Dict.get k entries) (entry_if (Dict.member k live))
unfolding carry_entries Dict.get
get-carry_entries k [] entries = Dict.later-none (Dict.get k entries)
get-carry_entries k ((j, r) ∷ live) entries = elim (Bool-cases (j == k)) [
  | inl hit ↦
      get-carry_entries k live (Dict.setdefault j no_card entries)
      ∙ rw (get-setdefault j k no_card entries, hit)
          (Dict.later-some (Dict.get k entries) no_card (entry_if (Dict.member k live)))
  | inr miss ↦
      get-carry_entries k live (Dict.setdefault j no_card entries)
      ∙ rw (get-setdefault j k no_card entries, miss)
          (Dict.later_assoc (Dict.get k entries) (entry_if (Dict.member k live)))
]
