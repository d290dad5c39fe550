-- ===== src/CatalogWarm/Coverage.antt =====
-- Which keys the warm covers, and that its report accounts for each of them.
use ps4_uk_stream.Prelude.{
  ◌||◌, ℕ, ◌+◌, String, ◌≡◌, refl, sym, ap, ◌∙◌, inl, inr, Bool, true, false, not, some, List, [],
  ◌∷◌, ◌++◌, arith, if◌then◌else◌, Bool-cases, ◌==◌, nat_eq, string_eq, ==_iff, length, take, any,
  keep, count_if,
}
use mathlib.Core.List.{append-nil}
use ps4_uk_stream.Prelude.Membership.{contains, IsDistinct}
use ps4_uk_stream.CatalogWarm.{
  HomeRow, Resolved, WarmStatus, CatalogWarmState, add_keys, keys_onto, first_card_keys, warm_one,
  warm_keys, warm_catalog,
}

contains-snoc :
    (x y : String) (xs : List String) → contains x (xs ++ y ∷ []) ≡ (contains x xs || y == x)
unfolding contains
contains-snoc x y [] = ground arith
contains-snoc x y (z ∷ xs) = ground (arith, contains-snoc x y xs)

snoc-IsDistinct :
    (y : String) (xs : List String)
    → contains y xs ≡ false
    → IsDistinct xs
    → IsDistinct (xs ++ y ∷ [])
unfolding contains
snoc-IsDistinct y [] h d = (refl, tt)
snoc-IsDistinct y (x ∷ xs) h d = (
  ground (arith, contains-snoc x y xs, ==_iff x y, ==_iff y x),
  snoc-IsDistinct y xs (ground arith) d.1,
)

add_keys-IsDistinct : (ks keys : List String) → IsDistinct keys → IsDistinct (add_keys ks keys)
unfolding add_keys
add_keys-IsDistinct [] keys d = d
add_keys-IsDistinct (k ∷ ks) keys d = elim (Bool-cases (contains k keys)) [
  | inl seen ↦ rw seen (add_keys-IsDistinct ks keys d)
  | inr new ↦ rw new (add_keys-IsDistinct ks (keys ++ k ∷ []) (snoc-IsDistinct k keys new d))
]

contains-add_keys :
    (x : String) (ks keys : List String)
    → contains x (add_keys ks keys) ≡ (contains x keys || contains x ks)
unfolding add_keys contains
contains-add_keys x [] keys = ground arith
contains-add_keys x (k ∷ ks) keys =
    rw (contains-add_keys x ks (if contains k keys then keys else keys ++ k ∷ []))
      (ground (arith, contains-snoc x k keys, ==_iff k x))

-- The row shows the key in one of its first cards.
abbrev pub shows : ℕ → String → HomeRow → Bool
shows per_row x row = contains x (take per_row row.group_keys)

contains-keys_onto :
    (per_row : ℕ) (x : String) (rows : List HomeRow) (keys : List String)
    → contains x (keys_onto per_row rows keys) ≡ (contains x keys || any (shows per_row x) rows)
unfolding keys_onto
contains-keys_onto per_row x [] keys = ground arith
contains-keys_onto per_row x (row ∷ rows) keys = ground (
  arith,
  contains-keys_onto per_row x rows (add_keys (take per_row row.group_keys) keys),
  contains-add_keys x (take per_row row.group_keys) keys,
)

keys_onto-IsDistinct :
    (per_row : ℕ) (rows : List HomeRow) (keys : List String)
    → IsDistinct keys
    → IsDistinct (keys_onto per_row rows keys)
unfolding keys_onto
keys_onto-IsDistinct per_row [] keys d = d
keys_onto-IsDistinct per_row (row ∷ rows) keys d =
    keys_onto-IsDistinct per_row rows _ (add_keys-IsDistinct (take per_row row.group_keys) keys d)

-- The plan of the warm has each key once, and has exactly the keys that some row shows in its first
-- `per_row` cards.
first_card_keys_lem :
    (per_row : ℕ) (rows : List HomeRow)
    → IsDistinct (first_card_keys per_row rows)
      × ((x : String) → contains x (first_card_keys per_row rows) ≡ any (shows per_row x) rows)
unfolding first_card_keys
first_card_keys_lem per_row rows = (
  keys_onto-IsDistinct per_row rows [] tt,
  λ x. contains-keys_onto per_row x rows [] ∙ (unfold contains in refl),
)

abbrev pub warm : Resolved → Bool
warm Resolved.content = true
warm Resolved.unavailable = false
warm Resolved.raised = false

abbrev pub crashed : Resolved → Bool
crashed Resolved.raised = true
crashed Resolved.content = false
crashed Resolved.unavailable = false

append-snoc :
    (xs : List String) (y : String) (ys : List String) → (xs ++ y ∷ []) ++ ys ≡ xs ++ y ∷ ys
append-snoc [] y ys = refl
append-snoc (x ∷ xs) y ys = ap (◌∷◌ x) (append-snoc xs y ys)

abbrev Accounts : (String → Resolved) → List String → CatalogWarmState → CatalogWarmState → Type 0
Accounts resolve gks before after =
    (after.content_warmed ≡ before.content_warmed + count_if (λ k. warm (resolve k)) gks)
    × (after.failed ≡ before.failed + count_if (λ k. crashed (resolve k)) gks)
    × (after.cold_keys ≡ before.cold_keys ++ keep (λ k. not (warm (resolve k))) gks)
    × (after.planned ≡ before.planned)
    × (after.status ≡ before.status)

Accounts-step :
    (resolve : String → Resolved) (gk : String) (gks : List String) (state after : CatalogWarmState)
    (r : Resolved)
    → resolve gk ≡ r
    → Accounts resolve gks (warm_one r gk state) after
    → Accounts resolve (gk ∷ gks) state after
Accounts-step resolve gk gks state after Resolved.content e h =
    rw e (omega (arith, h.0), omega (arith, h.1), h.2, h.3, h.4)
Accounts-step resolve gk gks state after Resolved.unavailable e h = rw e (
  omega (arith, h.0),
  omega (arith, h.1),
  h.2 ∙ append-snoc state.cold_keys gk (keep (λ k. not (warm (resolve k))) gks),
  h.3,
  h.4,
)
Accounts-step resolve gk gks state after Resolved.raised e h = rw e (
  omega (arith, h.0),
  omega (arith, h.1),
  h.2 ∙ append-snoc state.cold_keys gk (keep (λ k. not (warm (resolve k))) gks),
  h.3,
  h.4,
)

length-keep_warm :
    (p : String → Bool) (ks : List String)
    → length ks ≡ count_if p ks + length (keep (λ k. not (p k)) ks)
length-keep_warm p [] = refl
length-keep_warm p (k ∷ ks) = ground (arith, length-keep_warm p ks)

warm_keys_lem :
    (resolve : String → Resolved) (gks : List String) (state : CatalogWarmState)
    → Accounts resolve gks state (warm_keys resolve gks state)
unfolding warm_keys
warm_keys_lem resolve [] state =
    (ground arith, ground arith, sym (append-nil state.cold_keys), refl, refl)
warm_keys_lem resolve (gk ∷ gks) state =
    Accounts-step resolve gk gks state (warm_keys resolve gks (warm_one (resolve gk) gk state))
      (resolve gk) refl (warm_keys_lem resolve gks (warm_one (resolve gk) gk state))

-- Where the home snapshot loads, the report accounts for every key of `first_card_keys`: the warm
-- ones are counted, every other one is listed as cold, in order, and the exceptions among those are
-- counted as failed; so `planned` is the warm ones and the cold ones together.
pub warm_catalog_accounts :
    (per_row : ℕ) (resolve : String → Resolved) (rows : List HomeRow)
    → let state = warm_catalog per_row resolve (some rows) in
      let keys = first_card_keys per_row rows in
      (state.content_warmed ≡ count_if (λ k. warm (resolve k)) keys)
      × (state.failed ≡ count_if (λ k. crashed (resolve k)) keys)
      × (state.cold_keys ≡ keep (λ k. not (warm (resolve k))) keys)
      × (state.planned ≡ state.content_warmed + length state.cold_keys)
unfolding warm_catalog
warm_catalog_accounts per_row resolve rows =
    let accounts = warm_keys_lem resolve (first_card_keys per_row rows) record {
      status = WarmStatus.done;
      home_warmed = true;
      content_warmed = 0;
      failed = 0;
      planned = length (first_card_keys per_row rows);
      cold_keys = [];
    } in
    (
      omega (arith, accounts.0),
      omega (arith, accounts.1),
      accounts.2,
      omega (
        arith,
        accounts.0,
        accounts.3,
        ap length accounts.2,
        length-keep_warm (λ k. warm (resolve k)) (first_card_keys per_row rows),
      ),
    )
