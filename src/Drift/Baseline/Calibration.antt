-- ===== src/Drift/Baseline/Calibration.antt =====
-- A baseline accepts the listing that it was calibrated on.
use ps4_uk_stream.Prelude.Sorting.{sorted, insort}
use ps4_uk_stream.Prelude.{
  ==_iff, inl, inr, ◌≤◌, false, length, ◌==◌, Bool-cases, true, some, Option, List, ℕ, Bool, String,
  ◌≡◌, refl, none, [], ◌∷◌, arith, nat_eq, string_eq, All,
}
use ps4_uk_stream.Prelude.Dict
use ps4_uk_stream.Prelude.Dict.{Dict, DistinctKeys, Stored-self, put-DistinctKeys}
use ps4_uk_stream.Drift.Baseline.{
  style_labels, form_labels, style_verdict, low_of, band_verdict, update_signature, floor_reason,
  Signature, bump, SearchResult, shares, ListingProbeResult, count_cards, count_labels,
  distribution, verdict_for, Share, left_band,
}

-- A band that lists each key once has lost no member against itself.
left_band-Stored :
    (actual band : Dict String Share) → All (Dict.Stored actual) band → left_band band actual ≡ none
unfolding left_band
left_band-Stored actual [] h = refl
left_band-Stored actual ((key, share) ∷ band) h = ground (arith, left_band-Stored actual band h.1)

left_band_self : (band : Dict String Share) → DistinctKeys band → left_band band band ≡ none
left_band_self band d = left_band-Stored band band (Stored-self band d)

module _ {V : Type 0} (le : String × V → String × V → Bool) where
  get-insort-none :
      (k : String) (x : String × V) (d : Dict String V)
      → (x.0 == k) ≡ false
      → Dict.get k d ≡ none
      → Dict.get k (insort le x d) ≡ none
  unfolding Dict.get insort
  get-insort-none k x [] h g = ground arith
  get-insort-none k x (y ∷ d) h g = ground (arith, get-insort-none k x d)

  get-sorted-none :
      (k : String) (d : Dict String V) → Dict.get k d ≡ none → Dict.get k (sorted le d) ≡ none
  unfolding sorted
  get-sorted-none k [] g = g
  get-sorted-none k (x ∷ d) g =
      get-insort-none k x (sorted le d) (unfold Dict.get in ground arith)
        (get-sorted-none k d (unfold Dict.get in ground arith))

  insort-DistinctKeys :
      (x : String × V) (d : Dict String V)
      → Dict.get x.0 d ≡ none
      → DistinctKeys d
      → DistinctKeys (insort le x d)
  unfolding insort
  insort-DistinctKeys x [] g u = (unfold Dict.get in refl, tt)
  insort-DistinctKeys x (y ∷ d) g u = elim (Bool-cases (le x y)) [
    | inl first ↦ rw first (g, u)
    | inr later ↦ rw later (
      get-insort-none y.0 x d (unfold Dict.get in ground (arith, ==_iff x.0 y.0, ==_iff y.0 x.0))
          u.0,
      insort-DistinctKeys x d (unfold Dict.get in ground arith) u.1,
    )
  ]

  sorted-DistinctKeys : (d : Dict String V) → DistinctKeys d → DistinctKeys (sorted le d)
  unfolding sorted
  sorted-DistinctKeys [] u = tt
  sorted-DistinctKeys (x ∷ d) u =
      insort-DistinctKeys x (sorted le d) (get-sorted-none x.0 d u.0) (sorted-DistinctKeys d u.1)

get-shares-none :
    (k : String) (whole : ℕ) (d : Dict String ℕ)
    → Dict.get k d ≡ none
    → Dict.get k (shares whole d) ≡ none
unfolding Dict.get
get-shares-none k whole [] g = refl
get-shares-none k whole ((j, n) ∷ d) g = ground (arith, get-shares-none k whole d)

shares-DistinctKeys :
    (whole : ℕ) (d : Dict String ℕ) → DistinctKeys d → DistinctKeys (shares whole d)
shares-DistinctKeys whole [] u = tt
shares-DistinctKeys whole ((j, n) ∷ d) u =
    (get-shares-none j whole d u.0, shares-DistinctKeys whole d u.1)

count_labels-DistinctKeys :
    (ks : List String) (d : Dict String ℕ) → DistinctKeys d → DistinctKeys (count_labels ks d)
unfolding count_labels
count_labels-DistinctKeys [] d u = u
count_labels-DistinctKeys (k ∷ ks) d u =
    count_labels-DistinctKeys ks (Dict.put k (bump (Dict.get k d)) d)
      (put-DistinctKeys k (bump (Dict.get k d)) d u)

count_cards-DistinctKeys :
    (labels : SearchResult → List String) (cards : List SearchResult) (d : Dict String ℕ)
    → DistinctKeys d
    → DistinctKeys (count_cards labels cards d)
unfolding count_cards
count_cards-DistinctKeys labels [] d u = u
count_cards-DistinctKeys labels (card ∷ cards) d u =
    count_cards-DistinctKeys labels cards (count_labels (labels card) d)
      (count_labels-DistinctKeys (labels card) d u)

distribution-DistinctKeys :
    (labels : SearchResult → List String) (cards : List SearchResult)
    → DistinctKeys (distribution labels cards)
unfolding distribution
distribution-DistinctKeys labels cards =
    shares-DistinctKeys _ _ (sorted-DistinctKeys _ _ (count_cards-DistinctKeys labels cards [] tt))

low_of_le : (signature : Option Signature) (count : ℕ) → low_of signature count ≤ count
low_of_le none count = omega arith
low_of_le (some s) count = omega arith

band_accepts :
    (result : ListingProbeResult) (signature : Signature)
    → signature.count_low ≤ length result.cards
    → signature.form_frac ≡ distribution form_labels result.cards
    → signature.style_frac ≡ distribution style_labels result.cards
    → (band_verdict result signature).ok ≡ true
unfolding band_verdict style_verdict
band_accepts result signature low forms styles = ground (
  arith,
  left_band_self _ (distribution-DistinctKeys form_labels result.cards),
  left_band_self _ (distribution-DistinctKeys style_labels result.cards),
)

-- A listing with usable data passes the verdict against any baseline that was just calibrated on it,
-- from no baseline or from any older one.
pub verdict_for-update_signature :
    (result : ListingProbeResult) (signature : Option Signature)
    → floor_reason result ≡ none
    → (verdict_for result (some (update_signature signature result))).ok ≡ true
unfolding verdict_for
verdict_for-update_signature result signature usable =
    rw (usable, verdict_for)
      (band_accepts result (update_signature signature result)
        (unfold update_signature in low_of_le signature (length result.cards))
        (unfold update_signature in refl) (unfold update_signature in refl))
