-- ===== src/Drift/Baseline.antt =====
-- backend/cs_uk_api/drift/baseline.py: a provider's calibrated listing shape and the verdict on a
-- probe. A share of the listing is kept as a count and a total; the code's floating-point tests at 0.2
-- and 0.05 agree with the whole-number tests below for any listing of realistic size.
pub mod Calibration
use ps4_uk_stream.Prelude.{
  ℕ, ◌+◌, ◌*◌, min, max, String, Bool, true, false, not, Option, none, some, List, [], ◌∷◌, map,
  ltb, eqb, if◌then◌else◌, ◌==◌, nat_eq, string_eq, length,
}
use ps4_uk_stream.Models.{SearchResult, form_name, style_name}
use ps4_uk_stream.Prelude.Dict
use ps4_uk_stream.Prelude.Dict.{Dict}
use ps4_uk_stream.Prelude.Sorting.{sorted}
use ps4_uk_stream.Prelude.Texts.{str_le, strip}

-- `MIN_CARDS`
abbrev pub min_cards : ℕ
min_cards = 2

-- `SHAPE_RECALIBRATE_AFTER`
abbrev pub shape_recalibrate_after : ℕ
shape_recalibrate_after = 3

-- `ListingProbeResult`
pub record ListingProbeResult : Type 0 where
  pub ok : Bool
  pub cards : List SearchResult

-- A share, `part / whole`
pub record Share : Type 0 where
  pub part : ℕ
  pub whole : ℕ

pub record Signature : Type 0 where
  pub count_low : ℕ
  pub count_high : ℕ
  pub form_frac : Dict String Share
  pub style_frac : Dict String Share
  pub fields_ok : Bool

pub data DriftKind : Type 0 where
  kind_ok shape broken : DriftKind

pub data Reason : Type 0 where
  probe_failed zero_items missing_fields first_calibration healthy : Reason
  under_floor : ℕ → Reason
  below_low : ℕ → ℕ → Reason
  form_left style_left : String → Reason

pub record Verdict : Type 0 where
  pub ok : Bool
  pub reason : Reason
  pub kind : DriftKind

-- `counts[k] = counts.get(k, 0) + 1`
abbrev pub bump : Option ℕ → ℕ
bump none = 1
bump (some n) = n + 1

unfoldable pub count_labels : List String → Dict String ℕ → Dict String ℕ
count_labels [] counts = counts
count_labels (k ∷ ks) counts = count_labels ks (Dict.put k (bump (Dict.get k counts)) counts)

unfoldable pub count_cards :
    (SearchResult → List String) → List SearchResult → Dict String ℕ → Dict String ℕ
unfolding count_labels
count_cards labels [] counts = counts
count_cards labels (card ∷ cards) counts =
    count_cards labels cards (count_labels (labels card) counts)

-- `sum(counts.values())`
unfoldable pub sum_values : Dict String ℕ → ℕ
sum_values [] = 0
sum_values ((k, n) ∷ counts) = n + sum_values counts

abbrev pub shares : ℕ → Dict String ℕ → Dict String Share
shares whole [] = []
shares whole ((k, n) ∷ counts) = (k, record { part = n; whole = whole }) ∷ shares whole counts

-- `_distribution`, where `labels` are a card's values of the attribute
unfoldable pub distribution : (SearchResult → List String) → List SearchResult → Dict String Share
unfolding count_cards sum_values
distribution labels cards =
    let counts = count_cards labels cards [] in
    shares (max 1 (sum_values counts)) (sorted (λ a b. str_le a.0 b.0) counts)

-- The values of the attributes "form" and "styles"; a set's values are taken in sorted order.
abbrev pub form_labels : SearchResult → List String
form_labels card = form_name card.form ∷ []

abbrev pub style_labels : SearchResult → List String
style_labels card = sorted str_le (map style_name card.styles)

-- `_fields_ok`
unfoldable pub fields_present : List SearchResult → Bool
fields_present [] = true
fields_present (card ∷ cards) =
    if strip card.title == ""
    then false
    else if strip card.url == ""
    then false
    else fields_present cards

-- `expected < _SIGNIFICANT_SHARE`
abbrev pub is_minor : Share → Bool
is_minor s = ltb (5 * s.part) s.whole

-- `actual < _BAND_FLOOR`, where a missing key counts as 0.0
abbrev pub has_vanished : Option Share → Bool
has_vanished none = true
has_vanished (some s) = ltb (20 * s.part) s.whole

-- The first significant member of the band that left the listing.
unfoldable pub left_band : Dict String Share → Dict String Share → Option String
left_band [] actual = none
left_band ((key, expected) ∷ band) actual =
    if is_minor expected
    then left_band band actual
    else if has_vanished (Dict.get key actual)
    then some key
    else left_band band actual

abbrev pub failing : Reason → DriftKind → Verdict
failing reason kind = record { ok = false; reason = reason; kind = kind }

abbrev pub passing : Reason → Verdict
passing reason = record { ok = true; reason = reason; kind = DriftKind.kind_ok }

-- The last tests of `verdict_for`, on the style band
unfoldable pub style_verdict : ListingProbeResult → Signature → Verdict
unfolding left_band
style_verdict result signature =
    elim (left_band signature.style_frac (distribution style_labels result.cards)) [
      | none ↦ passing Reason.healthy
      | some key ↦ failing (Reason.style_left key) DriftKind.shape
    ]

-- The tests of `verdict_for` against a calibrated signature
unfoldable pub band_verdict : ListingProbeResult → Signature → Verdict
unfolding left_band
band_verdict result signature =
    if ltb (length result.cards) signature.count_low
    then failing (Reason.below_low (length result.cards) signature.count_low) DriftKind.shape
    else elim (left_band signature.form_frac (distribution form_labels result.cards)) [
      | none ↦ style_verdict result signature
      | some key ↦ failing (Reason.form_left key) DriftKind.shape
    ]

-- The hard floors of `verdict_for`: a probe with no usable data.
unfoldable pub floor_reason : ListingProbeResult → Option Reason
floor_reason result =
    if not result.ok
    then some Reason.probe_failed
    else if eqb (length result.cards) 0
    then some Reason.zero_items
    else if not (fields_present result.cards)
    then some Reason.missing_fields
    else if ltb (length result.cards) min_cards
    then some (Reason.under_floor (length result.cards))
    else none

abbrev pub calibrated_verdict : ListingProbeResult → Option Signature → Verdict
calibrated_verdict result none = passing Reason.first_calibration
calibrated_verdict result (some signature) = band_verdict result signature

unfoldable pub verdict_for : ListingProbeResult → Option Signature → Verdict
verdict_for result signature = elim (floor_reason result) [
  | some reason ↦ failing reason DriftKind.broken
  | none ↦ calibrated_verdict result signature
]

abbrev pub low_of : Option Signature → ℕ → ℕ
low_of none count = count
low_of (some s) count = min s.count_low count

abbrev pub high_of : Option Signature → ℕ → ℕ
high_of none count = count
high_of (some s) count = max s.count_high count

unfoldable pub update_signature : Option Signature → ListingProbeResult → Signature
update_signature signature result = record {
  count_low = low_of signature (length result.cards);
  count_high = high_of signature (length result.cards);
  form_frac = distribution form_labels result.cards;
  style_frac = distribution style_labels result.cards;
  fields_ok = fields_present result.cards;
}
