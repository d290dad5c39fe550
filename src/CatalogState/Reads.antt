-- ===== src/CatalogState/Reads.antt =====
-- backend/cs_uk_api/_catalog_state/_stores.py: the typed answer for one group key, and the iteration over
-- the snapshot's cards.
use ps4_uk_stream.Prelude.{
  ℕ, String, Option, none, some, List, [], ◌∷◌, map, if◌then◌else◌, nat_eq, string_eq, any, ◌==◌,
}
use ps4_uk_stream.Prelude.Dict
use ps4_uk_stream.Prelude.Dict.{Dict}
use ps4_uk_stream.Models.{SearchResult, HomeItem}
use ps4_uk_stream.CatalogState.{GroupIndexEntry, Catalog, or_empty, sources}

pub data GroupOrigin : Type 0 where
  snapshot registered : GroupOrigin

pub record SnapshotEntry : Type 0 where
  pub card : HomeItem
  pub row_type : Option String

pub record GroupResolution : Type 0 where
  pub group_key : String
  pub origin : GroupOrigin
  pub card : Option HomeItem
  pub row_type : Option String
  pub sources : List SearchResult
  pub year : Option ℕ
  pub genres : List String

-- `_first_year` and `_first_genres`: the card's own, else the first source's that has any
abbrev pub year_in : List SearchResult → Option ℕ
year_in [] = none
year_in (s ∷ ss) = elim s.year [ some year ↦ some year | none ↦ year_in ss ]

abbrev pub genres_in : List SearchResult → List String
genres_in [] = []
genres_in (s ∷ ss) = elim s.genres [ [] ↦ genres_in ss | g ∷ gs ↦ g ∷ gs ]

unfoldable pub first_year : Option HomeItem → List SearchResult → Option ℕ
first_year none ss = year_in ss
first_year (some card) ss = elim card.year [ some year ↦ some year | none ↦ year_in ss ]

unfoldable pub first_genres : Option HomeItem → List SearchResult → List String
first_genres none ss = genres_in ss
first_genres (some card) ss = elim card.genres [ [] ↦ genres_in ss | g ∷ gs ↦ g ∷ gs ]

abbrev pub card_of : Option GroupIndexEntry → Option HomeItem
card_of none = none
card_of (some entry) = entry.home_item

abbrev pub kind_of : Option GroupIndexEntry → Option String
kind_of none = none
kind_of (some entry) = entry.row_type

abbrev pub origin_of : Option HomeItem → GroupOrigin
origin_of none = registered
origin_of (some card) = snapshot

-- The methods of the answer: the chip strip, and one provider's card
unfoldable pub providers_of : GroupResolution → List String
providers_of r = elim r.card [ none ↦ map (λ s. s.provider) r.sources | some card ↦ card.providers ]

abbrev pub source_in : String → List SearchResult → Option SearchResult
source_in provider [] = none
source_in provider (s ∷ ss) =
    let others = source_in provider ss in if s.provider == provider then some s else others

unfoldable pub source : String → GroupResolution → Option SearchResult
source provider r = source_in provider r.sources

-- `CatalogState.entry`
unfoldable pub entry : String → Catalog → Option GroupIndexEntry
entry group_key s = Dict.get group_key s.index

-- The answer from the index entry and the sources, if there is one of them
unfoldable pub resolution :
    String → Option GroupIndexEntry → Option (Dict String SearchResult) → Option GroupResolution
unfolding first_year first_genres
resolution group_key none none = none
resolution group_key entry per_provider =
    let cards = map (λ e. e.1) (or_empty per_provider) in
    some record {
      group_key = group_key;
      origin = origin_of (card_of entry);
      card = card_of entry;
      row_type = kind_of entry;
      sources = cards;
      year = first_year (card_of entry) cards;
      genres = first_genres (card_of entry) cards;
    }

unfoldable pub group_resolution : ℕ → String → Catalog → Catalog × Option GroupResolution
unfolding sources resolution
group_resolution now group_key s =
    let (s', found) = sources now s in
    (s', resolution group_key (Dict.get group_key s.index) (Dict.get group_key found))

-- The loop of `snapshot_entries`, with the keys of the cards so far
abbrev pub entries_onto : List String → Dict String GroupIndexEntry → List SnapshotEntry
entries_onto seen [] = []
entries_onto seen ((key, entry) ∷ index) = elim entry.home_item [
  | none ↦ entries_onto seen index
  | some card ↦
      let again = entries_onto seen index in
      let more = entries_onto (card.group_key ∷ seen) index in
      if any (λ k. k == card.group_key) seen
      then again
      else record { card = card; row_type = entry.row_type } ∷ more
]

unfoldable pub snapshot_entries : Catalog → List SnapshotEntry
snapshot_entries s = entries_onto [] s.index
