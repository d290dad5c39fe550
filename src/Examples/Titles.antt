-- ===== src/Examples/Titles.antt =====
-- backend/cs_uk_api/merge.py and wire_identity.py at concrete inputs.
use ps4_uk_stream.Prelude.{
  ℕ, String, ◌≡◌, refl, Option, none, some, List, [], ◌∷◌, arith, nat_eq, string_eq,
}
use ps4_uk_stream.Prelude.Texts.{starts_with}
use ps4_uk_stream.Prelude.Membership.{contains}
use ps4_uk_stream.Models.{MediaForm, SearchResult}
use ps4_uk_stream.Merge.{MergeGroup, find, unions, merge_buckets}
use ps4_uk_stream.Merge.Classes.{Closure, labels}
use ps4_uk_stream.Merge.Forest.{find-unions}
use ps4_uk_stream.Merge.Buckets.{HoldsClass}
use ps4_uk_stream.Merge.Titles.{Same, merge_buckets-SameTitle}
use ps4_uk_stream.WireIdentity.{GroupProjection, project_group}
use ps4_uk_stream.WireIdentity.Keys.{TextTools, wire_rules}

-- Four calls that make two classes
abbrev calls : List (ℕ × ℕ)
calls = (1, 0) ∷ (3, 2) ∷ (4, 3) ∷ (1, 1) ∷ []

find-unions_example : (find 4 4 (unions 4 calls (λ i. i))).1 ≡ labels calls (λ i. i) 4
find-unions_example = find-unions 4 calls 4 (omega arith)

-- A title is its own alias.
abbrev plain : TextTools
plain = record {
  split_aliases = λ t. t ∷ [];
  normalize_one = λ t. t;
  extract_year = λ t. none;
  digest = λ t. t;
  year_text = λ y. "2021";
  is_imdb_id = starts_with "tt";
}

abbrev item : String → String → Option ℕ → Option String → SearchResult
item id title year imdb_id = record {
  id = id;
  provider = id;
  form = MediaForm.movie;
  title = title;
  year = year;
  poster = none;
  url = "";
  styles = [];
  genres = [];
  imdb_id = imdb_id;
}

-- Two items of one title, one of them without a year, and two of one IMDb id
abbrev listing : List SearchResult
listing =
    item "p" "a" (some 2021) none
    ∷ item "q" "a" none none
    ∷ item "p" "b" none (some "tt1")
    ∷ item "r" "c" none (some "tt1")
    ∷ []

merge_buckets-SameTitle_example :
    HoldsClass
      (Closure (Same (wire_rules plain) listing))
      4
      (merge_buckets (wire_rules plain) listing)
      2
merge_buckets-SameTitle_example = merge_buckets-SameTitle (wire_rules plain) listing 2 (omega arith)

abbrev group : MergeGroup
group = record { key = "g2:0"; sources = listing }

abbrev projected : GroupProjection
projected = record {
  key = "g2:0";
  title = "a";
  year = some 2021;
  poster = none;
  form = MediaForm.movie;
  styles = [];
  genres = [];
  providers = "p" ∷ "q" ∷ "r" ∷ [];
  sources = listing;
  member_keys = "p" ∷ "q" ∷ "r" ∷ [];
}

projected_runs : project_group (λ it. it.id) group ≡ some projected
unfolding project_group contains
projected_runs = refl
