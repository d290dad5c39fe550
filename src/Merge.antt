-- ===== src/Merge.antt =====
-- backend/cs_uk_api/merge.py: the merge of listing items of several providers into titles. What
-- wire_identity.py says of one item is the interface `TitleRules`; the log of the unions is left out.

pub mod Forest
pub mod Classes
pub mod Buckets
pub mod Links
pub mod Ids
pub mod Sound
pub mod Titles
pub mod Sources
use ps4_uk_stream.Prelude.{
  ℕ, zero, suc, String, Bool, true, not, ◌&&◌, Option, none, some, List, [], ◌∷◌, ◌++◌, map,
  if◌then◌else◌, is_some, ◌==◌, nat_eq, string_eq, length, take, drop, keep,
}
use ps4_uk_stream.Prelude.Dict
use ps4_uk_stream.Prelude.Dict.{Dict}
use ps4_uk_stream.Prelude.Texts.{str_le}
use ps4_uk_stream.Models.{SearchResult, AliasKey, alias_key_eq}

-- The names that merge.py takes from wire_identity.py
pub record TitleRules : Type 0 where
  pub title_aliases : String → List String
  pub effective_year : String → Option ℕ → Option ℕ
  pub is_imdb_id : String → Bool
  pub item_group_key : SearchResult → String
  pub group_key_from_imdb : String → String

pub record MergeGroup : Type 0 where
  pub key : String
  pub sources : List SearchResult

abbrev pub years_match : Option ℕ → Option ℕ → Bool
years_match none b = true
years_match (some a) none = true
years_match (some a) (some b) = a == b

-- `parent`, a list of indices in the code, as the function of its index
abbrev pub Parents : Type 0
Parents = ℕ → ℕ

-- `parent[x] = v`
unfoldable pub update : ℕ → ℕ → Parents → Parents
update x v parent y = if y == x then v else parent y

-- The loop of `find`, with its path halving: a round costs a unit of fuel.
unfoldable pub find : ℕ → ℕ → Parents → Parents × ℕ
find zero x parent = (parent, x)
find (suc fuel) x parent =
    let halved = update x (parent (parent x)) parent in
    let rest = find fuel (halved x) halved in if parent x == x then (parent, x) else rest

unfoldable pub link : ℕ → ℕ → Parents → Parents
link ra rb parent = if ra == rb then parent else update ra rb parent

unfoldable pub union : ℕ → ℕ × ℕ → Parents → Parents
unfolding link
union fuel (a, b) parent =
    let (parent', ra) = find fuel a parent in
    let (parent'', rb) = find fuel b parent' in link ra rb parent''

unfoldable pub unions : ℕ → List (ℕ × ℕ) → Parents → Parents
unions fuel [] parent = parent
unions fuel (call ∷ calls) parent = unions fuel calls (union fuel call parent)

-- `enumerate(items)`
abbrev pub enumerate : ℕ → List SearchResult → List (ℕ × SearchResult)
enumerate i [] = []
enumerate i (it ∷ its) = (i, it) ∷ enumerate (suc i) its

abbrev pub indices : ℕ → ℕ → List ℕ
indices i zero = []
indices i (suc n) = i ∷ indices (suc i) n

-- `seen`; an index stands with its item.
abbrev pub Seen : Type 0
Seen = Dict AliasKey (List (ℕ × SearchResult))

abbrev pub or_empty {ℓ} : {A : Type ℓ} → Option (List A) → List A
or_empty none = []
or_empty (some xs) = xs

-- `buckets.setdefault(find(i), []).append(i)`
abbrev pub add_to : Option (List ℕ) → ℕ → List ℕ
add_to none i = i ∷ []
add_to (some is) i = is ++ i ∷ []

unfoldable pub fill_buckets : ℕ → List ℕ → Parents → Dict ℕ (List ℕ) → Dict ℕ (List ℕ)
fill_buckets fuel [] parent buckets = buckets
fill_buckets fuel (i ∷ is) parent buckets =
    let (parent', root) = find fuel i parent in
    fill_buckets fuel is parent' (Dict.put root (add_to (Dict.get root buckets) i) buckets)

-- `j = imdb_seen.setdefault(imdb, i)`
abbrev pub first_with : Option ℕ → ℕ → ℕ
first_with none i = i
first_with (some j) i = j

-- `items[m]` for the members
unfoldable pub members_of : List SearchResult → List ℕ → List SearchResult
members_of items [] = []
members_of items (m ∷ ms) = take 1 (drop m items) ++ members_of items ms

-- `min` of texts that are not none at all
abbrev pub least : String → List String → String
least k [] = k
least k (j ∷ js) = least (if str_le k j then k else j) js

abbrev pub least_key : List String → String
least_key [] = ""
least_key (k ∷ ks) = least k ks

-- `yearful if yearful else members`
abbrev pub preferred : List SearchResult → List SearchResult → List SearchResult
preferred [] members = members
preferred (it ∷ its) members = it ∷ its

module _ (rules : TitleRules) where
  open rules use {title_aliases, effective_year, is_imdb_id, item_group_key, group_key_from_imdb}

  abbrev pub year_of : SearchResult → Option ℕ
  year_of it = effective_year it.title it.year

  -- The calls `union(i, j)` for the items already seen under one alias
  unfoldable pub calls_with : ℕ → SearchResult → List (ℕ × SearchResult) → List (ℕ × ℕ)
  calls_with i it [] = []
  calls_with i it ((j, other) ∷ others) =
      if years_match (year_of it) (year_of other)
      then (i, j) ∷ calls_with i it others
      else calls_with i it others

  -- The loop over the aliases of one item
  unfoldable pub alias_round : ℕ → SearchResult → List String → Seen → List (ℕ × ℕ) × Seen
  unfolding calls_with
  alias_round i it [] seen = ([], seen)
  alias_round i it (alias ∷ aliases) seen =
      let key : AliasKey = record { alias = alias; form = it.form } in
      let others = or_empty (Dict.get key seen) in
      let (calls, seen') = alias_round i it aliases (Dict.put key (others ++ (i, it) ∷ []) seen) in
      (calls_with i it others ++ calls, seen')

  unfoldable pub alias_calls : List (ℕ × SearchResult) → Seen → List (ℕ × ℕ)
  unfolding alias_round
  alias_calls [] seen = []
  alias_calls ((i, it) ∷ its) seen =
      let (calls, seen') = alias_round i it (title_aliases it.title) seen in
      calls ++ alias_calls its seen'

  -- `imdb and IMDB_ID_RE.fullmatch(imdb)`
  abbrev pub checked_imdb : Option String → Option String
  checked_imdb none = none
  checked_imdb (some imdb) = if not (imdb == "") && is_imdb_id imdb then some imdb else none

  abbrev pub imdb_step : ℕ → Option String → Dict String ℕ → List (ℕ × ℕ) × Dict String ℕ
  imdb_step i none imdb_seen = ([], imdb_seen)
  imdb_step i (some imdb) imdb_seen =
      let j = first_with (Dict.get imdb imdb_seen) i in ((i, j) ∷ [], Dict.put imdb j imdb_seen)

  unfoldable pub imdb_calls : List (ℕ × SearchResult) → Dict String ℕ → List (ℕ × ℕ)
  imdb_calls [] imdb_seen = []
  imdb_calls ((i, it) ∷ its) imdb_seen =
      let (calls, imdb_seen') = imdb_step i (checked_imdb it.imdb_id) imdb_seen in
      calls ++ imdb_calls its imdb_seen'

  -- All the calls of `union`, in order: they do not depend on what the earlier ones did.
  unfoldable pub union_calls : List SearchResult → List (ℕ × ℕ)
  unfolding alias_calls imdb_calls
  union_calls items = alias_calls (enumerate 0 items) [] ++ imdb_calls (enumerate 0 items) []

  -- `buckets` at its end; each true union costs `find` at most one more round.
  unfoldable pub merge_buckets : List SearchResult → Dict ℕ (List ℕ)
  merge_buckets items =
      let calls = union_calls items in
      fill_buckets (length calls) (indices 0 (length items)) (unions (length calls) calls (λ i. i))
        []

  unfoldable pub imdb_ids : List SearchResult → List String
  imdb_ids [] = []
  imdb_ids (it ∷ its) = elim (checked_imdb it.imdb_id) [
    | none ↦ imdb_ids its
    | some imdb ↦ imdb ∷ imdb_ids its
  ]

  unfoldable pub group_key_of : List SearchResult → String
  unfolding imdb_ids
  group_key_of members = elim (imdb_ids members) [
    | [] ↦
        least_key
          (map item_group_key (preferred (keep (λ it. is_some (year_of it)) members) members))
    | imdb ∷ others ↦ group_key_from_imdb (least imdb others)
  ]

  abbrev pub groups_of : List SearchResult → Dict ℕ (List ℕ) → List MergeGroup
  groups_of items [] = []
  groups_of items ((root, members) ∷ buckets) =
      record { key = group_key_of (members_of items members); sources = members_of items members }
      ∷ groups_of items buckets

  unfoldable pub merge_results : List SearchResult → List MergeGroup
  unfolding merge_buckets members_of group_key_of
  merge_results items = groups_of items (merge_buckets items)
