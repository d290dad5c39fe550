-- ===== src/Resume.antt =====
-- backend/cs_uk_api/resume_store.py: `ResumeStore`. `now()` is the argument `now`, a number of clock
-- units. A position or a runtime in ticks is a signed integer; the test at 0.95 of the runtime is made
-- in whole twentieths, which agrees with the floating-point product below 2^53 ticks (28 years).
pub mod Shelves
pub mod Queries
pub mod Writes
pub mod Flushes
use ps4_uk_stream.Prelude.{
  ℕ, zero, suc, ◌*◌, String, Bool, true, false, not, ◌&&◌, Option, none, some, List, [], ◌∷◌, ◌++◌,
  map, ltb, leb, eqb, if◌then◌else◌, ◌==◌, nat_eq, string_eq, length, take,
}
use ps4_uk_stream.Prelude.Dict
use ps4_uk_stream.Prelude.Dict.{Dict}
use ps4_uk_stream.Prelude.Integers.{ℤ, pos, negsuc}
use ps4_uk_stream.Prelude.Sorting.{sorted}
use ps4_uk_stream.Prelude.Texts.{str_lt, strip}
use ps4_uk_stream.Prelude.Membership.{without}
use ps4_uk_stream.Storage.Debounce

-- `MAX_QUERIES`
abbrev pub max_queries : ℕ
max_queries = 50

-- `MAX_ITEMS`
abbrev pub max_items : ℕ
max_items = 50

-- One entry of `_items`: {position_ticks, runtime_ticks?, updated_at?}
pub record Entry : Type 0 where
  pub position_ticks : ℕ
  pub runtime_ticks : Option ℤ
  pub updated_at : Option ℕ

-- The state sections that the file holds.
pub record Shelf : Type 0 where
  pub items : Dict String Entry
  pub queries : List String
  pub finished : Dict String ℕ

-- `entry.get("updated_at", 0.0)`
abbrev pub stamp : Entry → ℕ
stamp entry = elim entry.updated_at [ none ↦ 0 | some at ↦ at ]

-- `position_ticks >= FINISHED_FRACTION * runtime`
unfoldable pub watched : ℕ → ℤ → Bool
watched position (pos runtime) = leb (19 * runtime) (20 * position)
watched position (negsuc runtime) = true

-- `runtime is not None and position_ticks >= ...`
unfoldable pub is_finished : ℕ → Option ℤ → Bool
unfolding watched
is_finished position none = false
is_finished position (some runtime) = watched position runtime

-- `runtime_ticks if runtime_ticks is not None else existing.get("runtime_ticks")`
unfoldable pub known_runtime : Option ℤ → Option Entry → Option ℤ
known_runtime (some runtime) existing = some runtime
known_runtime none none = none
known_runtime none (some entry) = entry.runtime_ticks

-- The order of `min(..., key=(updated_at, key))`
unfoldable pub older : String × Entry → String × Entry → Bool
older (k, a) (j, b) =
    if ltb (stamp a) (stamp b) then true else eqb (stamp a) (stamp b) && str_lt k j

-- The smaller of two, the one already found at a tie.
unfoldable pub older_of : String × Entry → String × Entry → String × Entry
older_of e best = if older e best then e else best

-- `min(items, key=...)`: the first of the least elements.
unfoldable pub oldest : String × Entry → Dict String Entry → String × Entry
oldest best [] = best
oldest best (e ∷ es) = oldest (older_of e best) es

unfoldable pub evict : Dict String Entry → Dict String Entry
unfolding oldest older_of older
evict [] = []
evict (e ∷ es) = Dict.remove (oldest e es).0 (e ∷ es)

-- `_cap`
unfoldable pub cap : Dict String Entry → Dict String Entry
unfolding evict
cap items = if leb (length items) max_items then items else evict items

-- The entry that `record` stores; a runtime that an earlier report gave is kept.
abbrev pub new_entry : ℕ → ℕ → Option ℤ → Option Entry → Entry
new_entry now position runtime_ticks existing = record {
  position_ticks = position;
  runtime_ticks = known_runtime runtime_ticks existing;
  updated_at = some now;
}

-- `record`, from the test of the position on
unfoldable pub record_at : ℕ → String → ℕ → Option ℤ → Shelf → Shelf
record_at now item_id position runtime_ticks s =
    if is_finished position (known_runtime runtime_ticks (Dict.get item_id s.items))
    then record s {
      items = Dict.remove item_id s.items;
      finished = Dict.put item_id now s.finished;
    }
    else record s {
      items = cap (
          Dict.put item_id (new_entry now position runtime_ticks (Dict.get item_id s.items))
            s.items);
    }

-- `record` on the state in memory: a position that is not positive is ignored.
unfoldable pub record_position : ℕ → String → ℤ → Option ℤ → Shelf → Shelf
unfolding record_at
record_position now item_id (negsuc n) runtime_ticks s = s
record_position now item_id (pos zero) runtime_ticks s = s
record_position now item_id (pos (suc n)) runtime_ticks s =
    record_at now item_id (suc n) runtime_ticks s

-- The orders of `positions`, `recent` and `history`: Python's sort with `reverse=True` keeps the order
-- of equal elements.
abbrev pub more_progressed : String × Entry → String × Entry → Bool
more_progressed (k, a) (j, b) = leb b.position_ticks a.position_ticks

abbrev pub more_recent : ℕ × String → ℕ × String → Bool
more_recent (s, k) (t, j) = if ltb t s then true else eqb s t && not (str_lt k j)

unfoldable pub positions : Shelf → List (String × ℕ)
positions s = map (λ e. (e.0, e.1.position_ticks)) (sorted more_progressed s.items)

unfoldable pub recent : ℕ → Shelf → List (String × ℕ)
recent limit s =
    map (λ e. (e.0, e.1.position_ticks))
      (take limit (sorted (λ e f. more_recent (stamp e.1, e.0) (stamp f.1, f.0)) s.items))

-- `_pos_runtime`
abbrev pub pos_runtime : Entry → ℕ × Option ℤ
pos_runtime entry = (entry.position_ticks, entry.runtime_ticks)

unfoldable pub positions_entries : Shelf → List (String × (ℕ × Option ℤ))
positions_entries s = map (λ e. (e.0, pos_runtime e.1)) (sorted more_progressed s.items)

unfoldable pub recent_entries : ℕ → Shelf → List (String × (ℕ × Option ℤ))
recent_entries limit s =
    map (λ e. (e.0, pos_runtime e.1))
      (take limit (sorted (λ e f. more_recent (stamp e.1, e.0) (stamp f.1, f.0)) s.items))

unfoldable pub history : ℕ → Shelf → List String
history limit s =
    map (λ e. e.1)
      (take limit (
        sorted more_recent
          (map (λ e. (stamp e.1, e.0)) s.items ++ map (λ e. (e.1, e.0)) s.finished)))

-- `record_query` on the stripped text
unfoldable pub push_query : String → Shelf → Shelf
push_query q s =
    if q == "" then s else record s { queries = take max_queries (q ∷ without q s.queries) }

unfoldable pub record_query : String → Shelf → Shelf
unfolding push_query
record_query query s = push_query (strip query) s

unfoldable pub clear_shelf : Shelf → Shelf
clear_shelf s = record s { items = []; queries = []; finished = [] }
