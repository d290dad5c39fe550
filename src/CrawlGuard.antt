-- ===== src/CrawlGuard.antt =====
-- backend/cs_uk_api/crawl_guard.py: the circuit breaker of the nightly crawl. A day is its ordinal;
-- `date.isoformat` and the comparison of ISO texts belong to Python's library and are the section's
-- parameter `cal`. The regular expression's search for a 403 is the parameter `forbidden`.
pub mod Dates
pub mod Streaks
pub mod Saved
use ps4_uk_stream.Prelude.{
  ℕ, ◌+◌, max, String, Bool, false, ◌&&◌, Option, none, some, List, [], ◌∷◌, ltb, leb, eqb,
  if◌then◌else◌, nat_eq, string_eq, length, all,
}
use ps4_uk_stream.Prelude.Dict
use ps4_uk_stream.Prelude.Dict.{Dict}
use ps4_uk_stream.Prelude.Integers.{ℤ, max_zero}
use ps4_uk_stream.CrawlGuard.Dates.{Calendar}

pub data Verdict : Type 0 where
  verdict_ok verdict_403 verdict_other : Verdict

unfoldable pub classify : (String → Bool) → Bool → ℕ → List String → Verdict
classify forbidden ok sections errors =
    if ok
    then Verdict.verdict_ok
    else if leb sections 0
    then Verdict.verdict_other
    else if ltb 0 (length errors) && all forbidden errors
    then Verdict.verdict_403
    else Verdict.verdict_other

-- `SkipInfo`
pub record SkipInfo (Key : Type 0) : Type 0 where
  pub nights : ℕ
  pub retry_after : Key

-- `_Entry`
pub record Entry (Key : Type 0) : Type 0 where
  pub nights : ℕ
  pub skip_until : Option Key
  pub last_counted : Option Key

-- `ProviderGuard`
pub record Guard (Key : Type 0) : Type 0 where
  pub block_after : ℕ
  pub cooldown_days : ℕ
  pub entries : Dict String (Entry Key)

-- `__init__` over the entries that `_load` restored
unfoldable pub new : {Key : Type 0} → ℤ → ℤ → Dict String (Entry Key) → Guard Key
new block_after cooldown_days entries = record {
  block_after = max_zero block_after;
  cooldown_days = max 1 (max_zero cooldown_days);
  entries = entries;
}

abbrev pub fresh_entry : {Key : Type 0} → Entry Key
fresh_entry = record { nights = 0; skip_until = none; last_counted = none }

abbrev pub entry_or_fresh : {Key : Type 0} → Option (Entry Key) → Entry Key
entry_or_fresh none = fresh_entry
entry_or_fresh (some entry) = entry

module _ (cal : Calendar) where
  open cal use {Key, isoformat, truthy, le, same}

  -- The tests of `blocked` on the entry's `skip_until`.
  unfoldable pub skip_info : ℕ → ℕ → Option Key → Option (SkipInfo Key)
  skip_info day nights none = none
  skip_info day nights (some until) =
      if truthy until
      then (if le until (isoformat day)
          then none
          else some (record { nights = nights; retry_after = until }))
      else none

  unfoldable pub entry_blocked : ℕ → Option (Entry Key) → Option (SkipInfo Key)
  unfolding skip_info
  entry_blocked day none = none
  entry_blocked day (some entry) = skip_info day entry.nights entry.skip_until

  unfoldable pub blocked : String → ℕ → Guard Key → Option (SkipInfo Key)
  unfolding entry_blocked
  blocked provider_id day g =
      if eqb g.block_after 0 then none else entry_blocked day (Dict.get provider_id g.entries)

  abbrev pub counted_on : Key → Option Key → Bool
  counted_on key none = false
  counted_on key (some other) = same.test other key

  -- `if entry.last_counted != key: ...`
  unfoldable pub count_night : Key → Entry Key → Entry Key
  count_night key entry =
      if counted_on key entry.last_counted
      then entry
      else record entry { nights = entry.nights + 1; last_counted = some key }

  -- The tail of `record` for a 403: the night is counted, and the breaker trips at the threshold.
  unfoldable pub trip : ℕ → ℕ → ℕ → Entry Key → Entry Key × Option (SkipInfo Key)
  trip block_after cooldown_days day entry =
      if leb block_after entry.nights
      then (
        record entry { skip_until = some (isoformat (day + cooldown_days)) },
        some (record { nights = entry.nights; retry_after = isoformat (day + cooldown_days) }),
      )
      else (entry, none)

  abbrev pub break_streak : Entry Key → Entry Key
  break_streak entry = record entry { nights = 0; last_counted = none }

  -- `record`, after `setdefault`, by verdict
  unfoldable pub record_on :
      String → Verdict → ℕ → Entry Key → Guard Key → Guard Key × Option (SkipInfo Key)
  unfolding count_night trip
  record_on provider_id Verdict.verdict_ok day entry g =
      (record g { entries = Dict.remove provider_id g.entries }, none)
  record_on provider_id Verdict.verdict_other day entry g =
      (record g { entries = Dict.put provider_id (break_streak entry) g.entries }, none)
  record_on provider_id Verdict.verdict_403 day entry g =
      let (entry', info) =
        trip g.block_after g.cooldown_days day (count_night (isoformat day) entry) in
      (record g { entries = Dict.put provider_id entry' g.entries }, info)

  unfoldable pub record_verdict :
      String → Verdict → ℕ → Guard Key → Guard Key × Option (SkipInfo Key)
  unfolding record_on
  record_verdict provider_id verdict day g =
      if eqb g.block_after 0
      then (g, none)
      else record_on provider_id verdict day (entry_or_fresh (Dict.get provider_id g.entries)) g

  -- One round of the loop of `partition`
  abbrev pub place :
      String
      → Option (SkipInfo Key)
      → List String × List (String × SkipInfo Key)
      → List String × List (String × SkipInfo Key)
  place p none (active, skipped) = (p ∷ active, skipped)
  place p (some info) (active, skipped) = (active, (p, info) ∷ skipped)

  unfoldable pub partition :
      List String → ℕ → Guard Key → List String × List (String × SkipInfo Key)
  partition [] day g = ([], [])
  partition (p ∷ ps) day g = place p (blocked p day g) (partition ps day g)
