-- ===== src/Storage/Debounce.antt =====
-- backend/cs_uk_api/versioned_store.py: `AsyncDebouncedSave`. A method returns the new state and the
-- payloads that it passed to `store.save`, in order; Python's None is `none`. An event loop may run
-- `_write_pending` at any time, also for a timer that a later call replaced.
pub mod Coalescing
use ps4_uk_stream.Prelude.{
  Bool, true, false, Option, none, some, List, [], ◌∷◌, if◌then◌else◌, nat_eq, string_eq,
}

pub record Saver (P : Type 0) : Type 0 where
  pub pending : Option P
  pub has_pending : Bool
  pub timer : Bool
  pub closed : Bool

-- `__init__`
unfoldable pub new : {P : Type 0} → Saver P
new = record { pending = none; has_pending = false; timer = false; closed = false }

module _ {P : Type 0} where
  -- `if payload is None: return`
  abbrev pub save_some : Option P → List (Option P)
  save_some none = []
  save_some (some p) = some p ∷ []

  unfoldable pub write_pending : Saver P → Saver P × List (Option P)
  write_pending s =
      if s.has_pending
      then (record s { timer = false; has_pending = false; pending = none }, save_some s.pending)
      else (record s { timer = false }, [])

  -- `running` tells whether `asyncio.get_running_loop()` finds a loop.
  unfoldable pub request : Option P → Bool → Saver P → Saver P × List (Option P)
  unfolding write_pending
  request payload running s =
      if s.closed
      then (s, payload ∷ [])
      else if running
      then (record s { pending = payload; has_pending = true; timer = true }, [])
      else write_pending (record s { pending = payload; has_pending = true })

  unfoldable pub flush : Saver P → Saver P × List (Option P)
  unfolding write_pending
  flush s = write_pending (record s { timer = false })

  unfoldable pub close : Saver P → Saver P × List (Option P)
  unfolding flush
  close s = let (s', saves) = flush s in (record s' { closed = true }, saves)
