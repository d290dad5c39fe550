-- ===== src/Watchdog/Spacing.antt =====
-- When the watchdog resets the client, over any run of ticks.
use ps4_uk_stream.Prelude.{
  Option-cases, ℕ, ◌+◌, ◌≤◌, String, ◌≡◌, refl, inl, inr, Bool, true, false, Option, none, some,
  List, [], ◌∷◌, arith, Bool-cases, ◌==◌, nat_eq, string_eq, ==_iff, length, all, any,
}
use ps4_uk_stream.Prelude.Dict
use ps4_uk_stream.Prelude.Dict.{Dict}
use ps4_uk_stream.Health.{
  HealthStatus, HealthTracker, status, samples_status, rate_status, startup_marker,
}
use ps4_uk_stream.Watchdog.{
  HealthSource, Watchdog, Tick, check_and_reset, should_reset, all_relevant_down, relevant,
  down_together, cooling, is_down, tracker_source,
}

-- One tick of `_watchdog_loop`: its time, what the tracker answers, and when `close_client` returns.
pub record TickInput : Type 0 where
  pub now : ℕ
  pub source : HealthSource
  pub closed : Option ℕ

abbrev pub tick : TickInput → Watchdog → Watchdog × Tick
tick i w = check_and_reset i.now i.source i.closed w

-- The loop goes on after an exception of a tick, from the state that the tick left.
pub run_ticks : List TickInput → Watchdog → Watchdog
run_ticks [] w = w
run_ticks (i ∷ is) w = run_ticks is (tick i w).0

-- The clock when the tick ends
abbrev pub end_of : ℕ → Option ℕ → ℕ
end_of now none = now
end_of now (some at) = at

abbrev pub finish : TickInput → ℕ
finish i = end_of i.now i.closed

-- The times at which the resets of the client are done.
pub reset_times : List TickInput → Watchdog → List ℕ
reset_times [] w = []
reset_times (i ∷ is) w = elim (tick i w).1 [
  | Tick.reset_done ↦ finish i ∷ reset_times is (tick i w).0
  | Tick.idle ↦ reset_times is (tick i w).0
  | Tick.raised ↦ reset_times is (tick i w).0
]

abbrev pub since : Option ℕ → ℕ
since none = 0
since (some at) = at

-- The clock does not go back.
abbrev pub Monotone : ℕ → List TickInput → Type 0
Monotone lo [] = Unit
Monotone lo (i ∷ is) = (lo ≤ i.now) × (i.now ≤ finish i) × Monotone (finish i) is

abbrev pub Apart : ℕ → Option ℕ → ℕ → Type 0
Apart cooldown none t = Unit
Apart cooldown (some at) t = at + cooldown ≤ t

-- Each time is at least the cooldown after the one before.
abbrev pub Spaced : ℕ → Option ℕ → List ℕ → Type 0
Spaced cooldown last [] = Unit
Spaced cooldown last (t ∷ ts) = Apart cooldown last t × Spaced cooldown (some t) ts

abbrev EffectOf : TickInput → Watchdog → Watchdog × Tick → Type 0
EffectOf i w (w', Tick.idle) = w' ≡ w
EffectOf i w (w', Tick.raised) = w' ≡ w
EffectOf i w (w', Tick.reset_done) =
    (w' ≡ record w { last_reset_at = some (finish i); reset_count = w.reset_count + 1 })
    × (cooling i.now w.cooldown_s w.last_reset_at ≡ false)

tick_effect : (i : TickInput) (w : Watchdog) → EffectOf i w (tick i w)
unfolding check_and_reset should_reset
tick_effect i w = elim (Bool-cases (all_relevant_down i.source w)) [
  | inl wedged ↦ elim (Bool-cases (cooling i.now w.cooldown_s w.last_reset_at)) [
    | inl wait ↦ rw (wedged, wait) refl
    | inr due ↦ elim (Option-cases i.closed) [
      | inl fails ↦ rw (wedged, due, fails) refl
      | inr (at, closed) ↦ rw (wedged, due, closed) (refl, due)
    ]
  ]
  | inr fine ↦ rw fine refl
]

Spaced-mono :
    (c : ℕ) (i : TickInput) (is : List TickInput) (w : Watchdog)
    → since w.last_reset_at ≤ i.now
    → i.now ≤ finish i
    → ((w' : Watchdog)
        → w'.cooldown_s ≡ c
        → since w'.last_reset_at ≤ finish i
        → Spaced c w'.last_reset_at (reset_times is w'))
    → w.cooldown_s ≡ c
    → Spaced c w.last_reset_at (reset_times (i ∷ is) w)
unfolding reset_times
Spaced-mono c i is w lo up rest e = go (tick i w) (tick_effect i w)
  where
    due_apart :
        (last : Option ℕ)
        → since last ≤ i.now
        → cooling i.now c last ≡ false
        → Apart c last (finish i)
    due_apart none l h = tt
    due_apart (some at) l h = ground arith

    go :
        (r : Watchdog × Tick)
        → EffectOf i w r
        → Spaced c w.last_reset_at (elim r.1 [
          | Tick.reset_done ↦ finish i ∷ reset_times is r.0
          | Tick.idle ↦ reset_times is r.0
          | Tick.raised ↦ reset_times is r.0
        ])
    go (w', Tick.idle) h = rw h (rest w e (omega arith))
    go (w', Tick.raised) h = rw h (rest w e (omega arith))
    go (w', Tick.reset_done) h = (
      due_apart w.last_reset_at lo (rw e at (h.1)),
      rw h.0 (
          rest (record w { last_reset_at = some (finish i); reset_count = w.reset_count + 1 }) e
            (omega arith)),
    )

Spaced-from :
    (c lo : ℕ) (is : List TickInput) (w : Watchdog)
    → w.cooldown_s ≡ c
    → since w.last_reset_at ≤ lo
    → Monotone lo is
    → Spaced c w.last_reset_at (reset_times is w)
unfolding reset_times
Spaced-from c lo [] w e old up = tt
Spaced-from c lo (i ∷ is) w e old up =
    Spaced-mono c i is w (omega arith) up.1
      (λ w' e' old'. Spaced-from c (finish i) is w' e' old' up.2) e

-- Two resets of the client are never done closer together than the cooldown, over any run of ticks in
-- the clock's order; the last reset before the run counts too.
pub reset_times-Spaced :
    (is : List TickInput) (w : Watchdog)
    → Monotone (since w.last_reset_at) is
    → Spaced w.cooldown_s w.last_reset_at (reset_times is w)
reset_times-Spaced is w h =
    Spaced-from w.cooldown_s (since w.last_reset_at) is w refl (omega arith) h

-- The provider is one of the list.
abbrev pub listed : String → List String → Bool
listed p ps = any (λ q. q == p) ps

all_down :
    (source : HealthSource) (p : String) (ps : List String)
    → source.marker_of p ≡ none
    → listed p ps ≡ true
    → all (λ q. is_down (source.status_of q)) (relevant source ps) ≡ true
    → source.status_of p ≡ HealthStatus.status_down
unfolding relevant
all_down source p [] m l h = cc
all_down source p (q ∷ ps) m l h = ground (arith, ==_iff q p, all_down source p ps m)

wedged_of_reset :
    (i : TickInput) (w : Watchdog)
    → (tick i w).1 ≡ Tick.reset_done
    → all_relevant_down i.source w ≡ true
unfolding check_and_reset should_reset
wedged_of_reset i w h = ground arith

down_together-all :
    (source : HealthSource) (ps : List String)
    → down_together source ps ≡ true
    → all (λ q. is_down (source.status_of q)) ps ≡ true
unfolding down_together
down_together-all source [] h = cc
down_together-all source (p ∷ ps) h = h

-- A tick that resets the client found every provider that no startup marker pins down: one such
-- provider in any other state vetoes the reset.
reset_done-status :
    (i : TickInput) (w : Watchdog) (p : String)
    → (tick i w).1 ≡ Tick.reset_done
    → listed p w.providers ≡ true
    → i.source.marker_of p ≡ none
    → i.source.status_of p ≡ HealthStatus.status_down
unfolding all_relevant_down
reset_done-status i w p h l m =
    all_down i.source p w.providers m l
      (down_together-all i.source (relevant i.source w.providers) (wedged_of_reset i w h))

samples_of_down :
    (t : HealthTracker) (found : Option (List Bool))
    → samples_status t found ≡ HealthStatus.status_down
    → (s : List Bool) × (found ≡ some s) × (t.min_samples ≤ length s)
unfolding rate_status samples_status
samples_of_down t none h = cc
samples_of_down t (some s) h = (s, refl, ground arith)

unmarked_status :
    (t : HealthTracker) (p : String)
    → startup_marker p t ≡ none
    → status p t ≡ HealthStatus.status_down
    → samples_status t (Dict.get p t.samples) ≡ HealthStatus.status_down
unfolding status startup_marker
unmarked_status t p m e = ground arith

-- With the process's own tracker behind it, a tick that resets the client found at least
-- `min_samples` recorded outcomes of every provider that no startup marker pins: a cold tracker
-- never triggers a reset.
pub reset_done-samples :
    (now : ℕ) (closed : Option ℕ) (t : HealthTracker) (w : Watchdog) (p : String)
    → (check_and_reset now (tracker_source t) closed w).1 ≡ Tick.reset_done
    → listed p w.providers ≡ true
    → startup_marker p t ≡ none
    → (s : List Bool) × (Dict.get p t.samples ≡ some s) × (t.min_samples ≤ length s)
reset_done-samples now closed t w p h l m = samples_of_down t (Dict.get p t.samples) (
    unmarked_status t p m (
      unfold tracker_source in
      reset_done-status (record { now = now; source = tracker_source t; closed = closed }) w p h l
        (unfold tracker_source in m)))
