-- ===== src/CrawlGuard/Streaks.antt =====
-- How the breaker counts nights, trips, cools down and clears.
use ps4_uk_stream.Prelude.{
  ℕ, ◌+◌, ◌≤◌, ◌<◌, String, ◌≡◌, refl, sym, ap, ◌∙◌, ◌≢◌, inl, inr, false, Option, none, some, List,
  [], ◌∷◌, ◌++◌, arith, ltb, leb, eqb, Bool-cases, is_some, nat_eq, string_eq, ==_iff, length,
}
use ps4_uk_stream.Prelude.Dict
use ps4_uk_stream.Prelude.Dict.{Dict, get-put, get-put_self, get-remove}
use ps4_uk_stream.CrawlGuard.Dates.{Calendar}
use ps4_uk_stream.CrawlGuard.{
  Verdict, SkipInfo, Entry, Guard, entry_or_fresh, blocked, entry_blocked, record_verdict,
  record_on, count_night, trip, counted_on,
}

module _ (cal : Calendar) where
  open cal use {Key, isoformat, truthy, le, same}

  abbrev pub night : String → ℕ → Guard Key → Guard Key × Option (SkipInfo Key)
  night p day g = record_verdict cal p Verdict.verdict_403 day g

  -- The entry that a night of 403s leaves, and the report of the trip.
  pub after_night : ℕ → Guard Key → Option (Entry Key) → Entry Key × Option (SkipInfo Key)
  after_night day g found =
      trip cal g.block_after g.cooldown_days day
        (count_night cal (isoformat day) (entry_or_fresh found))

  night_lem :
      (p : String) (day : ℕ) (g : Guard Key)
      → eqb g.block_after 0 ≡ false
      → night p day g ≡ (
        record g { entries = Dict.put p (after_night day g (Dict.get p g.entries)).0 g.entries },
        (after_night day g (Dict.get p g.entries)).1,
      )
  unfolding after_night record_verdict record_on
  night_lem p day g on = rw on refl

  -- Recording a verdict for one provider leaves the entry of any other provider as it was.
  get-record_verdict_ne :
      (p q : String) (v : Verdict) (day : ℕ) (g : Guard Key)
      → p ≢ q
      → Dict.get q (record_verdict cal p v day g).0.entries ≡ Dict.get q g.entries
  unfolding record_verdict record_on
  get-record_verdict_ne p q Verdict.verdict_ok day g h =
      ground (arith, get-remove p q g.entries, ==_iff p q)
  get-record_verdict_ne p q Verdict.verdict_403 day g h = elim (Bool-cases (eqb g.block_after 0)) [
    | inl off ↦ rw off refl
    | inr on ↦ rw (on, get-put) (ground (arith, ==_iff p q))
  ]
  get-record_verdict_ne p q Verdict.verdict_other day g h =
      elim (Bool-cases (eqb g.block_after 0)) [
        | inl off ↦ rw off refl
        | inr on ↦ rw (on, get-put) (ground (arith, ==_iff p q))
      ]

  after_night_tripped :
      (day e : ℕ) (g : Guard Key) (found : Option (Entry Key)) (info : SkipInfo Key)
      → (after_night day g found).1 ≡ some info
      → is_some (entry_blocked cal e (some (after_night day g found).0))
        ≡ ltb e (day + g.cooldown_days)
  unfolding after_night trip entry_blocked
  after_night_tripped day e g found info h = ground (
    arith,
    cal.isoformat_truthy (day + g.cooldown_days),
    cal.isoformat_le (day + g.cooldown_days) e,
  )

  -- A night that trips the breaker blocks the provider on exactly the days before the end of the
  -- cooldown, counted from that night.
  pub blocked-trip :
      (p : String) (day e : ℕ) (g : Guard Key) (info : SkipInfo Key)
      → (night p day g).1 ≡ some info
      → is_some (blocked cal p e (night p day g).0) ≡ ltb e (day + g.cooldown_days)
  blocked-trip p day e g info h = elim (Bool-cases (eqb g.block_after 0)) [
    | inl off ↦ absurd (unfold record_verdict in ground arith)
    | inr on ↦ rw (night_lem p day g on) (
        unfold blocked in
        rw (on, get-put_self)
          (after_night_tripped day e g (Dict.get p g.entries) info
            (rw (night_lem p day g on) at h)))
  ]

  -- The nights of 403s on the given days, in turn.
  pub nights : String → List ℕ → Guard Key → Guard Key
  nights p [] g = g
  nights p (day ∷ days) g = nights p days (night p day g).0

  -- Each day is later than the one before.
  abbrev pub Increasing : ℕ → List ℕ → Type 0
  Increasing lo [] = Unit
  Increasing lo (day ∷ days) = (lo < day) × Increasing day days

  -- The last counted day, if any, is a day up to `lo`.
  abbrev CountedBy : ℕ → Option Key → Type 0
  CountedBy lo none = Unit
  CountedBy lo (some key) = (d : ℕ) × (key ≡ isoformat d) × (d ≤ lo)

  not_counted :
      (lo day : ℕ) (last : Option Key)
      → CountedBy lo last
      → lo < day
      → counted_on cal (isoformat day) last ≡ false
  not_counted lo day none c h = refl
  not_counted lo day (some key) (d, e, le) h = elim (Bool-cases (same.test key (isoformat day))) [
    | inl hit ↦ absurd (
        let same_day : d ≡ day =
          cal.isoformat_injective d day (sym e ∙ (same.test_iff key (isoformat day)).0 hit) in
        omega arith)
    | inr miss ↦ miss
  ]

  record Streak (lo n : ℕ) (found : Option (Entry Key)) : Type 0 where
    count : (entry_or_fresh found).nights ≡ n
    last : CountedBy lo (entry_or_fresh found).last_counted

  trip_keeps :
      (day lo n : ℕ) (g : Guard Key) (found : Option (Entry Key))
      → Streak lo n found
      → lo < day
      → Streak day (n + 1) (some (after_night day g found).0)
        × (is_some (after_night day g found).1 ≡ leb g.block_after (n + 1))
  unfolding after_night trip count_night
  trip_keeps day lo n g found s h =
      rw (not_counted lo day (entry_or_fresh found).last_counted s.last h, s.count)
        (elim (Bool-cases (leb g.block_after (n + 1))) [
          | inl hit ↦ rw hit (record { count = refl; last = (day, refl, omega arith) }, refl)
          | inr low ↦ rw low (record { count = refl; last = (day, refl, omega arith) }, refl)
        ])

  Streak-nights :
      (p : String) (days : List ℕ) (day lo n : ℕ) (g : Guard Key)
      → eqb g.block_after 0 ≡ false
      → Increasing lo (days ++ day ∷ [])
      → Streak lo n (Dict.get p g.entries)
      → is_some (night p day (nights p days g)).1 ≡ leb g.block_after (n + length days + 1)
  unfolding nights
  Streak-nights p [] day lo n g on up s = rw (night_lem p day g on) (
      (trip_keeps day lo n g (Dict.get p g.entries) s up.0).1
      ∙ ap (leb g.block_after) (omega arith))
  Streak-nights p (d ∷ days) day lo n g on up s = rw (night_lem p d g on) (
      Streak-nights p days day d (n + 1) _ on up.1
        (rw get-put_self ((trip_keeps d lo n g (Dict.get p g.entries) s up.0).0))
      ∙ ap (leb g.block_after) (omega arith))

  -- With the breaker on (`block_after` not 0) and no record of the provider, the breaker trips on a
  -- night of 403s exactly when that night and the earlier nights of 403s in a row, on increasing
  -- days, are at least `block_after` many.
  pub night-nights :
      (p : String) (days : List ℕ) (day lo : ℕ) (g : Guard Key)
      → eqb g.block_after 0 ≡ false
      → Dict.get p g.entries ≡ none
      → Increasing lo (days ++ day ∷ [])
      → is_some (night p day (nights p days g)).1 ≡ leb g.block_after (length days + 1)
  night-nights p days day lo g on unseen up =
      Streak-nights p days day lo 0 g on up (rw unseen (record { count = refl; last = tt }))
      ∙ ap (leb g.block_after) (omega arith)
