-- ===== src/Examples/Crawl.antt =====
-- backend/cs_uk_api/crawl_guard.py at concrete inputs.
use ps4_uk_stream.Prelude.{
  ℕ, ◌≡◌, refl, true, none, some, [], ◌∷◌, arith, leb, is_some, nat_eq, string_eq,
}
use ps4_uk_stream.Prelude.Dict
use ps4_uk_stream.CrawlGuard.Dates.{Calendar}
use ps4_uk_stream.CrawlGuard.{Guard}
use ps4_uk_stream.CrawlGuard.Streaks.{night, nights, night-nights}

-- Days written as their ordinals
abbrev ordinals : Calendar
ordinals = record {
  Key = ℕ;
  isoformat = λ day. day;
  truthy = λ key. true;
  le = leb;
  same = nat_eq;
  isoformat_truthy = λ day. refl;
  isoformat_le = λ a b. refl;
  isoformat_injective = λ a b e. e;
}

abbrev guard : Guard ℕ
guard = record {
  block_after = 2;
  cooldown_days = 7;
  entries = ("a", record { nights = 1; skip_until = none; last_counted = some 10 }) ∷ [];
}

night-nights_example :
    is_some (night ordinals "b" 12 (nights ordinals "b" (10 ∷ []) guard)).1 ≡ true
unfolding Dict.get
night-nights_example =
    night-nights ordinals "b" (10 ∷ []) 12 9 guard refl refl (omega arith, (omega arith, tt))
