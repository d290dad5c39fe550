-- ===== src/CrawlGuard/Dates.antt =====
-- What the breaker uses of `datetime.date`: a day's ISO text is never empty, and ISO texts compare
-- as their days do.
use ps4_uk_stream.Prelude.{ℕ, ◌≡◌, Bool, true, leb, Eq, nat_eq, string_eq}

pub record Calendar : Type 1 where
  pub Key : Type 0
  pub isoformat : ℕ → Key
  pub truthy : Key → Bool
  pub le : Key → Key → Bool
  pub same : Eq Key
  pub isoformat_truthy : (day : ℕ) → truthy (isoformat day) ≡ true
  pub isoformat_le : (a b : ℕ) → le (isoformat a) (isoformat b) ≡ leb a b
  pub isoformat_injective : (a b : ℕ) → isoformat a ≡ isoformat b → a ≡ b
