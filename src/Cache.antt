-- ===== src/Cache.antt =====
-- backend/cs_uk_api/cache.py: `TtlCache`, over any stored type. `time.monotonic()` is the argument
-- `now`, a number of clock units; a TTL is a signed integer, as in Python. The lock only serialises
-- the three methods, so a run of the cache is a sequence of calls.
pub mod Reads
use ps4_uk_stream.Prelude.{
  ℕ, ◌+◌, String, Option, none, some, [], ltb, if◌then◌else◌, nat_eq, string_eq,
}
use ps4_uk_stream.Prelude.Dict
use ps4_uk_stream.Prelude.Dict.{Dict}
use ps4_uk_stream.Prelude.Integers.{ℤ, max_zero}

pub record TtlCache {ℓ} (V : Type ℓ) : Type ℓ where
  pub default_ttl_s : ℤ
  pub entries : Dict String (ℕ × V)

module _ {ℓ} {V : Type ℓ} where
  -- `__init__`
  unfoldable pub new : ℤ → TtlCache V
  new default_ttl_s = record { default_ttl_s = default_ttl_s; entries = [] }

  -- The body of `get` once the entry is looked up: an expired entry is dropped and reads as absent.
  unfoldable pub read_entry : ℕ → String → Option (ℕ × V) → TtlCache V → TtlCache V × Option V
  read_entry now key none c = (c, none)
  read_entry now key (some (expires_at, value)) c =
      if ltb expires_at now
      then (record c { entries = Dict.remove key c.entries }, none)
      else (c, some value)

  unfoldable pub get : ℕ → String → TtlCache V → TtlCache V × Option V
  unfolding read_entry
  get now key c = read_entry now key (Dict.get key c.entries) c

  -- `self._default_ttl_s if ttl_s is None else ttl_s`
  unfoldable pub ttl_or_default : Option ℤ → TtlCache V → ℤ
  ttl_or_default none c = c.default_ttl_s
  ttl_or_default (some ttl) c = ttl

  unfoldable pub set : ℕ → String → V → Option ℤ → TtlCache V → TtlCache V
  unfolding ttl_or_default
  set now key value ttl_s c = record c {
    entries = Dict.put key (now + max_zero (ttl_or_default ttl_s c), value) c.entries;
  }

  unfoldable pub clear : TtlCache V → TtlCache V
  clear c = record c { entries = [] }
