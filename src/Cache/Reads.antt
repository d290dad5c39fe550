-- ===== src/Cache/Reads.antt =====
-- What a read of the cache returns after a write, after another read, and after any run of calls.
use ps4_uk_stream.Prelude.{
  ℕ, ◌+◌, ◌≤◌, String, ◌≡◌, refl, ◌∙◌, Option, none, some, List, [], ◌∷◌, arith, ltb, if◌then◌else◌,
  ◌==◌, nat_eq, string_eq, ==_iff,
}
use ps4_uk_stream.Prelude.Dict
use ps4_uk_stream.Prelude.Dict.{Dict, get-put, get-remove}
use ps4_uk_stream.Prelude.Integers.{ℤ, max_zero}
use ps4_uk_stream.Cache.{TtlCache, get, set, clear, new, ttl_or_default}

-- The entry as a client at time `t` sees it.
abbrev pub fresh {ℓ} : {V : Type ℓ} → ℕ → Option (ℕ × V) → Option V
fresh t none = none
fresh t (some (expires_at, value)) = if ltb expires_at t then none else some value

module _ {ℓ} {V : Type ℓ} where
  pub get-fresh :
      (t : ℕ) (k : String) (c : TtlCache V) → (get t k c).1 ≡ fresh t (Dict.get k c.entries)
  unfolding get
  get-fresh t k c = ground arith

  -- A read shows nothing to the reads that come later, though it may drop the entry.
  pub fresh-get :
      (s t : ℕ) (k j : String) (c : TtlCache V)
      → s ≤ t
      → fresh t (Dict.get j (get s k c).0.entries) ≡ fresh t (Dict.get j c.entries)
  unfolding get
  fresh-get s t k j c h = ground (arith, get-remove k j c.entries, ==_iff k j)

  pub default_ttl_s-get :
      (s : ℕ) (k : String) (c : TtlCache V) → (get s k c).0.default_ttl_s ≡ c.default_ttl_s
  unfolding get
  default_ttl_s-get s k c = ground arith

  -- After `set` at time `now`, a read of key `j` at time `t` returns the value written if `j` is the
  -- key written and its TTL (a negative one counting as 0) has not run out, and otherwise what a
  -- read of `j` returned before the write.
  pub get-set :
      (now t : ℕ) (k j : String) (v : V) (ttl : Option ℤ) (c : TtlCache V)
      → (get t j (set now k v ttl c)).1 ≡ (
          if k == j
          then (if ltb (now + max_zero (ttl_or_default ttl c)) t then none else some v)
          else (get t j c).1)
  get-set now t k j v ttl c =
      rw (get-fresh t j (set now k v ttl c), get-fresh t j c)
        (unfold set in
          ground (arith, get-put k j (now + max_zero (ttl_or_default ttl c), v) c.entries))

-- A timed call of a method. `get` is a read by any client.
pub data Call {ℓ} (V : Type ℓ) : Type ℓ where
  read : ℕ → String → Call V
  write : ℕ → String → V → Option ℤ → Call V
  flush : ℕ → Call V

module _ {ℓ} {V : Type ℓ} where
  abbrev pub time : Call V → ℕ
  time (read t k) = t
  time (write t k v ttl) = t
  time (flush t) = t

  pub step : Call V → TtlCache V → TtlCache V
  step (read t k) c = (get t k c).0
  step (write t k v ttl) c = set t k v ttl c
  step (flush t) c = clear c

  pub run : List (Call V) → TtlCache V → TtlCache V
  run [] c = c
  run (call ∷ calls) c = run calls (step call c)

  -- The specification forgets every read: the last write of the key since the last flush.
  pub note : ℤ → String → Call V → Option (ℕ × V) → Option (ℕ × V)
  note d j (read t k) last = last
  note d j (write t k v ttl) last =
      if k == j then some (t + max_zero (elim ttl [ none ↦ d | some z ↦ z ]), v) else last
  note d j (flush t) last = none

  pub last_write : ℤ → String → List (Call V) → Option (ℕ × V) → Option (ℕ × V)
  last_write d j [] last = last
  last_write d j (call ∷ calls) last = last_write d j calls (note d j call last)

  -- No call of the list is later than `t`.
  abbrev pub Before : ℕ → List (Call V) → Type 0
  Before t [] = Unit
  Before t (call ∷ calls) = (time call ≤ t) × Before t calls

  fresh-last_write :
      (t : ℕ) (d : ℤ) (j : String) (calls : List (Call V)) (a b : Option (ℕ × V))
      → Before t calls
      → fresh t a ≡ fresh t b
      → fresh t (last_write d j calls a) ≡ fresh t (last_write d j calls b)
  unfolding last_write note
  fresh-last_write t d j [] a b h e = e
  fresh-last_write t d j (read s k ∷ calls) a b h e = fresh-last_write t d j calls a b h.1 e
  fresh-last_write t d j (write s k v ttl ∷ calls) a b h e =
      fresh-last_write t d j calls _ _ h.1 (ground (arith, ==_iff k j))
  fresh-last_write t d j (flush s ∷ calls) a b h e = refl

  default_ttl_s-step :
      (call : Call V) (c : TtlCache V) → (step call c).default_ttl_s ≡ c.default_ttl_s
  unfolding step set clear
  default_ttl_s-step (read t k) c = default_ttl_s-get t k c
  default_ttl_s-step (write t k v ttl) c = refl
  default_ttl_s-step (flush t) c = refl

  fresh-step :
      (t : ℕ) (j : String) (call : Call V) (c : TtlCache V)
      → time call ≤ t
      → fresh t (Dict.get j (step call c).entries)
        ≡ fresh t (note c.default_ttl_s j call (Dict.get j c.entries))
  unfolding step note
  fresh-step t j (read s k) c h = fresh-get s t k j c h
  fresh-step t j (write s k v none) c h =
      unfold set in
      rw (get-put k j (s + max_zero c.default_ttl_s, v) c.entries) (ground (arith, ==_iff k j))
  fresh-step t j (write s k v (some z)) c h =
      unfold set in rw (get-put k j (s + max_zero z, v) c.entries) (ground (arith, ==_iff k j))
  fresh-step t j (flush s) c h = unfold clear Dict.get in refl

  run-fresh :
      (t : ℕ) (j : String) (calls : List (Call V)) (c : TtlCache V)
      → Before t calls
      → fresh t (Dict.get j (run calls c).entries)
        ≡ fresh t (last_write c.default_ttl_s j calls (Dict.get j c.entries))
  unfolding run last_write
  run-fresh t j [] c h = refl
  run-fresh t j (call ∷ calls) c h =
      run-fresh t j calls (step call c) h.1
      ∙ rw (default_ttl_s-step call c)
          (fresh-last_write t c.default_ttl_s j calls _ _ h.1 (fresh-step t j call c h.0))

  -- The cache refines the log of its writes: after any calls on a new cache, none of them later than
  -- `t`, a read of key `j` at time `t` returns the value of the last write of `j` since the last
  -- flush, if its TTL has not run out, and nothing otherwise; the reads in between have no effect.
  pub get-run :
      (t : ℕ) (d : ℤ) (j : String) (calls : List (Call V))
      → Before t calls
      → (get t j (run calls (new d))).1 ≡ fresh t (last_write d j calls none)
  get-run t d j calls h =
      get-fresh t j (run calls (new d)) ∙ (unfold new Dict.get in run-fresh t j calls (new d) h)
