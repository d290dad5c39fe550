-- ===== src/Resume/Shelves.antt =====
-- The positions on the shelf: the cap, what an eviction takes, and what a report leaves.
use ps4_uk_stream.Prelude.{
  ℕ, zero, suc, ◌+◌, ◌≤◌, ◌<◌, String, ◌≡◌, sym, ap, ◌∙◌, ◌≢◌, ◌⊎◌, inl, inr, false, Option, none,
  some, [], ◌∷◌, arith, leb, Bool-cases, nat_eq, string_eq, ==_iff, length, All,
}
use ps4_uk_stream.Prelude.Dict
use ps4_uk_stream.Prelude.Dict.{
  Dict, DistinctKeys, Stored-self, put-DistinctKeys, get-put, get-put_self, get-remove, length-put,
  length-remove-lt, length-remove-le,
}
use ps4_uk_stream.Prelude.Integers.{ℤ, pos, negsuc}
use ps4_uk_stream.Resume.{
  Entry, Shelf, max_items, stamp, is_finished, known_runtime, older, oldest, older_of, evict, cap,
  new_entry, record_at, record_position,
}

oldest-Stored :
    (d : Dict String Entry) (best : String × Entry) (es : Dict String Entry)
    → Dict.Stored d best
    → All (Dict.Stored d) es
    → Dict.Stored d (oldest best es)
unfolding oldest
oldest-Stored d best [] h p = h
oldest-Stored d best (e ∷ es) h p =
    oldest-Stored d (older_of e best) es (unfold older_of in ground arith) p.1

older_of_le :
    (e f : String × Entry)
    → (stamp (older_of e f).1 ≤ stamp e.1) × (stamp (older_of e f).1 ≤ stamp f.1)
unfolding older_of older
older_of_le e f = (ground arith, ground arith)

-- No entry of the list is older than the one that `oldest` picks.
oldest-le :
    (best : String × Entry) (es : Dict String Entry)
    → All (λ f. stamp (oldest best es).1 ≤ stamp f.1) (best ∷ es)
unfolding oldest
oldest-le best [] = (omega arith, tt)
oldest-le best (e ∷ es) =
    let (le_picked, le_rest) = oldest-le (older_of e best) es in
    (
      omega (arith, le_picked, older_of_le e best),
      (omega (arith, le_picked, older_of_le e best), le_rest),
    )

-- The bound holds for the entry that a key reads.
All-get :
    (n : ℕ) (d : Dict String Entry) (j : String) (v : Entry)
    → All (λ f. n ≤ stamp f.1) d
    → Dict.get j d ≡ some v
    → n ≤ stamp v
unfolding Dict.get
All-get n [] j v h g = cc
All-get n (e ∷ es) j v h g = ground (arith, All-get n es j v)

length-evict-lt :
    (d : Dict String Entry) → DistinctKeys d → 0 < length d → length (evict d) + 1 ≤ length d
unfolding evict
length-evict-lt [] k h = absurd (omega arith)
length-evict-lt (e ∷ es) k h =
    length-remove-lt (oldest e es).0 (e ∷ es) (oldest e es).1
      (oldest-Stored (e ∷ es) e es (Stored-self (e ∷ es) k).0 (Stored-self (e ∷ es) k).1)

length-cap-le :
    (d : Dict String Entry) → DistinctKeys d → length d ≤ max_items + 1 → length (cap d) ≤ max_items
unfolding cap
length-cap-le d k h = elim (Bool-cases (leb (length d) max_items)) [
  | inl fits ↦ rw fits (ground arith)
  | inr over ↦ rw over (ground (arith, length-evict-lt d k))
]

record_at-le :
    (now : ℕ) (item : String) (position : ℕ) (runtime : Option ℤ) (s : Shelf)
    → DistinctKeys s.items
    → length s.items ≤ max_items
    → length (record_at now item position runtime s).items ≤ max_items
unfolding record_at
record_at-le now item position runtime s k h =
    elim (Bool-cases (is_finished position (known_runtime runtime (Dict.get item s.items)))) [
      | inl done ↦ rw done (omega (arith, length-remove-le item s.items))
      | inr more ↦ rw more (
          length-cap-le _ (put-DistinctKeys item _ s.items k) (
            ground (
              arith,
              length-put item (new_entry now position runtime (Dict.get item s.items)) s.items,
            )))
    ]

-- No report takes the shelf over its 50 entries, if it stands at 50 at most and has each key once.
length-record_position-le :
    (now : ℕ) (item : String) (position : ℤ) (runtime : Option ℤ) (s : Shelf)
    → DistinctKeys s.items
    → length s.items ≤ max_items
    → length (record_position now item position runtime s).items ≤ max_items
unfolding record_position
length-record_position-le now item (negsuc n) runtime s k h = h
length-record_position-le now item (pos zero) runtime s k h = h
length-record_position-le now item (pos (suc n)) runtime s k h =
    record_at-le now item (suc n) runtime s k h

same_stamp : (a b : Entry) → some a ≡ some b → stamp a ≡ stamp b
same_stamp a b h = ap (λ (o : Option Entry). elim o [ none ↦ 0 | some e ↦ stamp e ]) h

cap_fits : (d : Dict String Entry) → length d ≤ max_items → cap d ≡ d
unfolding cap
cap_fits d h = ground arith

not_oldest :
    (e : String × Entry) (es : Dict String Entry) (j i : String) (v f : Entry)
    → DistinctKeys (e ∷ es)
    → Dict.get j (e ∷ es) ≡ some v
    → Dict.get i (e ∷ es) ≡ some f
    → stamp f < stamp v
    → (oldest e es).0 ≢ j
not_oldest e es j i v f k gj gi lt same =
    let stored = Stored-self (e ∷ es) k in
    let picked : Dict.get (oldest e es).0 (e ∷ es) ≡ some (oldest e es).1 =
      oldest-Stored (e ∷ es) e es stored.0 stored.1 in
    let read : some (oldest e es).1 ≡ some v =
      sym picked ∙ ap (λ key. Dict.get key (e ∷ es)) same ∙ gj in
    let is_v : stamp (oldest e es).1 ≡ stamp v = same_stamp (oldest e es).1 v read in
    omega (arith, All-get (stamp (oldest e es).1) (e ∷ es) i f (oldest-le e es) gi)

-- An eviction spares a key while some other key reads an older entry.
cap_spares :
    (d : Dict String Entry) (j i : String) (v f : Entry)
    → DistinctKeys d
    → Dict.get j d ≡ some v
    → Dict.get i d ≡ some f
    → stamp f < stamp v
    → Dict.get j (cap d) ≡ some v
unfolding cap evict
cap_spares [] j i v f k gj gi lt = gj
cap_spares (e ∷ es) j i v f k gj gi lt = elim (Bool-cases (leb (length (e ∷ es)) max_items)) [
  | inl fits ↦ rw fits gj
  | inr over ↦
      rw (over, get-remove)
        (ground (arith, ==_iff (oldest e es).0 j, not_oldest e es j i v f k gj gi lt))
]

-- A report that does not finish its item is on the shelf afterwards, with the runtime last known and the
-- time of the report, if the shelf has each key once and is not full, or if the entry of some other
-- item is older than the report: the eviction never takes what was just recorded then.
get-record_at :
    (now : ℕ) (item : String) (position : ℕ) (runtime : Option ℤ) (s : Shelf)
    → DistinctKeys s.items
    → is_finished position (known_runtime runtime (Dict.get item s.items)) ≡ false
    → (length s.items < max_items)
      ⊎ ((i : String) × (f : Entry) × (Dict.get i s.items ≡ some f) × (i ≢ item) × (stamp f < now))
    → Dict.get item (record_at now item position runtime s).items
      ≡ some (new_entry now position runtime (Dict.get item s.items))
unfolding record_at
get-record_at now item position runtime s k more (inl room) =
    let stored = new_entry now position runtime (Dict.get item s.items) in
    rw
      (
        more,
        cap_fits (Dict.put item stored s.items) (ground (arith, length-put item stored s.items)),
      )
      (get-put_self item stored s.items)
get-record_at now item position runtime s k more (inr (i, f, gi, ne, lt)) = rw more (
    cap_spares (Dict.put item (new_entry now position runtime (Dict.get item s.items)) s.items) item
      i _ f (put-DistinctKeys item _ s.items k) (get-put_self item _ s.items)
      (rw (get-put item i (new_entry now position runtime (Dict.get item s.items)) s.items)
        (ground (arith, ==_iff item i)))
      lt)
