-- ===== src/HttpCache/Cap.antt =====
-- The bound on the store: what `_enforce_size_cap` removes, and that its loop ends in time.
use ps4_uk_stream.Prelude.Dict.{get-remove}
use ps4_uk_stream.Prelude.{
  ℕ, zero, suc, ◌+◌, ◌-◌, ◌≤◌, String, ◌≡◌, refl, sym, ap, inl, inr, none, some, [], ◌∷◌, arith,
  ltb, Bool-cases, Option-cases, ◌==◌, nat_eq, string_eq, ==_iff, length, All,
}
use ps4_uk_stream.Prelude.Dict
use ps4_uk_stream.Prelude.Dict.{
  Dict, DistinctKeys, Stored, Stored-self, get-remove, remove-DistinctKeys, length-remove-lt,
  remove_absent,
}
use ps4_uk_stream.HttpCache.{Row, total_bytes, oldest_from, oldest, evict, enforce_size_cap}

oldest_from-Stored :
    (d : Dict String Row) (e : String × Row) (pages : Dict String Row)
    → Stored d e
    → All (Stored d) pages
    → Stored d (oldest_from e pages)
unfolding oldest_from
oldest_from-Stored d e [] h a = h
oldest_from-Stored d e (f ∷ pages) h a = elim (Bool-cases (ltb f.1.fetched_at e.1.fetched_at)) [
  | inl older ↦ rw older (oldest_from-Stored d f pages a.0 a.1)
  | inr newer ↦ rw newer (oldest_from-Stored d e pages h a.1)
]

-- No row of the list is older.
abbrev pub Oldest : String × Row → Dict String Row → Type 0
Oldest e = All (λ f. e.1.fetched_at ≤ f.1.fetched_at)

oldest_from-Oldest :
    (e : String × Row) (pages : Dict String Row) (o : String × Row)
    → oldest_from e pages ≡ o
    → Oldest o (e ∷ pages)
unfolding oldest_from
oldest_from-Oldest e [] o h = (omega (arith, ap (λ x. x.1.fetched_at) h), tt)
oldest_from-Oldest e (f ∷ pages) o h = elim (Bool-cases (ltb f.1.fetched_at e.1.fetched_at)) [
  | inl older ↦
      let (o_f, os) = oldest_from-Oldest f pages o (rw older at h) in
      (ground (arith, o_f), (o_f, os))
  | inr newer ↦
      let (o_e, os) = oldest_from-Oldest e pages o (rw newer at h) in
      (o_e, (ground (arith, o_e), os))
]

pub oldest-Oldest :
    (pages : Dict String Row) (o : String × Row) → oldest pages ≡ some o → Oldest o pages
unfolding oldest
oldest-Oldest [] o h = tt
oldest-Oldest (e ∷ pages) o h = oldest_from-Oldest e pages o cc

total_bytes-remove :
    (url : String) (row : Row) (pages : Dict String Row)
    → DistinctKeys pages
    → Dict.get url pages ≡ some row
    → total_bytes (Dict.remove url pages) + length row.body ≡ total_bytes pages
unfolding Dict.get Dict.remove
total_bytes-remove url row [] d h = absurd cc
total_bytes-remove url row ((u, r) ∷ pages) d h = elim (Bool-cases (u == url)) [
  | inl hit ↦
      let u_url : u ≡ url = (==_iff u url).0 hit in
      let gone : Dict.get url pages ≡ none = rw u_url at (d.0) in
      let found : some r ≡ some row = rw hit at h in
      let r_row : r ≡ row = cc in
      rw (hit, remove_absent url pages gone) (omega (arith, ap (λ x. length x.body) r_row))
  | inr miss ↦ rw miss (omega (arith, total_bytes-remove url row pages d.1 (rw miss at h)))
]

oldest-Stored :
    (pages : Dict String Row) (e : String × Row)
    → DistinctKeys pages
    → oldest pages ≡ some e
    → Stored pages e
unfolding oldest
oldest-Stored [] e d h = absurd cc
oldest-Stored (f ∷ pages) e d h =
    let (f_stored, stored) = Stored-self (f ∷ pages) d in
    let picked : oldest_from f pages ≡ e = cc in
    rw (sym picked) (oldest_from-Stored (f ∷ pages) f pages f_stored stored)

oldest-none : (pages : Dict String Row) → oldest pages ≡ none → total_bytes pages ≡ 0
unfolding oldest
oldest-none [] h = refl
oldest-none (e ∷ pages) h = absurd cc

-- Enough fuel: the loop ends with a total within the bound.
evict-bound :
    (max_bytes fuel : ℕ) (pages : Dict String Row)
    → DistinctKeys pages
    → length pages ≤ fuel
    → total_bytes (evict max_bytes fuel (total_bytes pages) pages) ≤ max_bytes
unfolding evict
evict-bound max_bytes zero [] d h = omega arith
evict-bound max_bytes zero (e ∷ pages) d h = absurd (omega arith)
evict-bound max_bytes (suc fuel) pages d h = elim (Bool-cases (ltb max_bytes (total_bytes pages))) [
  | inl over ↦ elim (Option-cases (oldest pages)) [
    | inl empty ↦ rw (over, empty) (omega (arith, oldest-none pages empty))
    | inr (e, found) ↦
        let stored = oldest-Stored pages e d found in
        let rest : Dict String Row = Dict.remove e.0 pages in
        let left : total_bytes pages - length e.1.body ≡ total_bytes rest =
          omega (arith, total_bytes-remove e.0 e.1 pages d stored) in
        rw (over, found, left)
          (evict-bound max_bytes fuel rest (remove-DistinctKeys e.0 pages d)
            (omega (arith, length-remove-lt e.0 pages e.1 stored)))
  ]
  | inr within ↦ rw within (ground arith)
]

evict-DistinctKeys :
    (max_bytes fuel total : ℕ) (pages : Dict String Row)
    → DistinctKeys pages
    → DistinctKeys (evict max_bytes fuel total pages)
unfolding evict
evict-DistinctKeys max_bytes zero total pages d = d
evict-DistinctKeys max_bytes (suc fuel) total pages d = elim (Bool-cases (ltb max_bytes total)) [
  | inl over ↦ elim (Option-cases (oldest pages)) [
    | inl empty ↦ rw (over, empty) d
    | inr (e, found) ↦
        rw (over, found)
          (evict-DistinctKeys max_bytes fuel (total - length e.1.body) (Dict.remove e.0 pages)
            (remove-DistinctKeys e.0 pages d))
  ]
  | inr within ↦ rw within d
]

pub enforce_size_cap-DistinctKeys :
    (max_bytes : ℕ) (pages : Dict String Row)
    → DistinctKeys pages
    → DistinctKeys (enforce_size_cap max_bytes pages)
unfolding enforce_size_cap
enforce_size_cap-DistinctKeys max_bytes pages d =
    evict-DistinctKeys max_bytes (length pages) (total_bytes pages) pages d

-- The rows that `_enforce_size_cap` leaves hold at most `max_bytes`; the rows had distinct keys, and
-- one round for each row is enough.
pub enforce_size_cap-bound :
    (max_bytes : ℕ) (pages : Dict String Row)
    → DistinctKeys pages
    → total_bytes (enforce_size_cap max_bytes pages) ≤ max_bytes
unfolding enforce_size_cap
enforce_size_cap-bound max_bytes pages d =
    evict-bound max_bytes (length pages) pages d (omega arith)

Oldest-get :
    (o : String × Row) (pages : Dict String Row) (url : String) (row : Row)
    → Oldest o pages
    → Dict.get url pages ≡ some row
    → o.1.fetched_at ≤ row.fetched_at
unfolding Dict.get
Oldest-get o [] url row a h = absurd cc
Oldest-get o ((u, r) ∷ pages) url row a h = elim (Bool-cases (u == url)) [
  | inl hit ↦
      let found : some r ≡ some row = rw hit at h in
      let r_row : r ≡ row = cc in omega (arith, a.0, ap (λ x. x.fetched_at) r_row)
  | inr miss ↦ Oldest-get o pages url row a.1 (rw miss at h)
]

removed_from :
    (u url : String) (pages : Dict String Row) (row : Row)
    → Dict.get url (Dict.remove u pages) ≡ some row
    → Dict.get url pages ≡ some row
removed_from u url pages row h = elim (Bool-cases (u == url)) [
  | inl hit ↦ absurd (let k = rw (get-remove, hit) at h in cc)
  | inr miss ↦ rw (get-remove, miss) at h
]

-- `evict` only removes.
evict-get :
    (max_bytes fuel total : ℕ) (pages : Dict String Row) (url : String) (row : Row)
    → Dict.get url (evict max_bytes fuel total pages) ≡ some row
    → Dict.get url pages ≡ some row
unfolding evict
evict-get max_bytes zero total pages url row h = h
evict-get max_bytes (suc fuel) total pages url row h = elim (Bool-cases (ltb max_bytes total)) [
  | inl over ↦ elim (Option-cases (oldest pages)) [
    | inl empty ↦ rw (over, empty) at h
    | inr (e, found) ↦ removed_from e.0 url pages row (
        evict-get max_bytes fuel (total - length e.1.body) (Dict.remove e.0 pages) url row
          (rw (over, found) at h))
  ]
  | inr within ↦ rw within at h
]

evict-order :
    (max_bytes fuel total : ℕ) (pages : Dict String Row) (gone kept : String) (old row : Row)
    → DistinctKeys pages
    → Dict.get gone pages ≡ some old
    → Dict.get gone (evict max_bytes fuel total pages) ≡ none
    → Dict.get kept (evict max_bytes fuel total pages) ≡ some row
    → old.fetched_at ≤ row.fetched_at
unfolding evict
evict-order max_bytes zero total pages gone kept old row d g n k = absurd cc
evict-order max_bytes (suc fuel) total pages gone kept old row d g n k =
    elim (Bool-cases (ltb max_bytes total)) [
      | inl over ↦ elim (Option-cases (oldest pages)) [
        | inl empty ↦ absurd (let n' = rw (over, empty) at n in cc)
        | inr (e, found) ↦
            let n' = rw (over, found) at n in
            let k' = rw (over, found) at k in
            let rest : Dict String Row = Dict.remove e.0 pages in
            elim (Bool-cases (e.0 == gone)) [
              | inl hit ↦
                  let stored : Dict.get gone pages ≡ some e.1 =
                    rw ((==_iff e.0 gone).0 hit) at (oldest-Stored pages e d found) in
                  let same : e.1 ≡ old = cc in
                  let left = evict-get max_bytes fuel (total - length e.1.body) rest kept row k' in
                  let was = removed_from e.0 kept pages row left in
                  omega (
                    arith,
                    Oldest-get e pages kept row (oldest-Oldest pages e found) was,
                    ap (λ x. x.fetched_at) same,
                  )
              | inr miss ↦
                  evict-order max_bytes fuel (total - length e.1.body) rest gone kept old row
                    (remove-DistinctKeys e.0 pages d) (rw (get-remove, miss) g) n' k'
            ]
      ]
      | inr within ↦ absurd (let n' = rw within at n in cc)
    ]

-- A row that `_enforce_size_cap` removes was fetched no later than any row that it keeps; the rows
-- had distinct keys.
pub enforce_size_cap-order :
    (max_bytes : ℕ) (pages : Dict String Row) (gone kept : String) (old row : Row)
    → DistinctKeys pages
    → Dict.get gone pages ≡ some old
    → Dict.get gone (enforce_size_cap max_bytes pages) ≡ none
    → Dict.get kept (enforce_size_cap max_bytes pages) ≡ some row
    → old.fetched_at ≤ row.fetched_at
unfolding enforce_size_cap
enforce_size_cap-order max_bytes pages gone kept old row =
    evict-order max_bytes (length pages) (total_bytes pages) pages gone kept old row
