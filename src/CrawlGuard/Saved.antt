-- ===== src/CrawlGuard/Saved.antt =====
-- backend/cs_uk_api/crawl_guard.py: the saved state of the breaker, `save` and `_load`, between the
-- entries and the JSON document; the text of the document and the file are left out. Days are ISO texts.
use ps4_uk_stream.Prelude.{
  ℕ, String, ◌≡◌, refl, ap, ◌∙◌, inl, inr, false, Option, none, some, [], ◌∷◌, arith, if◌then◌else◌,
  Bool-cases, ◌==◌, nat_eq, string_eq, ==_iff,
}
use ps4_uk_stream.Prelude.Dict
use ps4_uk_stream.Prelude.Dict.{Dict, DistinctKeys, get-put}
use ps4_uk_stream.Prelude.Integers.{ℤ, pos, negsuc}
use ps4_uk_stream.Prelude.Sorting.{sorted, insort}
use ps4_uk_stream.Prelude.Texts.{str_le}
use ps4_uk_stream.Storage.Documents.{Json, Fields, end, field, field_of, as_int}
use ps4_uk_stream.CrawlGuard.{Entry}

abbrev pub Entries : Type 0
Entries = Dict String (Entry String)

abbrev pub text_or_null : Option String → Json
text_or_null none = Json.null
text_or_null (some s) = Json.str s

abbrev pub entry_json : Entry String → Json
entry_json entry = Json.obj (
    Fields.field "nights" (Json.int (pos entry.nights)) (
      Fields.field "skip_until" (text_or_null entry.skip_until)
        (Fields.field "last_counted" (text_or_null entry.last_counted) Fields.end)))

abbrev pub providers_fields : Entries → Fields
providers_fields [] = Fields.end
providers_fields ((provider_id, entry) ∷ entries) =
    Fields.field provider_id (entry_json entry) (providers_fields entries)

-- The document that `save` writes
unfoldable pub saved_document : Entries → Json
saved_document entries = Json.obj (
    Fields.field "version" (Json.int (pos 1)) (
      Fields.field "providers"
        (Json.obj (providers_fields (sorted (λ a b. str_le a.0 b.0) entries))) Fields.end))

-- `nights if isinstance(nights, int) and nights >= 0 else 0`
abbrev pub nights_of : Option ℤ → ℕ
nights_of (some (pos n)) = n
nights_of (some (negsuc n)) = 0
nights_of none = 0

-- `value if isinstance(value, str) else None`
abbrev pub text_of : Option Json → Option String
text_of (some (Json.str s)) = some s
text_of _ = none

abbrev pub entry_of : Fields → Entry String
entry_of attributes = record {
  nights = nights_of (as_int (field_of "nights" attributes));
  skip_until = text_of (field_of "skip_until" attributes);
  last_counted = text_of (field_of "last_counted" attributes);
}

-- One round of the loop of `_load`: only an object makes an entry.
abbrev pub restore_one : String → Json → Entries → Entries
restore_one provider_id (Json.obj attributes) entries =
    Dict.put provider_id (entry_of attributes) entries
restore_one provider_id _ entries = entries

unfoldable pub restore_onto : Entries → Fields → Entries
restore_onto entries end = entries
restore_onto entries (field provider_id value fields) =
    restore_onto (restore_one provider_id value entries) fields

abbrev pub restore_providers : Option Json → Entries
restore_providers (some (Json.obj providers)) = restore_onto [] providers
restore_providers _ = []

-- `_load` on what `json.loads` gave; a file that is missing or does not parse gives no entries.
unfoldable pub restore : Option Json → Entries
unfolding restore_onto
restore (some (Json.obj raw)) = restore_providers (field_of "providers" raw)
restore _ = []

get-insort :
    (x : String × Entry String) (d : Entries) (p : String)
    → Dict.get x.0 d ≡ none
    → Dict.get p (insort (λ a b. str_le a.0 b.0) x d) ≡ Dict.get p (x ∷ d)
unfolding insort Dict.get
get-insort x [] p h = refl
get-insort x (y ∷ ys) p h =
    ground (arith, get-insort x ys p, ==_iff y.0 p, ==_iff x.0 p, ==_iff y.0 x.0)

get-sorted :
    (d : Entries) (p : String)
    → DistinctKeys d
    → Dict.get p (sorted (λ a b. str_le a.0 b.0) d) ≡ Dict.get p d
unfolding sorted Dict.get
get-sorted [] p h = refl
get-sorted (x ∷ d) p h =
    get-insort x (sorted (λ a b. str_le a.0 b.0) d) p (get-sorted d x.0 h.1 ∙ h.0)
    ∙ ap (λ o. if x.0 == p then some x.1 else o) (get-sorted d p h.1)

get_cons_none :
    (y : String × Entry String) (ys : Entries) (k : String)
    → Dict.get k (y ∷ ys) ≡ none
    → ((y.0 == k) ≡ false) × (Dict.get k ys ≡ none)
unfolding Dict.get
get_cons_none y ys k h = elim (Bool-cases (y.0 == k)) [
  | inl hit ↦ absurd (let h' = rw hit at h in cc)
  | inr miss ↦ (miss, rw miss at h)
]

insort-DistinctKeys :
    (x : String × Entry String) (d : Entries)
    → Dict.get x.0 d ≡ none
    → DistinctKeys d
    → DistinctKeys (insort (λ a b. str_le a.0 b.0) x d)
unfolding insort
insort-DistinctKeys x [] h d = (h, tt)
insort-DistinctKeys x (y ∷ ys) h d = elim (Bool-cases (str_le x.0 y.0)) [
  | inl first ↦ rw first (h, d)
  | inr after ↦
      let (apart, absent) : ((y.0 == x.0) ≡ false) × (Dict.get x.0 ys ≡ none) =
        get_cons_none y ys x.0 h in
      rw after (
        get-insort x ys y.0 absent
            ∙ unfold Dict.get in ground (arith, d.0, ==_iff x.0 y.0, ==_iff y.0 x.0),
        insort-DistinctKeys x ys absent d.1,
      )
]

sorted-DistinctKeys :
    (d : Entries) → DistinctKeys d → DistinctKeys (sorted (λ a b. str_le a.0 b.0) d)
unfolding sorted
sorted-DistinctKeys [] h = tt
sorted-DistinctKeys (x ∷ d) h =
    insort-DistinctKeys x (sorted (λ a b. str_le a.0 b.0) d) (get-sorted d x.0 h.1 ∙ h.0)
      (sorted-DistinctKeys d h.1)

text_lem : (o : Option String) → text_of (some (text_or_null o)) ≡ o
text_lem none = refl
text_lem (some s) = refl

abbrev entry_fields : Entry String → Fields
entry_fields entry = Fields.field "nights" (Json.int (pos entry.nights)) (
    Fields.field "skip_until" (text_or_null entry.skip_until)
      (Fields.field "last_counted" (text_or_null entry.last_counted) Fields.end))

entry_lem : (entry : Entry String) → entry_of (entry_fields entry) ≡ entry
unfolding field_of as_int
entry_lem entry = rw (text_lem entry.skip_until, text_lem entry.last_counted) refl

get-restore_onto :
    (entries d : Entries) (p : String)
    → DistinctKeys d
    → Dict.get p (restore_onto entries (providers_fields d))
      ≡ Dict.later (Dict.get p d) (Dict.get p entries)
unfolding restore_onto
get-restore_onto entries [] p h = unfold Dict.get in refl
get-restore_onto entries ((q, entry) ∷ d) p h =
    get-restore_onto (Dict.put q (entry_of (entry_fields entry)) entries) d p h.1
    ∙ rw (entry_lem entry, get-put q p entry entries) (Dict.later-put q p entry d entries h.0)

-- What `_load` restores from the document that `save` writes has the same entry for every provider,
-- when each provider has one entry.
pub restore-saved_document :
    (entries : Entries) (p : String)
    → DistinctKeys entries
    → Dict.get p (restore (some (saved_document entries))) ≡ Dict.get p entries
unfolding restore saved_document field_of
restore-saved_document entries p h =
    get-restore_onto [] (sorted (λ a b. str_le a.0 b.0) entries) p (sorted-DistinctKeys entries h)
    ∙ ap (λ o. Dict.later o (Dict.get p [])) (get-sorted entries p h)
    ∙ Dict.later_empty (Dict.get p entries) p
