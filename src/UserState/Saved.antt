-- ===== src/UserState/Saved.antt =====
-- backend/cs_uk_api/user_state.py: the adapters of the file format, between the state and the JSON value
-- that `VersionedFileStore` saves and loads.
use ps4_uk_stream.Prelude.{
  refl, ◌∙◌, String, ◌≡◌, ◌||◌, Option, none, some, List, [], ◌∷◌, arith, nat_eq, string_eq, ==_iff,
}
use ps4_uk_stream.Prelude.Dict
use ps4_uk_stream.Prelude.Dict.{Dict, DistinctKeys, get-put}
use ps4_uk_stream.Prelude.Sorting.{sorted}
use ps4_uk_stream.Prelude.Membership.{contains-sorted, contains}
use ps4_uk_stream.Prelude.Texts.{str_le}
use ps4_uk_stream.Storage.Documents.{Json, Items, Fields, nil, cons, end, field, field_of}
use ps4_uk_stream.UserState.{UserState, add}

abbrev pub items_of : List String → Items
items_of [] = Items.nil
items_of (s ∷ ss) = Items.cons (Json.str s) (items_of ss)

abbrev pub fields_of : Dict String String → Fields
fields_of [] = Fields.end
fields_of ((k, v) ∷ d) = Fields.field k (Json.str v) (fields_of d)

unfoldable pub encode_user_state : UserState → Json
encode_user_state s = Json.obj (
    Fields.field "favorites" (Json.arr (items_of (sorted str_le s.favorites))) (
      Fields.field "played" (Json.arr (items_of (sorted str_le s.played)))
        (Fields.field "dub_memory" (Json.obj (fields_of s.dub_memory)) Fields.end)))

unfoldable pub clean_item : Json → List String → List String
unfolding add
clean_item (Json.str s) seen = add s seen
clean_item _ seen = seen

-- `{s for s in raw if isinstance(s, str)}`, with the elements so far
unfoldable pub clean_items : List String → Items → List String
unfolding clean_item
clean_items seen nil = seen
clean_items seen (cons value items) = clean_items (clean_item value seen) items

-- `_clean_list`
unfoldable pub clean_list : Option Json → List String
unfolding clean_items
clean_list (some (Json.arr items)) = clean_items [] items
clean_list _ = []

abbrev pub clean_dub : String → Json → Dict String String → Dict String String
clean_dub k (Json.str v) dubs = Dict.put k v dubs
clean_dub k _ dubs = dubs

unfoldable pub clean_dubs : Dict String String → Fields → Dict String String
clean_dubs dubs end = dubs
clean_dubs dubs (field k value fields) = clean_dubs (clean_dub k value dubs) fields

unfoldable pub dubs_of : Option Json → Dict String String
unfolding clean_dubs
dubs_of (some (Json.obj fields)) = clean_dubs [] fields
dubs_of _ = []

-- Anything but an object raises TypeError.
unfoldable pub decode_user_state : Json → Option UserState
unfolding clean_list dubs_of field_of
decode_user_state (Json.obj fields) = some record {
  favorites = clean_list (field_of "favorites" fields);
  played = clean_list (field_of "played" fields);
  dub_memory = dubs_of (field_of "dub_memory" fields);
}
decode_user_state _ = none

contains-clean_items :
    (x : String) (seen ss : List String)
    → contains x (clean_items seen (items_of ss)) ≡ (contains x seen || contains x ss)
unfolding clean_items add contains
contains-clean_items x seen [] = ground arith
contains-clean_items x seen (s ∷ ss) =
    ground (arith, contains-clean_items x (add s seen) ss, ==_iff s x)

get-clean_dubs :
    (dubs d : Dict String String) (k : String)
    → DistinctKeys d
    → Dict.get k (clean_dubs dubs (fields_of d)) ≡ Dict.later (Dict.get k d) (Dict.get k dubs)
unfolding clean_dubs
get-clean_dubs dubs [] k h = unfold Dict.get in refl
get-clean_dubs dubs ((j, v) ∷ d) k h =
    get-clean_dubs (Dict.put j v dubs) d k h.1
    ∙ rw (get-put j k v dubs) (Dict.later-put j k v d dubs h.0)

-- The same favourites, the same played marks and the same dub for every series
pub record Alike (s t : UserState) : Type 0 where
  pub favorites_alike : (x : String) → contains x s.favorites ≡ contains x t.favorites
  pub played_alike : (x : String) → contains x s.played ≡ contains x t.played
  pub dubs_alike : (k : String) → Dict.get k s.dub_memory ≡ Dict.get k t.dub_memory

abbrev saved_marks : List String → List String
saved_marks marks = clean_items [] (items_of (sorted str_le marks))

marks_alike : (x : String) (marks : List String) → contains x (saved_marks marks) ≡ contains x marks
unfolding contains
marks_alike x marks =
    contains-clean_items x [] (sorted str_le marks) ∙ contains-sorted str_le x marks

-- The document decodes to a state like `s`.
abbrev pub ReadsBack : Json → UserState → Type 0
ReadsBack document s = (t : UserState) × (decode_user_state document ≡ some t) × Alike t s

-- A state whose dub memory has each series once decodes from its saved form to a state with the same
-- favourites, the same played marks and the same dub for every series.
pub decode_user_state-encode_user_state :
    (s : UserState) → DistinctKeys s.dub_memory → ReadsBack (encode_user_state s) s
unfolding decode_user_state encode_user_state field_of
decode_user_state-encode_user_state s h = (
  record {
    favorites = clean_items [] (items_of (sorted str_le s.favorites));
    played = clean_items [] (items_of (sorted str_le s.played));
    dub_memory = clean_dubs [] (fields_of s.dub_memory);
  },
  refl,
  record {
    favorites_alike = λ x. marks_alike x s.favorites;
    played_alike = λ x. marks_alike x s.played;
    dubs_alike =
        λ k. get-clean_dubs [] s.dub_memory k h ∙ Dict.later_empty (Dict.get k s.dub_memory) k;
  },
)
