-- ===== src/RowKinds/Views.antt =====
-- What the derived maps of the table give back.
use ps4_uk_stream.Prelude.{
  String, ◌≡◌, refl, ap, ◌∙◌, ◌↔◌, Bool, true, false, not, some, List, [], ◌∷◌, arith, ◌==◌, nat_eq,
  string_eq, ==_refl, ==_iff, all, All,
}
use ps4_uk_stream.Prelude.Dict
use ps4_uk_stream.Prelude.Dict.{Dict, get-put}
use ps4_uk_stream.Prelude.Membership.{contains, IsDistinct}
use ps4_uk_stream.Models.{MediaForm, SearchResult}
use ps4_uk_stream.RowKinds.{
  RowKind, FormFilter, row_kinds, view_id, put_views, view_type_by_id, item_matches_row, has_form,
}

-- The view ids of a table, in its order
abbrev pub view_ids : (String → String) → Dict String RowKind → List String
view_ids uuid5_hex [] = []
view_ids uuid5_hex ((k, rk) ∷ table) = view_id uuid5_hex rk ∷ view_ids uuid5_hex table

-- The row of the id comes back from the map.
abbrev pub ReadsBack : (String → String) → Dict String String → String × RowKind → Type 0
ReadsBack uuid5_hex views row = Dict.get (view_id uuid5_hex row.1) views ≡ some row.1.kind

get-put_views_ne :
    (uuid5_hex : String → String) (x : String) (table : Dict String RowKind)
    (views : Dict String String)
    → contains x (view_ids uuid5_hex table) ≡ false
    → Dict.get x (put_views uuid5_hex table views) ≡ Dict.get x views
unfolding contains
get-put_views_ne uuid5_hex x [] views h = refl
get-put_views_ne uuid5_hex x ((k, rk) ∷ table) views h =
    get-put_views_ne uuid5_hex x table (Dict.put (view_id uuid5_hex rk) rk.kind views)
      (ground arith)
    ∙ get-put (view_id uuid5_hex rk) x rk.kind views
    ∙ ground arith

put_views-ReadsBack :
    (uuid5_hex : String → String) (table : Dict String RowKind) (views : Dict String String)
    → IsDistinct (view_ids uuid5_hex table)
    → All (ReadsBack uuid5_hex (put_views uuid5_hex table views)) table
put_views-ReadsBack uuid5_hex [] views d = tt
put_views-ReadsBack uuid5_hex ((k, rk) ∷ table) views d = (
  get-put_views_ne uuid5_hex (view_id uuid5_hex rk) table
        (Dict.put (view_id uuid5_hex rk) rk.kind views) d.0
      ∙ get-put (view_id uuid5_hex rk) (view_id uuid5_hex rk) rk.kind views
      ∙ rw (==_refl (view_id uuid5_hex rk)) refl,
  put_views-ReadsBack uuid5_hex table (Dict.put (view_id uuid5_hex rk) rk.kind views) d.1,
)

-- The reverse map inverts the view id on every row of the table, where the hash gives the rows' texts
-- different ids.
view_type_by_id-ReadsBack :
    (uuid5_hex : String → String)
    → IsDistinct (view_ids uuid5_hex row_kinds)
    → All (ReadsBack uuid5_hex (view_type_by_id uuid5_hex)) row_kinds
unfolding view_type_by_id
view_type_by_id-ReadsBack uuid5_hex d = put_views-ReadsBack uuid5_hex row_kinds [] d

-- The Jellyfin Type of an item of the form
abbrev pub wire_type : MediaForm → String
wire_type MediaForm.movie = "Movie"
wire_type MediaForm.series = "Series"

abbrev agree : Bool → Bool → Bool
agree true b = b
agree false b = not b

abbrev agrees_on : MediaForm → RowKind → Bool
agrees_on form entry = elim entry.filter [
  | FormFilter.form_filter ↦ agree (has_form form entry.form) (entry.jf_type == wire_type form)
  | FormFilter.any_filter ↦ true
]

rows_agree : (form : MediaForm) → all (λ row. agrees_on form row.1) row_kinds ≡ true
unfolding row_kinds
rows_agree MediaForm.movie = refl
rows_agree MediaForm.series = refl

all-get :
    (p : RowKind → Bool) (kind : String) (entry : RowKind) (table : Dict String RowKind)
    → all (λ row. p row.1) table ≡ true
    → Dict.get kind table ≡ some entry
    → p entry ≡ true
unfolding Dict.get
all-get p kind entry [] h g = cc
all-get p kind entry ((k, rk) ∷ table) h g = grind (arith, all-get p kind entry table)

agree_iff : (a b : Bool) → agree a b ≡ true → (a ≡ true) ↔ (b ≡ true)
agree_iff true b h = (λ e. h, λ e. refl)
agree_iff false b h = (λ e. cc, λ e. ground arith)

agrees_on_form :
    (entry : RowKind) (form : MediaForm)
    → entry.filter ≡ FormFilter.form_filter
    → agrees_on form entry ≡ true
    → agree (has_form form entry.form) (entry.jf_type == wire_type form) ≡ true
agrees_on_form entry form filter h = rw filter at h

some-injective : {a b : Bool} → some a ≡ some b → a ≡ b
some-injective e = cc

-- A row with a form filter admits a listing item exactly when the row's Jellyfin Type is that of the
-- item's form.
item_matches_row_iff :
    (kind : String) (entry : RowKind) (item : SearchResult)
    → Dict.get kind row_kinds ≡ some entry
    → entry.filter ≡ FormFilter.form_filter
    → (item_matches_row kind item ≡ some true) ↔ (entry.jf_type ≡ wire_type item.form)
unfolding item_matches_row
item_matches_row_iff kind entry item h filter =
    let agrees = agree_iff _ _ (
      agrees_on_form entry item.form filter
        (all-get (agrees_on item.form) kind entry row_kinds (rows_agree item.form) h)) in
    rw (h, filter)
      (
        λ m. (==_iff entry.jf_type (wire_type item.form)).0 (agrees.0 (some-injective m)),
        λ e. ap some (agrees.1 ((==_iff entry.jf_type (wire_type item.form)).1 e)),
      )
