-- ===== src/Models.antt =====
-- backend/cs_uk_api/models.py: the listing item and the section that the other parts share.
use ps4_uk_stream.Prelude.{
  ◌↔◌, ◌≡◌, refl, ◌==◌, ==_iff, Eq, if◌then◌else◌, arith, ℕ, String, Bool, true, false, Option,
  List, nat_eq, string_eq,
}

pub data MediaForm : Type 0 where
  movie series : MediaForm

pub data MediaStyle : Type 0 where
  anime cartoon dorama : MediaStyle

abbrev pub form_eqb : MediaForm → MediaForm → Bool
form_eqb movie movie = true
form_eqb series series = true
form_eqb _ _ = false

pub form_eqb_iff : (a b : MediaForm) → (form_eqb a b ≡ true) ↔ (a ≡ b)
form_eqb_iff movie movie = (λ e. refl, λ e. refl)
form_eqb_iff series series = (λ e. refl, λ e. refl)
form_eqb_iff movie series = (λ e. cc, λ e. cc)
form_eqb_iff series movie = (λ e. cc, λ e. cc)

abbrev pub style_eqb : MediaStyle → MediaStyle → Bool
style_eqb anime anime = true
style_eqb cartoon cartoon = true
style_eqb dorama dorama = true
style_eqb _ _ = false

-- The wire tokens
abbrev pub form_name : MediaForm → String
form_name movie = "movie"
form_name series = "series"

abbrev pub style_name : MediaStyle → String
style_name anime = "anime"
style_name cartoon = "cartoon"
style_name dorama = "dorama"

pub record SearchResult : Type 0 where
  pub id : String
  pub provider : String
  pub form : MediaForm
  pub title : String
  pub year : Option ℕ
  pub poster : Option String
  pub url : String
  pub styles : List MediaStyle
  pub genres : List String
  pub imdb_id : Option String

-- `Section`: `styles` is None (anything), the empty set (ordinary only) or a set to intersect.
pub record Section : Type 0 where
  pub id : String
  pub title : String
  pub form : Option MediaForm
  pub styles : Option (List MediaStyle)

-- A title's alias with its form, as a key
pub record AliasKey : Type 0 where
  pub alias : String
  pub form : MediaForm

abbrev pub alias_key_eqb : AliasKey → AliasKey → Bool
alias_key_eqb a b = if a.alias == b.alias then form_eqb a.form b.form else false

pub alias_key_eqb_iff : (a b : AliasKey) → (alias_key_eqb a b ≡ true) ↔ (a ≡ b)
alias_key_eqb_iff a b = ground (arith, ==_iff a.alias b.alias, form_eqb_iff a.form b.form)

instance abbrev pub alias_key_eq : Eq AliasKey
alias_key_eq = record { test_iff = alias_key_eqb_iff; test = alias_key_eqb }

-- One card of a home row
pub record HomeItem : Type 0 where
  pub group_key : String
  pub title : String
  pub year : Option ℕ
  pub poster : Option String
  pub form : MediaForm
  pub styles : List MediaStyle
  pub genres : List String
  pub providers : List String
  pub member_keys : List String

pub record HomeRow : Type 0 where
  pub title : String
  pub kind : String
  pub items : List HomeItem

pub record HomeResponse : Type 0 where
  pub rows : List HomeRow

-- One merged card of a search
pub record SearchGroup : Type 0 where
  pub group_key : String
  pub title : String
  pub year : Option ℕ
  pub poster : Option String
  pub form : MediaForm
  pub styles : List MediaStyle
  pub genres : List String
  pub sources : List SearchResult
  pub member_keys : List String
