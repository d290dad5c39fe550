-- ===== src/Recommend.antt =====
-- backend/cs_uk_api/recommend.py: the pool of candidates that the recommendation rows rank. The title's
-- `strip().lower()` and the profile are arguments; the scores, which are floats, are left out.
pub mod Pool
use ps4_uk_stream.Prelude.{
  ℕ, String, ◌≡◌, refl, ◌↔◌, Bool, true, false, Option, none, some, List, [], ◌∷◌, ◌++◌, arith,
  if◌then◌else◌, Eq, ◌==◌, nat_eq, string_eq, ==_iff,
}
use ps4_uk_stream.Models.{HomeItem}
use ps4_uk_stream.Prelude.Membership.{contains}

-- `(item.title.strip().lower(), item.year)`
pub record TitleKey : Type 0 where
  pub title : String
  pub year : Option ℕ

abbrev pub year_eqb : Option ℕ → Option ℕ → Bool
year_eqb none none = true
year_eqb (some a) (some b) = a == b
year_eqb none (some b) = false
year_eqb (some a) none = false

pub year_eqb_iff : (a b : Option ℕ) → (year_eqb a b ≡ true) ↔ (a ≡ b)
year_eqb_iff none none = (λ e. refl, λ e. refl)
year_eqb_iff (some a) (some b) = ground (arith, ==_iff a b)
year_eqb_iff none (some b) = (λ e. cc, λ e. cc)
year_eqb_iff (some a) none = (λ e. cc, λ e. cc)

abbrev pub title_key_eqb : TitleKey → TitleKey → Bool
title_key_eqb a b = if a.title == b.title then year_eqb a.year b.year else false

pub title_key_eqb_iff : (a b : TitleKey) → (title_key_eqb a b ≡ true) ↔ (a ≡ b)
title_key_eqb_iff a b = ground (arith, ==_iff a.title b.title, year_eqb_iff a.year b.year)

instance abbrev pub title_key_eq : Eq TitleKey
title_key_eq = record { test_iff = title_key_eqb_iff; test = title_key_eqb }

module _ {Profile : Type 0} (normalize : String → String) (profile_of : String → Option Profile)
    (watched : String → Bool) where
  abbrev pub title_key : HomeItem → TitleKey
  title_key item = record { title = normalize item.title; year = item.year }

  -- `item.group_key in profiles and item.group_key not in watched`
  abbrev pub candidate : HomeItem → Option Profile → List (HomeItem × Profile)
  candidate item none = []
  candidate item (some profile) = if watched item.group_key then [] else (item, profile) ∷ []

  -- The loop over the items of the home rows
  unfoldable pub pool_from : List String → List TitleKey → List HomeItem → List (HomeItem × Profile)
  pool_from seen_keys seen_titles [] = []
  pool_from seen_keys seen_titles (item ∷ items) =
      let again = pool_from seen_keys seen_titles items in
      let same_title = pool_from (item.group_key ∷ seen_keys) seen_titles items in
      let new_title = pool_from (item.group_key ∷ seen_keys) (title_key item ∷ seen_titles) items in
      if contains item.group_key seen_keys
      then again
      else if contains (title_key item) seen_titles
      then same_title
      else candidate item (profile_of item.group_key) ++ new_title

  unfoldable pub pool : List HomeItem → List (HomeItem × Profile)
  unfolding pool_from
  pool items = pool_from [] [] items
