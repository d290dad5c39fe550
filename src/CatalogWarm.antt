-- ===== src/CatalogWarm.antt =====
-- backend/cs_uk_api/catalog_warm.py: which cards the startup warm resolves, and what it reports. The home
-- snapshot is read for the group keys of its rows' items; the catalog's resolver is a parameter, called
-- once for each key.
pub mod Coverage
use ps4_uk_stream.Prelude.{
  ℕ, ◌+◌, String, Bool, true, false, Option, none, some, List, [], ◌∷◌, ◌++◌, if◌then◌else◌, nat_eq,
  string_eq, length, take,
}
use ps4_uk_stream.Prelude.Membership.{contains}

-- A home row, by the `group_key` of its items
pub record HomeRow : Type 0 where
  pub group_keys : List String

-- What `resolve(gk)` does: content, None, or an exception.
pub data Resolved : Type 0 where
  content unavailable raised : Resolved

pub data WarmStatus : Type 0 where
  pending warming done failed : WarmStatus

pub record CatalogWarmState : Type 0 where
  pub status : WarmStatus
  pub home_warmed : Bool
  pub content_warmed : ℕ
  pub failed : ℕ
  pub planned : ℕ
  pub cold_keys : List String

-- The inner loop of `first_card_keys`: `keys` so far, which `seen` mirrors.
unfoldable pub add_keys : List String → List String → List String
add_keys [] keys = keys
add_keys (k ∷ ks) keys = add_keys ks (if contains k keys then keys else keys ++ k ∷ [])

unfoldable pub keys_onto : ℕ → List HomeRow → List String → List String
keys_onto per_row [] keys = keys
keys_onto per_row (row ∷ rows) keys =
    keys_onto per_row rows (add_keys (take per_row row.group_keys) keys)

unfoldable pub first_card_keys : ℕ → List HomeRow → List String
unfolding keys_onto add_keys
first_card_keys per_row rows = keys_onto per_row rows []

-- The body of the loop of `warm_catalog`
abbrev pub warm_one : Resolved → String → CatalogWarmState → CatalogWarmState
warm_one Resolved.content gk state = record state { content_warmed = state.content_warmed + 1 }
warm_one Resolved.unavailable gk state = record state { cold_keys = state.cold_keys ++ gk ∷ [] }
warm_one Resolved.raised gk state = record state {
  failed = state.failed + 1;
  cold_keys = state.cold_keys ++ gk ∷ [];
}

unfoldable pub warm_keys : (String → Resolved) → List String → CatalogWarmState → CatalogWarmState
warm_keys resolve [] state = state
warm_keys resolve (gk ∷ gks) state = warm_keys resolve gks (warm_one (resolve gk) gk state)

-- `home` is none where `load_home` raises.
unfoldable pub warm_catalog : ℕ → (String → Resolved) → Option (List HomeRow) → CatalogWarmState
unfolding warm_keys first_card_keys
warm_catalog per_row resolve none = record {
  status = WarmStatus.failed;
  home_warmed = false;
  content_warmed = 0;
  failed = 1;
  planned = 0;
  cold_keys = [];
}
warm_catalog per_row resolve (some rows) = warm_keys resolve (first_card_keys per_row rows) record {
  status = WarmStatus.done;
  home_warmed = true;
  content_warmed = 0;
  failed = 0;
  planned = length (first_card_keys per_row rows);
  cold_keys = [];
}
