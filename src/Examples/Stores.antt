-- ===== src/Examples/Stores.antt =====
-- backend/cs_uk_api/cache.py and user_state.py at concrete inputs.
use Prim.Native.String.{◌++◌}
use ps4_uk_stream.Prelude.{
  ℕ, zero, suc, String, ◌≡◌, refl, true, false, none, some, List, [], ◌∷◌, arith, nat_eq, string_eq,
}
use ps4_uk_stream.Prelude.Texts.{str_le}
use ps4_uk_stream.Prelude.Dict
use ps4_uk_stream.Prelude.Integers.{pos, negsuc}
use ps4_uk_stream.Prelude.Membership.{contains}
use ps4_uk_stream.Cache
use ps4_uk_stream.Cache.Reads.{Call, run, fresh, last_write, get-run}
use ps4_uk_stream.UserState.{UserState, set_favorite, is_favorite, remember_dub}
use ps4_uk_stream.UserState.Marks.{IsValid, set_favorite_lost}
use ps4_uk_stream.UserState.Dubs.{remember_dub-take_last}

abbrev ten_seconds : Cache.TtlCache ℕ
ten_seconds = Cache.new (pos 10)

abbrev cache_calls : List (Call ℕ)
cache_calls = Call.write 1 "a" 4 none ∷ Call.read 5 "a" ∷ Call.write 6 "b" 2 (some (negsuc 0)) ∷ []

get-run_example :
    (Cache.get 9 "a" (run cache_calls (Cache.new (pos 10)))).1
    ≡ fresh 9 (last_write (pos 10) "a" cache_calls none)
get-run_example = get-run 9 (pos 10) "a" cache_calls (omega arith, (omega arith, (omega arith, tt)))

abbrev marked : UserState
marked = record {
  favorites = "x" ∷ "y" ∷ [];
  played = [];
  dub_memory = ("s", "l") ∷ ("t", "m") ∷ [];
}

marked-IsValid : IsValid marked
marked-IsValid = record {
  favorites_ok = record { bounded = omega arith; distinct = unfold contains in (refl, (refl, tt)) };
  played_ok = record { bounded = omega arith; distinct = tt };
}

-- "b", "bb", … : ids that sort after "a"
tower : ℕ → String
tower zero = "b"
tower (suc n) = "b" ++ tower n

towers : ℕ → List String
towers zero = []
towers (suc n) = tower n ∷ towers n

abbrev full : UserState
unfolding towers
full = record { favorites = towers 256; played = []; dub_memory = [] }

set_favorite_lost_example : is_favorite "a" (set_favorite "a" true full) ≡ false
unfolding towers tower contains str_le
set_favorite_lost_example = set_favorite_lost "a" full refl refl refl

remember_dub-take_last_example :
    (remember_dub "s" "k" marked).dub_memory ≡ ("t", "m") ∷ ("s", "k") ∷ []
unfolding Dict.remove
remember_dub-take_last_example =
    remember_dub-take_last "s" "k" marked (unfold Dict.get in (refl, (refl, tt))) (omega arith)
