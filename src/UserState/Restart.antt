-- ===== src/UserState/Restart.antt =====
-- backend/cs_uk_api/user_state.py: `UserStateStore` with its file. Each call that changes the state
-- writes the whole of it with `VersionedFileStore.save` before it returns, and the constructor reads it
-- with `load`. `json.dumps`, `json.loads` and the encoding to UTF-8 are the section's parameters.
use ps4_uk_stream.Prelude.Dict.{remove-DistinctKeys, Dict, put-DistinctKeys, DistinctKeys}
use ps4_uk_stream.Prelude.{
  is_some, ◌∙◌, ap, string_eq, inr, inl, Bool-cases, ℕ, suc, zero, String, ◌≡◌, refl, Bool, true,
  Option, none, some, List, [], ◌∷◌, length, ltb,
}
use ps4_uk_stream.Prelude.Dict
use ps4_uk_stream.Storage.Documents.{Json}
use ps4_uk_stream.Storage.{
  FileContent, Parsed, Outcome, Directory, Faults, load, save, envelope, newest, final,
}
use ps4_uk_stream.Storage.Ladder.{load-envelope, blob_of-eq, save-target, all_ok}
use ps4_uk_stream.UserState.{
  max_dub_memory, trim, drop_oldest, UserState, set_favorite, set_played, remember_dub,
}
use ps4_uk_stream.UserState.Saved.{
  decode_user_state-encode_user_state, encode_user_state, decode_user_state, Alike,
}

-- `USER_STATE_VERSION`
abbrev pub user_state_version : ℕ
user_state_version = 1

-- The calls that write. `flush` writes the state as it is.
pub data Change : Type 0 where
  favorite : String → Bool → Change
  played : String → Bool → Change
  dub : String → String → Change
  flush : Change

-- The state after the call
unfoldable pub change : Change → UserState → UserState
change (Change.favorite item_id mark) s = set_favorite item_id mark s
change (Change.played item_id mark) s = set_played item_id mark s
change (Change.dub series_group_key translation_label) s =
    remember_dub series_group_key translation_label s
change Change.flush s = s

-- `UserStateStore`: with no path there is no directory.
pub record Store : Type 0 where
  pub state : UserState
  pub directory : Option Directory

abbrev pub no_marks : UserState
no_marks = record { favorites = []; played = []; dub_memory = [] }

-- The state that the constructor keeps of what `load` answers; an exception of `load` leaves it.
unfoldable pub restored : Outcome (Option UserState) → Outcome UserState
restored (Outcome.returned (some s)) = Outcome.returned s
restored (Outcome.returned none) = Outcome.returned no_marks
restored Outcome.raised = Outcome.raised

-- The dub memory is a dict, and stays one.
drop_oldest-DistinctKeys :
    (rounds : ℕ) (d : Dict String String) → DistinctKeys d → DistinctKeys (drop_oldest rounds d)
unfolding drop_oldest
drop_oldest-DistinctKeys zero d h = h
drop_oldest-DistinctKeys (suc rounds) [] h = h
drop_oldest-DistinctKeys (suc rounds) ((k, v) ∷ d) h =
    elim (Bool-cases (ltb max_dub_memory (length ((k, v) ∷ d)))) [
      | inl over ↦ rw over (
          drop_oldest-DistinctKeys rounds (Dict.remove k ((k, v) ∷ d))
            (remove-DistinctKeys k ((k, v) ∷ d) h))
      | inr within ↦ rw within h
    ]

change-DistinctKeys :
    (c : Change) (s : UserState) → DistinctKeys s.dub_memory → DistinctKeys (change c s).dub_memory
unfolding change set_favorite set_played trim remember_dub
change-DistinctKeys (Change.favorite item_id mark) s h = h
change-DistinctKeys (Change.played item_id mark) s h = h
change-DistinctKeys (Change.dub series label) s h = drop_oldest-DistinctKeys _ _ (
    put-DistinctKeys series label (Dict.remove series s.dub_memory)
      (remove-DistinctKeys series s.dub_memory h))
change-DistinctKeys Change.flush s h = h

-- The document that `save` makes of a state
abbrev pub document : UserState → Json
document s = envelope user_state_version (encode_user_state s)

module _ (dumps : Json → Option String) (loads : String → Parsed) (utf8_ok : String → Bool) where
  -- `_write_now`
  unfoldable pub write_now : Faults → String → UserState → Option Directory → Option Directory
  unfolding save
  write_now faults partial s none = none
  write_now faults partial s (some d) = some (
      final d (
        save (user_state_version ∷ []) (λ p. some (encode_user_state p)) dumps utf8_ok faults
          partial s d))

  -- A call: the state changes, then it is written.
  unfoldable pub call : Faults → String → Change → Store → Store
  unfolding change write_now
  call faults partial c store =
      let s = change c store.state in
      record { state = s; directory = write_now faults partial s store.directory }

  -- `__init__`: the state of a store that is made with the path.
  unfoldable pub init : FileContent → Outcome UserState
  unfolding load restored
  init content = restored (load (user_state_version ∷ []) decode_user_state loads content)

  -- A store made again on this directory has marks like those of `s`.
  abbrev pub RestartsAs : Option Directory → UserState → Type 0
  RestartsAs none s = ⊥
  RestartsAs (some d) s = (t : UserState) × (init d.target ≡ Outcome.returned t) × Alike t s

  -- The calls one after another, each with what fails in its write
  unfoldable pub run : List (Faults × (String × Change)) → Store → Store
  unfolding call
  run [] store = store
  run (c ∷ cs) store = run cs (call c.0 c.1.0 c.1.1 store)

  run-DistinctKeys :
      (cs : List (Faults × (String × Change))) (store : Store)
      → DistinctKeys store.state.dub_memory
      → DistinctKeys (run cs store).state.dub_memory
  unfolding run call
  run-DistinctKeys [] store h = h
  run-DistinctKeys (c ∷ cs) store h =
      run-DistinctKeys cs (call c.0 c.1.0 c.1.1 store) (change-DistinctKeys c.1.1 store.state h)

  write_now-directory :
      (faults : Faults) (partial : String) (s : UserState) (d : Option Directory)
      → is_some d ≡ true
      → is_some (write_now faults partial s d) ≡ true
  unfolding write_now
  write_now-directory faults partial s none h = h
  write_now-directory faults partial s (some d) h = refl

  run-directory :
      (cs : List (Faults × (String × Change))) (store : Store)
      → is_some store.directory ≡ true
      → is_some (run cs store).directory ≡ true
  unfolding run call
  run-directory [] store h = h
  run-directory (c ∷ cs) store h =
      run-directory cs (call c.0 c.1.0 c.1.1 store)
        (write_now-directory c.0 c.1.0 (change c.1.1 store.state) store.directory h)

  call-RestartsAs :
      (partial blob : String) (c : Change) (s : UserState) (d : Directory)
      → DistinctKeys (change c s).dub_memory
      → dumps (document (change c s)) ≡ some blob
      → utf8_ok blob ≡ true
      → loads blob ≡ Parsed.document (document (change c s))
      → RestartsAs
          (call all_ok partial c record { state = s; directory = some d }).directory
          (change c s)
  unfolding call write_now init restored
  call-RestartsAs partial blob c s d h w u p =
      let encode : UserState → Option Json = λ q. some (encode_user_state q) in
      let back = decode_user_state-encode_user_state (change c s) h in
      let written =
        save-target (user_state_version ∷ []) encode dumps utf8_ok partial blob (change c s) d
          (blob_of-eq (user_state_version ∷ []) encode dumps utf8_ok blob user_state_version
            (encode_user_state (change c s)) (change c s) (unfold newest in refl) refl w)
          u in
      let loaded =
        load-envelope (user_state_version ∷ []) decode_user_state loads blob user_state_version
          (encode_user_state (change c s)) (unfold newest in refl) p in
      (
        back.0,
        (ap (λ e. restored (load (user_state_version ∷ []) decode_user_state loads e.target))
              written
            ∙ ap restored loaded
            ∙ ap (λ o. restored (Outcome.returned o)) back.1),
        back.2,
      )

  any_call-RestartsAs :
      (partial blob : String) (c : Change) (s : UserState) (d : Option Directory)
      → is_some d ≡ true
      → DistinctKeys (change c s).dub_memory
      → dumps (document (change c s)) ≡ some blob
      → utf8_ok blob ≡ true
      → loads blob ≡ Parsed.document (document (change c s))
      → RestartsAs
          (call all_ok partial c record { state = s; directory = d }).directory
          (change c s)
  any_call-RestartsAs partial blob c s none i h w u p = cc
  any_call-RestartsAs partial blob c s (some d) i h w u p =
      call-RestartsAs partial blob c s d h w u p

  -- On a store with a path whose dub memory has each series once: after any calls that write, whatever
  -- failed in their writes, one more such call in which nothing fails leaves a file from which a new
  -- store starts with the same favourites, played marks and dubs, if `json.dumps` has a text for the
  -- document that is written, UTF-8 can hold it, and `json.loads` reads the document back from it.
  pub run-RestartsAs :
      (cs : List (Faults × (String × Change))) (partial blob : String) (c : Change) (store : Store)
      → is_some store.directory ≡ true
      → DistinctKeys store.state.dub_memory
      → dumps (document (change c (run cs store).state)) ≡ some blob
      → utf8_ok blob ≡ true
      → loads blob ≡ Parsed.document (document (change c (run cs store).state))
      → let after = call all_ok partial c (run cs store) in RestartsAs after.directory after.state
  unfolding call
  run-RestartsAs cs partial blob c store i h w u p =
      let before = run cs store in
      any_call-RestartsAs partial blob c before.state before.directory (run-directory cs store i)
        (change-DistinctKeys c before.state (run-DistinctKeys cs store h)) w u p
