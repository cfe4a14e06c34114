-- ===== src/Storage/Spaces.antt =====
-- The space entries of chain/storage.go: the info of each space, its place in the expiry queue, and
-- the list of spaces by owner.
use spacesvm.Prelude.{
  ℕ, suc, Bool, true, false, Option, none, some, List, [], ◌∷◌, ◌++◌, Bytes, bytes_eq, has_prefix,
  drop, ltb, if◌then◌else◌,
}
use spacesvm.Errors.{Result, ok, err, bad_encoding}
use spacesvm.Exec.{Exec, return, lift, gets, ◌>>=◌, ◌>>◌}
use spacesvm.Platform.{Database, Platform}
use spacesvm.Types.{SpaceInfo}
use spacesvm.Keys.{address_length, raw_space, space_info_key, prefix_expiry_key, prefix_owned_key}
use spacesvm.Storage.{load, store, erase}

-- ids.ShortEmpty
abbrev pub short_empty : Bytes
short_empty = 0 ∷ 0 ∷ 0 ∷ 0 ∷ 0 ∷ 0 ∷ 0 ∷ 0 ∷ 0 ∷ 0 ∷ 0 ∷ 0 ∷ 0 ∷ 0 ∷ 0 ∷ 0 ∷ 0 ∷ 0 ∷ 0 ∷ 0 ∷ []

-- bytes.Contains(b, part)
unfoldable pub contains : Bytes → Bytes → Bool
contains [] part = has_prefix part []
contains (c ∷ b) part =
    let later = contains b part in if has_prefix part (c ∷ b) then true else later

unfoldable pub expiry_data_value : Bytes → Bytes → Bytes
expiry_data_value address space = address ++ space

module _ ⦃db : Database⦄ ⦃p : Platform⦄ where
  -- an entry that is not there, or one that is read back
  unfoldable pub decode_info : Option Bytes → Result (Option SpaceInfo)
  decode_info none = ok none
  decode_info (some v) = elim (p.unmarshal_info v) [
    | none ↦ err bad_encoding
    | some i ↦ ok (some i)
  ]

  unfoldable pub get_space_info : Bytes → Exec db.Db (Option SpaceInfo)
  unfolding decode_info
  get_space_info space = do v ← load (space_info_key space); lift (decode_info v)

  unfoldable pub has_space : Bytes → Exec db.Db Bool
  has_space space = do
    v ← load (space_info_key space)
    return (elim v [ none ↦ false | some _ ↦ true ])

  -- A new space, whose raw space is empty, gets one, and is listed under its owner.
  unfoldable pub with_raw_space : Bytes → SpaceInfo → Exec db.Db SpaceInfo
  with_raw_space space i =
      if bytes_eq i.raw_space short_empty
      then (do
        rspace ← lift (raw_space space i.created)
        store (prefix_owned_key i.owner space) []
        return (record i { raw_space = rspace }))
      else return i

  -- An entry of the expiry queue at `last_expiry` is taken out.
  unfoldable pub unqueue : ℕ → SpaceInfo → Exec db.Db Unit
  unqueue last_expiry i =
      if ltb 0 last_expiry then erase (prefix_expiry_key last_expiry i.raw_space) else return tt

  unfoldable pub put_space_info : Bytes → SpaceInfo → ℕ → Exec db.Db Unit
  unfolding with_raw_space unqueue
  put_space_info space info last_expiry = do
    i ← with_raw_space space info
    unqueue last_expiry i
    store (prefix_expiry_key i.expiry i.raw_space) (expiry_data_value i.owner space)
    store (space_info_key space) (p.marshal_info i)

  unfoldable pub move_space_info : Bytes → Bytes → SpaceInfo → Exec db.Db Unit
  move_space_info old_owner space i = do
    store (space_info_key space) (p.marshal_info i)
    erase (prefix_owned_key old_owner space)
    store (prefix_owned_key i.owner space) []
    store (prefix_expiry_key i.expiry i.raw_space) (expiry_data_value i.owner space)

module _ ⦃db : Database⦄ where
  -- the loop of GetAllOwned; its test `bytes.Compare(…) < -1` never holds
  owned_loop : Bytes → List (Bytes × Bytes) → List Bytes
  owned_loop base_key [] = []
  owned_loop base_key ((cur_key, v) ∷ rest) =
      let more = owned_loop base_key rest in
      if contains cur_key base_key then drop (suc (suc (suc address_length))) cur_key ∷ more else []

  unfoldable pub get_all_owned : Bytes → Exec db.Db (List Bytes)
  unfolding owned_loop
  get_all_owned owner =
      let base_key = prefix_owned_key owner [] in
      gets (λ d. owned_loop base_key (db.iterate d base_key))
