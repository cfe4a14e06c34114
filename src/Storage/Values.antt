-- ===== src/Storage/Values.antt =====
-- The value entries of chain/storage.go: the keys of a space, and the values behind them.
use spacesvm.Prelude.{
  suc, Bool, true, false, Option, none, some, List, [], ◌∷◌, Bytes, drop, if◌then◌else◌,
}
use spacesvm.Errors.{Result, ok, err, panic, not_found, bad_id, bad_encoding, space_missing}
use spacesvm.Errors
use spacesvm.Exec.{Exec, return, fail, lift, gets, ◌>>=◌}
use spacesvm.Platform.{Database, Platform}
use spacesvm.Types.{SpaceInfo, ValueMeta}
use spacesvm.Keys.{short_id_len, space_value_key, prefix_tx_value_key, prefix_tx_key}
use spacesvm.Storage.{load, store, erase, require}
use spacesvm.Storage.Spaces.{contains, get_space_info}

module _ ⦃db : Database⦄ ⦃p : Platform⦄ where
  -- an entry that is not there, or one that is read back
  unfoldable pub decode_meta : Option Bytes → Result (Option ValueMeta)
  decode_meta none = ok none
  decode_meta (some v) = elim (p.unmarshal_meta v) [
    | none ↦ err bad_encoding
    | some m ↦ ok (some m)
  ]

  -- the part of GetValueMeta after the read of the info
  unfoldable pub meta_in : Bytes → Option SpaceInfo → Exec db.Db (Option ValueMeta)
  unfolding decode_meta
  meta_in key none = return none
  meta_in key (some i) = do v ← load (space_value_key i.raw_space key); lift (decode_meta v)

  unfoldable pub get_value_meta : Bytes → Bytes → Exec db.Db (Option ValueMeta)
  get_value_meta space key = do info ← get_space_info space; meta_in key info

  -- GetLinkedValue after the look into the cache
  read_linked : Bytes → Option Bytes → Exec db.Db (Bytes × Option (Bytes × Bytes))
  read_linked b (some v) = return (v, none)
  read_linked b none = do
    tx_id ← lift (require bad_id (p.to_id b))
    found ← load (prefix_tx_value_key tx_id)
    v ← lift (require not_found found)
    return (v, some (b, v))

  -- The value that a transaction wrote, with what is put into the cache of linked values; `cache`
  -- is that cache's Get.
  unfoldable pub get_linked_value :
      (Bytes → Option Bytes) → Bytes → Exec db.Db (Bytes × Option (Bytes × Bytes))
  unfolding read_linked
  get_linked_value cache b = read_linked b (cache b)

  -- the part of GetValue after the read of the entry
  linked :
      (Bytes → Option Bytes)
      → Option ValueMeta
      → Exec db.Db (Option (Bytes × Option (Bytes × Bytes)))
  linked cache none = return none
  linked cache (some m) = do v ← get_linked_value cache m.tx_id; return (some v)

  unfoldable pub get_value :
      (Bytes → Option Bytes) → Bytes → Bytes → Exec db.Db (Option (Bytes × Option (Bytes × Bytes)))
  unfolding linked
  get_value cache space key = do m ← get_value_meta space key; linked cache m

  -- the parts of HasSpaceKey, PutSpaceKey and DeleteSpaceKey after the read of the info
  has_in : Bytes → Option SpaceInfo → Exec db.Db Bool
  has_in key none = return false
  has_in key (some i) = do
    v ← load (space_value_key i.raw_space key)
    return (elim v [ none ↦ false | some _ ↦ true ])

  unfoldable pub put_in : Bytes → ValueMeta → Option SpaceInfo → Exec db.Db Unit
  put_in key vmeta none = fail space_missing
  put_in key vmeta (some i) = store (space_value_key i.raw_space key) (p.marshal_meta vmeta)

  unfoldable pub delete_in : Bytes → Option SpaceInfo → Exec db.Db Unit
  delete_in key none = fail space_missing
  delete_in key (some i) = erase (space_value_key i.raw_space key)

  unfoldable pub has_space_key : Bytes → Bytes → Exec db.Db Bool
  unfolding has_in
  has_space_key space key = do info ← get_space_info space; has_in key info

  unfoldable pub put_space_key : Bytes → Bytes → ValueMeta → Exec db.Db Unit
  put_space_key space key vmeta = do info ← get_space_info space; put_in key vmeta info

  unfoldable pub delete_space_key : Bytes → Bytes → Exec db.Db Unit
  delete_space_key space key = do info ← get_space_info space; delete_in key info

  -- the loop of GetAllValueMetas; its test `bytes.Compare(…) < -1` never holds
  metas_loop : Bytes → List (Bytes × Bytes) → Result (List (Bytes × ValueMeta))
  metas_loop base_key [] = ok []
  metas_loop base_key ((cur_key, v) ∷ rest) =
      let more = metas_loop base_key rest in
      if contains cur_key base_key
      then elim (p.unmarshal_meta v) [
        | none ↦ err bad_encoding
        | some m ↦
            Errors.◌>>=◌ more (λ kvs. ok ((drop (suc (suc (suc short_id_len))) cur_key, m) ∷ kvs))
      ]
      else ok []

  unfoldable pub get_all_value_metas : Bytes → Exec db.Db (List (Bytes × ValueMeta))
  unfolding metas_loop
  get_all_value_metas rspace = do
    let base_key = space_value_key rspace []
    entries ← gets (λ d. db.iterate d base_key)
    lift (metas_loop base_key entries)

module _ ⦃db : Database⦄ where
  unfoldable pub set_transaction : Bytes → Exec db.Db Unit
  set_transaction tx_id = store (prefix_tx_key tx_id) []

  unfoldable pub has_transaction : Bytes → Exec db.Db Bool
  has_transaction tx_id = do
    v ← load (prefix_tx_key tx_id)
    return (elim v [ none ↦ false | some _ ↦ true ])
