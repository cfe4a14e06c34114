-- ===== src/Tx/Actions.antt =====
-- `Execute` of each of the six transactions, with the shared parts of common_tx.go.
pub mod Authority
pub mod Permissions
pub mod Renewals
pub mod Transfers
use spacesvm.Prelude.{
  ℕ, ◌+◌, ◌*◌, ◌/◌, Bool, true, false, ◌&&◌, not, Option, none, some, List, [], ◌∷◌, Bytes,
  bytes_eq, length, map, ltb, leb, ◌==◌, add64, sub64, mul64, if◌then◌else◌,
}
use spacesvm.Errors.{
  Error, Result, ok, err, div64, value_empty, value_too_big, space_expired, key_missing,
  invalid_key, address_mismatch, space_not_expired, space_missing, unauthorized, non_actionable,
}
use spacesvm.Errors
use spacesvm.Exec.{Exec, return, fail, lift, ◌>>=◌, ◌>>◌}
use spacesvm.Platform.{Database, Platform}
use spacesvm.Types.{
  SpaceInfo, ValueMeta, UnsignedTransaction, claim_tx, lifeline_tx, set_tx, delete_tx, move_tx,
  transfer_tx,
}
use spacesvm.Parser.{check_contents}
use spacesvm.Genesis.{Genesis}
use spacesvm.Storage.Spaces.{
  short_empty, get_space_info, has_space, put_space_info, move_space_info,
}
use spacesvm.Storage.Values.{get_value_meta, put_space_key, delete_space_key}
use spacesvm.Storage.Balances.{modify_balance}
use spacesvm.Tx.{TransactionContext}
use spacesvm.Tx.Fees.{value_units}

abbrev pub hex_address_len : ℕ
hex_address_len = 42

abbrev pub hash_len : ℕ
hash_len = 66

abbrev pub zero_address : Bytes
zero_address = short_empty

-- strings.ToLower on ASCII
to_lower : Bytes → Bytes
to_lower s = map (λ c. if leb b'A' c && leb c b'Z' then c + 32 else c) s

unfoldable pub authorized : TransactionContext → Bytes → Bool
authorized t owner = bytes_eq owner t.sender

-- `if failed { return e }`
abbrev pub reject_if : {S : Type 0} → Bool → Error → Exec S (Unit {0})
reject_if failed e = if failed then fail e else return tt

module _ ⦃p : Platform⦄ where
  unfoldable pub value_hash : Bytes → Bytes
  unfolding to_lower
  value_hash v = to_lower (p.hash_hex (p.keccak256 v))

module _ ⦃db : Database⦄ ⦃p : Platform⦄ where
  -- the checks of verifySpace on an entry that is there
  unfoldable pub check_space : TransactionContext → Option SpaceInfo → Result SpaceInfo
  check_space t none = err space_missing
  check_space t (some i) =
      if not (authorized t i.owner)
      then err unauthorized
      else if ltb i.expiry t.block_time
      then err space_expired
      else ok i

  unfoldable pub verify_space : Bytes → TransactionContext → Exec db.Db SpaceInfo
  unfolding check_space authorized
  verify_space s t = do found ← get_space_info s; lift (check_space t found)

  unfoldable pub update_space : Bytes → TransactionContext → ℕ → SpaceInfo → Exec db.Db Unit
  update_space s t time_remaining i = do
    new_time_remaining ← lift (div64 time_remaining i.units)
    put_space_info s
        (record i { updated = t.block_time; expiry = add64 t.block_time new_time_remaining })
        i.expiry

  unfoldable pub execute_claim : TransactionContext → Bytes → Exec db.Db Unit
  unfolding to_lower
  execute_claim t space = do
    lift (check_contents space)
    reject_if
        (length space == hex_address_len
          && not (bytes_eq (to_lower (p.address_hex t.sender)) space))
        address_mismatch
    exists ← has_space space
    reject_if exists space_not_expired
    life ← lift (div64 t.genesis.claim_reward t.genesis.claim_expiry_units)
    put_space_info space
        (record {
          owner = t.sender;
          created = t.block_time;
          updated = t.block_time;
          expiry = add64 t.block_time life;
          units = t.genesis.claim_expiry_units;
          raw_space = short_empty;
        })
        0

  -- `i.Expiry += (g.ClaimReward * l.Units) / i.Units`
  unfoldable pub lengthen : TransactionContext → Bytes → ℕ → Option SpaceInfo → Exec db.Db Unit
  lengthen t space units none = fail space_missing
  lengthen t space units (some i) = do
    more ← lift (div64 (mul64 t.genesis.claim_reward units) i.units)
    put_space_info space (record i { expiry = add64 i.expiry more }) i.expiry

  unfoldable pub execute_lifeline : TransactionContext → Bytes → ℕ → Exec db.Db Unit
  unfolding lengthen
  execute_lifeline t space units = do
    reject_if (units == 0) non_actionable
    lift (check_contents space)
    found ← get_space_info space
    lengthen t space units found

  -- the units that a value of this size adds to its space
  unfoldable pub discounted_units : Genesis → ℕ → Result ℕ
  discounted_units g size = Errors.◌>>=◌ (value_units g size) λ n. div64 n g.value_expiry_discount

  -- the units without those of the value that is there, and the time at which the key was created
  unfoldable pub without_old :
      TransactionContext → SpaceInfo → Option ValueMeta → Exec db.Db (ℕ × ℕ)
  without_old t i none = return (i.units, t.block_time)
  without_old t i (some v) = do
    old ← lift (discounted_units t.genesis v.size)
    return (sub64 i.units old, v.created)

  unfoldable pub execute_set : TransactionContext → Bytes → Bytes → Bytes → Exec db.Db Unit
  unfolding without_old discounted_units
  execute_set t space key value = do
    lift (check_contents space)
    lift (check_contents key)
    reject_if (length value == 0) value_empty
    reject_if (ltb t.genesis.max_value_size (length value)) value_too_big
    i ← verify_space space t
    reject_if (length key == hash_len && not (bytes_eq key (value_hash value))) invalid_key
    v ← get_value_meta space key
    let time_remaining = mul64 (sub64 i.expiry i.updated) i.units
    (kept, created) ← without_old t i v
    more ← lift (discounted_units t.genesis (length value))
    put_space_key space key
        (record { size = length value; tx_id = t.tx_id; created = created; updated = t.block_time })
    update_space space t time_remaining (record i { units = add64 kept more })

  -- the part of DeleteTx's Execute after the read of the key
  unfoldable pub delete_found :
      TransactionContext → Bytes → Bytes → SpaceInfo → Option ValueMeta → Exec db.Db Unit
  delete_found t space key i none = fail key_missing
  delete_found t space key i (some v) = do
    let time_remaining = mul64 (sub64 i.expiry i.updated) i.units
    old ← lift (discounted_units t.genesis v.size)
    delete_space_key space key
    update_space space t time_remaining (record i { units = sub64 i.units old })

  unfoldable pub execute_delete : TransactionContext → Bytes → Bytes → Exec db.Db Unit
  unfolding delete_found discounted_units
  execute_delete t space key = do
    lift (check_contents space)
    lift (check_contents key)
    i ← verify_space space t
    v ← get_value_meta space key
    delete_found t space key i v

  unfoldable pub execute_move : TransactionContext → Bytes → Bytes → Exec db.Db Unit
  execute_move t space to = do
    lift (check_contents space)
    reject_if (bytes_eq to zero_address) non_actionable
    reject_if (bytes_eq to t.sender) non_actionable
    i ← verify_space space t
    move_space_info t.sender space (record i { owner = to })

  unfoldable pub execute_transfer : TransactionContext → Bytes → ℕ → Exec db.Db Unit
  execute_transfer t to units = do
    reject_if (bytes_eq to zero_address) non_actionable
    reject_if (bytes_eq to t.sender) non_actionable
    reject_if (units == 0) non_actionable
    _ ← modify_balance t.sender false units
    _ ← modify_balance to true units
    return tt

  -- the dispatch through the interface
  unfoldable pub execute_unsigned : TransactionContext → UnsignedTransaction → Exec db.Db Unit
  execute_unsigned t (claim_tx _ space) = execute_claim t space
  execute_unsigned t (lifeline_tx _ space units) = execute_lifeline t space units
  execute_unsigned t (set_tx _ space key value) = execute_set t space key value
  execute_unsigned t (delete_tx _ space key) = execute_delete t space key
  execute_unsigned t (move_tx _ space to) = execute_move t space to
  execute_unsigned t (transfer_tx _ to units) = execute_transfer t to units
