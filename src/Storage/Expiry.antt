-- ===== src/Storage/Expiry.antt =====
-- ExpireNext and PruneNext of chain/storage.go: spaces whose time is over are taken out of the
-- state, and their values are cleared, now or later.
pub mod Window
use spacesvm.Prelude.{
  ℕ, ◌+◌, ◌-◌, ◌^◌, Bool, true, false, List, [], ◌∷◌, Bytes, Ordering, bytes_compare, length, take,
  drop, ltb, leb, if◌then◌else◌,
}
use spacesvm.Errors.{Result, ok, panic}
use spacesvm.Exec.{Exec, return, lift, gets, ◌>>=◌, ◌>>◌}
use spacesvm.Platform.{Database, Platform}
use spacesvm.Keys.{
  address_length, expiry_prefix, pruning_prefix, range_time_key, prefix_owned_key, space_info_key,
  prefix_pruning_key, space_value_key, extract_specific_time_key,
}
use spacesvm.Storage.{store, erase, erase_prefix}

-- `bytes.Compare(a, b) > 0`
abbrev pub is_after : Bytes → Bytes → Bool
is_after a b = elim (bytes_compare a b) [ Ordering.gt ↦ true | _ ↦ false ]

abbrev pub max_int64 : ℕ
max_int64 = 2 ^ 63 - 1

module _ ⦃db : Database⦄ ⦃p : Platform⦄ where
  -- `v[:AddressLength]` as an address, and the rest
  unfoldable pub split_expiry_value : Bytes → Result (Bytes × Bytes)
  split_expiry_value v =
      if leb address_length (length v)
      then ok (p.bytes_to_address (take address_length v), drop address_length v)
      else panic

  -- the body of the loop of ExpireNext
  unfoldable pub expire_entry : Bool → Bytes → Bytes → Exec db.Db Unit
  unfolding split_expiry_value
  expire_entry bootstrapped cur_key expiry_value = do
    erase cur_key
    (owner, space) ← lift (split_expiry_value expiry_value)
    erase (prefix_owned_key owner space)
    erase (space_info_key space)
    (expired, rspc) ← lift (extract_specific_time_key cur_key)
    if bootstrapped
        then store (prefix_pruning_key expired rspc) []
        else erase_prefix (space_value_key rspc [])

  -- the loop over the cursor's entries; its test `bytes.Compare(…) < -1` never holds
  unfoldable pub expire_loop : Bytes → Bool → List (Bytes × Bytes) → Exec db.Db Unit
  expire_loop end_key bootstrapped [] = return tt
  expire_loop end_key bootstrapped ((cur_key, v) ∷ rest) =
      let more : Exec db.Db Unit = do
        expire_entry bootstrapped cur_key v
        expire_loop end_key bootstrapped rest
      in if is_after cur_key end_key then return tt else more

  unfoldable pub expire_next : ℕ → ℕ → Bool → Exec db.Db Unit
  expire_next parent current bootstrapped = do
    entries ← gets (λ d. db.iterate d (range_time_key expiry_prefix parent))
    expire_loop (range_time_key expiry_prefix current) bootstrapped entries

  -- the body of the loop of PruneNext
  unfoldable pub prune_entry : Bytes → Exec db.Db Unit
  prune_entry cur_key = do
    (_, rspc) ← lift (extract_specific_time_key cur_key)
    erase cur_key
    erase_prefix (space_value_key rspc [])

  unfoldable pub prune_loop : Bytes → ℕ → ℕ → List (Bytes × Bytes) → Exec db.Db ℕ
  prune_loop end_key limit removals [] = return removals
  prune_loop end_key limit removals ((cur_key, v) ∷ rest) =
      let more : Exec db.Db ℕ = do prune_entry cur_key; prune_loop end_key limit (removals + 1) rest
      in if ltb removals limit
        then (if is_after cur_key end_key then return removals else more)
        else return removals

  -- The number of removals is returned; the error returns drop it, as the caller does.
  unfoldable pub prune_next : ℕ → Exec db.Db ℕ
  prune_next limit = do
    entries ← gets (λ d. db.iterate d (range_time_key pruning_prefix 0))
    prune_loop (range_time_key pruning_prefix max_int64) limit 0 entries
