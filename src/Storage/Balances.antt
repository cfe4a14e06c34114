-- ===== src/Storage/Balances.antt =====
-- The balances of chain/storage.go, and the lottery reward that is paid into one of them.
pub mod Accounts
use spacesvm.Prelude.{
  ℕ, Bool, true, false, Option, none, some, List, [], ◌∷◌, ◌++◌, Bytes, bytes_eq, if◌then◌else◌,
}
use spacesvm.Errors.{Result, ok, err, bad_encoding, invalid_balance}
use spacesvm.Exec.{Exec, return, fail, lift, gets, ◌>>=◌, ◌>>◌}
use spacesvm.Platform.{Database, Platform}
use spacesvm.Types.{SpaceInfo}
use spacesvm.Keys.{put_uint64, prefix_balance_key, space_info_key}
use spacesvm.Storage.{load, store, require, read_uint64}
use spacesvm.Storage.Spaces.{contains}

-- a missing entry is a balance of 0
unfoldable pub decode_balance : Option Bytes → Result ℕ
decode_balance none = ok 0
decode_balance (some v) = read_uint64 v

module _ ⦃db : Database⦄ where
  unfoldable pub get_balance : Bytes → Exec db.Db ℕ
  unfolding decode_balance
  get_balance address = do v ← load (prefix_balance_key address); lift (decode_balance v)

  unfoldable pub set_balance : Bytes → ℕ → Exec db.Db Unit
  set_balance address bal = store (prefix_balance_key address) (put_uint64 bal)

  module _ ⦃p : Platform⦄ where
    -- the new balance is written unless it wrapped
    unfoldable pub write_balance : Bytes → ℕ × Bool → Exec db.Db ℕ
    write_balance address (n, xflow) =
        if xflow then fail invalid_balance else (do set_balance address n; return n)

    unfoldable pub modify_balance : Bytes → Bool → ℕ → Exec db.Db ℕ
    unfolding write_balance
    modify_balance address add change = do
      b ← get_balance address
      write_balance address (if add then p.safe_add b change else p.safe_sub b change)

    -- The sender does not get their funds back; `none` is "no reward".
    unfoldable pub pay_owner : Bytes → ℕ → SpaceInfo → Exec db.Db (Option Bytes)
    pay_owner sender reward i =
        if bytes_eq i.owner sender
        then return none
        else (do _ ← modify_balance i.owner true reward; return (some i.owner))

    -- The body of the loop of ApplyReward, which every way through leaves. Its test
    -- `bytes.Compare(…) < -1` never holds.
    unfoldable pub reward_first : Bytes → ℕ → List (Bytes × Bytes) → Exec db.Db (Option Bytes)
    unfolding pay_owner
    reward_first sender reward [] = return none
    reward_first sender reward ((cur_key, v) ∷ _) =
        if contains cur_key (space_info_key [])
        then (do i ← lift (require bad_encoding (p.unmarshal_info v)); pay_owner sender reward i)
        else return none

    unfoldable pub apply_reward : Bytes → Bytes → Bytes → ℕ → Exec db.Db (Option Bytes)
    unfolding reward_first
    apply_reward blk_id tx_id sender reward = do
      entries ← gets (λ d. db.iterate d (space_info_key (p.keccak256 (blk_id ++ tx_id))))
      reward_first sender reward entries
