-- ===== src/Storage/Protected/Accounts.antt =====
-- The actions of Storage.Balances on a state with a protected space.
use spacesvm.Prelude.{ℕ, Option, none, [], Bytes}
use spacesvm.Exec.Keeps.{Keeps, Any, Keeps-return, Keeps-bind, Keeps-if}
use spacesvm.Platform.{Database, Platform}
use spacesvm.Types.{SpaceInfo}
use spacesvm.Keys.Encoding.{StoreKey, encode}
use mathlib.Core.Bool.{Bool, true}
use mathlib.Core.List.{[], List, ◌∷◌}
use spacesvm.Keys.{put_uint64}
use spacesvm.Prelude.{some, bytes_eq}
use spacesvm.Keys.{space_info_key}
use spacesvm.Storage.Spaces.{contains}
use spacesvm.Errors.{invalid_balance}
use spacesvm.Exec.Keeps.{Keeps-fail, Keeps-gets, Keeps-pure}
use spacesvm.Storage.Values.{set_transaction}
use spacesvm.Storage.Balances.{
  decode_balance, get_balance, set_balance, write_balance, modify_balance, pay_owner, reward_first,
  apply_reward,
}
use spacesvm.Storage.Protected.{Protected}
use spacesvm.Storage.Protected.Actions.{store_aside}

module _ ⦃db : Database⦄ ⦃p : Platform⦄ (s : Bytes) (i : SpaceInfo)
    (vals : Bytes → Option Bytes) where
  write_balance-Keeps :
      (a : Bytes) (nx : ℕ × Bool) → Keeps (Protected s i vals) Any (write_balance a nx)
  unfolding write_balance set_balance encode
  write_balance-Keeps a (n, xflow) =
      Keeps-if xflow (λ _. Keeps-fail invalid_balance)
        λ _.
          Keeps-bind (store_aside s i vals (StoreKey.balance a) (put_uint64 n) tt)
            λ _ _. Keeps-return n tt

  pub modify_balance-Keeps :
      (a : Bytes) (add : Bool) (n : ℕ) → Keeps (Protected s i vals) Any (modify_balance a add n)
  unfolding modify_balance get_balance
  modify_balance-Keeps a add n =
      Keeps-bind {Q = Any}
        (Keeps-bind {Q = Any} (Keeps-gets _ (λ _ _. tt)) λ v _. Keeps-pure (decode_balance v))
        λ b _. write_balance-Keeps a _

  pay_owner-Keeps :
      (sender : Bytes) (n : ℕ) (j : SpaceInfo)
      → Keeps (Protected s i vals) Any (pay_owner sender n j)
  unfolding pay_owner
  pay_owner-Keeps sender n j =
      Keeps-if (bytes_eq j.owner sender) (λ _. Keeps-return none tt)
        λ _. Keeps-bind (modify_balance-Keeps j.owner true n) λ _ _. Keeps-return (some j.owner) tt

  reward_first-Keeps :
      (sender : Bytes) (n : ℕ) (l : List (Bytes × Bytes))
      → Keeps (Protected s i vals) Any (reward_first sender n l)
  unfolding reward_first
  reward_first-Keeps sender n [] = Keeps-return none tt
  reward_first-Keeps sender n ((k, v) ∷ l) =
      Keeps-if (contains k (space_info_key []))
        (λ _. Keeps-bind (Keeps-pure _) λ (j : SpaceInfo) _. pay_owner-Keeps sender n j)
        (λ _. Keeps-return none tt)

  pub apply_reward-Keeps :
      (blk tx sender : Bytes) (n : ℕ)
      → Keeps (Protected s i vals) Any (apply_reward blk tx sender n)
  unfolding apply_reward
  apply_reward-Keeps blk tx sender n =
      Keeps-bind {Q = Any} (Keeps-gets _ (λ _ _. tt)) λ l _. reward_first-Keeps sender n l

  pub set_transaction-Keeps : (id : Bytes) → Keeps (Protected s i vals) Any (set_transaction id)
  unfolding set_transaction encode
  set_transaction-Keeps id = store_aside s i vals (StoreKey.tx id) [] tt
