-- ===== src/Tx/Execute/Ownership.antt =====
-- Execute of chain/tx.go, its fee, its action and its reward, seen from a space of another sender.
use spacesvm.Prelude.{ℕ, ◌≡◌, ◌≢◌, Bool, Option, none, Bytes, length, ◌==◌, mul64, ◌/◌}
use spacesvm.Errors.{Error}
use spacesvm.Exec.Keeps.{Keeps, Any, Keeps-return, Keeps-fail, Keeps-pure, Keeps-bind, Keeps-if}
use spacesvm.Platform.{Database, Platform, IsLawful}
use spacesvm.Types.{SpaceInfo, StatelessBlock, Transaction}
use spacesvm.Genesis.{Genesis, lottery_reward_divisor}
use spacesvm.Storage.Spaces.{short_empty}
use spacesvm.Storage.Protected.{Protected}
use spacesvm.Storage.Protected.Accounts.{
  modify_balance-Keeps, apply_reward-Keeps, set_transaction-Keeps,
}
use spacesvm.Tx.{Context}
use spacesvm.Tx.Actions.{reject_if}
use spacesvm.Tx.Actions.Authority.{IsFresh, execute_unsigned-Keeps}
use spacesvm.Tx.Execute.{dummy, lottery, execute}

module _ ⦃db : Database⦄ ⦃p : Platform⦄ (s : Bytes) (i : SpaceInfo)
    (vals : Bytes → Option Bytes) where
  check-Keeps : (b : Bool) (e : Error) → Keeps (Protected s i vals) Any (reject_if b e)
  check-Keeps b e = Keeps-if b (λ _. Keeps-fail e) (λ _. Keeps-return tt tt)

  lottery-Keeps :
      (g : Genesis) (blk : StatelessBlock) (tx : Transaction) (fee : ℕ)
      → Keeps (Protected s i vals) Any (lottery g blk tx fee)
  unfolding lottery
  lottery-Keeps g blk tx fee =
      let amount =
        mul64 (mul64 fee blk.price) g.lottery_reward_multipler / lottery_reward_divisor in
      Keeps-if (dummy blk.block) (λ _. Keeps-return none tt)
        λ _.
          Keeps-if (amount == 0) (λ _. Keeps-return none tt)
            λ _.
              Keeps-bind (apply_reward-Keeps s i vals blk.id tx.id tx.sender amount)
                λ _ _. Keeps-return _ tt

  -- Another sender's transaction, whose claim makes a new raw space.
  abbrev pub IsForeign : ℕ → Transaction → Type 0
  IsForeign time tx = (i.owner ≢ tx.sender) × IsFresh i.raw_space time tx.unsigned

  pub execute-Keeps :
      IsLawful p
      → length i.raw_space ≡ 20
      → i.raw_space ≢ short_empty
      → (g : Genesis) (blk : StatelessBlock) (context : Context) (tx : Transaction)
      → IsForeign blk.tmstmp tx
      → Keeps (Protected s i vals) Any (execute g blk context tx)
  unfolding execute
  execute-Keeps laws l n g blk context tx f = Keeps-bind (Keeps-pure _) λ _ _.
      Keeps-bind (check-Keeps _ _) λ _ _. Keeps-bind (check-Keeps _ _) λ _ _.
        Keeps-bind (Keeps-pure _) λ fee _. Keeps-bind (modify_balance-Keeps s i vals _ _ _) λ _ _.
          Keeps-bind (check-Keeps _ _) λ _ _.
            Keeps-bind (execute_unsigned-Keeps laws s i vals _ l n f.0 tx.unsigned f.1) λ _ _.
              Keeps-bind (set_transaction-Keeps s i vals tx.id) λ _ _. lottery-Keeps g blk tx fee
