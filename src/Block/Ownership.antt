-- ===== src/Block/Ownership.antt =====
-- The loop of `verify` in chain/block.go over the transactions, seen from a space of another
-- sender.
use spacesvm.Prelude.{ℕ, ◌≡◌, ◌≢◌, Option, List, [], ◌∷◌, ◌++◌, Bytes, length, add64, sub64, mul64}
use spacesvm.Exec.{after}
use spacesvm.Exec.Keeps.{Keeps, Any, Keeps-return, Keeps-pure, Keeps-bind}
use spacesvm.Platform.{Database, Platform, IsLawful}
use spacesvm.Types.{SpaceInfo, StatelessBlock, Transaction, Activity}
use spacesvm.Genesis.{Genesis}
use spacesvm.Storage.Spaces.{short_empty}
use spacesvm.Storage.Protected.{Protected}
use spacesvm.Tx.{Context, base}
use spacesvm.Tx.Execute.Ownership.{IsForeign, execute-Keeps}
use spacesvm.Block.{execute_txs}

module _ ⦃db : Database⦄ ⦃p : Platform⦄ (s : Bytes) (i : SpaceInfo)
    (vals : Bytes → Option Bytes) where
  abbrev pub AllForeign : ℕ → List Transaction → Type 0
  AllForeign time [] = Unit
  AllForeign time (tx ∷ txs) = IsForeign s i vals time tx × AllForeign time txs

  module _ (laws : IsLawful p) (raw20 : length i.raw_space ≡ 20)
      (nonempty : i.raw_space ≢ short_empty) (g : Genesis) (b : StatelessBlock)
      (context : Context) where
    execute_txs-Keeps :
        (surplus : ℕ) (winners : List (Option Activity)) (txs : List Transaction)
        → AllForeign b.tmstmp txs
        → Keeps (Protected s i vals) Any (execute_txs g b context surplus winners txs)
    unfolding execute_txs
    execute_txs-Keeps surplus winners [] f = Keeps-return _ tt
    execute_txs-Keeps surplus winners (tx ∷ txs) f =
        Keeps-bind (execute-Keeps s i vals laws raw20 nonempty g b context tx f.0) λ w _.
          Keeps-bind (Keeps-pure _) λ fee _.
            execute_txs-Keeps (add64 surplus (mul64 (sub64 (base tx.unsigned).price b.price) fee))
              (winners ++ w ∷ []) txs f.1

    -- A space whose owner sends none of a block's transactions keeps its owner, its raw space, its
    -- units and its times of creation and update, and every value under it, whatever these
    -- transactions do and however they end: only its expiry may change. Its raw space has 20 bytes
    -- and is not the empty one; it is assumed that the other spaces have other raw spaces, and that
    -- a claim in the block makes another one.
    pub execute_txs-Protected :
        (txs : List Transaction)
        → AllForeign b.tmstmp txs
        → (d : db.Db) → Protected s i vals d
        → Protected s i vals (after (execute_txs g b context 0 [] txs) d)
    execute_txs-Protected txs f d h = ((execute_txs-Keeps 0 [] txs f).at d h).0
