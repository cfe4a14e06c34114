-- ===== src/VirtualMachine/Life.antt =====
-- Verify and Reject of chain/block.go with the callbacks Verified and Rejected of vm/chain_vm.go.
use spacesvm.Prelude.{ℕ, Option, none, some, List, [], ◌∷◌}
use spacesvm.Errors
use spacesvm.Errors.{Result, ok, err, panic, out_of_fuel}
use spacesvm.Exec.{Exec, return, lift, gets, modify, ◌>>=◌, ◌>>◌}
use spacesvm.Platform.{Database, Platform}
use spacesvm.Types.{Transaction, StatelessBlock, Activity, rejected}
use spacesvm.Block.{verify}
use spacesvm.Block.Accepted.{BlockCodec, set_last_accepted}
use spacesvm.Mempool
use spacesvm.Mempool.{Mempool}
use spacesvm.Mempool.Heap.{with}
use spacesvm.Mempool.Package.{HeapPackage}
use spacesvm.VirtualMachine.{Live, State, mark, seen}

module _ ⦃db : Database⦄ ⦃p : Platform⦄ (codec : BlockCodec) where
  -- SetLastAccepted on the database of the block
  unfoldable pub store_block : StatelessBlock → db.Db → List (Option Activity) → Result (Live db.Db)
  store_block b d winners =
      let done = set_last_accepted codec b d in
      Errors.◌>>=◌ done.0 λ stored. ok (record {
        node = record { stateless = stored; on_accept_db = some done.1 };
        winners = winners;
      })

module _ ⦃pkg : HeapPackage⦄ where
  unfoldable pub remove_txs : List Transaction → Mempool → Result Mempool
  remove_txs [] m = ok m
  remove_txs (tx ∷ txs) m = Errors.◌>>=◌ (Mempool.remove m tx.id) λ r. remove_txs txs r.1

  unfoldable pub add_txs : List Transaction → Mempool → Result Mempool
  add_txs [] m = ok m
  add_txs (tx ∷ txs) m = Errors.◌>>=◌ (Mempool.add m tx) λ r. add_txs txs r.1

  module _ ⦃db : Database⦄ where
    -- a call on the mempool of the VM
    unfoldable pub on_mempool : (Mempool → Result Mempool) → Exec (State db.Db) (Unit {0})
    on_mempool f = do
      r ← gets (λ s. f s.mempool)
      m ← lift r
      modify (λ s. record s { mempool = m })

    unfoldable pub verified : Live db.Db → Exec (State db.Db) (Unit {0})
    verified b = do
      modify (λ s. record s { verified_blocks = with s.verified_blocks b.id (some b) })
      on_mempool (remove_txs b.txs)

    unfoldable pub rejected_block : Live db.Db → Exec (State db.Db) (Unit {0})
    rejected_block b = do
      modify (λ s. record s { verified_blocks = with s.verified_blocks b.id none })
      on_mempool (add_txs b.txs)

    unfoldable pub reject : Live db.Db → Exec (State db.Db) (Live db.Db)
    unfolding mark
    reject b = do rejected_block (mark rejected b); return (mark rejected b)

    module _ ⦃p : Platform⦄ (codec : BlockCodec) where
      -- Verify at the time `now`
      unfoldable pub verify_block : ℕ → StatelessBlock → Exec (State db.Db) (Live db.Db)
      unfolding store_block
      verify_block now b = do
        r ← gets (λ s. verify (seen codec s) now b)
        (_, d, winners) ← lift r
        live ← lift (store_block codec b d winners)
        verified live
        return live
