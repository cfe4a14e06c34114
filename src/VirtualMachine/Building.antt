-- ===== src/VirtualMachine/Building.antt =====
-- BuildBlock of chain/builder.go, and the gossip of vm/network.go.
use spacesvm.Prelude.{
  ℕ, zero, suc, Bool, true, false, Option, none, some, List, [], ◌∷◌, ◌++◌, Bytes, ltb, add64, ◌==◌,
  ◌&&◌, if◌then◌else◌,
}
use spacesvm.Errors
use spacesvm.Errors.{Error, Result, ok, err, panic, out_of_fuel}
use spacesvm.Exec.{Exec, return, lift, gets, ◌>>=◌, ◌>>◌}
use spacesvm.Platform.{Database, Platform}
use spacesvm.Types.{Transaction, StatelessBlock, processing}
use spacesvm.Genesis.{Genesis, empty_id}
use spacesvm.Storage.Expiry.{expire_next}
use spacesvm.Tx.{Context}
use spacesvm.Tx.Fees.{load_units}
use spacesvm.Block.{on_accept, verify}
use spacesvm.Block.Accepted.{BlockCodec}
use spacesvm.Mempool
use spacesvm.Mempool.{Mempool}
use spacesvm.Mempool.Heap.{with}
use spacesvm.Mempool.Package.{HeapPackage}
use spacesvm.VirtualMachine.{State, get_stateless_block, seen}
use spacesvm.VirtualMachine.Life.{on_mempool, add_txs}
use spacesvm.VirtualMachine.Submission.{
  Picked, nothing, pick_all, new_block, init_block, submit_txs,
}

module _ ⦃db : Database⦄ ⦃p : Platform⦄ ⦃pkg : HeapPackage⦄ where
  -- the loop, on the mempool of the VM and a copy of the parent's database; the copy is dropped
  unfoldable pub pick_from_mempool : StatelessBlock → Context → db.Db → Exec (State db.Db) Picked
  pick_from_mempool b context vdb s =
      let done =
        pick_all s.genesis b context (Mempool.len s.mempool) nothing
          (record { vdb = vdb; pool = s.mempool }) in
      (done.0, record s { mempool = done.1.pool })

  -- `defer`: what could not be used goes back, however the call ends
  abbrev pub restoring :
      {A : Type 0} → List Transaction → Exec (State db.Db) A → Exec (State db.Db) A
  restoring {A} txs m s = let done = m s in ((on_mempool (add_txs txs)) >>= λ _. lift done.0) done.1

  -- BuildBlock at the time `now`
  unfoldable pub build_block : BlockCodec → ℕ → Exec (State db.Db) StatelessBlock
  unfolding pick_from_mempool
  build_block codec now = do
    s ← gets (λ (s : State db.Db). s)
    parent ← lift (get_stateless_block codec s s.preferred)
    context ← lift ((seen codec s).execution_context now parent.node)
    on_mempool (λ m. Mempool.prune m context.recent_block_ids)
    parent_db ← lift (on_accept (seen codec s) parent.node)
    let expired = expire_next parent.tmstmp now true parent_db
    lift expired.0
    let b = new_block parent.node now context
    picked ←
        pick_from_mempool (record { block = b; id = empty_id; st = processing; bytes = [] }) context
          expired.1
    restoring picked.unusable (do
      blk ← lift (init_block codec (record b { txs = picked.txs }))
      _ ← lift (verify (seen codec s) now blk)
      return blk)

-- the LRU cache of vm/network.go, with what it may have forgotten, and the messages that were sent
pub record PushNetwork : Type 0 where
  pub gossiped_txs : Bytes → Bool
  pub sent : List (List Transaction)

-- sendTxs; that the encoding or the sender fails is not modelled
unfoldable pub send_txs : List Transaction → PushNetwork → PushNetwork
send_txs [] n = n
send_txs (tx ∷ txs) n = record n { sent = n.sent ++ (tx ∷ txs) ∷ [] }

-- GossipNewTxs, where the node has a sender: what was not gossiped recently
unfoldable pub fresh_txs : List Transaction → PushNetwork → List Transaction × PushNetwork
fresh_txs [] n = ([], n)
fresh_txs (tx ∷ txs) n = elim (n.gossiped_txs tx.id) [
  | true ↦ fresh_txs txs n
  | false ↦
      let rest = fresh_txs txs (record n { gossiped_txs = with n.gossiped_txs tx.id true }) in
      (tx ∷ rest.0, rest.1)
]

unfoldable pub gossip_new_txs : List Transaction → PushNetwork → PushNetwork
unfolding send_txs
gossip_new_txs new_txs n = let picked = fresh_txs new_txs n in send_txs picked.0 picked.1

module _ ⦃pkg : HeapPackage⦄ (g : Genesis) where
  -- the loop of RegossipTxs; each round takes one transaction out of the mempool
  unfoldable pub regossip_loop :
      ℕ
      → List Transaction
      → ℕ
      → Mempool
      → PushNetwork
      → Result (List Transaction × Mempool × PushNetwork)
  regossip_loop zero txs units m n = if Mempool.len m == 0 then ok (txs, m, n) else out_of_fuel
  regossip_loop (suc fuel) txs units m n =
      if ltb 0 (Mempool.len m) && ltb units g.target_block_size
      then Errors.◌>>=◌ (Mempool.pop_max m) (λ popped. elim popped.0 [
        | none ↦ panic
        | some tx ↦ Errors.◌>>=◌ (load_units g tx.unsigned) λ load.
            regossip_loop fuel (txs ++ tx ∷ []) (add64 units load) popped.2
              (record n { gossiped_txs = with n.gossiped_txs tx.id true })
      ])
      else ok (txs, m, n)

  -- RegossipTxs
  unfoldable pub regossip_txs : Mempool → PushNetwork → Result (Mempool × PushNetwork)
  unfolding send_txs
  regossip_txs m n =
      Errors.◌>>=◌ (regossip_loop (Mempool.len m) [] 0 m n)
        λ done. ok (done.1, send_txs done.0 done.2)

module _ ⦃db : Database⦄ ⦃p : Platform⦄ ⦃pkg : HeapPackage⦄ where
  -- AppGossip on the transactions that the message holds; `none` is a message that does not decode
  unfoldable pub app_gossip :
      BlockCodec → ℕ → Option (List Transaction) → Exec (State db.Db) (Unit {0})
  app_gossip codec now none = return tt
  app_gossip codec now (some txs) = do _ ← submit_txs codec now txs; return tt
