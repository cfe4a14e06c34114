-- ===== src/VirtualMachine/Submission.antt =====
-- Submit of vm/vm.go, and BuildBlock of chain/builder.go: transactions are tried on a copy of the
-- state, on their way into the mempool and out of it. The copy and the mempool change, also where a
-- call fails; the database of the VM does not.
pub mod Admitted
pub mod Rounds
pub mod Built
use spacesvm.Prelude.{
  ℕ, zero, suc, ◌+◌, Bool, true, false, Option, none, some, List, [], ◌∷◌, ◌++◌, Bytes, ltb, add64,
  ◌==◌, if◌then◌else◌,
}
use spacesvm.Errors
use spacesvm.Errors.{Error, Result, ok, err, panic, out_of_fuel, bad_encoding, bad_id}
use spacesvm.Exec
use spacesvm.Exec.{Exec, return, lift, gets, modify, continue, ◌>>=◌, ◌>>◌}
use spacesvm.Platform.{Database, Platform}
use spacesvm.Types.{Transaction, StatefulBlock, StatelessBlock, Activity, processing}
use spacesvm.Genesis.{Genesis, empty_id}
use spacesvm.Storage.{require}
use spacesvm.Storage.Expiry.{expire_next}
use spacesvm.Tx.{Context, base, execute_base}
use spacesvm.Tx.Fees.{load_units}
use spacesvm.Tx.Execute.{init, execute}
use spacesvm.Block.{Node, Vm, on_accept, verify}
use spacesvm.Block.Accepted.{BlockCodec}
use spacesvm.Mempool
use spacesvm.Mempool.{Mempool}
use spacesvm.Mempool.Package.{HeapPackage}
use spacesvm.VirtualMachine.{Live, State, init_txs, get_stateless_block, seen}

-- DummyBlock; its status, which nothing reads, is the first of choices
unfoldable pub dummy_block : ℕ → Transaction → StatelessBlock
dummy_block tmstp tx = record {
  block = record { prnt = empty_id; tmstmp = tmstp; hght = 0; price = 0; cost = 0; txs = tx ∷ [] };
  id = empty_id;
  st = processing;
  bytes = [];
}

-- The copy of the database with the mempool.
pub record Trial (D : Type 0) : Type 0 where
  pub vdb : D
  pub pool : Mempool

module _ {D A : Type 0} where
  unfoldable pub on_vdb : Exec D A → Exec (Trial D) A
  on_vdb m t = ((m t.vdb).0, record t { vdb = (m t.vdb).1 })

  -- a call on the mempool
  abbrev pub pooled : D → Mempool → Result (A × Mempool) → Result A × Trial D
  pooled d m (ok (a, r)) = (ok a, record { vdb = d; pool = r })
  pooled d m (err e) = (err e, record { vdb = d; pool = m })
  pooled d m panic = (panic, record { vdb = d; pool = m })
  pooled d m out_of_fuel = (out_of_fuel, record { vdb = d; pool = m })

  unfoldable pub on_pool : (Mempool → Result (A × Mempool)) → Exec (Trial D) A
  on_pool f t = pooled t.vdb t.pool (f t.pool)

module _ ⦃db : Database⦄ ⦃p : Platform⦄ ⦃pkg : HeapPackage⦄ where
  unfoldable pub submit : Genesis → ℕ → Context → Transaction → Exec (Trial db.Db) (Unit {0})
  unfolding dummy_block on_vdb on_pool
  submit g blk_time ctx tx = do
    t ← lift (init tx)
    lift (execute_base g (base t.unsigned))
    _ ← on_vdb (execute g (dummy_block blk_time t) ctx t)
    _ ← on_pool (λ m. Mempool.add m t)
    return tt

  -- how the loop of Submit goes on after a transaction; Abort drops what was written to the copy, and
  -- is called after a success only
  unfoldable pub after_submit :
      db.Db
      → Exec (Trial db.Db) (List Error)
      → Result (Unit {0}) × Trial db.Db
      → Result (List Error) × Trial db.Db
  after_submit d rest (ok u, t) = rest (record t { vdb = d })
  after_submit d rest (err e, t) = (rest >>= λ es. return (e ∷ es)) t
  after_submit d rest (panic, t) = (panic, t)
  after_submit d rest (out_of_fuel, t) = (out_of_fuel, t)

  -- the loop of Submit over a copy of `d`
  unfoldable pub submit_all :
      Genesis → ℕ → Context → db.Db → List Transaction → Exec (Trial db.Db) (List Error)
  unfolding after_submit
  submit_all g now ctx d [] = return []
  submit_all g now ctx d (tx ∷ txs) =
      λ t. after_submit d (submit_all g now ctx d txs) (submit g now ctx tx t)

  -- `if err != nil { return []error{err} }`
  abbrev pub or_errors :
      {A : Type 0}
      → Result A
      → (A → Exec (State db.Db) (List Error))
      → Exec (State db.Db) (List Error)
  or_errors (ok a) f = f a
  or_errors (err e) f = return (e ∷ [])
  or_errors panic f = lift panic
  or_errors out_of_fuel f = lift out_of_fuel

  -- Submit at the time `now`
  unfoldable pub submit_txs : BlockCodec → ℕ → List Transaction → Exec (State db.Db) (List Error)
  submit_txs codec now txs = λ s.
      or_errors (get_stateless_block codec s s.preferred)
        (λ blk. or_errors ((seen codec s).execution_context now blk.node) λ ctx.
          let expired = expire_next blk.tmstmp now true s.db in
          or_errors expired.0 λ _. λ s'.
            let done =
              submit_all s.genesis now ctx s.db txs
                (record { vdb = expired.1; pool = s.mempool }) in
            (done.0, record s' { mempool = done.1.pool }))
        s

  -- NewBlock on a parent
  unfoldable pub new_block : Node db.Db → ℕ → Context → StatefulBlock
  new_block parent tmstp context = record {
    prnt = parent.id;
    tmstmp = tmstp;
    hght = add64 parent.hght 1;
    price = context.next_price;
    cost = context.next_cost;
    txs = [];
  }

  -- `init` of chain/block.go
  unfoldable pub init_block : BlockCodec → StatefulBlock → Result StatelessBlock
  init_block codec b = Errors.◌>>=◌ (require bad_encoding (codec.marshal_block b)) λ bytes.
      Errors.◌>>=◌ (require bad_id (p.to_id (p.keccak256 bytes))) λ id.
        Errors.◌>>=◌ (init_txs b.txs) λ txs.
          ok (record { block = record b { txs = txs }; id = id; st = processing; bytes = bytes })

-- What BuildBlock has taken from the mempool.
pub record Picked : Type 0 where
  pub txs : List Transaction
  pub units : ℕ
  pub unusable : List Transaction

-- nothing is picked yet
abbrev pub nothing : Picked
nothing = record { txs = []; units = 0; unusable = [] }

module _ ⦃db : Database⦄ ⦃p : Platform⦄ ⦃pkg : HeapPackage⦄ (g : Genesis) (b : StatelessBlock)
    (context : Context) where
  -- the writes of a transaction stay in the copy when it succeeds, and else it is dropped
  abbrev pub keep_tx :
      Picked
      → Transaction
      → ℕ
      → Trial db.Db
      → Result (Option Activity) × db.Db
      → Result (Bool × Picked) × Trial db.Db
  keep_tx k next load t (ok w, d) = (
    ok (true, record k { txs = k.txs ++ next ∷ []; units = add64 k.units load }),
    record t { vdb = d },
  )
  keep_tx k next load t (err e, d) = (ok (true, k), t)
  keep_tx k next load t (panic, d) = (panic, t)
  keep_tx k next load t (out_of_fuel, d) = (out_of_fuel, t)

  unfoldable pub try_tx : Picked → Transaction → ℕ → Exec (Trial db.Db) (Bool × Picked)
  try_tx k next load t = keep_tx k next load t (execute g b context next t.vdb)

  -- the body of the loop of BuildBlock after PopMax, with whether the loop goes on
  unfoldable pub pick : Picked → Option Transaction → ℕ → Exec (Trial db.Db) (Bool × Picked)
  unfolding try_tx on_pool
  pick k none price = lift panic
  pick k (some next) price =
      if ltb price b.price
      then (do _ ← on_pool (λ m. Mempool.add m next); return (false, k))
      else lift (load_units g next.unsigned) >>= λ load.
          if ltb g.max_block_size (add64 k.units load)
          then return (true, record k { unusable = k.unusable ++ next ∷ [] })
          else try_tx k next load

  abbrev pub popped_pair :
      Option Transaction × ℕ × Mempool → Result ((Option Transaction × ℕ) × Mempool)
  popped_pair (t, n, r) = ok ((t, n), r)

  unfoldable pub pop_next : Exec (Trial db.Db) (Option Transaction × ℕ)
  unfolding on_pool
  pop_next = on_pool (λ m. Errors.◌>>=◌ (Mempool.pop_max m) popped_pair)

  abbrev pub go_on :
      (Picked → Exec (Trial db.Db) Picked) → Bool × Picked → Exec (Trial db.Db) Picked
  go_on rest (true, k) = rest k
  go_on rest (false, k) = return k

  -- the loop of BuildBlock; each round takes one transaction out of the mempool
  unfoldable pub pick_all : ℕ → Picked → Exec (Trial db.Db) Picked
  unfolding pop_next
  pick_all zero k t = if Mempool.len t.pool == 0 then (ok k, t) else (out_of_fuel, t)
  pick_all (suc fuel) k t =
      if Mempool.len t.pool == 0
      then (ok k, t)
      else (pop_next >>= λ next. pick k next.0 next.1 >>= λ done. go_on (pick_all fuel) done) t
