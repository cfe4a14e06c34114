-- ===== src/Tests/Building.antt =====
-- A block that is built from a mempool with one transaction.
use spacesvm.Prelude.{
  ◌≤◌, ◌≡◌, ◌≢◌, ◌⊎◌, refl, some, [], ◌∷◌, Bytes, bytes_eq, bytes_compare, add64, sub64, mul64,
  arith,
}
use spacesvm.Errors.{ok, out_of_fuel}
use spacesvm.Exec
use spacesvm.Exec.{after}
use spacesvm.Platform.Sample.{Sorted, sample_database, sample_platform}
use spacesvm.Types.{StatelessBlock, Transaction}
use spacesvm.Keys.{prefix_balance_key, prefix_tx_key, big_endian, from_big_endian}
use spacesvm.Storage.Balances.{
  set_balance, get_balance, modify_balance, write_balance, decode_balance,
}
use spacesvm.Storage.Values.{set_transaction}
use spacesvm.Tx
use spacesvm.Tx.{Context, base, contains_id, execute_base}
use spacesvm.Tx.Fees.{load_units, fee_units}
use spacesvm.Tx.Actions.{execute_unsigned, execute_transfer}
use spacesvm.Tx.Execute.{execute, lottery, dummy}
use spacesvm.Block.{check_size}
use spacesvm.Mempool.{
  len, get, remove, remove_found, remove_min, pop_max, root, announce, push_both, add_pending,
}
use spacesvm.Mempool.Heap
use spacesvm.Mempool.Package.Sample.{sample_heap}
use spacesvm.VirtualMachine.Submission.Admitted.{Admits, submit_all-Admits}
use spacesvm.Mempool.Insertion.{IsPool}
use spacesvm.VirtualMachine.Submission.{
  submit_all, Trial, Picked, nothing, pick_all, pick, pop_next, on_pool, try_tx,
}
use spacesvm.VirtualMachine.Submission.Built.{PaysAll, pick_all-fits, pick_all-terminates}
use spacesvm.Tests.{empty_db, address, id32, genesis, block_of, window}
use spacesvm.Tests.Mempool.{pool_of_one, pool_of_one-IsPool, cheap, dear}

abbrev trial_block : StatelessBlock
trial_block = block_of 1 10 1 (id32 6) (id32 5) []

abbrev trial : Trial Sorted
trial = record { vdb = after (set_balance (address 1) 50) empty_db; pool = pool_of_one }

abbrev with_cheap : Picked
with_cheap = record { txs = cheap ∷ []; units = 1; unusable = [] }

pool_of_one-len : len pool_of_one ≤ 2
unfolding announce push_both add_pending Heap.heap_push Heap.push Heap.has Heap.run_swaps Heap.less
    Tx.base
pool_of_one-len = omega arith

picked : (pick_all genesis trial_block window 2 nothing trial).0 ≡ ok with_cheap
unfolding pick_all pick pop_next on_pool try_tx pop_max root remove remove_found remove_min announce
    push_both add_pending Heap.heap_push Heap.heap_remove Heap.push Heap.pop Heap.has Heap.run_swaps
    Heap.swap Heap.less Exec.◌>>=◌ Exec.return Exec.lift Exec.gets Exec.modify load_units add64
    sub64 mul64 set_balance get_balance modify_balance write_balance decode_balance bytes_compare
    bytes_eq prefix_balance_key prefix_tx_key big_endian from_big_endian execute base contains_id
    execute_base fee_units execute_unsigned execute_transfer set_transaction lottery dummy
picked = refl

pick_all-fits_example :
    (check_size genesis 0 (cheap ∷ []) ≡ ok tt) × PaysAll trial_block (cheap ∷ [])
pick_all-fits_example =
    pick_all-fits genesis trial_block window 2 trial with_cheap pool_of_one-IsPool pool_of_one-len
      picked

-- where no block is recent, no transaction runs
abbrev no_window : Context
no_window = record window { recent_block_ids = [] }

no_window-returns :
    (next : Transaction) (d : Sorted)
    → (execute genesis trial_block no_window next d).0 ≢ out_of_fuel
unfolding execute execute_base contains_id Exec.◌>>=◌ Exec.lift Exec.return Exec.fail
no_window-returns next d = ground arith

pick_all-terminates_example :
    (pick_all genesis trial_block no_window 2 nothing trial).0 ≢ out_of_fuel
pick_all-terminates_example =
    pick_all-terminates genesis trial_block no_window 2 trial pool_of_one-IsPool pool_of_one-len
      no_window-returns

submit_all-Admits_example :
    IsPool (submit_all genesis 5 window empty_db (dear ∷ []) trial).1.pool
    × ((id : Bytes) (u : Transaction)
        → get (submit_all genesis 5 window empty_db (dear ∷ []) trial).1.pool id ≡ some u
        → (get pool_of_one id ≡ some u) ⊎ Admits window u)
submit_all-Admits_example =
    submit_all-Admits genesis 5 window empty_db (dear ∷ []) trial pool_of_one-IsPool
