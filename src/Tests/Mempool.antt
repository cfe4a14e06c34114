-- ===== src/Tests/Mempool.antt =====
-- A mempool for one transaction, with a transaction in it.
use spacesvm.Prelude.{
  ℕ, suc, ◌<◌, ◌≤◌, ◌≡◌, ◌↔◌, refl, Bool, true, none, some, List, [], ◌∷◌, Bytes, arith,
}
use spacesvm.Errors.{ok}
use spacesvm.Types.{Transaction, transfer_tx}
use spacesvm.Tx
use spacesvm.Tx.{contains_id}
use spacesvm.Mempool.{
  Mempool, new, len, has, get, add, push_both, announce, add_pending, pop_max, prune, take_new_txs,
}
use spacesvm.Mempool.Package.Sample.{sample_heap}
use spacesvm.Mempool.Heap
use spacesvm.Mempool.Heap.{with}
use spacesvm.Mempool.Insertion.{price, IsPool, Added, Announced}
use spacesvm.Mempool.Refinement.{add-Added, pop_max-greatest}
use spacesvm.Mempool.Pruning.{prune-exact, named_block}
use spacesvm.Tx.Fees.{Loads}
use spacesvm.Mempool.Gossip.{Selected, take_new_txs-Selected}
use spacesvm.Mempool.Run.{Step, Reach, new-IsPool, step-IsPool, reach-IsPool}
use spacesvm.Tests.{address, id32, base_tx, from, genesis}

abbrev pub cheap : Transaction
cheap = record (from 1 (transfer_tx (base_tx 2) (address 4) 5)) { id = id32 11 }

abbrev pub dear : Transaction
dear = record (from 1 (transfer_tx (base_tx 3) (address 4) 6)) { id = id32 12 }

abbrev pub pool_of_one : Mempool
pool_of_one = (announce (push_both (new genesis 1) cheap) cheap).1

pub pool_of_one-Step : Step (new genesis 1) pool_of_one
unfolding add announce has Heap.has push_both add_pending Heap.heap_push Heap.run_swaps Heap.push
    Heap.less Tx.base
pool_of_one-Step = Step.add_step cheap true pool_of_one refl

pub pool_of_one-IsPool : IsPool pool_of_one
pool_of_one-IsPool = step-IsPool (new genesis 1) pool_of_one (new-IsPool genesis 1) pool_of_one-Step

pub pool_of_one-more : 0 < len pool_of_one
unfolding announce push_both add_pending Heap.heap_push Heap.push Heap.has Heap.run_swaps Heap.less
    Tx.base
pool_of_one-more = omega arith

pool_of_one-Reach : Reach genesis 1 pool_of_one
pool_of_one-Reach = Reach.next (new genesis 1) pool_of_one Reach.start pool_of_one-Step

add-Added_example :
    (b : Bool) × (r : Mempool) × (add pool_of_one dear ≡ ok (b, r))
    × IsPool r
    × Added (get pool_of_one) (len pool_of_one) pool_of_one.max_size dear b (get r)
    × Announced pool_of_one dear b r
add-Added_example = add-Added pool_of_one dear pool_of_one-IsPool

pop_max-greatest_example :
    (t : Transaction) × (r : Mempool) × (pop_max pool_of_one ≡ ok (some t, price t, r))
    × IsPool r
    × (get pool_of_one t.id ≡ some t)
    × ((id : Bytes) (u : Transaction) → get pool_of_one id ≡ some u → price u ≤ price t)
    × (get r ≡ with (get pool_of_one) t.id none)
    × (suc (len r) ≡ len pool_of_one)
pop_max-greatest_example = pop_max-greatest pool_of_one pool_of_one-IsPool pool_of_one-more

prune-exact_example :
    (r : Mempool) × (prune pool_of_one (id32 8 ∷ []) ≡ ok r)
    × IsPool r
    × ((id : Bytes) (t : Transaction)
        → (get r id ≡ some t)
          ↔ ((get pool_of_one id ≡ some t) × (contains_id (id32 8 ∷ []) (named_block t) ≡ true)))
prune-exact_example = prune-exact pool_of_one (id32 8 ∷ []) pool_of_one-IsPool

take_new_txs-Selected_example :
    (selected : List Transaction) × (r : Mempool) × (total : ℕ) × (take_new_txs pool_of_one 100
      ≡ ok (selected, r))
    × Selected pool_of_one 100 0 selected r.new_txs pool_of_one.new_txs
    × Loads genesis selected total
    × (total ≤ 100)
unfolding announce push_both add_pending
take_new_txs-Selected_example = take_new_txs-Selected pool_of_one 100 (omega arith) (omega arith)

reach-IsPool_example : IsPool pool_of_one
reach-IsPool_example = reach-IsPool genesis 1 pool_of_one pool_of_one-Reach
