-- ===== src/Mempool.antt =====
-- mempool/mempool.go: the transactions that wait for a block, in a heap with the dearest first and
-- in one with the cheapest first. The lock is held for the whole of every operation (Prune takes it
-- for each removal), so an operation is a step on the state. `pending` is whether the channel of
-- length one has an item. A `nil` transaction is `none`.
pub mod Package
pub mod Heap
pub mod Removal
pub mod Insertion
pub mod Refinement
pub mod Orders
pub mod Pruning
pub mod Gossip
pub mod Run
use spacesvm.Prelude.{
  ℕ, ◌-◌, Bool, true, false, not, Option, none, some, List, [], ◌∷◌, ◌++◌, Bytes, bytes_eq, ltb,
  leb, add64, sub64, get_elem?, if◌then◌else◌,
}
use spacesvm.Errors.{Result, ok, panic, ◌>>=◌}
use spacesvm.Types.{Transaction}
use spacesvm.Genesis.{Genesis}
use spacesvm.Tx.{base, contains_id}
use spacesvm.Tx.Fees.{load_units}
use spacesvm.Mempool.Package.{HeapPackage}
use spacesvm.Mempool.Heap.{TxEntry, TxHeap, new_tx_heap}

pub record Mempool : Type 0 where
  pub g : Genesis
  pub max_size : ℕ
  pub max_heap : TxHeap
  pub min_heap : TxHeap
  pub pending : Bool
  pub new_txs : List Transaction

abbrev pub new : Genesis → ℕ → Mempool
new g max_size = record {
  g = g;
  max_size = max_size;
  max_heap = new_tx_heap false;
  min_heap = new_tx_heap true;
  pending = false;
  new_txs = [];
}

abbrev pub len : Mempool → ℕ
len m = Heap.len m.max_heap

unfoldable pub has : Mempool → Bytes → Bool
has m id = Heap.has m.max_heap id

abbrev pub entry_tx : Option TxEntry → Option Transaction
entry_tx none = none
entry_tx (some e) = some e.tx

unfoldable pub get : Mempool → Bytes → Option Transaction
get m id = entry_tx (m.max_heap.lookup id)

-- `items[0]` of a heap, which panics where there is none
abbrev pub root_entry : Option TxEntry → Result TxEntry
root_entry none = panic
root_entry (some e) = ok e

unfoldable pub root : TxHeap → Result TxEntry
root h = root_entry (get_elem? h.items 0)

unfoldable pub peek_max : Mempool → Result (Transaction × ℕ)
peek_max m = do e ← root m.max_heap; ok (e.tx, e.price)

unfoldable pub peek_min : Mempool → Result (Transaction × ℕ)
peek_min m = do e ← root m.min_heap; ok (e.tx, e.price)

-- the entry that Add makes for a transaction
abbrev pub entry_of : Transaction → TxEntry
entry_of tx = record { id = tx.id; tx = tx; price = (base tx.unsigned).price }

unfoldable pub add_pending : Mempool → Mempool
add_pending m = record m { pending = true }

-- the first loop of Prune
unfoldable pub to_remove : List Bytes → List TxEntry → List Bytes
to_remove valid [] = []
to_remove valid (e ∷ l) =
    let rest = to_remove valid l in
    if contains_id valid (base e.tx.unsigned).block_id then rest else e.id ∷ rest

module _ ⦃pkg : HeapPackage⦄ where
  -- the rest of `remove`, with what the second map holds
  unfoldable pub remove_min : Mempool → Option TxEntry → Result (Option Transaction × Mempool)
  remove_min m none = ok (none, m)
  remove_min m (some e) = do
    (txe, min) ← Heap.heap_remove m.min_heap (m.min_heap.index e.id)
    ok (some txe.tx, record m { min_heap = min })

  -- the removal of the entry that the first map holds
  unfoldable pub remove_found :
      Mempool → Bytes → Option TxEntry → Result (Option Transaction × Mempool)
  remove_found m id none = ok (none, m)
  remove_found m id (some e) = do
    (_, max) ← Heap.heap_remove m.max_heap (m.max_heap.index e.id)
    remove_min (record m { max_heap = max }) (m.min_heap.lookup id)

  unfoldable pub remove : Mempool → Bytes → Result (Option Transaction × Mempool)
  remove m id = remove_found m id (m.max_heap.lookup id)

  unfoldable pub pop_max : Mempool → Result (Option Transaction × ℕ × Mempool)
  pop_max m = do item ← root m.max_heap; (tx, rest) ← remove m item.id; ok (tx, item.price, rest)

  unfoldable pub pop_min : Mempool → Result (Option Transaction × ℕ × Mempool)
  pop_min m = do item ← root m.min_heap; (tx, rest) ← remove m item.id; ok (tx, item.price, rest)

  -- the optimistic pushes of Add
  unfoldable pub push_both : Mempool → Transaction → Mempool
  push_both m tx = record m {
    max_heap = Heap.heap_push m.max_heap (entry_of tx) (len m);
    min_heap = Heap.heap_push m.min_heap (entry_of tx) (len m);
  }

  -- the end of Add
  unfoldable pub announce : Mempool → Transaction → Bool × Mempool
  unfolding add_pending
  announce m tx = (true, add_pending (record m { new_txs = m.new_txs ++ tx ∷ [] }))

  -- Add after popMin gave a transaction, on which the code calls `ID`
  unfoldable pub after_eviction :
      Transaction → Option Transaction → Mempool → Result (Bool × Mempool)
  unfolding announce
  after_eviction tx none m = panic
  after_eviction tx (some t) m = if bytes_eq t.id tx.id then ok (false, m) else ok (announce m tx)

  unfoldable pub add : Mempool → Transaction → Result (Bool × Mempool)
  unfolding announce after_eviction
  add m tx =
      if has m tx.id
      then ok (false, m)
      else let grown = push_both m tx in
        if ltb m.max_size (len grown)
        then (do (t, _, rest) ← pop_min grown; after_eviction tx t rest)
        else ok (announce grown tx)

  -- the second loop of Prune
  unfoldable pub remove_all : Mempool → List Bytes → Result Mempool
  remove_all m [] = ok m
  remove_all m (id ∷ ids) = do (_, rest) ← remove m id; remove_all rest ids

  unfoldable pub prune : Mempool → List Bytes → Result Mempool
  prune m valid = remove_all m (to_remove valid m.max_heap.items)

-- NewTxs: what is taken from the new transactions, and what is left of them.
unfoldable pub select :
    Mempool → ℕ → ℕ → List Transaction → Result (List Transaction × List Transaction)
select m max_units units [] = ok ([], [])
select m max_units units (tx ∷ txs) = elim (has m tx.id) [
  | false ↦ select m max_units units txs
  | true ↦ do
    tx_units ← load_units m.g tx.unsigned
    elim (ltb (sub64 max_units units) tx_units) [
      | true ↦ ok ([], tx ∷ txs)
      | false ↦ do
        (selected, left) ← select m max_units (add64 units tx_units) txs
        ok (tx ∷ selected, left)
    ]
]

unfoldable pub take_new_txs : Mempool → ℕ → Result (List Transaction × Mempool)
take_new_txs m max_units = do
  (selected, left) ← select m max_units 0 m.new_txs
  ok (selected, record m { new_txs = left })
