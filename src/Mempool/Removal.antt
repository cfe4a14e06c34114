-- ===== src/Mempool/Removal.antt =====
-- What mempool/mempool.go keeps of its two heaps, and `remove`.
use spacesvm.Prelude.{
  suc, ◌≤◌, ◌-◌, ◌≡◌, refl, sym, ap, subst, ◌∙◌, Bool, true, false, Option, none, some, List, Bytes,
  get_elem-bound, arith,
}
use spacesvm.Errors.{ok}
use spacesvm.Types.{Transaction}
use spacesvm.Mempool.{Mempool, len, entry_of, remove, remove_found, remove_min}
use spacesvm.Mempool.Package.{HeapPackage}
use spacesvm.Mempool.Heap.{TxEntry, TxHeap, with, heap_remove}
use spacesvm.Mempool.Heap
use spacesvm.Mempool.Heap.Calls.{IsValid, heap_remove-Changes}

module _ ⦃pkg : HeapPackage⦄ where
  -- Both heaps are heaps over the same entries, each of which is that of its transaction.
  pub record IsConsistent (m : Mempool) : Type 0 where
    pub max : IsValid m.max_heap
    pub min : IsValid m.min_heap
    pub max_kind : m.max_heap.is_min_heap ≡ false
    pub min_kind : m.min_heap.is_min_heap ≡ true
    pub same : m.min_heap.lookup ≡ m.max_heap.lookup
    pub same_len : Heap.len m.min_heap ≡ len m
    pub faithful : (id : Bytes) (e : TxEntry) → m.max_heap.lookup id ≡ some e → e ≡ entry_of e.tx

  -- `r` is `m` without the entry of `id`.
  pub record Without (m : Mempool) (id : Bytes) (r : Mempool) : Type 0 where
    pub consistent : IsConsistent r
    pub content : r.max_heap.lookup ≡ with m.max_heap.lookup id none
    pub count : suc (len r) ≡ len m
    pub new_txs : r.new_txs ≡ m.new_txs
    pub pending : r.pending ≡ m.pending
    pub max_size : r.max_size ≡ m.max_size
    pub g : r.g ≡ m.g

  -- A removal adds nothing and leaves the signal alone.
  abbrev pub Shrinks : Mempool → Mempool → Type 0
  Shrinks m r = (len r ≤ len m) × (r.pending ≡ m.pending)

  pub Without-Shrinks : (m : Mempool) (id : Bytes) (r : Mempool) → Without m id r → Shrinks m r
  Without-Shrinks m id r w = (omega (arith, w.count), w.pending)

  with-none :
      (f : Bytes → Option TxEntry) (id j : Bytes) (e : TxEntry)
      → with f id none j ≡ some e
      → f j ≡ some e
  with-none f id j e h = ground arith

  remove-own :
      (m : Mempool) (e : TxEntry)
      → IsConsistent m
      → m.max_heap.lookup e.id ≡ some e
      → (r : Mempool) × (remove m e.id ≡ ok (some e.tx, r)) × Without m e.id r
  unfolding remove remove_found remove_min
  remove-own m e c found =
      let n = len m - 1 in
      let found_min : m.min_heap.lookup e.id ≡ some e = rw c.same found in
      let here = (c.max.linked.known e.id e found).1 in
      let here_min = (c.min.linked.known e.id e found_min).1 in
      let more : len m ≡ suc n =
        omega (arith, get_elem-bound m.max_heap.items (m.max_heap.index e.id) e here) in
      let (max, ran, left) =
        heap_remove-Changes m.max_heap n (m.max_heap.index e.id) e more here c.max in
      let (min, ran_min, left_min) =
        heap_remove-Changes m.min_heap n (m.min_heap.index e.id) e (c.same_len ∙ more) here_min
          c.min in
      (
        record m { max_heap = max; min_heap = min },
        rw (remove, found, ran, found_min, ran_min) refl,
        record {
          consistent = record {
            max = left.valid;
            min = left_min.valid;
            max_kind = left.kind ∙ c.max_kind;
            min_kind = left_min.kind ∙ c.min_kind;
            same = left_min.entries ∙ ap (λ f. with f e.id none) c.same ∙ sym left.entries;
            same_len = left_min.count ∙ sym left.count;
            faithful = λ j d h.
                c.faithful j d (with-none m.max_heap.lookup e.id j d (rw left.entries at h));
          };
          content = left.entries;
          count = omega (arith, left.count, more);
          new_txs = refl;
          pending = refl;
          max_size = refl;
          g = refl;
        },
      )

  pub lookup-id :
      (m : Mempool) (id : Bytes) (e : TxEntry)
      → IsConsistent m
      → m.max_heap.lookup id ≡ some e
      → e.id ≡ id
  lookup-id m id e c found = (c.max.linked.known id e found).0

  pub remove-Without :
      (m : Mempool) (id : Bytes) (e : TxEntry)
      → IsConsistent m
      → m.max_heap.lookup id ≡ some e
      → (r : Mempool) × (remove m id ≡ ok (some e.tx, r)) × Without m id r
  remove-Without m id e c found =
      let same = lookup-id m id e c found in
      subst (λ j. (r : Mempool) × (remove m j ≡ ok (some e.tx, r)) × Without m j r) same
        (remove-own m e c (subst (λ j. m.max_heap.lookup j ≡ some e) (sym same) found))

  pub remove-missing :
      (m : Mempool) (id : Bytes) → m.max_heap.lookup id ≡ none → remove m id ≡ ok (none, m)
  unfolding remove remove_found
  remove-missing m id h = rw (remove, h) refl

  -- The queue for the gossip and the signal to the builder are no part of it.
  pub queue-IsConsistent :
      (m : Mempool) (txs : List Transaction) (signal : Bool)
      → IsConsistent m
      → IsConsistent (record m { new_txs = txs; pending = signal })
  queue-IsConsistent m txs signal c = record {
    max = c.max;
    min = c.min;
    max_kind = c.max_kind;
    min_kind = c.min_kind;
    same = c.same;
    same_len = c.same_len;
    faithful = c.faithful;
  }
