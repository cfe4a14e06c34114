-- ===== src/Mempool/Orders.antt =====
-- PopMax and PopMin of mempool/mempool.go: the root of a heap is an entry whose price no other
-- passes, and both pops take out what they return.
use spacesvm.Prelude.{
  ◌<◌, ◌≤◌, ◌≡◌, refl, sym, ap, ◌∙◌, false, some, Bytes, get_elem-exists, get_elem-bound, arith,
}
use spacesvm.Errors.{ok}
use spacesvm.Mempool.{Mempool, len, root, pop_max, pop_min}
use spacesvm.Mempool.Package.{HeapPackage}
use spacesvm.Mempool.Heap.{TxEntry, TxHeap, less_entries, less, with}
use spacesvm.Mempool.Heap
use spacesvm.Mempool.Heap.Calls.{IsValid}
use spacesvm.Mempool.Removal.{IsConsistent, Without, remove-Without}

module _ ⦃pkg : HeapPackage⦄ where
  -- The root of a heap that is not empty.
  root-Extreme :
      (h : TxHeap)
      → IsValid h
      → 0 < Heap.len h
      → (e : TxEntry) × (root h ≡ ok e)
        × (h.lookup e.id ≡ some e)
        × ((id : Bytes) (d : TxEntry)
            → h.lookup id ≡ some d
            → less_entries h.is_min_heap (some d) (some e) ≡ false)
  unfolding root less
  root-Extreme h v more =
      let (e, first) = get_elem-exists h.items 0 more in
      (
        e,
        rw (root, first) refl,
        (v.linked.at 0 e first).0,
        λ id d found.
            let there = (v.linked.known id d found).1 in
            let least =
              pkg.root_least (Heap.len h) (less h) (h.index id) v.heap
                (get_elem-bound h.items (h.index id) d there) in
            rw (there, first) at least,
      )

  pub pop_max-Without :
      (m : Mempool)
      → IsConsistent m
      → 0 < len m
      → (e : TxEntry) × (r : Mempool) × (pop_max m ≡ ok (some e.tx, e.price, r))
        × (m.max_heap.lookup e.id ≡ some e)
        × ((id : Bytes) (d : TxEntry) → m.max_heap.lookup id ≡ some d → d.price ≤ e.price)
        × Without m e.id r
  unfolding pop_max
  pop_max-Without m c more =
      let (e, first, found, extreme) = root-Extreme m.max_heap c.max more in
      let (r, ran, without) = remove-Without m e.id e c found in
      (
        e,
        r,
        rw (pop_max, first, ran) refl,
        found,
        λ id d h. let least = extreme id d h in ground (arith, c.max_kind, least),
        without,
      )

  pub pop_min-Without :
      (m : Mempool)
      → IsConsistent m
      → 0 < len m
      → (e : TxEntry) × (r : Mempool) × (pop_min m ≡ ok (some e.tx, e.price, r))
        × (m.max_heap.lookup e.id ≡ some e)
        × ((id : Bytes) (d : TxEntry) → m.max_heap.lookup id ≡ some d → e.price ≤ d.price)
        × Without m e.id r
  unfolding pop_min
  pop_min-Without m c more =
      let (e, first, found_min, extreme) = root-Extreme m.min_heap c.min (rw c.same_len more) in
      let found : m.max_heap.lookup e.id ≡ some e = ap (λ f. f e.id) (sym c.same) ∙ found_min in
      let (r, ran, without) = remove-Without m e.id e c found in
      (
        e,
        r,
        rw (pop_min, first, ran) refl,
        found,
        λ id d h. let least = extreme id d (rw c.same h) in ground (arith, c.min_kind, least),
        without,
      )
