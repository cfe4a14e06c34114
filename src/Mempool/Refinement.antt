-- ===== src/Mempool/Refinement.antt =====
-- Add, PopMax and PopMin of mempool/mempool.go against the set of transactions.
use spacesvm.Prelude.{
  suc, ◌<◌, ◌≤◌, ◌≡◌, refl, sym, ap, subst, ◌∙◌, inl, inr, Bool, true, false, not, none, some, [],
  ◌∷◌, ◌++◌, Bytes, bytes_eq, arith, ltb, ltb→lt, ltb-false→le, Bool-cases, Option-cases,
}
use spacesvm.Errors.{ok}
use spacesvm.Types.{Transaction}
use spacesvm.Mempool.{
  Mempool, len, has, get, entry_of, push_both, announce, add_pending, after_eviction, add, pop_max,
}
use spacesvm.Mempool.Package.{HeapPackage}
use spacesvm.Mempool.Heap.{TxEntry, with}
use spacesvm.Mempool.Heap
use spacesvm.Mempool.Removal.{IsConsistent, queue-IsConsistent}
use spacesvm.Mempool.Orders.{pop_min-Without, pop_max-Without}
use spacesvm.Mempool.Insertion.{
  price, Added, duplicate, room, full, Announced, IsPool, Grown, push_both-Grown, get-with,
  get-Without, get-some,
}

has-get : (m : Mempool) (id : Bytes) → has m id ≡ true → (t : Transaction) × (get m id ≡ some t)
unfolding has get Heap.has
has-get m id h = elim (Option-cases (m.max_heap.lookup id)) [
  | inl e ↦ absurd (ground (arith, e, h))
  | inr (e, f) ↦ (e.tx, rw f refl)
]

has-false : (m : Mempool) (id : Bytes) → has m id ≡ false → m.max_heap.lookup id ≡ none
unfolding has Heap.has
has-false m id h = ground arith

module _ ⦃pkg : HeapPackage⦄ where
  -- the entry that a pop takes, as what the set holds
  popped :
      (m : Mempool) (e : TxEntry)
      → IsConsistent m
      → m.max_heap.lookup e.id ≡ some e
      → (get m e.tx.id ≡ some e.tx) × (e.id ≡ e.tx.id) × (e.price ≡ price e.tx)
  unfolding get
  popped m e c found =
      let own = c.faithful e.id e found in
      let id : e.id ≡ e.tx.id = ap (λ d. d.id) own in
      let there : m.max_heap.lookup e.tx.id ≡ some e = ap m.max_heap.lookup (sym id) ∙ found in
      (rw there refl, id, ap (λ d. d.price) own)

  abbrev Outcome : Mempool → Transaction → Type 0
  Outcome m tx =
      (b : Bool) × (r : Mempool) × (add m tx ≡ ok (b, r))
      × IsPool r
      × Added (get m) (len m) m.max_size tx b (get r)
      × Announced m tx b r

  module _ (m : Mempool) (tx : Transaction) (p : IsPool m) (fresh : has m tx.id ≡ false) where
    absent : get m tx.id ≡ none
    unfolding get
    absent = rw (has-false m tx.id fresh) refl

    grown : Grown m tx (push_both m tx)
    grown = push_both-Grown m tx p.consistent (has-false m tx.id fresh)

    pool : get (push_both m tx) ≡ with (get m) tx.id (some tx)
    pool = get-with m (push_both m tx) tx grown.content

    add-room : ltb m.max_size (len (push_both m tx)) ≡ false → Outcome m tx
    unfolding add announce add_pending push_both get
    add-room fits =
        let g = push_both m tx in
        let r = (announce g tx).1 in
        let size = grown.count in
        (
          true,
          r,
          rw (add, fresh, fits) refl,
          record {
            consistent = queue-IsConsistent g (g.new_txs ++ tx ∷ []) true grown.consistent;
            bound = ltb-false→le m.max_size (len g) fits;
          },
          subst (Added (get m) (len m) m.max_size tx true) (sym pool) (room absent (ground arith)),
          (refl, refl),
        )

    add-full : ltb m.max_size (len (push_both m tx)) ≡ true → Outcome m tx
    unfolding add announce add_pending after_eviction push_both get
    add-full over =
        let g = push_both m tx in
        let (e, rest, ran, found, cheapest, w) =
          pop_min-Without g grown.consistent (omega (arith, grown.count)) in
        let (held, id, cost) = popped g e grown.consistent found in
        let left : get rest ≡ with (with (get m) tx.id (some tx)) e.tx.id none =
          get-Without g rest e.id w ∙ rw (pool, id) refl in
        let least : (j : Bytes) (u : Transaction)
            → with (get m) tx.id (some tx) j ≡ some u
            → price e.tx ≤ price u =
          λ j u h.
            rw cost at (
              cheapest j (entry_of u) (get-some g j u grown.consistent (ap (λ f. f j) pool ∙ h))) in
        let spec : Added (get m) (len m) m.max_size tx (not (bytes_eq e.tx.id tx.id)) (get rest) =
          subst (Added (get m) (len m) m.max_size tx (not (bytes_eq e.tx.id tx.id))) (sym left) (
            full e.tx absent (ground (arith, ltb→lt m.max_size (len g) over, grown.count))
              (ap (λ f. f e.tx.id) (sym pool) ∙ held) least) in
        let bound : len rest ≤ rest.max_size =
          omega (arith, w.count, w.max_size, grown.count, p.bound) in
        elim (Bool-cases (bytes_eq e.tx.id tx.id)) [
          | inl own ↦ (
            false,
            rest,
            rw (add, fresh, over, ran, own) refl,
            record { consistent = w.consistent; bound = bound },
            rw own at spec,
            (w.new_txs, w.pending, omega (arith, w.count, grown.count)),
          )
          | inr other ↦ (
            true,
            (announce rest tx).1,
            rw (add, fresh, over, ran, other) refl,
            record {
              consistent = queue-IsConsistent rest (rest.new_txs ++ tx ∷ []) true w.consistent;
              bound = bound;
            },
            rw other at spec,
            (ap (λ l. l ++ tx ∷ []) w.new_txs, refl),
          )
        ]

  -- On a mempool whose heaps are in order and within its size, Add gives a result; the set of its
  -- transactions, the result and what is announced are as Added and Announced say, and the mempool
  -- that is left is in order and within its size again.
  pub add-Added :
      (m : Mempool) (tx : Transaction)
      → IsPool m
      → (b : Bool) × (r : Mempool) × (add m tx ≡ ok (b, r))
        × IsPool r
        × Added (get m) (len m) m.max_size tx b (get r)
        × Announced m tx b r
  unfolding add
  add-Added m tx p = elim (Bool-cases (has m tx.id)) [
    | inl there ↦
        let (t, held) = has-get m tx.id there in
        (false, m, rw (add, there) refl, p, duplicate t held, (refl, refl, refl))
    | inr fresh ↦ elim (Bool-cases (ltb m.max_size (len (push_both m tx)))) [
      | inl over ↦ add-full m tx p fresh over
      | inr fits ↦ add-room m tx p fresh fits
    ]
  ]

  -- On a mempool in order that is not empty, PopMax returns a transaction that it holds, with its
  -- price, which no other transaction passes; exactly that one is gone afterwards, and the rest is in
  -- order.
  pub pop_max-greatest :
      (m : Mempool)
      → IsPool m
      → 0 < len m
      → (t : Transaction) × (r : Mempool) × (pop_max m ≡ ok (some t, price t, r))
        × IsPool r
        × (get m t.id ≡ some t)
        × ((id : Bytes) (u : Transaction) → get m id ≡ some u → price u ≤ price t)
        × (get r ≡ with (get m) t.id none)
        × (suc (len r) ≡ len m)
  pop_max-greatest m p more =
      let (e, r, ran, found, dearest, w) = pop_max-Without m p.consistent more in
      let (held, id, cost) = popped m e p.consistent found in
      (
        e.tx,
        r,
        rw cost at ran,
        record { consistent = w.consistent; bound = omega (arith, w.count, w.max_size, p.bound) },
        held,
        λ j u h. rw cost at (dearest j (entry_of u) (get-some m j u p.consistent h)),
        rw id at (get-Without m r e.id w),
        w.count,
      )
