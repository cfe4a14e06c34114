-- ===== src/Mempool/Pruning.antt =====
-- Prune of mempool/mempool.go.
use spacesvm.Prelude.{
  ℕ, zero, suc, ◌≡◌, ◌↔◌, refl, ap, ◌∙◌, inl, inr, Bool, true, false, Option, none, some, List, [],
  ◌∷◌, Bytes, bytes_eq, bytes_eq→eq, bytes_eq_self, get_elem?, arith, Bool-cases, Option-cases,
  if◌then◌else◌,
}
use spacesvm.Errors.{ok}
use spacesvm.Types.{Transaction}
use spacesvm.Tx.{base, contains_id}
use spacesvm.Mempool.{Mempool, get, entry_of, remove, to_remove, remove_all, prune}
use spacesvm.Mempool.Package.{HeapPackage}
use spacesvm.Mempool.Heap.{TxEntry}
use spacesvm.Mempool.Removal.{Shrinks, Without-Shrinks, remove-Without, remove-missing}
use spacesvm.Mempool.Insertion.{IsPool, get-Without, get-some}

-- the id of the recent block that a transaction names
abbrev pub named_block : Transaction → Bytes
named_block tx = (base tx.unsigned).block_id

in-to_remove :
    (valid : List Bytes) (items : List TxEntry) (k : ℕ) (e : TxEntry)
    → get_elem? items k ≡ some e
    → contains_id valid (named_block e.tx) ≡ false
    → contains_id (to_remove valid items) e.id ≡ true
unfolding to_remove contains_id
in-to_remove valid (d ∷ l) zero e h bad = ground (arith, bytes_eq_self e.id)
in-to_remove valid (d ∷ l) (suc k) e h bad = ground (arith, in-to_remove valid l k e h bad)
in-to_remove valid [] k e h bad = absurd (cc)

to_remove-in :
    (valid : List Bytes) (items : List TxEntry) (id : Bytes)
    → contains_id (to_remove valid items) id ≡ true
    → (k : ℕ) × (e : TxEntry) × (get_elem? items k ≡ some e)
      × (e.id ≡ id)
      × (contains_id valid (named_block e.tx) ≡ false)
to_remove-in valid [] id h = absurd (unfold to_remove contains_id in (cc))
to_remove-in valid (d ∷ l) id h =
    split (to_remove-in valid l id) (contains_id valid (named_block d.tx)) refl (bytes_eq d.id id)
      refl
  where
    Culprit : List TxEntry → Type 0
    Culprit items =
        (k : ℕ) × (e : TxEntry) × (get_elem? items k ≡ some e)
        × (e.id ≡ id)
        × (contains_id valid (named_block e.tx) ≡ false)

    later : Culprit l → Culprit (d ∷ l)
    later (k, e, g, i, b) = (suc k, e, g, i, b)

    split :
        (contains_id (to_remove valid l) id ≡ true → Culprit l)
        → (b : Bool) → contains_id valid (named_block d.tx) ≡ b
        → (c : Bool) → bytes_eq d.id id ≡ c
        → Culprit (d ∷ l)
    split rest true e c f = later (rest (unfold to_remove contains_id in ground (arith, h, e)))
    split rest false e true f = (0, d, refl, bytes_eq→eq d.id id f, e)
    split rest false e false f =
        later (rest (unfold to_remove contains_id in ground (arith, h, e, f)))

module _ ⦃pkg : HeapPackage⦄ where
  -- the mempool without some ids
  abbrev Thinned : Mempool → List Bytes → Mempool → Type 0
  Thinned m ids r = (id : Bytes) → get r id ≡ (if contains_id ids id then none else get m id)

  pub remove_one :
      (m : Mempool) (id : Bytes)
      → IsPool m
      → (t : Option Transaction) × (r : Mempool) × (remove m id ≡ ok (t, r))
        × IsPool r
        × ((j : Bytes) → get r j ≡ (if bytes_eq id j then none else get m j))
        × Shrinks m r
  unfolding get
  remove_one m id p = elim (Option-cases (m.max_heap.lookup id)) [
    | inl missing ↦ (
      none,
      m,
      remove-missing m id missing,
      p,
      λ j. ground (arith, missing, bytes_eq→eq id j),
      (omega arith, refl),
    )
    | inr (e, found) ↦
        let (r, ran, w) = remove-Without m id e p.consistent found in
        (
          some e.tx,
          r,
          ran,
          record { consistent = w.consistent; bound = omega (arith, w.count, w.max_size, p.bound) },
          λ j. ap (λ f. f j) (get-Without m r id w),
          Without-Shrinks m id r w,
        )
  ]

  remove_all-Thinned :
      (ids : List Bytes) (m : Mempool)
      → IsPool m
      → (r : Mempool) × (remove_all m ids ≡ ok r) × IsPool r × Thinned m ids r × Shrinks m r
  unfolding remove_all contains_id
  remove_all-Thinned [] m p = (m, refl, p, λ id. refl, (omega arith, refl))
  remove_all-Thinned (x ∷ ids) m p =
      let (t, rest, ran, q, one, less) = remove_one m x p in
      let (r, ran_all, s, all, fewer) = remove_all-Thinned ids rest q in
      (
        r,
        rw (ran, ran_all) refl,
        s,
        λ id. ground (arith, one id, all id),
        (omega (arith, less.0, fewer.0), fewer.1 ∙ less.1),
      )

  prune-kept :
      (m r : Mempool) (valid : List Bytes)
      → IsPool m
      → Thinned m (to_remove valid m.max_heap.items) r
      → (id : Bytes) (t : Transaction) → get r id ≡ some t
      → (get m id ≡ some t) × (contains_id valid (named_block t) ≡ true)
  prune-kept m r valid p thin id t h =
      let held : get m id ≡ some t = ground (arith, thin id, h) in
      let found = get-some m id t p.consistent held in
      let (own, there) = p.consistent.max.linked.known id (entry_of t) found in
      (
        held,
        elim (Bool-cases (contains_id valid (named_block t))) [
          | inl good ↦ good
          | inr bad ↦
              let gone =
                in-to_remove valid m.max_heap.items (m.max_heap.index id) (entry_of t) there bad in
              absurd (ground (arith, thin id, h, gone, own))
        ],
      )

  prune-keeps :
      (m r : Mempool) (valid : List Bytes)
      → IsPool m
      → Thinned m (to_remove valid m.max_heap.items) r
      → (id : Bytes) (t : Transaction) → get m id ≡ some t
      → contains_id valid (named_block t) ≡ true
      → get r id ≡ some t
  prune-keeps m r valid p thin id t held good =
      elim (Bool-cases (contains_id (to_remove valid m.max_heap.items) id)) [
        | inl gone ↦
            let (k, e, there, own, bad) = to_remove-in valid m.max_heap.items id gone in
            let found = (p.consistent.max.linked.at k e there).0 in
            let other = get-some m id t p.consistent held in
            let same : e ≡ entry_of t = ground (arith, found, own, other) in
            absurd (ground (arith, same, bad, good))
        | inr stays ↦ thin id ∙ rw stays held
      ]

  -- On a mempool in order Prune ends, and afterwards a transaction is in it exactly when it was before
  -- and the block that it names is one of the given ones; the mempool stays in order.
  pub prune-exact :
      (m : Mempool) (valid : List Bytes)
      → IsPool m
      → (r : Mempool) × (prune m valid ≡ ok r)
        × IsPool r
        × ((id : Bytes) (t : Transaction)
            → (get r id ≡ some t)
              ↔ ((get m id ≡ some t) × (contains_id valid (named_block t) ≡ true)))
  unfolding prune
  prune-exact m valid p =
      let (r, ran, q, thin, _) = remove_all-Thinned (to_remove valid m.max_heap.items) m p in
      (
        r,
        ran,
        q,
        λ id t. (
          prune-kept m r valid p thin id t,
          λ (held, good). prune-keeps m r valid p thin id t held good,
        ),
      )

  pub prune-Shrinks :
      (m : Mempool) (valid : List Bytes)
      → IsPool m
      → (r : Mempool) × (prune m valid ≡ ok r) × IsPool r × Shrinks m r
  unfolding prune
  prune-Shrinks m valid p =
      let (r, ran, q, _, less) = remove_all-Thinned (to_remove valid m.max_heap.items) m p in
      (r, ran, q, less)
