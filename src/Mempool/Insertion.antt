-- ===== src/Mempool/Insertion.antt =====
-- Add of mempool/mempool.go, against a mempool that is only the set of its transactions.
use spacesvm.Prelude.{
  ℕ, suc, ◌<◌, ◌≤◌, ◌≡◌, sym, ap, ◌∙◌, inl, inr, Bool, true, false, not, Option, none, some, [],
  ◌∷◌, ◌++◌, Bytes, bytes_eq, arith, Option-cases,
}
use mathlib.Core.Path.{fun_ext}
use spacesvm.Types.{Transaction}
use spacesvm.Tx.{base}
use spacesvm.Mempool.{Mempool, len, get, entry_of, push_both}
use spacesvm.Mempool.Package.{HeapPackage}
use spacesvm.Mempool.Heap.{TxEntry, with}
use spacesvm.Mempool.Heap.Calls.{heap_push-Changes}
use spacesvm.Mempool.Removal.{IsConsistent, Without}

abbrev pub price : Transaction → ℕ
price tx = (base tx.unsigned).price

-- The transactions of a mempool, by their ids.
abbrev pub Pool : Type 0
Pool = Bytes → Option Transaction

-- What Add may do with a set of `size` transactions: the result, and the set after it.
pub data Added (pool : Pool) (size max_size : ℕ) (tx : Transaction) : Bool → Pool → Type 0 where
  duplicate : (t : Transaction) → pool tx.id ≡ some t → Added pool size max_size tx false pool
  room :
      pool tx.id ≡ none
      → size < max_size
      → Added pool size max_size tx true (with pool tx.id (some tx))
  full :
      (t : Transaction)
      → pool tx.id ≡ none
      → max_size ≤ size
      → with pool tx.id (some tx) t.id ≡ some t
      → ((id : Bytes) (u : Transaction) → with pool tx.id (some tx) id ≡ some u → price t ≤ price u)
      → Added pool size max_size tx
          (not (bytes_eq t.id tx.id))
          (with (with pool tx.id (some tx)) t.id none)

-- What is announced to the builder and to the gossip when Add has this result.
abbrev pub Announced : Mempool → Transaction → Bool → Mempool → Type 0
Announced m tx false r = (r.new_txs ≡ m.new_txs) × (r.pending ≡ m.pending) × (len r ≡ len m)
Announced m tx true r = (r.new_txs ≡ m.new_txs ++ tx ∷ []) × (r.pending ≡ true)

module _ ⦃pkg : HeapPackage⦄ where
  pub record IsPool (m : Mempool) : Type 0 where
    pub consistent : IsConsistent m
    pub bound : len m ≤ m.max_size

  with-faithful :
      (f : Bytes → Option TxEntry) (tx : Transaction) (id : Bytes) (e : TxEntry)
      → ((j : Bytes) (d : TxEntry) → f j ≡ some d → d ≡ entry_of d.tx)
      → with f tx.id (some (entry_of tx)) id ≡ some e
      → e ≡ entry_of e.tx
  with-faithful f tx id e old h = ground (arith, old id e)

  -- The two pushes of a transaction that is new.
  pub record Grown (m : Mempool) (tx : Transaction) (r : Mempool) : Type 0 where
    pub consistent : IsConsistent r
    pub content : r.max_heap.lookup ≡ with m.max_heap.lookup tx.id (some (entry_of tx))
    pub count : len r ≡ suc (len m)

  pub push_both-Grown :
      (m : Mempool) (tx : Transaction)
      → IsConsistent m
      → m.max_heap.lookup tx.id ≡ none
      → Grown m tx (push_both m tx)
  unfolding push_both
  push_both-Grown m tx c fresh =
      let max = heap_push-Changes m.max_heap (entry_of tx) fresh c.max in
      let fresh_min : m.min_heap.lookup tx.id ≡ none = ap (λ f. f tx.id) c.same ∙ fresh in
      let min = heap_push-Changes m.min_heap (entry_of tx) fresh_min c.min in
      let size = c.same_len in
      record {
        consistent = record {
          max = max.valid;
          min = rw size at min.valid;
          max_kind = max.kind ∙ c.max_kind;
          min_kind = rw size at (min.kind ∙ c.min_kind);
          same =
              rw size at (
                min.entries ∙ ap (λ f. with f tx.id (some (entry_of tx))) c.same ∙ sym max.entries);
          same_len = rw size at (min.count ∙ ap suc c.same_len ∙ sym max.count);
          faithful =
              λ id e h. with-faithful m.max_heap.lookup tx id e c.faithful (rw max.entries at h);
        };
        content = max.entries;
        count = max.count;
      }

  pub get-with :
      (m r : Mempool) (tx : Transaction)
      → r.max_heap.lookup ≡ with m.max_heap.lookup tx.id (some (entry_of tx))
      → get r ≡ with (get m) tx.id (some tx)
  unfolding get
  get-with m r tx e = fun_ext λ id. rw e (ground arith)

  pub get-Without : (m r : Mempool) (id : Bytes) → Without m id r → get r ≡ with (get m) id none
  unfolding get
  get-Without m r id w = fun_ext λ j. rw (w.content) (ground arith)

  -- What the mempool holds is an entry that was made for it.
  pub get-some :
      (m : Mempool) (id : Bytes) (t : Transaction)
      → IsConsistent m
      → get m id ≡ some t
      → m.max_heap.lookup id ≡ some (entry_of t)
  unfolding get
  get-some m id t c h = elim (Option-cases (m.max_heap.lookup id)) [
    | inl e ↦ absurd (ground (arith, e, h))
    | inr (d, e) ↦
        let own = c.faithful id d e in
        let same : d.tx ≡ t = ground (arith, e, h) in rw same at (rw own at e)
  ]
