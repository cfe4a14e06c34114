-- ===== src/Mempool/Run.antt =====
-- The mempool of mempool/mempool.go through any run of its operations.
use spacesvm.Prelude.{
  get_elem?, length, subst, ℕ, ◌<◌, ◌≡◌, refl, sym, ap, ◌∙◌, ◌⊎◌, inl, inr, Bool, true, false,
  Option, List, [], ◌∷◌, Bytes, arith,
}
use spacesvm.Errors.{ok, bind-ok}
use spacesvm.Types.{Transaction}
use spacesvm.Genesis.{Genesis}
use spacesvm.Mempool.{
  Mempool, new, len, root_entry, root, add, remove, pop_max, pop_min, prune, select, take_new_txs,
}
use spacesvm.Mempool.Package.{HeapPackage}
use spacesvm.Mempool.Heap.{TxEntry, TxHeap, new_tx_heap}
use spacesvm.Mempool.Heap
use spacesvm.Mempool.Heap.Calls.{IsValid}
use spacesvm.Mempool.Removal.{Without, Shrinks, Without-Shrinks, queue-IsConsistent}
use spacesvm.Mempool.Insertion.{IsPool, Announced}
use spacesvm.Mempool.Refinement.{add-Added}
use spacesvm.Mempool.Orders.{pop_max-Without, pop_min-Without}
use spacesvm.Mempool.Pruning.{remove_one, prune-Shrinks}

module _ ⦃pkg : HeapPackage⦄ where
  -- An operation that returned.
  pub data Step (m : Mempool) : Mempool → Type 0 where
    add_step : (tx : Transaction) (b : Bool) (r : Mempool) → add m tx ≡ ok (b, r) → Step m r
    remove_step :
        (id : Bytes) (t : Option Transaction) (r : Mempool) → remove m id ≡ ok (t, r) → Step m r
    pop_max_step :
        (t : Option Transaction) (n : ℕ) (r : Mempool) → pop_max m ≡ ok (t, n, r) → Step m r
    pop_min_step :
        (t : Option Transaction) (n : ℕ) (r : Mempool) → pop_min m ≡ ok (t, n, r) → Step m r
    prune_step : (valid : List Bytes) (r : Mempool) → prune m valid ≡ ok r → Step m r
    new_txs_step :
        (max_units : ℕ) (txs : List Transaction) (r : Mempool)
        → take_new_txs m max_units ≡ ok (txs, r)
        → Step m r

  pub data Reach (g : Genesis) (max_size : ℕ) : Mempool → Type 0 where
    start : Reach g max_size (new g max_size)
    next : (m r : Mempool) → Reach g max_size m → Step m r → Reach g max_size r

  new_tx_heap-IsValid : (is_min_heap : Bool) → IsValid (new_tx_heap is_min_heap)
  new_tx_heap-IsValid b = record {
    linked = record { at = λ k e h. absurd (cc); known = λ id e h. absurd (cc) };
    heap = pkg.IsHeap-zero (Heap.less (new_tx_heap b));
  }

  pub new-IsPool : (g : Genesis) (max_size : ℕ) → IsPool (new g max_size)
  new-IsPool g max_size = record {
    consistent = record {
      max = new_tx_heap-IsValid false;
      min = new_tx_heap-IsValid true;
      max_kind = refl;
      min_kind = refl;
      same = refl;
      same_len = refl;
      faithful = λ id e h. absurd (cc);
    };
    bound = omega arith;
  }

  ok-same : {A : Type 0} (x y : A) → ok x ≡ ok y → x ≡ y
  ok-same x y h = cc

  -- A pop that returned found a root.
  root-more : (h : TxHeap) (e : TxEntry) → root h ≡ ok e → 0 < Heap.len h
  unfolding root
  root-more h e r = split h.items r
    where
      split : (l : List TxEntry) → root_entry (get_elem? l 0) ≡ ok e → 0 < length l
      split [] r = absurd (cc)
      split (x ∷ l) r = omega arith

  -- What a step may not do to the signal for the builder: clear it, or fill a mempool without it.
  pub record Wakes (m r : Mempool) : Type 0 where
    pub kept : m.pending ≡ true → r.pending ≡ true
    pub told : 0 < len r → (0 < len m) ⊎ (r.pending ≡ true)

  abbrev pub Effect : Mempool → Mempool → Type 0
  Effect m r = IsPool r × Wakes m r

  Shrinks-Wakes : (m r : Mempool) → Shrinks m r → Wakes m r
  Shrinks-Wakes m r (fewer, signal) = record {
    kept = λ h. signal ∙ h;
    told = λ h. inl (omega arith);
  }

  Announced-Wakes :
      (m : Mempool) (tx : Transaction) (b : Bool) (r : Mempool) → Announced m tx b r → Wakes m r
  Announced-Wakes m tx false r (_, signal, size) = Shrinks-Wakes m r (omega arith, signal)
  Announced-Wakes m tx true r (_, signal) = record { kept = λ h. signal; told = λ h. inr signal }

  Without-Effect : (m : Mempool) (id : Bytes) (r : Mempool) → IsPool m → Without m id r → Effect m r
  Without-Effect m id r p w = (
    record { consistent = w.consistent; bound = omega (arith, w.count, w.max_size, p.bound) },
    Shrinks-Wakes m r (Without-Shrinks m id r w),
  )

  pub Step-Effect : (m r : Mempool) → IsPool m → Step m r → Effect m r
  unfolding pop_max pop_min take_new_txs
  Step-Effect m r p (add_step tx b r' h) =
      let (c, s, ran, q, _, told) = add-Added m tx p in
      let same : s ≡ r = ap (λ x. x.1) (ok-same (c, s) (b, r) (sym ran ∙ h)) in
      subst (Effect m) same (q, Announced-Wakes m tx c s told)
  Step-Effect m r p (remove_step id t r' h) =
      let (u, s, ran, q, _, fewer) = remove_one m id p in
      let same : s ≡ r = ap (λ x. x.1) (ok-same (u, s) (t, r) (sym ran ∙ h)) in
      subst (Effect m) same (q, Shrinks-Wakes m s fewer)
  Step-Effect m r p (pop_max_step t n r' h) =
      let (e, top, _) = bind-ok (root m.max_heap) _ (t, n, r) h in
      let (d, s, ran, _, _, w) = pop_max-Without m p.consistent (root-more m.max_heap e top) in
      let same : s ≡ r = ap (λ x. x.2) (ok-same _ (t, n, r) (sym ran ∙ h)) in
      subst (Effect m) same (Without-Effect m d.id s p w)
  Step-Effect m r p (pop_min_step t n r' h) =
      let (e, top, _) = bind-ok (root m.min_heap) _ (t, n, r) h in
      let more : 0 < len m = rw p.consistent.same_len at (root-more m.min_heap e top) in
      let (d, s, ran, _, _, w) = pop_min-Without m p.consistent more in
      let same : s ≡ r = ap (λ x. x.2) (ok-same _ (t, n, r) (sym ran ∙ h)) in
      subst (Effect m) same (Without-Effect m d.id s p w)
  Step-Effect m r p (prune_step valid r' h) =
      let (s, ran, q, fewer) = prune-Shrinks m valid p in
      subst (Effect m) (ok-same s r (sym ran ∙ h)) (q, Shrinks-Wakes m s fewer)
  Step-Effect m r p (new_txs_step max_units txs r' h) =
      let ((s, left), ran, done) = bind-ok (select m max_units 0 m.new_txs) _ (txs, r) h in
      let same : record m { new_txs = left } ≡ r = ap (λ x. x.1) (ok-same _ (txs, r) done) in
      subst (Effect m) same (
        record { consistent = queue-IsConsistent m left m.pending p.consistent; bound = p.bound },
        Shrinks-Wakes m (record m { new_txs = left }) (omega arith, refl),
      )

  pub step-IsPool : (m r : Mempool) → IsPool m → Step m r → IsPool r
  step-IsPool m r p s = (Step-Effect m r p s).0

  -- Every mempool that New and any run of the operations lead to is in order: both heaps are heaps
  -- over the same transactions, linked with their maps, and no more than its size are in it.
  pub reach-IsPool : (g : Genesis) (max_size : ℕ) (m : Mempool) → Reach g max_size m → IsPool m
  reach-IsPool g max_size m start = new-IsPool g max_size
  reach-IsPool g max_size m (next m' r run step) =
      step-IsPool m' m (reach-IsPool g max_size m' run) step
