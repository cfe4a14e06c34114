-- ===== src/Mempool/Heap/Calls.antt =====
-- heap.Push and heap.Remove of container/heap on a heap of mempool/tx_heap.go.
use spacesvm.Prelude.{
  ℕ, suc, ◌-◌, ◌<◌, ◌≡◌, refl, ap, ◌∙◌, true, false, Option, none, some, List, [], ◌∷◌, ◌++◌, Bytes,
  bytes_eq→eq, bytes_eq_self, take, get_elem?, get_elem-append_one, get_elem-take, get_elem-bound,
  length-append, length-take, lt→ltb, leb, arith,
}
use spacesvm.Errors.{ok}
use spacesvm.Mempool.Package.{origin, InRange, moved, IsOrder, HeapPackage}
use spacesvm.Mempool.Heap.{
  TxEntry, TxHeap, len, less, with, has, push, pop, run_swaps, heap_push, heap_remove,
}
use spacesvm.Mempool.Heap.Valid.{
  IsLinked, less-IsOrder, run_swaps-Keeps, get_elem-run_swaps, run_swaps-IsLinked, less-run_swaps,
}

push-IsLinked :
    (h : TxHeap) (entry : TxEntry)
    → h.lookup entry.id ≡ none
    → IsLinked h
    → IsLinked (push h entry (len h))
unfolding push has
push-IsLinked h entry new l = record {
  at = λ k e g. ground (
    arith,
    new,
    get_elem-append_one h.items entry k,
    l.at k e,
    get_elem-bound h.items k e,
    bytes_eq→eq entry.id e.id,
    bytes_eq_self e.id,
  );
  known = λ id e g. ground (
    arith,
    new,
    get_elem-append_one h.items entry (h.index id),
    get_elem-append_one h.items entry (len h),
    l.known id e,
    get_elem-bound h.items (h.index id) e,
    bytes_eq→eq entry.id id,
  );
}

pop_entry-IsLinked :
    (h : TxHeap) (n : ℕ) (item : TxEntry)
    → len h ≡ suc n
    → get_elem? h.items n ≡ some item
    → IsLinked h
    → IsLinked (record h { items = take n h.items; lookup = with h.lookup item.id none })
pop_entry-IsLinked h n item size last l = record {
  at = λ k e g.
      ground
        (arith, get_elem-take n h.items k, l.at k e, l.at n item last, bytes_eq→eq item.id e.id);
  known = λ id e g. ground (
    arith,
    get_elem-take n h.items (h.index id),
    l.known id e,
    get_elem-bound h.items (h.index id) e,
    bytes_eq→eq item.id id,
    bytes_eq_self id,
  );
}

-- A push of an entry whose id is new.
abbrev grown : TxHeap → TxEntry → ℕ → TxHeap
grown h entry i = record h {
  items = h.items ++ entry ∷ [];
  lookup = with h.lookup entry.id (some entry);
  index = with h.index entry.id i;
}

push-grown :
    (h : TxHeap) (entry : TxEntry) (i : ℕ)
    → h.lookup entry.id ≡ none
    → push h entry i ≡ grown h entry i
unfolding push has
push-grown h entry i new =
    let fresh : has h entry.id ≡ false = rw (has, new) refl in rw (push, fresh) refl

pop_lem :
    (h : TxHeap) (n : ℕ) (e : TxEntry)
    → len h ≡ suc n
    → get_elem? h.items n ≡ some e
    → pop h ≡ ok (e, record h { items = take n h.items; lookup = with h.lookup e.id none })
unfolding pop
pop_lem h n e size last =
    let minus : len h - 1 ≡ n = omega arith in
    let more : leb 1 (len h) ≡ true = ground arith in rw (pop, more, minus, last) refl

-- What a push of a new entry does to the heap's slice and map.
push_new :
    (h : TxHeap) (entry : TxEntry) (i : ℕ)
    → h.lookup entry.id ≡ none
    → (len (push h entry i) ≡ suc (len h))
      × ((push h entry i).lookup ≡ with h.lookup entry.id (some entry))
      × ((push h entry i).is_min_heap ≡ h.is_min_heap)
push_new h entry i new =
    rw (push-grown h entry i new) (omega (arith, length-append h.items (entry ∷ [])), refl, refl)

less-push :
    (h : TxHeap) (entry : TxEntry) (i j k : ℕ)
    → h.lookup entry.id ≡ none
    → j < len h
    → k < len h
    → less h j k ≡ less (push h entry i) j k
unfolding less
less-push h entry i j k new bj bk =
    let at_j : get_elem? (h.items ++ entry ∷ []) j ≡ get_elem? h.items j =
      ground (arith, get_elem-append_one h.items entry j) in
    let at_k : get_elem? (h.items ++ entry ∷ []) k ≡ get_elem? h.items k =
      ground (arith, get_elem-append_one h.items entry k) in
    rw (push-grown h entry i new, at_j, at_k) refl

less-take :
    (h : TxHeap) (n : ℕ) (f : Bytes → Option TxEntry) (j k : ℕ)
    → j < n
    → k < n
    → less h j k ≡ less (record h { items = take n h.items; lookup = f }) j k
unfolding less
less-take h n f j k bj bk =
    let at_j : get_elem? (take n h.items) j ≡ get_elem? h.items j =
      ground (arith, get_elem-take n h.items j) in
    let at_k : get_elem? (take n h.items) k ≡ get_elem? h.items k =
      ground (arith, get_elem-take n h.items k) in
    rw (at_j, at_k) refl

module _ ⦃pkg : HeapPackage⦄ where
  pub record IsValid (h : TxHeap) : Type 0 where
    pub linked : IsLinked h
    pub heap : pkg.IsHeap (len h) (less h)

  -- How a heap changes: its entries, as a map and by their number.
  pub record Changes (h : TxHeap) (lookup : Bytes → Option TxEntry) (size : ℕ) (m : TxHeap)
      : Type 0 where
    pub valid : IsValid m
    pub entries : m.lookup ≡ lookup
    pub count : len m ≡ size
    pub kind : m.is_min_heap ≡ h.is_min_heap

  run_swaps-Changes :
      (swaps : List (ℕ × ℕ)) (h : TxHeap)
      → InRange (len h) swaps
      → IsLinked h
      → pkg.IsHeap (len h) (moved swaps (less h))
      → Changes h h.lookup (len h) (run_swaps swaps h)
  run_swaps-Changes swaps h r l heap =
      let keeps = run_swaps-Keeps swaps h in
      record {
        valid = record {
          linked = run_swaps-IsLinked swaps h r l;
          heap = rw (keeps.0, less-run_swaps swaps h r) heap;
        };
        entries = keeps.1;
        count = keeps.0;
        kind = keeps.2;
      }

  pub heap_push-Changes :
      (h : TxHeap) (entry : TxEntry)
      → h.lookup entry.id ≡ none
      → IsValid h
      → Changes h (with h.lookup entry.id (some entry)) (suc (len h)) (heap_push h entry (len h))
  unfolding heap_push
  heap_push-Changes h entry new v =
      let p = push h entry (len h) in
      let (size, map, kind) = push_new h entry (len h) new in
      let swaps = pkg.push_swaps (len p) (less p) in
      let before : pkg.IsHeap (len h) (less p) =
        pkg.IsHeap-agree (len h) (less h) (less p) (λ i j. less-push h entry (len h) i j new)
          v.heap in
      let order : IsOrder (suc (len h)) (less p) = rw size at (less-IsOrder p) in
      let after_swaps : pkg.IsHeap (len p) (moved swaps (less p)) =
        rw size (pkg.push_swaps-IsHeap (len h) (less p) order before) in
      let done =
        run_swaps-Changes swaps p (pkg.push_swaps-InRange (len p) (less p))
          (push-IsLinked h entry new v.linked) after_swaps in
      record {
        valid = done.valid;
        entries = done.entries ∙ map;
        count = done.count ∙ size;
        kind = done.kind ∙ kind;
      }

  pub heap_remove-Changes :
      (h : TxHeap) (n i : ℕ) (e : TxEntry)
      → len h ≡ suc n
      → get_elem? h.items i ≡ some e
      → IsValid h
      → (m : TxHeap) × (heap_remove h i ≡ ok (e, m)) × Changes h (with h.lookup e.id none) n m
  unfolding heap_remove
  heap_remove-Changes h n i e size found v =
      let within = get_elem-bound h.items i e found in
      let swaps = pkg.remove_swaps (len h) (less h) i in
      let r = pkg.remove_swaps-InRange (len h) (less h) i within in
      let m = run_swaps swaps h in
      let keeps = run_swaps-Keeps swaps h in
      let end : origin swaps n ≡ i = rw size (pkg.remove_swaps-last n (less h) i (omega arith)) in
      let last : get_elem? m.items n ≡ some e =
        get_elem-run_swaps swaps h n r ∙ ap (get_elem? h.items) end ∙ found in
      let out = record m { items = take n m.items; lookup = with m.lookup e.id none } in
      let heap_left : pkg.IsHeap n (less m) =
        rw (less-run_swaps swaps h r, size)
          (pkg.remove_swaps-IsHeap n (less h) i (rw size at (less-IsOrder h)) (rw size at v.heap)
            (omega arith)) in
      let size_left : len out ≡ n = length-take n m.items (omega (arith, keeps.0)) in
      (
        out,
        rw (lt→ltb i (len h) within) (pop_lem m n e (keeps.0 ∙ size) last),
        record {
          valid = record {
            linked =
                pop_entry-IsLinked m n e (keeps.0 ∙ size) last
                  (run_swaps-IsLinked swaps h r v.linked);
            heap = rw size_left (
                pkg.IsHeap-agree n (less m) (less out) (λ j k. less-take m n out.lookup j k)
                  heap_left);
          };
          entries = ap (λ f. with f e.id none) keeps.1;
          count = size_left;
          kind = keeps.2;
        },
      )
