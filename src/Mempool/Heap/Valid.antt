-- ===== src/Mempool/Heap/Valid.antt =====
-- The maps of a heap of mempool/tx_heap.go agree with its entries, through every swap, push and pop.
use spacesvm.Prelude.{
  ℕ, ◌<◌, ◌≡◌, refl, ◌∙◌, Bool, true, false, Option, none, some, List, [], ◌∷◌, Bytes, bytes_eq→eq,
  bytes_eq_self, get_elem?, set_elem, get_elem-set_elem, length-set_elem, get_elem-exists, arith,
}
use mathlib.Core.Path.{fun_ext}
use spacesvm.Mempool.Package.{origin, InRange, moved, IsOrder}
use spacesvm.Mempool.Heap.{
  TxEntry, TxHeap, len, less_entries, less, with, swap_entries, swap, run_swaps,
}

-- Each entry is found under its id with its place, and what is found is an entry.
pub record IsLinked (h : TxHeap) : Type 0 where
  pub at :
      (k : ℕ) (e : TxEntry)
      → get_elem? h.items k ≡ some e
      → (h.lookup e.id ≡ some e) × (h.index e.id ≡ k)
  pub known :
      (id : Bytes) (e : TxEntry)
      → h.lookup id ≡ some e
      → (e.id ≡ id) × (get_elem? h.items (h.index id) ≡ some e)

get_elem-swap :
    (h : TxHeap) (i j k : ℕ)
    → i < len h
    → j < len h
    → get_elem? (swap h i j).items k ≡ get_elem? h.items (origin ((i, j) ∷ []) k)
unfolding swap
get_elem-swap h i j k bi bj =
    let (a, ea) = get_elem-exists h.items i bi in
    let (b, eb) = get_elem-exists h.items j bj in
    let first = get_elem-set_elem h.items i b in
    let second = get_elem-set_elem (set_elem h.items i b) j a k in
    ground (arith, second, first k, length-set_elem h.items i b)

swap_entries-IsLinked :
    (h : TxHeap) (i j : ℕ) (a b : TxEntry)
    → get_elem? h.items i ≡ some a
    → get_elem? h.items j ≡ some b
    → i < len h
    → j < len h
    → IsLinked h
    → IsLinked (swap_entries h i j (some a) (some b))
swap_entries-IsLinked h i j a b ea eb bi bj l =
    let (at_i, index_i) = l.at i a ea in
    let (at_j, index_j) = l.at j b eb in
    record {
      at = λ k e g. ground (
        arith,
        get_elem-set_elem (set_elem h.items i b) j a k,
        get_elem-set_elem h.items i b k,
        length-set_elem h.items i b,
        l.at k e,
        bytes_eq→eq a.id e.id,
        bytes_eq→eq b.id e.id,
        bytes_eq_self e.id,
      );
      known = λ id e g. ground (
        arith,
        get_elem-set_elem (set_elem h.items i b) j a (with (with h.index b.id i) a.id j id),
        get_elem-set_elem h.items i b (with (with h.index b.id i) a.id j id),
        length-set_elem h.items i b,
        l.known id e g,
        bytes_eq→eq a.id id,
        bytes_eq→eq b.id id,
        bytes_eq_self id,
      );
    }

swap-IsLinked : (h : TxHeap) (i j : ℕ) → i < len h → j < len h → IsLinked h → IsLinked (swap h i j)
unfolding swap
swap-IsLinked h i j bi bj l =
    let (a, ea) = get_elem-exists h.items i bi in
    let (b, eb) = get_elem-exists h.items j bj in
    rw (ea, eb) (swap_entries-IsLinked h i j a b ea eb bi bj l)

-- What a swap leaves alone.
abbrev pub Keeps : TxHeap → TxHeap → Type 0
Keeps h m = (len m ≡ len h) × (m.lookup ≡ h.lookup) × (m.is_min_heap ≡ h.is_min_heap)

swap_entries-Keeps :
    (h : TxHeap) (i j : ℕ) (a b : Option TxEntry) → Keeps h (swap_entries h i j a b)
swap_entries-Keeps h i j none b = (refl, refl, refl)
swap_entries-Keeps h i j (some a) none = (refl, refl, refl)
swap_entries-Keeps h i j (some a) (some b) =
    (length-set_elem (set_elem h.items i b) j a ∙ length-set_elem h.items i b, refl, refl)

swap-Keeps : (h : TxHeap) (i j : ℕ) → Keeps h (swap h i j)
unfolding swap
swap-Keeps h i j = swap_entries-Keeps h i j (get_elem? h.items i) (get_elem? h.items j)

pub run_swaps-Keeps : (swaps : List (ℕ × ℕ)) (h : TxHeap) → Keeps h (run_swaps swaps h)
unfolding run_swaps
run_swaps-Keeps [] h = (refl, refl, refl)
run_swaps-Keeps ((i, j) ∷ swaps) h =
    let first = swap-Keeps h i j in
    let rest = run_swaps-Keeps swaps (swap h i j) in
    (rest.0 ∙ first.0, rest.1 ∙ first.1, rest.2 ∙ first.2)

pub get_elem-run_swaps :
    (swaps : List (ℕ × ℕ)) (h : TxHeap) (k : ℕ)
    → InRange (len h) swaps
    → get_elem? (run_swaps swaps h).items k ≡ get_elem? h.items (origin swaps k)
unfolding run_swaps
get_elem-run_swaps [] h k r = refl
get_elem-run_swaps ((i, j) ∷ swaps) h k r =
    let same = (swap-Keeps h i j).0 in
    get_elem-run_swaps swaps (swap h i j) k (rw same r.2)
    ∙ get_elem-swap h i j (origin swaps k) r.0 r.1

pub run_swaps-IsLinked :
    (swaps : List (ℕ × ℕ)) (h : TxHeap)
    → InRange (len h) swaps
    → IsLinked h
    → IsLinked (run_swaps swaps h)
unfolding run_swaps
run_swaps-IsLinked [] h r l = l
run_swaps-IsLinked ((i, j) ∷ swaps) h r l =
    let same = (swap-Keeps h i j).0 in
    run_swaps-IsLinked swaps (swap h i j) (rw same r.2) (swap-IsLinked h i j r.0 r.1 l)

-- After the swaps the entries compare as those that stood there before.
pub less-run_swaps :
    (swaps : List (ℕ × ℕ)) (h : TxHeap)
    → InRange (len h) swaps
    → less (run_swaps swaps h) ≡ moved swaps (less h)
unfolding less
less-run_swaps swaps h r =
    let kind = (run_swaps-Keeps swaps h).2 in
    fun_ext λ i.
      fun_ext λ j. rw (kind, get_elem-run_swaps swaps h i r, get_elem-run_swaps swaps h j r) refl

-- The prices order the entries.
less_entries-negative_trans :
    (m : Bool) (a c : Option TxEntry) (b : TxEntry)
    → less_entries m a (some b) ≡ false
    → less_entries m (some b) c ≡ false
    → less_entries m a c ≡ false
less_entries-negative_trans m none c b h k = refl
less_entries-negative_trans m (some a) none b h k = refl
less_entries-negative_trans m (some a) (some c) b h k = ground arith

pub less-IsOrder : (h : TxHeap) → IsOrder (len h) (less h)
unfolding less
less-IsOrder h = record {
  irreflexive = λ i. self (get_elem? h.items i);
  asymmetric = λ i j. other (get_elem? h.items i) (get_elem? h.items j);
  negative_trans = λ i j k b p q.
      let (e, g) = get_elem-exists h.items j b in
      less_entries-negative_trans h.is_min_heap (get_elem? h.items i) (get_elem? h.items k) e
        (rw g at p) (rw g at q);
}
  where
    self : (a : Option TxEntry) → less_entries h.is_min_heap a a ≡ false
    self none = refl
    self (some a) = ground arith

    other :
        (a b : Option TxEntry)
        → less_entries h.is_min_heap a b ≡ true
        → less_entries h.is_min_heap b a ≡ false
    other none b p = absurd (cc)
    other (some a) none p = refl
    other (some a) (some b) p = ground arith
