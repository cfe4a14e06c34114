-- ===== src/Mempool/Heap.antt =====
-- mempool/tx_heap.go: the entries of a heap with the map from ids to entries, and the calls of
-- container/heap on it. An entry is known by its id: both maps hold pointers to the entries of
-- `items`, so the field `index`, which is all that changes of an entry, stands beside them, by id.
pub mod Valid
pub mod Calls
use spacesvm.Prelude.{
  ℕ, zero, suc, ◌+◌, ◌-◌, Bool, true, false, Option, none, some, List, [], ◌∷◌, ◌++◌, Bytes,
  bytes_eq, length, take, get_elem?, set_elem, ltb, leb, if◌then◌else◌,
}
use spacesvm.Errors.{Result, ok, panic, ◌>>=◌}
use spacesvm.Types.{Transaction}
use spacesvm.Mempool.Package.{HeapPackage}

pub record TxEntry : Type 0 where
  pub id : Bytes
  pub tx : Transaction
  pub price : ℕ

pub record TxHeap : Type 0 where
  pub is_min_heap : Bool
  pub items : List TxEntry
  pub lookup : Bytes → Option TxEntry
  pub index : Bytes → ℕ

abbrev pub new_tx_heap : Bool → TxHeap
new_tx_heap is_min_heap = record {
  is_min_heap = is_min_heap;
  items = [];
  lookup = λ _. none;
  index = λ _. 0;
}

abbrev pub len : TxHeap → ℕ
len h = length h.items

abbrev pub less_entries : Bool → Option TxEntry → Option TxEntry → Bool
less_entries is_min_heap (some a) (some b) =
    if is_min_heap then ltb a.price b.price else ltb b.price a.price
less_entries is_min_heap _ _ = false

-- Less; out of range, where the code panics, the package never calls it
unfoldable pub less : TxHeap → ℕ → ℕ → Bool
less h i j = less_entries h.is_min_heap (get_elem? h.items i) (get_elem? h.items j)

-- a map after a write
abbrev pub with {ℓ} : {A : Type ℓ} → (Bytes → A) → Bytes → A → Bytes → A
with f id a j = if bytes_eq id j then a else f j

-- Swap on two entries that are there
abbrev pub swap_entries : TxHeap → ℕ → ℕ → Option TxEntry → Option TxEntry → TxHeap
swap_entries h i j (some a) (some b) = record h {
  items = set_elem (set_elem h.items i b) j a;
  index = with (with h.index b.id i) a.id j;
}
swap_entries h i j _ _ = h

unfoldable pub swap : TxHeap → ℕ → ℕ → TxHeap
swap h i j = swap_entries h i j (get_elem? h.items i) (get_elem? h.items j)

unfoldable pub has : TxHeap → Bytes → Bool
has h id = elim (h.lookup id) [ none ↦ false | some _ ↦ true ]

-- Push of the heap's interface: the entry comes with an index.
unfoldable pub push : TxHeap → TxEntry → ℕ → TxHeap
unfolding has
push h entry i = if has h entry.id then h else record h {
  items = h.items ++ entry ∷ [];
  lookup = with h.lookup entry.id (some entry);
  index = with h.index entry.id i;
}

-- Pop takes the last entry out.
abbrev pub pop_entry : TxHeap → ℕ → Option TxEntry → Result (TxEntry × TxHeap)
pop_entry h n none = panic
pop_entry h n (some item) =
    ok (item, record h { items = take n h.items; lookup = with h.lookup item.id none })

unfoldable pub pop : TxHeap → Result (TxEntry × TxHeap)
pop h = if leb 1 (len h) then pop_entry h (len h - 1) (get_elem? h.items (len h - 1)) else panic

unfoldable pub run_swaps : List (ℕ × ℕ) → TxHeap → TxHeap
run_swaps [] h = h
run_swaps ((i, j) ∷ swaps) h = run_swaps swaps (swap h i j)

module _ ⦃pkg : HeapPackage⦄ where
  -- heap.Push
  unfoldable pub heap_push : TxHeap → TxEntry → ℕ → TxHeap
  heap_push h entry i =
      let pushed = push h entry i in run_swaps (pkg.push_swaps (len pushed) (less pushed)) pushed

  -- heap.Remove
  unfoldable pub heap_remove : TxHeap → ℕ → Result (TxEntry × TxHeap)
  heap_remove h i =
      if ltb i (len h) then pop (run_swaps (pkg.remove_swaps (len h) (less h) i) h) else panic
