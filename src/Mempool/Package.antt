-- ===== src/Mempool/Package.antt =====
-- container/heap of Go's library, seen by its users. It knows a collection only through Len, Less and
-- Swap, so Push and Remove are lists of swaps that it decides on; the laws are the package's
-- documentation: the root of a heap is a minimum, Push and Remove keep a heap, and what Remove takes
-- out, which it moves to the end first, is the element at the given index.
pub mod Sample
use spacesvm.Prelude.{
  ℕ, zero, suc, ◌-◌, ◌<◌, ◌≡◌, ◌⊎◌, Bool, true, false, List, [], ◌∷◌, ◌==◌, if◌then◌else◌,
}

-- Where the element that stands at `k` after the swaps stood before them.
abbrev pub origin : List (ℕ × ℕ) → ℕ → ℕ
origin [] k = k
origin ((i, j) ∷ swaps) k = let m = origin swaps k in if m == i then j else if m == j then i else m

abbrev pub InRange : ℕ → List (ℕ × ℕ) → Type 0
InRange n [] = Unit
InRange n ((i, j) ∷ swaps) = (i < n) × (j < n) × InRange n swaps

-- The comparison after the swaps.
abbrev pub moved : List (ℕ × ℕ) → (ℕ → ℕ → Bool) → ℕ → ℕ → Bool
moved swaps less i j = less (origin swaps i) (origin swaps j)

-- What sort.Interface asks of Less, on a collection of `n` elements.
pub record IsOrder (n : ℕ) (less : ℕ → ℕ → Bool) : Type 0 where
  pub irreflexive : (i : ℕ) → less i i ≡ false
  pub asymmetric : (i j : ℕ) → less i j ≡ true → less j i ≡ false
  pub negative_trans : (i j k : ℕ) → j < n → less i j ≡ false → less j k ≡ false → less i k ≡ false

pub record HeapPackage : Type 1 where
  pub push_swaps : ℕ → (ℕ → ℕ → Bool) → List (ℕ × ℕ)
  pub remove_swaps : ℕ → (ℕ → ℕ → Bool) → ℕ → List (ℕ × ℕ)
  -- the first `n` elements are a heap
  pub IsHeap : ℕ → (ℕ → ℕ → Bool) → Type 0
  pub IsHeap-zero : (less : ℕ → ℕ → Bool) → IsHeap 0 less
  pub IsHeap-agree :
      (n : ℕ) (less more : ℕ → ℕ → Bool)
      → ((i j : ℕ) → i < n → j < n → less i j ≡ more i j)
      → IsHeap n less
      → IsHeap n more
  pub root_least : (n : ℕ) (less : ℕ → ℕ → Bool) (k : ℕ) → IsHeap n less → k < n → less k 0 ≡ false
  pub push_swaps-InRange : (n : ℕ) (less : ℕ → ℕ → Bool) → InRange n (push_swaps n less)
  pub push_swaps-IsHeap :
      (n : ℕ) (less : ℕ → ℕ → Bool)
      → IsOrder (suc n) less
      → IsHeap n less
      → IsHeap (suc n) (moved (push_swaps (suc n) less) less)
  pub remove_swaps-InRange :
      (n : ℕ) (less : ℕ → ℕ → Bool) (i : ℕ) → i < n → InRange n (remove_swaps n less i)
  pub remove_swaps-last :
      (n : ℕ) (less : ℕ → ℕ → Bool) (i : ℕ) → i < suc n → origin (remove_swaps (suc n) less i) n ≡ i
  pub remove_swaps-IsHeap :
      (n : ℕ) (less : ℕ → ℕ → Bool) (i : ℕ)
      → IsOrder (suc n) less
      → IsHeap (suc n) less
      → i < suc n
      → IsHeap n (moved (remove_swaps (suc n) less i) less)
