-- ===== src/Mempool/Package/Sample.antt =====
-- A small package that satisfies the laws, for the tests: of a heap it asks only that the root is a
-- minimum, and it looks for the next root among all that is left.
use spacesvm.Prelude.{
  ℕ, zero, suc, ◌≤◌, ◌<◌, ◌≡◌, sym, ◌∙◌, inl, inr, Bool, false, List, [], ◌∷◌, ◌==◌, arith,
  if◌then◌else◌, Bool-cases,
}
use spacesvm.Mempool.Package.{origin, InRange, moved, IsOrder, HeapPackage}

abbrev pub RootLeast : ℕ → (ℕ → ℕ → Bool) → Type 0
RootLeast n less = (k : ℕ) → k < n → less k 0 ≡ false

-- the index of a minimum among the first `n` and `best`
abbrev pub least : (ℕ → ℕ → Bool) → ℕ → ℕ → ℕ
least less zero best = best
least less (suc n) best = let m = least less n best in if less n m then n else m

least-bound : (less : ℕ → ℕ → Bool) (n best m : ℕ) → n ≤ m → best < m → least less n best < m
least-bound less zero best m h b = b
least-bound less (suc n) best m h b = ground (arith, least-bound less n best m)

least_lem :
    (less : ℕ → ℕ → Bool) (n best m : ℕ)
    → IsOrder m less
    → n ≤ m
    → best < m
    → (less best (least less n best) ≡ false)
      × ((k : ℕ) → k < n → less k (least less n best) ≡ false)
least_lem less zero best m o b c = (o.irreflexive best, λ k h. absurd (omega arith))
least_lem less (suc n) best l o b c =
    let (first, rest) = least_lem less n best l o (omega arith) c in
    let m = least less n best in
    let within : m < l = least-bound less n best l (omega arith) c in
    elim (Bool-cases (less n m)) [
      | inl e ↦
          let n_best = o.negative_trans best m n within first (o.asymmetric n m e) in
          rw e (
            n_best,
            λ k h. elim (Bool-cases (k == n)) [
              | inl q ↦ let same : k ≡ n = ground arith in rw same (o.irreflexive n)
              | inr q ↦ o.negative_trans k m n within (rest k (ground arith)) (o.asymmetric n m e)
            ],
          )
      | inr e ↦ rw e (
        first,
        λ k h. elim (Bool-cases (k == n)) [
          | inl q ↦ let same : k ≡ n = ground arith in rw same e
          | inr q ↦ rest k (ground arith)
        ],
      )
    ]

moved-IsOrder :
    (n : ℕ) (swaps : List (ℕ × ℕ)) (less : ℕ → ℕ → Bool)
    → ((j : ℕ) → j < n → origin swaps j < n)
    → IsOrder n less
    → IsOrder n (moved swaps less)
moved-IsOrder n swaps less r o = record {
  irreflexive = λ i. o.irreflexive (origin swaps i);
  asymmetric = λ i j. o.asymmetric (origin swaps i) (origin swaps j);
  negative_trans =
      λ i j k b. o.negative_trans (origin swaps i) (origin swaps j) (origin swaps k) (r j b);
}

abbrev pub push_one : ℕ → (ℕ → ℕ → Bool) → List (ℕ × ℕ)
push_one zero less = []
push_one (suc n) less = if less n 0 then (0, n) ∷ [] else []

abbrev pub remove_one : ℕ → (ℕ → ℕ → Bool) → ℕ → List (ℕ × ℕ)
remove_one zero less i = []
remove_one (suc n) less i =
    (i, n) ∷ (if n == 0 then [] else (0, least (moved ((i, n) ∷ []) less) n 0) ∷ [])

pub push_one-InRange : (n : ℕ) (less : ℕ → ℕ → Bool) → InRange n (push_one n less)
push_one-InRange zero less = tt
push_one-InRange (suc n) less = ground arith

pub push_one-RootLeast :
    (n : ℕ) (less : ℕ → ℕ → Bool)
    → IsOrder (suc n) less
    → RootLeast n less
    → RootLeast (suc n) (moved (push_one (suc n) less) less)
push_one-RootLeast n less o h k b =
    ground
      (arith, h k, h 0, o.irreflexive 0, o.irreflexive n, o.negative_trans k 0 n, o.asymmetric n 0)

pub remove_one-InRange :
    (n : ℕ) (less : ℕ → ℕ → Bool) (i : ℕ) → i < n → InRange n (remove_one n less i)
remove_one-InRange zero less i h = tt
remove_one-InRange (suc n) less i h = ground (arith, least-bound (moved ((i, n) ∷ []) less) n 0 n)

pub remove_one-last :
    (n : ℕ) (less : ℕ → ℕ → Bool) (i : ℕ) → i < suc n → origin (remove_one (suc n) less i) n ≡ i
remove_one-last n less i h = ground (arith, least-bound (moved ((i, n) ∷ []) less) n 0 n)

pub remove_one-RootLeast :
    (n : ℕ) (less : ℕ → ℕ → Bool) (i : ℕ)
    → IsOrder (suc n) less
    → RootLeast (suc n) less
    → i < suc n
    → RootLeast n (moved (remove_one (suc n) less i) less)
remove_one-RootLeast n less i o h b k c =
    let swapped = moved ((i, n) ∷ []) less in
    let l = least swapped n 0 in
    let minimum =
      (least_lem swapped n 0 (suc n)
        (moved-IsOrder (suc n) ((i, n) ∷ []) less (λ j r. ground arith) o) (omega arith)
        (omega arith)).1 in
    let bound : l < n = least-bound swapped n 0 n (omega arith) (omega arith) in
    let more : (n == 0) ≡ false = ground arith in
    let within : origin ((0, l) ∷ []) k < n = ground arith in
    let root : origin ((0, l) ∷ []) 0 ≡ l = ground arith in
    rw (more, root) (minimum (origin ((0, l) ∷ []) k) within)

pub RootLeast-zero : (less : ℕ → ℕ → Bool) → RootLeast 0 less
RootLeast-zero less k h = absurd (omega arith)

pub RootLeast-agree :
    (n : ℕ) (less more : ℕ → ℕ → Bool)
    → ((i j : ℕ) → i < n → j < n → less i j ≡ more i j)
    → RootLeast n less
    → RootLeast n more
RootLeast-agree n less more a h k b = sym (a k 0 b (omega arith)) ∙ h k b

instance abbrev pub sample_heap : HeapPackage
sample_heap = record {
  push_swaps = push_one;
  remove_swaps = remove_one;
  IsHeap = RootLeast;
  IsHeap-zero = RootLeast-zero;
  IsHeap-agree = RootLeast-agree;
  root_least = λ n less k h b. h k b;
  push_swaps-InRange = push_one-InRange;
  push_swaps-IsHeap = push_one-RootLeast;
  remove_swaps-InRange = remove_one-InRange;
  remove_swaps-last = remove_one-last;
  remove_swaps-IsHeap = remove_one-RootLeast;
}
