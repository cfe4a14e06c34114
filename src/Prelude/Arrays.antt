-- ===== src/Prelude/Arrays.antt =====
-- Lists as arrays: reads and writes at an index, and what a read sees after a write.
use Prim.Native.Nat.{ℕ, zero, suc, ◌<◌, ◌≤◌}
use mathlib.Core.Path.{◌≡◌, refl}
use mathlib.Core.Option.{Option, none, some}
use mathlib.Core.List.{List, [], ◌∷◌, ◌++◌}
use native.Mathlib.Omega.{arith}
use spacesvm.Prelude.Tests.{ltb, ◌==◌, if◌then◌else◌}
use spacesvm.Prelude.Lists.{length, take}

module _ {ℓ} {A : Type ℓ} where
  abbrev pub get_elem? : List A → ℕ → Option A
  get_elem? [] i = none
  get_elem? (x ∷ xs) zero = some x
  get_elem? (x ∷ xs) (suc i) = get_elem? xs i

  -- a write out of range changes nothing
  abbrev pub set_elem : List A → ℕ → A → List A
  set_elem [] i v = []
  set_elem (x ∷ xs) zero v = v ∷ xs
  set_elem (x ∷ xs) (suc i) v = x ∷ set_elem xs i v

  pub length-set_elem : (xs : List A) (i : ℕ) (v : A) → length (set_elem xs i v) ≡ length xs
  length-set_elem [] i v = refl
  length-set_elem (x ∷ xs) zero v = refl
  length-set_elem (x ∷ xs) (suc i) v = omega (arith, length-set_elem xs i v)

  pub get_elem-set_elem :
      (xs : List A) (i : ℕ) (v : A) (k : ℕ)
      → i < length xs
      → get_elem? (set_elem xs i v) k ≡ (if k == i then some v else get_elem? xs k)
  get_elem-set_elem [] i v k h = absurd (omega arith)
  get_elem-set_elem (x ∷ xs) zero v zero h = ground arith
  get_elem-set_elem (x ∷ xs) zero v (suc k) h = ground arith
  get_elem-set_elem (x ∷ xs) (suc i) v zero h = ground arith
  get_elem-set_elem (x ∷ xs) (suc i) v (suc k) h = ground (arith, get_elem-set_elem xs i v k)

  pub get_elem-append_one :
      (xs : List A) (v : A) (k : ℕ)
      → get_elem? (xs ++ v ∷ []) k ≡ (if k == length xs then some v else get_elem? xs k)
  get_elem-append_one [] v zero = ground arith
  get_elem-append_one [] v (suc k) = ground arith
  get_elem-append_one (x ∷ xs) v zero = ground arith
  get_elem-append_one (x ∷ xs) v (suc k) = ground (arith, get_elem-append_one xs v k)

  pub get_elem-take :
      (n : ℕ) (xs : List A) (k : ℕ)
      → get_elem? (take n xs) k ≡ (if ltb k n then get_elem? xs k else none)
  get_elem-take zero xs k = ground arith
  get_elem-take (suc n) [] k = ground arith
  get_elem-take (suc n) (x ∷ xs) zero = ground arith
  get_elem-take (suc n) (x ∷ xs) (suc k) = ground (arith, get_elem-take n xs k)

  -- An entry that is read is within the length, and within the length there is one.
  pub get_elem-bound : (xs : List A) (k : ℕ) (x : A) → get_elem? xs k ≡ some x → k < length xs
  get_elem-bound [] k x h = absurd (cc)
  get_elem-bound (y ∷ xs) zero x h = omega arith
  get_elem-bound (y ∷ xs) (suc k) x h = omega (arith, get_elem-bound xs k x h)

  pub get_elem-exists : (xs : List A) (k : ℕ) → k < length xs → (x : A) × (get_elem? xs k ≡ some x)
  get_elem-exists [] k h = absurd (omega arith)
  get_elem-exists (y ∷ xs) zero h = (y, refl)
  get_elem-exists (y ∷ xs) (suc k) h = get_elem-exists xs k (omega arith)

  pub length-take : (n : ℕ) (xs : List A) → n ≤ length xs → length (take n xs) ≡ n
  length-take zero xs h = refl
  length-take (suc n) [] h = absurd (omega arith)
  length-take (suc n) (x ∷ xs) h = omega (arith, length-take n xs (omega arith))
