-- ===== src/Prelude/ByteStrings.antt =====
-- Byte strings, with the tests of Go's `bytes` package.
use Prim.Native.Nat.{ℕ, compare, Ordering}
use mathlib.Core.Path.{◌≡◌, refl}
use mathlib.Core.Logic.{◌↔◌}
use mathlib.Core.Bool.{Bool, true, false, ◌&&◌}
use mathlib.Core.List.{List, [], ◌∷◌, ◌++◌}
use native.Mathlib.Omega.{arith}
use spacesvm.Prelude.Tests.{◌==◌}

abbrev pub Bytes : Type 0
Bytes = List ℕ

-- bytes.Equal, and `==` on Go strings and on byte arrays
unfoldable pub bytes_eq : Bytes → Bytes → Bool
bytes_eq [] [] = true
bytes_eq [] (y ∷ ys) = false
bytes_eq (x ∷ xs) [] = false
bytes_eq (x ∷ xs) (y ∷ ys) = x == y && bytes_eq xs ys

-- bytes.Compare: the lexicographic order
unfoldable pub bytes_compare : Bytes → Bytes → Ordering
bytes_compare [] [] = Ordering.eq
bytes_compare [] (y ∷ ys) = Ordering.lt
bytes_compare (x ∷ xs) [] = Ordering.gt
bytes_compare (x ∷ xs) (y ∷ ys) = elim (compare x y) [
  | Ordering.lt ↦ Ordering.lt
  | Ordering.eq ↦ bytes_compare xs ys
  | Ordering.gt ↦ Ordering.gt
]

-- bytes.HasPrefix, the prefix first
unfoldable pub has_prefix : Bytes → Bytes → Bool
has_prefix [] ys = true
has_prefix (x ∷ xs) [] = false
has_prefix (x ∷ xs) (y ∷ ys) = x == y && has_prefix xs ys

pub bytes_eq→eq : (a b : Bytes) → bytes_eq a b ≡ true → a ≡ b
unfolding bytes_eq
bytes_eq→eq [] [] h = refl
bytes_eq→eq [] (y ∷ ys) h = ground arith
bytes_eq→eq (x ∷ xs) [] h = ground arith
bytes_eq→eq (x ∷ xs) (y ∷ ys) h = ground (arith, bytes_eq→eq xs ys)

pub bytes_eq_self : (a : Bytes) → bytes_eq a a ≡ true
unfolding bytes_eq
bytes_eq_self [] = refl
bytes_eq_self (x ∷ xs) = ground (arith, bytes_eq_self xs)

pub bytes_eq_iff : (a b : Bytes) → (bytes_eq a b ≡ true) ↔ (a ≡ b)
bytes_eq_iff a b = (bytes_eq→eq a b, λ e. ground (arith, bytes_eq_self a))

-- A common first part does not change the test.
pub bytes_eq-append_left : (p a b : Bytes) → bytes_eq (p ++ a) (p ++ b) ≡ bytes_eq a b
unfolding bytes_eq
bytes_eq-append_left [] a b = refl
bytes_eq-append_left (x ∷ p) a b = ground (arith, bytes_eq-append_left p a b)

-- The order of byte strings.
pub compare_self : (a : Bytes) → bytes_compare a a ≡ Ordering.eq
unfolding bytes_compare
compare_self [] = refl
compare_self (x ∷ xs) = ground (arith, compare_self xs)

pub compare-eq→eq : (a b : Bytes) → bytes_compare a b ≡ Ordering.eq → a ≡ b
unfolding bytes_compare
compare-eq→eq [] [] h = refl
compare-eq→eq [] (y ∷ ys) h = ground arith
compare-eq→eq (x ∷ xs) [] h = ground arith
compare-eq→eq (x ∷ xs) (y ∷ ys) h = ground (arith, compare-eq→eq xs ys)

pub compare-gt→lt :
    (a b : Bytes) → bytes_compare a b ≡ Ordering.gt → bytes_compare b a ≡ Ordering.lt
unfolding bytes_compare
compare-gt→lt [] [] h = ground arith
compare-gt→lt [] (y ∷ ys) h = ground arith
compare-gt→lt (x ∷ xs) [] h = refl
compare-gt→lt (x ∷ xs) (y ∷ ys) h = ground (arith, compare-gt→lt xs ys)

pub compare-lt→gt :
    (a b : Bytes) → bytes_compare a b ≡ Ordering.lt → bytes_compare b a ≡ Ordering.gt
unfolding bytes_compare
compare-lt→gt [] [] h = ground arith
compare-lt→gt [] (y ∷ ys) h = refl
compare-lt→gt (x ∷ xs) [] h = ground arith
compare-lt→gt (x ∷ xs) (y ∷ ys) h = ground (arith, compare-lt→gt xs ys)

pub compare-lt_trans :
    (a b c : Bytes)
    → bytes_compare a b ≡ Ordering.lt
    → bytes_compare b c ≡ Ordering.lt
    → bytes_compare a c ≡ Ordering.lt
unfolding bytes_compare
compare-lt_trans [] b [] h k = cc (k, compare-lt→gt [] b h)
compare-lt_trans [] b (z ∷ zs) h k = refl
compare-lt_trans (x ∷ xs) [] c h k = ground arith
compare-lt_trans (x ∷ xs) (y ∷ ys) [] h k = ground arith
compare-lt_trans (x ∷ xs) (y ∷ ys) (z ∷ zs) h k = ground (arith, compare-lt_trans xs ys zs)

-- What is before something is another string.
pub lt→bytes_ne : (a b : Bytes) → bytes_compare a b ≡ Ordering.lt → bytes_eq a b ≡ false
unfolding bytes_compare bytes_eq
lt→bytes_ne [] [] h = ground arith
lt→bytes_ne [] (y ∷ ys) h = refl
lt→bytes_ne (x ∷ xs) [] h = ground arith
lt→bytes_ne (x ∷ xs) (y ∷ ys) h = ground (arith, lt→bytes_ne xs ys)
