-- ===== src/Keys/Times.antt =====
-- The time keys of chain/storage.go: big-endian numbers, their length and their order as byte
-- strings.
use native.Mathlib.Nat.{pow-suc}
use spacesvm.Prelude.{
  ℕ, zero, suc, ◌+◌, ◌*◌, ◌/◌, ◌%◌, ◌^◌, ◌<◌, ◌≡◌, ◌∙◌, refl, sym, [], ◌∷◌, ◌++◌, Bytes, length,
  length-append, u64, compare, Ordering, bytes_compare, arith, leb, if◌then◌else◌,
}
use spacesvm.Keys.{
  big_endian, from_big_endian, put_uint64, uint64, range_time_key, specific_time_key,
}

pub length-big_endian : (n t : ℕ) → length (big_endian n t) ≡ n
unfolding big_endian
length-big_endian zero t = refl
length-big_endian (suc n) t =
    omega (
      arith,
      length-append (big_endian n (t / 256)) ((t % 256) ∷ []),
      length-big_endian n (t / 256),
    )

from_big_endian-append :
    (acc b : ℕ) (xs : Bytes) → from_big_endian acc (xs ++ b ∷ []) ≡ from_big_endian acc xs * 256 + b
unfolding from_big_endian
from_big_endian-append acc b [] = refl
from_big_endian-append acc b (x ∷ xs) = from_big_endian-append (acc * 256 + x) b xs

pub from_big_endian-big_endian : (n t : ℕ) → t < 256 ^ n → from_big_endian 0 (big_endian n t) ≡ t
unfolding big_endian from_big_endian
from_big_endian-big_endian zero t h = omega arith
from_big_endian-big_endian (suc n) t h = omega (
  arith,
  from_big_endian-append 0 (t % 256) (big_endian n (t / 256)),
  from_big_endian-big_endian n (t / 256) (omega (arith, pow-suc 256 n)),
)

-- the later of two comparisons decides when the first is even
abbrev pub and_then : Ordering → Ordering → Ordering
and_then Ordering.lt o = Ordering.lt
and_then Ordering.eq o = o
and_then Ordering.gt o = Ordering.gt

pub compare-append :
    (a b x y : Bytes)
    → length a ≡ length b
    → bytes_compare (a ++ x) (b ++ y) ≡ and_then (bytes_compare a b) (bytes_compare x y)
unfolding bytes_compare
compare-append [] [] x y h = refl
compare-append [] (c ∷ b) x y h = absurd (omega arith)
compare-append (c ∷ a) [] x y h = absurd (omega arith)
compare-append (c ∷ a) (d ∷ b) x y h = ground (arith, compare-append a b x y)

digits_in_order :
    (a b : ℕ)
    → and_then (compare (a / 256) (b / 256)) (bytes_compare ((a % 256) ∷ []) ((b % 256) ∷ []))
      ≡ compare a b
unfolding bytes_compare
digits_in_order a b = ground arith

-- Times as bytes are in the order of the times.
pub compare-big_endian :
    (n a b : ℕ)
    → a < 256 ^ n
    → b < 256 ^ n
    → bytes_compare (big_endian n a) (big_endian n b) ≡ compare a b
unfolding big_endian bytes_compare
compare-big_endian zero a b h k = ground arith
compare-big_endian (suc n) a b h k =
    rw
      (
        compare-append (big_endian n (a / 256)) (big_endian n (b / 256)) ((a % 256) ∷ [])
            ((b % 256) ∷ []) (length-big_endian n (a / 256) ∙ sym (length-big_endian n (b / 256))),
        compare-big_endian n (a / 256) (b / 256) (omega (arith, pow-suc 256 n))
            (omega (arith, pow-suc 256 n)),
      )
      (digits_in_order a b)

u64-eq : u64 ≡ 256 ^ 8
u64-eq = refl

pub length-put_uint64 : (t : ℕ) → length (put_uint64 t) ≡ 8
length-put_uint64 t = length-big_endian 8 t

pub uint64-put_uint64 : (t : ℕ) → t < u64 → uint64 (put_uint64 t) ≡ t
uint64-put_uint64 t h = from_big_endian-big_endian 8 t h

pub compare-put_uint64 :
    (a b : ℕ) → a < u64 → b < u64 → bytes_compare (put_uint64 a) (put_uint64 b) ≡ compare a b
compare-put_uint64 a b h k = compare-big_endian 8 a b h k

-- Against a time key of the same prefix, the bound for time `t` is before the keys of time `t` and
-- later, and after the earlier ones. The times are less than 2^64, and the raw space has 20 bytes.
pub compare-range_time_key :
    (p t e : ℕ) (r : Bytes)
    → t < u64
    → e < u64
    → length r ≡ 20
    → bytes_compare (range_time_key p t) (specific_time_key p e r)
      ≡ (if leb t e then Ordering.lt else Ordering.gt)
unfolding range_time_key specific_time_key bytes_compare
compare-range_time_key p t e [] h k l = absurd (omega arith)
compare-range_time_key p t e (c ∷ r) h k l = ground (
  arith,
  compare-append (put_uint64 t) (put_uint64 e) (47 ∷ []) (47 ∷ c ∷ r)
      (length-put_uint64 t ∙ sym (length-put_uint64 e)),
  compare-put_uint64 t e h k,
)

pub compare-specific_time_key :
    (p t e : ℕ) (r : Bytes)
    → t < u64
    → e < u64
    → length r ≡ 20
    → bytes_compare (specific_time_key p e r) (range_time_key p t)
      ≡ (if leb t e then Ordering.gt else Ordering.lt)
unfolding range_time_key specific_time_key bytes_compare
compare-specific_time_key p t e [] h k l = absurd (omega arith)
compare-specific_time_key p t e (c ∷ r) h k l = ground (
  arith,
  compare-append (put_uint64 e) (put_uint64 t) (47 ∷ c ∷ r) (47 ∷ [])
      (length-put_uint64 e ∙ sym (length-put_uint64 t)),
  compare-put_uint64 e t k h,
)
