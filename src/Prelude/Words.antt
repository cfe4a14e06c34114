-- ===== src/Prelude/Words.antt =====
-- uint64 arithmetic with its wrap-around.
use Prim.Native.Nat.{ℕ, ◌+◌, ◌-◌, ◌*◌, ◌%◌, ◌^◌, ◌<◌, ◌≤◌}
use mathlib.Core.Path.{◌≡◌}
use native.Mathlib.Omega.{arith}

abbrev pub u64 : ℕ
u64 = 2 ^ 64

unfoldable pub add64 : ℕ → ℕ → ℕ
add64 a b = (a + b) % u64

unfoldable pub sub64 : ℕ → ℕ → ℕ
sub64 a b = (a + u64 - b) % u64

unfoldable pub mul64 : ℕ → ℕ → ℕ
mul64 a b = (a * b) % u64

pub add64-exact : (a b : ℕ) → a + b < u64 → add64 a b ≡ a + b
unfolding add64
add64-exact a b h = omega arith

pub sub64-exact : (a b : ℕ) → a < u64 → b ≤ a → sub64 a b ≡ a - b
unfolding sub64
sub64-exact a b h k = omega arith

pub mul64-exact : (a b : ℕ) → a * b < u64 → mul64 a b ≡ a * b
unfolding mul64
mul64-exact a b h = omega arith
