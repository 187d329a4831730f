-- ===== src/Prelude/Words.antt =====
-- Unsigned 64-bit sums as a release build makes them: they wrap.
use Prim.Native.Nat.{ℕ, ◌+◌, ◌%◌, ◌^◌, ◌<◌}
use mathlib.Core.Path.{◌≡◌}
use native.Mathlib.Omega.{arith}

abbrev pub u64_mod : ℕ
u64_mod = 2 ^ 64

abbrev pub u64_add : ℕ → ℕ → ℕ
u64_add a b = (a + b) % 2 ^ 64

-- A sum that fits does not wrap.
pub u64_add-eq : (a b : ℕ) → a + b < u64_mod → u64_add a b ≡ a + b
u64_add-eq a b h = omega arith
