-- ===== src/Prelude/Integers.antt =====
-- Signed numbers, as far as the program compares them.
use Prim.Native.Nat.{ℕ, ◌≤◌, ◌<◌, ◌-◌, ◌^◌}
use mathlib.Core.Path.{◌≡◌, refl}
use mathlib.Core.Bool.{Bool, true, false}
use native.Mathlib.Omega.{arith}
use rust_uma.Prelude.Tests.{if◌then◌else◌, leb, ltb}

-- `negsuc n` is -(n + 1).
pub data ℤ : Type 0 where
  pos : ℕ → ℤ
  negsuc : ℕ → ℤ

abbrev pub leb_int : ℤ → ℤ → Bool
leb_int (pos a) (pos b) = leb a b
leb_int (pos a) (negsuc b) = false
leb_int (negsuc a) (pos b) = true
leb_int (negsuc a) (negsuc b) = leb b a

abbrev pub min_int : ℤ → ℤ → ℤ
min_int a b = if leb_int a b then a else b

abbrev pub pos_part : ℤ → ℕ
pos_part (pos n) = n
pos_part (negsuc n) = 0

-- `as i64` of a u64.
abbrev pub to_i64 : ℕ → ℤ
to_i64 n = if ltb n (2 ^ 63) then pos n else negsuc (2 ^ 64 - 1 - n)

-- `as u64` of an i64.
abbrev pub to_u64 : ℤ → ℕ
to_u64 (pos n) = n
to_u64 (negsuc n) = 2 ^ 64 - 1 - n

pub to_i64-eq : (n : ℕ) → n < 2 ^ 63 → to_i64 n ≡ pos n
to_i64-eq n h = let e : ltb n (2 ^ 63) ≡ true = ground (arith, h) in rw e refl

-- What is not less than a number that is not negative is not negative.
pub to_u64-pos_part : (m : ℕ) (a : ℤ) → leb_int (pos m) a ≡ true → to_u64 a ≡ pos_part a
to_u64-pos_part m (pos n) h = refl
to_u64-pos_part m (negsuc n) h = absurd (ground (arith, h))

pub pos_part-min_int-le :
    (a : ℤ) (b c : ℕ)
    → (pos_part (min_int (min_int a (pos b)) (pos c)) ≤ b)
      × (pos_part (min_int (min_int a (pos b)) (pos c)) ≤ c)
pos_part-min_int-le (pos a) b c = ground arith
pos_part-min_int-le (negsuc a) b c = ground arith
