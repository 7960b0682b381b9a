-- ===== src/Common/Int.antt =====
-- Signed numbers: `negsuc n` is -(n + 1).
use Prim.Native.Nat.{ℕ, zero, suc, ◌+◌, ◌-◌, ◌*◌, ◌/◌, ◌%◌, ◌^◌}
use luck_os.Common.Tests.{leb, if◌then◌else◌}
use mathlib.Core.Bool.{Bool, true, false}

pub data ℤ : Type 0 where
  pos : ℕ → ℤ
  negsuc : ℕ → ℤ

-- `z <= 0`
abbrev pub nonpos : ℤ → Bool
nonpos (pos zero) = true
nonpos (pos (suc n)) = false
nonpos (negsuc n) = true

-- `z < 0`
abbrev pub is_negative : ℤ → Bool
is_negative (pos n) = false
is_negative (negsuc n) = true

-- `a - b` on natural numbers.
abbrev pub difference : ℕ → ℕ → ℤ
difference a b = if leb b a then pos (a - b) else negsuc (b - a - 1)

abbrev pub neg : ℤ → ℤ
neg (pos zero) = pos 0
neg (pos (suc n)) = negsuc n
neg (negsuc n) = pos (n + 1)

infixl 6 ◌+ℤ◌
abbrev pub ◌+ℤ◌ : ℤ → ℤ → ℤ
pos a +ℤ pos b = pos (a + b)
pos a +ℤ negsuc b = difference a (b + 1)
negsuc a +ℤ pos b = difference b (a + 1)
negsuc a +ℤ negsuc b = negsuc (a + b + 1)

infixl 6 ◌-ℤ◌
abbrev pub ◌-ℤ◌ : ℤ → ℤ → ℤ
a -ℤ b = a +ℤ neg b

-- Division and its remainder in C round towards 0.
abbrev pub quot : ℤ → ℕ → ℤ
quot (pos a) N = pos (a / N)
quot (negsuc a) N = neg (pos ((a + 1) / N))

abbrev pub rem : ℤ → ℕ → ℤ
rem (pos a) N = pos (a % N)
rem (negsuc a) N = neg (pos ((a + 1) % N))

-- The lowest `w` bits.
abbrev pub low_bits : ℕ → ℤ → ℕ
low_bits w (pos a) = a % 2 ^ w
low_bits w (negsuc a) = 2 ^ w - 1 - a % 2 ^ w

-- `n <= z`
abbrev pub at_least : ℕ → ℤ → Bool
at_least n (pos a) = leb n a
at_least n (negsuc a) = false

-- `z * N`
abbrev pub scale : ℤ → ℕ → ℤ
scale (pos a) N = pos (a * N)
scale (negsuc a) N = neg (pos ((a + 1) * N))

-- `z == 0`
abbrev pub is_zero : ℤ → Bool
is_zero (pos zero) = true
is_zero (pos (suc a)) = false
is_zero (negsuc a) = false

-- The conversion to `int32`.
abbrev pub int32 : ℤ → ℤ
int32 (pos a) = difference ((a + 2 ^ 31) % 2 ^ 32) (2 ^ 31)
int32 (negsuc a) = difference (2 ^ 32 - 1 - (a + 2 ^ 31) % 2 ^ 32) (2 ^ 31)

-- The conversion to `int16`.
abbrev pub int16 : ℤ → ℤ
int16 (pos a) = difference ((a + 2 ^ 15) % 2 ^ 16) (2 ^ 15)
int16 (negsuc a) = difference (2 ^ 16 - 1 - (a + 2 ^ 15) % 2 ^ 16) (2 ^ 15)
