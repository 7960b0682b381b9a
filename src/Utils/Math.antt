-- ===== src/Utils/Math.antt =====
-- src/utils/math.c: `max` and `min` of `uint32`, and `div` and `mod` that round down on `int32`.
use luck_os.Common.{ℕ, ltb, if◌then◌else◌}
use luck_os.Common.Int.{ℤ, pos, ◌+ℤ◌, ◌-ℤ◌, quot, rem, is_negative}

abbrev pub max : ℕ → ℕ → ℕ
max x y = if ltb y x then x else y

abbrev pub min : ℕ → ℕ → ℕ
min x y = if ltb x y then x else y

unfoldable pub div : ℤ → ℕ → ℤ
div x N = if is_negative x then quot ((x -ℤ pos N) +ℤ pos 1) N else quot x N

unfoldable pub mod_floor : ℤ → ℕ → ℤ
mod_floor x N = rem (rem x N +ℤ pos N) N
