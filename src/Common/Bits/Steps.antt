-- ===== src/Common/Bits/Steps.antt =====
-- `bit_and` and `bit_or` by their lowest digit and the rest, with the recursion's count dropped.
use Prim.Native.Nat.{
  ℕ, zero, suc, ◌+◌, ◌*◌, ◌/◌, ◌%◌, ◌≤◌, min, max, bit_and, bit_or, digits, bit_and-bitwise,
  bit_or-bitwise,
}
use mathlib.Core.Path.{◌≡◌, refl, ap}
use native.Mathlib.Omega.{arith}

module _ (z : ℕ → ℕ) (f : ℕ → ℕ → ℕ) where
  -- Any two counts that cover the first number give the same digits.
  count_irrelevant : (a b m n : ℕ) → a ≤ m → a ≤ n → digits z f m a b ≡ digits z f n a b
  count_irrelevant zero b zero zero p q = refl
  count_irrelevant zero b zero (suc n) p q = refl
  count_irrelevant zero b (suc m) zero p q = refl
  count_irrelevant zero b (suc m) (suc n) p q = refl
  count_irrelevant (suc a) b zero n p q = absurd (omega arith)
  count_irrelevant (suc a) b (suc m) zero p q = absurd (omega arith)
  count_irrelevant (suc a) b (suc m) (suc n) p q =
      ap (λ (t : ℕ). t * 2 + f (suc a % 2) (b % 2))
        (count_irrelevant (suc a / 2) (b / 2) m n (omega arith) (omega arith))

and_digit : (a b : ℕ) → bit_and a b ≡ bit_and (a / 2) (b / 2) * 2 + min (a % 2) (b % 2)
and_digit zero b = omega (arith, bit_and-bitwise 0 b, bit_and-bitwise 0 (b / 2))
and_digit (suc a) b = omega (
  arith,
  bit_and-bitwise (suc a) b,
  bit_and-bitwise (suc a / 2) (b / 2),
  count_irrelevant (λ y. 0) min (suc a / 2) (b / 2) a (suc a / 2) (omega arith) (omega arith),
)

or_digit : (a b : ℕ) → bit_or a b ≡ bit_or (a / 2) (b / 2) * 2 + max (a % 2) (b % 2)
or_digit zero b = omega (arith, bit_or-bitwise 0 b, bit_or-bitwise 0 (b / 2))
or_digit (suc a) b = omega (
  arith,
  bit_or-bitwise (suc a) b,
  bit_or-bitwise (suc a / 2) (b / 2),
  count_irrelevant (λ y. y) max (suc a / 2) (b / 2) a (suc a / 2) (omega arith) (omega arith),
)

pub and_low : (a b : ℕ) → bit_and a b % 2 ≡ min (a % 2) (b % 2)
and_low a b = omega (arith, and_digit a b)

pub and_half : (a b : ℕ) → bit_and a b / 2 ≡ bit_and (a / 2) (b / 2)
and_half a b = omega (arith, and_digit a b)

pub or_low : (a b : ℕ) → bit_or a b % 2 ≡ max (a % 2) (b % 2)
or_low a b = omega (arith, or_digit a b)

pub or_half : (a b : ℕ) → bit_or a b / 2 ≡ bit_or (a / 2) (b / 2)
or_half a b = omega (arith, or_digit a b)

pub zero-bit_and : (b : ℕ) → bit_and 0 b ≡ 0
zero-bit_and b = bit_and-bitwise 0 b

pub zero-bit_or : (b : ℕ) → bit_or 0 b ≡ b
zero-bit_or b = bit_or-bitwise 0 b
