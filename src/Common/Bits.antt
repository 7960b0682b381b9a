-- ===== src/Common/Bits.antt =====
-- Single bits of a word, and the laws of `&` and `|` bit by bit. A word is given by its width.
mod Steps
use mathlib.Core.Path.{◌≡◌, refl, ap, ◌∙◌}
use Prim.Native.Nat.{
  ℕ, zero, suc, ◌+◌, ◌-◌, ◌*◌, ◌/◌, ◌%◌, ◌^◌, ◌≤◌, ◌<◌, min, max, bit_and, bit_or,
}
use native.Mathlib.Omega.{arith}
use native.Mathlib.Nat.{pow-suc, one-le-pow}
use luck_os.Common.Tests.{◌==◌, if◌then◌else◌}
use Steps.{and_low, and_half, or_low, or_half, zero-bit_and, zero-bit_or}

-- Bit `j` of `a`.
unfoldable pub bit : ℕ → ℕ → ℕ
bit a zero = a % 2
bit a (suc j) = bit (a / 2) j

pub bit-le-one : (a j : ℕ) → bit a j ≤ 1
unfolding bit
bit-le-one a zero = omega arith
bit-le-one a (suc j) = bit-le-one (a / 2) j

pub bit-bit_and : (a b j : ℕ) → bit (bit_and a b) j ≡ min (bit a j) (bit b j)
unfolding bit
bit-bit_and a b zero = and_low a b
bit-bit_and a b (suc j) = ap (λ (t : ℕ). bit t j) (and_half a b) ∙ bit-bit_and (a / 2) (b / 2) j

pub bit-bit_or : (a b j : ℕ) → bit (bit_or a b) j ≡ max (bit a j) (bit b j)
unfolding bit
bit-bit_or a b zero = or_low a b
bit-bit_or a b (suc j) = ap (λ (t : ℕ). bit t j) (or_half a b) ∙ bit-bit_or (a / 2) (b / 2) j

pub bit-zero : (j : ℕ) → bit 0 j ≡ 0
unfolding bit
bit-zero zero = refl
bit-zero (suc j) = bit-zero j

pub bit-pow : (k j : ℕ) → bit (2 ^ k) j ≡ (if j == k then 1 else 0)
unfolding bit
bit-pow zero zero = refl
bit-pow zero (suc j) = ground (arith, bit-zero j)
bit-pow (suc k) zero = ground (arith, pow-suc 2 k)
bit-pow (suc k) (suc j) =
    let half : 2 ^ suc k / 2 ≡ 2 ^ k = omega (arith, pow-suc 2 k) in
    ground (arith, ap (λ (t : ℕ). bit t j) half, bit-pow k j)

-- The complement within `n` bits flips each of them.
pub bit-complement : (n a j : ℕ) → a < 2 ^ n → j < n → bit (2 ^ n - 1 - a) j ≡ 1 - bit a j
unfolding bit
bit-complement zero a j h k = elim k [ ]
bit-complement (suc n) a zero h k = omega (arith, pow-suc 2 n)
bit-complement (suc n) a (suc j) h k =
    let half : (2 ^ suc n - 1 - a) / 2 ≡ 2 ^ n - 1 - a / 2 = omega (arith, pow-suc 2 n) in
    ap (λ (t : ℕ). bit t j) half
    ∙ bit-complement n (a / 2) j (omega (arith, pow-suc 2 n)) (omega arith)

-- Words are equal when their bits are.
pub bit_ext : (n a b : ℕ) → a < 2 ^ n → b < 2 ^ n → ((j : ℕ) → j < n → bit a j ≡ bit b j) → a ≡ b
unfolding bit
bit_ext zero a b ha hb same = omega arith
bit_ext (suc n) a b ha hb same = omega (
  arith,
  same 0 (omega arith),
  bit_ext n (a / 2) (b / 2) (omega (arith, pow-suc 2 n)) (omega (arith, pow-suc 2 n))
      (λ j h. same (suc j) (omega arith)),
)

pub bit_and-lt : (n a b : ℕ) → a < 2 ^ n → bit_and a b < 2 ^ n
bit_and-lt zero zero b h = omega (arith, zero-bit_and b)
bit_and-lt zero (suc a) b h = absurd (omega arith)
bit_and-lt (suc n) a b h =
    omega
      (arith, pow-suc 2 n, and_half a b, bit_and-lt n (a / 2) (b / 2) (omega (arith, pow-suc 2 n)))

pub bit_or-lt : (n a b : ℕ) → a < 2 ^ n → b < 2 ^ n → bit_or a b < 2 ^ n
bit_or-lt zero zero b h k = omega (arith, zero-bit_or b)
bit_or-lt zero (suc a) b h k = absurd (omega arith)
bit_or-lt (suc n) a b h k = omega (
  arith,
  pow-suc 2 n,
  or_half a b,
  bit_or-lt n (a / 2) (b / 2) (omega (arith, pow-suc 2 n)) (omega (arith, pow-suc 2 n)),
)

pub bit_and-zero : (a : ℕ) → bit_and a 0 ≡ 0
bit_and-zero a = below a a (omega arith)
  where
    below : (n a : ℕ) → a ≤ n → bit_and a 0 ≡ 0
    below n zero h = refl
    below zero (suc a) h = absurd (omega arith)
    below (suc n) (suc a) h =
        omega (arith, and_low (suc a) 0, and_half (suc a) 0, below n (suc a / 2) (omega arith))

-- Masking out all but bit `j` leaves its value.
pub bit_and-pow : (a j : ℕ) → bit_and a (2 ^ j) ≡ bit a j * 2 ^ j
unfolding bit
bit_and-pow a zero = omega (arith, and_low a 1, and_half a 1, bit_and-zero (a / 2))
bit_and-pow a (suc j) = omega (
  arith,
  and_low a (2 ^ suc j),
  and_half a (2 ^ suc j),
  pow-suc 2 j,
  ap (λ (t : ℕ). bit_and (a / 2) t) half,
  bit_and-pow (a / 2) j,
  ap (λ (t : ℕ). bit (a / 2) j * t) (pow-suc 2 j),
)
  where
    half : 2 ^ suc j / 2 ≡ 2 ^ j
    half = omega (arith, pow-suc 2 j)

-- A word whose bits are all set is the greatest of its width.
pub all_set : (n a : ℕ) → a < 2 ^ n → ((j : ℕ) → j < n → bit a j ≡ 1) → a ≡ 2 ^ n - 1
unfolding bit
all_set zero a h ones = omega arith
all_set (suc n) a h ones = omega (
  arith,
  pow-suc 2 n,
  one-le-pow n 2,
  ones 0 (omega arith),
  all_set n (a / 2) (omega (arith, pow-suc 2 n)) (λ j k. ones (suc j) (omega arith)),
)

pub bit-ones : (n j : ℕ) → j < n → bit (2 ^ n - 1) j ≡ 1
bit-ones n j h =
    let same : 2 ^ n - 1 ≡ 2 ^ n - 1 - 0 = omega arith in
    omega (
      arith,
      ap (λ (t : ℕ). bit t j) same,
      bit-complement n 0 j (omega (arith, one-le-pow n 2)) h,
      bit-zero j,
    )
