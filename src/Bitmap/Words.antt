-- ===== src/Bitmap/Words.antt =====
-- One word of the map: the tests and updates of its bits, and the inner loop of the search.
use luck_os.Common.{
  ℕ, zero, suc, ◌+◌, ◌-◌, ◌^◌, ◌≤◌, ◌<◌, bit_and, bit_or, ◌≡◌, ap, sym, ◌∙◌, Bool, Option, ◌*◌, ◌⊎◌,
  inl, inr, true, none, some, arith, ◌==◌, if◌then◌else◌, Bool-cases,
}
use luck_os.Common.Bits.{
  bit, bit-le-one, bit-bit_and, bit-bit_or, bit-pow, bit-complement, bit_and-pow,
}
use luck_os.Bitmap.{scan_word, FirstFree}
use native.Mathlib.Nat.{one-le-pow, pow-le-pow_right}
use native.Mathlib.Decide.{dec_lt}

-- The code's test of bit `j`.
pub clear_test : (e j : ℕ) → (bit_and e (2 ^ j) == 0) ≡ (bit e j == 0)
clear_test e j = elim (cases (bit e j) (bit-le-one e j)) [
  | inl low ↦ ground (arith, bit_and-pow e j, ap (λ (t : ℕ). t * 2 ^ j) low)
  | inr high ↦ ground (arith, bit_and-pow e j, ap (λ (t : ℕ). t * 2 ^ j) high, one-le-pow j 2)
]
  where
    cases : (b : ℕ) → b ≤ 1 → (b ≡ 0) ⊎ (b ≡ 1)
    cases b h = omega arith

pub bit-set : (e j k : ℕ) → bit (bit_or e (2 ^ j)) k ≡ (if k == j then 1 else bit e k)
bit-set e j k = ground (arith, bit-bit_or e (2 ^ j) k, bit-pow j k, bit-le-one e k)

pub pow-lt : (j : ℕ) → j < 32 → 2 ^ j < 2 ^ 32
pow-lt j h =
    let most : 2 ^ j ≤ 2 ^ 31 =
      pow-le-pow_right {n = 2} (omega arith) {i = j} {j = 31} (omega arith) in
    omega arith

pub bit-clear :
    (e j k : ℕ)
    → j < 32
    → k < 32
    → bit (bit_and e (2 ^ 32 - 1 - 2 ^ j)) k ≡ (if k == j then 0 else bit e k)
bit-clear e j k h h' = ground (
  arith,
  bit-bit_and e (2 ^ 32 - 1 - 2 ^ j) k,
  bit-complement 32 (2 ^ j) k (pow-lt j h) h',
  bit-pow j k,
  bit-le-one e k,
)

-- More numbers of the set in front.
pub FirstFree-skip :
    (f : ℕ → Bool) (lo mid hi : ℕ) (r : Option ℕ)
    → lo ≤ mid
    → ((n : ℕ) → lo ≤ n → n < mid → f n ≡ true)
    → FirstFree f mid hi r
    → FirstFree f lo hi r
FirstFree-skip f lo mid hi none le front rest =
    λ n h k. elim (dec_lt n mid) [ yes near ↦ front n h near | no far ↦ rest n (omega arith) k ]
FirstFree-skip f lo mid hi (some r) le front rest = (
  omega (arith, rest.0),
  rest.1,
  rest.2,
  λ n h k. elim (dec_lt n mid) [ yes near ↦ front n h near | no far ↦ rest.3 n (omega arith) k ],
)

pub scan_word-FirstFree :
    (rounds j e hi : ℕ)
    → j + rounds ≡ hi
    → FirstFree (λ k. bit e k == 1) j hi (scan_word rounds j e)
unfolding scan_word
scan_word-FirstFree zero j e hi w = λ n lo less. absurd (omega arith)
scan_word-FirstFree (suc rounds) j e hi w = elim (Bool-cases (bit_and e (2 ^ j) == 0)) [
  | inl clear ↦
      rw clear
        (omega arith, omega arith, ground (arith, clear_test e j), λ n h k. absurd (omega arith))
  | inr busy ↦ rw busy (
      FirstFree-skip _ j (suc j) hi (scan_word rounds (suc j) e) (omega arith)
        (λ n h k. here n (omega arith) (ground (arith, clear_test e j, bit-le-one e j)))
        (scan_word-FirstFree rounds (suc j) e hi (omega arith)))
]
  where
    here : (n : ℕ) → j ≡ n → (bit e j == 1) ≡ true → (bit e n == 1) ≡ true
    here n same set = ap (λ (t : ℕ). bit e t == 1) (sym same) ∙ set
