-- ===== src/Bitmap/Find.antt =====
-- The outer loop of `bitmap_find_first_free`.
use luck_os.Common.{
  ℕ, zero, suc, ◌+◌, ◌*◌, ◌/◌, ◌%◌, ◌≤◌, ◌≡◌, refl, ap, ◌∙◌, inl, inr, true, Option, none, some,
  List, arith, ◌==◌, Bool-cases, ==_iff, length, get_or, get_elem?-get_or,
}
use luck_os.Common.Bits.{bit, bit-ones}
use luck_os.Bitmap.{
  Bitmap, IsValid, FirstFree, in_words, member, from_word, scan_words, bitmap_find_first_free,
}
use luck_os.Bitmap.Words.{FirstFree-skip, scan_word-FirstFree}

in_words-at :
    (words : List ℕ) (i n : ℕ)
    → n / 32 ≡ i
    → in_words words n ≡ (bit (get_or words i 0) (n % 32) == 1)
in_words-at words i n e = ap (λ (t : ℕ). bit (get_or words t 0) (n % 32) == 1) e

full_word :
    (words : List ℕ) (i n : ℕ)
    → (get_or words i 0 == 0xffff_ffff) ≡ true
    → n / 32 ≡ i
    → in_words words n ≡ true
full_word words i n full e =
    in_words-at words i n e
    ∙ ground (
      arith,
      ap (λ (t : ℕ). bit t (n % 32)) ((==_iff _ _).0 full),
      bit-ones 32 (n % 32) (omega arith),
    )

-- What a round makes of the inner loop's result `s`.
from_scan :
    (words : List ℕ) (i hi : ℕ) (r s : Option ℕ)
    → suc i ≤ hi
    → FirstFree (in_words words) (suc i * 32) (hi * 32) r
    → FirstFree (λ k. bit (get_or words i 0) k == 1) 0 32 s
    → (r' : Option ℕ) × (elim s [ some j ↦ some (some (i * 32 + j)) | none ↦ some r ] ≡ some r')
      × FirstFree (in_words words) (i * 32) (hi * 32) r'
from_scan words i hi r none le later word = (
  r,
  refl,
  FirstFree-skip _ _ (suc i * 32) _ r (omega arith)
      (λ n h k. in_words-at words i n (omega arith) ∙ word (n % 32) (omega arith) (omega arith))
      later,
)
from_scan words i hi r (some j) le later word = (
  some (i * 32 + j),
  refl,
  (
    omega arith,
    omega (arith, word.1),
    in_words-at words i (i * 32 + j) (omega (arith, word.1))
        ∙ ap (λ (t : ℕ). bit (get_or words i 0) t == 1) (omega (arith, word.1))
        ∙ word.2,
    λ n h k.
        in_words-at words i n (omega (arith, word.1))
        ∙ word.3 (n % 32) (omega arith) (omega (arith, word.1)),
  ),
)

-- One round: the word at `i`, and what the later rounds found.
from_word-FirstFree :
    (words : List ℕ) (i hi : ℕ) (r : Option ℕ)
    → suc i ≤ hi
    → FirstFree (in_words words) (suc i * 32) (hi * 32) r
    → (r' : Option ℕ) × (from_word i (get_or words i 0) (some r) ≡ some r')
      × FirstFree (in_words words) (i * 32) (hi * 32) r'
unfolding from_word
from_word-FirstFree words i hi r le later = elim (Bool-cases (get_or words i 0 == 0xffff_ffff)) [
  | inl full ↦ (
    r,
    rw full,
    FirstFree-skip _ _ (suc i * 32) _ r (omega arith)
        (λ n h k. full_word words i n full (omega arith)) later,
  )
  | inr room ↦
      let word = scan_word-FirstFree 32 0 (get_or words i 0) 32 (omega arith) in
      rw room (from_scan words i hi r _ le later word)
]

scan_words-FirstFree :
    (rounds i : ℕ) (words : List ℕ) (hi : ℕ)
    → i + rounds ≡ hi
    → hi ≤ length words
    → (r : Option ℕ) × (scan_words rounds i words ≡ some r)
      × FirstFree (in_words words) (i * 32) (hi * 32) r
unfolding scan_words
scan_words-FirstFree zero i words hi w le = (none, refl, λ n h k. absurd (omega arith))
scan_words-FirstFree (suc rounds) i words hi w le =
    let (r, run, first) = scan_words-FirstFree rounds (suc i) words hi (omega arith) le in
    let (r', step, first') = from_word-FirstFree words i hi r (omega arith) first in
    (r', rw (get_elem?-get_or words i 0 (omega arith), run) step, first')

-- On a valid map `bitmap_find_first_free` returns the least bit that is clear, and false only when
-- every bit is set.
pub bitmap_find_first_free-FirstFree :
    (b : Bitmap)
    → IsValid b
    → (r : Option ℕ) × (bitmap_find_first_free b ≡ some r)
      × FirstFree (member b) 0 (b.array_size * 32) r
unfolding bitmap_find_first_free member
bitmap_find_first_free-FirstFree b v =
    scan_words-FirstFree b.array_size 0 b.array b.array_size (omega arith) v.fits
