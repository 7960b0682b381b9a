-- ===== src/Bitmap/Tests.antt =====
-- Runs of bitmap.c on small maps, and the theorems at them.
use luck_os.Common.{
  ℕ, zero, suc, ◌≡◌, refl, true, Option, none, some, List, [], ◌∷◌, arith, replicate,
}
use luck_os.Bitmap.{
  Bitmap, IsValid, AreWords, zero_words, scan_word, from_word, scan_words, bitmap_init,
  bitmap_set_bit, bitmap_find_first_free, bitmap_allocate_first_free, bitmap_expand,
}
use luck_os.Bitmap.Update.{Allocates, bitmap_allocate_first_free-Allocates}
use luck_os.Bitmap.Resize.{Expands, bitmap_expand-Expands}

-- 64 bits: the first word is full, and the second has its bits 0 and 2 set.
abbrev sample : Bitmap
sample = record {
  array = 0xffff_ffff ∷ 5 ∷ [];
  alloc_array = true;
  array_size = 2;
  total_bits = 64;
}

sample-AreWords : AreWords (0xffff_ffff ∷ 5 ∷ [])
sample-AreWords zero = omega arith
sample-AreWords (suc zero) = omega arith
sample-AreWords (suc (suc i)) = omega arith

sample-IsValid : IsValid sample
sample-IsValid = record { fits = omega arith; are_words = sample-AreWords; sized = refl }

abbrev block : List ℕ
block = replicate 4 7

block-AreWords : AreWords block
block-AreWords zero = omega arith
block-AreWords (suc zero) = omega arith
block-AreWords (suc (suc zero)) = omega arith
block-AreWords (suc (suc (suc zero))) = omega arith
block-AreWords (suc (suc (suc (suc i)))) = omega arith

finds : bitmap_find_first_free sample ≡ some (some 33)
unfolding bitmap_find_first_free scan_words from_word scan_word
finds = refl

-- A bit behind the array is a fault.
set_outside : bitmap_set_bit sample 64 ≡ none
unfolding bitmap_set_bit
set_outside = refl

-- 40 bits need two words, but one is made.
init_rounds_down :
    bitmap_init none block 40
    ≡ some
        (record { array = 0 ∷ 7 ∷ 7 ∷ 7 ∷ []; alloc_array = true; array_size = 1; total_bits = 40 })
unfolding bitmap_init zero_words
init_rounds_down = refl

bitmap_allocate_first_free-Allocates_example :
    (out : Option ℕ × Bitmap) × (bitmap_allocate_first_free sample ≡ some out)
    × Allocates sample out
bitmap_allocate_first_free-Allocates_example =
    bitmap_allocate_first_free-Allocates sample sample-IsValid

bitmap_expand-Expands_example :
    (b' : Bitmap) × (bitmap_expand sample block 128 ≡ some (b', true)) × Expands sample 128 b'
bitmap_expand-Expands_example =
    bitmap_expand-Expands sample block 128 sample-IsValid block-AreWords (omega arith) (omega arith)
