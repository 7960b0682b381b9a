-- ===== src/Bitmap.antt =====
-- src/utils/bitmap.c and bitmap.h: a bitmap over an array of 32-bit words.
-- The words that `this->array` points to are a list. An access outside of it is a fault, `none`.
-- What `kmalloc` hands out is the argument `block`: its words, with arbitrary contents.
pub mod Words
pub mod Find
pub mod Update
pub mod Resize
mod Tests
use luck_os.Common.{
  ℕ, zero, suc, ◌+◌, ◌-◌, ◌*◌, ◌/◌, ◌%◌, ◌^◌, bit_and, bit_or, Bool, true, false, not, Option, none,
  some, List, ◌==◌, if◌then◌else◌, ◌>>=◌, get_elem?, set?, get_or, length, ◌≤◌, ◌<◌, ◌≡◌,
}
use luck_os.Common.Bits.{bit}

pub record Bitmap : Type 0 where
  pub array : List ℕ
  pub alloc_array : Bool
  pub array_size : ℕ
  pub total_bits : ℕ

-- `for (i = 0; i < n; i++) array[i] = 0;` from round `i` on.
unfoldable pub zero_words : ℕ → ℕ → List ℕ → Option (List ℕ)
zero_words zero i array = some array
zero_words (suc n) i array = do array' ← set? array i 0; zero_words n (suc i) array'

-- `array` is `none` for a null pointer.
unfoldable pub bitmap_init : Option (List ℕ) → List ℕ → ℕ → Option Bitmap
bitmap_init none block total_bits = do
  words ← zero_words (total_bits / 32) 0 block
  some (record {
    array = words;
    alloc_array = true;
    array_size = total_bits / 32;
    total_bits = total_bits;
  })
bitmap_init (some array) block total_bits = do
  words ← zero_words (total_bits / 32) 0 array
  some (record {
    array = words;
    alloc_array = false;
    array_size = total_bits / 32;
    total_bits = total_bits;
  })

bitmap_create : Option (List ℕ) → List ℕ → ℕ → Option Bitmap
bitmap_create array block total_bits = bitmap_init array block total_bits

unfoldable pub bitmap_set_bit : Bitmap → ℕ → Option Bitmap
bitmap_set_bit b n = do
  word ← get_elem? b.array (n / 32)
  array ← set? b.array (n / 32) (bit_or word (2 ^ (n % 32)))
  some (record b { array = array })

pub bitmap_clear_bit : Bitmap → ℕ → Option Bitmap
bitmap_clear_bit b n = do
  word ← get_elem? b.array (n / 32)
  array ← set? b.array (n / 32) (bit_and word (2 ^ 32 - 1 - 2 ^ (n % 32)))
  some (record b { array = array })

pub bitmap_test_bit : Bitmap → ℕ → Option Bool
bitmap_test_bit b n = do
  word ← get_elem? b.array (n / 32)
  some (not (bit_and word (2 ^ (n % 32)) == 0))

-- The inner loop of `bitmap_find_first_free`, with `rounds` rounds left: the first `j` whose bit of
-- `ele` is clear.
unfoldable pub scan_word : ℕ → ℕ → ℕ → Option ℕ
scan_word zero j ele = none
scan_word (suc rounds) j ele =
    let rest = scan_word rounds (suc j) ele in if bit_and ele (2 ^ j) == 0 then some j else rest

-- What the outer loop does with one word; `rest` is what its later rounds return.
unfoldable pub from_word : ℕ → ℕ → Option (Option ℕ) → Option (Option ℕ)
from_word i ele rest =
    if ele == 0xffff_ffff
    then rest
    else elim (scan_word 32 0 ele) [ some j ↦ some (some (i * 32 + j)) | none ↦ rest ]

-- The outer loop. `some none` is the result false.
unfoldable pub scan_words : ℕ → ℕ → List ℕ → Option (Option ℕ)
scan_words zero i array = some none
scan_words (suc rounds) i array = do
  ele ← get_elem? array i
  from_word i ele (scan_words rounds (suc i) array)

-- `some (some n)` is the result true with `*bit = n`.
unfoldable pub bitmap_find_first_free : Bitmap → Option (Option ℕ)
bitmap_find_first_free b = scan_words b.array_size 0 b.array

unfoldable pub bitmap_allocate_first_free : Bitmap → Option (Option ℕ × Bitmap)
bitmap_allocate_first_free b = do
  found ← bitmap_find_first_free b
  elim found [ none ↦ some (none, b) | some n ↦ bitmap_set_bit b n >>= λ b'. some (some n, b') ]

pub bitmap_clear : Bitmap → Option Bitmap
bitmap_clear b = do array ← zero_words b.array_size 0 b.array; some (record b { array = array })

-- `for (i = 0; i < n; i++) array[i] = this->array[i];` from round `i` on.
unfoldable pub copy_words : ℕ → ℕ → List ℕ → List ℕ → Option (List ℕ)
copy_words zero i source array = some array
copy_words (suc n) i source array = do
  word ← get_elem? source i
  array' ← set? array i word
  copy_words n (suc i) source array'

-- The new bitmap, and whether the old array is freed.
unfoldable pub bitmap_expand : Bitmap → List ℕ → ℕ → Option (Bitmap × Bool)
bitmap_expand b block expand_size = do
  zeroed ← zero_words (expand_size / 32) 0 block
  array ← copy_words b.array_size 0 b.array zeroed
  some (
    record {
      array = array;
      alloc_array = true;
      array_size = expand_size / 32;
      total_bits = expand_size;
    },
    b.alloc_array,
  )

-- Whether `bitmap_destroy` frees the array.
pub bitmap_destroy : Bitmap → Bool
bitmap_destroy b = b.alloc_array

-- Bit `n` of the map, read off the words.
abbrev pub in_words : List ℕ → ℕ → Bool
in_words words n = bit (get_or words (n / 32) 0) (n % 32) == 1

pub member : Bitmap → ℕ → Bool
member b n = in_words b.array n

abbrev pub AreWords : List ℕ → Type 0
AreWords xs = (i : ℕ) → get_or xs i 0 < 2 ^ 32

-- The array is there, and it holds 32-bit words.
pub record IsValid (b : Bitmap) : Type 0 where
  pub fits : b.array_size ≤ length b.array
  pub are_words : AreWords b.array
  pub sized : b.array_size ≡ b.total_bits / 32

-- The first number of `lo ≤ n < hi` that is not in the set, if there is one.
abbrev pub FirstFree : (ℕ → Bool) → ℕ → ℕ → Option ℕ → Type 0
FirstFree f lo hi none = (n : ℕ) → lo ≤ n → n < hi → f n ≡ true
FirstFree f lo hi (some r) =
    (lo ≤ r) × (r < hi) × (f r ≡ false) × ((n : ℕ) → lo ≤ n → n < r → f n ≡ true)
