-- ===== src/Bitmap/Update.antt =====
-- The operations that read or change one bit, and the allocation of the first clear one.
use luck_os.Common.{
  ℕ, ◌-◌, ◌*◌, ◌/◌, ◌%◌, ◌^◌, ◌<◌, ◌≡◌, refl, ap, Bool, true, false, Option, none, some, List,
  arith, ◌==◌, ◌>>=◌, length, get_or, set, get_elem?-get_or, set?-set, length-set, get_or-set,
  if◌then◌else◌, bit_and, bit_or,
}
use luck_os.Common.Bits.{bit, bit-le-one, bit_and-lt, bit_or-lt}
use luck_os.Bitmap.{
  Bitmap, IsValid, AreWords, FirstFree, member, bitmap_set_bit, bitmap_clear_bit, bitmap_test_bit,
  bitmap_find_first_free, bitmap_allocate_first_free,
}
use luck_os.Bitmap.Words.{bit-set, bit-clear, clear_test, pow-lt}
use luck_os.Bitmap.Find.{bitmap_find_first_free-FirstFree}

-- `b'` is `b` with bit `n` made `v`.
pub record Updates (b : Bitmap) (n : ℕ) (v : Bool) (b' : Bitmap) : Type 0 where
  pub valid : IsValid b'
  pub array_size : b'.array_size ≡ b.array_size
  pub total_bits : b'.total_bits ≡ b.total_bits
  pub alloc_array : b'.alloc_array ≡ b.alloc_array
  pub members : (k : ℕ) → member b' k ≡ (if k == n then v else member b k)

set-AreWords :
    (words : List ℕ) (i w : ℕ)
    → i < length words
    → AreWords words
    → w < 2 ^ 32
    → AreWords (set words i w)
set-AreWords words i w h all less = λ j. ground (arith, get_or-set words i j w h, all j)

-- A write of a word that differs from the old one at most in bit `n` of the map.
write_word :
    (b : Bitmap) (n w : ℕ) (v : Bool)
    → IsValid b
    → n < b.array_size * 32
    → w < 2 ^ 32
    → ((j : ℕ)
        → j < 32
        → (bit w j == 1) ≡ (if j == n % 32 then v else bit (get_or b.array (n / 32) 0) j == 1))
    → Updates b n v (record b { array = set b.array (n / 32) w })
unfolding member
write_word b n w v ok h less bits = record {
  valid = record {
    fits = omega (arith, length-set b.array (n / 32) w, ok.fits);
    are_words = set-AreWords b.array (n / 32) w (omega (arith, ok.fits)) ok.are_words less;
    sized = ok.sized;
  };
  array_size = refl;
  total_bits = refl;
  alloc_array = refl;
  members = λ k. ground (
    arith,
    get_or-set b.array (n / 32) (k / 32) w (omega (arith, ok.fits)),
    bits (k % 32) (omega arith),
    ap (λ (t : ℕ). bit t (k % 32))
        (get_or-set b.array (n / 32) (k / 32) w (omega (arith, ok.fits))),
  );
}

-- On a valid map and a bit within it, `bitmap_set_bit` sets that bit and no other.
bitmap_set_bit-Updates :
    (b : Bitmap) (n : ℕ)
    → IsValid b
    → n < b.array_size * 32
    → (b' : Bitmap) × (bitmap_set_bit b n ≡ some b') × Updates b n true b'
unfolding bitmap_set_bit
bitmap_set_bit-Updates b n ok h =
    let inside : n / 32 < length b.array = omega (arith, ok.fits) in
    let word = get_or b.array (n / 32) 0 in
    (
      record b { array = set b.array (n / 32) (bit_or word (2 ^ (n % 32))) },
      rw (
        get_elem?-get_or b.array (n / 32) 0 inside,
        ◌>>=◌,
        set?-set b.array (n / 32) (bit_or word (2 ^ (n % 32))) inside,
      ),
      write_word b n _ true ok h
          (bit_or-lt 32 word (2 ^ (n % 32)) (ok.are_words (n / 32)) (pow-lt (n % 32) (omega arith)))
          (λ j less. ground (arith, bit-set word (n % 32) j)),
    )

-- On a valid map and a bit within it, `bitmap_clear_bit` clears that bit and no other.
pub bitmap_clear_bit-Updates :
    (b : Bitmap) (n : ℕ)
    → IsValid b
    → n < b.array_size * 32
    → (b' : Bitmap) × (bitmap_clear_bit b n ≡ some b') × Updates b n false b'
unfolding bitmap_clear_bit
bitmap_clear_bit-Updates b n ok h =
    let inside : n / 32 < length b.array = omega (arith, ok.fits) in
    let word = get_or b.array (n / 32) 0 in
    let mask : ℕ = 2 ^ 32 - 1 - 2 ^ (n % 32) in
    (
      record b { array = set b.array (n / 32) (bit_and word mask) },
      rw (
        get_elem?-get_or b.array (n / 32) 0 inside,
        ◌>>=◌,
        set?-set b.array (n / 32) (bit_and word mask) inside,
      ),
      write_word b n _ false ok h (bit_and-lt 32 word mask (ok.are_words (n / 32)))
          (λ j less. ground (arith, bit-clear word (n % 32) j (omega arith) less)),
    )

-- On a valid map and a bit within it, `bitmap_test_bit` reads that bit.
bitmap_test_bit-member :
    (b : Bitmap) (n : ℕ)
    → IsValid b
    → n < b.array_size * 32
    → bitmap_test_bit b n ≡ some (member b n)
unfolding bitmap_test_bit member
bitmap_test_bit-member b n ok h =
    let inside : n / 32 < length b.array = omega (arith, ok.fits) in
    let word = get_or b.array (n / 32) 0 in
    rw (get_elem?-get_or b.array (n / 32) 0 inside, ◌>>=◌)
      (ground (arith, clear_test word (n % 32), bit-le-one word (n % 32)))

-- The two results of an allocation.
abbrev pub Allocates : Bitmap → Option ℕ × Bitmap → Type 0
Allocates b (none, b') = (b' ≡ b) × ((n : ℕ) → n < b.array_size * 32 → member b n ≡ true)
Allocates b (some n, b') = FirstFree (member b) 0 (b.array_size * 32) (some n) × Updates b n true b'

allocate_from :
    (b : Bitmap) (r : Option ℕ)
    → IsValid b
    → bitmap_find_first_free b ≡ some r
    → FirstFree (member b) 0 (b.array_size * 32) r
    → (out : Option ℕ × Bitmap) × (bitmap_allocate_first_free b ≡ some out) × Allocates b out
unfolding bitmap_allocate_first_free
allocate_from b none ok run first =
    ((none, b), rw (run, ◌>>=◌), (refl, λ n h. first n (omega arith) h))
allocate_from b (some n) ok run first =
    let (b', set, updates) = bitmap_set_bit-Updates b n ok first.1 in
    ((some n, b'), rw (run, ◌>>=◌, set), (first, updates))

-- On a valid map `bitmap_allocate_first_free` returns the least clear bit, which is then set while
-- every other bit keeps its value; it returns false only when every bit is set, and then the map is
-- as it was.
pub bitmap_allocate_first_free-Allocates :
    (b : Bitmap)
    → IsValid b
    → (out : Option ℕ × Bitmap) × (bitmap_allocate_first_free b ≡ some out) × Allocates b out
bitmap_allocate_first_free-Allocates b ok =
    let (r, run, first) = bitmap_find_first_free-FirstFree b ok in allocate_from b r ok run first
