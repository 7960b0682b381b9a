-- ===== src/Bitmap/Resize.antt =====
-- The operations that fill a whole array: creation, clearing and growth.
use luck_os.Common.{
  ℕ, zero, suc, ◌+◌, ◌*◌, ◌/◌, ◌%◌, ◌^◌, ◌≤◌, ◌<◌, ◌≡◌, refl, ap, Bool, true, false, Option, none,
  some, List, arith, ◌>>=◌, ◌&&◌, leb, ltb, length, get_or, set, get_elem?-get_or, set?-set,
  length-set, get_or-set, if◌then◌else◌, ℕ_discrete,
}
use luck_os.Common.Bits.{bit, bit-zero}
use luck_os.Bitmap.{
  Bitmap, IsValid, AreWords, member, zero_words, copy_words, bitmap_init, bitmap_clear,
  bitmap_expand,
}

-- `words'` is `words` with entry `j` made `f j` for `i ≤ j < i + n`.
record Filled (f : ℕ → ℕ) (n i : ℕ) (words words' : List ℕ) : Type 0 where
  size : length words' ≡ length words
  entries :
      (j : ℕ) → get_or words' j 0 ≡ (if leb i j && ltb j (i + n) then f j else get_or words j 0)

Filled-none : (f : ℕ → ℕ) (i : ℕ) (words : List ℕ) → Filled f 0 i words words
Filled-none f i words = record { size = refl; entries = λ j. ground arith }

Filled-step :
    (f : ℕ → ℕ) (n i : ℕ) (words words' : List ℕ)
    → i < length words
    → Filled f n (suc i) (set words i (f i)) words'
    → Filled f (suc n) i words words'
Filled-step f n i words words' h rest = record {
  size = omega (arith, rest.size, length-set words i (f i));
  entries = λ j. elim (ℕ_discrete j i) [
    | yes e ↦ ground (arith, rest.entries j, get_or-set words i j (f i) h, ap f e)
    | no ne ↦ ground (arith, rest.entries j, get_or-set words i j (f i) h)
  ];
}

zero_words-Filled :
    (n i : ℕ) (words : List ℕ)
    → i + n ≤ length words
    → (words' : List ℕ) × (zero_words n i words ≡ some words') × Filled (λ _. 0) n i words words'
unfolding zero_words
zero_words-Filled zero i words h = (words, refl, Filled-none _ i words)
zero_words-Filled (suc n) i words h =
    let (words', run, filled) =
      zero_words-Filled n (suc i) (set words i 0) (omega (arith, length-set words i 0)) in
    (
      words',
      rw (set?-set words i 0 (omega arith)) run,
      Filled-step _ n i words words' (omega arith) filled,
    )

copy_words-Filled :
    (n i : ℕ) (source words : List ℕ)
    → i + n ≤ length source
    → i + n ≤ length words
    → (words' : List ℕ) × (copy_words n i source words ≡ some words')
      × Filled (λ j. get_or source j 0) n i words words'
unfolding copy_words
copy_words-Filled zero i source words h k = (words, refl, Filled-none _ i words)
copy_words-Filled (suc n) i source words h k =
    let word = get_or source i 0 in
    let (words', run, filled) =
      copy_words-Filled n (suc i) source (set words i word) (omega arith)
        (omega (arith, length-set words i word)) in
    (
      words',
      rw (get_elem?-get_or source i 0 (omega arith), ◌>>=◌, set?-set words i word (omega arith))
          run,
      Filled-step _ n i words words' (omega arith) filled,
    )

Filled-AreWords :
    (f : ℕ → ℕ) (n i : ℕ) (words words' : List ℕ)
    → ((j : ℕ) → f j < 2 ^ 32)
    → AreWords words
    → Filled f n i words words'
    → AreWords words'
Filled-AreWords f n i words words' small old filled =
    λ j. ground (arith, filled.entries j, small j, old j)

-- The array that `bitmap_init` works on.
abbrev target : Option (List ℕ) → List ℕ → List ℕ
target none block = block
target (some array) block = array

abbrev is_null : Option (List ℕ) → Bool
is_null none = true
is_null (some array) = false

-- `b` is a valid map of `total_bits` bits, all of them clear.
pub record IsCleared (total_bits : ℕ) (alloc_array : Bool) (b : Bitmap) : Type 0 where
  pub valid : IsValid b
  pub total : b.total_bits ≡ total_bits
  pub alloc : b.alloc_array ≡ alloc_array
  pub clear : (n : ℕ) → n < b.array_size * 32 → member b n ≡ false

zero-member :
    (b : Bitmap) (n k : ℕ) (words : List ℕ)
    → Filled (λ _. 0) k 0 words b.array
    → n < k * 32
    → member b n ≡ false
unfolding member
zero-member b n k words filled h = ground (
  arith,
  filled.entries (n / 32),
  ap (λ (t : ℕ). bit t (n % 32)) (filled.entries (n / 32)),
  bit-zero (n % 32),
)

cleared :
    (total_bits size : ℕ) (alloc_array : Bool) (words words' : List ℕ)
    → size ≡ total_bits / 32
    → size ≤ length words
    → AreWords words
    → Filled (λ _. 0) size 0 words words'
    → IsCleared total_bits alloc_array (record {
      array = words';
      alloc_array = alloc_array;
      array_size = size;
      total_bits = total_bits;
    })
cleared total_bits size alloc_array words words' sized h small filled = record {
  valid = record {
    fits = omega (arith, filled.size);
    are_words = Filled-AreWords _ _ 0 words words' (λ j. omega arith) small filled;
    sized = sized;
  };
  total = refl;
  alloc = refl;
  clear = λ n less. zero-member _ n size words filled less;
}

init_result : List ℕ → Bool → ℕ → Bitmap
init_result words owned total_bits = record {
  array = words;
  alloc_array = owned;
  array_size = total_bits / 32;
  total_bits = total_bits;
}

-- On an array, or a new block, with room for `total_bits / 32` words, `bitmap_init` makes a valid map
-- of that many bits with every bit clear, which owns the array exactly when the caller gave none.
pub bitmap_init-IsCleared :
    (array : Option (List ℕ)) (block : List ℕ) (total_bits : ℕ)
    → total_bits / 32 ≤ length (target array block)
    → AreWords (target array block)
    → (b : Bitmap) × (bitmap_init array block total_bits ≡ some b)
      × IsCleared total_bits (is_null array) b
unfolding bitmap_init init_result
bitmap_init-IsCleared none block total_bits h small =
    let (words, run, filled) = zero_words-Filled (total_bits / 32) 0 block (omega arith) in
    (
      init_result words true total_bits,
      rw run,
      cleared total_bits _ true block words refl h small filled,
    )
bitmap_init-IsCleared (some array) block total_bits h small =
    let (words, run, filled) = zero_words-Filled (total_bits / 32) 0 array (omega arith) in
    (
      init_result words false total_bits,
      rw run,
      cleared total_bits _ false array words refl h small filled,
    )

-- On a valid map `bitmap_clear` clears every bit, and keeps the size and the ownership.
bitmap_clear-IsCleared :
    (b : Bitmap)
    → IsValid b
    → (b' : Bitmap) × (bitmap_clear b ≡ some b') × IsCleared b.total_bits b.alloc_array b'
unfolding bitmap_clear
bitmap_clear-IsCleared b ok =
    let (words, run, filled) = zero_words-Filled b.array_size 0 b.array (omega (arith, ok.fits)) in
    (
      record b { array = words },
      rw run,
      cleared b.total_bits b.array_size b.alloc_array b.array words ok.sized ok.fits ok.are_words
          filled,
    )

-- `b'` is `b` grown to `total_bits` bits: the old ones are kept and the new ones are clear.
pub record Expands (b : Bitmap) (total_bits : ℕ) (b' : Bitmap) : Type 0 where
  pub valid : IsValid b'
  pub total : b'.total_bits ≡ total_bits
  pub owned : b'.alloc_array ≡ true
  pub members :
      (n : ℕ)
      → n < b'.array_size * 32
      → member b' n ≡ (if ltb n (b.array_size * 32) then member b n else false)

-- On a valid map, a size that is not smaller and a new block with room, `bitmap_expand` keeps the old
-- bits, clears the new ones, and frees the old array exactly when the map owned it.
pub bitmap_expand-Expands :
    (b : Bitmap) (block : List ℕ) (expand_size : ℕ)
    → IsValid b
    → AreWords block
    → b.array_size ≤ expand_size / 32
    → expand_size / 32 ≤ length block
    → (b' : Bitmap) × (bitmap_expand b block expand_size ≡ some (b', b.alloc_array))
      × Expands b expand_size b'
unfolding bitmap_expand member
bitmap_expand-Expands b block expand_size ok small grows room =
    let (zeroed, run, clean) = zero_words-Filled (expand_size / 32) 0 block (omega arith) in
    let (words, run', copied) =
      copy_words-Filled b.array_size 0 b.array zeroed (omega (arith, ok.fits))
        (omega (arith, clean.size)) in
    (
      record {
        array = words;
        alloc_array = true;
        array_size = expand_size / 32;
        total_bits = expand_size;
      },
      rw (run, ◌>>=◌, run'),
      record {
        valid = record {
          fits = omega (arith, clean.size, copied.size);
          are_words =
              Filled-AreWords _ _ 0 zeroed words ok.are_words
                (Filled-AreWords _ _ 0 block zeroed (λ j. omega arith) small clean) copied;
          sized = refl;
        };
        total = refl;
        owned = refl;
        members = λ n h. ground (
          arith,
          ap (λ (t : ℕ). bit t (n % 32)) (copied.entries (n / 32)),
          ap (λ (t : ℕ). bit t (n % 32)) (clean.entries (n / 32)),
          bit-zero (n % 32),
        );
      },
    )
