-- ===== src/IdPool/Tests.antt =====
-- Runs of id_pool.c on a pool of 32 numbers that may grow to 64, and the theorems at it.
use luck_os.Common.{ℕ, zero, suc, ◌≡◌, refl, true, none, some, List, [], ◌∷◌, arith}
use luck_os.Bitmap.{
  AreWords, zero_words, copy_words, scan_word, from_word, scan_words, bitmap_init, bitmap_set_bit,
  bitmap_find_first_free, bitmap_allocate_first_free, bitmap_expand,
}
use luck_os.Sync.Yieldlock.{yieldlock_init, yieldlock_lock, yieldlock_unlock}
use luck_os.IdPool.{
  IdPool, Allocated, expand, from_map, allocate_slow, id_pool_init, id_pool_allocate_id,
  id_pool_free_id,
}
use luck_os.IdPool.Spec.{IsSized, IsValid, Outcome}
use luck_os.IdPool.Allocate.{id_pool_allocate_id-Outcome}
use luck_os.IdPool.Free.{Frees, id_pool_free_id-Frees}

abbrev pool : ℕ → ℕ → IdPool
pool word max_size = record {
  size = 32;
  max_size = max_size;
  expand_size = 32;
  id_map = record { array = word ∷ []; alloc_array = true; array_size = 1; total_bits = 32 };
  lock = record { hold = 0 };
}

full-AreWords : AreWords (0xffff_ffff ∷ [])
full-AreWords zero = omega arith
full-AreWords (suc i) = omega arith

pool-IsSized : IsSized (pool 0xffff_ffff 64)
pool-IsSized = record {
  map = record { fits = omega arith; are_words = full-AreWords; sized = refl };
  total = refl;
  size_aligned = refl;
  expand_aligned = refl;
  max_aligned = refl;
  grows = omega arith;
  bounded = omega arith;
  small = omega arith;
}

pool-IsValid : IsValid (pool 0xffff_ffff 64)
pool-IsValid = record { sized = pool-IsSized; free = refl }

abbrev block : List ℕ
block = 9 ∷ 9 ∷ []

block-AreWords : AreWords block
block-AreWords zero = omega arith
block-AreWords (suc zero) = omega arith
block-AreWords (suc (suc i)) = omega arith

program : Unit {0}
unfolding zero_words copy_words scan_word from_word scan_words bitmap_init bitmap_set_bit
    bitmap_find_first_free bitmap_allocate_first_free bitmap_expand yieldlock_init yieldlock_lock
    yieldlock_unlock expand from_map allocate_slow id_pool_init id_pool_allocate_id id_pool_free_id
program = tt

-- A pool with no number left answers 255, which is true.
exhausted_is_true :
    id_pool_allocate_id [] 1 (pool 0xffff_ffff 32) ≡ some (255, none, pool 0xffff_ffff 32)
unfolding program
exhausted_is_true = refl

-- Where `expand` happens to return 0, the call fails with the lock held.
keeps_lock :
    id_pool_allocate_id block 0 (pool 0xffff_ffff 64)
    ≡ some (
      0,
      none,
      record {
        size = 64;
        max_size = 64;
        expand_size = 32;
        id_map = record {
          array = 0xffff_ffff ∷ 0 ∷ [];
          alloc_array = true;
          array_size = 2;
          total_bits = 64;
        };
        lock = record { hold = 1 };
      },
    )
unfolding program
keeps_lock = refl

id_pool_allocate_id-Outcome_example :
    (o : Allocated) × (id_pool_allocate_id block 1 (pool 0xffff_ffff 64) ≡ some o)
    × Outcome (pool 0xffff_ffff 64) o
id_pool_allocate_id-Outcome_example =
    id_pool_allocate_id-Outcome block 1 block-AreWords (omega arith) (pool 0xffff_ffff 64)
      pool-IsValid (omega arith)

id_pool_free_id-Frees_example :
    (p' : IdPool) × (id_pool_free_id (pool 0xffff_ffff 64) 7 ≡ some p')
    × Frees (pool 0xffff_ffff 64) 7 p'
id_pool_free_id-Frees_example =
    id_pool_free_id-Frees (pool 0xffff_ffff 64) 7 pool-IsSized (omega arith)
