-- ===== src/IdPool/Free.antt =====
-- `id_pool_init`, and `id_pool_free_id`.
use luck_os.Common.{
  ℕ, ◌+◌, ◌/◌, ◌%◌, ◌^◌, ◌≤◌, ◌<◌, ◌≡◌, refl, ◌∙◌, false, none, some, List, arith, ◌==◌, length,
  if◌then◌else◌,
}
use luck_os.Bitmap.{AreWords}
use luck_os.Bitmap.Update.{bitmap_clear_bit-Updates}
use luck_os.Bitmap.Resize.{bitmap_init-IsCleared}
use luck_os.Sync.Yieldlock.{yieldlock_init}
use luck_os.IdPool.{IdPool, id_pool_init, id_pool_free_id}
use luck_os.IdPool.Spec.{IsSized, IsValid, holds}

-- `p'` is `p` with number `id` given back.
pub record Frees (p : IdPool) (id : ℕ) (p' : IdPool) : Type 0 where
  pub sized : IsSized p'
  pub same_size : p'.size ≡ p.size
  pub same_max : p'.max_size ≡ p.max_size
  pub given_back : (k : ℕ) → holds p' k ≡ (if k == id then false else holds p k)

-- For a number below the pool's size, `id_pool_free_id` gives back exactly that number.
pub id_pool_free_id-Frees :
    (p : IdPool) (id : ℕ)
    → IsSized p
    → id < p.size
    → (p' : IdPool) × (id_pool_free_id p id ≡ some p') × Frees p id p'
unfolding id_pool_free_id holds
id_pool_free_id-Frees p id ok h =
    let (id_map, run, u) =
      bitmap_clear_bit-Updates p.id_map id ok.map
        (omega (arith, ok.map.sized, ok.total, ok.size_aligned)) in
    (
      record p { id_map = id_map },
      rw run,
      record {
        sized = record {
          map = u.valid;
          total = u.total_bits ∙ ok.total;
          size_aligned = ok.size_aligned;
          expand_aligned = ok.expand_aligned;
          max_aligned = ok.max_aligned;
          grows = ok.grows;
          bounded = ok.bounded;
          small = ok.small;
        };
        same_size = refl;
        same_max = refl;
        given_back = λ k. ground (arith, u.members k);
      },
    )

-- With sizes that are positive multiples of 32 whose sum does not wrap, and a block with room,
-- `id_pool_init` makes a valid pool that has handed out nothing.
id_pool_init-IsValid :
    (block : List ℕ) (size max_size : ℕ)
    → AreWords block
    → size / 32 ≤ length block
    → size % 32 ≡ 0
    → max_size % 32 ≡ 0
    → 0 < size
    → size ≤ max_size
    → max_size + size < 2 ^ 32
    → (p : IdPool) × (id_pool_init block size max_size ≡ some p)
      × IsValid p
      × (p.max_size ≡ max_size)
      × ((k : ℕ) → holds p k ≡ false)
unfolding id_pool_init yieldlock_init holds
id_pool_init-IsValid block size max_size words room aligned max_aligned grows le small =
    let (id_map, run, c) = bitmap_init-IsCleared none block size room words in
    (
      record {
        size = size;
        max_size = max_size;
        expand_size = size;
        id_map = id_map;
        lock = yieldlock_init;
      },
      rw run,
      record {
        sized = record {
          map = c.valid;
          total = c.total;
          size_aligned = aligned;
          expand_aligned = aligned;
          max_aligned = max_aligned;
          grows = grows;
          bounded = le;
          small = small;
        };
        free = refl;
      },
      refl,
      λ k. ground (arith, c.clear k, c.valid.sized, c.total),
    )
