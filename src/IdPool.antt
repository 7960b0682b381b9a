-- ===== src/IdPool.antt =====
-- src/utils/id_pool.c and id_pool.h: a pool of numbers over a bitmap that grows.
-- `expand` has no `return` behind its last statement, so its result on that path is whatever the
-- register holds: the argument `residue`. `block` is what `kmalloc` hands out for the new array.
-- A call is `none` when it faults or waits for the pool's lock.
pub mod Spec
pub mod Grow
pub mod Allocate
pub mod Free
mod Tests
use luck_os.Common.{
  ℕ, ◌+◌, ◌%◌, ◌^◌, Bool, true, false, Option, none, some, List, [], ◌==◌, ltb, if◌then◌else◌,
  ◌>>=◌,
}
use luck_os.Bitmap.{
  Bitmap, bitmap_init, bitmap_set_bit, bitmap_clear_bit, bitmap_allocate_first_free, bitmap_expand,
  bitmap_destroy,
}
use luck_os.Sync.Yieldlock.{Yieldlock, yieldlock_init, yieldlock_lock, yieldlock_unlock}
use luck_os.Utils.Math.{min}

pub record IdPool : Type 0 where
  pub size : ℕ
  pub max_size : ℕ
  pub expand_size : ℕ
  pub id_map : Bitmap
  pub lock : Yieldlock

pub id_pool_init : List ℕ → ℕ → ℕ → Option IdPool
id_pool_init block size max_size = do
  id_map ← bitmap_init none block size
  some (record {
    size = size;
    max_size = max_size;
    expand_size = size;
    id_map = id_map;
    lock = yieldlock_init;
  })

id_pool_set_id : IdPool → ℕ → Option IdPool
id_pool_set_id pool id = do
  id_map ← bitmap_set_bit pool.id_map id
  some (record pool { id_map = id_map })

-- The result as a `bool`, which is an 8-bit number here, and the pool.
pub expand : List ℕ → ℕ → IdPool → Option (ℕ × IdPool)
expand block residue pool =
    let new_size = min ((pool.size + pool.expand_size) % 2 ^ 32) pool.max_size in
    if new_size == pool.size
    then some (0, pool)
    else bitmap_expand pool.id_map block new_size >>= λ grown.
        some (residue, record pool { size = new_size; id_map = grown.0 })

-- The result, the value written to `*id` if one is, and the pool.
abbrev pub Allocated : Type 0
Allocated = ℕ × Option ℕ × IdPool

-- The last allocation: `true` and the number, or `false`.
pub from_map : IdPool → Option (Option ℕ × Bitmap) → Option Allocated
from_map pool none = none
from_map pool (some (none, id_map)) = some (0, none, record pool { id_map = id_map })
from_map pool (some (some id, id_map)) = some (1, some id, record pool { id_map = id_map })

-- The part behind a first search that failed. `-1` as a `bool` is 255.
pub allocate_slow : List ℕ → ℕ → IdPool → Option Allocated
allocate_slow block residue pool =
    if pool.size == pool.max_size
    then some (255, none, record pool { lock = yieldlock_unlock pool.lock })
    else expand block residue pool >>= λ (success, pool').
        if success == 0
        then some (0, none, pool')
        else from_map (record pool' { lock = yieldlock_unlock pool'.lock })
            (bitmap_allocate_first_free pool'.id_map)

pub id_pool_allocate_id : List ℕ → ℕ → IdPool → Option Allocated
id_pool_allocate_id block residue pool = do
  lock ← yieldlock_lock [] pool.lock
  let held = record pool { lock = lock }
  (found, id_map) ← bitmap_allocate_first_free held.id_map
  elim found [
    | none ↦ allocate_slow block residue (record held { id_map = id_map })
    | some id ↦
        some (1, some id, record held { id_map = id_map; lock = yieldlock_unlock held.lock })
  ]

pub id_pool_free_id : IdPool → ℕ → Option IdPool
id_pool_free_id pool id = do
  id_map ← bitmap_clear_bit pool.id_map id
  some (record pool { id_map = id_map })

-- Whether the map's array is freed.
id_pool_destroy : IdPool → Bool
id_pool_destroy pool = bitmap_destroy pool.id_map
