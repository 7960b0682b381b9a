-- ===== src/Kheap/Calls.antt =====
-- The entry points of src/mem/kheap.c: `create_kheap`, `init_kheap`, `kmalloc`, `kmalloc_aligned` and `kfree`.
-- The thread holds `kheap_lock` over the call; `seen` is as in `yieldlock_lock`.
use luck_os.Common.{
  ℕ, ◌+◌, ◌*◌, ◌%◌, Bool, true, false, Option, none, some, List, ◌==◌, ◌&&◌, if◌then◌else◌, ◌>>=◌,
}
use luck_os.OrderedArray.{ordered_array_create}
use luck_os.Sync.Yieldlock.{Yieldlock, yieldlock_init, yieldlock_lock, yieldlock_unlock}
use luck_os.Kheap.Bytes.{Memory}
use luck_os.Kheap.{
  Kheap, kheap_start, kheap_min_size, kheap_max, kheap_index_num, page_size, block_meta_size, u32,
  sub32, make_block, insert_hole, kheap_block_comparator,
}
use luck_os.Kheap.Alloc.{alloc}
use luck_os.Kheap.Free.{free}

-- `places` is the memory of the index, from the first `start` on.
unfoldable pub create_kheap : List ℕ → Memory → ℕ → ℕ → ℕ → ℕ → ℕ → Option (Memory × Kheap)
create_kheap places m start end max supervisor readonly =
    let blocks_start = u32 (start + 4 * kheap_index_num) in
    let kheap : Kheap = record {
      index = ordered_array_create places kheap_index_num (kheap_block_comparator m);
      start_address = blocks_start;
      end_address = end;
      size = sub32 end blocks_start;
      max_address = max;
      supervisor = supervisor;
      readonly = readonly;
    } in
    if (start % page_size == 0) && (end % page_size == 0)
    then (do
      m₁ ← make_block m blocks_start (sub32 (sub32 end blocks_start) block_meta_size) 1
      kheap₁ ← insert_hole m₁ kheap blocks_start
      some (m₁, kheap₁))
    else none

init_kheap : List ℕ → Memory → Option (Yieldlock × Memory × Kheap)
init_kheap places m = do
  (m₁, kheap) ← create_kheap places m kheap_start (kheap_start + kheap_min_size) kheap_max 0 0
  some (yieldlock_init, m₁, kheap)

-- Three rounds of `alloc`: a heap that has grown twice has an aligned place.
abbrev alloc_fuel : ℕ
alloc_fuel = 3

-- A null pointer of `alloc` is a `PANIC`.
unfoldable pub kmalloc_impl : Memory → Kheap → ℕ → Bool → Option (ℕ × Memory × Kheap)
kmalloc_impl m h size align =
    if size == 0
    then some (0, m, h)
    else alloc alloc_fuel m h size align >>= λ (ptr, m₁, h₁).
        if ptr == 0 then none else some (ptr, m₁, h₁)

unfoldable pub kmalloc :
    List ℕ → Yieldlock → Memory → Kheap → ℕ → Option (ℕ × Yieldlock × Memory × Kheap)
kmalloc seen kheap_lock m h size = do
  held ← yieldlock_lock seen kheap_lock
  (ptr, m₁, h₁) ← kmalloc_impl m h size false
  some (ptr, yieldlock_unlock held, m₁, h₁)

kmalloc_aligned : List ℕ → Yieldlock → Memory → Kheap → ℕ → Option (ℕ × Yieldlock × Memory × Kheap)
kmalloc_aligned seen kheap_lock m h size = do
  held ← yieldlock_lock seen kheap_lock
  (ptr, m₁, h₁) ← kmalloc_impl m h size true
  some (ptr, yieldlock_unlock held, m₁, h₁)

unfoldable pub kfree : List ℕ → Yieldlock → Memory → Kheap → ℕ → Option (Yieldlock × Memory × Kheap)
kfree seen kheap_lock m h ptr =
    if ptr == 0
    then some (kheap_lock, m, h)
    else yieldlock_lock seen kheap_lock >>= λ held.
        free m h ptr >>= λ (m₁, h₁). some (yieldlock_unlock held, m₁, h₁)
