-- ===== src/Mem/Frames.antt =====
-- The physical frames of src/mem/paging.c: their map, and the reference counts of the frames that are copied on write. The
-- counts are in blocks of their own; `counts` is the number in a block by its address, and the address of a new block an
-- argument.
pub mod Allocate
pub mod Counts
mod Tests
use luck_os.Common.{
  ℕ, zero, suc, ◌+◌, Bool, true, false, Option, none, some, List, ◌==◌, not, if◌then◌else◌, ◌>>=◌,
}
use luck_os.Common.Int.{ℤ, pos, negsuc, ◌+ℤ◌, nonpos, int32}
use luck_os.Bitmap.{Bitmap, bitmap_allocate_first_free, bitmap_clear_bit}
use luck_os.Sync.Yieldlock.{Yieldlock, yieldlock_lock, yieldlock_unlock}
use luck_os.Utils.HashTable.{HashTable, hash_table_get, hash_table_put, hash_table_remove}

abbrev pub frame_result : Option ℕ → ℤ
frame_result none = negsuc 0
frame_result (some frame) = pos frame

pub allocate_phy_frame : List ℕ → Yieldlock → Bitmap → Option (ℤ × Yieldlock × Bitmap)
allocate_phy_frame seen phy_frames_map_lock phy_frames_map = do
  held ← yieldlock_lock seen phy_frames_map_lock
  (frame, map') ← bitmap_allocate_first_free phy_frames_map
  some (frame_result frame, yieldlock_unlock held, map')

release_phy_frame : List ℕ → Yieldlock → Bitmap → ℕ → Option (Yieldlock × Bitmap)
release_phy_frame seen phy_frames_map_lock phy_frames_map frame = do
  held ← yieldlock_lock seen phy_frames_map_lock
  map' ← bitmap_clear_bit phy_frames_map frame
  some (yieldlock_unlock held, map')

-- The globals of the reference counts.
pub record CowCounts : Type 0 where
  pub ready : Bool
  pub table : HashTable
  pub lock : Yieldlock
  pub counts : ℕ → ℤ

abbrev pub with_count : (ℕ → ℤ) → ℕ → ℤ → ℕ → ℤ
with_count counts block count n = if n == block then count else counts n

-- What is stored for a new count; `cnt_ptr` is 0 for a frame without one, and `new_block` what `kmalloc` returns.
pub store_count : CowCounts → ℕ → ℕ → ℕ → ℤ → CowCounts
store_count c frame cnt_ptr new_block new_cnt =
    if not (nonpos new_cnt)
    then (if not (cnt_ptr == 0)
        then record c { counts = with_count c.counts cnt_ptr new_cnt }
        else record c {
          counts = with_count c.counts new_block new_cnt;
          table = (hash_table_put c.table frame new_block).1;
        })
    else if not (cnt_ptr == 0)
    then record c { table = (hash_table_remove c.table frame).1 }
    else c

-- The count of the block, and 0 without one.
abbrev pub old_count : CowCounts → ℕ → ℤ
old_count c cnt_ptr = if not (cnt_ptr == 0) then c.counts cnt_ptr else pos 0

pub change_cow_frame_refcount : List ℕ → ℕ → CowCounts → ℕ → ℤ → Option (ℤ × CowCounts)
change_cow_frame_refcount seen new_block c frame refcount_delta =
    let cnt_ptr = hash_table_get c.table frame in
    let old_cnt = old_count c cnt_ptr in
    let new_cnt = int32 (old_cnt +ℤ refcount_delta) in
    let changed = yieldlock_lock seen c.lock >>= λ held. some (
      old_cnt,
      record (store_count c frame cnt_ptr new_block new_cnt) { lock = yieldlock_unlock held },
    ) in
    if not c.ready then some (pos 0, c) else changed
