-- ===== src/Mem/Frames/Tests.antt =====
-- The counts of a new table.
use luck_os.Common.{ℕ, ◌*◌, ◌^◌, ◌<◌, ◌≡◌, ◌≢◌, refl, some, [], arith, true}
use luck_os.Common.Int.{pos, ◌+ℤ◌, int32}
use luck_os.Sync.Yieldlock.{locked_no}
use luck_os.Utils.HashTable.{hash_table_init}
use luck_os.Utils.HashTable.Remove.{hash_table_init-IsTable, hash_table_init-get}
use luck_os.Mem.Frames.{CowCounts, change_cow_frame_refcount}
use luck_os.Mem.Frames.Counts.{AreCounts, count_of, kept, change_cow_frame_refcount-adds}

abbrev no_counts : CowCounts
no_counts = record {
  ready = true;
  table = hash_table_init;
  lock = record { hold = locked_no };
  counts = λ block. pos 0;
}

no_counts-AreCounts : AreCounts no_counts
no_counts-AreCounts = record {
  table = hash_table_init-IsTable;
  apart = λ frame other ne present. absurd (present (hash_table_init-get frame));
}

init-doubles : hash_table_init.buckets_num * 2 < 2 ^ 32
unfolding hash_table_init
init-doubles = omega arith

change_cow_frame_refcount-adds_example :
    (c' : CowCounts) × (change_cow_frame_refcount [] 4096 no_counts 7 (pos 2)
      ≡ some (count_of no_counts 7, c'))
    × (count_of c' 7 ≡ kept (int32 (count_of no_counts 7 +ℤ pos 2)))
    × ((other : ℕ) → other ≢ 7 → count_of c' other ≡ count_of no_counts other)
    × (c'.lock.hold ≡ locked_no)
change_cow_frame_refcount-adds_example =
    change_cow_frame_refcount-adds [] 4096 no_counts 7 (pos 2) refl refl no_counts-AreCounts
      init-doubles (λ e. omega (arith, e))
      (λ other e. let none_there = hash_table_init-get other in omega (arith, e, none_there))
