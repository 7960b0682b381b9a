-- ===== src/Fs/NaiveFs.antt =====
-- src/fs/naive_fs.c: a table of names, sizes and places at the start of the partition. The table is in memory, at
-- `file_metas`; blocks that `kmalloc` returns are arguments, among them the one of `read_hard_disk`, `sector_buffer`.
pub mod Find
pub mod Read
pub mod Mount
mod Tests
use luck_os.Common.{
  ℕ, zero, suc, ◌+◌, ◌-◌, ◌*◌, ◌%◌, ◌^◌, Option, none, some, ◌>>=◌, ltb, if◌then◌else◌, Bool, true,
  false,
}
use luck_os.Common.Int.{ℤ, pos, negsuc}
use luck_os.Kheap.Bytes.{Memory, read32, write32}
use luck_os.Stdlib.{strcmp, signed32}
use luck_os.Driver.HardDisk.{Disk, sector_size, read_hard_disk}

-- The globals `naive_fs.partition.offset`, `file_num` and `file_metas`.
pub record NaiveFs : Type 0 where
  pub partition_offset : ℕ
  pub file_num : ℕ
  pub file_metas : ℕ

-- The places of the fields of `naive_file_meta_t`, and its size.
abbrev meta_filename : ℕ → ℕ
meta_filename meta = meta

abbrev pub meta_size : ℕ → ℕ
meta_size meta = meta + 64

abbrev pub meta_offset : ℕ → ℕ
meta_offset meta = meta + 68

abbrev pub meta_bytes : ℕ
meta_bytes = 72

abbrev is_zero : ℤ → Bool
is_zero (pos zero) = true
is_zero (pos (suc n)) = false
is_zero (negsuc n) = false

-- The search by name of `naive_fs_stat_file` and `naive_fs_read_data`, from `i` on: the entry, `none` inside when there is
-- none of this name.
pub find_meta : ℕ → ℕ → Memory → ℕ → ℕ → ℕ → Option (Option ℕ)
find_meta zero fuel m file_metas filename i = some none
find_meta (suc rounds) fuel m file_metas filename i =
    let meta = file_metas + i * meta_bytes in
    let later = find_meta rounds fuel m file_metas filename (i + 1) in
    strcmp fuel m (meta_filename meta) filename >>= λ order.
    if is_zero order then some (some meta) else later

-- `stat->size = meta->size` and 0, or -1.
pub set_size : Memory → ℕ → Option ℕ → ℤ × Memory
set_size m stat none = (negsuc 0, m)
set_size m stat (some meta) = (pos 0, write32 m stat (read32 m (meta_size meta)))

pub naive_fs_stat_file : ℕ → NaiveFs → Memory → ℕ → ℕ → Option (ℤ × Memory)
naive_fs_stat_file fuel fs m filename stat =
    find_meta fs.file_num fuel m fs.file_metas filename 0 >>= λ found. some (set_size m stat found)

-- The rest of `naive_fs_read_data` behind the search.
pub read_meta : Disk → NaiveFs → Memory → ℕ → ℕ → ℕ → ℕ → Option ℕ → ℤ × Memory
read_meta disk fs m sector_buffer buffer start length none = (negsuc 0, m)
read_meta disk fs m sector_buffer buffer start length (some meta) =
    let offset = read32 m (meta_offset meta) in
    let size = read32 m (meta_size meta) in
    let length' = if ltb size length then size else length in
    (
      signed32 length',
      read_hard_disk disk m sector_buffer buffer ((fs.partition_offset + offset + start) % 2 ^ 32)
          length',
    )

pub naive_fs_read_data : ℕ → Disk → NaiveFs → Memory → ℕ → ℕ → ℕ → ℕ → ℕ → Option (ℤ × Memory)
naive_fs_read_data fuel disk fs m sector_buffer filename buffer start length =
    find_meta fs.file_num fuel m fs.file_metas filename 0 >>= λ found.
    some (read_meta disk fs m sector_buffer buffer start length found)

abbrev pub partition_start : ℕ
partition_start = 2057 * sector_size

-- `file_num_ptr` is the address of `file_num`, and `file_metas` the block for the table.
pub init_naive_fs : Disk → Memory → ℕ → ℕ → ℕ → NaiveFs × Memory
init_naive_fs disk m sector_buffer file_num_ptr file_metas =
    let m₁ = read_hard_disk disk m sector_buffer file_num_ptr (0 + partition_start) 4 in
    let file_num = read32 m₁ file_num_ptr in
    (
      record { partition_offset = partition_start; file_num = file_num; file_metas = file_metas },
      read_hard_disk disk m₁ sector_buffer file_metas (4 + partition_start)
          (file_num * meta_bytes % 2 ^ 32),
    )
