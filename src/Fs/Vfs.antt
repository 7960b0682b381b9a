-- ===== src/Fs/Vfs.antt =====
-- src/fs/vfs.c: the calls by path, which go to the only file system. `write_data` has no body.
use luck_os.Common.{ℕ, Option}
use luck_os.Common.Int.{ℤ}
use luck_os.Kheap.Bytes.{Memory}
use luck_os.Driver.HardDisk.{Disk}
use luck_os.Fs.NaiveFs.{NaiveFs, naive_fs_stat_file, naive_fs_read_data, init_naive_fs}

unfoldable pub init_file_system : Disk → Memory → ℕ → ℕ → ℕ → NaiveFs × Memory
init_file_system disk m sector_buffer file_num_ptr file_metas =
    init_naive_fs disk m sector_buffer file_num_ptr file_metas

abbrev get_fs : NaiveFs → ℕ → NaiveFs
get_fs fs path = fs

unfoldable pub stat_file : ℕ → NaiveFs → Memory → ℕ → ℕ → Option (ℤ × Memory)
stat_file fuel fs m filename stat = naive_fs_stat_file fuel (get_fs fs filename) m filename stat

unfoldable pub read_file : ℕ → Disk → NaiveFs → Memory → ℕ → ℕ → ℕ → ℕ → ℕ → Option (ℤ × Memory)
read_file fuel disk fs m sector_buffer filename buffer start length =
    naive_fs_read_data fuel disk (get_fs fs filename) m sector_buffer filename buffer start length
