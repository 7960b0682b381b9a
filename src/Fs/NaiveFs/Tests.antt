-- ===== src/Fs/NaiveFs/Tests.antt =====
-- A partition with one file, "a" of 5 bytes, 80 bytes behind its start.
use luck_os.Common.{
  ℕ, ◌+◌, ◌^◌, ◌<◌, ◌≡◌, Option, ◌==◌, if◌then◌else◌, arith, refl, List, [], ◌∷◌, length,
}
use luck_os.Kheap.Bytes.{Memory, read32}
use luck_os.Stdlib.Strings.{IsString}
use luck_os.Stdlib.Copy.{AreBytes}
use luck_os.Driver.HardDisk.{Disk, sector_size}
use luck_os.Fs.NaiveFs.{NaiveFs, partition_start}
use luck_os.Fs.NaiveFs.Find.{AreNames, IsFirst}
use luck_os.Fs.NaiveFs.Read.{IsFileRead, IsStat, place_of, read_file-IsFileRead, stat_file-IsStat}
use luck_os.Fs.NaiveFs.Mount.{IsMounted, init_file_system-IsMounted}
use luck_os.Fs.Vfs.{read_file, stat_file, init_file_system}

abbrev names : List (List ℕ)
names = (0x61 ∷ []) ∷ []

abbrev small_disk : Disk
small_disk x =
    if x == 1053184
    then 1
    else if x == 1053188
    then 0x61
    else if x == 1053252
    then 5
    else if x == 1053256
    then 80
    else 0

abbrev mounted_memory : Memory
mounted_memory x =
    if x == 5000
    then 0x61
    else if x == 5064
    then 5
    else if x == 5068
    then 80
    else if x == 6000
    then 0x61
    else 0

abbrev mounted : NaiveFs
mounted = record { partition_offset = partition_start; file_num = 1; file_metas = 5000 }

small_disk-AreBytes : AreBytes small_disk
small_disk-AreBytes x = ground arith

mounted_memory-AreBytes : AreBytes mounted_memory
mounted_memory-AreBytes x = ground arith

mounted-AreNames : AreNames mounted_memory 5000 0 names
mounted-AreNames = ((refl, omega arith, omega arith, refl), omega arith, tt)

filename-IsString : IsString mounted_memory 6000 (0x61 ∷ [])
filename-IsString = (refl, omega arith, omega arith, refl)

mounted-place_of :
    (i : ℕ) → i < length names → place_of mounted mounted_memory i + 0 + 3 + sector_size < 2 ^ 32
unfolding read32
mounted-place_of i less = ground arith

read_file-IsFileRead_example :
    (found : Option ℕ) × IsFirst (0x61 ∷ []) 0 names found
    × IsFileRead small_disk mounted mounted_memory 8192 7000 0 3 found
        (read_file 64 small_disk mounted mounted_memory 8192 6000 7000 0 3)
read_file-IsFileRead_example =
    read_file-IsFileRead 64 small_disk mounted mounted_memory 8192 6000 7000 0 3 (0x61 ∷ []) names
      (omega arith) small_disk-AreBytes mounted_memory-AreBytes refl mounted-AreNames
      filename-IsString (omega arith) mounted-place_of (omega arith)

stat_file-IsStat_example :
    (found : Option ℕ) × IsFirst (0x61 ∷ []) 0 names found
    × IsStat mounted mounted_memory 7000 found (stat_file 64 mounted mounted_memory 6000 7000)
stat_file-IsStat_example =
    stat_file-IsStat 64 mounted mounted_memory 6000 7000 (0x61 ∷ []) names (omega arith) refl
      mounted-AreNames filename-IsString

small_disk-number : read32 small_disk partition_start ≡ length names
unfolding read32
small_disk-number = refl

small_disk-AreNames : AreNames small_disk (partition_start + 4) 0 names
small_disk-AreNames = ((refl, omega arith, omega arith, refl), omega arith, tt)

init_file_system-IsMounted_example :
    IsMounted small_disk names
      (init_file_system small_disk mounted_memory 8192 9000 9100).0
      (init_file_system small_disk mounted_memory 8192 9000 9100).1
init_file_system-IsMounted_example =
    init_file_system-IsMounted small_disk mounted_memory 8192 9000 9100 names small_disk-AreBytes
      mounted_memory-AreBytes small_disk-number small_disk-AreNames (omega arith) (omega arith)
      (omega arith)
