-- ===== src/Fs/NaiveFs/Read.antt =====
-- Reading a file by its name, and the mounting of the partition.
use luck_os.Common.{
  ℕ, ◌+◌, ◌*◌, ◌%◌, ◌^◌, ◌≤◌, ◌<◌, ◌≡◌, refl, ap, Option, some, none, List, arith, ltb,
  if◌then◌else◌, length, ◌>>=◌, subst,
}
use luck_os.Common.Int.{ℤ, pos, negsuc}
use luck_os.Kheap.Bytes.{Memory, read32, write32}
use luck_os.Stdlib.{signed32}
use luck_os.Stdlib.Strings.{IsString}
use luck_os.Stdlib.Copy.{AreBytes, AreDisjoint}
use luck_os.Utils.Math.{min}
use luck_os.Driver.HardDisk.{Disk, sector_size, read_hard_disk}
use luck_os.Driver.HardDisk.Read.{IsRead, read_hard_disk-IsRead}
use luck_os.Fs.NaiveFs.{
  NaiveFs, naive_fs_read_data, naive_fs_stat_file, read_meta, set_size, meta_size, meta_offset,
  meta_bytes,
}
use luck_os.Fs.NaiveFs.Find.{AreNames, IsFirst, IsFirst-bound, entry, find_meta-IsFirst}
use luck_os.Fs.Vfs.{read_file, stat_file}

abbrev meta_of : NaiveFs → ℕ → ℕ
meta_of fs i = fs.file_metas + i * meta_bytes

abbrev pub place_of : NaiveFs → Memory → ℕ → ℕ
place_of fs m i = fs.partition_offset + read32 m (meta_offset (meta_of fs i))

abbrev pub size_of : NaiveFs → Memory → ℕ → ℕ
size_of fs m i = read32 m (meta_size (meta_of fs i))

-- The result of a read of `length` bytes, at most the size of the file, from `start` on.
abbrev pub IsFileRead :
    Disk → NaiveFs → Memory → ℕ → ℕ → ℕ → ℕ → Option ℕ → Option (ℤ × Memory) → Type 0
IsFileRead disk fs m sector_buffer buffer start length none result = result ≡ some (negsuc 0, m)
IsFileRead disk fs m sector_buffer buffer start length (some i) result =
    (m' : Memory) × (result ≡ some (signed32 (min length (size_of fs m i)), m'))
    × IsRead disk m sector_buffer buffer (place_of fs m i + start) (min length (size_of fs m i)) m'

read_meta-IsFileRead :
    (disk : Disk) (fs : NaiveFs) (m : Memory) (sector_buffer buffer start length : ℕ)
    (found : Option ℕ)
    → AreBytes disk
    → AreBytes m
    → 0 < fs.partition_offset
    → ((i : ℕ) → found ≡ some i → place_of fs m i + start + length + sector_size < 2 ^ 32)
    → AreDisjoint sector_buffer sector_size buffer length
    → IsFileRead disk fs m sector_buffer buffer start length found
        (some (read_meta disk fs m sector_buffer buffer start length (entry fs.file_metas found)))
unfolding read_meta entry
read_meta-IsFileRead disk fs m sector_buffer buffer start length none bytes bytes' placed small
      apart =
    refl
read_meta-IsFileRead disk fs m sector_buffer buffer start length (some i) bytes bytes' placed small
      apart =
    let size = size_of fs m i in
    let n = if ltb size length then size else length in
    let same : n ≡ min length size = ground arith in
    let less : n ≤ length = ground arith in
    let place : (place_of fs m i + start) % 2 ^ 32 ≡ place_of fs m i + start =
      omega (arith, small i refl) in
    let m' = read_hard_disk disk m sector_buffer buffer ((place_of fs m i + start) % 2 ^ 32) n in
    (
      m',
      ap (λ (t : ℕ). some (signed32 t, m')) same,
      subst (λ (t : ℕ). IsRead disk m sector_buffer buffer (place_of fs m i + start) t m') same
          (subst (λ (t : ℕ). IsRead disk m sector_buffer buffer t n m') place
            (read_hard_disk-IsRead disk m sector_buffer buffer ((place_of fs m i + start) % 2 ^ 32)
              n bytes bytes' (omega (arith, placed, place))
              (omega (arith, small i refl, place, less)) (omega (arith, apart, less)))),
    )

-- On a table of names, `read_file` returns -1 and changes no memory when no file has the name; otherwise it reads from the first
-- file of the name the length asked for, at most its size, and returns this length.
pub read_file-IsFileRead :
    (fuel : ℕ) (disk : Disk) (fs : NaiveFs) (m : Memory)
    (sector_buffer filename buffer start length' : ℕ) (name : List ℕ) (names : List (List ℕ))
    → 64 ≤ fuel
    → AreBytes disk
    → AreBytes m
    → fs.file_num ≡ length names
    → AreNames m fs.file_metas 0 names
    → IsString m filename name
    → 0 < fs.partition_offset
    → ((i : ℕ) → i < length names → place_of fs m i + start + length' + sector_size < 2 ^ 32)
    → AreDisjoint sector_buffer sector_size buffer length'
    → (found : Option ℕ) × IsFirst name 0 names found
      × IsFileRead disk fs m sector_buffer buffer start length' found
          (read_file fuel disk fs m sector_buffer filename buffer start length')
unfolding read_file naive_fs_read_data read_meta
read_file-IsFileRead fuel disk fs m sector_buffer filename buffer start length' name names enough
      bytes bytes' count table s placed small apart =
    let (found, run, first) =
      find_meta-IsFirst fuel m fs.file_metas filename 0 name names enough s table in
    let done =
      read_meta-IsFileRead disk fs m sector_buffer buffer start length' found bytes bytes' placed
        (λ i e.
          let less = IsFirst-bound name 0 names found first i e in small i (omega (arith, less)))
        apart in
    (found, first, rw (count, run, ◌>>=◌) done)

-- The result of `stat_file`: -1, or 0 with the size stored.
abbrev pub IsStat : NaiveFs → Memory → ℕ → Option ℕ → Option (ℤ × Memory) → Type 0
IsStat fs m stat none result = result ≡ some (negsuc 0, m)
IsStat fs m stat (some i) result = result ≡ some (pos 0, write32 m stat (size_of fs m i))

set_size-IsStat :
    (fs : NaiveFs) (m : Memory) (stat : ℕ) (found : Option ℕ)
    → IsStat fs m stat found (some (set_size m stat (entry fs.file_metas found)))
unfolding set_size entry
set_size-IsStat fs m stat none = refl
set_size-IsStat fs m stat (some i) = refl

-- On a table of names, `stat_file` returns -1 and changes no memory when no file has the name; otherwise it stores
-- the size of the first file of the name and returns 0.
pub stat_file-IsStat :
    (fuel : ℕ) (fs : NaiveFs) (m : Memory) (filename stat : ℕ) (name : List ℕ)
    (names : List (List ℕ))
    → 64 ≤ fuel
    → fs.file_num ≡ length names
    → AreNames m fs.file_metas 0 names
    → IsString m filename name
    → (found : Option ℕ) × IsFirst name 0 names found
      × IsStat fs m stat found (stat_file fuel fs m filename stat)
unfolding stat_file naive_fs_stat_file
stat_file-IsStat fuel fs m filename stat name names enough count table s =
    let (found, run, first) =
      find_meta-IsFirst fuel m fs.file_metas filename 0 name names enough s table in
    let done = set_size-IsStat fs m stat found in (found, first, rw (count, run, ◌>>=◌) done)
