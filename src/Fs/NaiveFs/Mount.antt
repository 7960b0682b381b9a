-- ===== src/Fs/NaiveFs/Mount.antt =====
-- Mounting the partition reads its table of files.
use luck_os.Common.{
  ℕ, ◌+◌, ◌*◌, ◌%◌, ◌^◌, ◌≤◌, ◌<◌, ◌≡◌, sym, ap, ◌∙◌, List, [], ◌∷◌, arith, length, subst,
}
use luck_os.Kheap.Bytes.{Memory, read32}
use luck_os.Stdlib.Strings.{IsString}
use luck_os.Stdlib.Copy.{AreBytes, AreDisjoint}
use luck_os.Driver.HardDisk.{Disk, sector_size, read_hard_disk}
use luck_os.Driver.HardDisk.Read.{IsRead, read_hard_disk-IsRead, read_hard_disk-AreBytes}
use luck_os.Fs.NaiveFs.{NaiveFs, meta_bytes, init_naive_fs, partition_start}
use luck_os.Fs.NaiveFs.Find.{AreNames}
use luck_os.Fs.NaiveFs.Read.{place_of, size_of}
use luck_os.Fs.Vfs.{init_file_system}

IsString-copy :
    (m m' : Memory) (a b : ℕ) (cs : List ℕ)
    → ((k : ℕ) → k ≤ length cs → m' (b + k) ≡ m (a + k))
    → IsString m a cs
    → IsString m' b cs
IsString-copy m m' a b [] same s =
    let place : b + 0 ≡ b = omega arith in
    let place' : a + 0 ≡ a = omega arith in
    ap m' (sym place) ∙ same 0 (omega arith) ∙ ap m place' ∙ s
IsString-copy m m' a b (c ∷ cs) same s =
    let place : b + 0 ≡ b = omega arith in
    let place' : a + 0 ≡ a = omega arith in
    (
      ap m' (sym place) ∙ same 0 (omega arith) ∙ ap m place' ∙ s.0,
      s.1,
      s.2,
      IsString-copy m m' (a + 1) (b + 1) cs
          (λ k less.
            let step : b + (k + 1) ≡ b + 1 + k = omega arith in
            let step' : a + (k + 1) ≡ a + 1 + k = omega arith in
            ap m' (sym step) ∙ same (k + 1) (omega arith) ∙ ap m step')
          s.3,
    )

AreNames-copy :
    (m m' : Memory) (a b i n : ℕ) (names : List (List ℕ))
    → ((k : ℕ) → k < n * meta_bytes → m' (b + k) ≡ m (a + k))
    → i + length names ≤ n
    → AreNames m a i names
    → AreNames m' b i names
AreNames-copy m m' a b i n [] same fits table = tt
AreNames-copy m m' a b i n (name ∷ names) same fits table = (
  IsString-copy m m' (a + i * meta_bytes) (b + i * meta_bytes) name
      (λ k less.
        let step : b + i * meta_bytes + k ≡ b + (i * meta_bytes + k) = omega arith in
        let step' : a + i * meta_bytes + k ≡ a + (i * meta_bytes + k) = omega arith in
        ap m' step ∙ same (i * meta_bytes + k) (omega (arith, table.1)) ∙ ap m (sym step'))
      table.0,
  table.1,
  AreNames-copy m m' a b (i + 1) n names same (omega arith) table.2,
)

-- A word that is copied with its bytes.
read32-copy :
    (m m' : Memory) (a b n place : ℕ)
    → ((k : ℕ) → k < n → m' (b + k) ≡ m (a + k))
    → place + 4 ≤ n
    → read32 m' (b + place) ≡ read32 m (a + place)
unfolding read32
read32-copy m m' a b n place same fits =
    let at : (d : ℕ) → d < 4 → m' (b + place + d) ≡ m (a + place + d) = λ d less.
      let step : b + place + d ≡ b + (place + d) = omega arith in
      let step' : a + place + d ≡ a + (place + d) = omega arith in
      ap m' step ∙ same (place + d) (omega arith) ∙ ap m (sym step') in
    let zero_place : b + place + 0 ≡ b + place = omega arith in
    let zero_place' : a + place + 0 ≡ a + place = omega arith in
    omega (
      arith,
      ap m' (sym zero_place) ∙ at 0 (omega arith) ∙ ap m zero_place',
      at 1 (omega arith),
      at 2 (omega arith),
      at 3 (omega arith),
    )

-- The file system `fs` in the memory `m` shows the table of `names` on the disk.
pub record IsMounted (disk : Disk) (names : List (List ℕ)) (fs : NaiveFs) (m : Memory)
    : Type 0 where
  pub count : fs.file_num ≡ length names
  pub table : AreNames m fs.file_metas 0 names
  pub sizes :
      (i : ℕ)
      → i < length names
      → size_of fs m i ≡ read32 disk (partition_start + 4 + (i * meta_bytes + 64))
  pub places :
      (i : ℕ)
      → i < length names
      → place_of fs m i
        ≡ partition_start + read32 disk (partition_start + 4 + (i * meta_bytes + 68))
  pub are_bytes : AreBytes m

IsMounted-of_IsRead :
    (disk : Disk) (names : List (List ℕ)) (m m' : Memory) (sector_buffer file_metas n : ℕ)
    → n ≡ length names
    → AreNames disk (partition_start + 4) 0 names
    → AreBytes m'
    → IsRead disk m sector_buffer file_metas (4 + partition_start) (n * meta_bytes) m'
    → IsMounted disk names
        (record { partition_offset = partition_start; file_num = n; file_metas = file_metas })
        m'
IsMounted-of_IsRead disk names m m' sector_buffer file_metas n count table bytes done =
    let same : (k : ℕ) → k < n * meta_bytes → m' (file_metas + k) ≡ disk (partition_start + 4 + k) =
      λ k less. done.read k less in
    record {
      count = count;
      table =
          AreNames-copy disk m' (partition_start + 4) file_metas 0 n names same
            (omega (arith, count)) table;
      sizes = λ i less.
          let step : file_metas + i * meta_bytes + 64 ≡ file_metas + (i * meta_bytes + 64) =
            omega arith in
          ap (read32 m') step
          ∙ read32-copy disk m' (partition_start + 4) file_metas (n * meta_bytes)
              (i * meta_bytes + 64) same (omega (arith, count));
      places = λ i less.
          let step : file_metas + i * meta_bytes + 68 ≡ file_metas + (i * meta_bytes + 68) =
            omega arith in
          ap (λ (t : ℕ). partition_start + t)
            (ap (read32 m') step
              ∙ read32-copy disk m' (partition_start + 4) file_metas (n * meta_bytes)
                  (i * meta_bytes + 68) same (omega (arith, count)));
      are_bytes = bytes;
    }

-- When the partition starts with the number of its files and their table, mounting it leaves this table in memory.
pub init_file_system-IsMounted :
    (disk : Disk) (m : Memory) (sector_buffer file_num_ptr file_metas : ℕ) (names : List (List ℕ))
    → AreBytes disk
    → AreBytes m
    → read32 disk partition_start ≡ length names
    → AreNames disk (partition_start + 4) 0 names
    → partition_start + 4 + length names * meta_bytes + sector_size < 2 ^ 32
    → AreDisjoint sector_buffer sector_size file_num_ptr 4
    → AreDisjoint sector_buffer sector_size file_metas (length names * meta_bytes)
    → IsMounted disk names
        (init_file_system disk m sector_buffer file_num_ptr file_metas).0
        (init_file_system disk m sector_buffer file_num_ptr file_metas).1
unfolding init_file_system init_naive_fs
init_file_system-IsMounted disk m sector_buffer file_num_ptr file_metas names bytes bytes' number
      table small apart apart' =
    let m₁ = read_hard_disk disk m sector_buffer file_num_ptr (0 + partition_start) 4 in
    let first =
      read_hard_disk-IsRead disk m sector_buffer file_num_ptr (0 + partition_start) 4 bytes bytes'
        (omega arith) (omega arith) apart in
    let n = read32 m₁ file_num_ptr in
    let here : file_num_ptr + 0 ≡ file_num_ptr = omega arith in
    let count : n ≡ length names =
      ap (read32 m₁) (sym here)
      ∙ read32-copy disk m₁ partition_start file_num_ptr 4 0 first.read (omega arith)
      ∙ number in
    let size : n * meta_bytes % 2 ^ 32 ≡ n * meta_bytes = omega (arith, count) in
    let bytes₁ =
      read_hard_disk-AreBytes disk m sector_buffer file_num_ptr (0 + partition_start) 4 bytes' in
    let m' =
      read_hard_disk disk m₁ sector_buffer file_metas (4 + partition_start)
        (n * meta_bytes % 2 ^ 32) in
    let second =
      read_hard_disk-IsRead disk m₁ sector_buffer file_metas (4 + partition_start)
        (n * meta_bytes % 2 ^ 32) bytes bytes₁ (omega arith) (omega (arith, size, count))
        (omega (arith, size, count, apart')) in
    IsMounted-of_IsRead disk names m₁ m' sector_buffer file_metas n count table
      (read_hard_disk-AreBytes disk m₁ sector_buffer file_metas (4 + partition_start)
        (n * meta_bytes % 2 ^ 32) bytes₁)
      (subst (λ (t : ℕ). IsRead disk m₁ sector_buffer file_metas (4 + partition_start) t m') size
        second)
