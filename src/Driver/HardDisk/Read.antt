-- ===== src/Driver/HardDisk/Read.antt =====
-- `read_hard_disk` copies a range of the disk, sector by sector.
use luck_os.Common.{
  ℕ, zero, suc, ◌+◌, ◌-◌, ◌*◌, ◌/◌, ◌%◌, ◌^◌, ◌≤◌, ◌<◌, ◌≡◌, refl, sym, ap, ◌∙◌, arith, ◌⊎◌, inl,
  subst, ℕ_discrete, dec_lt,
}
use luck_os.Kheap.Bytes.{Memory, write8, read8-write8_self, read8-write8_apart}
use luck_os.Stdlib.{memcpy}
use luck_os.Stdlib.Copy.{
  AreBytes, AreDisjoint, SameApart, memcpy-IsCopy, write8-AreBytes, memcpy-AreBytes,
}
use luck_os.Driver.HardDisk.{
  Disk, sector_size, go_on_read_data, read_disk, read_sector, copy_start_addr, copy_size,
  read_sectors, read_hard_disk,
}

go_on_read_data-AreBytes :
    (ecx : ℕ) (disk : Disk) (m : Memory) (ebx next : ℕ)
    → AreBytes m
    → AreBytes (go_on_read_data ecx disk m ebx next)
unfolding go_on_read_data
go_on_read_data-AreBytes zero disk m ebx next h = h
go_on_read_data-AreBytes (suc ecx) disk m ebx next h =
    let m₁ = write8 m ebx (disk next) in
    go_on_read_data-AreBytes ecx disk (write8 m₁ (ebx + 1) (disk (next + 1))) (ebx + 2) (next + 2)
      (write8-AreBytes m₁ (ebx + 1) (disk (next + 1)) (write8-AreBytes m ebx (disk next) h))

-- The `n` bytes of the disk from `start` on are at `buffer`; other bytes are as before, but for the sector buffer.
pub record IsRead (disk : Disk) (m : Memory) (sector_buffer buffer start n : ℕ) (m' : Memory)
    : Type 0 where
  pub read : (k : ℕ) → k < n → m' (buffer + k) ≡ disk (start + k)
  pub others :
      (x : ℕ)
      → (x < buffer) ⊎ (buffer + n ≤ x)
      → (x < sector_buffer) ⊎ (sector_buffer + sector_size ≤ x)
      → m' x ≡ m x

-- What the transfer of the words leaves.
record IsLoaded (disk : Disk) (m : Memory) (ebx next n : ℕ) (m' : Memory) : Type 0 where
  loaded : (k : ℕ) → k < n → m' (ebx + k) ≡ disk (next + k)
  others : SameApart m m' ebx n

IsLoaded-step :
    (disk : Disk) (m : Memory) (ebx next n : ℕ) (m' : Memory)
    → AreBytes disk
    → IsLoaded disk
        (write8 (write8 m ebx (disk next)) (ebx + 1) (disk (next + 1)))
        (ebx + 2)
        (next + 2)
        n
        m'
    → IsLoaded disk m ebx next (n + 2) m'
IsLoaded-step disk m ebx next n m' bytes done =
    let m₁ = write8 m ebx (disk next) in
    let m₂ = write8 m₁ (ebx + 1) (disk (next + 1)) in
    let first : m' ebx ≡ disk next =
      done.others ebx (inl (omega arith))
      ∙ read8-write8_apart m₁ (ebx + 1) (disk (next + 1)) ebx (inl (omega arith))
      ∙ read8-write8_self m ebx (disk next) (bytes next) in
    let second : m' (ebx + 1) ≡ disk (next + 1) =
      done.others (ebx + 1) (inl (omega arith))
      ∙ read8-write8_self m₁ (ebx + 1) (disk (next + 1)) (bytes (next + 1)) in
    record {
      loaded = λ k less. elim (ℕ_discrete k 0) [
        | yes e ↦
            let place : ebx + k ≡ ebx = omega arith in
            let place' : next + k ≡ next = omega arith in ap m' place ∙ first ∙ ap disk (sym place')
        | no ne ↦ elim (ℕ_discrete k 1) [
          | yes e ↦
              let place : ebx + k ≡ ebx + 1 = omega arith in
              let place' : next + k ≡ next + 1 = omega arith in
              ap m' place ∙ second ∙ ap disk (sym place')
          | no ne' ↦
              let place : ebx + k ≡ ebx + 2 + (k - 2) = omega arith in
              let place' : next + k ≡ next + 2 + (k - 2) = omega arith in
              ap m' place ∙ done.loaded (k - 2) (omega arith) ∙ ap disk (sym place')
        ]
      ];
      others = λ x out.
          done.others x (omega (arith, out))
          ∙ read8-write8_apart m₁ (ebx + 1) (disk (next + 1)) x (omega (arith, out))
          ∙ read8-write8_apart m ebx (disk next) x (omega (arith, out));
    }

go_on_read_data-IsLoaded :
    (ecx : ℕ) (disk : Disk) (m : Memory) (ebx next : ℕ)
    → AreBytes disk
    → IsLoaded disk m ebx next (2 * ecx) (go_on_read_data ecx disk m ebx next)
unfolding go_on_read_data
go_on_read_data-IsLoaded zero disk m ebx next bytes = record {
  loaded = λ k less. absurd (omega arith);
  others = λ x out. refl;
}
go_on_read_data-IsLoaded (suc ecx) disk m ebx next bytes =
    let m₂ = write8 (write8 m ebx (disk next)) (ebx + 1) (disk (next + 1)) in
    let m' = go_on_read_data ecx disk m₂ (ebx + 2) (next + 2) in
    let rest = go_on_read_data-IsLoaded ecx disk m₂ (ebx + 2) (next + 2) bytes in
    let size : 2 * ecx + 2 ≡ 2 * suc ecx = omega arith in
    subst (λ (t : ℕ). IsLoaded disk m ebx next t m') size
      (IsLoaded-step disk m ebx next (2 * ecx) m' bytes rest)

read_sector-IsLoaded :
    (disk : Disk) (m : Memory) (buffer sector : ℕ)
    → AreBytes disk
    → sector < 2 ^ 28
    → IsLoaded disk m buffer (sector * sector_size) sector_size (read_sector disk m buffer sector)
unfolding read_sector read_disk
read_sector-IsLoaded disk m buffer sector bytes small =
    let place : sector % 2 ^ 28 * 512 ≡ sector * 512 = omega arith in
    subst
      (λ (t : ℕ).
        IsLoaded disk m buffer t 512
          (go_on_read_data (1 * 256) disk m buffer (sector % 2 ^ 28 * 512)))
      place (go_on_read_data-IsLoaded 256 disk m buffer (sector % 2 ^ 28 * 512) bytes)

-- A part of the loaded sector is copied.
memcpy-IsRead :
    (disk : Disk) (m m₁ : Memory) (sector_buffer buffer sector offset n : ℕ)
    → AreBytes m₁
    → offset + n ≤ sector_size
    → AreDisjoint sector_buffer sector_size buffer n
    → IsLoaded disk m sector_buffer (sector * sector_size) sector_size m₁
    → IsRead disk m sector_buffer buffer
        (sector * sector_size + offset)
        n
        (memcpy m₁ buffer (sector_buffer + offset) n)
memcpy-IsRead disk m m₁ sector_buffer buffer sector offset n bytes fits apart sector_done =
    let copy = memcpy-IsCopy m₁ buffer (sector_buffer + offset) n bytes (omega (arith, apart)) in
    record {
      read = λ k less.
          let place : sector_buffer + offset + k ≡ sector_buffer + (offset + k) = omega arith in
          let place' : sector * 512 + offset + k ≡ sector * 512 + (offset + k) = omega arith in
          copy.copied k less
          ∙ ap m₁ place
          ∙ sector_done.loaded (offset + k) (omega arith)
          ∙ ap disk (sym place');
      others = λ x out out'. copy.others x out ∙ sector_done.others x out';
    }

-- Two parts one behind the other.
IsRead-append :
    (disk : Disk) (m m₁ m₂ : Memory) (sector_buffer buffer start n start' n' : ℕ)
    → (start' ≡ start + n) ⊎ (n' ≡ 0)
    → AreDisjoint sector_buffer sector_size buffer (n + n')
    → IsRead disk m sector_buffer buffer start n m₁
    → IsRead disk m₁ sector_buffer (buffer + n) start' n' m₂
    → IsRead disk m sector_buffer buffer start (n + n') m₂
IsRead-append disk m m₁ m₂ sector_buffer buffer start n start' n' joined apart done done' = record {
  read = λ k less. elim (dec_lt k n) [
    | yes lower ↦
        done'.others (buffer + k) (inl (omega arith)) (omega (arith, apart)) ∙ done.read k lower
    | no upper ↦
        let place : buffer + k ≡ buffer + n + (k - n) = omega arith in
        let place' : start' + (k - n) ≡ start + k = omega (arith, joined) in
        ap m₂ place ∙ done'.read (k - n) (omega arith) ∙ ap disk place'
  ];
  others = λ x out out'.
      done'.others x (omega (arith, out)) out' ∙ done.others x (omega (arith, out)) out';
}

-- Where the part of the sector `i` starts.
copy_start_addr-IsLargest :
    (start i : ℕ)
    → i * sector_size < 2 ^ 32
    → (i * sector_size ≤ copy_start_addr start i)
      × (start ≤ copy_start_addr start i)
      × ((copy_start_addr start i ≡ i * sector_size) ⊎ (copy_start_addr start i ≡ start))
copy_start_addr-IsLargest start i small = (ground arith, ground arith, ground arith)

-- The size of the part of the sector `i`: to the end of the sector, or of the range.
copy_size-IsLeast :
    (start end i : ℕ)
    → (i + 1) * sector_size < 2 ^ 32
    → start ≤ end
    → start < (i + 1) * sector_size
    → i * sector_size < end
    → (copy_start_addr start i + copy_size start end i ≤ (i + 1) * sector_size)
      × (copy_start_addr start i + copy_size start end i ≤ end)
      × ((copy_start_addr start i + copy_size start end i ≡ (i + 1) * sector_size)
          ⊎ (copy_start_addr start i + copy_size start end i ≡ end))
copy_size-IsLeast start end i small ordered first more = (ground arith, ground arith, ground arith)

loop_memory-AreBytes :
    (disk : Disk) (m : Memory) (sector_buffer buffer start end i : ℕ)
    → AreBytes m
    → AreBytes (
        memcpy
          (read_sector disk m sector_buffer i)
          buffer
          (sector_buffer + copy_start_addr start i - i * sector_size)
          (copy_size start end i))
unfolding read_sector read_disk
loop_memory-AreBytes disk m sector_buffer buffer start end i bytes =
    memcpy-AreBytes (read_sector disk m sector_buffer i) buffer
      (sector_buffer + copy_start_addr start i - i * sector_size) (copy_size start end i)
      (go_on_read_data-AreBytes (1 * 256) disk m sector_buffer (i % 2 ^ 28 * sector_size) bytes)

-- One round of the loop.
copy-IsRead :
    (disk : Disk) (m : Memory) (sector_buffer buffer start end i : ℕ)
    → AreBytes disk
    → AreBytes m
    → (i + 1) * sector_size < 2 ^ 32
    → start ≤ end
    → start < (i + 1) * sector_size
    → i * sector_size < end
    → AreDisjoint sector_buffer sector_size buffer (copy_size start end i)
    → IsRead disk m sector_buffer buffer (copy_start_addr start i) (copy_size start end i) (
        memcpy
          (read_sector disk m sector_buffer i)
          buffer
          (sector_buffer + copy_start_addr start i - i * sector_size)
          (copy_size start end i))
unfolding read_sector read_disk
copy-IsRead disk m sector_buffer buffer start end i bytes bytes' small ordered first more apart =
    let c = copy_start_addr start i in
    let n = copy_size start end i in
    let m₁ = read_sector disk m sector_buffer i in
    let (low, low', which) = copy_start_addr-IsLargest start i (omega arith) in
    let (high, high', which') = copy_size-IsLeast start end i small ordered first more in
    let offset = c - i * sector_size in
    let place : i * sector_size + offset ≡ c = omega (arith, low) in
    let place' : sector_buffer + offset ≡ sector_buffer + c - i * sector_size =
      omega (arith, low) in
    let loaded = read_sector-IsLoaded disk m sector_buffer i bytes (omega arith) in
    let done =
      memcpy-IsRead disk m m₁ sector_buffer buffer i offset n
        (go_on_read_data-AreBytes (1 * 256) disk m sector_buffer (i % 2 ^ 28 * sector_size) bytes')
        (omega (arith, low, high)) apart loaded in
    subst (λ (t : ℕ). IsRead disk m sector_buffer buffer c n (memcpy m₁ buffer t n)) place'
      (subst
        (λ (t : ℕ).
          IsRead disk m sector_buffer buffer t n (memcpy m₁ buffer (sector_buffer + offset) n))
        place done)

-- The sectors from `i` on hold the range from `copy_start_addr start i` to `end`.
read_sectors-IsRead :
    (rounds : ℕ) (disk : Disk) (m : Memory) (sector_buffer buffer start end i : ℕ)
    → AreBytes disk
    → AreBytes m
    → end ≤ (i + rounds) * sector_size
    → (rounds ≡ 0) ⊎ ((i + rounds) * sector_size < end + sector_size)
    → (i + rounds) * sector_size < 2 ^ 32
    → start ≤ end
    → start < (i + 1) * sector_size
    → AreDisjoint sector_buffer sector_size buffer (end - copy_start_addr start i)
    → IsRead disk m sector_buffer buffer
        (copy_start_addr start i)
        (end - copy_start_addr start i)
        (read_sectors rounds disk m sector_buffer buffer start end i)
unfolding read_sectors
read_sectors-IsRead zero disk m sector_buffer buffer start end i bytes bytes' last more small
      ordered first apart =
    let (low, low', which) = copy_start_addr-IsLargest start i (omega arith) in
    record { read = λ k less. absurd (omega (arith, low)); others = λ x out out'. refl }
read_sectors-IsRead (suc rounds) disk m sector_buffer buffer start end i bytes bytes' last more
      small ordered first apart =
    let c = copy_start_addr start i in
    let n = copy_size start end i in
    let c' = copy_start_addr start (i + 1) in
    let (low, low', which) = copy_start_addr-IsLargest start i (omega arith) in
    let (next_low, next_low', next_which) = copy_start_addr-IsLargest start (i + 1) (omega arith) in
    let (high, high', which') =
      copy_size-IsLeast start end i (omega arith) ordered first (omega (arith, more)) in
    let next : c' ≡ (i + 1) * sector_size = omega (arith, next_low, next_which) in
    let m₂ =
      memcpy (read_sector disk m sector_buffer i) buffer (sector_buffer + c - i * sector_size) n in
    let one =
      copy-IsRead disk m sector_buffer buffer start end i bytes bytes' (omega arith) ordered first
        (omega (arith, more)) (omega (arith, apart, high')) in
    let rest =
      read_sectors-IsRead rounds disk m₂ sector_buffer (buffer + n) start end (i + 1) bytes
        (loop_memory-AreBytes disk m sector_buffer buffer start end i bytes') (omega arith)
        (omega (arith, more)) (omega arith) ordered (omega arith)
        (omega (arith, apart, high', next, which')) in
    let size : n + (end - c') ≡ end - c = omega (arith, high', next, which', low) in
    let m' = read_sectors rounds disk m₂ sector_buffer (buffer + n) start end (i + 1) in
    subst (λ (t : ℕ). IsRead disk m sector_buffer buffer c t m') size
      (IsRead-append disk m m₂ m' sector_buffer buffer c n c' (end - c')
        (omega (arith, next, which')) (omega (arith, apart, size)) one rest)

-- For a range that is not empty at 0 and ends before the last sector below 2^32, `read_hard_disk` reads the bytes of the disk
-- from `start` on into a buffer apart from the sector buffer, and changes no bytes outside of the two.
pub read_hard_disk-IsRead :
    (disk : Disk) (m : Memory) (sector_buffer buffer start length : ℕ)
    → AreBytes disk
    → AreBytes m
    → 0 < start + length
    → start + length + sector_size < 2 ^ 32
    → AreDisjoint sector_buffer sector_size buffer length
    → IsRead disk m sector_buffer buffer start length
        (read_hard_disk disk m sector_buffer buffer start length)
unfolding read_hard_disk
read_hard_disk-IsRead disk m sector_buffer buffer start length bytes bytes' some_byte small apart =
    let end' = (start + length) % 2 ^ 32 in
    let i = start / sector_size in
    let rounds = (end' + 2 ^ 32 - 1) % 2 ^ 32 / sector_size + 1 - i in
    let same : end' ≡ start + length = omega arith in
    let (low, low', which) = copy_start_addr-IsLargest start i (omega arith) in
    let first : copy_start_addr start i ≡ start = omega (arith, low, low', which) in
    let size : end' - start ≡ length = omega (arith, same) in
    let m' = read_hard_disk disk m sector_buffer buffer start length in
    let apart' : AreDisjoint sector_buffer sector_size buffer (end' - copy_start_addr start i) =
      omega (arith, apart, first, size) in
    let done =
      read_sectors-IsRead rounds disk m sector_buffer buffer start end' i bytes bytes'
        (omega (arith, same)) (omega (arith, same)) (omega (arith, same)) (omega (arith, same))
        (omega arith) apart' in
    subst (λ (t : ℕ). IsRead disk m sector_buffer buffer start t m') size
      (subst (λ (t : ℕ). IsRead disk m sector_buffer buffer t (end' - t) m') first done)

read_sectors-AreBytes :
    (rounds : ℕ) (disk : Disk) (m : Memory) (sector_buffer buffer start end i : ℕ)
    → AreBytes m
    → AreBytes (read_sectors rounds disk m sector_buffer buffer start end i)
unfolding read_sectors
read_sectors-AreBytes zero disk m sector_buffer buffer start end i bytes = bytes
read_sectors-AreBytes (suc rounds) disk m sector_buffer buffer start end i bytes =
    read_sectors-AreBytes rounds disk
      (memcpy (read_sector disk m sector_buffer i) buffer
        (sector_buffer + copy_start_addr start i - i * sector_size) (copy_size start end i))
      sector_buffer (buffer + copy_size start end i) start end (i + 1)
      (loop_memory-AreBytes disk m sector_buffer buffer start end i bytes)

pub read_hard_disk-AreBytes :
    (disk : Disk) (m : Memory) (sector_buffer buffer start length : ℕ)
    → AreBytes m
    → AreBytes (read_hard_disk disk m sector_buffer buffer start length)
unfolding read_hard_disk
read_hard_disk-AreBytes disk m sector_buffer buffer start length bytes =
    let end' = (start + length) % 2 ^ 32 in
    let i = start / sector_size in
    read_sectors-AreBytes ((end' + 2 ^ 32 - 1) % 2 ^ 32 / sector_size + 1 - i) disk m sector_buffer
      buffer start end' i bytes
