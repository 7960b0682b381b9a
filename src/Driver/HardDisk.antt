-- ===== src/Driver/HardDisk.antt =====
-- src/driver/hard_disk.c, with `read_disk` of src/driver/disk_io.S. The disk is an argument, its bytes by their places; the
-- waiting for the device is not modelled. The block that `kmalloc` returns is the argument `sector_buffer`.
pub mod Read
mod Tests
use luck_os.Common.{ℕ, zero, suc, ◌+◌, ◌-◌, ◌*◌, ◌/◌, ◌%◌, ◌^◌}
use luck_os.Kheap.Bytes.{Memory, write8}
use luck_os.Stdlib.{memcpy}
use luck_os.Utils.Math.{max, min}

abbrev pub Disk : Type 0
Disk = ℕ → ℕ

abbrev pub sector_size : ℕ
sector_size = 512

-- `.go_on_read_data`: each round moves two bytes, and the device goes on to the next two.
pub go_on_read_data : ℕ → Disk → Memory → ℕ → ℕ → Memory
go_on_read_data zero disk m ebx next = m
go_on_read_data (suc ecx) disk m ebx next =
    go_on_read_data ecx disk (write8 (write8 m ebx (disk next)) (ebx + 1) (disk (next + 1)))
      (ebx + 2) (next + 2)

-- The device takes 28 bits of the first sector.
pub read_disk : Disk → Memory → ℕ → ℕ → ℕ → Memory
read_disk disk m buffer start_sector sector_num =
    go_on_read_data (sector_num * 256) disk m buffer (start_sector % 2 ^ 28 * sector_size)

pub read_sector : Disk → Memory → ℕ → ℕ → Memory
read_sector disk m buffer sector = read_disk disk m buffer sector 1

-- `copy_start_addr`, `copy_end_addr` and `copy_size` of the sector `i`.
abbrev pub copy_start_addr : ℕ → ℕ → ℕ
copy_start_addr start i = max (i * sector_size % 2 ^ 32) start

abbrev copy_end_addr : ℕ → ℕ → ℕ
copy_end_addr end i = min ((i + 1) * sector_size % 2 ^ 32) end

abbrev pub copy_size : ℕ → ℕ → ℕ → ℕ
copy_size start end i = (copy_end_addr end i + 2 ^ 32 - copy_start_addr start i) % 2 ^ 32

-- The loop over the sectors, from `i` on with `rounds` left.
pub read_sectors : ℕ → Disk → Memory → ℕ → ℕ → ℕ → ℕ → ℕ → Memory
read_sectors zero disk m sector_buffer buffer start end i = m
read_sectors (suc rounds) disk m sector_buffer buffer start end i =
    read_sectors rounds disk
      (memcpy (read_sector disk m sector_buffer i) buffer
        (sector_buffer + copy_start_addr start i - i * sector_size) (copy_size start end i))
      sector_buffer (buffer + copy_size start end i) start end (i + 1)

pub read_hard_disk : Disk → Memory → ℕ → ℕ → ℕ → ℕ → Memory
read_hard_disk disk m sector_buffer buffer start length =
    let end = (start + length) % 2 ^ 32 in
    let start_sector = start / sector_size in
    let end_sector = (end + 2 ^ 32 - 1) % 2 ^ 32 / sector_size + 1 in
    read_sectors (end_sector - start_sector) disk m sector_buffer buffer start end start_sector
