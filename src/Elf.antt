-- ===== src/Elf.antt =====
-- src/elf/elf.c: the loading of a program, whose file is in memory at `content`.
pub mod Load
mod Tests
use luck_os.Common.{
  ℕ, zero, suc, ◌+◌, ◌*◌, ◌%◌, ◌^◌, ◌==◌, ltb, if◌then◌else◌, not, Option, none, some, ◌>>=◌,
}
use luck_os.Common.Int.{ℤ, pos, negsuc}
use luck_os.Kheap.Bytes.{Memory, read32, write32}
use luck_os.Stdlib.{memcpy}

-- A `uint16`.
pub read16 : Memory → ℕ → ℕ
read16 m a = m a + 256 * m (a + 1)

-- The fields of the header that are read.
abbrev pub e_entry : ℕ → ℕ
e_entry header = header + 24

abbrev pub e_phoff : ℕ → ℕ
e_phoff header = header + 28

abbrev pub e_phentsize : ℕ → ℕ
e_phentsize header = header + 42

abbrev pub e_phnum : ℕ → ℕ
e_phnum header = header + 44

abbrev pub p_type : ℕ → ℕ
p_type program_header = program_header

abbrev pub p_offset : ℕ → ℕ
p_offset program_header = program_header + 4

abbrev pub p_vaddr : ℕ → ℕ
p_vaddr program_header = program_header + 8

abbrev pub p_filesz : ℕ → ℕ
p_filesz program_header = program_header + 16

-- The loop over the program headers; `continue` leaves `program_header` where it is. The number and the size of the headers
-- are read again in each round.
pub load_segments : ℕ → Memory → ℕ → ℕ → ℕ → Option Memory
load_segments zero m content program_header i = none
load_segments (suc fuel) m content program_header i =
    let skipped = load_segments fuel m content program_header (i + 1) in
    let m' =
      memcpy m (read32 m (p_vaddr program_header)) (content + read32 m (p_offset program_header))
        (read32 m (p_filesz program_header)) in
    let next = (program_header + read16 m' (e_phentsize content)) % 2 ^ 32 in
    let loaded = load_segments fuel m' content next (i + 1) in
    if ltb i (read16 m (e_phnum content))
    then (if read32 m (p_type program_header) == 0 then skipped else loaded)
    else some m

-- The return value, and the memory after `*entry_addr` is set.
pub load_elf : ℕ → Memory → ℕ → ℕ → Option (ℤ × Memory)
load_elf fuel m content entry_addr =
    if not (m content == 0x7f)
    then some (negsuc 0, m)
    else if not (m (content + 1) == 0x45)
    then some (negsuc 0, m)
    else if not (m (content + 2) == 0x4c)
    then some (negsuc 0, m)
    else if not (m (content + 3) == 0x46)
    then some (negsuc 0, m)
    else load_segments fuel m content (content + read32 m (e_phoff content)) 0 >>= λ m'.
        some (pos 0, write32 m' entry_addr (read32 m' (e_entry content)))
