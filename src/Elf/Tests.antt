-- ===== src/Elf/Tests.antt =====
-- A file of 100 bytes at 1000 with one segment of 4 bytes, for the address 9000.
use luck_os.Common.{◌+◌, ◌≡◌, some, ◌==◌, if◌then◌else◌, arith, refl, List, [], ◌∷◌}
use luck_os.Common.Int.{pos, negsuc}
use luck_os.Kheap.Bytes.{Memory, read32}
use luck_os.Stdlib.Copy.{AreBytes}
use luck_os.Elf.{read16, e_phnum, e_phoff, load_elf}
use luck_os.Elf.Load.{Segment, AreSegments, IsProgram, load_elf-IsProgram, load_elf-refuses}

abbrev start_bytes : Memory
start_bytes x =
    if x == 1000
    then 0x7f
    else if x == 1001
    then 0x45
    else if x == 1002
    then 0x4c
    else if x == 1003
    then 0x46
    else 0

abbrev program_memory : Memory
program_memory x =
    if x == 1028
    then 52
    else if x == 1042
    then 32
    else if x == 1044
    then 1
    else if x == 1052
    then 1
    else if x == 1056
    then 84
    else if x == 1060
    then 40
    else if x == 1061
    then 35
    else if x == 1068
    then 4
    else start_bytes x

abbrev program_segments : List Segment
program_segments = record { offset = 84; vaddr = 9000; filesz = 4 } ∷ []

program_memory-AreBytes : AreBytes program_memory
program_memory-AreBytes x = ground arith

program_memory-count : read16 program_memory (e_phnum 1000) ≡ 1
unfolding read16
program_memory-count = refl

program_memory-AreSegments :
    AreSegments program_memory 1000 100
      (1000 + read32 program_memory (e_phoff 1000))
      program_segments
unfolding read32 read16
program_memory-AreSegments = (omega arith, omega arith, λ e. omega (arith, e), refl, refl, refl, tt)

load_elf-IsProgram_example :
    (m' : Memory) × (load_elf 2 program_memory 1000 7000 ≡ some (pos 0, m'))
    × IsProgram program_memory 1000 7000 program_segments m'
load_elf-IsProgram_example =
    load_elf-IsProgram 2 program_memory 1000 100 7000 program_segments (omega arith) (omega arith)
      program_memory-AreBytes (refl, refl, refl, refl) program_memory-count
      program_memory-AreSegments (omega arith, omega arith, λ k less. tt, tt) (omega arith, tt)

load_elf-refuses_example : load_elf 2 program_memory 2000 7000 ≡ some (negsuc 0, program_memory)
load_elf-refuses_example =
    load_elf-refuses 2 program_memory 2000 7000 (λ magic. omega (arith, magic.0))
