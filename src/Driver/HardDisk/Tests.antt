-- ===== src/Driver/HardDisk/Tests.antt =====
-- A read across the border between two sectors.
use luck_os.Common.{◌%◌, arith}
use luck_os.Kheap.Bytes.{Memory}
use luck_os.Driver.HardDisk.{Disk, read_hard_disk}
use luck_os.Driver.HardDisk.Read.{IsRead, read_hard_disk-IsRead}

abbrev numbered_disk : Disk
numbered_disk place = place % 256

abbrev blank_memory : Memory
blank_memory x = 0

read_hard_disk-IsRead_example :
    IsRead numbered_disk blank_memory 4096 8192 500 600
      (read_hard_disk numbered_disk blank_memory 4096 8192 500 600)
read_hard_disk-IsRead_example =
    read_hard_disk-IsRead numbered_disk blank_memory 4096 8192 500 600 (λ x. omega arith)
      (λ x. omega arith) (omega arith) (omega arith) (omega arith)
