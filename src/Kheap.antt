-- ===== src/Kheap.antt =====
-- src/mem/kheap.c and kheap.h: the kernel heap. Blocks lie side by side in memory: a header of 9 bytes,
-- the data, a footer of 8 bytes. The holes stand in an index in the order of their sizes.
-- A failed `ASSERT` is `none`. The memory of the index stands apart, in its list.
pub mod Bytes
pub mod Blocks
pub mod Index
pub mod Tiling
pub mod Heap
pub mod Merge
pub mod MergeLeft
pub mod Release
pub mod Validate
pub mod Create
pub mod FirstFit
pub mod Cut
pub mod Take
pub mod Allocate
pub mod Grow
pub mod Extend
pub mod Locked
pub mod Alloc
pub mod Free
pub mod Calls
mod Tests
use luck_os.Common.{
  ℕ, zero, suc, ◌+◌, ◌-◌, ◌*◌, ◌/◌, ◌%◌, ◌^◌, Bool, true, false, not, Option, none, some, List,
  ◌==◌, leb, ltb, ◌&&◌, if◌then◌else◌, ◌>>=◌,
}
use luck_os.Common.Int.{ℤ, pos, negsuc}
use luck_os.OrderedArray.{
  OrderedArray, ordered_array_create, ordered_array_insert, ordered_array_get, ordered_array_remove,
  ordered_array_remove_element, ordered_array_find_element,
}
use Bytes.{Memory, read32, write8, write32}

abbrev pub kheap_start : ℕ
kheap_start = 0xc0c0_0000

abbrev pub kheap_min_size : ℕ
kheap_min_size = 0x30_0000

abbrev pub kheap_max : ℕ
kheap_max = 0xe000_0000

abbrev pub kheap_index_num : ℕ
kheap_index_num = 0x2_0000

abbrev pub kheap_magic : ℕ
kheap_magic = 0x1230_60ab

abbrev pub page_size : ℕ
page_size = 4096

abbrev pub header_size : ℕ
header_size = 9

abbrev pub footer_size : ℕ
footer_size = 8

abbrev pub block_meta_size : ℕ
block_meta_size = 17

abbrev pub u32 : ℕ → ℕ
u32 n = n % 2 ^ 32

-- `a - b` on `uint32`.
abbrev pub sub32 : ℕ → ℕ → ℕ
sub32 a b = (a + 2 ^ 32 - b) % 2 ^ 32

pub record Kheap : Type 0 where
  pub index : OrderedArray
  pub start_address : ℕ
  pub end_address : ℕ
  pub size : ℕ
  pub max_address : ℕ
  pub supervisor : ℕ
  pub readonly : ℕ

-- The fields of `kheap_block_header` and `kheap_block_footer`.
abbrev pub header_magic : Memory → ℕ → ℕ
header_magic m a = read32 m a

abbrev pub header_is_hole : Memory → ℕ → ℕ
header_is_hole m a = m (a + 4)

abbrev pub header_length : Memory → ℕ → ℕ
header_length m a = read32 m (a + 5)

abbrev pub footer_magic : Memory → ℕ → ℕ
footer_magic m a = read32 m a

abbrev pub footer_header : Memory → ℕ → ℕ
footer_header m a = read32 m (a + 4)

-- `num & 0xFFF` is the remainder by 4096.
pub align_to_page : ℕ → ℕ
align_to_page num =
    if not (num % page_size == 0) then u32 (num / page_size * page_size + page_size) else num

-- The growth, and the heap.
pub kheap_expand : Kheap → ℕ → Option (ℕ × Kheap)
kheap_expand h size =
    let expand_size = align_to_page size in
    if expand_size == 0
    then some (0, h)
    else let new_end = u32 (h.end_address + expand_size) in
      if leb new_end h.max_address
      then some (expand_size, record h { end_address = new_end; size = u32 (h.size + expand_size) })
      else none

kheap_contract : Kheap → ℕ → ℕ × Kheap
kheap_contract h size =
    let contract_size = align_to_page size in
    if contract_size == 0
    then (0, h)
    else let rest = sub32 h.size contract_size in
      let new_size = if ltb rest kheap_min_size then kheap_min_size else rest in
      (new_size, record h { size = new_size; end_address = u32 (h.start_address + new_size) })

pub make_block : Memory → ℕ → ℕ → ℕ → Option Memory
make_block m start size is_hole =
    if size == 0
    then none
    else let footer = sub32 (u32 (start + size + block_meta_size)) footer_size in
      let m₁ = write32 m start kheap_magic in
      let m₂ = write32 m₁ (start + 5) size in
      let m₃ = write8 m₂ (start + 4) is_hole in
      let m₄ = write32 m₃ footer kheap_magic in some (write32 m₄ (footer + 4) start)

pub kheap_block_comparator : Memory → ℕ → ℕ → ℤ
kheap_block_comparator m x y =
    let size1 = header_length m x in
    let size2 = header_length m y in
    if ltb size1 size2 then negsuc 0 else if size1 == size2 then pos 0 else pos 1

-- The comparator reads the memory as it is at the call.
pub insert_hole : Memory → Kheap → ℕ → Option Kheap
insert_hole m h header = do
  (result, index) ←
      ordered_array_insert (record h.index { comparator = kheap_block_comparator m }) header
  some (record h { index = index })

-- `ASSERT(remove)`
pub remove_hole : Kheap → ℕ → Option Kheap
remove_hole h header = do
  (result, index) ← ordered_array_remove_element h.index header
  if result == 0 then none else some (record h { index = index })
