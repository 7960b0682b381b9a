-- ===== src/Kheap/Free.antt =====
-- `free` and `kheap_validate_print` of src/mem/kheap.c.
use luck_os.Common.{
  ℕ, zero, suc, ◌+◌, not, Option, none, some, ◌==◌, leb, ltb, ◌&&◌, if◌then◌else◌, ◌>>=◌,
}
use luck_os.OrderedArray.{ordered_array_find_element}
use luck_os.Kheap.Bytes.{Memory, write8}
use luck_os.Kheap.{
  Kheap, header_size, footer_size, block_meta_size, kheap_magic, u32, sub32, header_magic,
  header_is_hole, header_length, footer_header, footer_magic, make_block, insert_hole, remove_hole,
}

-- `Merge with right.`
unfoldable pub merge_right : Memory → Kheap → ℕ → ℕ → Option (Memory × Kheap)
merge_right m h header right_header =
    if (header_magic m right_header == kheap_magic) && not (header_is_hole m right_header == 0)
    then (do
      m₁ ←
          make_block m header
            (u32 (header_length m header + header_length m right_header + block_meta_size)) 1
      h₁ ← remove_hole h right_header
      some (m₁, h₁))
    else some (m, h)

-- `Merge with left.`: also the header of the new hole.
unfoldable pub merge_left : Memory → Kheap → ℕ → Option (Memory × Kheap × ℕ)
merge_left m h header =
    let left_footer = sub32 header footer_size in
    let left_header = footer_header m left_footer in
    if (footer_magic m left_footer == kheap_magic) && (header_is_hole m left_header == 1)
    then (do
      m₁ ←
          make_block m left_header
            (u32 (header_length m left_header + header_length m header + block_meta_size)) 1
      h₁ ← remove_hole h left_header
      some (m₁, h₁, left_header))
    else some (m, h, header)

-- The part of `free` behind its asserts, for the block at `header` with `footer`.
unfoldable pub release : Memory → Kheap → ℕ → ℕ → Option (Memory × Kheap)
release m h header footer = do
  (m₁, h₁) ← merge_right (write8 m (header + 4) 1) h header (u32 (footer + footer_size))
  (m₂, h₂, new_hole) ← merge_left m₁ h₁ header
  h₃ ← insert_hole m₂ h₂ new_hole
  some (m₂, h₃)

unfoldable pub free : Memory → Kheap → ℕ → Option (Memory × Kheap)
free m h ptr =
    let header = sub32 ptr header_size in
    let footer = u32 (ptr + header_length m header) in
    if ptr == 0
    then some (m, h)
    else if (header_magic m header == kheap_magic) && (footer_magic m footer == kheap_magic)
    then release m h header footer
    else none

-- The loop of `kheap_validate_print`, without what it prints, on fuel: the numbers of holes and of
-- allocated blocks.
unfoldable pub validate_from : ℕ → Memory → Kheap → ℕ → ℕ → ℕ → Option (ℕ × ℕ)
validate_from zero m h start hole_num alloc_num = none
validate_from (suc fuel) m h start hole_num alloc_num =
    let length = header_length m start in
    let next = u32 (start + (length + block_meta_size)) in
    let is_hole = not (header_is_hole m start == 0) in
    let indexed = ordered_array_find_element h.index start in
    let later =
      if leb next h.end_address
      then validate_from fuel m h next (if is_hole then hole_num + 1 else hole_num)
          (if is_hole then alloc_num else alloc_num + 1)
      else none in
    if ltb start h.end_address
    then (if header_magic m start == kheap_magic
        then (if is_hole
            then (indexed >>= λ i. if ltb i h.index.size then later else none)
            else later)
        else none)
    else some (hole_num, alloc_num)

-- A block takes more than 17 bytes, so `end_address` rounds are enough.
unfoldable pub kheap_validate_print : Memory → Kheap → Option ℕ
kheap_validate_print m h = do
  (hole_num, alloc_num) ← validate_from (h.end_address + 1) m h h.start_address 0 0
  if hole_num == h.index.size then some alloc_num else none
