-- ===== src/Kheap/Alloc.antt =====
-- `find_hole` and `alloc` of src/mem/kheap.c.
use luck_os.Common.{
  ℕ, zero, suc, ◌+◌, ◌-◌, ◌/◌, Bool, not, Option, none, some, ◌==◌, leb, ltb, if◌then◌else◌, ◌>>=◌,
}
use luck_os.OrderedArray.{OrderedArray, ordered_array_get, ordered_array_remove}
use luck_os.Kheap.Bytes.{Memory}
use luck_os.Kheap.{
  Kheap, page_size, header_size, footer_size, block_meta_size, kheap_magic, u32, sub32,
  header_magic, header_is_hole, header_length, footer_header, align_to_page, kheap_expand,
  make_block, insert_hole, remove_hole,
}

-- The search for an aligned place in a hole; `none` is out of fuel, `some none` no place.
pub find_aligned : ℕ → ℕ → ℕ → ℕ → ℕ → Option (Option ℕ)
find_aligned zero start end size next = none
find_aligned (suc fuel) start end size next =
    let later = find_aligned fuel start end size (u32 (next + page_size)) in
    if leb (u32 (next + size)) end
    then (if ltb block_meta_size (sub32 next start) then some (some next) else later)
    else some none

-- One round of `find_hole`: the position if the hole at `header` fits.
unfoldable pub hole_fits : Memory → ℕ → ℕ → Bool → Option (Option ℕ)
hole_fits m header size page_align =
    let start = u32 (header + header_size) in
    let end = u32 (start + header_length m header) in
    if page_align
    then find_aligned (end / page_size + 2) start end size (align_to_page start)
    else if leb size (header_length m header)
    then some (some start)
    else some none

-- The loop of `find_hole` from round `i` on: the index of the hole and the position.
unfoldable pub find_hole_from : Memory → OrderedArray → ℕ → Bool → ℕ → ℕ → Option (Option (ℕ × ℕ))
find_hole_from m index size page_align zero i = some none
find_hole_from m index size page_align (suc rounds) i = do
  header ← ordered_array_get index i
  fit ← hole_fits m header size page_align
  let later = find_hole_from m index size page_align rounds (suc i)
  elim fit [ none ↦ later | some alloc_pos ↦ some (some (i, alloc_pos)) ]

unfoldable pub find_hole : Memory → Kheap → ℕ → Bool → Option (Option (ℕ × ℕ))
find_hole m h size page_align = find_hole_from m h.index size page_align h.index.size 0

-- The part of `alloc` for a heap in which no hole fits.
unfoldable pub grow_heap : Memory → Kheap → ℕ → Option (Memory × Kheap)
grow_heap m h size = do
  let old_end_address = h.end_address
  (extended_size, h₁) ← kheap_expand h (u32 (size + block_meta_size))
  let last_footer = sub32 old_end_address footer_size
  let last_header = footer_header m last_footer
  if not (header_is_hole m last_header == 0)
      then (do
        m₁ ← make_block m last_header (u32 (header_length m last_header + extended_size)) 1
        h₂ ← remove_hole h₁ last_header
        h₃ ← insert_hole m₁ h₂ last_header
        some (m₁, h₃))
      else (do
        m₁ ← make_block m old_end_address (sub32 extended_size block_meta_size) 1
        h₂ ← insert_hole m₁ h₁ old_end_address
        some (m₁, h₂))

-- The front of an aligned place that lies inside of the hole becomes a hole of its own: the memory,
-- the heap, the header to use and the size from there on.
pub cut_front : Memory → Kheap → ℕ → ℕ → ℕ → Option (Memory × Kheap × ℕ × ℕ)
cut_front m h header block_size alloc_pos =
    let alloc_block_header = sub32 alloc_pos header_size in
    if ltb header alloc_block_header
    then (let cut_block_size = sub32 alloc_block_header header in
        if ltb block_meta_size cut_block_size
        then (do
          m₁ ← make_block m header (sub32 cut_block_size block_meta_size) 1
          h₁ ← insert_hole m₁ h header
          some (m₁, h₁, alloc_block_header, sub32 block_size cut_block_size))
        else none)
    else some (m, h, header, block_size)

-- `Use this block`, and what remains behind it becomes a hole.
unfoldable pub use_block : Memory → Kheap → ℕ → ℕ → ℕ → Option (Memory × Kheap)
use_block m h header block_size size =
    if leb size block_size
    then (let remain_size = block_size - size in
        if leb remain_size block_meta_size
        then (do m₁ ← make_block m header block_size 0; some (m₁, h))
        else (do
          m₁ ← make_block m header size 0
          let rest = u32 (header + block_meta_size + size)
          m₂ ← make_block m₁ rest (remain_size - block_meta_size) 1
          h₁ ← insert_hole m₂ h rest
          some (m₂, h₁)))
    else none

-- The part of `alloc` for the hole that `find_hole` found.
unfoldable pub take_hole : Memory → Kheap → ℕ → Bool → ℕ → ℕ → Option (ℕ × Memory × Kheap)
take_hole m h size page_align iterator alloc_pos = do
  header ← ordered_array_get h.index iterator
  if header_magic m header == kheap_magic
      then (do
        let block_size = header_length m header
        (result, index) ← ordered_array_remove h.index iterator
        let h₁ = record h { index = index }
        (m₂, h₂, header₂, block_size₂) ←
            (if page_align
              then cut_front m h₁ header block_size alloc_pos
              else some (m, h₁, header, block_size))
        (m₃, h₃) ← use_block m₂ h₂ header₂ block_size₂ size
        some (alloc_pos, m₃, h₃))
      else none

-- The call in the last line of the first branch takes fuel: each round has made the heap larger.
unfoldable pub alloc : ℕ → Memory → Kheap → ℕ → Bool → Option (ℕ × Memory × Kheap)
alloc zero m h size page_align = none
alloc (suc fuel) m h size page_align =
    if size == 0
    then none
    else find_hole m h size page_align >>= elim [
      | none ↦ grow_heap m h size >>= λ (m', h'). alloc fuel m' h' size page_align
      | some (iterator, alloc_pos) ↦ take_hole m h size page_align iterator alloc_pos
    ]
