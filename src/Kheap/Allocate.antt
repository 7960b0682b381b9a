-- ===== src/Kheap/Allocate.antt =====
-- `alloc` without alignment against the list of the blocks.
use luck_os.Common.{
  ℕ, suc, ◌+◌, ◌≤◌, ◌<◌, ◌≡◌, refl, sym, ap, ◌∙◌, true, false, Option, some, none, List, ◌∷◌, ◌++◌,
  arith, ◌==◌, ◌>>=◌, subst, length, get_or,
}
use luck_os.OrderedArray.{OrderedArray, elements, ordered_array_remove, ordered_array_get}
use luck_os.OrderedArray.Insert.{get_or-elements, length-elements}
use luck_os.Kheap.{Kheap, kheap_magic}
use luck_os.Kheap.Bytes.{Memory, read32}
use luck_os.Kheap.Blocks.{Block, SameOutside}
use luck_os.Kheap.Index.{SameFrame-trans, one_at, count, SameFrame}
use luck_os.Kheap.Tiling.{span, hole_count, Tiles-split, span-append, hole_count-append}
use luck_os.Kheap.Heap.{IsHeap}
use luck_os.Kheap.Alloc.{find_hole, take_hole, use_block, alloc}
use luck_os.Kheap.Merge.{counted}
use luck_os.Kheap.Validate.{count-get_or}
use luck_os.Kheap.FirstFit.{Finds, IsFirstFit, get-entry, find_hole-Finds}
use luck_os.Kheap.Cut.{cut_blocks, use_block-IsUsed}
use luck_os.Kheap.Take.{entry-HoleAt, removes, IsOpen-of_hole}

-- A block of at least `size` bytes was a hole, and is now in use: what `alloc` did to the heap.
pub record IsAllocated (m : Memory) (h : Kheap) (bs : List Block) (size ptr : ℕ) (m' : Memory)
    (h' : Kheap) : Type 0 where
  pub before : List Block
  pub block : Block
  pub behind : List Block
  pub parts : bs ≡ before ++ (block ∷ behind)
  pub hole : block.hole ≡ true
  pub fits : size ≤ block.size
  pub pointer : ptr ≡ h.start_address + span before + 9
  pub heap : IsHeap m' h' (before ++ cut_blocks block.size size behind)
  pub frame : SameFrame h h'
  pub others : SameOutside m m' (h.start_address + span before) block.size

takes :
    (m : Memory) (h : Kheap) (size k pos x n : ℕ) (index : OrderedArray) (m' : Memory) (h' : Kheap)
    → ordered_array_get h.index k ≡ some x
    → read32 m x ≡ kheap_magic
    → read32 m (x + 5) ≡ n
    → ordered_array_remove h.index k ≡ some (1, index)
    → use_block m (record h { index = index }) x n size ≡ some (m', h')
    → take_hole m h size false k pos ≡ some (pos, m', h')
unfolding take_hole
takes m h size k pos x n index m' h' get magic length remove run =
    rw (get, ◌>>=◌, magic, length, remove, ◌>>=◌, run) refl

pub take_hole-IsAllocated :
    (m : Memory) (h : Kheap) (bs : List Block) (size k pos : ℕ)
    → 0 < size
    → IsHeap m h bs
    → IsFirstFit m h.index size 0 k pos
    → (m' : Memory) × (h' : Kheap) × (take_hole m h size false k pos ≡ some (pos, m', h'))
      × IsAllocated m h bs size pos m' h'
unfolding span
take_hole-IsAllocated m h bs size k pos some_bytes ok first =
    let x = get_or h.index.array k 0 in
    let same_entry : get_or (elements h.index) k 0 ≡ x =
      ground (arith, get_or-elements h.index k, first.below) in
    let at = entry-HoleAt m h bs k ok first.below in
    let place : x ≡ h.start_address + span at.before = sym same_entry ∙ at.place in
    let ok' = subst (IsHeap m h) at.parts ok in
    let (left, right) = Tiles-split m h.start_address at.before (at.block ∷ at.behind) ok'.tiles in
    let block = right.0 in
    let spans = span-append at.before (at.block ∷ at.behind) in
    let (index, run, same, room, counts) = removes m h k ok.framed.index first.below in
    let on =
      IsOpen-of_hole m h (record h { index = index }) at.before at.block at.behind at.hole ok' same
        (λ t. counts t ∙ ap (λ (p : ℕ). one_at t p + count t (elements index)) at.place) in
    let size_there : read32 m (x + 5) ≡ at.block.size =
      ap (λ (t : ℕ). read32 m (t + 5)) place ∙ block.length in
    let fits : size ≤ at.block.size = omega (arith, first.fits, size_there) in
    let (m', h', run', done) =
      use_block-IsUsed m (record h { index = index }) at.before at.block at.behind size some_bytes
        fits room on in
    (
      m',
      h',
      takes m h size k pos x at.block.size index m' h'
          (get-entry h.index k ok.framed.index first.below)
          (ap (λ (t : ℕ). read32 m t) place ∙ block.top_magic) size_there run
          (subst
            (λ (t : ℕ).
              use_block m (record h { index = index }) t at.block.size size ≡ some (m', h'))
            (sym place) run'),
      record {
        before = at.before;
        block = at.block;
        behind = at.behind;
        parts = at.parts;
        hole = at.hole;
        fits = fits;
        pointer = omega (arith, first.position, place, ok'.ends, ok.framed.below, spans);
        heap = done.heap;
        frame = SameFrame-trans h (record h { index = index }) h' same done.frame;
        others = done.others;
      },
    )

-- A hole of the blocks stands in the index, and its size can be read there.
indexed_hole :
    (m : Memory) (h : Kheap) (xs : List Block) (b : Block) (ys : List Block)
    → b.hole ≡ true
    → IsHeap m h (xs ++ (b ∷ ys))
    → (j : ℕ) × (j < h.index.size) × (read32 m (get_or h.index.array j 0 + 5) ≡ b.size)
unfolding hole_count
indexed_hole m h xs b ys hole ok =
    let x = h.start_address + span xs in
    let one : one_at x x ≡ 1 = ground arith in
    let (j, less, e) = count-get_or x (elements h.index) (
      omega (
        arith,
        ok.counts x,
        hole_count-append x h.start_address xs (b ∷ ys),
        counted hole x x,
        one,
      )) in
    let (left, right) = Tiles-split m h.start_address xs (b ∷ ys) ok.tiles in
    let within : j < h.index.size = omega (arith, length-elements h.index ok.framed.index) in
    let e' : get_or h.index.array j 0 ≡ x = ground (arith, get_or-elements h.index j, e) in
    (j, within, ap (λ (t : ℕ). read32 m (t + 5)) e' ∙ right.0.length)

allocates :
    (fuel : ℕ) (m : Memory) (h : Kheap) (bs : List Block) (size j : ℕ)
    → (found : Option (ℕ × ℕ)) → 0 < size
    → IsHeap m h bs
    → j < h.index.size
    → size ≤ read32 m (get_or h.index.array j 0 + 5)
    → find_hole m h size false ≡ some found
    → Finds m h.index size 0 found
    → (ptr : ℕ) × (m' : Memory) × (h' : Kheap) × (alloc (suc fuel) m h size false
        ≡ some (ptr, m', h'))
      × IsAllocated m h bs size ptr m' h'
unfolding alloc
allocates fuel m h bs size j none some_bytes ok less fits run no_fit =
    absurd (omega (arith, no_fit.too_small j (omega arith) less, fits))
allocates fuel m h bs size j (some (k, pos)) some_bytes ok less fits run first =
    let test : (size == 0) ≡ false = ground arith in
    let (m', h', run', done) = take_hole-IsAllocated m h bs size k pos some_bytes ok first in
    (pos, m', h', rw (test, run, ◌>>=◌, run') refl, done)

-- In a heap in order with a hole of at least `size` bytes, `alloc` of `size` bytes without alignment
-- succeeds. It takes such a hole into use, whose data start at the pointer; what remains of more than 17
-- bytes becomes a hole. The other blocks and their bytes stay, and the heap is in order.
pub alloc-IsAllocated :
    (fuel : ℕ) (m : Memory) (h : Kheap) (xs : List Block) (b : Block) (ys : List Block) (size : ℕ)
    → 0 < size
    → IsHeap m h (xs ++ (b ∷ ys))
    → b.hole ≡ true
    → size ≤ b.size
    → (ptr : ℕ) × (m' : Memory) × (h' : Kheap) × (alloc (suc fuel) m h size false
        ≡ some (ptr, m', h'))
      × IsAllocated m h (xs ++ (b ∷ ys)) size ptr m' h'
alloc-IsAllocated fuel m h xs b ys size some_bytes ok hole fits =
    let (j, less, same) = indexed_hole m h xs b ys hole ok in
    let (found, run, finds) = find_hole-Finds m h size ok.framed.index in
    allocates fuel m h (xs ++ (b ∷ ys)) size j found some_bytes ok less (omega (arith, same, fits))
      run finds
