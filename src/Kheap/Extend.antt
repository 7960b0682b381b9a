-- ===== src/Kheap/Extend.antt =====
-- `grow_heap`, and `alloc` in a heap that may have to grow.
use luck_os.Common.{
  ℕ, suc, ◌+◌, ◌%◌, ◌-◌, ◌^◌, ◌≤◌, ◌<◌, ◌≡◌, ◌≢◌, refl, sym, ap, ◌∙◌, true, false, Option, some,
  none, List, [], ◌∷◌, ◌++◌, arith, ◌==◌, ◌>>=◌, subst, ◌⊎◌, inl, inr, Bool-cases,
}
use luck_os.Kheap.{
  Kheap, kheap_magic, u32, sub32, make_block, insert_hole, remove_hole, align_to_page, kheap_expand,
}
use luck_os.Kheap.Bytes.{Memory, read32}
use luck_os.Kheap.Blocks.{Block, to_nat}
use luck_os.Kheap.Tiling.{span, span-append, Tiles-split}
use luck_os.Kheap.Heap.{IsHeap}
use luck_os.Kheap.Cut.{hole_with}
use luck_os.Kheap.Alloc.{grow_heap, find_hole, alloc}
use luck_os.Kheap.FirstFit.{Finds, IsNoFit, find_hole-Finds}
use luck_os.Kheap.Allocate.{IsAllocated, take_hole-IsAllocated, alloc-IsAllocated}
use luck_os.Kheap.Grow.{
  longer, align_to_page-bounds, expands, grown, grown-used, grown-hole, IsGrown, grow-used,
  grow-hole,
}

-- By how much the heap grows for `size` bytes.
abbrev pub growth : ℕ → ℕ
growth size = align_to_page (size + 17)

-- The heap may grow for `size` bytes: there is room up to its limit and in the index, and no block
-- seems to stand at the new end.
pub record HasRoom (m : Memory) (h : Kheap) (size : ℕ) : Type 0 where
  pub small : size + 17 + 4096 < 2 ^ 32
  pub room : h.end_address + growth size ≤ h.max_address
  pub limit : h.max_address < 2 ^ 32
  pub entry : h.index.size < h.index.max_size
  pub nothing_after : read32 m (h.end_address + growth size) ≢ kheap_magic

grows-used :
    (m : Memory) (h : Kheap) (size e f a : ℕ) (m' : Memory) (h' : Kheap)
    → 17 < e
    → e < 2 ^ 32
    → kheap_expand h (u32 (size + 17)) ≡ some (e, longer h e)
    → sub32 h.end_address 8 ≡ f
    → read32 m (f + 4) ≡ a
    → m (a + 4) ≡ 0
    → make_block m h.end_address (e - 17) 1 ≡ some m'
    → insert_hole m' (longer h e) h.end_address ≡ some h'
    → grow_heap m h size ≡ some (m', h')
unfolding grow_heap
grows-used m h size e f a m' h' large small expand footer back flag run run' =
    let place : sub32 e 17 ≡ e - 17 = omega arith in
    rw (expand, ◌>>=◌, footer, back, flag, place, run, ◌>>=◌, run') refl

grows-hole :
    (m : Memory) (h : Kheap) (size e f a n : ℕ) (m' : Memory) (h₁ h' : Kheap)
    → kheap_expand h (u32 (size + 17)) ≡ some (e, longer h e)
    → sub32 h.end_address 8 ≡ f
    → read32 m (f + 4) ≡ a
    → m (a + 4) ≡ 1
    → read32 m (a + 5) ≡ n
    → make_block m a (u32 (n + e)) 1 ≡ some m'
    → remove_hole (longer h e) a ≡ some h₁
    → insert_hole m' h₁ a ≡ some h'
    → grow_heap m h size ≡ some (m', h')
unfolding grow_heap
grows-hole m h size e f a n m' h₁ h' expand footer back flag length run run' run'' =
    rw (expand, ◌>>=◌, footer, back, flag, length, run, ◌>>=◌, run', ◌>>=◌, run'') refl

-- The least whole number of pages that holds `need` bytes.
pub record ArePagesFor (need amount : ℕ) : Type 0 where
  pub whole : amount % 4096 ≡ 0
  pub enough : need ≤ amount
  pub least : amount < need + 4096

-- In a heap in order that may grow, the part of `alloc` for a heap without a hole that fits succeeds. The heap becomes
-- longer by the least whole number of pages for the block, a hole at the end takes them in or they become
-- a hole, the blocks in use keep their bytes, and the heap is in order.
pub grow_heap-IsGrown :
    (m : Memory) (h : Kheap) (ws : List Block) (x : Block) (size : ℕ)
    → HasRoom m h size
    → IsHeap m h (ws ++ (x ∷ []))
    → (m' : Memory) × (h' : Kheap) × (grow_heap m h size ≡ some (m', h'))
      × IsGrown m h ws x (growth size) m' h'
      × ArePagesFor (size + 17) (growth size)
unfolding span
grow_heap-IsGrown m h ws x size can ok =
    let e = growth size in
    let a = h.start_address + span ws in
    let (least, below, pages) = align_to_page-bounds (size + 17) (omega (arith, can.small)) in
    let needed : ArePagesFor (size + 17) e = record {
      whole = pages;
      enough = least;
      least = below;
    } in
    let small : u32 (size + 17) ≡ size + 17 = omega (arith, can.small) in
    let large : 17 < e = ground (arith, least, pages) in
    let expand : kheap_expand h (u32 (size + 17)) ≡ some (e, longer h e) =
      ap (λ (t : ℕ). kheap_expand h t) small
      ∙ expands h (size + 17) e refl (omega (arith, large)) can.room can.limit in
    let (left, right) = Tiles-split m h.start_address ws (x ∷ []) ok.tiles in
    let block = right.0 in
    let footer : sub32 h.end_address 8 ≡ a + 9 + x.size =
      omega (arith, ok.ends, span-append ws (x ∷ []), ok.framed.below) in
    elim (Bool-cases x.hole) [
      | inr used ↦
          let (m', h', run, run', done) =
            grow-used m h ws x e used large (omega (arith, can.room, can.limit)) can.nothing_after
              can.entry ok in
          (
            m',
            h',
            grows-used m h size e (a + 9 + x.size) a m' h' large
                (omega (arith, can.room, can.limit)) expand footer block.back
                (block.flag ∙ ap to_nat used) run run',
            done,
            needed,
          )
      | inl hole ↦
          let (m', h₁, h', run, run', run'', done) =
            grow-hole m h ws x e hole (omega (arith, can.room, can.limit)) can.nothing_after ok in
          (
            m',
            h',
            grows-hole m h size e (a + 9 + x.size) a x.size m' h₁ h' expand footer block.back
                (block.flag ∙ ap to_nat hole) block.length run run' run'',
            done,
            needed,
          )
    ]

-- The last block of the grown heap is a hole for the block.
grown-HoleAt :
    (m : Memory) (h : Kheap) (ws : List Block) (x : Block) (size : ℕ)
    → HasRoom m h size
    → (xs : List Block) × (b : Block) × (grown ws x (growth size) ≡ xs ++ (b ∷ []))
      × (b.hole ≡ true)
      × (size ≤ b.size)
grown-HoleAt m h ws x size can =
    let (least, below, pages) = align_to_page-bounds (size + 17) (omega (arith, can.small)) in
    elim (Bool-cases x.hole) [
      | inl hole ↦ (
        ws,
        hole_with (x.size + growth size),
        grown-hole ws x (growth size) hole,
        refl,
        omega (arith, least),
      )
      | inr used ↦ (
        ws ++ (x ∷ []),
        hole_with (growth size - 17),
        grown-used ws x (growth size) used,
        refl,
        omega (arith, least),
      )
    ]

-- What `alloc` does to a heap with the blocks `ws` and the last block `x`: it takes a hole, or it lets the heap
-- grow and then takes a hole.
abbrev pub Allocates : Memory → Kheap → List Block → Block → ℕ → ℕ → Memory → Kheap → Type 0
Allocates m h ws x size ptr m' h' =
    IsAllocated m h (ws ++ (x ∷ [])) size ptr m' h'
    ⊎ ((m₁ : Memory) × (h₁ : Kheap) × IsNoFit m h.index size 0
        × IsGrown m h ws x (growth size) m₁ h₁
        × IsAllocated m₁ h₁ (grown ws x (growth size)) size ptr m' h')

finishes :
    (fuel : ℕ) (m : Memory) (h : Kheap) (ws : List Block) (x : Block) (size : ℕ)
    → (found : Option (ℕ × ℕ)) → 0 < size
    → HasRoom m h size
    → IsHeap m h (ws ++ (x ∷ []))
    → find_hole m h size false ≡ some found
    → Finds m h.index size 0 found
    → (ptr : ℕ) × (m' : Memory) × (h' : Kheap) × (alloc (suc (suc fuel)) m h size false
        ≡ some (ptr, m', h'))
      × Allocates m h ws x size ptr m' h'
unfolding alloc
finishes fuel m h ws x size (some (k, pos)) some_bytes can ok run first =
    let test : (size == 0) ≡ false = ground arith in
    let (m', h', run', done) =
      take_hole-IsAllocated m h (ws ++ (x ∷ [])) size k pos some_bytes ok first in
    (pos, m', h', rw (test, run, ◌>>=◌, run') refl, inl done)
finishes fuel m h ws x size none some_bytes can ok run no_fit =
    let test : (size == 0) ≡ false = ground arith in
    let (m₁, h₁, run₁, more, needed) = grow_heap-IsGrown m h ws x size can ok in
    let (xs, b, same, hole, fits) = grown-HoleAt m h ws x size can in
    let (ptr, m', h', run₂, done) =
      alloc-IsAllocated fuel m₁ h₁ xs b [] size some_bytes (subst (IsHeap m₁ h₁) same more.heap)
        hole fits in
    (
      ptr,
      m',
      h',
      rw (test, run, ◌>>=◌, run₁, ◌>>=◌) run₂,
      inr (
        m₁,
        h₁,
        no_fit,
        more,
        subst (λ (t : List Block). IsAllocated m₁ h₁ t size ptr m' h') (sym same) done,
      ),
    )

-- In a heap in order that may grow for the block, `alloc` of at least one byte without alignment
-- succeeds within two rounds. It takes a hole of at least that size into use, after one growth of the heap if no hole in the
-- index was large enough; the heap is in order again, and the other blocks and their bytes stay.
pub alloc-Allocates :
    (fuel : ℕ) (m : Memory) (h : Kheap) (ws : List Block) (x : Block) (size : ℕ)
    → 0 < size
    → HasRoom m h size
    → IsHeap m h (ws ++ (x ∷ []))
    → (ptr : ℕ) × (m' : Memory) × (h' : Kheap) × (alloc (suc (suc fuel)) m h size false
        ≡ some (ptr, m', h'))
      × Allocates m h ws x size ptr m' h'
alloc-Allocates fuel m h ws x size some_bytes can ok =
    let (found, run, finds) = find_hole-Finds m h size ok.framed.index in
    finishes fuel m h ws x size found some_bytes can ok run finds
