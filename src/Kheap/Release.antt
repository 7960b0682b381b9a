-- ===== src/Kheap/Release.antt =====
-- `free` against the list of the blocks.
use luck_os.Common.{
  ℕ, ◌+◌, ◌≤◌, ◌<◌, ◌≡◌, refl, ◌∙◌, true, false, some, List, [], ◌∷◌, ◌++◌, arith, ◌==◌, ◌>>=◌,
  subst, inl, inr, Bool-cases,
}
use luck_os.Kheap.{Kheap, u32, sub32, insert_hole}
use luck_os.Kheap.Bytes.{Memory, write8, read8-write8_self, read8-write8_apart, read32-write8_apart}
use luck_os.Kheap.Blocks.{Block, IsBlock, SameOutside}
use luck_os.Kheap.Index.{SameFrame-trans, SameFrame, insert_hole-count}
use luck_os.Kheap.Tiling.{span}
use luck_os.Kheap.Heap.{
  IsHeap, IsOpen, joined, right_merge, left_merge, freed, IsOpen-of_IsBlock, IsOpen-of_IsHeap,
  IsHeap-of_IsOpen,
}
use luck_os.Kheap.Merge.{merge_right-MergesRight}
use luck_os.Kheap.MergeLeft.{merge_left-MergesLeft}
use luck_os.Kheap.Free.{free, release, merge_right, merge_left}

abbrev hole_of : Block → Block
hole_of b = record { size = b.size; hole = true }

size-right_merge : (b : Block) (ys : List Block) → b.size ≤ (right_merge b ys).0.size
unfolding right_merge joined
size-right_merge b [] = omega arith
size-right_merge b (y ∷ ys) = elim (Bool-cases y.hole) [
  | inl hole ↦ rw hole (omega arith)
  | inr used ↦ rw used (omega arith)
]

span-left_merge : (xs : List Block) (b : Block) → span (left_merge xs b).0 ≤ span xs
unfolding left_merge span
span-left_merge [] b = omega arith
span-left_merge (x ∷ []) b = elim (Bool-cases x.hole) [
  | inl hole ↦ rw hole (omega arith)
  | inr used ↦ rw used (omega arith)
]
span-left_merge (x ∷ y ∷ xs) b = omega (arith, span-left_merge (y ∷ xs) b)

-- The flag of a block becomes 1.
flagged :
    (m : Memory) (h : Kheap) (xs : List Block) (b : Block) (ys : List Block)
    → IsOpen m h xs b ys
    → (IsOpen (write8 m (h.start_address + span xs + 4) 1) h xs (hole_of b) ys)
      × SameOutside m
          (write8 m (h.start_address + span xs + 4) 1)
          (h.start_address + span xs)
          b.size
flagged m h xs b ys ok =
    let a = h.start_address + span xs in
    let m' = write8 m (a + 4) 1 in
    let outside : SameOutside m m' a b.size =
      λ x out. read8-write8_apart m (a + 4) 1 x (omega (arith, out)) in
    let mid : IsBlock m' a (hole_of b) = record {
      some_bytes = ok.mid.some_bytes;
      top_magic = read32-write8_apart m (a + 4) 1 a (omega arith) ∙ ok.mid.top_magic;
      flag = read8-write8_self m (a + 4) 1 (omega arith);
      length = read32-write8_apart m (a + 4) 1 (a + 5) (omega arith) ∙ ok.mid.length;
      bottom_magic =
          read32-write8_apart m (a + 4) 1 (a + 9 + b.size) (omega arith) ∙ ok.mid.bottom_magic;
      back = read32-write8_apart m (a + 4) 1 (a + 9 + b.size + 4) (omega arith) ∙ ok.mid.back;
    } in
    (IsOpen-of_IsBlock m m' h xs b (hole_of b) ys refl mid outside ok, outside)

-- What `free` leaves behind: the blocks `freed`, and no other bytes changed than those of the hole
-- that the block is now in.
pub record IsFreed (m : Memory) (h : Kheap) (xs : List Block) (b : Block) (ys : List Block)
    (m' : Memory) (h' : Kheap) : Type 0 where
  pub heap : IsHeap m' h' (freed xs b ys)
  pub frame : SameFrame h h'
  pub others :
      SameOutside m m'
        (h.start_address + span (left_merge xs (right_merge (hole_of b) ys).0).0)
        (left_merge xs (right_merge (hole_of b) ys).0).1.size

releases :
    (m : Memory) (h : Kheap) (p f r : ℕ) (m₁ : Memory) (h₁ : Kheap) (m₂ : Memory) (h₂ : Kheap)
    (q : ℕ) (h₃ : Kheap)
    → u32 (f + 8) ≡ r
    → merge_right (write8 m (p + 4) 1) h p r ≡ some (m₁, h₁)
    → merge_left m₁ h₁ p ≡ some (m₂, h₂, q)
    → insert_hole m₂ h₂ q ≡ some h₃
    → release m h p f ≡ some (m₂, h₃)
unfolding release
releases m h p f r m₁ h₁ m₂ h₂ q h₃ right run run' run'' =
    rw (right, run, ◌>>=◌, run', ◌>>=◌, run'') refl

release-IsFreed :
    (m : Memory) (h : Kheap) (xs : List Block) (b : Block) (ys : List Block)
    → h.index.size < h.index.max_size
    → IsOpen m h xs b ys
    → (m' : Memory) × (h' : Kheap) × (release m h
          (h.start_address + span xs)
          (h.start_address + span xs + 9 + b.size)
        ≡ some (m', h'))
      × IsFreed m h xs b ys m' h'
unfolding freed
release-IsFreed m h xs b ys room ok =
    let p = h.start_address + span xs in
    let (opened, outside) = flagged m h xs b ys ok in
    let right : u32 (p + 9 + b.size + 8) ≡ p + (17 + b.size) =
      omega (arith, ok.ends, ok.framed.below) in
    let n = (right_merge (hole_of b) ys).0 in
    let zs = (right_merge (hole_of b) ys).1 in
    let (m₁, h₁, run, open₁, step₁, hole₁) =
      merge_right-MergesRight (write8 m (p + 4) 1) h xs (hole_of b) ys refl opened in
    let (m₂, h₂, run', open₂, step₂, hole₂) = merge_left-MergesLeft m₁ h₁ xs n zs hole₁ open₁ in
    let (h₃, run'', same, more, counts) =
      insert_hole-count m₂ h₂ (h₁.start_address + span (left_merge xs n).0) step₂.frame.valid
        (omega (arith, step₁.shorter, step₂.shorter, step₁.frame.room, step₂.frame.room)) in
    let q = h.start_address + span (left_merge xs n).0 in
    let wide : (q ≤ p) × (p + 17 + n.size ≡ q + 17 + (left_merge xs n).1.size) = (
      omega (arith, span-left_merge xs n),
      omega (
        arith, open₁.ends, open₂.ends, step₁.frame.start_address, step₂.frame.start_address,
        step₂.frame.end_address,
      ),
    ) in
    (
      m₂,
      h₃,
      releases m h p (p + 9 + b.size) (p + (17 + b.size)) m₁ h₁ m₂ h₂
          (h₁.start_address + span (left_merge xs n).0) h₃ right run
          (subst
            (λ (t : ℕ).
              merge_left m₁ h₁ (t + span xs)
              ≡ some (m₂, h₂, h₁.start_address + span (left_merge xs n).0))
            step₁.frame.start_address run')
          run'',
      record {
        heap =
            IsHeap-of_IsOpen m₂ h₂ h₃ (left_merge xs n).0 (left_merge xs n).1 zs hole₂ open₂ same
              (λ x. rw step₂.frame.start_address (counts x));
        frame = SameFrame-trans h h₁ h₃ step₁.frame (SameFrame-trans h₁ h₂ h₃ step₂.frame same);
        others = λ x out.
            step₂.outside x (omega (arith, out, step₁.frame.start_address))
            ∙ step₁.outside x (omega (arith, out, wide))
            ∙ outside x (omega (arith, out, wide, size-right_merge (hole_of b) ys));
      },
    )

-- In a heap in order, with room in its index, `free` of the data of a block in use succeeds. The block
-- becomes a hole that takes in the holes on its two sides; the other blocks and their bytes stay, and
-- the heap is in order: the blocks lie side by side and just the holes stand in the index.
pub free-IsFreed :
    (m : Memory) (h : Kheap) (xs : List Block) (b : Block) (ys : List Block)
    → b.hole ≡ false
    → h.index.size < h.index.max_size
    → IsHeap m h (xs ++ (b ∷ ys))
    → (m' : Memory) × (h' : Kheap) × (free m h (h.start_address + span xs + 9) ≡ some (m', h'))
      × IsFreed m h xs b ys m' h'
unfolding free
free-IsFreed m h xs b ys used room ok =
    let on = IsOpen-of_IsHeap m h xs b ys used ok in
    let p = h.start_address + span xs in
    let (m', h', run, done) = release-IsFreed m h xs b ys room on in
    let top : sub32 (p + 9) 9 ≡ p = omega (arith, on.ends, on.framed.below) in
    let bottom : u32 (p + 9 + b.size) ≡ p + 9 + b.size = omega (arith, on.ends, on.framed.below) in
    let test : (p + 9 == 0) ≡ false = ground arith in
    (m', h', rw (top, on.mid.length, bottom, test, on.mid.top_magic, on.mid.bottom_magic) run, done)
