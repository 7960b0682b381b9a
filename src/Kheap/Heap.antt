-- ===== src/Kheap/Heap.antt =====
-- What it means that a heap is in order, and what `free` does with its blocks.
use luck_os.Common.{
  ℕ, ◌+◌, ◌-◌, ◌^◌, ◌≤◌, ◌<◌, ◌≡◌, ◌≢◌, refl, ap, ◌∙◌, true, false, List, [], ◌∷◌, ◌++◌, arith,
  if◌then◌else◌, subst, ◌⊎◌, inl, inr,
}
use luck_os.OrderedArray.{elements}
use luck_os.OrderedArray.Insert.{IsValid}
use luck_os.Kheap.{Kheap, kheap_magic}
use luck_os.Kheap.Bytes.{Memory, read32, read32_congr}
use luck_os.Kheap.Blocks.{Block, IsBlock, SameOutside}
use luck_os.Kheap.Index.{one_at, count, SameFrame}
use luck_os.Kheap.Tiling.{
  span, Tiles, hole_count, span-append, Tiles-append, Tiles-split, Tiles-frame, hole_count-append,
}

-- The heap lies in 32 bits, its index is in order, and no block seems to stand at its two ends.
pub record IsFramed (m : Memory) (h : Kheap) : Type 0 where
  pub above : 8 ≤ h.start_address
  pub ordered : h.start_address ≤ h.end_address
  pub below : h.end_address < 2 ^ 32
  pub index : IsValid h.index
  pub nothing_before : read32 m (h.start_address - 8) ≢ kheap_magic
  pub nothing_after : read32 m h.end_address ≢ kheap_magic

-- The heap consists of the blocks `bs`, and each hole stands once in the index.
pub record IsHeap (m : Memory) (h : Kheap) (bs : List Block) : Type 0 where
  pub framed : IsFramed m h
  pub tiles : Tiles m h.start_address bs
  pub ends : h.end_address ≡ h.start_address + span bs
  pub counts : (x : ℕ) → count x (elements h.index) ≡ hole_count x h.start_address bs

-- The same around a block `b` that does not stand in the index.
pub record IsOpen (m : Memory) (h : Kheap) (xs : List Block) (b : Block) (ys : List Block)
    : Type 0 where
  pub framed : IsFramed m h
  pub left : Tiles m h.start_address xs
  pub mid : IsBlock m (h.start_address + span xs) b
  pub right : Tiles m (h.start_address + span xs + (17 + b.size)) ys
  pub ends : h.end_address ≡ h.start_address + span xs + (17 + b.size) + span ys
  pub counts :
      (x : ℕ)
      → count x (elements h.index)
        ≡ hole_count x h.start_address xs
          + hole_count x (h.start_address + span xs + (17 + b.size)) ys

-- Two neighbours as one hole.
unfoldable pub joined : Block → Block → Block
joined b c = record { size = b.size + c.size + 17; hole = true }

-- A hole and the blocks behind it.
unfoldable pub right_merge : Block → List Block → Block × List Block
right_merge b [] = (b, [])
right_merge b (y ∷ ys) = if y.hole then (joined b y, ys) else (b, y ∷ ys)

-- The blocks in front of a hole, and the hole.
unfoldable pub left_merge : List Block → Block → List Block × Block
left_merge [] b = ([], b)
left_merge (x ∷ []) b = if x.hole then ([], joined x b) else (x ∷ [], b)
left_merge (x ∷ y ∷ xs) b = let rest = left_merge (y ∷ xs) b in (x ∷ rest.0, rest.1)

-- The blocks of the heap when `b` becomes a hole and joins the holes next to it.
unfoldable pub freed : List Block → Block → List Block → List Block
freed xs b ys =
    let right = right_merge (record { size = b.size; hole = true }) ys in
    let left = left_merge xs right.0 in left.0 ++ (left.1 ∷ right.1)

pub IsOpen-of_IsHeap :
    (m : Memory) (h : Kheap) (xs : List Block) (b : Block) (ys : List Block)
    → b.hole ≡ false
    → IsHeap m h (xs ++ (b ∷ ys))
    → IsOpen m h xs b ys
unfolding span hole_count
IsOpen-of_IsHeap m h xs b ys used ok =
    let (left, right) = Tiles-split m h.start_address xs (b ∷ ys) ok.tiles in
    record {
      framed = ok.framed;
      left = left;
      mid = right.0;
      right = right.1;
      ends = omega (arith, ok.ends, span-append xs (b ∷ ys));
      counts = λ x.
          ok.counts x ∙ hole_count-append x h.start_address xs (b ∷ ys) ∙ rw used (omega arith);
    }

pub IsHeap-of_IsOpen :
    (m : Memory) (h h' : Kheap) (xs : List Block) (b : Block) (ys : List Block)
    → b.hole ≡ true
    → IsOpen m h xs b ys
    → SameFrame h h'
    → ((x : ℕ)
        → count x (elements h'.index)
          ≡ one_at x (h.start_address + span xs) + count x (elements h.index))
    → IsHeap m h' (xs ++ (b ∷ ys))
unfolding span hole_count
IsHeap-of_IsOpen m h h' xs b ys hole ok same counts = record {
  framed = record {
    above = rw same.start_address (ok.framed.above);
    ordered = rw (same.start_address, same.end_address) (ok.framed.ordered);
    below = rw same.end_address (ok.framed.below);
    index = same.valid;
    nothing_before = rw same.start_address (ok.framed.nothing_before);
    nothing_after = rw same.end_address (ok.framed.nothing_after);
  };
  tiles =
      rw same.start_address (Tiles-append m h.start_address xs (b ∷ ys) ok.left (ok.mid, ok.right));
  ends = omega (arith, same.start_address, same.end_address, ok.ends, span-append xs (b ∷ ys));
  counts = λ x.
      rw (same.start_address, hole_count-append x h.start_address xs (b ∷ ys), hole)
        (omega (arith, counts x, ok.counts x));
}

pub same_word :
    (m m' : Memory) (a n x : ℕ)
    → SameOutside m m' a n
    → (x + 4 ≤ a) ⊎ (a + 17 + n ≤ x)
    → read32 m' x ≡ read32 m x
same_word m m' a n x out apart =
    read32_congr m m' x (out x (omega (arith, apart))) (out (x + 1) (omega (arith, apart)))
      (out (x + 2) (omega (arith, apart))) (out (x + 3) (omega (arith, apart)))

-- The frame outlasts a change of the index and of the bytes of one block.
pub IsFramed-of_SameFrame :
    (m m' : Memory) (h h' : Kheap) (a n : ℕ)
    → h.start_address ≤ a
    → a + 17 + n ≤ h.end_address
    → IsFramed m h
    → SameFrame h h'
    → SameOutside m m' a n
    → IsFramed m' h'
IsFramed-of_SameFrame m m' h h' a n lo hi ok same out = record {
  above = rw same.start_address (ok.above);
  ordered = rw (same.start_address, same.end_address) (ok.ordered);
  below = rw same.end_address (ok.below);
  index = same.valid;
  nothing_before =
      rw
        (same.start_address, same_word m m' a n (h.start_address - 8) out (omega (arith, ok.above)))
        (ok.nothing_before);
  nothing_after =
      rw (same.end_address, same_word m m' a n h.end_address out (omega arith)) (ok.nothing_after);
}

-- The block of an open place is written anew, with the same size.
pub IsOpen-of_IsBlock :
    (m m' : Memory) (h : Kheap) (xs : List Block) (b b' : Block) (ys : List Block)
    → b'.size ≡ b.size
    → IsBlock m' (h.start_address + span xs) b'
    → SameOutside m m' (h.start_address + span xs) b.size
    → IsOpen m h xs b ys
    → IsOpen m' h xs b' ys
IsOpen-of_IsBlock m m' h xs b b' ys size mid outside ok =
    let a = h.start_address + span xs in
    let same : SameFrame h h = record {
      start_address = refl;
      end_address = refl;
      size = refl;
      max_address = refl;
      valid = ok.framed.index;
      room = refl;
    } in
    let behind : a + (17 + b.size) ≡ a + (17 + b'.size) = omega (arith, size) in
    record {
      framed =
          IsFramed-of_SameFrame m m' h h a b.size (omega arith) (omega (arith, ok.ends)) ok.framed
            same outside;
      left = Tiles-frame m m' h.start_address xs (λ x lo hi. outside x (inl hi)) ok.left;
      mid = mid;
      right =
          subst (λ (t : ℕ). Tiles m' t ys) behind
            (Tiles-frame m m' (a + (17 + b.size)) ys (λ x lo hi. outside x (inr (omega arith)))
              ok.right);
      ends = omega (arith, ok.ends, size);
      counts = λ x. omega (arith, ok.counts x, ap (λ (t : ℕ). hole_count x t ys) behind);
    }

-- A block in use closes the place.
pub IsHeap-of_used :
    (m : Memory) (h : Kheap) (xs : List Block) (b : Block) (ys : List Block)
    → b.hole ≡ false
    → IsOpen m h xs b ys
    → IsHeap m h (xs ++ (b ∷ ys))
unfolding span hole_count
IsHeap-of_used m h xs b ys used ok = record {
  framed = ok.framed;
  tiles = Tiles-append m h.start_address xs (b ∷ ys) ok.left (ok.mid, ok.right);
  ends = omega (arith, ok.ends, span-append xs (b ∷ ys));
  counts =
      λ x. rw (hole_count-append x h.start_address xs (b ∷ ys), used) (omega (arith, ok.counts x));
}
