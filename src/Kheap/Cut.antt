-- ===== src/Kheap/Cut.antt =====
-- `use_block` against the list of the blocks.
use luck_os.Common.{
  ℕ, ◌+◌, ◌-◌, ◌≤◌, ◌<◌, ◌≡◌, refl, ap, ◌∙◌, true, false, some, List, [], ◌∷◌, ◌++◌, arith, leb,
  if◌then◌else◌, ◌>>=◌, subst, inl, inr, dec_le,
}
use mathlib.Core.List.{append_assoc}
use luck_os.OrderedArray.{elements}
use luck_os.Kheap.{Kheap, u32, make_block, insert_hole}
use luck_os.Kheap.Bytes.{Memory}
use luck_os.Kheap.Blocks.{Block, IsBlock, IsBlock-frame, SameOutside, make_block-IsBlock}
use luck_os.Kheap.Index.{one_at, count, SameFrame, insert_hole-count}
use luck_os.Kheap.Tiling.{
  span, Tiles, hole_count, span-append, Tiles-append, Tiles-frame, hole_count-append,
}
use luck_os.Kheap.Heap.{
  IsFramed, IsHeap, IsOpen, IsFramed-of_SameFrame, IsHeap-of_IsOpen, IsHeap-of_used,
  IsOpen-of_IsBlock,
}
use luck_os.Kheap.Alloc.{use_block}

abbrev pub used_of : ℕ → Block
used_of n = record { size = n; hole = false }

abbrev pub hole_with : ℕ → Block
hole_with n = record { size = n; hole = true }

-- A block of `n` bytes of which `size` are used, in front of `ys`: a rest of more than 17 bytes becomes a
-- hole.
pub cut_blocks : ℕ → ℕ → List Block → List Block
cut_blocks n size ys =
    if leb (n - size) 17 then used_of n ∷ ys else used_of size ∷ hole_with (n - size - 17) ∷ ys

same_frame : (m : Memory) (h : Kheap) → IsFramed m h → SameFrame h h
same_frame m h ok = record {
  start_address = refl;
  end_address = refl;
  size = refl;
  max_address = refl;
  valid = ok.index;
  room = refl;
}

-- The block at an open place becomes two, the first one in use.
IsOpen-cut :
    (m m₁ m₂ : Memory) (h : Kheap) (xs : List Block) (b : Block) (ys : List Block) (size : ℕ)
    → size + 17 < b.size
    → IsBlock m₁ (h.start_address + span xs) (used_of size)
    → SameOutside m m₁ (h.start_address + span xs) size
    → IsBlock m₂ (h.start_address + span xs + 17 + size) (hole_with (b.size - size - 17))
    → SameOutside m₁ m₂ (h.start_address + span xs + 17 + size) (b.size - size - 17)
    → IsOpen m h xs b ys
    → IsOpen m₂ h (xs ++ (used_of size ∷ [])) (hole_with (b.size - size - 17)) ys
      × SameOutside m m₂ (h.start_address + span xs) b.size
unfolding span hole_count
IsOpen-cut m m₁ m₂ h xs b ys size less used out hole out' ok =
    let p = h.start_address + span xs in
    let r = b.size - size - 17 in
    let outside : SameOutside m m₂ p b.size =
      λ x apart. out' x (omega (arith, apart)) ∙ out x (omega (arith, apart)) in
    let spans : span (xs ++ (used_of size ∷ [])) ≡ span xs + (17 + size) =
      omega (arith, span-append xs (used_of size ∷ [])) in
    let place : p + 17 + size ≡ h.start_address + span (xs ++ (used_of size ∷ [])) =
      omega (arith, spans) in
    let behind : p + (17 + b.size) ≡ h.start_address + span (xs ++ (used_of size ∷ [])) + (17 + r) =
      omega (arith, spans) in
    (
      record {
        framed =
            IsFramed-of_SameFrame m m₂ h h p b.size (omega arith) (omega (arith, ok.ends)) ok.framed
              (same_frame m h ok.framed) outside;
        left =
            Tiles-append m₂ h.start_address xs (used_of size ∷ [])
              (Tiles-frame m m₂ h.start_address xs (λ x lo hi. outside x (inl hi)) ok.left)
              (
                IsBlock-frame m₁ m₂ p (used_of size) (λ x lo hi. out' x (inl (omega arith))) used,
                tt,
              );
        mid = subst (λ (t : ℕ). IsBlock m₂ t (hole_with r)) place hole;
        right =
            subst (λ (t : ℕ). Tiles m₂ t ys) behind
              (Tiles-frame m m₂ (p + (17 + b.size)) ys (λ x lo hi. outside x (inr (omega arith)))
                ok.right);
        ends = omega (arith, ok.ends, spans);
        counts = λ x. omega (
          arith,
          ok.counts x,
          hole_count-append x h.start_address xs (used_of size ∷ []),
          ap (λ (t : ℕ). hole_count x t ys) behind,
        );
      },
      outside,
    )

-- What `use_block` leaves behind for the hole `b` between `xs` and `ys`.
pub record IsUsed (m : Memory) (h : Kheap) (xs : List Block) (b : Block) (ys : List Block)
    (size : ℕ) (m' : Memory) (h' : Kheap) : Type 0 where
  pub heap : IsHeap m' h' (xs ++ cut_blocks b.size size ys)
  pub frame : SameFrame h h'
  pub others : SameOutside m m' (h.start_address + span xs) b.size

use_block-whole :
    (m : Memory) (h : Kheap) (xs : List Block) (b : Block) (ys : List Block) (size : ℕ)
    → size ≤ b.size
    → b.size ≤ size + 17
    → IsOpen m h xs b ys
    → (m' : Memory) × (h' : Kheap) × (use_block m h (h.start_address + span xs) b.size size
        ≡ some (m', h'))
      × IsUsed m h xs b ys size m' h'
unfolding use_block cut_blocks
use_block-whole m h xs b ys size fits little ok =
    let p = h.start_address + span xs in
    let test : leb size b.size ≡ true = ground arith in
    let test' : leb (b.size - size) 17 ≡ true = ground arith in
    let (m', run, block, outside, inner) =
      make_block-IsBlock m p b.size false ok.mid.some_bytes
        (omega (arith, ok.ends, ok.framed.below)) in
    let on = IsOpen-of_IsBlock m m' h xs b (used_of b.size) ys refl block outside ok in
    (
      m',
      h,
      rw (test, test', run) refl,
      record {
        heap = rw test' (IsHeap-of_used m' h xs (used_of b.size) ys refl on);
        frame = same_frame m h ok.framed;
        others = outside;
      },
    )

cuts :
    (m : Memory) (h : Kheap) (p n size : ℕ) (m₁ m₂ : Memory) (h₁ : Kheap)
    → size + 17 < n
    → u32 (p + 17 + size) ≡ p + 17 + size
    → make_block m p size 0 ≡ some m₁
    → make_block m₁ (p + 17 + size) (n - size - 17) 1 ≡ some m₂
    → insert_hole m₂ h (p + 17 + size) ≡ some h₁
    → use_block m h p n size ≡ some (m₂, h₁)
unfolding use_block
cuts m h p n size m₁ m₂ h₁ less place run run' run'' =
    let test : leb size n ≡ true = ground arith in
    let test' : leb (n - size) 17 ≡ false = ground arith in
    rw (test, test', run, ◌>>=◌, place, run', ◌>>=◌, run'') refl

use_block-cut :
    (m : Memory) (h : Kheap) (xs : List Block) (b : Block) (ys : List Block) (size : ℕ)
    → 0 < size
    → size + 17 < b.size
    → h.index.size < h.index.max_size
    → IsOpen m h xs b ys
    → (m' : Memory) × (h' : Kheap) × (use_block m h (h.start_address + span xs) b.size size
        ≡ some (m', h'))
      × IsUsed m h xs b ys size m' h'
unfolding span cut_blocks
use_block-cut m h xs b ys size some_bytes less room ok =
    let p = h.start_address + span xs in
    let r = b.size - size - 17 in
    let test' : leb (b.size - size) 17 ≡ false = ground arith in
    let (m₁, run, block, outside, inner) =
      make_block-IsBlock m p size false some_bytes (omega (arith, ok.ends, ok.framed.below)) in
    let (m₂, run', block', outside', inner') =
      make_block-IsBlock m₁ (p + 17 + size) r true (omega arith)
        (omega (arith, ok.ends, ok.framed.below)) in
    let (on, others) = IsOpen-cut m m₁ m₂ h xs b ys size less block outside block' outside' ok in
    let (h₁, run'', same, more, counts) =
      insert_hole-count m₂ h (p + 17 + size) ok.framed.index room in
    let place : p + 17 + size ≡ h.start_address + span (xs ++ (used_of size ∷ [])) =
      omega (arith, span-append xs (used_of size ∷ [])) in
    let heap =
      IsHeap-of_IsOpen m₂ h h₁ (xs ++ (used_of size ∷ [])) (hole_with r) ys refl on same
        (λ x. counts x ∙ ap (λ (t : ℕ). one_at x t + count x (elements h.index)) place) in
    (
      m₂,
      h₁,
      cuts m h p b.size size m₁ m₂ h₁ less (omega (arith, ok.ends, ok.framed.below)) run run' run'',
      record {
        heap =
            rw test'
              (subst (IsHeap m₂ h₁) (append_assoc xs (used_of size ∷ []) (hole_with r ∷ ys)) heap);
        frame = same;
        others = others;
      },
    )

-- `use_block` at a hole that is large enough.
pub use_block-IsUsed :
    (m : Memory) (h : Kheap) (xs : List Block) (b : Block) (ys : List Block) (size : ℕ)
    → 0 < size
    → size ≤ b.size
    → h.index.size < h.index.max_size
    → IsOpen m h xs b ys
    → (m' : Memory) × (h' : Kheap) × (use_block m h (h.start_address + span xs) b.size size
        ≡ some (m', h'))
      × IsUsed m h xs b ys size m' h'
use_block-IsUsed m h xs b ys size some_bytes fits room ok = elim (dec_le b.size (size + 17)) [
  | yes little ↦ use_block-whole m h xs b ys size fits little ok
  | no much ↦ use_block-cut m h xs b ys size some_bytes (omega (arith, much)) room ok
]
