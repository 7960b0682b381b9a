-- ===== src/Kheap/Merge.antt =====
-- The merge of `free` with the block on the right.
use luck_os.Common.{
  ℕ, ◌+◌, ◌^◌, ◌≤◌, ◌<◌, ◌≡◌, refl, sym, ap, ◌∙◌, Bool, true, false, some, List, [], ◌∷◌, arith,
  ◌==◌, if◌then◌else◌, subst, inl, inr, Bool-cases,
}
use luck_os.OrderedArray.{elements}
use luck_os.OrderedArray.Insert.{IsValid}
use luck_os.Kheap.{Kheap, kheap_magic, u32, make_block, remove_hole}
use luck_os.Kheap.Bytes.{Memory, read32}
use luck_os.Kheap.Blocks.{Block, IsBlock, to_nat, SameOutside, make_block-IsBlock}
use luck_os.Kheap.Index.{one_at, count, SameFrame, remove_hole-count}
use luck_os.Kheap.Tiling.{span, Tiles, hole_count, Tiles-frame}
use luck_os.Kheap.Heap.{IsFramed, IsOpen, joined, right_merge, IsFramed-of_SameFrame}
use luck_os.Kheap.Free.{merge_right}

-- From `m` and `h` to `m'` and `h'` only the bytes of the block at `a` with `n` data bytes change, and
-- the index does not grow.
pub record IsStep (m : Memory) (h : Kheap) (a n : ℕ) (m' : Memory) (h' : Kheap) : Type 0 where
  pub frame : SameFrame h h'
  pub outside : SameOutside m m' a n
  pub shorter : h'.index.size ≤ h.index.size

pub stays : (m : Memory) (h : Kheap) (a n : ℕ) → IsFramed m h → IsStep m h a n m h
stays m h a n ok = record {
  frame = record {
    start_address = refl;
    end_address = refl;
    size = refl;
    max_address = refl;
    valid = ok.index;
    room = refl;
  };
  outside = λ x out. refl;
  shorter = omega arith;
}

-- Two neighbours become one hole, the one that stood in the index at `gone` leaves it.
pub join :
    (m : Memory) (h : Kheap) (a gone : ℕ) (b c : Block)
    → a + 17 + b.size + 17 + c.size < 2 ^ 32
    → 0 < b.size
    → IsValid h.index
    → 0 < count gone (elements h.index)
    → (m' : Memory) × (h' : Kheap) × (make_block m a (u32 (b.size + c.size + 17)) 1 ≡ some m')
      × (remove_hole h gone ≡ some h')
      × IsBlock m' a (joined b c)
      × IsStep m h a (b.size + c.size + 17) m' h'
      × ((x : ℕ) → count x (elements h.index) ≡ one_at x gone + count x (elements h'.index))
unfolding joined
join m h a gone b c small some_bytes ok there =
    let e : u32 (b.size + c.size + 17) ≡ b.size + c.size + 17 = omega arith in
    let (m', run, block, out, inner) =
      make_block-IsBlock m a (b.size + c.size + 17) true (omega arith) (omega arith) in
    let (h', run', same, shorter, counts) = remove_hole-count h gone ok there in
    (
      m',
      h',
      ap (λ (t : ℕ). make_block m a t 1) e ∙ run,
      run',
      block,
      record { frame = same; outside = out; shorter = omega (arith, shorter) },
      counts,
    )

right_merge-used :
    (b y : Block) (ys : List Block) → y.hole ≡ false → right_merge b (y ∷ ys) ≡ (b, y ∷ ys)
unfolding right_merge
right_merge-used b y ys used = ap (λ (t : Bool). if t then (joined b y, ys) else (b, y ∷ ys)) used

right_merge-hole :
    (b y : Block) (ys : List Block) → y.hole ≡ true → right_merge b (y ∷ ys) ≡ (joined b y, ys)
unfolding right_merge
right_merge-hole b y ys hole = ap (λ (t : Bool). if t then (joined b y, ys) else (b, y ∷ ys)) hole

-- `merge_right` at the block `b` behind `xs` leaves the block and the blocks of `merged` there.
abbrev MergesRight : Memory → Kheap → List Block → Block → Block × List Block → Type 0
MergesRight m h xs b merged =
    (m' : Memory) × (h' : Kheap) × (merge_right m h (h.start_address + span xs)
        (h.start_address + span xs + (17 + b.size))
      ≡ some (m', h'))
    × IsOpen m' h' xs merged.0 merged.1
    × IsStep m h (h.start_address + span xs) merged.0.size m' h'
    × (merged.0.hole ≡ true)

pub counted :
    {hole : Bool} → hole ≡ true → (x a : ℕ) → (if hole then one_at x a else 0) ≡ one_at x a
counted {hole} e x a = ap (λ (t : Bool). if t then one_at x a else 0) e

merge_right-hole :
    (m : Memory) (h : Kheap) (xs : List Block) (b y : Block) (ys : List Block)
    → y.hole ≡ true
    → IsOpen m h xs b (y ∷ ys)
    → MergesRight m h xs b (joined b y, ys)
unfolding merge_right span hole_count joined
merge_right-hole m h xs b y ys hole ok =
    let a = h.start_address + span xs in
    let flag : m (a + (17 + b.size) + 4) ≡ 1 = ok.right.0.flag ∙ ap to_nat hole in
    let first : one_at (a + (17 + b.size)) (a + (17 + b.size)) ≡ 1 = ground arith in
    let there : 0 < count (a + (17 + b.size)) (elements h.index) = omega (
      arith,
      ok.counts (a + (17 + b.size)),
      counted hole (a + (17 + b.size)) (a + (17 + b.size)),
      first,
    ) in
    let behind : a + (17 + b.size) + (17 + y.size) ≡ a + (17 + (b.size + y.size + 17)) =
      omega arith in
    let (m', h', run, run', block, step, counts') =
      join m h a (a + (17 + b.size)) b y (omega (arith, ok.ends, ok.framed.below)) ok.mid.some_bytes
        ok.framed.index there in
    (
      m',
      h',
      rw (ok.right.0.top_magic, flag, ok.mid.length, ok.right.0.length, run, run') refl,
      record {
        framed =
            IsFramed-of_SameFrame m m' h h' a (b.size + y.size + 17) (omega arith)
              (omega (arith, ok.ends)) ok.framed step.frame step.outside;
        left =
            rw step.frame.start_address
              (Tiles-frame m m' h.start_address xs (λ x lo hi. step.outside x (inl hi)) ok.left);
        mid = rw step.frame.start_address block;
        right = rw step.frame.start_address (
            Tiles-frame m m' (a + (17 + (b.size + y.size + 17))) ys
              (λ x lo hi. step.outside x (inr (omega arith)))
              (subst (λ (t : ℕ). Tiles m t ys) behind ok.right.1));
        ends = omega (arith, ok.ends, step.frame.start_address, step.frame.end_address);
        counts = λ x. rw step.frame.start_address (
            omega (
              arith,
              ok.counts x,
              counts' x,
              counted hole x (a + (17 + b.size)),
              ap (λ (t : ℕ). hole_count x t ys) behind,
            ));
      },
      step,
      refl,
    )

-- `merge_right` at a hole.
pub merge_right-MergesRight :
    (m : Memory) (h : Kheap) (xs : List Block) (b : Block) (ys : List Block)
    → b.hole ≡ true
    → IsOpen m h xs b ys
    → MergesRight m h xs b (right_merge b ys)
unfolding merge_right right_merge span
merge_right-MergesRight m h xs b [] hole ok =
    let last : h.start_address + span xs + (17 + b.size) ≡ h.end_address = omega (arith, ok.ends) in
    let test : (read32 m h.end_address == kheap_magic) ≡ false =
      ground (arith, ok.framed.nothing_after) in
    (m, h, rw (last, test) refl, ok, stays m h (h.start_address + span xs) b.size ok.framed, hole)
merge_right-MergesRight m h xs b (y ∷ ys) hole ok = elim (Bool-cases y.hole) [
  | inr used ↦
      let flag : m (h.start_address + span xs + (17 + b.size) + 4) ≡ 0 =
        ok.right.0.flag ∙ ap to_nat used in
      subst (MergesRight m h xs b) (sym (right_merge-used b y ys used)) (
        m,
        h,
        rw (ok.right.0.top_magic, flag) refl,
        ok,
        stays m h (h.start_address + span xs) b.size ok.framed,
        hole,
      )
  | inl free ↦
      subst (MergesRight m h xs b) (sym (right_merge-hole b y ys free))
        (merge_right-hole m h xs b y ys free ok)
]
