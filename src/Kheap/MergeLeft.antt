-- ===== src/Kheap/MergeLeft.antt =====
-- The merge of `free` with the block on the left.
use luck_os.Common.{
  ℕ, ◌+◌, ◌-◌, ◌<◌, ◌≡◌, refl, sym, ap, ◌∙◌, Bool, true, false, some, List, [], ◌∷◌, ◌++◌, arith,
  ◌==◌, if◌then◌else◌, ◌>>=◌, subst, ◌⊎◌, inl, inr, Bool-cases,
}
use luck_os.OrderedArray.{elements}
use luck_os.Kheap.{Kheap, kheap_magic, u32, sub32, make_block, remove_hole}
use luck_os.Kheap.Bytes.{Memory, read32}
use luck_os.Kheap.Blocks.{Block, IsBlock, to_nat}
use luck_os.Kheap.Index.{one_at, count}
use luck_os.Kheap.Tiling.{
  span, Tiles, hole_count, span-append, Tiles-frame, Tiles-split, hole_count-append,
}
use luck_os.Kheap.Heap.{IsOpen, joined, left_merge, IsFramed-of_SameFrame}
use luck_os.Kheap.Merge.{IsStep, stays, join, counted}
use luck_os.Kheap.Free.{merge_left}

-- The list is empty or has a last block.
last-cases :
    (xs : List Block) → (xs ≡ []) ⊎ ((ws : List Block) × (x : Block) × (xs ≡ ws ++ (x ∷ [])))
last-cases [] = inl refl
last-cases (x ∷ xs) = elim (last-cases xs) [
  | inl e ↦ inr ([], x, ap (λ (t : List Block). x ∷ t) e)
  | inr (ws, y, e) ↦ inr (x ∷ ws, y, ap (λ (t : List Block). x ∷ t) e)
]

left_merge-used :
    (ws : List Block) (x b : Block)
    → x.hole ≡ false
    → left_merge (ws ++ (x ∷ [])) b ≡ (ws ++ (x ∷ []), b)
unfolding left_merge
left_merge-used [] x b used = ap (λ (t : Bool). if t then ([], joined x b) else (x ∷ [], b)) used
left_merge-used (w ∷ []) x b used =
    ap (λ (t : List Block × Block). (w ∷ t.0, t.1)) (left_merge-used [] x b used)
left_merge-used (w ∷ v ∷ ws) x b used =
    ap (λ (t : List Block × Block). (w ∷ t.0, t.1)) (left_merge-used (v ∷ ws) x b used)

left_merge-hole :
    (ws : List Block) (x b : Block)
    → x.hole ≡ true
    → left_merge (ws ++ (x ∷ [])) b ≡ (ws, joined x b)
unfolding left_merge
left_merge-hole [] x b hole = ap (λ (t : Bool). if t then ([], joined x b) else (x ∷ [], b)) hole
left_merge-hole (w ∷ []) x b hole =
    ap (λ (t : List Block × Block). (w ∷ t.0, t.1)) (left_merge-hole [] x b hole)
left_merge-hole (w ∷ v ∷ ws) x b hole =
    ap (λ (t : List Block × Block). (w ∷ t.0, t.1)) (left_merge-hole (v ∷ ws) x b hole)

-- `merge_left` at the block `b` behind `xs` leaves the blocks and the block of `merged` there.
abbrev MergesLeft : Memory → Kheap → List Block → List Block → List Block × Block → Type 0
MergesLeft m h xs ys merged =
    (m' : Memory) × (h' : Kheap) × (merge_left m h (h.start_address + span xs)
      ≡ some (m', h', h.start_address + span merged.0))
    × IsOpen m' h' merged.0 merged.1 ys
    × IsStep m h (h.start_address + span merged.0) merged.1.size m' h'
    × (merged.1.hole ≡ true)

left_merge-none : (b : Block) → left_merge [] b ≡ ([], b)
unfolding left_merge
left_merge-none b = refl

merge_left-none :
    (m : Memory) (h : Kheap) (b : Block) (ys : List Block)
    → b.hole ≡ true
    → IsOpen m h [] b ys
    → MergesLeft m h [] ys ([], b)
unfolding merge_left span
merge_left-none m h b ys hole ok =
    let start : h.start_address + 0 ≡ h.start_address = omega arith in
    let place : sub32 h.start_address 8 ≡ h.start_address - 8 =
      omega (arith, ok.framed.above, ok.framed.ordered, ok.framed.below) in
    let test : (read32 m (h.start_address - 8) == kheap_magic) ≡ false =
      ground (arith, ok.framed.nothing_before) in
    (m, h, rw (start, place, test) refl, ok, stays m h (h.start_address + 0) b.size ok.framed, hole)

-- The footer and the header of the last block on the left.
seen :
    (m : Memory) (h : Kheap) (ws : List Block) (x b : Block) (ys : List Block)
    → IsOpen m h (ws ++ (x ∷ [])) b ys
    → (h.start_address + span (ws ++ (x ∷ [])) ≡ h.start_address + span ws + (17 + x.size))
      × (sub32 (h.start_address + span (ws ++ (x ∷ []))) 8 ≡ h.start_address + span ws + 9 + x.size)
      × Tiles m h.start_address ws
      × IsBlock m (h.start_address + span ws) x
unfolding span
seen m h ws x b ys ok =
    let (left, right) = Tiles-split m h.start_address ws (x ∷ []) ok.left in
    let place : h.start_address + span (ws ++ (x ∷ []))
        ≡ h.start_address + span ws + (17 + x.size) =
      omega (arith, span-append ws (x ∷ [])) in
    (place, omega (arith, place, ok.ends, ok.framed.below), left, right.0)

merge_left-used :
    (m : Memory) (h : Kheap) (ws : List Block) (x b : Block) (ys : List Block)
    → b.hole ≡ true
    → x.hole ≡ false
    → IsOpen m h (ws ++ (x ∷ [])) b ys
    → MergesLeft m h (ws ++ (x ∷ [])) ys (ws ++ (x ∷ []), b)
unfolding merge_left
merge_left-used m h ws x b ys hole used ok =
    let (place, footer, left, block) = seen m h ws x b ys ok in
    let flag : m (h.start_address + span ws + 4) ≡ 0 = block.flag ∙ ap to_nat used in
    (
      m,
      h,
      rw (footer, block.bottom_magic, block.back, flag) refl,
      ok,
      stays m h (h.start_address + span (ws ++ (x ∷ []))) b.size ok.framed,
      hole,
    )

joins :
    (m : Memory) (h : Kheap) (p a f n n' : ℕ) (m' : Memory) (h' : Kheap)
    → sub32 p 8 ≡ f
    → read32 m f ≡ kheap_magic
    → read32 m (f + 4) ≡ a
    → m (a + 4) ≡ 1
    → read32 m (a + 5) ≡ n
    → read32 m (p + 5) ≡ n'
    → make_block m a (u32 (n + n' + 17)) 1 ≡ some m'
    → remove_hole h a ≡ some h'
    → merge_left m h p ≡ some (m', h', a)
unfolding merge_left
joins m h p a f n n' m' h' footer magic back flag size size' run run' =
    rw (footer, magic, back, flag, size, size', run, ◌>>=◌, run') refl

merge_left-hole :
    (m : Memory) (h : Kheap) (ws : List Block) (x b : Block) (ys : List Block)
    → x.hole ≡ true
    → IsOpen m h (ws ++ (x ∷ [])) b ys
    → MergesLeft m h (ws ++ (x ∷ [])) ys (ws, joined x b)
unfolding joined hole_count span
merge_left-hole m h ws x b ys hole ok =
    let (place, footer, left, block) = seen m h ws x b ys ok in
    let p = h.start_address + span (ws ++ (x ∷ [])) in
    let a = h.start_address + span ws in
    let flag : m (a + 4) ≡ 1 = block.flag ∙ ap to_nat hole in
    let length : read32 m (h.start_address + span (ws ++ (x ∷ [])) + 5) ≡ b.size = ok.mid.length in
    let first : one_at a a ≡ 1 = ground arith in
    let there : 0 < count a (elements h.index) = omega (
      arith,
      ok.counts a,
      hole_count-append a h.start_address ws (x ∷ []),
      counted hole a a,
      first,
    ) in
    let (m', h', run, run', here, step, counts') =
      join m h a a x b (omega (arith, place, ok.ends, ok.framed.below)) block.some_bytes
        ok.framed.index there in
    let behind : h.start_address + span (ws ++ (x ∷ [])) + (17 + b.size)
        ≡ a + (17 + (x.size + b.size + 17)) =
      omega (arith, place) in
    (
      m',
      h',
      joins m h p a (a + 9 + x.size) x.size b.size m' h' footer block.bottom_magic block.back flag
          block.length length run run',
      record {
        framed =
            IsFramed-of_SameFrame m m' h h' a (x.size + b.size + 17) (omega arith)
              (omega (arith, ok.ends, place)) ok.framed step.frame step.outside;
        left =
            rw step.frame.start_address
              (Tiles-frame m m' h.start_address ws (λ x lo hi. step.outside x (inl hi)) left);
        mid = rw step.frame.start_address here;
        right = rw step.frame.start_address (
            Tiles-frame m m' (a + (17 + (x.size + b.size + 17))) ys
              (λ x lo hi. step.outside x (inr (omega arith)))
              (subst (λ (t : ℕ). Tiles m t ys) behind ok.right));
        ends = omega (arith, ok.ends, place, step.frame.start_address, step.frame.end_address);
        counts = λ t. rw step.frame.start_address (
            omega (
              arith,
              ok.counts t,
              counts' t,
              hole_count-append t h.start_address ws (x ∷ []),
              counted hole t a,
              ap (λ (p : ℕ). hole_count t p ys) behind,
            ));
      },
      step,
      refl,
    )

abbrev Goal : Memory → Kheap → Block → List Block → List Block → Type 0
Goal m h b ys xs = IsOpen m h xs b ys → MergesLeft m h xs ys (left_merge xs b)

merge_left-last :
    (m : Memory) (h : Kheap) (ws : List Block) (x b : Block) (ys : List Block)
    → b.hole ≡ true
    → Goal m h b ys (ws ++ (x ∷ []))
merge_left-last m h ws x b ys hole ok = elim (Bool-cases x.hole) [
  | inl free ↦
      subst (MergesLeft m h (ws ++ (x ∷ [])) ys) (sym (left_merge-hole ws x b free))
        (merge_left-hole m h ws x b ys free ok)
  | inr used ↦
      subst (MergesLeft m h (ws ++ (x ∷ [])) ys) (sym (left_merge-used ws x b used))
        (merge_left-used m h ws x b ys hole used ok)
]

-- `merge_left` at a hole.
pub merge_left-MergesLeft :
    (m : Memory) (h : Kheap) (xs : List Block) (b : Block) (ys : List Block)
    → b.hole ≡ true
    → IsOpen m h xs b ys
    → MergesLeft m h xs ys (left_merge xs b)
merge_left-MergesLeft m h xs b ys hole ok = elim (last-cases xs) [
  | inl e ↦
      subst (Goal m h b ys) (sym e)
        (λ on.
          subst (MergesLeft m h [] ys) (sym (left_merge-none b)) (merge_left-none m h b ys hole on))
        ok
  | inr (ws, x, e) ↦ subst (Goal m h b ys) (sym e) (merge_left-last m h ws x b ys hole) ok
]
