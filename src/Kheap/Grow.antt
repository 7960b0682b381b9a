-- ===== src/Kheap/Grow.antt =====
-- `grow_heap` against the list of the blocks.
use luck_os.Common.{
  ℕ, ◌+◌, ◌-◌, ◌%◌, ◌^◌, ◌≤◌, ◌<◌, ◌≡◌, ◌≢◌, refl, sym, ap, ◌∙◌, Bool, true, false, some, List, [],
  ◌∷◌, ◌++◌, arith, ◌==◌, leb, if◌then◌else◌, subst, inl,
}
use luck_os.OrderedArray.{elements}
use luck_os.Kheap.{
  Kheap, kheap_magic, u32, make_block, insert_hole, remove_hole, align_to_page, kheap_expand,
}
use luck_os.Kheap.Bytes.{Memory, read32}
use luck_os.Kheap.Blocks.{Block, IsBlock, SameOutside, make_block-IsBlock}
use luck_os.Kheap.Index.{one_at, count, SameFrame, insert_hole-count, remove_hole-count}
use luck_os.Kheap.Tiling.{
  span, hole_count, span-append, Tiles-split, Tiles-frame, hole_count-append,
}
use luck_os.Kheap.Heap.{IsFramed, IsHeap, IsOpen, IsHeap-of_IsOpen, same_word}
use luck_os.Kheap.Merge.{counted}
use luck_os.Kheap.Cut.{hole_with}

-- The heap with `e` more bytes at its end.
abbrev pub longer : Kheap → ℕ → Kheap
longer h e = record h { end_address = h.end_address + e; size = u32 (h.size + e) }

-- The least multiple of a page from `n` on.
pub align_to_page-bounds :
    (n : ℕ)
    → n + 4096 < 2 ^ 32
    → (n ≤ align_to_page n) × (align_to_page n < n + 4096) × (align_to_page n % 4096 ≡ 0)
unfolding align_to_page
align_to_page-bounds n small = ground arith

pub expands :
    (h : Kheap) (n e : ℕ)
    → align_to_page n ≡ e
    → 0 < e
    → h.end_address + e ≤ h.max_address
    → h.max_address < 2 ^ 32
    → kheap_expand h n ≡ some (e, longer h e)
unfolding kheap_expand
expands h n e size some_bytes room small =
    let test : (e == 0) ≡ false = ground arith in
    let place : u32 (h.end_address + e) ≡ h.end_address + e = omega arith in
    let test' : leb (h.end_address + e) h.max_address ≡ true = ground arith in
    rw (size, test, place, test') refl

-- The blocks after a growth by `e` bytes, where `x` is the last one.
pub grown : List Block → Block → ℕ → List Block
grown ws x e =
    if x.hole
    then ws ++ (hole_with (x.size + e) ∷ [])
    else ws ++ (x ∷ []) ++ (hole_with (e - 17) ∷ [])

pub grown-used :
    (ws : List Block) (x : Block) (e : ℕ)
    → x.hole ≡ false
    → grown ws x e ≡ ws ++ (x ∷ []) ++ (hole_with (e - 17) ∷ [])
unfolding grown
grown-used ws x e used =
    ap
      (λ (t : Bool).
        if t
        then ws ++ (hole_with (x.size + e) ∷ [])
        else ws ++ (x ∷ []) ++ (hole_with (e - 17) ∷ []))
      used

pub grown-hole :
    (ws : List Block) (x : Block) (e : ℕ)
    → x.hole ≡ true
    → grown ws x e ≡ ws ++ (hole_with (x.size + e) ∷ [])
unfolding grown
grown-hole ws x e hole =
    ap
      (λ (t : Bool).
        if t
        then ws ++ (hole_with (x.size + e) ∷ [])
        else ws ++ (x ∷ []) ++ (hole_with (e - 17) ∷ []))
      hole

IsFramed-longer :
    (m m' : Memory) (h h' : Kheap) (a n e : ℕ)
    → h.start_address ≤ a
    → a + 17 + n ≡ h.end_address + e
    → h.end_address + e < 2 ^ 32
    → read32 m (h.end_address + e) ≢ kheap_magic
    → IsFramed m h
    → SameFrame (longer h e) h'
    → SameOutside m m' a n
    → IsFramed m' h'
IsFramed-longer m m' h h' a n e lo hi small after ok same out = record {
  above = rw same.start_address (ok.above);
  ordered = omega (arith, ok.ordered, same.start_address, same.end_address);
  below = rw same.end_address small;
  index = same.valid;
  nothing_before =
      rw
        (same.start_address, same_word m m' a n (h.start_address - 8) out (omega (arith, ok.above)))
        (ok.nothing_before);
  nothing_after =
      rw (same.end_address, same_word m m' a n (h.end_address + e) out (omega arith)) after;
}

-- A growth by `e` bytes: the blocks are those of `grown`, and no bytes of the old blocks change
-- but in the header and footer of a hole at the end.
pub record IsGrown (m : Memory) (h : Kheap) (ws : List Block) (x : Block) (e : ℕ) (m' : Memory)
    (h' : Kheap) : Type 0 where
  pub heap : IsHeap m' h' (grown ws x e)
  pub start : h'.start_address ≡ h.start_address
  pub end : h'.end_address ≡ h.end_address + e
  pub others : (a : ℕ) → a < h.start_address + span ws → m' a ≡ m a
  pub last : x.hole ≡ false → (a : ℕ) → a < h.end_address → m' a ≡ m a

-- The last block is in use: a hole follows it.
pub grow-used :
    (m : Memory) (h : Kheap) (ws : List Block) (x : Block) (e : ℕ)
    → x.hole ≡ false
    → 17 < e
    → h.end_address + e < 2 ^ 32
    → read32 m (h.end_address + e) ≢ kheap_magic
    → h.index.size < h.index.max_size
    → IsHeap m h (ws ++ (x ∷ []))
    → (m' : Memory) × (h' : Kheap) × (make_block m h.end_address (e - 17) 1 ≡ some m')
      × (insert_hole m' (longer h e) h.end_address ≡ some h')
      × IsGrown m h ws x e m' h'
unfolding span hole_count
grow-used m h ws x e used some_bytes small after room ok =
    let (m', run, block, outside, inner) =
      make_block-IsBlock m h.end_address (e - 17) true (omega arith) (omega arith) in
    let (h', run', same, more, counts) =
      insert_hole-count m' (longer h e) h.end_address ok.framed.index room in
    let open_frame : SameFrame (longer h e) (longer h e) = record {
      start_address = refl;
      end_address = refl;
      size = refl;
      max_address = refl;
      valid = ok.framed.index;
      room = refl;
    } in
    let on : IsOpen m' (longer h e) (ws ++ (x ∷ [])) (hole_with (e - 17)) [] = record {
      framed =
          IsFramed-longer m m' h (longer h e) h.end_address (e - 17) e ok.framed.ordered
            (omega arith) small after ok.framed open_frame outside;
      left =
          Tiles-frame m m' h.start_address (ws ++ (x ∷ []))
            (λ a lo hi. outside a (inl (omega (arith, ok.ends, hi)))) ok.tiles;
      mid = subst (λ (t : ℕ). IsBlock m' t (hole_with (e - 17))) ok.ends block;
      right = tt;
      ends = omega (arith, ok.ends);
      counts = λ t. omega (arith, ok.counts t);
    } in
    let heap =
      IsHeap-of_IsOpen m' (longer h e) h' (ws ++ (x ∷ [])) (hole_with (e - 17)) [] refl on same
        (λ t. counts t ∙ ap (λ (p : ℕ). one_at t p + count t (elements h.index)) ok.ends) in
    (
      m',
      h',
      run,
      run',
      record {
        heap = subst (IsHeap m' h') (sym (grown-used ws x e used)) heap;
        start = same.start_address;
        end = same.end_address;
        others = λ a less. outside a (inl (omega (arith, ok.ends, less, span-append ws (x ∷ []))));
        last = λ is_used a less. outside a (inl less);
      },
    )

-- The last block is a hole: it becomes longer, and is put into the index anew.
pub grow-hole :
    (m : Memory) (h : Kheap) (ws : List Block) (x : Block) (e : ℕ)
    → x.hole ≡ true
    → h.end_address + e < 2 ^ 32
    → read32 m (h.end_address + e) ≢ kheap_magic
    → IsHeap m h (ws ++ (x ∷ []))
    → (m' : Memory) × (h₁ : Kheap) × (h' : Kheap) × (make_block m
          (h.start_address + span ws)
          (u32 (x.size + e))
          1
        ≡ some m')
      × (remove_hole (longer h e) (h.start_address + span ws) ≡ some h₁)
      × (insert_hole m' h₁ (h.start_address + span ws) ≡ some h')
      × IsGrown m h ws x e m' h'
unfolding span hole_count
grow-hole m h ws x e hole small after ok =
    let a = h.start_address + span ws in
    let ends = span-append ws (x ∷ []) in
    let (left, right) = Tiles-split m h.start_address ws (x ∷ []) ok.tiles in
    let one : one_at a a ≡ 1 = ground arith in
    let all_counts = hole_count-append a h.start_address ws (x ∷ []) in
    let there : 0 < count a (elements h.index) =
      omega (arith, ok.counts a, all_counts, counted hole a a, one) in
    let size : u32 (x.size + e) ≡ x.size + e = omega (arith, ok.ends, ends) in
    let (m', run, block, outside, inner) =
      make_block-IsBlock m a (x.size + e) true (omega (arith, right.0.some_bytes))
        (omega (arith, ok.ends, ends)) in
    let (h₁, run', same, fewer, counts) = remove_hole-count (longer h e) a ok.framed.index there in
    let (h', run'', same', more, counts') =
      insert_hole-count m' h₁ a same.valid
        (omega (arith, fewer, same.room, ok.framed.index.bounded)) in
    let on : IsOpen m' h₁ ws (hole_with (x.size + e)) [] = record {
      framed =
          IsFramed-longer m m' h h₁ a (x.size + e) e (omega arith) (omega (arith, ok.ends, ends))
            small after ok.framed same outside;
      left =
          rw same.start_address
            (Tiles-frame m m' h.start_address ws (λ t lo hi. outside t (inl hi)) left);
      mid = rw same.start_address block;
      right = tt;
      ends = omega (arith, ok.ends, ends, same.start_address, same.end_address);
      counts = λ t. rw same.start_address (
          omega (
            arith,
            ok.counts t,
            counts t,
            hole_count-append t h.start_address ws (x ∷ []),
            counted hole t a,
          ));
    } in
    let heap =
      IsHeap-of_IsOpen m' h₁ h' ws (hole_with (x.size + e)) [] refl on same'
        (λ t. rw same.start_address (counts' t)) in
    (
      m',
      h₁,
      h',
      ap (λ (t : ℕ). make_block m a t 1) size ∙ run,
      run',
      run'',
      record {
        heap = subst (IsHeap m' h') (sym (grown-hole ws x e hole)) heap;
        start = same'.start_address ∙ same.start_address;
        end = same'.end_address ∙ same.end_address;
        others = λ t less. outside t (inl less);
        last = λ used. absurd (ground (arith, used, hole));
      },
    )
