-- ===== src/Kheap/Create.antt =====
-- The heap that `create_kheap` makes.
use luck_os.Common.{
  ℕ, ◌+◌, ◌-◌, ◌*◌, ◌%◌, ◌^◌, ◌≤◌, ◌<◌, ◌≡◌, ◌≢◌, refl, true, some, List, [], ◌∷◌, arith, ◌>>=◌,
  length, inl, inr, sym,
}
use luck_os.OrderedArray.{ordered_array_create, elements}
use luck_os.OrderedArray.Insert.{IsValid}
use luck_os.Kheap.Bytes.{Memory, read32}
use luck_os.Kheap.{
  Kheap, kheap_magic, kheap_index_num, u32, sub32, make_block, insert_hole, kheap_block_comparator,
}
use luck_os.Kheap.Blocks.{Block, make_block-IsBlock}
use luck_os.Kheap.Index.{count, insert_hole-count}
use luck_os.Kheap.Tiling.{span, hole_count}
use luck_os.Kheap.Heap.{IsHeap, same_word}
use luck_os.Kheap.Calls.{create_kheap}

-- The one hole of a new heap between `start` and `end`, behind the index.
abbrev pub first_hole : ℕ → ℕ → Block
first_hole start end = record { size = end - (start + 0x8_0000) - 17; hole = true }

creates :
    (places : List ℕ) (m : Memory) (start end max supervisor readonly n blocks : ℕ) (m' : Memory)
    (h h' : Kheap)
    → start % 4096 ≡ 0
    → end % 4096 ≡ 0
    → u32 (start + 4 * kheap_index_num) ≡ blocks
    → sub32 (sub32 end blocks) 17 ≡ n
    → h ≡ record {
      index = ordered_array_create places kheap_index_num (kheap_block_comparator m);
      start_address = blocks;
      end_address = end;
      size = sub32 end blocks;
      max_address = max;
      supervisor = supervisor;
      readonly = readonly;
    }
    → make_block m blocks n 1 ≡ some m'
    → insert_hole m' h blocks ≡ some h'
    → create_kheap places m start end max supervisor readonly ≡ some (m', h')
unfolding create_kheap
creates places m start end max supervisor readonly n blocks m' h h' e e' place size is_h run run' =
    rw (e, e', place, size, run, ◌>>=◌, sym is_h, run') refl

-- From page-aligned bounds that leave room for the index and one block, `create_kheap` makes a heap in order, that
-- consists of one hole behind the index.
pub create_kheap-IsHeap :
    (places : List ℕ) (m : Memory) (start end max supervisor readonly : ℕ)
    → start % 4096 ≡ 0
    → end % 4096 ≡ 0
    → start + 0x8_0000 + 17 < end
    → end < 2 ^ 32
    → kheap_index_num ≤ length places
    → read32 m (start + 0x8_0000 - 8) ≢ kheap_magic
    → read32 m end ≢ kheap_magic
    → (m' : Memory) × (h' : Kheap) × (create_kheap places m start end max supervisor readonly
        ≡ some (m', h'))
      × IsHeap m' h' (first_hole start end ∷ [])
      × (h'.start_address ≡ start + 0x8_0000)
      × (h'.end_address ≡ end)
      × (h'.max_address ≡ max)
unfolding span hole_count count ordered_array_create elements
create_kheap-IsHeap places m start end max supervisor readonly e e' fits small room before after =
    let blocks = start + 0x8_0000 in
    let n = end - blocks - 17 in
    let place : u32 (start + 4 * kheap_index_num) ≡ blocks = omega arith in
    let size : sub32 (sub32 end blocks) 17 ≡ n = omega arith in
    let h : Kheap = record {
      index = ordered_array_create places kheap_index_num (kheap_block_comparator m);
      start_address = blocks;
      end_address = end;
      size = sub32 end blocks;
      max_address = max;
      supervisor = supervisor;
      readonly = readonly;
    } in
    let valid : IsValid h.index = record { bounded = omega arith; room = room } in
    let (m', run, block, out, inner) =
      make_block-IsBlock m blocks n true (omega arith) (omega arith) in
    let (h', run', same, more, counts) = insert_hole-count m' h blocks valid (omega arith) in
    (
      m',
      h',
      creates places m start end max supervisor readonly n blocks m' h h' e e' place size refl run
          run',
      record {
        framed = record {
          above = omega (arith, same.start_address);
          ordered = omega (arith, same.start_address, same.end_address);
          below = omega (arith, same.end_address);
          index = same.valid;
          nothing_before =
              rw (same.start_address, same_word m m' blocks n (blocks - 8) out (inl (omega arith)))
                before;
          nothing_after =
              rw (same.end_address, same_word m m' blocks n end out (inr (omega arith))) after;
        };
        tiles = rw same.start_address (block, tt);
        ends = omega (arith, same.start_address, same.end_address);
        counts = λ x. rw same.start_address (counts x);
      },
      same.start_address,
      same.end_address,
      same.max_address,
    )
