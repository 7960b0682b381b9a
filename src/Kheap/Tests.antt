-- ===== src/Kheap/Tests.antt =====
-- A heap of three blocks between 16 and 85, and the theorems at it.
use luck_os.Common.{ℕ, ◌+◌, ◌≡◌, refl, some, [], ◌∷◌, arith, false, replicate, length-replicate}
use luck_os.OrderedArray.{elements}
use luck_os.Kheap.{
  Kheap, kheap_start, kheap_min_size, kheap_max, kheap_magic, kheap_block_comparator, align_to_page,
}
use luck_os.Kheap.Bytes.{Memory, read32, write8, write32}
use luck_os.Kheap.Blocks.{IsBlock}
use luck_os.Kheap.Index.{count}
use luck_os.Kheap.Tiling.{span, hole_count}
use luck_os.Kheap.Heap.{IsFramed, IsHeap}
use luck_os.Kheap.Alloc.{alloc, grow_heap}
use luck_os.Kheap.Free.{free, kheap_validate_print}
use luck_os.Kheap.Release.{IsFreed, free-IsFreed}
use luck_os.Kheap.Validate.{in_use, kheap_validate_print-in_use}
use luck_os.Kheap.Cut.{used_of, hole_with}
use luck_os.Kheap.Calls.{create_kheap, kmalloc}
use luck_os.Kheap.Grow.{IsGrown}
use luck_os.Kheap.Extend.{
  HasRoom, growth, ArePagesFor, Allocates, alloc-Allocates, grow_heap-IsGrown,
}
use luck_os.Kheap.Locked.{kmalloc-Allocates}
use luck_os.Sync.Yieldlock.{yieldlock_init}
use luck_os.Kheap.Create.{first_hole, create_kheap-IsHeap}

abbrev with_block : Memory → ℕ → ℕ → ℕ → Memory
with_block m a n flag =
    write32
      (write32 (write8 (write32 (write32 m a kheap_magic) (a + 5) n) (a + 4) flag) (a + 9 + n)
        kheap_magic)
      (a + 13 + n) a

abbrev no_bytes : Memory
no_bytes a = 0

abbrev memory : Memory
memory = with_block (with_block (with_block no_bytes 16 4 1) 37 8 0) 62 6 1

abbrev kheap : Kheap
kheap = record {
  index = record {
    array = 16 ∷ 62 ∷ 0 ∷ 0 ∷ [];
    size = 2;
    max_size = 4;
    comparator = kheap_block_comparator memory;
  };
  start_address = 16;
  end_address = 85;
  size = 69;
  max_address = 65536;
  supervisor = 0;
  readonly = 0;
}

block_16 : IsBlock memory 16 (hole_with 4)
unfolding read32 write8 write32
block_16 = record {
  some_bytes = omega arith;
  top_magic = refl;
  flag = refl;
  length = refl;
  bottom_magic = refl;
  back = refl;
}

block_37 : IsBlock memory 37 (used_of 8)
unfolding read32 write8 write32
block_37 = record {
  some_bytes = omega arith;
  top_magic = refl;
  flag = refl;
  length = refl;
  bottom_magic = refl;
  back = refl;
}

block_62 : IsBlock memory 62 (hole_with 6)
unfolding read32 write8 write32
block_62 = record {
  some_bytes = omega arith;
  top_magic = refl;
  flag = refl;
  length = refl;
  bottom_magic = refl;
  back = refl;
}

kheap-IsFramed : IsFramed memory kheap
unfolding read32 write8 write32
kheap-IsFramed = record {
  above = omega arith;
  ordered = omega arith;
  below = omega arith;
  index = record { bounded = omega arith; room = omega arith };
  nothing_before = λ e. omega arith;
  nothing_after = λ e. omega arith;
}

kheap-IsHeap : IsHeap memory kheap (hole_with 4 ∷ used_of 8 ∷ hole_with 6 ∷ [])
unfolding span count hole_count elements
kheap-IsHeap = record {
  framed = kheap-IsFramed;
  tiles = (block_16, (block_37, (block_62, tt)));
  ends = refl;
  counts = λ x. omega arith;
}

free-IsFreed_example :
    (m' : Memory) × (h' : Kheap) × (free memory kheap (16 + span (hole_with 4 ∷ []) + 9)
      ≡ some (m', h'))
    × IsFreed memory kheap (hole_with 4 ∷ []) (used_of 8) (hole_with 6 ∷ []) m' h'
free-IsFreed_example =
    free-IsFreed memory kheap (hole_with 4 ∷ []) (used_of 8) (hole_with 6 ∷ []) refl (omega arith)
      kheap-IsHeap

kheap_validate_print-in_use_example :
    kheap_validate_print memory kheap ≡ some (in_use (hole_with 4 ∷ used_of 8 ∷ hole_with 6 ∷ []))
kheap_validate_print-in_use_example =
    kheap_validate_print-in_use memory kheap (hole_with 4 ∷ used_of 8 ∷ hole_with 6 ∷ [])
      kheap-IsHeap

create_kheap-IsHeap_example :
    (m' : Memory) × (h' : Kheap) × (create_kheap
        (replicate 0x2_0000 0)
        no_bytes
        kheap_start
        (kheap_start + kheap_min_size)
        kheap_max
        0
        0
      ≡ some (m', h'))
    × IsHeap m' h' (first_hole kheap_start (kheap_start + kheap_min_size) ∷ [])
    × (h'.start_address ≡ kheap_start + 0x8_0000)
    × (h'.end_address ≡ kheap_start + kheap_min_size)
    × (h'.max_address ≡ kheap_max)
unfolding read32
create_kheap-IsHeap_example =
    create_kheap-IsHeap (replicate 0x2_0000 0) no_bytes kheap_start (kheap_start + kheap_min_size)
      kheap_max 0 0 (omega arith) (omega arith) (omega arith) (omega arith)
      (omega (arith, length-replicate {A = ℕ} 0x2_0000 0)) (λ e. omega arith) (λ e. omega arith)

kheap-HasRoom : HasRoom memory kheap 50
unfolding align_to_page read32 write8 write32
kheap-HasRoom = record {
  small = omega arith;
  room = omega arith;
  limit = omega arith;
  entry = omega arith;
  nothing_after = λ e. omega arith;
}

grow_heap-IsGrown_example :
    (m' : Memory) × (h' : Kheap) × (grow_heap memory kheap 50 ≡ some (m', h'))
    × IsGrown memory kheap (hole_with 4 ∷ used_of 8 ∷ []) (hole_with 6) (growth 50) m' h'
    × ArePagesFor (50 + 17) (growth 50)
grow_heap-IsGrown_example =
    grow_heap-IsGrown memory kheap (hole_with 4 ∷ used_of 8 ∷ []) (hole_with 6) 50 kheap-HasRoom
      kheap-IsHeap

kmalloc-Allocates_example :
    (ptr : ℕ) × (m' : Memory) × (h' : Kheap) × (kmalloc [] yieldlock_init memory kheap 50
      ≡ some (ptr, yieldlock_init, m', h'))
    × Allocates memory kheap (hole_with 4 ∷ used_of 8 ∷ []) (hole_with 6) 50 ptr m' h'
kmalloc-Allocates_example =
    kmalloc-Allocates [] memory kheap (hole_with 4 ∷ used_of 8 ∷ []) (hole_with 6) 50 (omega arith)
      kheap-HasRoom kheap-IsHeap

alloc-Allocates_example :
    (ptr : ℕ) × (m' : Memory) × (h' : Kheap) × (alloc 2 memory kheap 50 false ≡ some (ptr, m', h'))
    × Allocates memory kheap (hole_with 4 ∷ used_of 8 ∷ []) (hole_with 6) 50 ptr m' h'
alloc-Allocates_example =
    alloc-Allocates 0 memory kheap (hole_with 4 ∷ used_of 8 ∷ []) (hole_with 6) 50 (omega arith)
      kheap-HasRoom kheap-IsHeap
