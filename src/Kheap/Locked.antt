-- ===== src/Kheap/Locked.antt =====
-- `kmalloc` and `kfree`, which hold `kheap_lock` over the call.
use luck_os.Common.{
  ℕ, ◌+◌, ◌<◌, ◌≡◌, refl, false, some, List, [], ◌∷◌, ◌++◌, arith, ◌==◌, ◌>>=◌, inl, inr,
}
use luck_os.Sync.Yieldlock.{yieldlock_init, yieldlock_unlock, yieldlock_lock-free}
use luck_os.Kheap.{Kheap}
use luck_os.Kheap.Bytes.{Memory}
use luck_os.Kheap.Blocks.{Block}
use luck_os.Kheap.Tiling.{span}
use luck_os.Kheap.Heap.{IsHeap}
use luck_os.Kheap.Release.{IsFreed, free-IsFreed}
use luck_os.Kheap.Extend.{HasRoom, Allocates, alloc-Allocates}
use luck_os.Kheap.Calls.{kmalloc_impl, kmalloc, kfree}

-- The pointer is not null.
pointer-IsPositive :
    (m : Memory) (h : Kheap) (ws : List Block) (x : Block) (size ptr : ℕ) (m' : Memory) (h' : Kheap)
    → Allocates m h ws x size ptr m' h'
    → 0 < ptr
pointer-IsPositive m h ws x size ptr m' h' (inl done) = omega (arith, done.pointer)
pointer-IsPositive m h ws x size ptr m' h' (inr (m₁, h₁, no_fit, more, done)) =
    omega (arith, done.pointer)

-- With the lock free, in a heap in order that may grow for the block, `kmalloc` of at least one byte
-- does what `alloc` without alignment does, returns its pointer, which is not null, and frees the lock.
pub kmalloc-Allocates :
    (seen : List ℕ) (m : Memory) (h : Kheap) (ws : List Block) (x : Block) (size : ℕ)
    → 0 < size
    → HasRoom m h size
    → IsHeap m h (ws ++ (x ∷ []))
    → (ptr : ℕ) × (m' : Memory) × (h' : Kheap) × (kmalloc seen yieldlock_init m h size
        ≡ some (ptr, yieldlock_init, m', h'))
      × Allocates m h ws x size ptr m' h'
unfolding kmalloc kmalloc_impl yieldlock_unlock yieldlock_init
kmalloc-Allocates seen m h ws x size some_bytes can ok =
    let (ptr, m', h', run, done) = alloc-Allocates 1 m h ws x size some_bytes can ok in
    let positive = pointer-IsPositive m h ws x size ptr m' h' done in
    let test : (size == 0) ≡ false = ground arith in
    let test' : (ptr == 0) ≡ false = ground arith in
    (
      ptr,
      m',
      h',
      rw (yieldlock_lock-free seen yieldlock_init refl, ◌>>=◌, test, run, ◌>>=◌, test') refl,
      done,
    )

-- With the lock free, `kfree` of the data of a block in use does what `free` does, in a heap in order with room in
-- its index, and frees the lock.
kfree-IsFreed :
    (seen : List ℕ) (m : Memory) (h : Kheap) (xs : List Block) (b : Block) (ys : List Block)
    → b.hole ≡ false
    → h.index.size < h.index.max_size
    → IsHeap m h (xs ++ (b ∷ ys))
    → (m' : Memory) × (h' : Kheap) × (kfree seen yieldlock_init m h (h.start_address + span xs + 9)
        ≡ some (yieldlock_init, m', h'))
      × IsFreed m h xs b ys m' h'
unfolding kfree yieldlock_unlock yieldlock_init
kfree-IsFreed seen m h xs b ys used room ok =
    let (m', h', run, done) = free-IsFreed m h xs b ys used room ok in
    let test : (h.start_address + span xs + 9 == 0) ≡ false = ground arith in
    (m', h', rw (test, yieldlock_lock-free seen yieldlock_init refl, ◌>>=◌, run, ◌>>=◌) refl, done)
