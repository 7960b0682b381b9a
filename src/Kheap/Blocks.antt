-- ===== src/Kheap/Blocks.antt =====
-- Blocks in memory, and `make_block`.
use luck_os.Common.{ℕ, ◌+◌, ◌^◌, ◌≤◌, ◌<◌, ◌≡◌, ◌∙◌, ◌⊎◌, Bool, true, false, some, arith, ◌==◌}
use luck_os.Kheap.Bytes.{
  Memory, read32, write8, write32, read8-write8_self, read8-write8_apart, read8-write32_apart,
  read32-write32_self, read32_congr, read32-write32_apart, read32-write8_apart,
}
use luck_os.Kheap.{kheap_magic, u32, sub32, make_block}

pub record Block : Type 0 where
  pub size : ℕ
  pub hole : Bool

abbrev pub to_nat : Bool → ℕ
to_nat true = 1
to_nat false = 0

-- A block with its header at `a`.
pub record IsBlock (m : Memory) (a : ℕ) (b : Block) : Type 0 where
  pub some_bytes : 0 < b.size
  pub top_magic : read32 m a ≡ kheap_magic
  pub flag : m (a + 4) ≡ to_nat b.hole
  pub length : read32 m (a + 5) ≡ b.size
  pub bottom_magic : read32 m (a + 9 + b.size) ≡ kheap_magic
  pub back : read32 m (a + 9 + b.size + 4) ≡ a

-- `m'` is `m` but for the 17 bytes of header and footer of a block.
abbrev pub SameOutside : Memory → Memory → ℕ → ℕ → Type 0
SameOutside m m' a n = (x : ℕ) → (x < a) ⊎ (a + 17 + n ≤ x) → m' x ≡ m x

abbrev SameData : Memory → Memory → ℕ → ℕ → Type 0
SameData m m' a n = (x : ℕ) → a + 9 ≤ x → x < a + 9 + n → m' x ≡ m x

written : Memory → ℕ → ℕ → Bool → Memory
written m a n hole =
    write32
      (write32 (write8 (write32 (write32 m a kheap_magic) (a + 5) n) (a + 4) (to_nat hole))
        (a + 9 + n) kheap_magic)
      (a + 9 + n + 4) a

written-IsBlock :
    (m : Memory) (a n : ℕ) (hole : Bool)
    → 0 < n
    → a + 17 + n < 2 ^ 32
    → IsBlock (written m a n hole) a (record { size = n; hole = hole })
unfolding written
written-IsBlock m a n hole some_bytes h =
    let m₁ = write32 m a kheap_magic in
    let m₂ = write32 m₁ (a + 5) n in
    let m₃ = write8 m₂ (a + 4) (to_nat hole) in
    let m₄ = write32 m₃ (a + 9 + n) kheap_magic in
    record {
      some_bytes = some_bytes;
      top_magic =
          read32-write32_apart m₄ (a + 9 + n + 4) a a (omega arith)
          ∙ read32-write32_apart m₃ (a + 9 + n) kheap_magic a (omega arith)
          ∙ read32-write8_apart m₂ (a + 4) (to_nat hole) a (omega arith)
          ∙ read32-write32_apart m₁ (a + 5) n a (omega arith)
          ∙ read32-write32_self m a kheap_magic (omega arith);
      flag =
          read8-write32_apart m₄ (a + 9 + n + 4) a (a + 4) (omega arith)
          ∙ read8-write32_apart m₃ (a + 9 + n) kheap_magic (a + 4) (omega arith)
          ∙ read8-write8_self m₂ (a + 4) (to_nat hole) (ground arith);
      length =
          read32-write32_apart m₄ (a + 9 + n + 4) a (a + 5) (omega arith)
          ∙ read32-write32_apart m₃ (a + 9 + n) kheap_magic (a + 5) (omega arith)
          ∙ read32-write8_apart m₂ (a + 4) (to_nat hole) (a + 5) (omega arith)
          ∙ read32-write32_self m₁ (a + 5) n (omega arith);
      bottom_magic =
          read32-write32_apart m₄ (a + 9 + n + 4) a (a + 9 + n) (omega arith)
          ∙ read32-write32_self m₃ (a + 9 + n) kheap_magic (omega arith);
      back = read32-write32_self m₄ (a + 9 + n + 4) a (omega arith);
    }

-- A byte apart from the five writes.
written-same :
    (m : Memory) (a n : ℕ) (hole : Bool) (x : ℕ)
    → (x < a) ⊎ ((a + 8 < x) × (x < a + 9 + n) ⊎ (a + 17 + n ≤ x))
    → written m a n hole x ≡ m x
unfolding written
written-same m a n hole x h =
    let m₁ = write32 m a kheap_magic in
    let m₂ = write32 m₁ (a + 5) n in
    let m₃ = write8 m₂ (a + 4) (to_nat hole) in
    let m₄ = write32 m₃ (a + 9 + n) kheap_magic in
    read8-write32_apart m₄ (a + 9 + n + 4) a x (omega arith)
    ∙ read8-write32_apart m₃ (a + 9 + n) kheap_magic x (omega arith)
    ∙ read8-write8_apart m₂ (a + 4) (to_nat hole) x (omega arith)
    ∙ read8-write32_apart m₁ (a + 5) n x (omega arith)
    ∙ read8-write32_apart m a kheap_magic x (omega arith)

-- For at least one byte and a block that ends below 2^32, `make_block` writes a block of that size and kind, and changes
-- neither its data bytes nor any byte outside of it.
pub make_block-IsBlock :
    (m : Memory) (a n : ℕ) (hole : Bool)
    → 0 < n
    → a + 17 + n < 2 ^ 32
    → (m' : Memory) × (make_block m a n (to_nat hole) ≡ some m')
      × IsBlock m' a (record { size = n; hole = hole })
      × SameOutside m m' a n
      × SameData m m' a n
unfolding make_block written
make_block-IsBlock m a n hole some_bytes h =
    let test : (n == 0) ≡ false = ground arith in
    let place : sub32 (u32 (a + n + 17)) 8 ≡ a + 9 + n = omega arith in
    (
      written m a n hole,
      rw (test, place),
      written-IsBlock m a n hole some_bytes h,
      λ x out. written-same m a n hole x (ground (arith, out)),
      λ x lo hi. written-same m a n hole x (ground (arith, lo, hi)),
    )

-- A block stays one while its header and footer keep their bytes.
pub IsBlock-frame :
    (m m' : Memory) (a : ℕ) (b : Block)
    → ((x : ℕ) → a ≤ x → x < a + 17 + b.size → m' x ≡ m x)
    → IsBlock m a b
    → IsBlock m' a b
IsBlock-frame m m' a b same ok = record {
  some_bytes = ok.some_bytes;
  top_magic = word a (omega arith) (omega arith) ∙ ok.top_magic;
  flag = same (a + 4) (omega arith) (omega arith) ∙ ok.flag;
  length = word (a + 5) (omega arith) (omega arith) ∙ ok.length;
  bottom_magic = word (a + 9 + b.size) (omega arith) (omega arith) ∙ ok.bottom_magic;
  back = word (a + 9 + b.size + 4) (omega arith) (omega arith) ∙ ok.back;
}
  where
    word : (x : ℕ) → a ≤ x → x + 3 < a + 17 + b.size → read32 m' x ≡ read32 m x
    word x lo hi =
        read32_congr m m' x (same x (omega arith) (omega arith))
          (same (x + 1) (omega arith) (omega arith)) (same (x + 2) (omega arith) (omega arith))
          (same (x + 3) (omega arith) (omega arith))
