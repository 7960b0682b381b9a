-- ===== src/Kheap/Bytes.antt =====
-- The bytes of the heap, and 32-bit words over them, lowest byte first.
use luck_os.Common.{ℕ, ◌+◌, ◌*◌, ◌/◌, ◌%◌, ◌^◌, ◌<◌, ◌≡◌, ◌⊎◌, ◌==◌, if◌then◌else◌, arith}

abbrev pub Memory : Type 0
Memory = ℕ → ℕ

unfoldable pub read32 : Memory → ℕ → ℕ
read32 m a = m a + 256 * m (a + 1) + 65536 * m (a + 2) + 16777216 * m (a + 3)

unfoldable pub write8 : Memory → ℕ → ℕ → Memory
write8 m a v b = if b == a then v % 256 else m b

unfoldable pub write32 : Memory → ℕ → ℕ → Memory
write32 m a v b =
    if b == a
    then v % 256
    else if b == a + 1
    then v / 256 % 256
    else if b == a + 2
    then v / 65536 % 256
    else if b == a + 3
    then v / 16777216 % 256
    else m b

pub read8-write8_self : (m : Memory) (a v : ℕ) → v < 256 → write8 m a v a ≡ v
unfolding write8
read8-write8_self m a v h = ground arith

pub read8-write8_apart : (m : Memory) (a v b : ℕ) → (b < a) ⊎ (a < b) → write8 m a v b ≡ m b
unfolding write8
read8-write8_apart m a v b h = ground arith

pub read8-write32_apart : (m : Memory) (a v b : ℕ) → (b < a) ⊎ (a + 3 < b) → write32 m a v b ≡ m b
unfolding write32
read8-write32_apart m a v b h = ground arith

pub read32-write32_self : (m : Memory) (a v : ℕ) → v < 2 ^ 32 → read32 (write32 m a v) a ≡ v
unfolding read32 write32
read32-write32_self m a v h = ground arith

-- A word depends on its four bytes.
pub read32_congr :
    (m m' : Memory) (a : ℕ)
    → m' a ≡ m a
    → m' (a + 1) ≡ m (a + 1)
    → m' (a + 2) ≡ m (a + 2)
    → m' (a + 3) ≡ m (a + 3)
    → read32 m' a ≡ read32 m a
unfolding read32
read32_congr m m' a p q r s = omega arith

pub read32-write32_apart :
    (m : Memory) (a v b : ℕ) → (b + 3 < a) ⊎ (a + 3 < b) → read32 (write32 m a v) b ≡ read32 m b
read32-write32_apart m a v b h =
    read32_congr m (write32 m a v) b (read8-write32_apart m a v b (omega arith))
      (read8-write32_apart m a v (b + 1) (omega arith))
      (read8-write32_apart m a v (b + 2) (omega arith))
      (read8-write32_apart m a v (b + 3) (omega arith))

pub read32-write8_apart :
    (m : Memory) (a v b : ℕ) → (b + 3 < a) ⊎ (a < b) → read32 (write8 m a v) b ≡ read32 m b
read32-write8_apart m a v b h =
    read32_congr m (write8 m a v) b (read8-write8_apart m a v b (omega arith))
      (read8-write8_apart m a v (b + 1) (omega arith))
      (read8-write8_apart m a v (b + 2) (omega arith))
      (read8-write8_apart m a v (b + 3) (omega arith))
