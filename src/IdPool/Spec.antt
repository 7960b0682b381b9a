-- ===== src/IdPool/Spec.antt =====
-- What the pool promises: distinct numbers below `max_size`, the least free one first.
use luck_os.Common.{
  ℕ, ◌+◌, ◌*◌, ◌%◌, ◌^◌, ◌≤◌, ◌<◌, ◌≡◌, ◌≢◌, refl, Bool, true, false, none, some, arith, ◌&&◌, ltb,
  ◌==◌, if◌then◌else◌,
}
use luck_os.Bitmap.{
  Bitmap, FirstFree, AreWords, member, bitmap_allocate_first_free, bitmap_expand, bitmap_clear_bit,
}
use luck_os.Bitmap
use luck_os.Bitmap.Update.{Updates}
use luck_os.Sync.Yieldlock.{Yieldlock}
use luck_os.IdPool.{IdPool, Allocated}

-- Sizes are whole words, and sums of them do not wrap.
pub record IsSized (p : IdPool) : Type 0 where
  pub map : Bitmap.IsValid p.id_map
  pub total : p.id_map.total_bits ≡ p.size
  pub size_aligned : p.size % 32 ≡ 0
  pub expand_aligned : p.expand_size % 32 ≡ 0
  pub max_aligned : p.max_size % 32 ≡ 0
  pub grows : 0 < p.expand_size
  pub bounded : p.size ≤ p.max_size
  pub small : p.max_size + p.expand_size < 2 ^ 32

-- Nobody holds the lock.
pub record IsValid (p : IdPool) : Type 0 where
  pub sized : IsSized p
  pub free : p.lock.hold ≡ 0

-- Number `id` is handed out.
unfoldable pub holds : IdPool → ℕ → Bool
holds p id = ltb id p.size && member p.id_map id

pub record Grants (p : IdPool) (id : ℕ) (p' : IdPool) : Type 0 where
  pub valid : IsValid p'
  pub same_max : p'.max_size ≡ p.max_size
  pub inside : id < p.max_size
  pub fresh : holds p id ≡ false
  pub least : (k : ℕ) → k < id → holds p k ≡ true
  pub taken : (k : ℕ) → holds p' k ≡ (if k == id then true else holds p k)

abbrev IsExhausted : IdPool → Type 0
IsExhausted p = (k : ℕ) → k < p.max_size → holds p k ≡ true

abbrev pub Outcome : IdPool → Allocated → Type 0
Outcome p (result, some id, p') = (result ≢ 0) × Grants p id p'
Outcome p (result, none, p') = (result ≡ 255) × IsExhausted p × (p' ≡ p)

-- The pool after a bit of its map was set, with the lock given back.
pub granted :
    (p : IdPool) (id : ℕ) (id_map : Bitmap) (l : Yieldlock)
    → IsSized p
    → l.hold ≡ 0
    → FirstFree (member p.id_map) 0 (p.id_map.array_size * 32) (some id)
    → Updates p.id_map id true id_map
    → Grants p id (record p { id_map = id_map; lock = l })
unfolding holds
granted p id id_map l ok free first updates = record {
  valid = record {
    sized = record {
      map = updates.valid;
      total = omega (arith, updates.total_bits, ok.total);
      size_aligned = ok.size_aligned;
      expand_aligned = ok.expand_aligned;
      max_aligned = ok.max_aligned;
      grows = ok.grows;
      bounded = ok.bounded;
      small = ok.small;
    };
    free = free;
  };
  same_max = refl;
  inside = omega (arith, first.1, ok.map.sized, ok.total, ok.bounded);
  fresh = ground (arith, first.2);
  least = λ k h. ground (arith, first.3 k (omega arith) h, first.1, ok.map.sized, ok.total);
  taken = λ k. ground (arith, updates.members k, first.1, ok.map.sized, ok.total);
}
