-- ===== src/IdPool/Allocate.antt =====
-- `id_pool_allocate_id` on every path.
use luck_os.Common.{
  ℕ, ◌+◌, ◌*◌, ◌/◌, ◌≤◌, ◌<◌, ◌≡◌, ◌≢◌, refl, sym, ap, ◌∙◌, true, false, Option, none, some, List,
  [], arith, ◌>>=◌, ◌==◌, length, ℕ_discrete,
}
use luck_os.Bitmap.{Bitmap, AreWords, member, bitmap_allocate_first_free}
use luck_os.Bitmap.Update.{Allocates, bitmap_allocate_first_free-Allocates}
use luck_os.Sync.Yieldlock.{yieldlock_unlock, yieldlock_lock-free}
use mathlib.Core.Bool.{false≢true}
use luck_os.IdPool.{IdPool, Allocated, from_map, allocate_slow, id_pool_allocate_id}
use luck_os.IdPool.Spec.{IsSized, IsValid, holds, Grants, Outcome, granted}
use luck_os.IdPool.Grow.{Grown, expanded, expand-Grown}

-- A number granted by the grown pool is granted by the pool itself.
Grown-Grants : (p q : IdPool) (id : ℕ) (p' : IdPool) → Grown p q → Grants q id p' → Grants p id p'
Grown-Grants p q id p' g r = record {
  valid = r.valid;
  same_max = r.same_max ∙ g.same_max;
  inside = omega (arith, r.inside, g.same_max);
  fresh = sym (g.same id) ∙ r.fresh;
  least = λ k h. sym (g.same k) ∙ r.least k h;
  taken = λ k. ground (arith, g.same k, r.taken k);
}

-- The second search, in the grown pool, finds a number.
from_Grown :
    (p q : IdPool) (out : Option ℕ × Bitmap)
    → Grown p q
    → Allocates q.id_map out
    → (o : Allocated) × (from_map (record q { lock = yieldlock_unlock q.lock }) (some out) ≡ some o)
      × Outcome p o
unfolding from_map yieldlock_unlock
from_Grown p q (none, id_map) g full = absurd (
    false≢true (
      sym g.free
      ∙ full.1 p.size
          (omega (arith, g.larger, g.sized.map.sized, g.sized.total, g.sized.size_aligned))))
from_Grown p q (some id, id_map) g found = (
  (1, some id, record q { id_map = id_map; lock = record { hold = 0 } }),
  refl,
  (
    omega arith,
    Grown-Grants p q id _ g
        (granted q id id_map (record { hold = 0 }) g.sized refl found.0 found.1),
  ),
)

locked : IdPool → IdPool
locked p = record p { lock = record { hold = 1 } }

locked-IsSized : (p : IdPool) → IsSized p → IsSized (locked p)
unfolding locked
locked-IsSized p ok = record {
  map = ok.map;
  total = ok.total;
  size_aligned = ok.size_aligned;
  expand_aligned = ok.expand_aligned;
  max_aligned = ok.max_aligned;
  grows = ok.grows;
  bounded = ok.bounded;
  small = ok.small;
}

locked-Grown : (p q : IdPool) → Grown (locked p) q → Grown p q
unfolding locked holds
locked-Grown p q g = record {
  sized = g.sized;
  same_max = g.same_max;
  larger = g.larger;
  same = g.same;
  full = g.full;
  free = g.free;
}

refused : IdPool → ℕ → Allocated
refused p hold = (255, none, record p { lock = record { hold = hold } })

module _ (block : List ℕ) (residue : ℕ) (words : AreWords block) (returns : residue ≢ 0)
    (p : IdPool) (ok : IsValid p) (room : (p.size + p.expand_size) / 32 ≤ length block) where
  -- All the numbers of the map are taken.
  abbrev IsFull : Type 0
  IsFull = (n : ℕ) → n < p.id_map.array_size * 32 → member p.id_map n ≡ true

  slow_last :
      IsFull
      → p.size ≡ p.max_size
      → (o : Allocated) × (allocate_slow block residue (locked p) ≡ some o) × Outcome p o
  unfolding allocate_slow yieldlock_unlock locked holds refused
  slow_last full last =
      let test : (p.size == p.max_size) ≡ true = ground arith in
      (
        (255, none, p),
        rw test (ap (λ (h : ℕ). some (refused p h)) (sym ok.free)),
        (
          refl,
          λ k h. ground (arith, full k, ok.sized.map.sized, ok.sized.total, ok.sized.size_aligned),
          refl,
        ),
      )

  slow_more :
      IsFull
      → p.size ≢ p.max_size
      → (o : Allocated) × (allocate_slow block residue (locked p) ≡ some o) × Outcome p o
  unfolding allocate_slow locked expanded
  slow_more full short =
      let (id_map, size, run, g) =
        expand-Grown block residue (locked p) (locked-IsSized p ok.sized) words room short in
      let (out, run', found) = bitmap_allocate_first_free-Allocates id_map g.sized.map in
      let (o, last, outcome) =
        from_Grown p (expanded (locked p) size id_map) out (locked-Grown p _ g) found in
      let test : (p.size == p.max_size) ≡ false = ground arith in
      let ran : (residue == 0) ≡ false = ground arith in
      (o, rw (test, run, ◌>>=◌, ran, run') last, outcome)

  slow_Outcome :
      IsFull → (o : Allocated) × (allocate_slow block residue (locked p) ≡ some o) × Outcome p o
  slow_Outcome full = elim (ℕ_discrete p.size p.max_size) [
    | yes last ↦ slow_last full last
    | no short ↦ slow_more full short
  ]

  finish :
      (out : Option ℕ × Bitmap)
      → bitmap_allocate_first_free p.id_map ≡ some out
      → Allocates p.id_map out
      → (o : Allocated) × (id_pool_allocate_id block residue p ≡ some o) × Outcome p o
  unfolding id_pool_allocate_id yieldlock_unlock locked
  finish (none, id_map) run (same, full) =
      let (o, slow, outcome) = slow_Outcome full in
      (o, rw (yieldlock_lock-free [] p.lock ok.free, ◌>>=◌, run, same) slow, outcome)
  finish (some id, id_map) run found = (
    (1, some id, record p { id_map = id_map; lock = record { hold = 0 } }),
    rw (yieldlock_lock-free [] p.lock ok.free, ◌>>=◌, run),
    (omega arith, granted p id id_map (record { hold = 0 }) ok.sized refl found.0 found.1),
  )

  -- On a valid pool whose `expand` happens to return true, `id_pool_allocate_id` grants the least free
  -- number below `max_size` with a result that is true, growing the map at need, and leaves the pool
  -- valid with the lock given back; once all the numbers are taken it returns 255, which also reads
  -- as true, writes no number and changes nothing.
  pub id_pool_allocate_id-Outcome :
      (o : Allocated) × (id_pool_allocate_id block residue p ≡ some o) × Outcome p o
  id_pool_allocate_id-Outcome =
      let (out, run, found) = bitmap_allocate_first_free-Allocates p.id_map ok.sized.map in
      finish out run found
