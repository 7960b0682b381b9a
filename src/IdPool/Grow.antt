-- ===== src/IdPool/Grow.antt =====
-- `expand`: a larger pool with the same numbers handed out.
use luck_os.Common.{
  ℕ, ◌+◌, ◌/◌, ◌%◌, ◌^◌, ◌≤◌, ◌<◌, ◌≡◌, ◌≢◌, refl, false, some, List, arith, ◌==◌, length,
}
use luck_os.Bitmap.{Bitmap, AreWords, member}
use luck_os.Bitmap.Resize.{Expands, bitmap_expand-Expands}
use luck_os.Utils.Math.{min}
use luck_os.IdPool.{IdPool, expand}
use luck_os.IdPool.Spec.{IsSized, holds}

-- The pool after `expand`: larger, with the same numbers handed out.
pub record Grown (p p' : IdPool) : Type 0 where
  pub sized : IsSized p'
  pub same_max : p'.max_size ≡ p.max_size
  pub larger : p.size < p'.size
  pub same : (k : ℕ) → holds p' k ≡ holds p k
  pub full : (k : ℕ) → k < p.size → member p'.id_map k ≡ member p.id_map k
  pub free : member p'.id_map p.size ≡ false

unfoldable pub expanded : (p : IdPool) (size : ℕ) (id_map : Bitmap) → IdPool
expanded p size id_map = record p { size = size; id_map = id_map }

expanded-Grown :
    (p : IdPool) (new_size : ℕ) (id_map : Bitmap)
    → IsSized p
    → p.size < new_size
    → new_size ≤ p.max_size
    → new_size % 32 ≡ 0
    → Expands p.id_map new_size id_map
    → Grown p (expanded p new_size id_map)
unfolding holds expanded
expanded-Grown p new_size id_map ok more most aligned e = record {
  sized = record {
    map = e.valid;
    total = e.total;
    size_aligned = aligned;
    expand_aligned = ok.expand_aligned;
    max_aligned = ok.max_aligned;
    grows = ok.grows;
    bounded = most;
    small = ok.small;
  };
  same_max = refl;
  larger = more;
  same = λ k.
      ground (arith, e.members k, e.valid.sized, e.total, ok.map.sized, ok.total, ok.size_aligned);
  full = λ k h.
      ground (arith, e.members k, e.valid.sized, e.total, ok.map.sized, ok.total, ok.size_aligned);
  free =
      ground
        (arith, e.members p.size, e.valid.sized, e.total, ok.map.sized, ok.total, ok.size_aligned);
}

pub expand-Grown :
    (block : List ℕ) (residue : ℕ) (p : IdPool)
    → IsSized p
    → AreWords block
    → (p.size + p.expand_size) / 32 ≤ length block
    → p.size ≢ p.max_size
    → (id_map : Bitmap) × (size : ℕ) × (expand block residue p
        ≡ some (residue, expanded p size id_map))
      × Grown p (expanded p size id_map)
unfolding expand expanded
expand-Grown block residue p ok words room short =
    let new_size : ℕ = min ((p.size + p.expand_size) % 2 ^ 32) p.max_size in
    let more : p.size < new_size = ground (arith, ok.grows, ok.bounded, ok.small) in
    let most : new_size ≤ p.max_size = ground arith in
    let aligned : new_size % 32 ≡ 0 =
      ground (arith, ok.size_aligned, ok.expand_aligned, ok.max_aligned, ok.bounded, ok.small) in
    let reach : new_size ≤ p.size + p.expand_size = ground (arith, ok.bounded, ok.small) in
    let other : (new_size == p.size) ≡ false = ground arith in
    let (id_map, run, e) =
      bitmap_expand-Expands p.id_map block new_size ok.map words
        (omega (arith, ok.map.sized, ok.total)) (omega arith) in
    (id_map, new_size, rw (other, run), expanded-Grown p new_size id_map ok more most aligned e)
