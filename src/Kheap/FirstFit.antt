-- ===== src/Kheap/FirstFit.antt =====
-- The search of `find_hole` without alignment.
use luck_os.Common.{
  ℕ, zero, suc, ◌+◌, ◌≤◌, ◌<◌, ◌≡◌, refl, ap, true, false, Option, some, none, arith, leb, ◌>>=◌,
  dec_le, ℕ_discrete, get_or, get_elem?-get_or,
}
use luck_os.OrderedArray.{OrderedArray, ordered_array_get}
use luck_os.OrderedArray.Insert.{IsValid}
use luck_os.Kheap.{Kheap, u32}
use luck_os.Kheap.Bytes.{Memory, read32}
use luck_os.Kheap.Alloc.{hole_fits, find_hole_from, find_hole}

-- The search from entry `i` on finds nothing, or the first entry whose hole has `size` bytes.
pub record IsNoFit (m : Memory) (o : OrderedArray) (size i : ℕ) : Type 0 where
  pub too_small : (j : ℕ) → i ≤ j → j < o.size → read32 m (get_or o.array j 0 + 5) < size

pub record IsFirstFit (m : Memory) (o : OrderedArray) (size i k pos : ℕ) : Type 0 where
  pub from : i ≤ k
  pub below : k < o.size
  pub before : (j : ℕ) → i ≤ j → j < k → read32 m (get_or o.array j 0 + 5) < size
  pub fits : size ≤ read32 m (get_or o.array k 0 + 5)
  pub position : pos ≡ u32 (get_or o.array k 0 + 9)

abbrev pub Finds : Memory → OrderedArray → ℕ → ℕ → Option (ℕ × ℕ) → Type 0
Finds m o size i none = IsNoFit m o size i
Finds m o size i (some (k, pos)) = IsFirstFit m o size i k pos

from_later :
    (m : Memory) (o : OrderedArray) (size i : ℕ) (found : Option (ℕ × ℕ))
    → read32 m (get_or o.array i 0 + 5) < size
    → Finds m o size (suc i) found
    → Finds m o size i found
from_later m o size i none small rest = record {
  too_small = λ j lo hi. elim (ℕ_discrete i j) [
    | yes e ↦ omega (arith, small, ap (λ (t : ℕ). read32 m (get_or o.array t 0 + 5)) e)
    | no ne ↦ rest.too_small j (ground arith) hi
  ];
}
from_later m o size i (some (k, pos)) small rest = record {
  from = omega (arith, rest.from);
  below = rest.below;
  before = λ j lo hi. elim (ℕ_discrete i j) [
    | yes e ↦ omega (arith, small, ap (λ (t : ℕ). read32 m (get_or o.array t 0 + 5)) e)
    | no ne ↦ rest.before j (ground arith) hi
  ];
  fits = rest.fits;
  position = rest.position;
}

pub get-entry :
    (o : OrderedArray) (i : ℕ)
    → IsValid o
    → i < o.size
    → ordered_array_get o i ≡ some (get_or o.array i 0)
unfolding ordered_array_get
get-entry o i ok less =
    let test : leb o.size i ≡ false = ground arith in
    rw test (get_elem?-get_or o.array i 0 (omega (arith, ok.bounded, ok.room)))

find_hole_from-Finds :
    (rounds : ℕ) (m : Memory) (o : OrderedArray) (size i : ℕ)
    → IsValid o
    → i + rounds ≡ o.size
    → (found : Option (ℕ × ℕ)) × (find_hole_from m o size false rounds i ≡ some found)
      × Finds m o size i found
unfolding find_hole_from hole_fits
find_hole_from-Finds zero m o size i ok e =
    (none, refl, record { too_small = λ j lo hi. absurd (omega arith) })
find_hole_from-Finds (suc rounds) m o size i ok e =
    let entry = get-entry o i ok (omega arith) in
    let (found, run, finds) = find_hole_from-Finds rounds m o size (suc i) ok (omega arith) in
    elim (dec_le size (read32 m (get_or o.array i 0 + 5))) [
      | yes fits ↦
          let test : leb size (read32 m (get_or o.array i 0 + 5)) ≡ true = ground arith in
          (
            some (i, u32 (get_or o.array i 0 + 9)),
            rw (entry, ◌>>=◌, test) refl,
            record {
              from = omega arith;
              below = omega arith;
              before = λ j lo hi. absurd (omega arith);
              fits = fits;
              position = refl;
            },
          )
      | no small ↦
          let test : leb size (read32 m (get_or o.array i 0 + 5)) ≡ false = ground arith in
          (
            found,
            rw (entry, ◌>>=◌, test, run) refl,
            from_later m o size i found (omega (arith, small)) finds,
          )
    ]

-- `find_hole` without alignment ends, with the first fit of the whole index.
pub find_hole-Finds :
    (m : Memory) (h : Kheap) (size : ℕ)
    → IsValid h.index
    → (found : Option (ℕ × ℕ)) × (find_hole m h size false ≡ some found)
      × Finds m h.index size 0 found
unfolding find_hole
find_hole-Finds m h size ok = find_hole_from-Finds h.index.size m h.index size 0 ok (omega arith)
