-- ===== src/Kheap/Validate.antt =====
-- `kheap_validate_print` against the list of the blocks.
use luck_os.Common.{
  ℕ, zero, suc, ◌+◌, ◌^◌, ◌<◌, ◌≡◌, refl, sym, ap, ◌∙◌, true, false, some, List, [], ◌∷◌, arith,
  ◌==◌, ltb, leb, if◌then◌else◌, ◌>>=◌, subst, inl, inr, Bool-cases, length, get_or,
}
use luck_os.OrderedArray.{OrderedArray, elements, ordered_array_find_element}
use luck_os.OrderedArray.Insert.{IsValid, length-elements}
use luck_os.OrderedArray.Remove.{erase_first, ordered_array_find_element-IsFirst}
use luck_os.Kheap.{Kheap, u32}
use luck_os.Kheap.Bytes.{Memory}
use luck_os.Kheap.Blocks.{Block, to_nat}
use luck_os.Kheap.Index.{one_at, count, count-erase_first}
use luck_os.Kheap.Tiling.{span, Tiles, hole_count}
use luck_os.Kheap.Merge.{counted}
use luck_os.Kheap.Heap.{IsHeap}
use luck_os.Kheap.Free.{validate_from, kheap_validate_print}

holes : List Block → ℕ
holes [] = 0
holes (b ∷ bs) = if b.hole then suc (holes bs) else holes bs

pub in_use : List Block → ℕ
in_use [] = 0
in_use (b ∷ bs) = if b.hole then in_use bs else suc (in_use bs)

pub count-get_or :
    (x : ℕ) (xs : List ℕ) → 0 < count x xs → (j : ℕ) × (j < length xs) × (get_or xs j 0 ≡ x)
unfolding count
count-get_or x [] h = absurd (omega arith)
count-get_or x (y ∷ ys) h = elim (Bool-cases (x == y)) [
  | inl same ↦ (0, omega arith, ground arith)
  | inr other ↦ let (j, less, e) = count-get_or x ys (ground arith) in (suc j, omega arith, e)
]

-- What is counted in the elements is found below `size`.
find_element-counted :
    (o : OrderedArray) (x : ℕ)
    → IsValid o
    → 0 < count x (elements o)
    → (i : ℕ) × (ordered_array_find_element o x ≡ some i) × (i < o.size)
find_element-counted o x ok there =
    let (i, run, first) = ordered_array_find_element-IsFirst o x ok in
    let (j, less, e) = count-get_or x (elements o) there in
    (i, run, ground (arith, first.before j, first.below, length-elements o ok, e, less))

hole_count-here :
    (x a : ℕ) (b : Block) (bs : List Block)
    → b.hole ≡ true
    → hole_count x a (b ∷ bs) ≡ one_at x a + hole_count x (a + (17 + b.size)) bs
unfolding hole_count
hole_count-here x a b bs hole = omega (arith, counted hole x a)

hole_count-skip :
    (x a : ℕ) (b : Block) (bs : List Block)
    → b.hole ≡ false
    → hole_count x a (b ∷ bs) ≡ hole_count x (a + (17 + b.size)) bs
unfolding hole_count
hole_count-skip x a b bs used = rw used (omega arith)

count-cons : (x y : ℕ) (ys : List ℕ) → count x (y ∷ ys) ≡ one_at x y + count x ys
unfolding count
count-cons x y ys = refl

hole_count-none : (x a : ℕ) → hole_count x a [] ≡ 0
unfolding hole_count
hole_count-none x a = refl

-- With each hole once in a list, the list is as long as there are holes.
length-holes :
    (xs : List ℕ) (a : ℕ) (bs : List Block)
    → ((x : ℕ) → count x xs ≡ hole_count x a bs)
    → length xs ≡ holes bs
unfolding holes
length-holes [] a [] counts = refl
length-holes (x ∷ xs) a [] counts =
    let one : one_at x x ≡ 1 = ground arith in
    absurd (omega (arith, counts x, count-cons x x xs, one, hole_count-none x a))
length-holes xs a (b ∷ bs) counts = elim (Bool-cases b.hole) [
  | inr used ↦
      rw used
        (length-holes xs (a + (17 + b.size)) bs (λ x. counts x ∙ hole_count-skip x a b bs used))
  | inl hole ↦
      let one : one_at a a ≡ 1 = ground arith in
      let there : 0 < count a xs = omega (arith, counts a, hole_count-here a a b bs hole, one) in
      let (found, same, shorter) = count-erase_first a a xs there in
      let rest = length-holes (erase_first a xs) (a + (17 + b.size)) bs (λ x.
        omega
          (arith, counts x, hole_count-here x a b bs hole, (count-erase_first x a xs there).1)) in
      rw hole (shorter ∙ ap (λ (t : ℕ). suc t) rest)
]

abbrev IsIndexed : OrderedArray → ℕ → List Block → Type 0
IsIndexed o a bs =
    (x : ℕ)
    → 0 < hole_count x a bs
    → (i : ℕ) × (ordered_array_find_element o x ≡ some i) × (i < o.size)

validate_from-counts :
    (fuel : ℕ) (m : Memory) (h : Kheap) (a hole_num alloc_num : ℕ) (bs : List Block)
    → span bs < fuel
    → Tiles m a bs
    → h.end_address ≡ a + span bs
    → h.end_address < 2 ^ 32
    → IsIndexed h.index a bs
    → validate_from fuel m h a hole_num alloc_num
      ≡ some (hole_num + holes bs, alloc_num + in_use bs)
unfolding validate_from span holes in_use
validate_from-counts zero m h a hole_num alloc_num bs = λ less. absurd (omega arith)
validate_from-counts (suc fuel) m h a hole_num alloc_num [] = λ less tiles ends small indexed.
    let test : ltb a h.end_address ≡ false = ground arith in
    let e : hole_num + 0 ≡ hole_num = omega arith in
    let e' : alloc_num + 0 ≡ alloc_num = omega arith in rw (test, e, e') refl
validate_from-counts (suc fuel) m h a hole_num alloc_num (b ∷ bs) = λ less tiles ends small indexed.
    let next : u32 (a + (b.size + 17)) ≡ a + (17 + b.size) = omega arith in
    let test : ltb a h.end_address ≡ true = ground arith in
    let test' : leb (a + (17 + b.size)) h.end_address ≡ true = ground arith in
    elim (Bool-cases b.hole) [
      | inl hole ↦
          let flag : m (a + 4) ≡ 1 = tiles.0.flag ∙ ap to_nat hole in
          let one : one_at a a ≡ 1 = ground arith in
          let (i, run, found) = indexed a (omega (arith, hole_count-here a a b bs hole, one)) in
          let test'' : ltb i h.index.size ≡ true = ground arith in
          let rest =
            validate_from-counts fuel m h (a + (17 + b.size)) (hole_num + 1) alloc_num bs
              (omega arith) tiles.1 (omega (arith, ends)) small
              (λ x pos. indexed x (omega (arith, hole_count-here x a b bs hole, pos))) in
          let e : hole_num + 1 + holes bs ≡ hole_num + suc (holes bs) = omega arith in
          rw (test, tiles.0.top_magic, flag, tiles.0.length, next, test', run, ◌>>=◌, test'', hole)
            (subst
              (λ (t : ℕ).
                validate_from fuel m h (a + (17 + b.size)) (hole_num + 1) alloc_num
                ≡ some (t, alloc_num + in_use bs))
              e rest)
      | inr used ↦
          let flag : m (a + 4) ≡ 0 = tiles.0.flag ∙ ap to_nat used in
          let rest =
            validate_from-counts fuel m h (a + (17 + b.size)) hole_num (alloc_num + 1) bs
              (omega arith) tiles.1 (omega (arith, ends)) small
              (λ x pos. indexed x (omega (arith, hole_count-skip x a b bs used, pos))) in
          let e : alloc_num + 1 + in_use bs ≡ alloc_num + suc (in_use bs) = omega arith in
          rw (test, tiles.0.top_magic, flag, tiles.0.length, next, test', used)
            (subst
              (λ (t : ℕ).
                validate_from fuel m h (a + (17 + b.size)) hole_num (alloc_num + 1)
                ≡ some (hole_num + holes bs, t))
              e rest)
    ]

-- On a heap in order, none of the asserts of `kheap_validate_print` fails, and it returns the number of the
-- blocks in use.
pub kheap_validate_print-in_use :
    (m : Memory) (h : Kheap) (bs : List Block)
    → IsHeap m h bs
    → kheap_validate_print m h ≡ some (in_use bs)
unfolding kheap_validate_print
kheap_validate_print-in_use m h bs ok =
    let run =
      validate_from-counts (h.end_address + 1) m h h.start_address 0 0 bs (omega (arith, ok.ends))
        ok.tiles ok.ends ok.framed.below
        (λ x pos.
          find_element-counted h.index x ok.framed.index (omega (arith, ok.counts x, pos))) in
    let size : holes bs ≡ h.index.size =
      sym (length-holes (elements h.index) h.start_address bs ok.counts)
      ∙ length-elements h.index ok.framed.index in
    let e : 0 + holes bs ≡ h.index.size = omega (arith, size) in
    let e' : 0 + in_use bs ≡ in_use bs = omega arith in
    let test : (h.index.size == h.index.size) ≡ true = ground arith in
    rw (run, ◌>>=◌, e, test, e') refl
