-- ===== src/Kheap/Take.antt =====
-- A hole of the index is one of the blocks, and leaves the index.
use luck_os.Common.{
  ℕ, zero, suc, ◌+◌, ◌<◌, ◌≡◌, refl, sym, ap, ◌∙◌, Bool, true, some, List, [], ◌∷◌, ◌++◌, arith,
  if◌then◌else◌, inl, inr, dec_le, Bool-cases, length, get_or,
}
use luck_os.OrderedArray.{OrderedArray, elements, ordered_array_remove}
use luck_os.OrderedArray.Insert.{IsValid, length-elements}
use luck_os.OrderedArray.Remove.{length-erase_at, erase_at, ordered_array_remove-Removes}
use luck_os.Kheap.{Kheap}
use luck_os.Kheap.Bytes.{Memory}
use luck_os.Kheap.Blocks.{Block}
use luck_os.Kheap.Index.{one_at, count, SameFrame}
use luck_os.Kheap.Tiling.{span, hole_count, Tiles-split, span-append, hole_count-append}
use luck_os.Kheap.Heap.{IsHeap, IsOpen}
use luck_os.Kheap.Merge.{counted}

count-get : (xs : List ℕ) (i : ℕ) → i < length xs → 0 < count (get_or xs i 0) xs
unfolding count
count-get [] i h = absurd (omega arith)
count-get (x ∷ xs) zero h = let one : one_at x x ≡ 1 = ground arith in omega arith
count-get (x ∷ xs) (suc i) h = omega (arith, count-get xs i (omega arith))

count-erase_at :
    (x : ℕ) (xs : List ℕ) (i : ℕ)
    → i < length xs
    → count x xs ≡ one_at x (get_or xs i 0) + count x (erase_at i xs)
unfolding count erase_at
count-erase_at x [] i h = absurd (omega arith)
count-erase_at x (y ∷ ys) zero h = refl
count-erase_at x (y ∷ ys) (suc i) h = omega (arith, count-erase_at x ys i (omega arith))

-- A hole with its header at `x` is one of the blocks from `a` on.
pub record HoleAt (x a : ℕ) (bs : List Block) : Type 0 where
  pub before : List Block
  pub block : Block
  pub behind : List Block
  pub parts : bs ≡ before ++ (block ∷ behind)
  pub place : x ≡ a + span before
  pub hole : block.hole ≡ true

HoleAt-of_rest :
    (x a : ℕ) (b : Block) (bs : List Block) → HoleAt x (a + (17 + b.size)) bs → HoleAt x a (b ∷ bs)
unfolding span
HoleAt-of_rest x a b bs rest = record {
  before = b ∷ rest.before;
  block = rest.block;
  behind = rest.behind;
  parts = ap (λ (t : List Block). b ∷ t) rest.parts;
  place = omega (arith, rest.place);
  hole = rest.hole;
}

HoleAt-of_count : (x a : ℕ) (bs : List Block) → 0 < hole_count x a bs → HoleAt x a bs
unfolding hole_count span
HoleAt-of_count x a [] h = absurd (omega arith)
HoleAt-of_count x a (b ∷ bs) h = elim (dec_le 1 (hole_count x (a + (17 + b.size)) bs)) [
  | yes later ↦ HoleAt-of_rest x a b bs (HoleAt-of_count x (a + (17 + b.size)) bs later)
  | no here ↦ elim (Bool-cases b.hole) [
    | inr used ↦
        let none_here : (if b.hole then one_at x a else 0) ≡ 0 =
          ap (λ (t : Bool). if t then one_at x a else 0) used in
        absurd (omega (arith, none_here, here, h))
    | inl hole ↦
        let e : x ≡ a = ground (arith, counted hole x a, here, h) in
        record {
          before = [];
          block = b;
          behind = bs;
          parts = refl;
          place = omega (arith, e);
          hole = hole;
        }
  ]
]

-- A hole that leaves the index is an open place.
pub IsOpen-of_hole :
    (m : Memory) (h h' : Kheap) (xs : List Block) (b : Block) (ys : List Block)
    → b.hole ≡ true
    → IsHeap m h (xs ++ (b ∷ ys))
    → SameFrame h h'
    → ((x : ℕ)
        → count x (elements h.index)
          ≡ one_at x (h.start_address + span xs) + count x (elements h'.index))
    → IsOpen m h' xs b ys
unfolding span hole_count
IsOpen-of_hole m h h' xs b ys hole ok same counts =
    let (left, right) = Tiles-split m h.start_address xs (b ∷ ys) ok.tiles in
    record {
      framed = record {
        above = rw same.start_address (ok.framed.above);
        ordered = rw (same.start_address, same.end_address) (ok.framed.ordered);
        below = rw same.end_address (ok.framed.below);
        index = same.valid;
        nothing_before = rw same.start_address (ok.framed.nothing_before);
        nothing_after = rw same.end_address (ok.framed.nothing_after);
      };
      left = rw same.start_address left;
      mid = rw same.start_address (right.0);
      right = rw same.start_address (right.1);
      ends = omega (arith, ok.ends, span-append xs (b ∷ ys), same.start_address, same.end_address);
      counts = λ x. rw same.start_address (
          omega (
            arith,
            ok.counts x,
            counts x,
            hole_count-append x h.start_address xs (b ∷ ys),
            counted hole x (h.start_address + span xs),
          ));
    }

-- Entry `k` of the index is a hole among the blocks.
pub entry-HoleAt :
    (m : Memory) (h : Kheap) (bs : List Block) (k : ℕ)
    → IsHeap m h bs
    → k < h.index.size
    → HoleAt (get_or (elements h.index) k 0) h.start_address bs
entry-HoleAt m h bs k ok less =
    let x = get_or (elements h.index) k 0 in
    HoleAt-of_count x h.start_address bs (
      omega (
        arith,
        ok.counts x,
        count-get (elements h.index) k (omega (arith, length-elements h.index ok.framed.index)),
      ))

pub removes :
    (m : Memory) (h : Kheap) (k : ℕ)
    → IsValid h.index
    → k < h.index.size
    → (index : OrderedArray) × (ordered_array_remove h.index k ≡ some (1, index))
      × SameFrame h (record h { index = index })
      × (index.size < index.max_size)
      × ((x : ℕ)
          → count x (elements h.index)
            ≡ one_at x (get_or (elements h.index) k 0) + count x (elements index))
removes m h k ok less =
    let ((result, index), run, outcome) = ordered_array_remove-Removes h.index k ok in
    elim outcome [
      | inl (beyond, zero_result, same) ↦ absurd (omega arith)
      | inr (inside, one, b) ↦ (
        index,
        run ∙ ap (λ (t : ℕ). some (t, index)) one,
        record {
          start_address = refl;
          end_address = refl;
          size = refl;
          max_address = refl;
          valid = b.valid;
          room = b.max_size;
        },
        omega (
          arith,
          b.size,
          b.max_size,
          length-erase_at k (elements h.index) (omega (arith, length-elements h.index ok)),
          length-elements h.index ok,
          ok.bounded,
        ),
        λ x.
            count-erase_at x (elements h.index) k (omega (arith, length-elements h.index ok))
            ∙ ap (λ (t : List ℕ). one_at x (get_or (elements h.index) k 0) + count x t)
                (sym b.holds),
      )
    ]
