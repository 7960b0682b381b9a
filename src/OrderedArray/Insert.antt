-- ===== src/OrderedArray/Insert.antt =====
-- `ordered_array_insert` against insertion into an ordered list.
use luck_os.Common.{
  ℕ, zero, suc, ◌+◌, ◌-◌, ◌≤◌, ◌<◌, ◌≡◌, refl, sym, ap, ◌∙◌, true, false, some, List, [], ◌∷◌,
  arith, ◌==◌, leb, ltb, if◌then◌else◌, ◌>>=◌, length, get_or, set, set?-set, list_ext, get_or-take,
  length-take, length-set, get_or-set, subst, dec_lt, ◌⊎◌, inl, inr,
}
use luck_os.Common.Int.{ℤ, nonpos}
use luck_os.OrderedArray.{OrderedArray, elements, ordered_array_insert}
use luck_os.OrderedArray.Memory.{Reads, moved_up, IsSlot, find_slot-IsSlot, shift_up-Reads}

-- The memory has room for `max_size` elements.
pub record IsValid (o : OrderedArray) : Type 0 where
  pub bounded : o.size ≤ o.max_size
  pub room : o.max_size ≤ length o.array

-- Behind the leading elements that are at most `item`.
unfoldable pub insert_ordered : (ℕ → ℕ → ℤ) → ℕ → List ℕ → List ℕ
insert_ordered comparator item [] = item ∷ []
insert_ordered comparator item (x ∷ xs) =
    if nonpos (comparator x item) then x ∷ insert_ordered comparator item xs else item ∷ x ∷ xs

insert_at : ℕ → ℕ → List ℕ → List ℕ
insert_at zero item xs = item ∷ xs
insert_at (suc k) item [] = item ∷ []
insert_at (suc k) item (x ∷ xs) = x ∷ insert_at k item xs

length-insert_at : (k item : ℕ) (xs : List ℕ) → length (insert_at k item xs) ≡ length xs + 1
unfolding insert_at
length-insert_at zero item xs = omega arith
length-insert_at (suc k) item [] = omega arith
length-insert_at (suc k) item (x ∷ xs) = omega (arith, length-insert_at k item xs)

get_or-insert_at :
    (k item : ℕ) (xs : List ℕ) (j : ℕ)
    → k ≤ length xs
    → get_or (insert_at k item xs) j 0
      ≡ (if ltb j k then get_or xs j 0 else if j == k then item else get_or xs (j - 1) 0)
unfolding insert_at
get_or-insert_at zero item xs zero h = ground arith
get_or-insert_at zero item xs (suc j) h = let e : suc j - 1 ≡ j = omega arith in rw e (ground arith)
get_or-insert_at (suc k) item [] j h = absurd (omega arith)
get_or-insert_at (suc k) item (x ∷ xs) zero h = ground arith
get_or-insert_at (suc k) item (x ∷ xs) (suc zero) h =
    ground (arith, get_or-insert_at k item xs 0 (omega arith))
get_or-insert_at (suc k) item (x ∷ xs) (suc (suc j)) h =
    ground (arith, get_or-insert_at k item xs (suc j) (omega arith))

insert_at-slot :
    (comparator : ℕ → ℕ → ℤ) (item : ℕ) (xs : List ℕ) (k : ℕ)
    → IsSlot comparator item 0 (length xs) xs k
    → insert_ordered comparator item xs ≡ insert_at k item xs
unfolding insert_ordered insert_at
insert_at-slot comparator item [] zero slot = refl
insert_at-slot comparator item [] (suc k) slot = refl
insert_at-slot comparator item (x ∷ xs) zero slot = rw (slot.at (omega arith))
insert_at-slot comparator item (x ∷ xs) (suc k) slot =
    rw (slot.before 0 (omega arith) (omega arith)) (
      ap (λ (t : List ℕ). x ∷ t)
        (insert_at-slot comparator item xs k (record {
          above = omega arith;
          below = omega (arith, slot.below);
          before = λ j p q. slot.before (suc j) (omega arith) (omega arith);
          at = λ p. slot.at (omega arith);
        })))

-- The elements are those of the memory below `size`.
pub get_or-elements :
    (o : OrderedArray) (j : ℕ)
    → get_or (elements o) j 0 ≡ (if ltb j o.size then get_or o.array j 0 else 0)
unfolding elements
get_or-elements o j = get_or-take o.size o.array j

pub length-elements : (o : OrderedArray) → IsValid o → length (elements o) ≡ o.size
unfolding elements
length-elements o ok = omega (arith, length-take o.size o.array, ok.bounded, ok.room)

-- The same slot, seen in the elements.
elements-IsSlot :
    (o : OrderedArray) (item k : ℕ)
    → IsValid o
    → IsSlot o.comparator item 0 o.size o.array k
    → IsSlot o.comparator item 0 (length (elements o)) (elements o) k
elements-IsSlot o item k ok slot = record {
  above = slot.above;
  below = omega (arith, slot.below, length-elements o ok);
  before = λ j p q.
      let same : get_or (elements o) j 0 ≡ get_or o.array j 0 =
        ground (arith, get_or-elements o j, slot.below) in
      rw same (slot.before j p q);
  at = λ p.
      let within : k < o.size = omega (arith, length-elements o ok) in
      let same : get_or (elements o) k 0 ≡ get_or o.array k 0 =
        ground (arith, get_or-elements o k) in
      rw same (slot.at within);
}

-- `o'` holds the elements `xs`, in the same memory and order.
pub record Becomes (o : OrderedArray) (xs : List ℕ) (o' : OrderedArray) : Type 0 where
  pub valid : IsValid o'
  pub max_size : o'.max_size ≡ o.max_size
  pub comparator : o'.comparator ≡ o.comparator
  pub holds : elements o' ≡ xs
  pub size : o'.size ≡ length xs

inserted : OrderedArray → List ℕ → OrderedArray
inserted o array = record o { array = array; size = o.size + 1 }

inserted-Becomes :
    (o : OrderedArray) (item k : ℕ) (shifted : List ℕ)
    → IsValid o
    → o.size < o.max_size
    → IsSlot o.comparator item 0 o.size o.array k
    → Reads (moved_up k o.size o.array) o.array shifted
    → Becomes o (insert_ordered o.comparator item (elements o)) (inserted o (set shifted k item))
unfolding inserted
inserted-Becomes o item k shifted ok less slot reads =
    let o' : OrderedArray = inserted o (set shifted k item) in
    let size : length (set shifted k item) ≡ length o.array =
      length-set shifted k item ∙ reads.size in
    let valid : IsValid o' = record { bounded = omega arith; room = omega (arith, ok.room) } in
    let spec : insert_ordered o.comparator item (elements o) ≡ insert_at k item (elements o) =
      insert_at-slot o.comparator item (elements o) k (elements-IsSlot o item k ok slot) in
    let inside : k < length shifted = omega (arith, slot.below, ok.room, reads.size) in
    let count : length (elements o') ≡ length (insert_at k item (elements o)) = omega (
      arith,
      length-elements o' valid,
      length-insert_at k item (elements o),
      length-elements o ok,
    ) in
    record {
      valid = valid;
      max_size = refl;
      comparator = refl;
      holds =
          list_ext (elements o') (insert_at k item (elements o)) count (λ j h. ground (
            arith,
            get_or-elements o' j,
            get_or-set shifted k j item inside,
            reads.entries j,
            get_or-insert_at k item (elements o) j
                (omega (arith, slot.below, length-elements o ok)),
            get_or-elements o j,
            get_or-elements o (j - 1),
            slot.below,
            length-elements o' valid,
          ))
          ∙ sym spec;
      size =
          omega (arith, ap length spec, length-insert_at k item (elements o), length-elements o ok);
    }

-- The result of an insertion, and the array after it.
abbrev pub Inserts : OrderedArray → ℕ → ℕ × OrderedArray → Type 0
Inserts o item (result, o') =
    ((o.size ≡ o.max_size) × (result ≡ 0) × (o' ≡ o))
    ⊎ ((o.size < o.max_size)
        × (result ≡ 1)
        × Becomes o (insert_ordered o.comparator item (elements o)) o')

-- In a valid array with room left, `ordered_array_insert` puts the item behind the elements that are at most it,
-- keeps the rest in order and returns 1. In a full array it returns 0 and changes nothing.
pub ordered_array_insert-Inserts :
    (o : OrderedArray) (item : ℕ)
    → IsValid o
    → (out : ℕ × OrderedArray) × (ordered_array_insert o item ≡ some out) × Inserts o item out
unfolding ordered_array_insert inserted
ordered_array_insert-Inserts o item ok = elim (dec_lt o.size o.max_size) [
  | no full ↦
      let test : leb o.max_size o.size ≡ true = ground arith in
      ((0, o), rw test, inl (omega (arith, ok.bounded), refl, refl))
  | yes less ↦
      let test : leb o.max_size o.size ≡ false = ground arith in
      let (k, run, slot) =
        find_slot-IsSlot o.comparator item o.size 0 o.size o.array (omega arith)
          (omega (arith, ok.room)) in
      let (shifted, run', reads) =
        shift_up-Reads (o.size - k) o.size o.array (omega arith) (omega (arith, ok.room)) in
      let one : o.size + 1 - 1 ≡ o.size = omega arith in
      let back : o.size - (o.size - k) ≡ k = omega (arith, slot.below) in
      let reads' =
        subst (λ (t : ℕ). Reads (moved_up t o.size o.array) o.array shifted) back reads in
      let inside : k < length shifted = omega (arith, slot.below, ok.room, reads.size) in
      (
        (1, inserted o (set shifted k item)),
        rw (test, run, ◌>>=◌, one, run', ◌>>=◌, set?-set shifted k item inside),
        inr (less, refl, inserted-Becomes o item k shifted ok less slot reads'),
      )
]
