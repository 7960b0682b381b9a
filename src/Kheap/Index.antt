-- ===== src/Kheap/Index.antt =====
-- How often an address stands in the index, under insertion and removal.
use luck_os.Common.{
  ℕ, suc, ◌+◌, ◌<◌, ◌≡◌, refl, sym, ap, ◌∙◌, true, some, List, [], ◌∷◌, arith, ◌==◌, if◌then◌else◌,
  ◌>>=◌, length, Bool-cases, inl, inr,
}
use luck_os.Common.Int.{ℤ, nonpos}
use luck_os.OrderedArray.{OrderedArray, elements}
use luck_os.OrderedArray.Insert.{
  IsValid, insert_ordered, ordered_array_insert-Inserts, length-elements,
}
use luck_os.OrderedArray.Remove.{erase_first, has, ordered_array_remove_element-erase_first}
use luck_os.Kheap.{Kheap, insert_hole, remove_hole, kheap_block_comparator}
use luck_os.Kheap.Bytes.{Memory}

abbrev pub one_at : ℕ → ℕ → ℕ
one_at x y = if x == y then 1 else 0

unfoldable pub count : ℕ → List ℕ → ℕ
count x [] = 0
count x (y ∷ ys) = one_at x y + count x ys

count-insert_ordered :
    (comparator : ℕ → ℕ → ℤ) (x item : ℕ) (xs : List ℕ)
    → count x (insert_ordered comparator item xs) ≡ one_at x item + count x xs
unfolding count insert_ordered
count-insert_ordered comparator x item [] = refl
count-insert_ordered comparator x item (y ∷ ys) = elim (Bool-cases (nonpos (comparator y item))) [
  | inl on ↦ rw on (omega (arith, count-insert_ordered comparator x item ys))
  | inr here ↦ rw here refl
]

length-insert_ordered :
    (comparator : ℕ → ℕ → ℤ) (item : ℕ) (xs : List ℕ)
    → length (insert_ordered comparator item xs) ≡ suc (length xs)
unfolding insert_ordered
length-insert_ordered comparator item [] = refl
length-insert_ordered comparator item (y ∷ ys) = elim (Bool-cases (nonpos (comparator y item))) [
  | inl on ↦ rw on (omega (arith, length-insert_ordered comparator item ys))
  | inr here ↦ rw here refl
]

-- An element that is counted is erased once.
pub count-erase_first :
    (x ele : ℕ) (xs : List ℕ)
    → 0 < count ele xs
    → (has ele xs ≡ true)
      × (count x xs ≡ one_at x ele + count x (erase_first ele xs))
      × (length xs ≡ suc (length (erase_first ele xs)))
unfolding count erase_first has
count-erase_first x ele [] h = absurd (omega arith)
count-erase_first x ele (y ∷ ys) h = elim (Bool-cases (y == ele)) [
  | inl same ↦ let e : y ≡ ele = ground arith in rw same (refl, rw e refl, refl)
  | inr other ↦
      let (found, counts, shorter) = count-erase_first x ele ys (ground arith) in
      rw other (found, omega (arith, counts), omega (arith, shorter))
]

-- The heap `h'` is `h` but for its index.
pub record SameFrame (h h' : Kheap) : Type 0 where
  pub start_address : h'.start_address ≡ h.start_address
  pub end_address : h'.end_address ≡ h.end_address
  pub size : h'.size ≡ h.size
  pub max_address : h'.max_address ≡ h.max_address
  pub valid : IsValid h'.index
  pub room : h'.index.max_size ≡ h.index.max_size

pub SameFrame-trans : (h h' h'' : Kheap) → SameFrame h h' → SameFrame h' h'' → SameFrame h h''
SameFrame-trans h h' h'' one two = record {
  start_address = two.start_address ∙ one.start_address;
  end_address = two.end_address ∙ one.end_address;
  size = two.size ∙ one.size;
  max_address = two.max_address ∙ one.max_address;
  valid = two.valid;
  room = two.room ∙ one.room;
}

pub insert_hole-count :
    (m : Memory) (h : Kheap) (header : ℕ)
    → IsValid h.index
    → h.index.size < h.index.max_size
    → (h' : Kheap) × (insert_hole m h header ≡ some h')
      × SameFrame h h'
      × (h'.index.size ≡ suc h.index.size)
      × ((x : ℕ) → count x (elements h'.index) ≡ one_at x header + count x (elements h.index))
unfolding insert_hole elements
insert_hole-count m h header ok room =
    let o : OrderedArray = record h.index { comparator = kheap_block_comparator m } in
    let ok' : IsValid o = record { bounded = ok.bounded; room = ok.room } in
    let ((result, o'), run, outcome) = ordered_array_insert-Inserts o header ok' in
    elim outcome [
      | inl (full, zero_result, same) ↦ absurd (omega arith)
      | inr (less, one, b) ↦ (
        record h { index = o' },
        rw (run, ◌>>=◌),
        record {
          start_address = refl;
          end_address = refl;
          size = refl;
          max_address = refl;
          valid = b.valid;
          room = b.max_size;
        },
        omega (
          arith,
          b.size,
          length-insert_ordered o.comparator header (elements o),
          length-elements o ok',
        ),
        λ x. ap (count x) b.holds ∙ count-insert_ordered o.comparator x header (elements o),
      )
    ]

pub remove_hole-count :
    (h : Kheap) (header : ℕ)
    → IsValid h.index
    → 0 < count header (elements h.index)
    → (h' : Kheap) × (remove_hole h header ≡ some h')
      × SameFrame h h'
      × (h.index.size ≡ suc h'.index.size)
      × ((x : ℕ) → count x (elements h.index) ≡ one_at x header + count x (elements h'.index))
unfolding remove_hole
remove_hole-count h header ok there =
    let (o', run, b) = ordered_array_remove_element-erase_first h.index header ok in
    let (found, counts, shorter) = count-erase_first 0 header (elements h.index) there in
    (
      record h { index = o' },
      rw (run, ◌>>=◌, found),
      record {
        start_address = refl;
        end_address = refl;
        size = refl;
        max_address = refl;
        valid = b.valid;
        room = b.max_size;
      },
      omega (arith, b.size, shorter, length-elements h.index ok),
      λ x.
          (count-erase_first x header (elements h.index) there).1
          ∙ ap (λ t. one_at x header + count x t) (sym b.holds),
    )
