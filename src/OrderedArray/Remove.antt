-- ===== src/OrderedArray/Remove.antt =====
-- Removal by index and by element, and the search, against lists.
use luck_os.Common.{
  inr, inl, dec_lt, ◌⊎◌, ℕ, zero, suc, ◌+◌, ◌-◌, ◌≤◌, ◌<◌, ◌≡◌, ◌≢◌, refl, sym, ap, Bool, true,
  false, some, List, [], ◌∷◌, arith, ◌==◌, leb, ltb, if◌then◌else◌, ◌>>=◌, length, get_or, list_ext,
  ℕ_discrete, subst,
}
use luck_os.OrderedArray.{
  OrderedArray, elements, shift_down, ordered_array_remove, ordered_array_find_element,
  ordered_array_remove_element,
}
use luck_os.OrderedArray.Memory.{Reads, moved_down, shift_down-Reads, IsFirst, find_from-IsFirst}
use luck_os.OrderedArray.Insert.{IsValid, Becomes, get_or-elements, length-elements}

unfoldable pub erase_at : ℕ → List ℕ → List ℕ
erase_at i [] = []
erase_at zero (x ∷ xs) = xs
erase_at (suc i) (x ∷ xs) = x ∷ erase_at i xs

unfoldable pub erase_first : ℕ → List ℕ → List ℕ
erase_first ele [] = []
erase_first ele (x ∷ xs) = if x == ele then xs else x ∷ erase_first ele xs

unfoldable pub has : ℕ → List ℕ → Bool
has ele [] = false
has ele (x ∷ xs) = if x == ele then true else has ele xs

pub length-erase_at : (i : ℕ) (xs : List ℕ) → i < length xs → length (erase_at i xs) + 1 ≡ length xs
unfolding erase_at
length-erase_at i [] h = absurd (omega arith)
length-erase_at zero (x ∷ xs) h = omega arith
length-erase_at (suc i) (x ∷ xs) h = omega (arith, length-erase_at i xs (omega arith))

get_or-erase_at :
    (i : ℕ) (xs : List ℕ) (j : ℕ)
    → get_or (erase_at i xs) j 0 ≡ (if ltb j i then get_or xs j 0 else get_or xs (j + 1) 0)
unfolding erase_at
get_or-erase_at i [] j = ground arith
get_or-erase_at zero (x ∷ xs) j = let e : j + 1 ≡ suc j = omega arith in rw e (ground arith)
get_or-erase_at (suc i) (x ∷ xs) zero = ground arith
get_or-erase_at (suc i) (x ∷ xs) (suc j) =
    let e : suc j + 1 ≡ suc (j + 1) = omega arith in rw e (ground (arith, get_or-erase_at i xs j))

removed : OrderedArray → List ℕ → OrderedArray
removed o array = record o { array = array; size = o.size - 1 }

removed-Becomes :
    (o : OrderedArray) (i : ℕ) (array : List ℕ)
    → IsValid o
    → i < o.size
    → Reads (moved_down i (o.size - 1) o.array) o.array array
    → Becomes o (erase_at i (elements o)) (removed o array)
unfolding removed
removed-Becomes o i array ok h reads =
    let o' : OrderedArray = removed o array in
    let valid : IsValid o' = record {
      bounded = omega (arith, ok.bounded);
      room = omega (arith, ok.room, reads.size);
    } in
    let size = length-erase_at i (elements o) (omega (arith, length-elements o ok)) in
    record {
      valid = valid;
      max_size = refl;
      comparator = refl;
      holds =
          list_ext (elements o') (erase_at i (elements o))
            (omega (arith, length-elements o' valid, length-elements o ok, size))
            (λ j k. ground (
              arith,
              get_or-elements o' j,
              reads.entries j,
              get_or-erase_at i (elements o) j,
              get_or-elements o j,
              get_or-elements o (j + 1),
              length-elements o' valid,
            ));
      size = omega (arith, length-elements o ok, size);
    }

-- The shift below `size` closes the gap at `i`.
close_gap :
    (o : OrderedArray) (i : ℕ)
    → IsValid o
    → i < o.size
    → (array : List ℕ) × (shift_down (o.size - 1 - i) i o.array ≡ some array)
      × Becomes o (erase_at i (elements o)) (removed o array)
close_gap o i ok h =
    let (array, run, reads) =
      shift_down-Reads (o.size - 1 - i) i o.array (omega (arith, ok.bounded, ok.room)) in
    let hi : i + (o.size - 1 - i) ≡ o.size - 1 = omega arith in
    let reads' = subst (λ (t : ℕ). Reads (moved_down i t o.array) o.array array) hi reads in
    (array, run, removed-Becomes o i array ok h reads')

-- The result of a removal at `i`, and the array after it.
abbrev Removes : OrderedArray → ℕ → ℕ × OrderedArray → Type 0
Removes o i (result, o') =
    ((o.size ≤ i) × (result ≡ 0) × (o' ≡ o))
    ⊎ ((i < o.size) × (result ≡ 1) × Becomes o (erase_at i (elements o)) o')

-- In a valid array `ordered_array_remove` takes out the element at `i` and returns 1, or it returns 0
-- and changes nothing if there is none.
pub ordered_array_remove-Removes :
    (o : OrderedArray) (i : ℕ)
    → IsValid o
    → (out : ℕ × OrderedArray) × (ordered_array_remove o i ≡ some out) × Removes o i out
unfolding ordered_array_remove removed
ordered_array_remove-Removes o i ok = elim (dec_lt i o.size) [
  | no h ↦
      let test : leb o.size i ≡ true = ground arith in
      ((0, o), rw test, inl (omega arith, refl, refl))
  | yes h ↦
      let test : leb o.size i ≡ false = ground arith in
      let (array, run, b) = close_gap o i ok h in
      ((1, removed o array), rw (test, run), inr (h, refl, b))
]

erase_first-at :
    (ele : ℕ) (xs : List ℕ) (k : ℕ)
    → IsFirst ele 0 (length xs) xs k
    → k < length xs
    → (erase_first ele xs ≡ erase_at k xs) × (has ele xs ≡ true)
unfolding erase_first erase_at has
erase_first-at ele [] k first h = absurd (omega arith)
erase_first-at ele (x ∷ xs) zero first h =
    let e = first.at h in let test : (x == ele) ≡ true = ground arith in rw test (refl, refl)
erase_first-at ele (x ∷ xs) (suc k) first h =
    let ne : x ≢ ele = first.before 0 (omega arith) (omega arith) in
    let test : (x == ele) ≡ false = ground arith in
    let (same, there) =
      erase_first-at ele xs k
        (record {
          above = omega arith;
          below = omega arith;
          before = λ j p q. first.before (suc j) (omega arith) (omega arith);
          at = λ p. first.at (omega arith);
        })
        (omega arith) in
    rw test (ap (λ (t : List ℕ). x ∷ t) same, there)

erase_first-absent :
    (ele : ℕ) (xs : List ℕ)
    → ((j : ℕ) → j < length xs → get_or xs j 0 ≢ ele)
    → (erase_first ele xs ≡ xs) × (has ele xs ≡ false)
unfolding erase_first has
erase_first-absent ele [] no_one = (refl, refl)
erase_first-absent ele (x ∷ xs) no_one =
    let ne : x ≢ ele = no_one 0 (omega arith) in
    let test : (x == ele) ≡ false = ground arith in
    let (same, gone) = erase_first-absent ele xs (λ j h. no_one (suc j) (omega arith)) in
    rw test (ap (λ (t : List ℕ). x ∷ t) same, gone)

elements-IsFirst :
    (o : OrderedArray) (ele k : ℕ)
    → IsValid o
    → IsFirst ele 0 o.size o.array k
    → IsFirst ele 0 (length (elements o)) (elements o) k
elements-IsFirst o ele k ok first = record {
  above = first.above;
  below = omega (arith, first.below, length-elements o ok);
  before = λ j p q. ground (arith, first.before j p q, get_or-elements o j, first.below);
  at = λ p. ground (
    arith,
    first.at (omega (arith, length-elements o ok)),
    get_or-elements o k,
    length-elements o ok,
  );
}

-- In a valid array `ordered_array_find_element` is the first place of the element, or `size` where there is none.
pub ordered_array_find_element-IsFirst :
    (o : OrderedArray) (ele : ℕ)
    → IsValid o
    → (k : ℕ) × (ordered_array_find_element o ele ≡ some k)
      × IsFirst ele 0 (length (elements o)) (elements o) k
unfolding ordered_array_find_element
ordered_array_find_element-IsFirst o ele ok =
    let (k, run, first) =
      find_from-IsFirst ele o.size 0 o.size o.array (omega arith)
        (omega (arith, ok.bounded, ok.room)) in
    (k, run, elements-IsFirst o ele k ok first)

-- In a valid array `ordered_array_remove_element` takes out the first place of the element, and
-- returns 1 exactly when there was one.
pub ordered_array_remove_element-erase_first :
    (o : OrderedArray) (ele : ℕ)
    → IsValid o
    → (o' : OrderedArray) × (ordered_array_remove_element o ele
        ≡ some ((if has ele (elements o) then 1 else 0), o'))
      × Becomes o (erase_first ele (elements o)) o'
unfolding ordered_array_remove_element removed
ordered_array_remove_element-erase_first o ele ok =
    let (k, run, first) =
      find_from-IsFirst ele o.size 0 o.size o.array (omega arith)
        (omega (arith, ok.bounded, ok.room)) in
    let first' = elements-IsFirst o ele k ok first in
    let size = length-elements o ok in
    elim (ℕ_discrete k o.size) [
      | yes last ↦
          let test : (k == o.size) ≡ true = ground arith in
          let (same, gone) =
            erase_first-absent ele (elements o)
              (λ j h. first'.before j (omega arith) (omega arith)) in
          (
            o,
            rw (run, ◌>>=◌, test, gone),
            record {
              valid = ok;
              max_size = refl;
              comparator = refl;
              holds = sym same;
              size = omega (arith, size, ap length same);
            },
          )
      | no inside ↦
          let test : (k == o.size) ≡ false = ground arith in
          let h : k < o.size = omega (arith, first.below) in
          let (array, run', b) = close_gap o k ok h in
          let (same, there) = erase_first-at ele (elements o) k first' (omega arith) in
          (removed o array, rw (run, ◌>>=◌, test, run', there), rw same b)
    ]
