-- ===== src/OrderedArray.antt =====
-- src/utils/ordered_array.c and ordered_array.h: an array in the order of a comparator, in memory
-- that the caller gives. A `type_t` is a number. An access outside the memory is a fault, `none`.
pub mod Memory
pub mod Insert
pub mod Sorted
pub mod Remove
mod Tests
use luck_os.Common.{
  ℕ, zero, suc, ◌+◌, ◌-◌, Bool, true, false, Option, none, some, List, ◌==◌, leb, ltb,
  if◌then◌else◌, ◌>>=◌, get_elem?, get_or, set?, take,
}
use luck_os.Common.Int.{ℤ, pos, negsuc, nonpos}

pub standard_comparator : ℕ → ℕ → ℤ
standard_comparator a b = if ltb a b then negsuc 0 else if a == b then pos 0 else pos 1

pub record OrderedArray : Type 0 where
  pub array : List ℕ
  pub size : ℕ
  pub max_size : ℕ
  pub comparator : ℕ → ℕ → ℤ

unfoldable pub ordered_array_create : List ℕ → ℕ → (ℕ → ℕ → ℤ) → OrderedArray
ordered_array_create array max_size comparator = record {
  array = array;
  size = 0;
  max_size = max_size;
  comparator = comparator;
}

-- `while (iterator < size && comparator(array[iterator], item) <= 0) iterator++;`, with `rounds` for
-- `size - iterator`.
pub find_slot : (ℕ → ℕ → ℤ) → ℕ → ℕ → ℕ → List ℕ → Option ℕ
find_slot comparator item zero iterator array = some iterator
find_slot comparator item (suc rounds) iterator array = do
  x ← get_elem? array iterator
  let later = find_slot comparator item rounds (suc iterator) array
  if nonpos (comparator x item) then later else some iterator

-- `for (; i > iterator; i--) array[i] = array[i - 1];`, with `rounds` for `i - iterator`.
pub shift_up : ℕ → ℕ → List ℕ → Option (List ℕ)
shift_up zero i array = some array
shift_up (suc rounds) i array = do
  x ← get_elem? array (i - 1)
  array' ← set? array i x
  shift_up rounds (i - 1) array'

pub ordered_array_insert : OrderedArray → ℕ → Option (ℕ × OrderedArray)
ordered_array_insert o item =
    if leb o.max_size o.size
    then some (0, o)
    else find_slot o.comparator item o.size 0 o.array >>= λ iterator.
        shift_up (o.size + 1 - 1 - iterator) (o.size + 1 - 1) o.array >>= λ shifted.
        set? shifted iterator item >>= λ array.
        some (1, record o { array = array; size = o.size + 1 })

-- `i >= size` returns 0.
unfoldable pub ordered_array_get : OrderedArray → ℕ → Option ℕ
ordered_array_get o i = if leb o.size i then some 0 else get_elem? o.array i

-- `while (i < size - 1) { array[i] = array[i + 1]; i++; }`, with `rounds` for `size - 1 - i`.
pub shift_down : ℕ → ℕ → List ℕ → Option (List ℕ)
shift_down zero i array = some array
shift_down (suc rounds) i array = do
  x ← get_elem? array (i + 1)
  array' ← set? array i x
  shift_down rounds (i + 1) array'

pub ordered_array_remove : OrderedArray → ℕ → Option (ℕ × OrderedArray)
ordered_array_remove o i =
    if leb o.size i
    then some (0, o)
    else shift_down (o.size - 1 - i) i o.array >>= λ array.
        some (1, record o { array = array; size = o.size - 1 })

-- The search of `ordered_array_find_element`, with `rounds` for `size - i`; `index` is the result
-- when nothing is found.
pub find_from : ℕ → ℕ → ℕ → ℕ → List ℕ → Option ℕ
find_from index ele zero i array = some index
find_from index ele (suc rounds) i array = do
  x ← get_elem? array i
  let later = find_from index ele rounds (suc i) array
  if x == ele then some i else later

pub ordered_array_find_element : OrderedArray → ℕ → Option ℕ
ordered_array_find_element o ele = find_from o.size ele o.size 0 o.array

pub ordered_array_remove_element : OrderedArray → ℕ → Option (ℕ × OrderedArray)
ordered_array_remove_element o ele = find_from o.size ele o.size 0 o.array >>= λ index.
    if index == o.size
    then some (0, o)
    else shift_down (o.size - 1 - index) index o.array >>= λ array.
        some (1, record o { array = array; size = o.size - 1 })

-- The elements in order.
unfoldable pub elements : OrderedArray → List ℕ
elements o = take o.size o.array
