-- ===== src/OrderedArray/Tests.antt =====
-- Runs of ordered_array.c over four places, and the theorems at them.
use luck_os.Common.{ℕ, ◌≡◌, refl, some, [], ◌∷◌, arith, if◌then◌else◌}
use luck_os.OrderedArray.{
  OrderedArray, elements, standard_comparator, find_slot, shift_up, ordered_array_insert,
  ordered_array_remove_element,
}
use luck_os.OrderedArray.Insert.{IsValid, Becomes, Inserts, ordered_array_insert-Inserts}
use luck_os.OrderedArray.Sorted.{
  IsSorted, standard_comparator-IsOrder, ordered_array_insert-IsSorted,
}
use luck_os.OrderedArray.Remove.{erase_first, has, ordered_array_remove_element-erase_first}
use mathlib.Core.List.{Perm}

abbrev sample : OrderedArray
sample = record {
  array = 3 ∷ 5 ∷ 5 ∷ 0 ∷ [];
  size = 3;
  max_size = 4;
  comparator = standard_comparator;
}

sample-IsValid : IsValid sample
sample-IsValid = record { bounded = omega arith; room = omega arith }

inserts :
    ordered_array_insert sample 4 ≡ some (1, record sample { array = 3 ∷ 4 ∷ 5 ∷ 5 ∷ []; size = 4 })
unfolding ordered_array_insert find_slot shift_up standard_comparator
inserts = refl

sample-IsSorted : IsSorted standard_comparator (elements sample)
unfolding elements standard_comparator
sample-IsSorted = ((refl, (refl, tt)), ((refl, tt), (tt, tt)))

ordered_array_insert-Inserts_example :
    (out : ℕ × OrderedArray) × (ordered_array_insert sample 4 ≡ some out) × Inserts sample 4 out
ordered_array_insert-Inserts_example = ordered_array_insert-Inserts sample 4 sample-IsValid

ordered_array_insert-IsSorted_example :
    (out : ℕ × OrderedArray) × (ordered_array_insert sample 4 ≡ some out)
    × (out.0 ≡ 1)
    × IsSorted standard_comparator (elements out.1)
    × Perm (elements out.1) (4 ∷ elements sample)
ordered_array_insert-IsSorted_example =
    ordered_array_insert-IsSorted sample 4 sample-IsValid (omega arith) standard_comparator-IsOrder
      sample-IsSorted

ordered_array_remove_element-erase_first_example :
    (o' : OrderedArray) × (ordered_array_remove_element sample 5
      ≡ some ((if has 5 (elements sample) then 1 else 0), o'))
    × Becomes sample (erase_first 5 (elements sample)) o'
ordered_array_remove_element-erase_first_example =
    ordered_array_remove_element-erase_first sample 5 sample-IsValid
