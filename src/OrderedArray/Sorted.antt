-- ===== src/OrderedArray/Sorted.antt =====
-- Insertion keeps the array sorted, for a comparator that orders its arguments.
use luck_os.Common.{ℕ, ◌<◌, ◌≡◌, true, false, List, [], ◌∷◌, arith, Bool-cases, inl, inr, some}
use luck_os.Common.Int.{ℤ, nonpos}
use luck_os.OrderedArray.{OrderedArray, elements, ordered_array_insert, standard_comparator}
use luck_os.OrderedArray.Insert.{IsValid, insert_ordered, ordered_array_insert-Inserts, Inserts}
use mathlib.Core.List.{Perm}
use mathlib.Core.List.Perm

-- The comparator is a total preorder, read through its test `<= 0`.
pub record IsOrder (comparator : ℕ → ℕ → ℤ) : Type 0 where
  pub total : (a b : ℕ) → nonpos (comparator a b) ≡ false → nonpos (comparator b a) ≡ true
  pub trans :
      (a b c : ℕ)
      → nonpos (comparator a b) ≡ true
      → nonpos (comparator b c) ≡ true
      → nonpos (comparator a c) ≡ true

pub standard_comparator-IsOrder : IsOrder standard_comparator
unfolding standard_comparator
standard_comparator-IsOrder = record {
  total = λ a b h. ground arith;
  trans = λ a b c h k. ground arith;
}

module _ (comparator : ℕ → ℕ → ℤ) where
  -- `x` is at most each of the list.
  abbrev pub IsLeast : ℕ → List ℕ → Type 0
  IsLeast x [] = Unit
  IsLeast x (y ∷ ys) = (nonpos (comparator x y) ≡ true) × IsLeast x ys

  abbrev pub IsSorted : List ℕ → Type 0
  IsSorted [] = Unit
  IsSorted (x ∷ xs) = IsLeast x xs × IsSorted xs

  IsLeast-insert :
      (x item : ℕ) (xs : List ℕ)
      → nonpos (comparator x item) ≡ true
      → IsLeast x xs
      → IsLeast x (insert_ordered comparator item xs)
  unfolding insert_ordered
  IsLeast-insert x item [] h k = (h, tt)
  IsLeast-insert x item (y ∷ ys) h k = elim (Bool-cases (nonpos (comparator y item))) [
    | inl on ↦ rw on (k.0, IsLeast-insert x item ys h k.1)
    | inr here ↦ rw here (h, k)
  ]

  IsLeast-below :
      (x y : ℕ) (xs : List ℕ)
      → IsOrder comparator
      → nonpos (comparator x y) ≡ true
      → IsLeast y xs
      → IsLeast x xs
  IsLeast-below x y [] ord h k = tt
  IsLeast-below x y (z ∷ zs) ord h k = (ord.trans x y z h k.0, IsLeast-below x y zs ord h k.1)

  insert_ordered-IsSorted :
      (item : ℕ) (xs : List ℕ)
      → IsOrder comparator
      → IsSorted xs
      → IsSorted (insert_ordered comparator item xs)
  unfolding insert_ordered
  insert_ordered-IsSorted item [] ord s = (tt, tt)
  insert_ordered-IsSorted item (x ∷ xs) ord s = elim (Bool-cases (nonpos (comparator x item))) [
    | inl on ↦ rw on (IsLeast-insert x item xs on s.0, insert_ordered-IsSorted item xs ord s.1)
    | inr here ↦
        let below = ord.total x item here in
        rw here ((below, IsLeast-below item x xs ord below s.0), s)
  ]

  insert_ordered-perm :
      (item : ℕ) (xs : List ℕ) → Perm (insert_ordered comparator item xs) (item ∷ xs)
  unfolding insert_ordered
  insert_ordered-perm item [] = Perm.refl _
  insert_ordered-perm item (x ∷ xs) = elim (Bool-cases (nonpos (comparator x item))) [
    | inl on ↦ rw on (Perm.trans (Perm.cons x (insert_ordered-perm item xs)) (Perm.swap item x xs))
    | inr here ↦ rw here (Perm.refl _)
  ]

IsSorted-of_Inserts :
    (o : OrderedArray) (item : ℕ) (out : ℕ × OrderedArray)
    → o.size < o.max_size
    → IsOrder o.comparator
    → IsSorted o.comparator (elements o)
    → Inserts o item out
    → (out.0 ≡ 1)
      × IsSorted o.comparator (elements out.1)
      × Perm (elements out.1) (item ∷ elements o)
IsSorted-of_Inserts o item out less ord sorted (inl (full, zero_result, same)) =
    absurd (omega arith)
IsSorted-of_Inserts o item out less ord sorted (inr (room, one, b)) = (
  one,
  rw b.holds (insert_ordered-IsSorted o.comparator item (elements o) ord sorted),
  rw b.holds (insert_ordered-perm o.comparator item (elements o)),
)

-- For a comparator that orders its arguments, in a valid array with room left, `ordered_array_insert`
-- returns 1 and adds exactly the item, and a sorted array stays sorted.
pub ordered_array_insert-IsSorted :
    (o : OrderedArray) (item : ℕ)
    → IsValid o
    → o.size < o.max_size
    → IsOrder o.comparator
    → IsSorted o.comparator (elements o)
    → (out : ℕ × OrderedArray) × (ordered_array_insert o item ≡ some out)
      × (out.0 ≡ 1)
      × IsSorted o.comparator (elements out.1)
      × Perm (elements out.1) (item ∷ elements o)
ordered_array_insert-IsSorted o item ok less ord sorted =
    let (out, run, inserts) = ordered_array_insert-Inserts o item ok in
    let (one, in_order, added) = IsSorted-of_Inserts o item out less ord sorted inserts in
    (out, run, one, in_order, added)
