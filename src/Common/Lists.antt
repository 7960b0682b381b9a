-- ===== src/Common/Lists.antt =====
-- Lists measured and indexed by native numbers, under the library's names.
use Prim.Native.Nat.{ℕ, zero, suc, ◌+◌, ◌<◌, min}
use mathlib.Core.Path.{◌≡◌, refl, ap}
use mathlib.Core.Logic.{◌≢◌}
use mathlib.Core.List.{List, [], ◌∷◌, ◌++◌}
use mathlib.Core.Option.{Option, none, some}
use native.Mathlib.Omega.{arith}
use native.Mathlib.Decide.{ℕ_discrete}
use luck_os.Common.Tests.{◌==◌, ltb, if◌then◌else◌}

module _ {ℓ} {A : Type ℓ} where
  abbrev pub length : List A → ℕ
  length [] = 0
  length (x ∷ xs) = suc (length xs)

  abbrev pub get_elem? : List A → ℕ → Option A
  get_elem? [] i = none
  get_elem? (x ∷ xs) zero = some x
  get_elem? (x ∷ xs) (suc i) = get_elem? xs i

  abbrev pub get_or : List A → ℕ → A → A
  get_or [] i d = d
  get_or (x ∷ xs) zero d = x
  get_or (x ∷ xs) (suc i) d = get_or xs i d

  -- A write out of bounds changes nothing.
  abbrev pub set : List A → ℕ → A → List A
  set [] i v = []
  set (x ∷ xs) zero v = v ∷ xs
  set (x ∷ xs) (suc i) v = x ∷ set xs i v

  -- A write out of bounds is a fault.
  abbrev pub set? : List A → ℕ → A → Option (List A)
  set? [] i v = none
  set? (x ∷ xs) zero v = some (v ∷ xs)
  set? (x ∷ xs) (suc i) v = elim (set? xs i v) [ none ↦ none | some ys ↦ some (x ∷ ys) ]

  abbrev pub take : ℕ → List A → List A
  take zero xs = []
  take (suc n) [] = []
  take (suc n) (x ∷ xs) = x ∷ take n xs

  abbrev pub drop : ℕ → List A → List A
  drop zero xs = xs
  drop (suc n) [] = []
  drop (suc n) (x ∷ xs) = drop n xs

  abbrev pub replicate : ℕ → A → List A
  replicate zero a = []
  replicate (suc n) a = a ∷ replicate n a

module _ {ℓ} {A : Type ℓ} where
  pub length-append : (xs ys : List A) → length (xs ++ ys) ≡ length xs + length ys
  length-append [] ys = omega arith
  length-append (x ∷ xs) ys = omega (arith, length-append xs ys)

  pub length-set : (xs : List A) (i : ℕ) (v : A) → length (set xs i v) ≡ length xs
  length-set [] i v = refl
  length-set (x ∷ xs) zero v = refl
  length-set (x ∷ xs) (suc i) v = ap suc (length-set xs i v)

  pub length-replicate : (n : ℕ) (a : A) → length (replicate n a) ≡ n
  length-replicate zero a = refl
  length-replicate (suc n) a = ap suc (length-replicate n a)

  pub length-take : (n : ℕ) (xs : List A) → length (take n xs) ≡ min n (length xs)
  length-take zero xs = omega arith
  length-take (suc n) [] = omega arith
  length-take (suc n) (x ∷ xs) = omega (arith, length-take n xs)

  pub get_or-replicate : (n i : ℕ) (a : A) → get_or (replicate n a) i a ≡ a
  get_or-replicate zero i a = refl
  get_or-replicate (suc n) zero a = refl
  get_or-replicate (suc n) (suc i) a = get_or-replicate n i a

  pub get_or-set_self :
      (xs : List A) (i : ℕ) (v d : A) → i < length xs → get_or (set xs i v) i d ≡ v
  get_or-set_self [] i v d h = elim h [ ]
  get_or-set_self (x ∷ xs) zero v d h = refl
  get_or-set_self (x ∷ xs) (suc i) v d h = get_or-set_self xs i v d (omega arith)

  pub get_or-set_ne :
      (xs : List A) (i j : ℕ) (v d : A) → i ≢ j → get_or (set xs i v) j d ≡ get_or xs j d
  get_or-set_ne [] i j v d h = refl
  get_or-set_ne (x ∷ xs) zero zero v d h = absurd (h refl)
  get_or-set_ne (x ∷ xs) zero (suc j) v d h = refl
  get_or-set_ne (x ∷ xs) (suc i) zero v d h = refl
  get_or-set_ne (x ∷ xs) (suc i) (suc j) v d h = get_or-set_ne xs i j v d (λ e. h (ap suc e))

  -- Inside the bounds the checked accesses are the unchecked ones.
  pub get_elem?-get_or :
      (xs : List A) (i : ℕ) (d : A) → i < length xs → get_elem? xs i ≡ some (get_or xs i d)
  get_elem?-get_or [] i d h = elim h [ ]
  get_elem?-get_or (x ∷ xs) zero d h = refl
  get_elem?-get_or (x ∷ xs) (suc i) d h = get_elem?-get_or xs i d (omega arith)

  pub set?-set : (xs : List A) (i : ℕ) (v : A) → i < length xs → set? xs i v ≡ some (set xs i v)
  set?-set [] i v h = elim h [ ]
  set?-set (x ∷ xs) zero v h = refl
  set?-set (x ∷ xs) (suc i) v h =
      ap (λ o. elim o [ none ↦ none | some ys ↦ some (x ∷ ys) ]) (set?-set xs i v (omega arith))

pub get_or-set :
    (words : List ℕ) (i j w : ℕ)
    → i < length words
    → get_or (set words i w) j 0 ≡ (if j == i then w else get_or words j 0)
get_or-set words i j w h = elim (ℕ_discrete i j) [
  | yes e ↦
      ground (arith, get_or-set_self words i w 0 h, ap (λ (t : ℕ). get_or (set words i w) t 0) e)
  | no ne ↦ ground (arith, get_or-set_ne words i j w 0 ne)
]

-- Lists of one length are equal when their entries are.
pub list_ext :
    (xs ys : List ℕ)
    → length xs ≡ length ys
    → ((i : ℕ) → i < length xs → get_or xs i 0 ≡ get_or ys i 0)
    → xs ≡ ys
list_ext [] [] e same = refl
list_ext [] (y ∷ ys) e same = absurd (omega arith)
list_ext (x ∷ xs) [] e same = absurd (omega arith)
list_ext (x ∷ xs) (y ∷ ys) e same =
    let tails : xs ≡ ys = list_ext xs ys (omega arith) (λ i h. same (suc i) (omega arith)) in
    cc (same 0 (omega arith))

pub get_or-take :
    (n : ℕ) (xs : List ℕ) (i : ℕ) → get_or (take n xs) i 0 ≡ (if ltb i n then get_or xs i 0 else 0)
get_or-take zero xs i = ground arith
get_or-take (suc n) [] i = ground arith
get_or-take (suc n) (x ∷ xs) zero = ground arith
get_or-take (suc n) (x ∷ xs) (suc i) = ground (arith, get_or-take n xs i)
