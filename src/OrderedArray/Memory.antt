-- ===== src/OrderedArray/Memory.antt =====
-- The loops over the memory, entry by entry.
use luck_os.Common.{
  ℕ, zero, suc, ◌+◌, ◌-◌, ◌≤◌, ◌<◌, ◌≡◌, ◌≢◌, refl, sym, ap, ◌∙◌, true, false, some, List, arith,
  ◌==◌, ◌&&◌, leb, ltb, if◌then◌else◌, ◌>>=◌, length, get_or, set, get_elem?-get_or, set?-set,
  length-set, get_or-set, ℕ_discrete, Bool-cases, inl, inr,
}
use luck_os.Common.Int.{ℤ, nonpos}
use luck_os.OrderedArray.{find_slot, shift_up, shift_down, find_from}

-- `xs'` has the entries `f`, in as many places as `xs`.
pub record Reads (f : ℕ → ℕ) (xs xs' : List ℕ) : Type 0 where
  pub size : length xs' ≡ length xs
  pub entries : (j : ℕ) → get_or xs' j 0 ≡ f j

abbrev pub moved_up : ℕ → ℕ → List ℕ → ℕ → ℕ
moved_up lo i xs j = if ltb lo j && leb j i then get_or xs (j - 1) 0 else get_or xs j 0

abbrev pub moved_down : ℕ → ℕ → List ℕ → ℕ → ℕ
moved_down i hi xs j = if leb i j && ltb j hi then get_or xs (j + 1) 0 else get_or xs j 0

pub shift_up-Reads :
    (rounds i : ℕ) (xs : List ℕ)
    → rounds ≤ i
    → i < length xs
    → (xs' : List ℕ) × (shift_up rounds i xs ≡ some xs') × Reads (moved_up (i - rounds) i xs) xs xs'
unfolding shift_up
shift_up-Reads zero i xs h k = (xs, refl, record { size = refl; entries = λ j. ground arith })
shift_up-Reads (suc rounds) i xs h k =
    let x = get_or xs (i - 1) 0 in
    let (xs', run, rest) =
      shift_up-Reads rounds (i - 1) (set xs i x) (omega arith) (omega (arith, length-set xs i x)) in
    (
      xs',
      rw (get_elem?-get_or xs (i - 1) 0 (omega arith), ◌>>=◌, set?-set xs i x k) run,
      record {
        size = rest.size ∙ length-set xs i x;
        entries = λ j. ground (
          arith,
          rest.entries j,
          get_or-set xs i j x k,
          get_or-set xs i (j - 1) x k,
          ap (λ (t : ℕ). get_or xs (t - 1) 0) {x = j} {y = i},
        );
      },
    )

pub shift_down-Reads :
    (rounds i : ℕ) (xs : List ℕ)
    → i + rounds < length xs
    → (xs' : List ℕ) × (shift_down rounds i xs ≡ some xs')
      × Reads (moved_down i (i + rounds) xs) xs xs'
unfolding shift_down
shift_down-Reads zero i xs h = (xs, refl, record { size = refl; entries = λ j. ground arith })
shift_down-Reads (suc rounds) i xs h =
    let x = get_or xs (i + 1) 0 in
    let (xs', run, rest) =
      shift_down-Reads rounds (i + 1) (set xs i x) (omega (arith, length-set xs i x)) in
    (
      xs',
      rw (get_elem?-get_or xs (i + 1) 0 (omega arith), ◌>>=◌, set?-set xs i x (omega arith)) run,
      record {
        size = rest.size ∙ length-set xs i x;
        entries = λ j. ground (
          arith,
          rest.entries j,
          get_or-set xs i j x (omega arith),
          get_or-set xs i (j + 1) x (omega arith),
          ap (λ (t : ℕ). get_or xs (t + 1) 0) {x = j} {y = i},
        );
      },
    )

-- Where the search for a slot stops.
pub record IsSlot (comparator : ℕ → ℕ → ℤ) (item lo hi : ℕ) (xs : List ℕ) (k : ℕ) : Type 0 where
  pub above : lo ≤ k
  pub below : k ≤ hi
  pub before : (j : ℕ) → lo ≤ j → j < k → nonpos (comparator (get_or xs j 0) item) ≡ true
  pub at : k < hi → nonpos (comparator (get_or xs k 0) item) ≡ false

pub find_slot-IsSlot :
    (comparator : ℕ → ℕ → ℤ) (item rounds i hi : ℕ) (xs : List ℕ)
    → i + rounds ≡ hi
    → hi ≤ length xs
    → (k : ℕ) × (find_slot comparator item rounds i xs ≡ some k) × IsSlot comparator item i hi xs k
unfolding find_slot
find_slot-IsSlot comparator item zero i hi xs e h = (
  i,
  refl,
  record {
    above = omega arith;
    below = omega arith;
    before = λ j p q. absurd (omega arith);
    at = λ p. absurd (omega arith);
  },
)
find_slot-IsSlot comparator item (suc rounds) i hi xs e h =
    let x = get_or xs i 0 in
    let (k, run, slot) = find_slot-IsSlot comparator item rounds (suc i) hi xs (omega arith) h in
    elim (Bool-cases (nonpos (comparator x item))) [
      | inl go ↦ (
        k,
        rw (get_elem?-get_or xs i 0 (omega arith), ◌>>=◌, go) run,
        record {
          above = omega (arith, slot.above);
          below = slot.below;
          before = λ j p q. elim (ℕ_discrete i j) [
            | yes same ↦ ap (λ (t : ℕ). nonpos (comparator (get_or xs t 0) item)) (sym same) ∙ go
            | no other ↦ slot.before j (omega arith) q
          ];
          at = slot.at;
        },
      )
      | inr stop ↦ (
        i,
        rw (get_elem?-get_or xs i 0 (omega arith), ◌>>=◌, stop),
        record {
          above = omega arith;
          below = omega arith;
          before = λ j p q. absurd (omega arith);
          at = λ p. stop;
        },
      )
    ]

-- Where the search for an element stops: at the first place of it, or behind the last one.
pub record IsFirst (ele lo hi : ℕ) (xs : List ℕ) (k : ℕ) : Type 0 where
  pub above : lo ≤ k
  pub below : k ≤ hi
  pub before : (j : ℕ) → lo ≤ j → j < k → get_or xs j 0 ≢ ele
  pub at : k < hi → get_or xs k 0 ≡ ele

pub find_from-IsFirst :
    (ele rounds i hi : ℕ) (xs : List ℕ)
    → i + rounds ≡ hi
    → hi ≤ length xs
    → (k : ℕ) × (find_from hi ele rounds i xs ≡ some k) × IsFirst ele i hi xs k
unfolding find_from
find_from-IsFirst ele zero i hi xs e h = (
  hi,
  refl,
  record {
    above = omega arith;
    below = omega arith;
    before = λ j p q. absurd (omega arith);
    at = λ p. absurd (omega arith);
  },
)
find_from-IsFirst ele (suc rounds) i hi xs e h =
    let x = get_or xs i 0 in
    let (k, run, first) = find_from-IsFirst ele rounds (suc i) hi xs (omega arith) h in
    elim (Bool-cases (x == ele)) [
      | inl hit ↦ (
        i,
        rw (get_elem?-get_or xs i 0 (omega arith), ◌>>=◌, hit),
        record {
          above = omega arith;
          below = omega arith;
          before = λ j p q. absurd (omega arith);
          at = λ p. ground arith;
        },
      )
      | inr miss ↦ (
        k,
        rw (get_elem?-get_or xs i 0 (omega arith), ◌>>=◌, miss) run,
        record {
          above = omega (arith, first.above);
          below = first.below;
          before = λ j p q. elim (ℕ_discrete i j) [
            | yes same ↦ ground (arith, ap (λ (t : ℕ). get_or xs t 0) same)
            | no other ↦ first.before j (omega arith) q
          ];
          at = first.at;
        },
      )
    ]
