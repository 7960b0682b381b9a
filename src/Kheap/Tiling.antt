-- ===== src/Kheap/Tiling.antt =====
-- Blocks side by side in memory.
use luck_os.Common.{ℕ, ◌+◌, ◌≤◌, ◌<◌, ◌≡◌, List, [], ◌∷◌, ◌++◌, arith, if◌then◌else◌, subst}
use luck_os.Kheap.Bytes.{Memory}
use luck_os.Kheap.Blocks.{Block, IsBlock, IsBlock-frame}
use luck_os.Kheap.Index.{one_at}

unfoldable pub span : List Block → ℕ
span [] = 0
span (b ∷ bs) = 17 + b.size + span bs

-- The blocks `bs` lie side by side from `a` on.
abbrev pub Tiles : Memory → ℕ → List Block → Type 0
Tiles m a [] = Unit
Tiles m a (b ∷ bs) = IsBlock m a b × Tiles m (a + (17 + b.size)) bs

-- How many of the holes have their header at `x`: none or one.
unfoldable pub hole_count : ℕ → ℕ → List Block → ℕ
hole_count x a [] = 0
hole_count x a (b ∷ bs) = (if b.hole then one_at x a else 0) + hole_count x (a + (17 + b.size)) bs

abbrev SameBytes : Memory → Memory → ℕ → ℕ → Type 0
SameBytes m m' lo hi = (x : ℕ) → lo ≤ x → x < hi → m' x ≡ m x

pub span-append : (bs cs : List Block) → span (bs ++ cs) ≡ span bs + span cs
unfolding span
span-append [] cs = omega arith
span-append (b ∷ bs) cs = omega (arith, span-append bs cs)

pub Tiles-append :
    (m : Memory) (a : ℕ) (bs cs : List Block)
    → Tiles m a bs
    → Tiles m (a + span bs) cs
    → Tiles m a (bs ++ cs)
unfolding span
Tiles-append m a [] cs left right =
    let e : a + 0 ≡ a = omega arith in subst (λ t. Tiles m t cs) e right
Tiles-append m a (b ∷ bs) cs left right =
    let e : a + (17 + b.size + span bs) ≡ a + (17 + b.size) + span bs = omega arith in
    (left.0, Tiles-append m (a + (17 + b.size)) bs cs left.1 (subst (λ t. Tiles m t cs) e right))

pub Tiles-split :
    (m : Memory) (a : ℕ) (bs cs : List Block)
    → Tiles m a (bs ++ cs)
    → Tiles m a bs × Tiles m (a + span bs) cs
unfolding span
Tiles-split m a [] cs all = let e : a ≡ a + 0 = omega arith in (tt, subst (λ t. Tiles m t cs) e all)
Tiles-split m a (b ∷ bs) cs all =
    let e : a + (17 + b.size) + span bs ≡ a + (17 + b.size + span bs) = omega arith in
    let (left, right) = Tiles-split m (a + (17 + b.size)) bs cs all.1 in
    ((all.0, left), subst (λ t. Tiles m t cs) e right)

pub Tiles-frame :
    (m m' : Memory) (a : ℕ) (bs : List Block)
    → SameBytes m m' a (a + span bs)
    → Tiles m a bs
    → Tiles m' a bs
unfolding span
Tiles-frame m m' a [] same all = tt
Tiles-frame m m' a (b ∷ bs) same all = (
  IsBlock-frame m m' a b (λ x lo hi. same x lo (omega arith)) all.0,
  Tiles-frame m m' (a + (17 + b.size)) bs (λ x lo hi. same x (omega arith) (omega arith)) all.1,
)

pub hole_count-append :
    (x a : ℕ) (bs cs : List Block)
    → hole_count x a (bs ++ cs) ≡ hole_count x a bs + hole_count x (a + span bs) cs
unfolding hole_count span
hole_count-append x a [] cs = let e : a + 0 ≡ a = omega arith in rw e (omega arith)
hole_count-append x a (b ∷ bs) cs =
    let e : a + (17 + b.size + span bs) ≡ a + (17 + b.size) + span bs = omega arith in
    rw e (omega (arith, hole_count-append x (a + (17 + b.size)) bs cs))
