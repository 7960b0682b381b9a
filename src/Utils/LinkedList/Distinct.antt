-- ===== src/Utils/LinkedList/Distinct.antt =====
-- Lists of nodes without repetition, in parts.
use luck_os.Common.{ℕ, sym, List, [], ◌∷◌, ◌++◌, subst}
use luck_os.Utils.LinkedList.Chain.{Absent, AreDistinct, Front, Back}

-- No node of `xs` is one of `ys`.
abbrev pub AreApart : List ℕ → List ℕ → Type 0
AreApart [] ys = Unit
AreApart (x ∷ xs) ys = Absent x ys × AreApart xs ys

pub Absent-split : (a : ℕ) (xs ys : List ℕ) → Absent a (xs ++ ys) → Absent a xs × Absent a ys
Absent-split a [] ys h = (tt, h)
Absent-split a (x ∷ xs) ys h = let (left, right) = Absent-split a xs ys h.1 in ((h.0, left), right)

pub Absent-append : (a : ℕ) (xs ys : List ℕ) → Absent a xs → Absent a ys → Absent a (xs ++ ys)
Absent-append a [] ys left right = right
Absent-append a (x ∷ xs) ys left right = (left.0, Absent-append a xs ys left.1 right)

pub AreDistinct-split :
    (xs ys : List ℕ) → AreDistinct (xs ++ ys) → AreDistinct xs × AreDistinct ys × AreApart xs ys
AreDistinct-split [] ys h = (tt, h, tt)
AreDistinct-split (x ∷ xs) ys h =
    let (here, there) = Absent-split x xs ys h.0 in
    let (left, right, apart) = AreDistinct-split xs ys h.1 in ((here, left), right, (there, apart))

pub AreDistinct-append :
    (xs ys : List ℕ) → AreDistinct xs → AreDistinct ys → AreApart xs ys → AreDistinct (xs ++ ys)
AreDistinct-append [] ys left right apart = right
AreDistinct-append (x ∷ xs) ys left right apart =
    (Absent-append x xs ys left.0 apart.0, AreDistinct-append xs ys left.1 right apart.1)

-- The first node behind is not one of those in front, and the rest behind is apart too.
pub AreApart-uncons :
    (xs : List ℕ) (y : ℕ) (ys : List ℕ) → AreApart xs (y ∷ ys) → Absent y xs × AreApart xs ys
AreApart-uncons [] y ys h = (tt, tt)
AreApart-uncons (x ∷ xs) y ys h =
    let (here, rest) = AreApart-uncons xs y ys h.1 in ((λ e. h.0.0 (sym e), here), (h.0.1, rest))

-- The last node in front is not one of those behind.
pub Front-Absent :
    (f g : ℕ → ℕ) (a p : ℕ) (xs ys : List ℕ)
    → Front f g a xs p
    → Absent a ys
    → AreApart xs ys
    → Absent p ys
Front-Absent f g a p [] ys e absent apart = subst (λ (t : ℕ). Absent t ys) e absent
Front-Absent f g a p (x ∷ xs) ys front absent apart =
    Front-Absent f g x p xs ys front.2 apart.0 apart.1

-- The first node behind, or the end, is not one of those in front.
pub Back-Absent :
    (f g : ℕ → ℕ) (n z : ℕ) (xs ys : List ℕ)
    → Back f g n ys z
    → Absent z xs
    → AreApart xs ys
    → Absent n xs
Back-Absent f g n z xs [] e absent apart = subst (λ (t : ℕ). Absent t xs) (sym e) absent
Back-Absent f g n z xs (y ∷ ys) back absent apart =
    subst (λ (t : ℕ). Absent t xs) (sym (back.0)) (AreApart-uncons xs y ys apart).0
