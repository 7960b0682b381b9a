-- ===== src/Utils/LinkedList/Chain.antt =====
-- Chains of nodes under their next and prev fields, and what one change to them does.
use luck_os.Common.{ℕ, ◌≡◌, ◌≢◌, refl, sym, ap, ◌∙◌, List, [], ◌∷◌, ◌++◌}

abbrev pub Absent : ℕ → List ℕ → Type 0
Absent a [] = Unit
Absent a (x ∷ xs) = (a ≢ x) × Absent a xs

abbrev pub AreDistinct : List ℕ → Type 0
AreDistinct [] = Unit
AreDistinct (x ∷ xs) = Absent x xs × AreDistinct xs

module _ (f g : ℕ → ℕ) where
  -- `f` leads from `a` over the nodes `xs` to `z`, and `g` leads back.
  abbrev pub Links : ℕ → List ℕ → ℕ → Type 0
  Links a [] z = (f a ≡ z) × (g z ≡ a)
  Links a (x ∷ xs) z = (f a ≡ x) × (g x ≡ a) × Links x xs z

  -- The same without the last step: `p` is the last node.
  abbrev pub Front : ℕ → List ℕ → ℕ → Type 0
  Front a [] p = a ≡ p
  Front a (x ∷ xs) p = (f a ≡ x) × (g x ≡ a) × Front x xs p

  -- The same without the first step: `n` is the first node, or the end.
  abbrev pub Back : ℕ → List ℕ → ℕ → Type 0
  Back n [] z = n ≡ z
  Back n (y ∷ ys) z = (n ≡ y) × Links y ys z

  pub Links-step : (a n z : ℕ) (ys : List ℕ) → f a ≡ n → g n ≡ a → Back n ys z → Links a ys z
  Links-step a n z [] next back e = (next ∙ e, ap g (sym e) ∙ back)
  Links-step a n z (y ∷ ys) next back rest = (next ∙ rest.0, ap g (sym (rest.0)) ∙ back, rest.1)

  pub Links-join :
      (a p n z : ℕ) (xs ys : List ℕ)
      → Front a xs p
      → f p ≡ n
      → g n ≡ p
      → Back n ys z
      → Links a (xs ++ ys) z
  Links-join a p n z [] ys e next back rest =
      Links-step a n z ys (ap f e ∙ next) (back ∙ sym e) rest
  Links-join a p n z (x ∷ xs) ys front next back rest =
      (front.0, front.1, Links-join x p n z xs ys front.2 next back rest)

  pub Links-uncons :
      (a z : ℕ) (ys : List ℕ) → Links a ys z → (n : ℕ) × (f a ≡ n) × (g n ≡ a) × Back n ys z
  Links-uncons a z [] links = (z, links.0, links.1, refl)
  Links-uncons a z (y ∷ ys) links = (y, links.0, links.1, (refl, links.2))

  pub Links-split :
      (a z : ℕ) (xs ys : List ℕ)
      → Links a (xs ++ ys) z
      → (p : ℕ) × (n : ℕ) × Front a xs p × (f p ≡ n) × (g n ≡ p) × Back n ys z
  Links-split a z [] ys links =
      let (n, next, back, rest) = Links-uncons a z ys links in (a, n, refl, next, back, rest)
  Links-split a z (x ∷ xs) ys links =
      let (p, n, front, next, back, rest) = Links-split x z xs ys links.2 in
      (p, n, (links.0, links.1, front), next, back, rest)

  -- The last node is one of the nodes.
  pub Front-last : (a p b : ℕ) (xs : List ℕ) → Front a xs p → b ≢ a → Absent b xs → b ≢ p
  Front-last a p b [] e ne absent = λ same. ne (same ∙ sym e)
  Front-last a p b (x ∷ xs) front ne absent = Front-last x p b xs front.2 (absent.0) (absent.1)

-- `f'` is `f` but at `p` and `w`.
abbrev pub SameBut : (ℕ → ℕ) → (ℕ → ℕ) → ℕ → ℕ → Type 0
SameBut f f' p w = (b : ℕ) → b ≢ p → b ≢ w → f' b ≡ f b

pub Front-frame :
    (f g f' g' : ℕ → ℕ) (a p n w : ℕ) (xs : List ℕ)
    → AreDistinct (a ∷ xs)
    → a ≢ w
    → Absent w xs
    → Absent n xs
    → SameBut f f' p w
    → SameBut g g' n w
    → Front f g a xs p
    → Front f' g' a xs p
Front-frame f g f' g' a p n w [] distinct ne absent apart same same' front = front
Front-frame f g f' g' a p n w (x ∷ xs) distinct ne absent apart same same' front =
    let a_p : a ≢ p = Front-last f g x p a xs front.2 (distinct.0.0) (distinct.0.1) in
    let x_n : x ≢ n = λ e. apart.0 (sym e) in
    let x_w : x ≢ w = λ e. absent.0 (sym e) in
    (
      same a a_p ne ∙ front.0,
      same' x x_n x_w ∙ front.1,
      Front-frame f g f' g' x p n w xs distinct.1 x_w absent.1 apart.1 same same' front.2,
    )

pub Links-frame :
    (f g f' g' : ℕ → ℕ) (y p n w z : ℕ) (ys : List ℕ)
    → y ≢ p
    → y ≢ w
    → Absent p ys
    → Absent w ys
    → Absent n ys
    → z ≢ n
    → z ≢ w
    → SameBut f f' p w
    → SameBut g g' n w
    → Links f g y ys z
    → Links f' g' y ys z
Links-frame f g f' g' y p n w z [] y_p y_w ps ws ns z_n z_w same same' links =
    (same y y_p y_w ∙ links.0, same' z z_n z_w ∙ links.1)
Links-frame f g f' g' y p n w z (x ∷ ys) y_p y_w ps ws ns z_n z_w same same' links =
    let x_p : x ≢ p = λ e. ps.0 (sym e) in
    let x_n : x ≢ n = λ e. ns.0 (sym e) in
    let x_w : x ≢ w = λ e. ws.0 (sym e) in
    (
      same y y_p y_w ∙ links.0,
      same' x x_n x_w ∙ links.1,
      Links-frame f g f' g' x p n w z ys x_p x_w ps.1 ws.1 ns.1 z_n z_w same same' links.2,
    )
