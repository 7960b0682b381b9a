-- ===== src/Utils/LinkedList/Remove.antt =====
-- `linked_list_remove` against lists of nodes.
use luck_os.Common.{
  ℕ, ◌+◌, ◌^◌, ◌<◌, ◌≡◌, ◌≢◌, refl, sym, ap, ◌∙◌, false, some, List, [], ◌∷◌, ◌++◌, arith, subst,
  ◌==◌, if◌then◌else◌, ◌>>=◌, length, length-append, ℕ_discrete,
}
use luck_os.Utils.LinkedList.{Store, LinkedList, updated, minus_one, linked_list_remove}
use luck_os.Utils.LinkedList.Chain.{
  Absent, AreDistinct, Links, Back, SameBut, Links-join, Links-split, Links-uncons, Front-frame,
  Links-frame,
}
use luck_os.Utils.LinkedList.Distinct.{
  AreDistinct-split, AreDistinct-append, AreApart-uncons, Absent-split, Absent-append, Front-Absent,
  Back-Absent,
}

-- The fields, with the list itself as node 0 between its tail and its head.
abbrev pub next_of : Store → LinkedList → ℕ → ℕ
next_of s l a = if a == 0 then l.head else s.next a

abbrev pub prev_of : Store → LinkedList → ℕ → ℕ
prev_of s l a = if a == 0 then l.tail else s.prev a

-- The list consists of the nodes `xs` in this order, forwards and backwards.
pub record IsList (s : Store) (l : LinkedList) (xs : List ℕ) : Type 0 where
  pub links : Links (next_of s l) (prev_of s l) 0 xs 0
  pub distinct : AreDistinct (0 ∷ xs)
  pub size : l.size ≡ length xs
  pub small : length xs < 2 ^ 32

-- `p` and `n` become neighbours.
abbrev relinked_store : Store → ℕ → ℕ → Store
relinked_store s p n = record {
  ptr = s.ptr;
  prev = λ b. if n == 0 then s.prev b else updated s.prev n p b;
  next = λ b. if p == 0 then s.next b else updated s.next p n b;
}

abbrev relinked : LinkedList → ℕ → ℕ → ℕ → LinkedList
relinked l p n size = record {
  head = if p == 0 then n else l.head;
  tail = if n == 0 then p else l.tail;
  size = size;
}

removes :
    (s : Store) (l : LinkedList) (x p n : ℕ)
    → x ≢ 0
    → s.prev x ≡ p
    → s.next x ≡ n
    → linked_list_remove s l x ≡ some (relinked_store s p n, relinked l p n (minus_one l.size))
unfolding linked_list_remove
removes s l x p n ne back next =
    let test : (x == 0) ≡ false = ground arith in
    elim (ℕ_discrete p 0) [
      | yes p_none ↦ elim (ℕ_discrete n 0) [
        | yes n_none ↦ rw (test, ◌>>=◌, back, next, p_none, n_none) refl
        | no n_some ↦
            let test' : (n == 0) ≡ false = ground arith in
            rw (test, ◌>>=◌, back, next, p_none, test') refl
      ]
      | no p_some ↦
          let test'' : (p == 0) ≡ false = ground arith in
          elim (ℕ_discrete n 0) [
            | yes n_none ↦ rw (test, ◌>>=◌, back, next, test'', n_none) refl
            | no n_some ↦
                let test' : (n == 0) ≡ false = ground arith in
                rw (test, ◌>>=◌, back, next, test'', test') refl
          ]
    ]

pub Back-frame :
    (f g f' g' : ℕ → ℕ) (p n x : ℕ) (ys : List ℕ)
    → AreDistinct (0 ∷ ys)
    → Absent p ys
    → Absent x ys
    → 0 ≢ x
    → SameBut f f' p x
    → SameBut g g' n x
    → Back f g n ys 0
    → Back f' g' n ys 0
Back-frame f g f' g' p n x [] distinct ps xs ne same same' e = e
Back-frame f g f' g' p n x (y ∷ ys) distinct ps xs ne same same' back = (
  back.0,
  Links-frame f g f' g' y p n x 0 ys (λ e. ps.0 (sym e)) (λ e. xs.0 (sym e)) ps.1 xs.1
      (subst (λ (t : ℕ). Absent t ys) (sym back.0) (distinct.1.0)) (λ e. distinct.0.0 (e ∙ back.0))
      ne same same' back.1,
)

-- `linked_list_remove` of a node that stands anywhere in the list succeeds. The other nodes are the list after it, in
-- the same order, forwards and backwards, and no `ptr` changes.
pub linked_list_remove-IsList :
    (s : Store) (l : LinkedList) (xs : List ℕ) (x : ℕ) (ys : List ℕ)
    → IsList s l (xs ++ (x ∷ ys))
    → (s' : Store) × (l' : LinkedList) × (linked_list_remove s l x ≡ some (s', l'))
      × IsList s' l' (xs ++ ys)
      × (s'.ptr ≡ s.ptr)
linked_list_remove-IsList s l xs x ys ok =
    let f = next_of s l in
    let g = prev_of s l in
    let (zero_xs, zero_rest) = Absent-split 0 xs (x ∷ ys) ok.distinct.0 in
    let (left, right, apart) = AreDistinct-split xs (x ∷ ys) ok.distinct.1 in
    let (x_xs, apart_ys) = AreApart-uncons xs x ys apart in
    let zero_x : 0 ≢ x = zero_rest.0 in
    let x_zero : x ≢ 0 = λ e. zero_x (sym e) in
    let (p, q, front, next, back, rest) = Links-split f g 0 0 xs (x ∷ ys) ok.links in
    let at_x : g x ≡ p = ap g (sym rest.0) ∙ back in
    let (n, next', back', rest') = Links-uncons f g x 0 ys rest.1 in
    let test : (x == 0) ≡ false = ground arith in
    let prev_x : s.prev x ≡ p = ground (arith, at_x, test) in
    let next_x : s.next x ≡ n = ground (arith, next', test) in
    let s' = relinked_store s p n in
    let l' : LinkedList = relinked l p n (minus_one l.size) in
    let p_ys = Front-Absent f g 0 p xs ys front zero_rest.1 apart_ys in
    let same : SameBut f (next_of s' l') p x = λ b b_p b_x. ground arith in
    let same' : SameBut g (prev_of s' l') n x = λ b b_n b_x. ground arith in
    let counted : length (xs ++ (x ∷ ys)) ≡ length (xs ++ ys) + 1 =
      omega (arith, length-append xs (x ∷ ys), length-append xs ys) in
    (
      s',
      l',
      removes s l x p n x_zero prev_x next_x,
      record {
        links =
            Links-join (next_of s' l') (prev_of s' l') 0 p n 0 xs ys
              (Front-frame f g (next_of s' l') (prev_of s' l') 0 p n x xs (zero_xs, left) zero_x
                x_xs (Back-Absent f g n 0 xs ys rest' zero_xs apart_ys) same same' front)
              (ground arith) (ground arith)
              (Back-frame f g (next_of s' l') (prev_of s' l') p n x ys (zero_rest.1, right.1) p_ys
                right.0 zero_x same same' rest');
        distinct = (
          Absent-append 0 xs ys zero_xs zero_rest.1,
          AreDistinct-append xs ys left right.1 apart_ys,
        );
        size = omega (arith, ok.size, ok.small, counted);
        small = omega (arith, ok.small, counted);
      },
      refl,
    )
