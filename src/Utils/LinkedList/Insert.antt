-- ===== src/Utils/LinkedList/Insert.antt =====
-- `linked_list_insert` against lists of nodes.
use luck_os.Common.{
  ℕ, ◌+◌, ◌^◌, ◌<◌, ◌≡◌, ◌≢◌, refl, sym, false, some, List, [], ◌∷◌, ◌++◌, arith, subst, ◌==◌,
  if◌then◌else◌, ◌>>=◌, length, length-append, ℕ_discrete,
}
use luck_os.Utils.LinkedList.{Store, LinkedList, updated, plus_one, linked_list_insert}
use luck_os.Utils.LinkedList.Chain.{
  Back, SameBut, Absent, Front, Links-join, Links-split, Links-step, Front-last, Front-frame,
}
use luck_os.Utils.LinkedList.Distinct.{
  AreApart, AreDistinct-split, AreDistinct-append, Absent-split, Absent-append, Front-Absent,
  Back-Absent,
}
use luck_os.Utils.LinkedList.Remove.{next_of, prev_of, IsList, Back-frame}

-- The last of the nodes `xs` behind `a`.
pub last_node : ℕ → List ℕ → ℕ
last_node a [] = a
last_node a (x ∷ xs) = last_node x xs

Front-last_node : (f g : ℕ → ℕ) (a p : ℕ) (xs : List ℕ) → Front f g a xs p → p ≡ last_node a xs
unfolding last_node
Front-last_node f g a p [] e = sym e
Front-last_node f g a p (x ∷ xs) front = Front-last_node f g x p xs front.2

AreApart-cons :
    (xs : List ℕ) (y : ℕ) (ys : List ℕ) → Absent y xs → AreApart xs ys → AreApart xs (y ∷ ys)
AreApart-cons [] y ys absent apart = tt
AreApart-cons (x ∷ xs) y ys absent apart =
    ((λ e. absent.0 (sym e), apart.0), AreApart-cons xs y ys absent.1 apart.1)

-- The node `w` goes between `p` and `n`.
abbrev between_store : Store → ℕ → ℕ → ℕ → Store
between_store s p w n = record {
  ptr = s.ptr;
  prev = λ b. if n == 0 then updated s.prev w p b else updated (updated s.prev w p) n w b;
  next = λ b. if b == w then n else if p == 0 then s.next b else updated s.next p w b;
}

abbrev between : LinkedList → ℕ → ℕ → ℕ → ℕ → LinkedList
between l p w n size = record {
  head = if p == 0 then w else l.head;
  tail = if n == 0 then w else l.tail;
  size = size;
}

inserts :
    (s : Store) (l : LinkedList) (p w n : ℕ)
    → w ≢ 0
    → next_of s l p ≡ n
    → linked_list_insert s l p w ≡ some (between_store s p w n, between l p w n (plus_one l.size))
unfolding linked_list_insert
inserts s l p w n ne next =
    let test : (w == 0) ≡ false = ground arith in
    elim (ℕ_discrete p 0) [
      | yes p_none ↦
          let head : l.head ≡ n = ground (arith, next, p_none) in
          elim (ℕ_discrete n 0) [
            | yes n_none ↦ rw (test, ◌>>=◌, head, p_none, n_none) refl
            | no n_some ↦
                let test' : (n == 0) ≡ false = ground arith in
                rw (test, ◌>>=◌, head, p_none, test') refl
          ]
      | no p_some ↦
          let test'' : (p == 0) ≡ false = ground arith in
          let after : s.next p ≡ n = ground (arith, next, p_some) in
          elim (ℕ_discrete n 0) [
            | yes n_none ↦ rw (test, ◌>>=◌, test'', after, n_none) refl
            | no n_some ↦
                let test' : (n == 0) ≡ false = ground arith in
                rw (test, ◌>>=◌, test'', after, test') refl
          ]
    ]

-- The list with `w` between `xs` and `ys`, from what the changed fields have to be.
pub IsList-of_SameBut :
    (s : Store) (l : LinkedList) (s' : Store) (l' : LinkedList) (xs : List ℕ) (w : ℕ) (ys : List ℕ)
    → w ≢ 0
    → Absent w (xs ++ ys)
    → length (xs ++ ys) + 1 < 2 ^ 32
    → IsList s l (xs ++ ys)
    → (p : ℕ) → (n : ℕ) → Front (next_of s l) (prev_of s l) 0 xs p
    → Back (next_of s l) (prev_of s l) n ys 0
    → SameBut (next_of s l) (next_of s' l') p w
    → SameBut (prev_of s l) (prev_of s' l') n w
    → next_of s' l' p ≡ w
    → prev_of s' l' w ≡ p
    → next_of s' l' w ≡ n
    → prev_of s' l' n ≡ w
    → l'.size ≡ plus_one l.size
    → IsList s' l' (xs ++ (w ∷ ys))
IsList-of_SameBut s l s' l' xs w ys w_zero fresh room ok p n front rest same same' p_w w_p w_n n_w
      size =
    let f = next_of s l in
    let g = prev_of s l in
    let f' = next_of s' l' in
    let g' = prev_of s' l' in
    let zero_w : 0 ≢ w = λ e. w_zero (sym e) in
    let (zero_xs, zero_ys) = Absent-split 0 xs ys ok.distinct.0 in
    let (w_xs, w_ys) = Absent-split w xs ys fresh in
    let (left, right, apart) = AreDistinct-split xs ys ok.distinct.1 in
    let p_ys = Front-Absent f g 0 p xs ys front zero_ys apart in
    let n_xs = Back-Absent f g n 0 xs ys rest zero_xs apart in
    let counted : length (xs ++ (w ∷ ys)) ≡ length (xs ++ ys) + 1 =
      omega (arith, length-append xs (w ∷ ys), length-append xs ys) in
    let behind = Back-frame f g f' g' p n w ys (zero_ys, right) p_ys w_ys zero_w same same' rest in
    record {
      links =
          Links-join f' g' 0 p w 0 xs (w ∷ ys)
            (Front-frame f g f' g' 0 p n w xs (zero_xs, left) zero_w w_xs n_xs same same' front) p_w
            w_p (refl, Links-step f' g' w n 0 ys w_n n_w behind);
      distinct = (
        Absent-append 0 xs (w ∷ ys) zero_xs (zero_w, zero_ys),
        AreDistinct-append xs (w ∷ ys) left (w_ys, right) (AreApart-cons xs w ys w_xs apart),
      );
      size = omega (arith, size, ok.size, room, counted);
      small = omega (arith, room, counted);
    }

-- The nodes on both sides of the new one.
pub not_new :
    (s : Store) (l : LinkedList) (xs : List ℕ) (w : ℕ) (ys : List ℕ) (p n : ℕ)
    → w ≢ 0
    → Absent w (xs ++ ys)
    → Front (next_of s l) (prev_of s l) 0 xs p
    → Back (next_of s l) (prev_of s l) n ys 0
    → (p ≢ w) × (n ≢ w)
not_new s l xs w ys p n w_zero fresh front rest =
    let (w_xs, w_ys) = Absent-split w xs ys fresh in
    (
      (λ e. Front-last (next_of s l) (prev_of s l) 0 p w xs front w_zero w_xs (sym e)),
      (Back-Absent (next_of s l) (prev_of s l) n 0 (w ∷ []) ys rest ((λ e. w_zero (sym e)), tt)
          (w_ys, tt)).0,
    )

-- A new node that is not null goes behind the nodes `xs`, at the front of the list if there are none, for a list
-- of less than 2^32 - 1 nodes. `linked_list_insert` with the last of them, or null, makes it so, and changes no `ptr`.
pub linked_list_insert-IsList :
    (s : Store) (l : LinkedList) (xs : List ℕ) (w : ℕ) (ys : List ℕ)
    → w ≢ 0
    → Absent w (xs ++ ys)
    → length (xs ++ ys) + 1 < 2 ^ 32
    → IsList s l (xs ++ ys)
    → (s' : Store) × (l' : LinkedList) × (linked_list_insert s l (last_node 0 xs) w ≡ some (s', l'))
      × IsList s' l' (xs ++ (w ∷ ys))
      × (s'.ptr ≡ s.ptr)
linked_list_insert-IsList s l xs w ys w_zero fresh room ok =
    let (p, n, front, next, back, rest) =
      Links-split (next_of s l) (prev_of s l) 0 0 xs ys ok.links in
    let last : p ≡ last_node 0 xs = Front-last_node (next_of s l) (prev_of s l) 0 p xs front in
    let (p_w, n_w) = not_new s l xs w ys p n w_zero fresh front rest in
    let s' = between_store s p w n in
    let l' : LinkedList = between l p w n (plus_one l.size) in
    (
      s',
      l',
      subst (λ (t : ℕ). linked_list_insert s l t w ≡ some (s', l')) last
          (inserts s l p w n w_zero next),
      IsList-of_SameBut s l s' l' xs w ys w_zero fresh room ok p n front rest
          (λ b b_p b_w. ground arith) (λ b b_n b_w. ground arith) (ground arith) (ground arith)
          (ground arith) (ground arith) refl,
      refl,
    )
