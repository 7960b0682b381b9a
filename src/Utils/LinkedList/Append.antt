-- ===== src/Utils/LinkedList/Append.antt =====
-- `linked_list_append` against lists of nodes.
use luck_os.Common.{
  ℕ, ◌+◌, ◌^◌, ◌<◌, ◌≡◌, ◌≢◌, refl, sym, ap, ◌∙◌, true, false, some, List, [], ◌∷◌, ◌++◌, arith,
  subst, ◌==◌, ◌>>=◌, length,
}
use mathlib.Core.List.{append-nil}
use luck_os.Utils.LinkedList.{Store, LinkedList, updated, plus_one, linked_list_append}
use luck_os.Utils.LinkedList.Chain.{Absent, Links-split, Front-last}
use luck_os.Utils.LinkedList.Remove.{next_of, prev_of, IsList}
use luck_os.Utils.LinkedList.Insert.{IsList-of_SameBut, not_new}

-- The two outcomes of `linked_list_append`.
abbrev first_store : Store → ℕ → Store
first_store s w = record { ptr = s.ptr; prev = updated s.prev w 0; next = updated s.next w 0 }

abbrev later_store : Store → ℕ → ℕ → Store
later_store s t w = record {
  ptr = s.ptr;
  prev = updated s.prev w t;
  next = updated (updated s.next w 0) t w;
}

appends_first :
    (s : Store) (l : LinkedList) (w : ℕ)
    → w ≢ 0
    → l.size ≡ 0
    → linked_list_append s l w
      ≡ some (first_store s w, record { head = w; tail = w; size = plus_one l.size })
unfolding linked_list_append
appends_first s l w ne empty =
    let test : (w == 0) ≡ false = ground arith in
    let test' : (l.size == 0) ≡ true = ground arith in rw (test, ◌>>=◌, test') refl

appends_later :
    (s : Store) (l : LinkedList) (w : ℕ)
    → w ≢ 0
    → l.tail ≢ 0
    → l.size ≢ 0
    → linked_list_append s l w
      ≡ some (later_store s l.tail w, record l { tail = w; size = plus_one l.size })
unfolding linked_list_append
appends_later s l w ne tail some_nodes =
    let test : (w == 0) ≡ false = ground arith in
    let test' : (l.size == 0) ≡ false = ground arith in
    let test'' : (l.tail == 0) ≡ false = ground arith in rw (test, ◌>>=◌, test', test'') refl

-- A new node that is not null, appended to a list of less than 2^32 - 1 nodes, is the last one of the
-- list after it; the others keep their order, and no `ptr` changes.
pub linked_list_append-IsList :
    (s : Store) (l : LinkedList) (xs : List ℕ) (w : ℕ)
    → w ≢ 0
    → Absent w xs
    → length xs + 1 < 2 ^ 32
    → IsList s l xs
    → (s' : Store) × (l' : LinkedList) × (linked_list_append s l w ≡ some (s', l'))
      × IsList s' l' (xs ++ (w ∷ []))
      × (s'.ptr ≡ s.ptr)
linked_list_append-IsList s l [] w w_zero fresh room ok =
    let s' = first_store s w in
    let l' : LinkedList = record { head = w; tail = w; size = plus_one l.size } in
    (
      s',
      l',
      appends_first s l w w_zero ok.size,
      IsList-of_SameBut s l s' l' [] w [] w_zero fresh room ok 0 0 refl refl
          (λ b b_p b_w. ground arith) (λ b b_n b_w. ground arith) (ground arith) (ground arith)
          (ground arith) (ground arith) refl,
      refl,
    )
linked_list_append-IsList s l (x ∷ xs) w w_zero fresh room ok =
    let all = x ∷ xs in
    let nil : all ++ [] ≡ all = append-nil all in
    let ok' : IsList s l (all ++ []) = subst (IsList s l) (sym nil) ok in
    let fresh' : Absent w (all ++ []) = subst (Absent w) (sym nil) fresh in
    let room' : length (all ++ []) + 1 < 2 ^ 32 =
      subst (λ (t : List ℕ). length t + 1 < 2 ^ 32) (sym nil) room in
    let (p, n, front, next, back, rest) =
      Links-split (next_of s l) (prev_of s l) 0 0 all [] ok'.links in
    let p_zero : p ≢ 0 = λ e.
      Front-last (next_of s l) (prev_of s l) x p 0 xs front.2 (ok.distinct.0.0) (ok.distinct.0.1)
        (sym e) in
    let tail : l.tail ≡ p = ap (prev_of s l) (sym rest) ∙ back in
    let (p_w, n_w) = not_new s l all w [] p n w_zero fresh' front rest in
    let s' = later_store s l.tail w in
    let l' : LinkedList = record l { tail = w; size = plus_one l.size } in
    (
      s',
      l',
      appends_later s l w w_zero (λ e. p_zero (sym tail ∙ e)) (omega (arith, ok.size)),
      IsList-of_SameBut s l s' l' all w [] w_zero fresh' room' ok' p n front rest
          (λ b b_p b_w. ground arith) (λ b b_n b_w. ground arith) (ground arith) (ground arith)
          (ground arith) (ground arith) refl,
      refl,
    )
