-- ===== src/Utils/LinkedList.antt =====
-- src/utils/linked_list.c and linked_list.h: doubly linked lists over a store of nodes. A node is its address,
-- and 0 is the null pointer; an access through it is a fault, `none`.
pub mod Chain
pub mod Distinct
pub mod Remove
pub mod Insert
pub mod Append
mod Tests
use luck_os.Common.{
  ℕ, zero, suc, ◌+◌, ◌-◌, ◌%◌, ◌^◌, Bool, not, Option, none, some, ◌==◌, if◌then◌else◌, ◌>>=◌,
}

-- The fields of the nodes.
pub record Store : Type 0 where
  pub ptr : ℕ → ℕ
  pub prev : ℕ → ℕ
  pub next : ℕ → ℕ

pub record LinkedList : Type 0 where
  pub head : ℕ
  pub tail : ℕ
  pub size : ℕ

abbrev pub updated : (ℕ → ℕ) → ℕ → ℕ → ℕ → ℕ
updated f a v b = if b == a then v else f b

abbrev get_next : Store → ℕ → Option ℕ
get_next s node = if node == 0 then none else some (s.next node)

abbrev get_prev : Store → ℕ → Option ℕ
get_prev s node = if node == 0 then none else some (s.prev node)

abbrev set_next : Store → ℕ → ℕ → Option Store
set_next s node v = if node == 0 then none else some (record s { next = updated s.next node v })

abbrev set_prev : Store → ℕ → ℕ → Option Store
set_prev s node v = if node == 0 then none else some (record s { prev = updated s.prev node v })

linked_list_init : LinkedList
linked_list_init = record { head = 0; tail = 0; size = 0 }

-- `this->size++` on `uint32`.
abbrev pub plus_one : ℕ → ℕ
plus_one n = (n + 1) % 2 ^ 32

abbrev pub minus_one : ℕ → ℕ
minus_one n = (n + 2 ^ 32 - 1) % 2 ^ 32

pub linked_list_append : Store → LinkedList → ℕ → Option (Store × LinkedList)
linked_list_append s l new_node = do
  s₁ ← set_next s new_node 0
  if l.size == 0
      then (do
        s₂ ← set_prev s₁ new_node 0
        some (s₂, record { head = new_node; tail = new_node; size = plus_one l.size }))
      else (do
        s₂ ← set_next s₁ l.tail new_node
        s₃ ← set_prev s₂ new_node l.tail
        some (s₃, record l { tail = new_node; size = plus_one l.size }))

pub linked_list_insert : Store → LinkedList → ℕ → ℕ → Option (Store × LinkedList)
linked_list_insert s l node new_node = do
  s₁ ← set_prev s new_node node
  (next_node, s₂, l₂) ←
      (if node == 0
        then some (l.head, s₁, record l { head = new_node })
        else get_next s₁ node >>= λ next. set_next s₁ node new_node >>= λ s'. some (next, s', l))
  s₃ ← set_next s₂ new_node next_node
  if not (next_node == 0)
      then (do
        s₄ ← set_prev s₃ next_node new_node
        some (s₄, record l₂ { size = plus_one l₂.size }))
      else some (s₃, record l₂ { tail = new_node; size = plus_one l₂.size })

pub linked_list_insert_to_head : Store → LinkedList → ℕ → Option (Store × LinkedList)
linked_list_insert_to_head s l new_node = linked_list_insert s l l.head new_node

pub linked_list_remove : Store → LinkedList → ℕ → Option (Store × LinkedList)
linked_list_remove s l node = do
  prev_node ← get_prev s node
  next_node ← get_next s node
  (s₁, l₁) ←
      (if not (prev_node == 0)
        then (set_next s prev_node next_node >>= λ s'. some (s', l))
        else some (s, record l { head = next_node }))
  (s₂, l₂) ←
      (if not (next_node == 0)
        then (set_prev s₁ next_node prev_node >>= λ s'. some (s', l₁))
        else some (s₁, record l₁ { tail = prev_node }))
  some (s₂, record l₂ { size = minus_one l₂.size })

-- The lists `dst` and `src` after the move.
linked_list_move : LinkedList → LinkedList → LinkedList × LinkedList
linked_list_move dst src = (src, linked_list_init)

linked_list_concate : Store → LinkedList → LinkedList → Option (Store × LinkedList × LinkedList)
linked_list_concate s dst src =
    if src.size == 0
    then some (s, dst, src)
    else if dst.size == 0
    then (let moved = linked_list_move dst src in some (s, moved.0, moved.1))
    else set_next s dst.tail src.head >>= λ s₁. set_prev s₁ src.head dst.tail >>= λ s₂. some (
      s₂,
      record dst { tail = src.tail; size = (dst.size + src.size) % 2 ^ 32 },
      linked_list_init,
    )
