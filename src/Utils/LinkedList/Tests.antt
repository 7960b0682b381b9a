-- ===== src/Utils/LinkedList/Tests.antt =====
-- A list of the nodes 8 and 20, and the theorems at it.
use luck_os.Common.{◌+◌, ◌≡◌, refl, some, [], ◌∷◌, ◌++◌, arith, ◌==◌, if◌then◌else◌}
use luck_os.Utils.LinkedList.{
  Store, LinkedList, linked_list_insert, linked_list_append, linked_list_insert_to_head,
  linked_list_remove,
}
use luck_os.Utils.LinkedList.Remove.{IsList, linked_list_remove-IsList}
use luck_os.Utils.LinkedList.Append.{linked_list_append-IsList}
use luck_os.Utils.LinkedList.Insert.{last_node, linked_list_insert-IsList}

abbrev store : Store
store = record {
  ptr = λ a. a + 1;
  prev = λ a. if a == 20 then 8 else 0;
  next = λ a. if a == 8 then 20 else 0;
}

abbrev two_nodes : LinkedList
two_nodes = record { head = 8; tail = 20; size = 2 }

two_nodes-IsList : IsList store two_nodes (8 ∷ 20 ∷ [])
two_nodes-IsList = record {
  links = (refl, refl, (refl, refl, (refl, refl)));
  distinct = (((λ e. omega arith), ((λ e. omega arith), tt)), (((λ e. omega arith), tt), (tt, tt)));
  size = refl;
  small = omega arith;
}

linked_list_remove-IsList_example :
    (s' : Store) × (l' : LinkedList) × (linked_list_remove store two_nodes 20 ≡ some (s', l'))
    × IsList s' l' ((8 ∷ []) ++ [])
    × (s'.ptr ≡ store.ptr)
linked_list_remove-IsList_example =
    linked_list_remove-IsList store two_nodes (8 ∷ []) 20 [] two_nodes-IsList

linked_list_insert-IsList_example :
    (s' : Store) × (l' : LinkedList) × (linked_list_insert store two_nodes (last_node 0 (8 ∷ [])) 32
      ≡ some (s', l'))
    × IsList s' l' ((8 ∷ []) ++ (32 ∷ 20 ∷ []))
    × (s'.ptr ≡ store.ptr)
linked_list_insert-IsList_example =
    linked_list_insert-IsList store two_nodes (8 ∷ []) 32 (20 ∷ []) (λ e. omega arith)
      ((λ e. omega arith), ((λ e. omega arith), tt)) (omega arith) two_nodes-IsList

-- `linked_list_insert_to_head` puts the node behind the head.
insert_to_head_is_second :
    (s' : Store) × (linked_list_insert_to_head store two_nodes 32
      ≡ some (s', record { head = 8; tail = 20; size = 3 }))
unfolding linked_list_insert_to_head linked_list_insert
insert_to_head_is_second = (_, refl)

linked_list_append-IsList_example :
    (s' : Store) × (l' : LinkedList) × (linked_list_append store two_nodes 32 ≡ some (s', l'))
    × IsList s' l' ((8 ∷ 20 ∷ []) ++ (32 ∷ []))
    × (s'.ptr ≡ store.ptr)
linked_list_append-IsList_example =
    linked_list_append-IsList store two_nodes (8 ∷ 20 ∷ []) 32 (λ e. omega arith)
      ((λ e. omega arith), ((λ e. omega arith), tt)) (omega arith) two_nodes-IsList
