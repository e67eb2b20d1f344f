-- ===== src/LinkList/Tests.antt =====
-- Runs of the lists, and their theorems at concrete ones.
use xmltp.Prelude.{
  ℕ, ◌≡◌, All, ◌==◌, if◌then◌else◌, refl, arith, Option, none, some, List, [], ◌∷◌, true, pos, neg,
}
use xmltp.Bytes.{NoNul, Bytes, codes}
use xmltp.LinkList.{
  Elem, ListState, lkls_ok, node_at, append_elem_at_tail, unlink, free_node, same_pointer,
  remove_node_from_list, get_datum_in_list_first,
}
use xmltp.LinkList.Queue.{
  list_of, Holds, Pops, append_elem_at_tail-Holds, pop_first_element_from_list-Pops,
}
use xmltp.LinkList.Iter.{collect, get_datum_in_list_next-order}
use xmltp.LinkList.Scan.{
  find_node, remove_element_from_list, copy_loop, copy_data_to_array, destroy_linked_list,
}
use xmltp.LinkList.Scan.Remove.{remove_element_from_list-Holds}
use xmltp.LinkList.Scan.Destroy.{Freed, destroy_linked_list-Freed}

-- A list of two data, in the store in the other order.
abbrev two_nodes : List (Option Elem)
two_nodes =
    some (record { p_next = none; p_datum = some 8 })
    ∷ some (record { p_next = some 0; p_datum = some 7 })
    ∷ []

abbrev two_cells : List (ℕ × ℕ)
two_cells = (1, 7) ∷ (0, 8) ∷ []

abbrev two_elems : Option ListState
two_elems = some (list_of two_nodes 2 none two_cells)

two_elems-Holds : Holds two_elems (7 ∷ 8 ∷ [])
unfolding node_at
two_elems-Holds = record {
  nodes = two_nodes;
  nb = 2;
  iter = none;
  xs = two_cells;
  is_list = refl;
  chained = (refl, (omega arith, tt), (refl, tt, tt));
  data_is = refl;
}

-- The count of the elements stays as it was.
removed :
    remove_element_from_list 3 two_elems (some 8)
    ≡ some (
      pos 1,
      some (record {
        nodes = none ∷ some (record { p_next = none; p_datum = some 7 }) ∷ [];
        signature = 0xD1B2FD5E;
        nb_elem = 2;
        p_first = some 1;
        p_last = some 1;
        p_current_iter = some 1;
      }),
    )
unfolding remove_element_from_list find_node remove_node_from_list unlink free_node node_at
    same_pointer
removed = refl

overflow : copy_data_to_array 3 two_elems 1 ≡ some (neg 8, some 7 ∷ [])
unfolding copy_data_to_array copy_loop node_at
overflow = refl

append_elem_at_tail-Holds_example :
    (p' : Option ListState) × (append_elem_at_tail true two_elems (some 9) ≡ some (lkls_ok, p'))
    × Holds p' (7 ∷ 8 ∷ 9 ∷ [])
append_elem_at_tail-Holds_example =
    append_elem_at_tail-Holds two_elems (7 ∷ 8 ∷ []) 9 two_elems-Holds

pop_first_element_from_list-Pops_example : Pops two_elems (7 ∷ 8 ∷ [])
pop_first_element_from_list-Pops_example =
    pop_first_element_from_list-Pops two_elems (7 ∷ 8 ∷ []) two_elems-Holds

get_datum_in_list_next-order_example :
    (p' : Option ListState) × (collect 3 (get_datum_in_list_first two_elems)
      ≡ some (7 ∷ 8 ∷ [], p'))
    × Holds p' (7 ∷ 8 ∷ [])
get_datum_in_list_next-order_example =
    get_datum_in_list_next-order two_elems (7 ∷ 8 ∷ []) 3 two_elems-Holds (omega arith)

abbrev names : ℕ → Bytes
names a = if a == 7 then codes "gx*" else codes "xmltp"

names-NoNul : All (λ d. NoNul (names d)) (7 ∷ 8 ∷ [])
names-NoNul = omega arith

remove_element_from_list-Holds_example :
    (p' : Option ListState) × (remove_element_from_list 3 two_elems (some 8) ≡ some (pos 1, p'))
    × Holds p' (7 ∷ [])
remove_element_from_list-Holds_example =
    remove_element_from_list-Holds 3 two_elems (7 ∷ 8 ∷ []) 8 two_elems-Holds (omega arith)

destroy_linked_list-Freed_example :
    (nodes' : List (Option Elem)) × (destroy_linked_list 3 two_elems ≡ some (pos 0, some nodes'))
    × Freed two_elems-Holds.nodes nodes' two_elems-Holds.xs
destroy_linked_list-Freed_example =
    destroy_linked_list-Freed 3 two_elems (7 ∷ 8 ∷ []) two_elems-Holds (omega arith)
