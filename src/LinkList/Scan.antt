-- ===== src/LinkList/Scan.antt =====
-- The searches of src/misc_fn/linklist.c. Each loop takes fuel, one round for each node and one for
-- the end; the outer `none` is also the end of the fuel.
pub mod Pattern
pub mod Search
pub mod Unlink
pub mod Remove
pub mod Destroy
use xmltp.Prelude.{
  ℕ, zero, suc, ◌+◌, ◌-◌, Bool, true, false, ◌&&◌, Option, none, some, List, [], ◌∷◌, ◌++◌, ℤ, pos,
  negsuc, neg, ◌==◌, leb, ltb, if◌then◌else◌, length, get_or, set,
}
use xmltp.Bytes.{Bytes, strlen, strcmp_eq, strncmp_eq}
use xmltp.LinkList.{
  Elem, ListState, on_list, node_at, lkls_ok, lkls_found, err_null_datum_ptr, err_array_overflow,
  remove_node_from_list, same_pointer,
}

-- The loop of `lkls_remove_element_from_list`: the node with the datum, and the one before it.
unfoldable pub find_node :
    ℕ → List (Option Elem) → ℕ → Option ℕ → Option ℕ → Option (Option (ℕ × Option ℕ))
find_node zero nodes datum p_prev p_curr = none
find_node (suc fuel) nodes datum p_prev none = some none
find_node (suc fuel) nodes datum p_prev (some a) = elim (node_at nodes (some a)) [
  | none ↦ none
  | some e ↦ elim (same_pointer datum e.p_datum) [
    | true ↦ some (some (a, p_prev))
    | false ↦ find_node fuel nodes datum (some a) e.p_next
  ]
]

-- `lkls_remove_element_from_list`
unfoldable pub remove_element_from_list :
    ℕ → Option ListState → Option ℕ → Option (ℤ × Option ListState)
remove_element_from_list fuel p p_datum =
    on_list p (λ rc. some (rc, p))
      (λ l. elim p_datum [
        | none ↦ some (err_null_datum_ptr, p)
        | some datum ↦ elim (find_node fuel l.nodes datum none l.p_first) [
          | none ↦ none
          | some none ↦ some (lkls_ok, p)
          | some (some (a, p_prev)) ↦ elim (remove_node_from_list l a p_prev) [
            | none ↦ none
            | some l' ↦ some (lkls_found, some l')
          ]
        ]
      ])

-- The loop of `lkls_find_elem_using_function`.
pub find_loop : ℕ → List (Option Elem) → (ℕ → ℤ) → Option ℕ → Option (Option ℕ)
find_loop zero nodes f p_curr = none
find_loop (suc fuel) nodes f none = some none
find_loop (suc fuel) nodes f (some a) = elim (node_at nodes (some a)) [
  | none ↦ none
  | some e ↦ elim e.p_datum [
    | none ↦ find_loop fuel nodes f e.p_next
    | some d ↦ elim (f d) [
      | negsuc _ ↦ some none
      | pos zero ↦ find_loop fuel nodes f e.p_next
      | pos (suc _) ↦ some (some d)
    ]
  ]
]

-- `lkls_find_elem_using_function`
pub find_elem_using_function : ℕ → Option ListState → Option ℕ → (ℕ → ℕ → ℤ) → Option (Option ℕ)
find_elem_using_function fuel p p_datum funct_ptr =
    on_list p (λ _. some none)
      (λ l. elim p_datum [
        | none ↦ some none
        | some datum ↦ find_loop fuel l.nodes (funct_ptr datum) l.p_first
      ])

-- The loop of `lkls_copy_data_to_array` at `ctr`: the code, and the elements written from there.
unfoldable pub copy_loop : ℕ → List (Option Elem) → ℕ → ℕ → Option ℕ → Option (ℤ × List (Option ℕ))
copy_loop zero nodes max_sz ctr p_curr = none
copy_loop (suc fuel) nodes max_sz ctr none =
    some (pos ctr, if ltb ctr max_sz then none ∷ [] else [])
copy_loop (suc fuel) nodes max_sz ctr (some a) = elim (node_at nodes (some a)) [
  | none ↦ none
  | some e ↦ elim (leb max_sz ctr) [
    | true ↦ some (err_array_overflow, [])
    | false ↦ elim (copy_loop fuel nodes max_sz (ctr + 1) e.p_next) [
      | none ↦ none
      | some (rc, ptrs) ↦ some (rc, e.p_datum ∷ ptrs)
    ]
  ]
]

-- `lkls_copy_data_to_array`
unfoldable pub copy_data_to_array : ℕ → Option ListState → ℕ → Option (ℤ × List (Option ℕ))
copy_data_to_array fuel p max_sz =
    on_list p (λ rc. some (rc, []))
      (λ l. elim l.p_first [
        | none ↦ some (pos 0, [])
        | some a ↦ copy_loop fuel l.nodes max_sz 0 (some a)
      ])

-- The tests in the loop of `lkls_is_string_in_list_ext`.
unfoldable pub matches : Bool → Bytes → Bytes → Bool
matches use_pattern_matching p_str a_string =
    if use_pattern_matching && (ltb 0 (strlen p_str) && get_or p_str (strlen p_str - 1) 0 == b'*')
    then strncmp_eq p_str a_string (strlen p_str - 1)
    else strcmp_eq p_str a_string

-- The loop of `lkls_is_string_in_list_ext`; `string_at` is what stands at the address of a datum.
pub string_loop : ℕ → List (Option Elem) → (ℕ → Bytes) → Bool → Bytes → Option ℕ → Option Bool
string_loop zero nodes string_at pattern a_string p_curr = none
string_loop (suc fuel) nodes string_at pattern a_string none = some false
string_loop (suc fuel) nodes string_at pattern a_string (some a) = elim (node_at nodes (some a)) [
  | none ↦ none
  | some e ↦ elim e.p_datum [
    | none ↦ string_loop fuel nodes string_at pattern a_string e.p_next
    | some d ↦ elim (matches pattern (string_at d) a_string) [
      | true ↦ some true
      | false ↦ string_loop fuel nodes string_at pattern a_string e.p_next
    ]
  ]
]

-- `lkls_is_string_in_list_ext`
pub is_string_in_list_ext : ℕ → (ℕ → Bytes) → Option ListState → Bytes → Bool → Option Bool
is_string_in_list_ext fuel string_at p a_string use_pattern_matching =
    on_list p (λ _. some false)
      (λ l. string_loop fuel l.nodes string_at use_pattern_matching a_string l.p_first)

-- `lkls_is_string_in_list`
pub is_string_in_list : ℕ → (ℕ → Bytes) → Option ListState → Bytes → Option Bool
is_string_in_list fuel string_at p a_string = is_string_in_list_ext fuel string_at p a_string false

-- The loop of `lkls_destroy_linked_list`, which reads a node before it frees it.
pub destroy_loop : ℕ → List (Option Elem) → Option ℕ → Option (List (Option Elem))
destroy_loop zero nodes p_current = none
destroy_loop (suc fuel) nodes none = some nodes
destroy_loop (suc fuel) nodes (some a) = elim (node_at nodes (some a)) [
  | none ↦ none
  | some e ↦ destroy_loop fuel (set nodes a none) e.p_next
]

-- `lkls_destroy_linked_list`: the code, and what is left of the store where the handle was freed.
pub destroy_linked_list : ℕ → Option ListState → Option (ℤ × Option (List (Option Elem)))
destroy_linked_list fuel p =
    on_list p (λ rc. some (rc, none))
      (λ l. elim (destroy_loop fuel l.nodes l.p_first) [
        | none ↦ none
        | some nodes ↦ some (pos 0, some nodes)
      ])
