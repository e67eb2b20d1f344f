-- ===== src/LinkList.antt =====
-- src/misc_fn/linklist.c: singly linked lists of data pointers, with an iterator.
-- The nodes stand in a store, the list of what `calloc` returned, by address; a node that was freed
-- is `none` there. A pointer is an address or, for NULL, `none`. A handle is an `Option ListState`.
-- Where the code follows a pointer to no node, the outer option of the result is `none`.
pub mod Chain
pub mod Queue
pub mod Scan
pub mod Iter
mod Tests
use xmltp.Prelude.{
  ℕ, zero, suc, ◌+◌, ◌-◌, Bool, true, false, Option, none, some, List, [], ◌∷◌, ◌++◌, ℤ, pos,
  negsuc, neg, ◌==◌, leb, ltb, if◌then◌else◌, length, get_elem?, get_or, set,
}
use xmltp.Bytes.{Bytes, strlen, strcmp_eq, strncmp_eq}

-- LINKLIST_ELEM_T
pub record Elem : Type 0 where
  pub p_next : Option ℕ
  pub p_datum : Option ℕ

-- LINKLIST_HOLDER_T, with the store of the nodes.
pub record ListState : Type 0 where
  pub nodes : List (Option Elem)
  pub signature : ℕ
  pub nb_elem : ℕ
  pub p_first : Option ℕ
  pub p_last : Option ℕ
  pub p_current_iter : Option ℕ

abbrev pub lkls_signature : ℕ
lkls_signature = 0xD1B2FD5E

abbrev pub lkls_found : ℤ
lkls_found = pos 1

abbrev pub lkls_ok : ℤ
lkls_ok = pos 0

abbrev pub err_out_of_mem : ℤ
err_out_of_mem = neg 1

abbrev pub err_null_list_ptr : ℤ
err_null_list_ptr = neg 2

abbrev pub err_bad_signature : ℤ
err_bad_signature = neg 3

abbrev pub err_null_datum_ptr : ℤ
err_null_datum_ptr = neg 4

abbrev pub err_array_overflow : ℤ
err_array_overflow = neg 8

-- `sf_check_linklist_signature`, with the list where it is good.
abbrev pub on_list {ℓ} : {A : Type ℓ} → Option ListState → (ℤ → A) → (ListState → A) → A
on_list none bad good = bad err_null_list_ptr
on_list (some l) bad good = elim (l.signature == lkls_signature) [
  | false ↦ bad err_bad_signature
  | true ↦ good l
]

-- The node at a pointer.
unfoldable pub node_at : List (Option Elem) → Option ℕ → Option Elem
node_at nodes none = none
node_at nodes (some a) = elim (get_elem? nodes a) [ none ↦ none | some o ↦ o ]

-- `lkls_new_linked_list`, where `calloc` succeeds.
abbrev pub new_linked_list : ListState
new_linked_list = record {
  nodes = [];
  signature = lkls_signature;
  nb_elem = 0;
  p_first = none;
  p_last = none;
  p_current_iter = none;
}

-- `sf_add_elem_head_or_tail` behind its `calloc`.
pub link_head : ListState → ℕ → ℕ → ListState
link_head l new datum = record l {
  nodes = l.nodes ++ some (record { p_next = l.p_first; p_datum = some datum }) ∷ [];
  p_first = some new;
  nb_elem = l.nb_elem + 1;
}

pub link_tail : ListState → ℕ → ℕ → Option (ℤ × ListState)
link_tail l new datum =
    let nodes' = l.nodes ++ some (record { p_next = none; p_datum = some datum }) ∷ [] in
    elim l.p_last [
      | none ↦ some (neg 99, record l { nodes = nodes' })
      | some last ↦ elim (node_at nodes' (some last)) [
        | none ↦ none
        | some e ↦ some (
          lkls_ok,
          record l {
            nodes = set nodes' last (some (record e { p_next = some new }));
            p_last = some new;
            nb_elem = l.nb_elem + 1;
          },
        )
      ]
    ]

pub link_elem : Bool → ListState → ℕ → Option (ℤ × ListState)
link_elem at_head l datum =
    let new = length l.nodes in
    elim l.p_first [
      | none ↦ some (
        lkls_ok,
        record l {
          nodes = l.nodes ++ some (record { p_next = none; p_datum = some datum }) ∷ [];
          p_first = some new;
          p_last = some new;
          p_current_iter = none;
          nb_elem = 1;
        },
      )
      | some first ↦ elim at_head [
        | true ↦ some (lkls_ok, link_head l new datum)
        | false ↦ link_tail l new datum
      ]
    ]

-- `sf_add_elem_head_or_tail`; `granted` tells whether `calloc` finds memory.
pub add_elem_head_or_tail :
    Bool → Option ListState → Option ℕ → Bool → Option (ℤ × Option ListState)
add_elem_head_or_tail granted p none at_head = some (err_null_datum_ptr, p)
add_elem_head_or_tail granted p (some datum) at_head =
    on_list p (λ rc. some (rc, p))
      (λ l. elim granted [
        | false ↦ some (err_out_of_mem, p)
        | true ↦ elim (link_elem at_head l datum) [
          | none ↦ none
          | some (rc, l') ↦ some (rc, some l')
        ]
      ])

-- `lkls_insert_elem_at_head`
pub insert_elem_at_head : Bool → Option ListState → Option ℕ → Option (ℤ × Option ListState)
insert_elem_at_head granted p datum = add_elem_head_or_tail granted p datum true

-- `lkls_append_elem_at_tail` and `lkls_add_elem`
pub append_elem_at_tail : Bool → Option ListState → Option ℕ → Option (ℤ × Option ListState)
append_elem_at_tail granted p datum = add_elem_head_or_tail granted p datum false

unfoldable pub same_pointer : ℕ → Option ℕ → Bool
same_pointer a none = false
same_pointer a (some b) = a == b

-- The links of `sf_remove_node_from_list`, for the node `e` at the address `a`.
pub unlink : ListState → ℕ → Elem → Option ℕ → Option ListState
unlink l a e p_prev = elim (same_pointer a l.p_first) [
  | true ↦ elim e.p_next [
    | none ↦ some (record l { p_first = none; p_last = none; p_current_iter = none })
    | some next ↦ some (record l { p_first = some next; p_current_iter = none })
  ]
  | false ↦ elim p_prev [
    | none ↦ some (record l { p_current_iter = none })
    | some prev ↦ elim (node_at l.nodes (some prev)) [
      | none ↦ none
      | some b ↦ some (record l {
        nodes = set l.nodes prev (some (record b { p_next = e.p_next }));
        p_current_iter = some prev;
      })
    ]
  ]
]

-- What follows in `sf_remove_node_from_list`: the last node, and `free`.
pub free_node : ℕ → Option ℕ → ListState → ListState
free_node a p_prev l =
    let p_last' = if same_pointer a l.p_last then p_prev else l.p_last in
    record l { p_last = p_last'; nodes = set l.nodes a none }

-- `sf_remove_node_from_list` on a list whose signature is good, for the node at `a`.
pub remove_node_from_list : ListState → ℕ → Option ℕ → Option ListState
remove_node_from_list l a p_prev = elim (node_at l.nodes (some a)) [
  | none ↦ none
  | some e ↦ elim (unlink l a e p_prev) [ none ↦ none | some l' ↦ some (free_node a p_prev l') ]
]

-- `lkls_pop_first_element_from_list`
pub pop_first_element_from_list : Option ListState → Option (Option ℕ × Option ListState)
pop_first_element_from_list p =
    on_list p (λ _. some (none, p))
      (λ l. elim l.p_first [
        | none ↦ some (none, p)
        | some a ↦ elim (node_at l.nodes (some a)) [
          | none ↦ none
          | some e ↦ elim (remove_node_from_list l a none) [
            | none ↦ none
            | some l' ↦ some (e.p_datum, some l')
          ]
        ]
      ])

-- `lkls_get_datum_in_list_first`
pub get_datum_in_list_first : Option ListState → Option (Option ℕ × Option ListState)
get_datum_in_list_first p =
    on_list p (λ _. some (none, p))
      (λ l. elim l.p_first [
        | none ↦ some (none, p)
        | some a ↦ elim (node_at l.nodes (some a)) [
          | none ↦ none
          | some e ↦ some (e.p_datum, some (record l { p_current_iter = some a }))
        ]
      ])

-- `lkls_get_datum_in_list_next`
pub get_datum_in_list_next : Option ListState → Option (Option ℕ × Option ListState)
get_datum_in_list_next p =
    on_list p (λ _. some (none, p))
      (λ l. elim l.p_current_iter [
        | none ↦ get_datum_in_list_first p
        | some a ↦ elim (same_pointer a l.p_last) [
          | true ↦ some (none, p)
          | false ↦ elim (node_at l.nodes (some a)) [
            | none ↦ none
            | some e ↦ elim (node_at l.nodes e.p_next) [
              | none ↦ none
              | some e' ↦ some (e'.p_datum, some (record l { p_current_iter = e.p_next }))
            ]
          ]
        ]
      ])
