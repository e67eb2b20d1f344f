-- ===== src/LinkList/Queue.antt =====
-- The lists of src/misc_fn/linklist.c as double-ended queues of data.
use xmltp.Prelude.{
  ℕ, suc, ◌+◌, ◌≡◌, ◌≢◌, refl, sym, ap, ◌∙◌, Option, none, some, List, [], ◌∷◌, ◌++◌, arith, length,
  set, All, true, false,
}
use mathlib.Core.Path.{subst}
use xmltp.LinkList.{
  Elem, ListState, lkls_signature, lkls_ok, node_at, link_head, link_tail, link_elem,
  add_elem_head_or_tail, insert_elem_at_head, append_elem_at_tail, same_pointer, unlink, free_node,
  remove_node_from_list, pop_first_element_from_list,
}
use xmltp.LinkList.Chain.{
  first_address, Chain, final, last_address, node_at-new, Chain-append, Chain-set, Chain-length,
  final-All, final-append, Chain-link,
}

-- The list that holds these nodes.
abbrev pub list_of : List (Option Elem) → ℕ → Option ℕ → List (ℕ × ℕ) → ListState
list_of nodes nb iter xs = record {
  nodes = nodes;
  signature = lkls_signature;
  nb_elem = nb;
  p_first = first_address xs;
  p_last = last_address xs;
  p_current_iter = iter;
}

abbrev pub data_of : List (ℕ × ℕ) → List ℕ
data_of [] = []
data_of ((a, d) ∷ xs) = d ∷ data_of xs

-- A good handle to a list with these data.
pub record Holds (p : Option ListState) (ds : List ℕ) : Type 0 where
  pub nodes : List (Option Elem)
  pub nb : ℕ
  pub iter : Option ℕ
  pub xs : List (ℕ × ℕ)
  pub is_list : p ≡ some (list_of nodes nb iter xs)
  pub chained : Chain nodes xs
  pub data_is : data_of xs ≡ ds

data_of-append : (xs ys : List (ℕ × ℕ)) → data_of (xs ++ ys) ≡ data_of xs ++ data_of ys
data_of-append [] ys = refl
data_of-append ((a, d) ∷ xs) ys = ap (◌∷◌ d) (data_of-append xs ys)

pub length-data_of : (xs : List (ℕ × ℕ)) → length (data_of xs) ≡ length xs
length-data_of [] = refl
length-data_of (x ∷ xs) = ap suc (length-data_of xs)

append-list_of :
    (nodes : List (Option Elem)) (nb : ℕ) (iter : Option ℕ) (xs : List (ℕ × ℕ)) (d : ℕ)
    → Chain nodes xs
    → (p' : Option ListState) × (append_elem_at_tail true (some (list_of nodes nb iter xs)) (some d)
        ≡ some (lkls_ok, p'))
      × Holds p' (data_of xs ++ d ∷ [])
unfolding append_elem_at_tail add_elem_head_or_tail link_elem link_tail node_at
append-list_of nodes nb iter [] d c = (
  some _,
  refl,
  record {
    nodes = _;
    nb = 1;
    iter = none;
    xs = (length nodes, d) ∷ [];
    is_list = refl;
    chained = (node_at-new nodes _, tt, tt);
    data_is = refl;
  },
)
append-list_of nodes nb iter (x ∷ xs) d c =
    let e : Elem = record { p_next = none; p_datum = some d } in
    let (last, at, c') =
      Chain-link (nodes ++ some e ∷ []) x xs (length nodes) d
        (Chain-append nodes (some e ∷ []) (x ∷ xs) c) (node_at-new nodes e)
        (Chain-length nodes (x ∷ xs) c) in
    let ys = (x ∷ xs) ++ (length nodes, d) ∷ [] in
    let nodes' =
      set (nodes ++ some e ∷ []) (final x xs)
        (some (record last { p_next = some (length nodes) })) in
    (
      some (list_of nodes' (nb + 1) iter ys),
      rw (at, link_tail, final-append x xs (length nodes, d)) refl,
      record {
        nodes = nodes';
        nb = nb + 1;
        iter = iter;
        xs = ys;
        is_list = refl;
        chained = c';
        data_is = data_of-append (x ∷ xs) _;
      },
    )

-- `lkls_append_elem_at_tail`, where memory is found: a list of data has the new one behind them.
pub append_elem_at_tail-Holds :
    (p : Option ListState) (ds : List ℕ) (d : ℕ)
    → Holds p ds
    → (p' : Option ListState) × (append_elem_at_tail true p (some d) ≡ some (lkls_ok, p'))
      × Holds p' (ds ++ d ∷ [])
append_elem_at_tail-Holds p ds d h =
    let (p', r, h') = append-list_of h.nodes h.nb h.iter h.xs d h.chained in
    (
      p',
      ap (λ q. append_elem_at_tail true q (some d)) h.is_list ∙ r,
      subst (λ es. Holds p' (es ++ d ∷ [])) h.data_is h',
    )

insert-list_of :
    (nodes : List (Option Elem)) (nb : ℕ) (iter : Option ℕ) (xs : List (ℕ × ℕ)) (d : ℕ)
    → Chain nodes xs
    → (p' : Option ListState) × (insert_elem_at_head true (some (list_of nodes nb iter xs)) (some d)
        ≡ some (lkls_ok, p'))
      × Holds p' (d ∷ data_of xs)
unfolding insert_elem_at_head add_elem_head_or_tail link_elem link_head
insert-list_of nodes nb iter [] d c = (
  some _,
  refl,
  record {
    nodes = _;
    nb = 1;
    iter = none;
    xs = (length nodes, d) ∷ [];
    is_list = refl;
    chained = (node_at-new nodes _, tt, tt);
    data_is = refl;
  },
)
insert-list_of nodes nb iter (x ∷ xs) d c = (
  some _,
  refl,
  record {
    nodes = _;
    nb = nb + 1;
    iter = iter;
    xs = (length nodes, d) ∷ x ∷ xs;
    is_list = refl;
    chained = (node_at-new nodes _, Chain-length nodes (x ∷ xs) c, Chain-append nodes _ (x ∷ xs) c);
    data_is = refl;
  },
)

-- `lkls_insert_elem_at_head`, where memory is found: a list of data has the new one before them.
insert_elem_at_head-Holds :
    (p : Option ListState) (ds : List ℕ) (d : ℕ)
    → Holds p ds
    → (p' : Option ListState) × (insert_elem_at_head true p (some d) ≡ some (lkls_ok, p'))
      × Holds p' (d ∷ ds)
insert_elem_at_head-Holds p ds d h =
    let (p', r, h') = insert-list_of h.nodes h.nb h.iter h.xs d h.chained in
    (
      p',
      ap (λ q. insert_elem_at_head true q (some d)) h.is_list ∙ r,
      subst (λ es. Holds p' (d ∷ es)) h.data_is h',
    )

-- What a pop of a list returns and leaves, on the data.
abbrev pub Pops : Option ListState → List ℕ → Type 0
Pops p [] = pop_first_element_from_list p ≡ some (none, p)
Pops p (d ∷ ds) =
    (p' : Option ListState) × (pop_first_element_from_list p ≡ some (some d, p')) × Holds p' ds

pub same_pointer_refl : (a : ℕ) → same_pointer a (some a) ≡ true
unfolding same_pointer
same_pointer_refl a = ground arith

pub same_pointer_other : (a b : ℕ) → b ≢ a → same_pointer a (some b) ≡ false
unfolding same_pointer
same_pointer_other a b n = ground arith

pub remove-first :
    (nodes : List (Option Elem)) (nb : ℕ) (iter : Option ℕ) (a d : ℕ) (xs : List (ℕ × ℕ))
    → node_at nodes (some a) ≡ some (record { p_next = first_address xs; p_datum = some d })
    → All (λ x. x.0 ≢ a) xs
    → remove_node_from_list (list_of nodes nb iter ((a, d) ∷ xs)) a none
      ≡ some (list_of (set nodes a none) nb none xs)
unfolding remove_node_from_list unlink free_node node_at same_pointer
remove-first nodes nb iter a d [] n o = rw (n, unlink, same_pointer_refl a) refl
remove-first nodes nb iter a d (x ∷ xs) n o =
    rw
      (
        n,
        unlink,
        same_pointer_refl a,
        free_node,
        same_pointer_other a (final x xs) (final-All x xs a o),
      )
      refl

pop-list_of :
    (nodes : List (Option Elem)) (nb : ℕ) (iter : Option ℕ) (xs : List (ℕ × ℕ))
    → Chain nodes xs
    → Pops (some (list_of nodes nb iter xs)) (data_of xs)
unfolding pop_first_element_from_list node_at
pop-list_of nodes nb iter [] c = refl
pop-list_of nodes nb iter ((a, d) ∷ []) (n, o, c) = (
  some (list_of (set nodes a none) nb none []),
  rw (n, remove-first nodes nb iter a d [] n o) refl,
  record { nodes = _; nb = nb; iter = none; xs = []; is_list = refl; chained = tt; data_is = refl },
)
pop-list_of nodes nb iter ((a, d) ∷ x ∷ xs) (n, o, c) = (
  some (list_of (set nodes a none) nb none (x ∷ xs)),
  rw (n, remove-first nodes nb iter a d (x ∷ xs) n o) refl,
  record {
    nodes = _;
    nb = nb;
    iter = none;
    xs = x ∷ xs;
    is_list = refl;
    chained = Chain-set nodes a none (x ∷ xs) o c;
    data_is = refl;
  },
)

-- `lkls_pop_first_element_from_list`: it returns the first of the data and leaves the rest, or NULL
-- where there are none.
pub pop_first_element_from_list-Pops : (p : Option ListState) (ds : List ℕ) → Holds p ds → Pops p ds
pop_first_element_from_list-Pops p ds h =
    subst (λ es. Pops p es) h.data_is
      (subst (λ q. Pops q (data_of h.xs)) (sym h.is_list)
        (pop-list_of h.nodes h.nb h.iter h.xs h.chained))
