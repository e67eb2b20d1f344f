-- ===== src/LinkList/Scan/Destroy.antt =====
-- `lkls_destroy_linked_list` of src/misc_fn/linklist.c on a store of nodes.
use xmltp.Prelude.{
  ℕ, zero, suc, ◌<◌, ◌≡◌, ◌≢◌, refl, sym, ap, ◌∙◌, Option, none, some, List, [], ◌∷◌, arith, pos,
  length, All, set,
}
use xmltp.LinkList.{Elem, ListState, node_at, on_list}
use xmltp.LinkList.Chain.{first_address, Chain, Chain-set, node_at-set_other}
use xmltp.LinkList.Queue.{Holds}
use xmltp.LinkList.Scan.{destroy_loop, destroy_linked_list}
use xmltp.LinkList.Scan.Search.{length-Holds}

-- The store without these nodes.
abbrev free_all : List (Option Elem) → List (ℕ × ℕ) → List (Option Elem)
free_all nodes [] = nodes
free_all nodes (x ∷ xs) = free_all (set nodes x.0 none) xs

destroy_loop-free_all :
    (fuel : ℕ) (nodes : List (Option Elem)) (xs : List (ℕ × ℕ))
    → Chain nodes xs
    → length xs < fuel
    → destroy_loop fuel nodes (first_address xs) ≡ some (free_all nodes xs)
unfolding destroy_loop
destroy_loop-free_all zero nodes xs c l = absurd (omega arith)
destroy_loop-free_all (suc fuel) nodes [] c l = refl
destroy_loop-free_all (suc fuel) nodes ((a, d) ∷ xs) (n, o, c) l =
    rw (n, destroy_loop)
      (destroy_loop-free_all fuel (set nodes a none) xs (Chain-set nodes a none xs o c)
        (omega arith))

node_at-freed : (nodes : List (Option Elem)) (a : ℕ) → node_at (set nodes a none) (some a) ≡ none
unfolding node_at
node_at-freed [] a = refl
node_at-freed (x ∷ nodes) zero = refl
node_at-freed (x ∷ nodes) (suc a) = node_at-freed nodes a

free_all-other :
    (nodes : List (Option Elem)) (xs : List (ℕ × ℕ)) (b : ℕ)
    → All (λ x. x.0 ≢ b) xs
    → node_at (free_all nodes xs) (some b) ≡ node_at nodes (some b)
free_all-other nodes [] b o = refl
free_all-other nodes ((a, d) ∷ xs) b o =
    free_all-other (set nodes a none) xs b o.1 ∙ node_at-set_other nodes a b none (λ z. o.0 (sym z))

free_all-own :
    (nodes : List (Option Elem)) (xs : List (ℕ × ℕ))
    → Chain nodes xs
    → All (λ x. node_at (free_all nodes xs) (some x.0) ≡ none) xs
free_all-own nodes [] c = tt
free_all-own nodes ((a, d) ∷ xs) (n, o, c) = (
  free_all-other (set nodes a none) xs a o ∙ node_at-freed nodes a,
  free_all-own (set nodes a none) xs (Chain-set nodes a none xs o c),
)

-- What `nodes'` is of the store of a list whose nodes were freed, and no others.
pub record Freed (nodes nodes' : List (Option Elem)) (xs : List (ℕ × ℕ)) : Type 0 where
  pub own : All (λ x. node_at nodes' (some x.0) ≡ none) xs
  pub others : (b : ℕ) → All (λ x. x.0 ≢ b) xs → node_at nodes' (some b) ≡ node_at nodes (some b)

-- `lkls_destroy_linked_list`, with a round for each datum of a good list and one more: it returns
-- 0, follows no pointer to a node that it freed, and frees each node of the list and no other.
pub destroy_linked_list-Freed :
    (fuel : ℕ) (p : Option ListState) (ds : List ℕ) (h : Holds p ds)
    → length ds < fuel
    → (nodes' : List (Option Elem)) × (destroy_linked_list fuel p ≡ some (pos 0, some nodes'))
      × Freed h.nodes nodes' h.xs
unfolding destroy_linked_list
destroy_linked_list-Freed fuel p ds h l =
    let long : length h.xs < fuel = omega (arith, length-Holds p ds h) in
    (
      free_all h.nodes h.xs,
      ap (destroy_linked_list fuel) h.is_list
          ∙ rw
              (destroy_loop-free_all fuel h.nodes h.xs h.chained long, on_list, destroy_linked_list)
              refl,
      record { own = free_all-own h.nodes h.xs h.chained; others = free_all-other h.nodes h.xs },
    )
