-- ===== src/LinkList/Scan/Remove.antt =====
-- `lkls_remove_element_from_list` of src/misc_fn/linklist.c on the data of a list.
use xmltp.Prelude.{
  ℕ, ◌<◌, ◌≡◌, refl, sym, ap, ◌∙◌, Option, none, some, List, [], ◌∷◌, arith, ℤ, length, Bool, true,
  false, inl, inr, if◌then◌else◌, Bool-cases, set, ◌==◌,
}
use mathlib.Core.Path.{subst}
use xmltp.LinkList.{ListState, on_list, lkls_ok, lkls_found, same_pointer, remove_node_from_list}
use xmltp.LinkList.Chain.{first_address, Chain, Chain-set}
use xmltp.LinkList.Queue.{list_of, data_of, length-data_of, Holds, remove-first}
use xmltp.LinkList.Scan.Unlink.{
  Store, Cells, find_cell, remove_cell, has_cell, find_node-find_cell, Searched, missing, present,
  search-Searched, remove-Unlinked,
}
use xmltp.LinkList.Scan.{find_node, remove_element_from_list}

-- The first of the data that is equal to `d` goes.
abbrev pub remove_datum : ℕ → List ℕ → List ℕ
remove_datum d [] = []
remove_datum d (e ∷ ds) = let rest = remove_datum d ds in if d == e then ds else e ∷ rest

abbrev pub mem : ℕ → List ℕ → Bool
mem d [] = false
mem d (e ∷ ds) = if d == e then true else mem d ds

data_of-remove_cell :
    (d : ℕ) (xs : Cells) → data_of (remove_cell d xs) ≡ remove_datum d (data_of xs)
unfolding same_pointer
data_of-remove_cell d [] = refl
data_of-remove_cell d ((a, e) ∷ xs) = elim (Bool-cases (d == e)) [
  | inl m ↦ rw m refl
  | inr m ↦ rw m (ap (◌∷◌ e) (data_of-remove_cell d xs))
]

mem-data_of : (d : ℕ) (xs : Cells) → has_cell d xs ≡ mem d (data_of xs)
unfolding same_pointer
mem-data_of d [] = refl
mem-data_of d ((a, e) ∷ xs) = ap (λ b. if d == e then true else b) (mem-data_of d xs)

abbrev pub found_code : Bool → ℤ
found_code b = if b then lkls_found else lkls_ok

-- What the removal of a datum returns and leaves, on the nodes.
abbrev Removes : ℕ → ℕ → Option ListState → Cells → Type 0
Removes fuel d p xs =
    (p' : Option ListState) × (remove_element_from_list fuel p (some d)
      ≡ some (found_code (has_cell d xs), p'))
    × Holds p' (data_of (remove_cell d xs))

module _ (nodes : Store) (nb : ℕ) (iter : Option ℕ) (d fuel : ℕ) where
  remove-missing :
      (xs : Cells)
      → Chain nodes xs
      → length xs < fuel
      → find_cell d none xs ≡ none
      → has_cell d xs ≡ false
      → remove_cell d xs ≡ xs
      → Removes fuel d (some (list_of nodes nb iter xs)) xs
  unfolding remove_element_from_list
  remove-missing xs c l f h r =
      let searched : find_node fuel nodes d none (first_address xs) ≡ some none =
        find_node-find_cell nodes d fuel none xs c l ∙ ap some f in
      (
        some (list_of nodes nb iter xs),
        rw (searched, on_list, remove_element_from_list, h) refl,
        record {
          nodes = nodes;
          nb = nb;
          iter = iter;
          xs = xs;
          is_list = refl;
          chained = c;
          data_is = ap data_of (sym r);
        },
      )

  remove-present :
      (xs ws : Cells) (nodes' : Store) (iter' : Option ℕ) (a : ℕ) (prev : Option ℕ)
      → Chain nodes xs
      → length xs < fuel
      → find_cell d none xs ≡ some (a, prev)
      → has_cell d xs ≡ true
      → remove_cell d xs ≡ ws
      → remove_node_from_list (list_of nodes nb iter xs) a prev ≡ some (list_of nodes' nb iter' ws)
      → Chain nodes' ws
      → Removes fuel d (some (list_of nodes nb iter xs)) xs
  unfolding remove_element_from_list
  remove-present xs ws nodes' iter' a prev c l f h r m c' =
      let searched : find_node fuel nodes d none (first_address xs) ≡ some (some (a, prev)) =
        find_node-find_cell nodes d fuel none xs c l ∙ ap some f in
      (
        some (list_of nodes' nb iter' ws),
        rw (searched, on_list, remove_element_from_list, m, h) refl,
        record {
          nodes = nodes';
          nb = nb;
          iter = iter';
          xs = ws;
          is_list = refl;
          chained = c';
          data_is = ap data_of (sym r);
        },
      )

  remove-behind :
      (x : ℕ × ℕ) (zs : Cells)
      → Chain nodes (x ∷ zs)
      → length (x ∷ zs) < fuel
      → same_pointer d (some x.1) ≡ false
      → Searched nodes d x zs
      → Removes fuel d (some (list_of nodes nb iter (x ∷ zs))) (x ∷ zs)
  remove-behind x zs c l m (missing f h r) =
      remove-missing (x ∷ zs) c l (rw m f) (rw m h) (rw m (ap (◌∷◌ x) r))
  remove-behind (a0, e0) zs (n, o, c) l m (present a b f h u) =
      remove-present ((a0, e0) ∷ zs) ((a0, e0) ∷ remove_cell d zs) _ (some b) a (some b) (n, o, c) l
        (rw m f) (rw m h) (rw m refl)
        (remove-Unlinked nodes nb iter (a0, e0) zs (remove_cell d zs) a b o u) u.chained

  remove-list_of :
      (xs : Cells)
      → Chain nodes xs
      → length xs < fuel
      → Removes fuel d (some (list_of nodes nb iter xs)) xs
  remove-list_of [] c l = remove-missing [] c l refl refl refl
  remove-list_of ((a, e) ∷ zs) (n, o, c) l = elim (Bool-cases (same_pointer d (some e))) [
    | inl m ↦
        remove-present ((a, e) ∷ zs) zs (set nodes a none) none a none (n, o, c) l (rw m refl)
          (rw m refl) (rw m refl) (remove-first nodes nb iter a e zs n o)
          (Chain-set nodes a none zs o c)
    | inr m ↦ remove-behind (a, e) zs (n, o, c) l m (search-Searched nodes d (a, e) zs (n, o, c))
  ]

-- `lkls_remove_element_from_list` for a datum, with a round for each datum of the list and one
-- more: it removes the first of the data that is equal to it and returns LKLS_FOUND, or leaves the
-- data as they are and returns LKLS_OK where there is none; the list stays good.
pub remove_element_from_list-Holds :
    (fuel : ℕ) (p : Option ListState) (ds : List ℕ) (d : ℕ)
    → Holds p ds
    → length ds < fuel
    → (p' : Option ListState) × (remove_element_from_list fuel p (some d)
        ≡ some (found_code (mem d ds), p'))
      × Holds p' (remove_datum d ds)
remove_element_from_list-Holds fuel p ds d h l =
    let long : length h.xs < fuel = omega (arith, length-data_of h.xs, ap length h.data_is) in
    let (p', r, h') = remove-list_of h.nodes h.nb h.iter d fuel h.xs h.chained long in
    (
      p',
      ap (λ q. remove_element_from_list fuel q (some d)) h.is_list
          ∙ r
          ∙ ap (λ b. some (found_code b, p')) (mem-data_of d h.xs ∙ ap (mem d) h.data_is),
      subst (Holds p') (data_of-remove_cell d h.xs ∙ ap (remove_datum d) h.data_is) h',
    )
