-- ===== src/LinkList/Iter.antt =====
-- The iterator of src/misc_fn/linklist.c on the data of a list.
use xmltp.Prelude.{
  ℕ, zero, suc, ◌+◌, ◌<◌, ◌≡◌, refl, ap, ◌∙◌, Option, none, some, List, [], ◌∷◌, arith, length,
  true, false,
}
use mathlib.Core.Path.{subst}
use xmltp.LinkList.{
  Elem, ListState, node_at, on_list, same_pointer, get_datum_in_list_first, get_datum_in_list_next,
}
use xmltp.LinkList.Chain.{Chain, final, last_address, final-All}
use xmltp.LinkList.Queue.{
  list_of, data_of, length-data_of, Holds, same_pointer_refl, same_pointer_other,
}

-- The callers' loop: `lkls_get_datum_in_list_next` up to NULL, from the result of the call before.
abbrev pub collect : ℕ → Option (Option ℕ × Option ListState) → Option (List ℕ × Option ListState)
collect zero r = none
collect (suc fuel) none = none
collect (suc fuel) (some (none, p)) = some ([], p)
collect (suc fuel) (some (some d, p)) = elim (collect fuel (get_datum_in_list_next p)) [
  | none ↦ none
  | some (ds, q) ↦ some (d ∷ ds, q)
]

next-end :
    (nodes : List (Option Elem)) (nb a : ℕ) (xs : List (ℕ × ℕ))
    → last_address xs ≡ some a
    → get_datum_in_list_next (some (list_of nodes nb (some a) xs))
      ≡ some (none, some (list_of nodes nb (some a) xs))
unfolding get_datum_in_list_next node_at
next-end nodes nb a xs l =
    let here : same_pointer a (last_address xs) ≡ true =
      ap (same_pointer a) l ∙ same_pointer_refl a in
    rw (here, on_list, get_datum_in_list_next) refl

next-middle :
    (nodes : List (Option Elem)) (nb a d : ℕ) (xs : List (ℕ × ℕ)) (x : ℕ × ℕ) (zs : List (ℕ × ℕ))
    → last_address xs ≡ some (final x zs)
    → Chain nodes ((a, d) ∷ x ∷ zs)
    → get_datum_in_list_next (some (list_of nodes nb (some a) xs))
      ≡ some (some x.1, some (list_of nodes nb (some x.0) xs))
unfolding get_datum_in_list_next node_at
next-middle nodes nb a d xs x zs l (n, o, (m, o', c)) =
    let other : same_pointer a (last_address xs) ≡ false =
      ap (same_pointer a) l ∙ same_pointer_other a (final x zs) (final-All x zs a o) in
    rw (other, on_list, get_datum_in_list_next, n, m) refl

collect-cons :
    (fuel d : ℕ) (p q : Option ListState) (r : Option (Option ℕ × Option ListState)) (ds : List ℕ)
    → get_datum_in_list_next p ≡ r
    → collect fuel r ≡ some (ds, q)
    → collect (suc fuel) (some (some d, p)) ≡ some (d ∷ ds, q)
collect-cons fuel d p q r ds e h = let h' = ap (collect fuel) e ∙ h in rw (h', collect) refl

collect-list_of :
    (nodes : List (Option Elem)) (nb : ℕ) (xs zs : List (ℕ × ℕ)) (a d fuel : ℕ)
    → last_address xs ≡ some (final (a, d) zs)
    → Chain nodes ((a, d) ∷ zs)
    → length zs + 1 < fuel
    → collect fuel (some (some d, some (list_of nodes nb (some a) xs)))
      ≡ some (d ∷ data_of zs, some (list_of nodes nb (some (final (a, d) zs)) xs))
collect-list_of nodes nb xs zs a d zero l c f = absurd (omega arith)
collect-list_of nodes nb xs zs a d (suc zero) l c f = absurd (omega arith)
collect-list_of nodes nb xs [] a d (suc (suc fuel)) l c f =
    collect-cons (suc fuel) d _ _ _ [] (next-end nodes nb a xs l) refl
collect-list_of nodes nb xs ((b, e) ∷ zs) a d (suc (suc fuel)) l (n, o, c) f =
    collect-cons (suc fuel) d _ _ _ (e ∷ data_of zs)
      (next-middle nodes nb a d xs (b, e) zs l (n, o, c))
      (collect-list_of nodes nb xs zs b e (suc fuel) l c (omega arith))

first-list_of :
    (nodes : List (Option Elem)) (nb : ℕ) (iter : Option ℕ) (xs : List (ℕ × ℕ)) (fuel : ℕ)
    → Chain nodes xs
    → length xs < fuel
    → (p' : Option ListState) × (collect fuel
          (get_datum_in_list_first (some (list_of nodes nb iter xs)))
        ≡ some (data_of xs, p'))
      × Holds p' (data_of xs)
unfolding get_datum_in_list_first node_at
first-list_of nodes nb iter [] zero c f = absurd (omega arith)
first-list_of nodes nb iter [] (suc fuel) c f = (
  some _,
  refl,
  record {
    nodes = nodes;
    nb = nb;
    iter = iter;
    xs = [];
    is_list = refl;
    chained = tt;
    data_is = refl;
  },
)
first-list_of nodes nb iter ((a, d) ∷ zs) fuel c f =
    let all = collect-list_of nodes nb ((a, d) ∷ zs) zs a d fuel refl c (omega arith) in
    (
      some (list_of nodes nb (some (final (a, d) zs)) ((a, d) ∷ zs)),
      rw c.0 all,
      record {
        nodes = nodes;
        nb = nb;
        iter = some (final (a, d) zs);
        xs = (a, d) ∷ zs;
        is_list = refl;
        chained = c;
        data_is = refl;
      },
    )

-- `lkls_get_datum_in_list_first` and then `lkls_get_datum_in_list_next` up to NULL return the data
-- of a list in their order, wherever its iterator stood, and leave it with the same data.
pub get_datum_in_list_next-order :
    (p : Option ListState) (ds : List ℕ) (fuel : ℕ)
    → Holds p ds
    → length ds < fuel
    → (p' : Option ListState) × (collect fuel (get_datum_in_list_first p) ≡ some (ds, p'))
      × Holds p' ds
get_datum_in_list_next-order p ds fuel h f =
    let long : length h.xs < fuel = omega (arith, length-data_of h.xs, ap length h.data_is) in
    let (p', r, h') = first-list_of h.nodes h.nb h.iter h.xs fuel h.chained long in
    (
      p',
      ap (λ q. collect fuel (get_datum_in_list_first q)) h.is_list
          ∙ r
          ∙ ap (λ es. some (es, p')) h.data_is,
      subst (Holds p') h.data_is h',
    )
