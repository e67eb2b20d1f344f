-- ===== src/LinkList/Scan/Unlink.antt =====
-- The search of a datum in src/misc_fn/linklist.c, and the removal of its node from the chain.
use xmltp.Prelude.{
  ℕ, zero, suc, ◌<◌, ◌≡◌, ◌≢◌, refl, sym, ap, ◌∙◌, Option, none, some, List, [], ◌∷◌, arith, length,
  All, Bool, true, false, inl, inr, if◌then◌else◌, Bool-cases, set,
}
use xmltp.LinkList.{Elem, node_at, same_pointer, unlink, free_node, remove_node_from_list}
use xmltp.LinkList.Chain.{
  first_address, Chain, final, final-All, Chain-set, node_at-set, node_at-set_other,
}
use xmltp.LinkList.Queue.{list_of, same_pointer_refl, same_pointer_other}
use xmltp.LinkList.Scan.{find_node}

abbrev pub Store : Type 0
Store = List (Option Elem)

abbrev pub Cells : Type 0
Cells = List (ℕ × ℕ)

-- The first node with the datum, and the one before it.
abbrev pub find_cell : ℕ → Option ℕ → List (ℕ × ℕ) → Option (ℕ × Option ℕ)
find_cell d prev [] = none
find_cell d prev ((a, e) ∷ xs) =
    if same_pointer d (some e) then some (a, prev) else find_cell d (some a) xs

abbrev pub remove_cell : ℕ → List (ℕ × ℕ) → List (ℕ × ℕ)
remove_cell d [] = []
remove_cell d ((a, e) ∷ xs) =
    let rest = remove_cell d xs in if same_pointer d (some e) then xs else (a, e) ∷ rest

abbrev pub has_cell : ℕ → Cells → Bool
has_cell d [] = false
has_cell d ((a, e) ∷ xs) = if same_pointer d (some e) then true else has_cell d xs

pub find_node-find_cell :
    (nodes : List (Option Elem)) (d fuel : ℕ) (prev : Option ℕ) (xs : List (ℕ × ℕ))
    → Chain nodes xs
    → length xs < fuel
    → find_node fuel nodes d prev (first_address xs) ≡ some (find_cell d prev xs)
unfolding find_node
find_node-find_cell nodes d zero prev xs c l = absurd (omega arith)
find_node-find_cell nodes d (suc fuel) prev [] c l = refl
find_node-find_cell nodes d (suc fuel) prev ((a, e) ∷ xs) (n, o, c) l =
    let rest = find_node-find_cell nodes d fuel (some a) xs c (omega arith) in
    elim (Bool-cases (same_pointer d (some e))) [
      | inl m ↦ rw (n, find_node, m) refl
      | inr m ↦ rw (n, find_node, m) rest
    ]

remove_cell-All :
    (d b : ℕ) (xs : List (ℕ × ℕ)) → All (λ x. x.0 ≢ b) xs → All (λ x. x.0 ≢ b) (remove_cell d xs)
remove_cell-All d b [] o = o
remove_cell-All d b ((a, e) ∷ xs) o = elim (Bool-cases (same_pointer d (some e))) [
  | inl m ↦ rw m o.1
  | inr m ↦ rw m (o.0, remove_cell-All d b xs o.1)
]

-- The removal of the node `a` behind `b`, in a chain that begins with `x`.
pub record Unlinked (nodes : Store) (x : ℕ × ℕ) (zs : Cells) (a b : ℕ) (ws : Cells) : Type 0 where
  pub e : Elem
  pub f : Elem
  pub node_is : node_at nodes (some a) ≡ some e
  pub before_is : node_at nodes (some b) ≡ some f
  pub apart : (y : ℕ) → All (λ z. z.0 ≢ y) zs → y ≢ a
  pub before : (y : ℕ) → All (λ z. z.0 ≢ y) (x ∷ zs) → y ≢ b
  pub chained : Chain (set (set nodes b (some (record f { p_next = e.p_next }))) a none) (x ∷ ws)
  pub last_is :
      (if same_pointer a (some (final x zs)) then some b else some (final x zs)) ≡ some (final x ws)

last-here :
    (b d a e : ℕ) (zs : Cells)
    → All (λ x. x.0 ≢ a) zs
    → (if same_pointer a (some (final (a, e) zs)) then some b else some (final (a, e) zs))
      ≡ some (final (b, d) zs)
last-here b d a e [] o = rw (same_pointer_refl a) refl
last-here b d a e (z ∷ zs) o = rw (same_pointer_other a (final z zs) (final-All z zs a o)) refl

Unlinked-here :
    (nodes : List (Option Elem)) (b d a e : ℕ) (zs : List (ℕ × ℕ))
    → Chain nodes ((b, d) ∷ (a, e) ∷ zs)
    → Unlinked nodes (b, d) ((a, e) ∷ zs) a b zs
Unlinked-here nodes b d a e zs (n, o, (m, o', c)) = record {
  e = record { p_next = first_address zs; p_datum = some e };
  f = record { p_next = some a; p_datum = some d };
  node_is = m;
  before_is = n;
  apart = λ y h z. h.0 (sym z);
  before = λ y h z. h.0 (sym z);
  chained = (
    node_at-set_other _ a b none (λ z. o.0 (sym z)) ∙ node_at-set nodes b _ _ n,
    o.1,
    Chain-set _ a none zs o' (Chain-set nodes b _ zs o.1 c),
  );
  last_is = last-here b d a e zs o';
}

Unlinked-there :
    (nodes : Store) (b0 d0 a b : ℕ) (x : ℕ × ℕ) (zs ws : Cells)
    → Chain nodes ((b0, d0) ∷ x ∷ zs)
    → All (λ y. y.0 ≢ b0) ws
    → Unlinked nodes x zs a b ws
    → Unlinked nodes (b0, d0) (x ∷ zs) a b (x ∷ ws)
Unlinked-there nodes b0 d0 a b x zs ws (n, o, c) o' u = record {
  e = u.e;
  f = u.f;
  node_is = u.node_is;
  before_is = u.before_is;
  apart = λ y h. u.apart y h.1;
  before = λ y h. u.before y h.1;
  chained = (
    node_at-set_other _ a b0 none (u.apart b0 o.1)
        ∙ node_at-set_other nodes b b0 _ (u.before b0 o)
        ∙ n,
    (o.0, o'),
    u.chained,
  );
  last_is = u.last_is;
}

-- What the search behind the first node finds, and what its removal does.
pub data Searched (nodes : Store) (d : ℕ) (x : ℕ × ℕ) (zs : Cells) : Type 0 where
  missing :
      find_cell d (some x.0) zs ≡ none
      → has_cell d zs ≡ false
      → remove_cell d zs ≡ zs
      → Searched nodes d x zs
  present :
      (a b : ℕ)
      → find_cell d (some x.0) zs ≡ some (a, some b)
      → has_cell d zs ≡ true
      → Unlinked nodes x zs a b (remove_cell d zs)
      → Searched nodes d x zs

Searched-there :
    (nodes : Store) (d b0 d0 a e : ℕ) (zs : Cells)
    → Chain nodes ((b0, d0) ∷ (a, e) ∷ zs)
    → same_pointer d (some e) ≡ false
    → Searched nodes d (a, e) zs
    → Searched nodes d (b0, d0) ((a, e) ∷ zs)
Searched-there nodes d b0 d0 a e zs c m (missing f h r) =
    missing (rw m f) (rw m h) (rw m (ap (◌∷◌ (a, e)) r))
Searched-there nodes d b0 d0 a e zs (n, o, c) m (present a' b f h u) =
    present a' b (rw m f) (rw m h) (
      rw m (
        Unlinked-there nodes b0 d0 a' b (a, e) zs (remove_cell d zs) (n, o, c)
          (remove_cell-All d b0 zs o.1) u))

pub search-Searched :
    (nodes : Store) (d : ℕ) (x : ℕ × ℕ) (zs : Cells) → Chain nodes (x ∷ zs) → Searched nodes d x zs
search-Searched nodes d x [] c = missing refl refl refl
search-Searched nodes d (b, e0) ((a, e) ∷ zs) (n, o, c) =
    elim (Bool-cases (same_pointer d (some e))) [
      | inl m ↦
          present a b (rw m refl) (rw m refl) (rw m (Unlinked-here nodes b e0 a e zs (n, o, c)))
      | inr m ↦ Searched-there nodes d b e0 a e zs (n, o, c) m (search-Searched nodes d (a, e) zs c)
    ]

pub remove-Unlinked :
    (nodes : Store) (nb : ℕ) (iter : Option ℕ) (x : ℕ × ℕ) (zs ws : Cells) (a b : ℕ)
    → All (λ z. z.0 ≢ x.0) zs
    → (u : Unlinked nodes x zs a b ws)
    → remove_node_from_list (list_of nodes nb iter (x ∷ zs)) a (some b)
      ≡ some (
          list_of
            (set (set nodes b (some (record (u.f) { p_next = u.e.p_next }))) a none)
            nb
            (some b)
            (x ∷ ws))
unfolding remove_node_from_list unlink free_node node_at
remove-Unlinked nodes nb iter x zs ws a b o u =
    rw
      (
        u.node_is,
        unlink,
        same_pointer_other a x.0 (u.apart x.0 o),
        u.before_is,
        free_node,
        u.last_is,
      )
      refl
