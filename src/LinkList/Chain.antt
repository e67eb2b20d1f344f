-- ===== src/LinkList/Chain.antt =====
-- The chain of nodes of src/misc_fn/linklist.c as a list.
use xmltp.Prelude.{
  ℕ, zero, suc, ◌<◌, ◌≡◌, ◌≢◌, refl, sym, ap, ◌∙◌, Option, none, some, List, [], ◌∷◌, ◌++◌, arith,
  length, set, All, All-append,
}
use xmltp.LinkList.{Elem, node_at}

abbrev pub first_address : List (ℕ × ℕ) → Option ℕ
first_address [] = none
first_address (x ∷ xs) = some x.0

-- Nodes with these addresses and data, each with a pointer to the next one, the last one with NULL,
-- and all at different addresses.
abbrev pub Chain : List (Option Elem) → List (ℕ × ℕ) → Type 0
Chain nodes [] = Unit
Chain nodes ((a, d) ∷ xs) =
    (node_at nodes (some a) ≡ some (record { p_next = first_address xs; p_datum = some d }))
    × All (λ x. x.0 ≢ a) xs
    × Chain nodes xs

-- The address of the last node.
abbrev pub final : ℕ × ℕ → List (ℕ × ℕ) → ℕ
final x [] = x.0
final x (y ∷ ys) = final y ys

abbrev pub last_address : List (ℕ × ℕ) → Option ℕ
last_address [] = none
last_address (x ∷ xs) = some (final x xs)

node_at-append :
    (nodes more : List (Option Elem)) (a : ℕ) (e : Elem)
    → node_at nodes (some a) ≡ some e
    → node_at (nodes ++ more) (some a) ≡ some e
unfolding node_at
node_at-append [] more a e h = absurd (ground arith)
node_at-append (x ∷ nodes) more zero e h = h
node_at-append (x ∷ nodes) more (suc a) e h = node_at-append nodes more a e h

pub node_at-new :
    (nodes : List (Option Elem)) (e : Elem)
    → node_at (nodes ++ some e ∷ []) (some (length nodes)) ≡ some e
unfolding node_at
node_at-new [] e = refl
node_at-new (x ∷ nodes) e = node_at-new nodes e

pub node_at-length :
    (nodes : List (Option Elem)) (a : ℕ) (e : Elem)
    → node_at nodes (some a) ≡ some e
    → a < length nodes
unfolding node_at
node_at-length [] a e h = absurd (ground arith)
node_at-length (x ∷ nodes) zero e h = omega arith
node_at-length (x ∷ nodes) (suc a) e h = omega (arith, node_at-length nodes a e h)

pub node_at-set :
    (nodes : List (Option Elem)) (a : ℕ) (e f : Elem)
    → node_at nodes (some a) ≡ some e
    → node_at (set nodes a (some f)) (some a) ≡ some f
unfolding node_at
node_at-set [] a e f h = absurd (ground arith)
node_at-set (x ∷ nodes) zero e f h = refl
node_at-set (x ∷ nodes) (suc a) e f h = node_at-set nodes a e f h

pub node_at-set_other :
    (nodes : List (Option Elem)) (a b : ℕ) (o : Option Elem)
    → b ≢ a
    → node_at (set nodes a o) (some b) ≡ node_at nodes (some b)
unfolding node_at
node_at-set_other [] a b o n = refl
node_at-set_other (x ∷ nodes) zero zero o n = absurd (n refl)
node_at-set_other (x ∷ nodes) zero (suc b) o n = refl
node_at-set_other (x ∷ nodes) (suc a) zero o n = refl
node_at-set_other (x ∷ nodes) (suc a) (suc b) o n =
    node_at-set_other nodes a b o (λ e. n (ap suc e))

-- More nodes change no chain.
pub Chain-append :
    (nodes more : List (Option Elem)) (xs : List (ℕ × ℕ))
    → Chain nodes xs
    → Chain (nodes ++ more) xs
Chain-append nodes more [] h = h
Chain-append nodes more ((a, d) ∷ xs) (n, o, c) =
    (node_at-append nodes more a _ n, o, Chain-append nodes more xs c)

-- Nor does a write to a node outside of it.
pub Chain-set :
    (nodes : List (Option Elem)) (b : ℕ) (v : Option Elem) (xs : List (ℕ × ℕ))
    → All (λ x. x.0 ≢ b) xs
    → Chain nodes xs
    → Chain (set nodes b v) xs
Chain-set nodes b v [] o h = h
Chain-set nodes b v ((a, d) ∷ xs) o (n, o', c) =
    (node_at-set_other nodes b a v o.0 ∙ n, o', Chain-set nodes b v xs o.1 c)

-- A new address is none of the chain's.
pub Chain-length :
    (nodes : List (Option Elem)) (xs : List (ℕ × ℕ))
    → Chain nodes xs
    → All (λ x. x.0 ≢ length nodes) xs
Chain-length nodes [] h = tt
Chain-length nodes ((a, d) ∷ xs) (n, o, c) =
    (let l = node_at-length nodes a _ n in omega arith, Chain-length nodes xs c)

pub final-All :
    (x : ℕ × ℕ) (xs : List (ℕ × ℕ)) (b : ℕ) → All (λ y. y.0 ≢ b) (x ∷ xs) → final x xs ≢ b
final-All x [] b o = o.0
final-All x (y ∷ ys) b o = final-All y ys b o.1

pub final-append : (x : ℕ × ℕ) (xs : List (ℕ × ℕ)) (y : ℕ × ℕ) → final x (xs ++ y ∷ []) ≡ y.0
final-append x [] y = refl
final-append x (z ∷ xs) y = final-append z xs y

-- A chain grows by a new node when the last one is linked to it.
pub Chain-link :
    (nodes : List (Option Elem)) (x : ℕ × ℕ) (xs : List (ℕ × ℕ)) (new d' : ℕ)
    → Chain nodes (x ∷ xs)
    → node_at nodes (some new) ≡ some (record { p_next = none; p_datum = some d' })
    → All (λ y. y.0 ≢ new) (x ∷ xs)
    → (e : Elem) × (node_at nodes (some (final x xs)) ≡ some e)
      × Chain
          (set nodes (final x xs) (some (record e { p_next = some new })))
          ((x ∷ xs) ++ (new, d') ∷ [])
Chain-link nodes (a, d) [] new d' (n, o, c) m f =
    let here = node_at-set nodes a _ _ n in
    let there = node_at-set_other nodes a new _ (λ z. f.0 (sym z)) ∙ m in
    (
      record { p_next = none; p_datum = some d },
      n,
      (here, ((λ z. f.0 (sym z)), tt), (there, tt, tt)),
    )
Chain-link nodes (a, d) (y ∷ ys) new d' (n, o, c) m f =
    let (last, at, c') = Chain-link nodes y ys new d' c m f.1 in
    let apart : a ≢ final y ys = λ z. final-All y ys a o (sym z) in
    (
      last,
      at,
      (
        node_at-set_other nodes (final y ys) a _ apart ∙ n,
        All-append (λ z. z.0 ≢ a) (y ∷ ys) ((new, d') ∷ []) o ((λ z. f.0 (sym z)), tt),
        c',
      ),
    )
