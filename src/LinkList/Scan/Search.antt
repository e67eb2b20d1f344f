-- ===== src/LinkList/Scan/Search.antt =====
-- The searches of src/misc_fn/linklist.c on the data of a list.
use xmltp.Prelude.{
  ℕ, zero, suc, ◌<◌, ◌≡◌, refl, sym, ap, ap₂, All, ◌∙◌, Option, none, some, List, [], ◌∷◌, arith, ℤ,
  pos, negsuc, length, Bool, false, ◌||◌, Bool-cases, inl, inr,
}
use xmltp.Bytes.{Bytes, NoNul}
use xmltp.LinkList.Scan.Pattern.{accepts, matches-accepts}
use xmltp.LinkList.{Elem, ListState, node_at}
use xmltp.LinkList.Chain.{first_address, Chain}
use xmltp.LinkList.Queue.{data_of, length-data_of, Holds}
use xmltp.LinkList.Scan.{
  find_loop, find_elem_using_function, matches, string_loop, is_string_in_list_ext,
}

-- Some datum passes the tests of the loop.
abbrev any_match : (ℕ → Bytes) → Bool → Bytes → List ℕ → Bool
any_match string_at pattern s [] = false
any_match string_at pattern s (d ∷ ds) =
    matches pattern (string_at d) s || any_match string_at pattern s ds

string_loop-any_match :
    (nodes : List (Option Elem)) (string_at : ℕ → Bytes) (pattern : Bool) (s : Bytes) (fuel : ℕ)
    (xs : List (ℕ × ℕ))
    → Chain nodes xs
    → length xs < fuel
    → string_loop fuel nodes string_at pattern s (first_address xs)
      ≡ some (any_match string_at pattern s (data_of xs))
unfolding string_loop
string_loop-any_match nodes string_at pattern s zero xs c f = absurd (omega arith)
string_loop-any_match nodes string_at pattern s (suc fuel) [] c f = refl
string_loop-any_match nodes string_at pattern s (suc fuel) ((a, d) ∷ xs) (n, o, c) f =
    let rest = string_loop-any_match nodes string_at pattern s fuel xs c (omega arith) in
    elim (Bool-cases (matches pattern (string_at d) s)) [
      | inl m ↦ rw (n, string_loop, m) refl
      | inr m ↦ rw (n, string_loop, m) rest
    ]

-- The datum, none, or what a later datum gives, by the result of the function.
abbrev pub picked : ℤ → ℕ → Option ℕ → Option ℕ
picked (negsuc _) d later = none
picked (pos zero) d later = later
picked (pos (suc _)) d later = some d

-- The first datum for which the function does not return 0, where it is positive.
abbrev pub find_datum : (ℕ → ℤ) → List ℕ → Option ℕ
find_datum f [] = none
find_datum f (d ∷ ds) = picked (f d) d (find_datum f ds)

find_loop-cons :
    (nodes : List (Option Elem)) (f : ℕ → ℤ) (fuel a d : ℕ) (q later : Option ℕ) (r : ℤ)
    → node_at nodes (some a) ≡ some (record { p_next = q; p_datum = some d })
    → f d ≡ r
    → find_loop fuel nodes f q ≡ some later
    → find_loop (suc fuel) nodes f (some a) ≡ some (picked r d later)
unfolding find_loop
find_loop-cons nodes f fuel a d q later (negsuc i) n e h = rw (n, find_loop, e) refl
find_loop-cons nodes f fuel a d q later (pos zero) n e h = rw (n, find_loop, e) h
find_loop-cons nodes f fuel a d q later (pos (suc i)) n e h = rw (n, find_loop, e) refl

find_loop-find_datum :
    (nodes : List (Option Elem)) (f : ℕ → ℤ) (fuel : ℕ) (xs : List (ℕ × ℕ))
    → Chain nodes xs
    → length xs < fuel
    → find_loop fuel nodes f (first_address xs) ≡ some (find_datum f (data_of xs))
unfolding find_loop
find_loop-find_datum nodes f zero xs c l = absurd (omega arith)
find_loop-find_datum nodes f (suc fuel) [] c l = refl
find_loop-find_datum nodes f (suc fuel) ((a, d) ∷ xs) (n, o, c) l =
    find_loop-cons nodes f fuel a d (first_address xs) _ (f d) n refl
      (find_loop-find_datum nodes f fuel xs c (omega arith))

pub length-Holds : (p : Option ListState) (ds : List ℕ) (h : Holds p ds) → length h.xs ≡ length ds
length-Holds p ds h = sym (length-data_of h.xs) ∙ ap length h.data_is

is_string_in_list_ext-any_match :
    (fuel : ℕ) (string_at : ℕ → Bytes) (p : Option ListState) (ds : List ℕ) (s : Bytes)
    (pattern : Bool)
    → Holds p ds
    → length ds < fuel
    → is_string_in_list_ext fuel string_at p s pattern ≡ some (any_match string_at pattern s ds)
unfolding is_string_in_list_ext
is_string_in_list_ext-any_match fuel string_at p ds s pattern h l = rw (h.is_list) (
    string_loop-any_match h.nodes string_at pattern s fuel h.xs h.chained
      (omega (arith, length-Holds p ds h))
    ∙ ap (λ es. some (any_match string_at pattern s es)) h.data_is)

-- Some datum's string is accepted.
abbrev pub any_accepted : (ℕ → Bytes) → Bool → Bytes → List ℕ → Bool
any_accepted string_at pattern s [] = false
any_accepted string_at pattern s (d ∷ ds) =
    accepts pattern (string_at d) s || any_accepted string_at pattern s ds

any_match-any_accepted :
    (string_at : ℕ → Bytes) (pattern : Bool) (s : Bytes) (ds : List ℕ)
    → All (λ d. NoNul (string_at d)) ds
    → NoNul s
    → any_match string_at pattern s ds ≡ any_accepted string_at pattern s ds
any_match-any_accepted string_at pattern s [] h z = refl
any_match-any_accepted string_at pattern s (d ∷ ds) h z =
    ap₂ (λ a b. a || b) (matches-accepts pattern (string_at d) s h.0 z)
      (any_match-any_accepted string_at pattern s ds h.1 z)

-- `lkls_is_string_in_list_ext`, with a round for each datum of the list and one more, where the
-- strings are given without their NUL: it returns, and says whether the string is equal to that of
-- some datum or, with pattern matching, begins with what stands before the `*` at its end.
is_string_in_list_ext-any_accepted :
    (fuel : ℕ) (string_at : ℕ → Bytes) (p : Option ListState) (ds : List ℕ) (s : Bytes)
    (pattern : Bool)
    → Holds p ds
    → length ds < fuel
    → All (λ d. NoNul (string_at d)) ds
    → NoNul s
    → is_string_in_list_ext fuel string_at p s pattern ≡ some (any_accepted string_at pattern s ds)
is_string_in_list_ext-any_accepted fuel string_at p ds s pattern h l a z =
    is_string_in_list_ext-any_match fuel string_at p ds s pattern h l
    ∙ ap some (any_match-any_accepted string_at pattern s ds a z)

-- `lkls_find_elem_using_function` for a datum, with a round for each datum of the list and one
-- more: it returns the first datum for which the function is not 0, where it is positive, and NULL
-- where it is negative or where there is no such datum.
find_elem_using_function-find_datum :
    (fuel : ℕ) (p : Option ListState) (ds : List ℕ) (datum : ℕ) (funct_ptr : ℕ → ℕ → ℤ)
    → Holds p ds
    → length ds < fuel
    → find_elem_using_function fuel p (some datum) funct_ptr
      ≡ some (find_datum (funct_ptr datum) ds)
unfolding find_elem_using_function
find_elem_using_function-find_datum fuel p ds datum funct_ptr h l = rw (h.is_list) (
    find_loop-find_datum h.nodes (funct_ptr datum) fuel h.xs h.chained
      (omega (arith, length-Holds p ds h))
    ∙ ap (λ es. some (find_datum (funct_ptr datum) es)) h.data_is)
