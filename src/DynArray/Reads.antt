-- ===== src/DynArray/Reads.antt =====
-- The functions of src/dynarray/dynarray.c that read, empty and free an array.
use xmltp.Prelude.{
  ℕ, zero, suc, ◌+◌, ◌*◌, ◌≤◌, ◌<◌, ◌≡◌, refl, sym, ap, ◌∙◌, inl, inr, Bool, true, false,
  Bool-cases, List, [], ◌∷◌, arith, Option, none, some, ℤ, pos, neg, leb, get_elem?, length, take,
  drop,
}
use xmltp.Bytes.{Bytes}
use xmltp.DynArray.{DynArray, err_invalid_signature, validate_signature, Realloc, grow_dynarray}
use xmltp.DynArray.Elems.{elements, get_elem?-chunks, length-chunks}
use xmltp.DynArray.Ops.{
  add_new_element, next_valid, get_next_elem, get_first_elem, nth_valid, get_nth_elem,
  get_current_elem, get_nb_elem_stored, get_sizeof_element, get_value_of_iterator, empty_dynarray,
  free,
}
use xmltp.DynArray.Find.{Bsearch, bsearch, qsort}
use xmltp.DynArray.Laws.{IsWellFormed, valid_test}

-- The element that a pointer into the memory of an array leads to.
abbrev pub element_at : DynArray → Option ℕ → Option Bytes
element_at d none = none
element_at d (some offset) = some (take d.sizeof_element (drop offset d.p_allocated_array))

get_elem?-past : (xs : List Bytes) (i : ℕ) → length xs ≤ i → get_elem? xs i ≡ none
get_elem?-past [] i h = refl
get_elem?-past (x ∷ xs) zero h = absurd (omega arith)
get_elem?-past (x ∷ xs) (suc i) h = get_elem?-past xs i (omega arith)

element_in :
    (d : DynArray) (i : ℕ)
    → i < d.ctr_used
    → element_at d (some (i * d.sizeof_element)) ≡ get_elem? (elements d) i
element_in d i h = sym (get_elem?-chunks d.ctr_used d.sizeof_element i d.p_allocated_array h)

element_past : (d : DynArray) (i : ℕ) → d.ctr_used ≤ i → none ≡ get_elem? (elements d) i
element_past d i h =
    let l = length-chunks d.ctr_used d.sizeof_element d.p_allocated_array in
    sym (get_elem?-past (elements d) i (omega (arith, l)))

-- `dynarray_get_nth_elem` on a well-formed array leads to the element with the index, and is NULL
-- where there is none.
get_nth_elem-elements :
    (d : DynArray) (i : ℕ)
    → IsWellFormed d
    → element_at d (get_nth_elem (pos i) (some d)) ≡ get_elem? (elements d) i
unfolding get_nth_elem nth_valid
get_nth_elem-elements d i h = elim (Bool-cases (leb d.ctr_used i)) [
  | inl m ↦ rw (valid_test d h, m) (element_past d i (ground arith))
  | inr m ↦ rw (valid_test d h, m) (element_in d i (ground arith))
]

-- The elements that `dynarray_get_next_elem` leads to, up to the first NULL or the end of the fuel.
abbrev pub collect : ℕ → Option ℕ × Option DynArray → List Bytes
collect zero r = []
collect (suc fuel) (some offset, some d) =
    take d.sizeof_element (drop offset d.p_allocated_array) ∷ collect fuel (get_next_elem (some d))
collect (suc fuel) _ = []

drop-get_elem? :
    (xs : List Bytes) (i : ℕ) (x : Bytes)
    → get_elem? xs i ≡ some x
    → drop i xs ≡ x ∷ drop (suc i) xs
drop-get_elem? [] i x h = cc
drop-get_elem? (y ∷ xs) zero x h = cc
drop-get_elem? (y ∷ xs) (suc i) x h = drop-get_elem? xs i x h

drop-past : (xs : List Bytes) (i : ℕ) → length xs ≤ i → drop i xs ≡ []
drop-past [] zero h = refl
drop-past [] (suc i) h = refl
drop-past (x ∷ xs) zero h = absurd (omega arith)
drop-past (x ∷ xs) (suc i) h = drop-past xs i (omega arith)

abbrev advanced : DynArray → DynArray
advanced d = record d { iterator_current_i = d.iterator_current_i + 1 }

get_next_elem-past :
    (d : DynArray)
    → IsWellFormed d
    → d.ctr_used ≤ d.iterator_current_i
    → get_next_elem (some d) ≡ (none, some d)
unfolding get_next_elem next_valid
get_next_elem-past d h l =
    let m : leb d.ctr_used d.iterator_current_i ≡ true = ground arith in rw (valid_test d h, m) refl

get_next_elem-in :
    (d : DynArray)
    → IsWellFormed d
    → d.iterator_current_i < d.ctr_used
    → get_next_elem (some d) ≡ (some (d.iterator_current_i * d.sizeof_element), some (advanced d))
unfolding get_next_elem next_valid
get_next_elem-in d h l =
    let m : leb d.ctr_used d.iterator_current_i ≡ false = ground arith in
    rw (valid_test d h, m) refl

advanced-IsWellFormed :
    (d : DynArray) → IsWellFormed d → d.iterator_current_i < d.ctr_used → IsWellFormed (advanced d)
advanced-IsWellFormed d h l = record {
  valid = h.valid;
  iterator_in = omega arith;
  used_in = h.used_in;
  bounded = h.bounded;
  growing = h.growing;
  backed = h.backed;
}

plus_one : (n : ℕ) → n + 1 ≡ suc n
plus_one n = omega arith

first_is_next :
    (d : DynArray)
    → IsWellFormed d
    → get_first_elem (some d) ≡ get_next_elem (some (record d { iterator_current_i = 0 }))
unfolding get_first_elem get_next_elem
first_is_next d h = rw (valid_test d h) refl

collect_rest :
    (fuel : ℕ) (d : DynArray)
    → IsWellFormed d
    → d.ctr_used ≤ fuel + d.iterator_current_i
    → collect (suc fuel) (get_next_elem (some d)) ≡ drop d.iterator_current_i (elements d)
collect_rest zero d h l =
    ap (collect 1) (get_next_elem-past d h (omega arith))
    ∙ sym (
        drop-past (elements d) d.iterator_current_i
          (omega (arith, length-chunks d.ctr_used d.sizeof_element d.p_allocated_array)))
collect_rest (suc fuel) d h l = elim (Bool-cases (leb d.ctr_used d.iterator_current_i)) [
  | inl m ↦
      let n = length-chunks d.ctr_used d.sizeof_element d.p_allocated_array in
      ap (collect (suc (suc fuel))) (get_next_elem-past d h (ground arith))
      ∙ sym (drop-past (elements d) d.iterator_current_i (ground (arith, n)))
  | inr m ↦
      let i = d.iterator_current_i in
      let lt : i < d.ctr_used = ground arith in
      ap (collect (suc (suc fuel))) (get_next_elem-in d h lt)
      ∙ ap (λ t. take d.sizeof_element (drop (i * d.sizeof_element) d.p_allocated_array) ∷ t)
          (collect_rest fuel (advanced d) (advanced-IsWellFormed d h lt) (omega arith)
            ∙ ap (λ k. drop k (elements d)) (plus_one i))
      ∙ sym (drop-get_elem? (elements d) i _ (sym (element_in d i lt)))
]

-- `dynarray_get_first_elem` and then `dynarray_get_next_elem` up to NULL lead to the elements in
-- their order, wherever the iterator stood; one call for each element and one for NULL are enough.
pub get_first_elem-order :
    (d : DynArray)
    → IsWellFormed d
    → collect (suc d.ctr_used) (get_first_elem (some d)) ≡ elements d
unfolding get_first_elem
get_first_elem-order d h =
    let d' : DynArray = record d { iterator_current_i = 0 } in
    let h' : IsWellFormed d' = record {
      valid = h.valid;
      iterator_in = omega arith;
      used_in = h.used_in;
      bounded = h.bounded;
      growing = h.growing;
      backed = h.backed;
    } in
    ap (collect (suc d.ctr_used)) (first_is_next d h) ∙ collect_rest d.ctr_used d' h' (omega arith)

-- Every function that takes an array refuses this one, and changes nothing.
pub record IsRefused (d : DynArray) : Type 0 where
  pub validate_refused : validate_signature (some d) ≡ err_invalid_signature
  pub grow_refused :
      (realloc : Realloc) (n : ℕ) → grow_dynarray realloc n d ≡ (err_invalid_signature, d)
  pub add_refused :
      (realloc : Realloc) (p_elem : Option Bytes)
      → add_new_element realloc p_elem (some d) ≡ (err_invalid_signature, some d)
  pub nth_refused : (i : ℤ) → get_nth_elem i (some d) ≡ none
  pub next_refused : get_next_elem (some d) ≡ (none, some d)
  pub first_refused : get_first_elem (some d) ≡ (none, some d)
  pub current_refused : get_current_elem (some d) ≡ none
  pub nb_elem_refused : get_nb_elem_stored (some d) ≡ neg 1
  pub sizeof_refused : get_sizeof_element (some d) ≡ (err_invalid_signature, none)
  pub iterator_refused : get_value_of_iterator (some d) ≡ neg 1
  pub bsearch_refused :
      (bytes_search : Bsearch) (is_less : ℕ → Bool)
      → bsearch bytes_search is_less (some d) ≡ (err_invalid_signature, none)
  pub qsort_refused :
      (sort : Bytes → ℕ → ℕ → Bytes) → qsort sort (some d) ≡ (err_invalid_signature, some d)
  pub empty_refused : empty_dynarray (some d) ≡ some (err_invalid_signature, some d)
  pub free_refused : free (some d) ≡ some (err_invalid_signature, some d)

-- What `dynarray_empty_dynarray` and `dynarray_free` leave of a well-formed array whose elements are
-- not arrays: a well-formed array without elements, and an array that every function of the file
-- that takes one refuses, `dynarray_bsearch` and `dynarray_qsort` included, and leaves as it is.
pub free-IsRefused :
    (d : DynArray)
    → IsWellFormed d
    → d.b_elems_are_dynarray ≡ false
    → ((d' : DynArray) × (empty_dynarray (some d) ≡ some (pos 0, some d'))
        × IsWellFormed d'
        × (elements d' ≡ []))
      × ((d' : DynArray) × (free (some d) ≡ some (pos 0, some d')) × IsRefused d')
unfolding grow_dynarray empty_dynarray free add_new_element get_nth_elem get_next_elem
    get_first_elem get_current_elem
free-IsRefused d h b =
    rw (valid_test d h, b)
      (
        (
          _,
          refl,
          record {
            valid = h.valid;
            iterator_in = omega arith;
            used_in = omega arith;
            bounded = h.bounded;
            growing = h.growing;
            backed = h.backed;
          },
          refl,
        ),
        (
          _,
          refl,
          record {
            validate_refused = refl;
            grow_refused = λ realloc n. refl;
            add_refused = λ realloc p_elem. refl;
            nth_refused = λ i. refl;
            next_refused = refl;
            first_refused = refl;
            current_refused = refl;
            nb_elem_refused = refl;
            sizeof_refused = refl;
            iterator_refused = refl;
            bsearch_refused = λ bytes_search is_less. refl;
            qsort_refused = λ sort. refl;
            empty_refused = refl;
            free_refused = refl;
          },
        ),
      )
