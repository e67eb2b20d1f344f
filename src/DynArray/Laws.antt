-- ===== src/DynArray/Laws.antt =====
-- The functions of src/dynarray/dynarray.c on the list of the elements.
use mathlib.Core.Path.{subst}
use mathlib.Core.Option.{some-injective, none-ne-some}
use xmltp.Prelude.{
  ℕ, suc, ◌+◌, ◌*◌, ◌≤◌, ◌<◌, ◌≡◌, refl, sym, ap, ap₂, ◌∙◌, ◌⊎◌, inl, inr, Bool, true, false, ◌&&◌,
  Bool-cases, Option-cases, [], ◌∷◌, ◌++◌, arith, none, some, ℤ, pos, eq_ℤ, leb, length, take,
  take-all,
}
use xmltp.Bytes.{Bytes}
use xmltp.DynArray.{
  DynArray, dyn_array_obj_signature, err_max_alloc, err_out_of_memory, Realloc, grown,
  grow_dynarray, arguments_ok, initialised, create_new_dynamic_array, memcpy,
}
use xmltp.DynArray.Elems.{
  chunks, elements, mul_mono, chunks-append, chunks-memcpy, length-memcpy, suc_mul,
}
use xmltp.DynArray.Ops.{store, add_valid, add_new_element}

-- The relation of the counters that the comment on DYN_ARRAY_OBJ_T wants, but with an iterator that
-- may stand behind the last element, and the memory that it counts.
pub record IsWellFormed (d : DynArray) : Type 0 where
  pub valid : d.signature ≡ dyn_array_obj_signature
  pub iterator_in : d.iterator_current_i ≤ d.ctr_used
  pub used_in : d.ctr_used ≤ d.nb_allocated
  pub bounded : d.nb_allocated ≤ d.max_allocatable
  pub growing : 1 ≤ d.growth_increment
  pub backed : length d.p_allocated_array ≡ d.nb_allocated * d.sizeof_element

-- What the C library documents of `realloc`: the block has the new size, and where it grew its first
-- bytes are those of the old one.
abbrev pub Keeps : Realloc → Type 0
Keeps realloc =
    (block : Bytes) (size : ℕ) (block' : Bytes)
    → length block ≤ size
    → realloc block size ≡ some block'
    → (more : Bytes) × (block' ≡ block ++ more) × (length block' ≡ size)

-- The array after a growth.
pub record Grows (n : ℕ) (d d' : DynArray) : Type 0 where
  pub well_formed : IsWellFormed d'
  pub allocated : d'.nb_allocated ≡ d.nb_allocated + n
  pub same_used : d'.ctr_used ≡ d.ctr_used
  pub same_size : d'.sizeof_element ≡ d.sizeof_element
  pub same_max : d'.max_allocatable ≡ d.max_allocatable
  pub same_elements : elements d' ≡ elements d

-- A failure to grow by `n`, which changes nothing: the limit is met, or there is no memory.
abbrev pub Fails : Realloc → ℕ → DynArray → ℤ × DynArray → Type 0
Fails realloc n d (rc, d') =
    (d' ≡ d)
    × (((rc ≡ err_max_alloc) × (d.max_allocatable < d.nb_allocated + n))
        ⊎ ((rc ≡ err_out_of_memory)
            × (realloc d.p_allocated_array ((d.nb_allocated + n) * d.sizeof_element) ≡ none)))

grown-Grows :
    (n : ℕ) (d : DynArray) (more block : Bytes)
    → IsWellFormed d
    → d.nb_allocated + n ≤ d.max_allocatable
    → block ≡ d.p_allocated_array ++ more
    → length block ≡ (d.nb_allocated + n) * d.sizeof_element
    → Grows n d (grown n d (some block)).1
grown-Grows n d more block h l e s = record {
  well_formed = record {
    valid = h.valid;
    iterator_in = h.iterator_in;
    used_in = omega (arith, h.used_in);
    bounded = l;
    growing = h.growing;
    backed = s;
  };
  allocated = refl;
  same_used = refl;
  same_size = refl;
  same_max = refl;
  same_elements =
      ap (chunks d.ctr_used d.sizeof_element) e
      ∙ chunks-append d.ctr_used d.sizeof_element d.p_allocated_array more
          (omega (arith, h.backed, mul_mono d.ctr_used d.nb_allocated d.sizeof_element h.used_in));
}

pub valid_test : (d : DynArray) → IsWellFormed d → eq_ℤ d.signature dyn_array_obj_signature ≡ true
valid_test d h = ap (λ s. eq_ℤ s dyn_array_obj_signature) h.valid

grow_dynarray-cases :
    (realloc : Realloc) (n : ℕ) (d : DynArray)
    → Keeps realloc
    → IsWellFormed d
    → ((d' : DynArray) × (grow_dynarray realloc n d ≡ (pos 0, d')) × Grows n d d')
      ⊎ (Fails realloc n d (grow_dynarray realloc n d)
          × (eq_ℤ (grow_dynarray realloc n d).0 (pos 0) ≡ false))
unfolding grow_dynarray
grow_dynarray-cases realloc n d k h =
    let size = (d.nb_allocated + n) * d.sizeof_element in
    elim (Bool-cases (leb (d.nb_allocated + n) d.max_allocatable)) [
      | inr l ↦ rw (valid_test d h, l) (inr ((refl, inl (refl, ground arith)), refl))
      | inl l ↦ elim (Option-cases (realloc d.p_allocated_array size)) [
        | inl e ↦ rw (valid_test d h, l, e) (inr ((refl, inr (refl, refl)), refl))
        | inr (block, e) ↦
            let fits : length d.p_allocated_array ≤ size = omega (
              arith,
              h.backed,
              mul_mono d.nb_allocated (d.nb_allocated + n) d.sizeof_element (omega arith),
            ) in
            let (more, p, s) = k d.p_allocated_array size block fits e in
            rw (valid_test d h, l, e)
              (inl (_, refl, grown-Grows n d more block h (ground arith) p s))
      ]
    ]

-- The element stands behind the others, and the array stays well formed.
pub record Adds (elem : Bytes) (d : DynArray) (r : ℤ × DynArray) : Type 0 where
  pub code : r.0 ≡ pos 0
  pub well_formed : IsWellFormed r.1
  pub elements_are : elements r.1 ≡ elements d ++ elem ∷ []

next_count : (n : ℕ) → n + 1 ≡ suc n
next_count n = omega arith

store-Adds :
    (elem : Bytes) (d : DynArray)
    → IsWellFormed d
    → d.ctr_used < d.nb_allocated
    → length elem ≡ d.sizeof_element
    → Adds elem d (store elem d)
store-Adds elem d h room l =
    let n = d.ctr_used in
    let size = d.sizeof_element in
    let whole : take size elem ≡ elem = take-all size elem (omega (arith, l)) in
    let within : suc n * size ≤ length d.p_allocated_array =
      omega (arith, h.backed, mul_mono (suc n) d.nb_allocated size (omega arith)) in
    let written : length (memcpy d.p_allocated_array (n * size) (take size elem))
        ≡ length d.p_allocated_array =
      ap (λ e. length (memcpy d.p_allocated_array (n * size) e)) whole
      ∙ length-memcpy d.p_allocated_array elem (n * size) (omega (arith, suc_mul n size, l)) in
    record {
      code = refl;
      well_formed = record {
        valid = h.valid;
        iterator_in = omega (arith, h.iterator_in);
        used_in = omega arith;
        bounded = h.bounded;
        growing = h.growing;
        backed = written ∙ h.backed;
      };
      elements_are =
          ap₂ (λ k e. chunks k size (memcpy d.p_allocated_array (n * size) e)) (next_count n) whole
          ∙ chunks-memcpy n size d.p_allocated_array elem within l;
    }

-- `dynarray_add_new_element` on a well-formed array, with an element of its size: it returns 0 with
-- the element behind the others, or the array was full, nothing is changed, and the code says
-- whether the growth increment leads over the maximum or `realloc` finds no memory.
pub add_new_element-cases :
    (realloc : Realloc) (elem : Bytes) (d : DynArray)
    → Keeps realloc
    → IsWellFormed d
    → length elem ≡ d.sizeof_element
    → (r : ℤ × DynArray) × (add_new_element realloc (some elem) (some d) ≡ (r.0, some r.1))
      × (Adds elem d r ⊎ (Fails realloc d.growth_increment d r × (d.ctr_used ≡ d.nb_allocated)))
unfolding add_new_element add_valid
add_new_element-cases realloc elem d k h l = elim (Bool-cases (leb d.nb_allocated d.ctr_used)) [
  | inr m ↦ rw (valid_test d h, m) (store elem d, refl, inl (store-Adds elem d h (ground arith) l))
  | inl m ↦ elim (grow_dynarray-cases realloc d.growth_increment d k h) [
    | inl (d', e, g) ↦
        let x =
          store-Adds elem d' g.well_formed
            (omega (arith, g.allocated, g.same_used, h.used_in, h.growing)) (l ∙ sym g.same_size) in
        rw (valid_test d h, m, e)
          (
            store elem d',
            refl,
            inl (record {
              code = refl;
              well_formed = x.well_formed;
              elements_are = x.elements_are ∙ ap (λ t. t ++ elem ∷ []) g.same_elements;
            }),
          )
    | inr (f, e) ↦
        rw (valid_test d h, m, e)
          (grow_dynarray realloc d.growth_increment d, refl, inr (f, ground (arith, h.used_in)))
  ]
]

zero_add : (n : ℕ) → 0 + n ≡ n
zero_add n = omega arith

-- `dynarray_create_new_dynamic_array`: what it returns is an array without elements, well formed,
-- with room for `initial_size` of them.
pub create_new_dynamic_array-IsWellFormed :
    (realloc : Realloc) (found : Bool)
    (sizeof_struct sizeof_element max_allocatable growth_increment initial_size : ℕ)
    (b_elems : Bool) (d : DynArray)
    → Keeps realloc
    → create_new_dynamic_array realloc found sizeof_struct sizeof_element max_allocatable
        growth_increment initial_size b_elems
      ≡ some d
    → IsWellFormed d
      × (elements d ≡ [])
      × (d.nb_allocated ≡ initial_size)
      × (d.max_allocatable ≡ max_allocatable)
unfolding create_new_dynamic_array
create_new_dynamic_array-IsWellFormed realloc found sizeof_struct sizeof_element max_allocatable
      growth_increment initial_size b_elems d k =
    let ok =
      arguments_ok sizeof_struct sizeof_element max_allocatable growth_increment initial_size
        b_elems in
    let fresh = initialised sizeof_element max_allocatable growth_increment b_elems in
    elim (Bool-cases (ok && found)) [
      | inr q ↦ rw q (λ e. absurd (none-ne-some d e))
      | inl q ↦
          let h : IsWellFormed fresh = record {
            valid = refl;
            iterator_in = omega arith;
            used_in = omega arith;
            bounded = omega arith;
            growing = ground arith;
            backed = omega arith;
          } in
          elim (grow_dynarray-cases realloc initial_size fresh k h) [
            | inr (f, e) ↦ rw (q, e) (λ e'. absurd (none-ne-some d e'))
            | inl (d', e, g) ↦
                rw (q, e)
                  (λ e'.
                    subst
                      (λ x.
                        IsWellFormed x
                        × (elements x ≡ [])
                        × (x.nb_allocated ≡ initial_size)
                        × (x.max_allocatable ≡ max_allocatable))
                      (some-injective d' d e')
                      (
                        g.well_formed,
                        g.same_elements,
                        g.allocated ∙ zero_add initial_size,
                        g.same_max,
                      ))
          ]
    ]
