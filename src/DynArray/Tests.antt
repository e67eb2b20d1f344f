-- ===== src/DynArray/Tests.antt =====
-- Small arrays, and the theorems on them.
use xmltp.Prelude.{
  ℕ, ◌-◌, ◌≡◌, refl, ap, ◌∙◌, ◌⊎◌, true, false, some, [], ◌∷◌, ◌++◌, ℤ, pos, arith, replicate,
  length, length-append, length-replicate,
}
use mathlib.Core.Path.{sym}
use mathlib.Core.Option.{some-injective}
use xmltp.Bytes.{codes}
use xmltp.DynArray.{
  DynArray, err_max_alloc, Realloc, create_new_dynamic_array, grow_dynarray, initialised,
}
use xmltp.DynArray.Elems.{elements}
use xmltp.DynArray.Ops.{add_new_element, add_valid, get_first_elem, empty_dynarray, free}
use xmltp.DynArray.Laws.{
  IsWellFormed, Keeps, Adds, Fails, add_new_element-cases, create_new_dynamic_array-IsWellFormed,
}
use xmltp.DynArray.Reads.{collect, get_first_elem-order, IsRefused, free-IsRefused}

-- A `realloc` that always finds memory and clears it.
abbrev clearing : Realloc
clearing block size = some (block ++ replicate (size - length block) 0)

clearing-Keeps : Keeps clearing
clearing-Keeps block size block' h e = (
  replicate (size - length block) 0,
  sym (some-injective _ block' e),
  ap length (sym (some-injective _ block' e))
      ∙ omega (
        arith,
        length-append block (replicate (size - length block) 0),
        length-replicate {A = ℕ} (size - length block) 0,
      ),
)

-- Room for one element of four bytes, to grow by two up to two.
abbrev small : DynArray
small = record (initialised 4 2 2 false) {
  nb_allocated = 1;
  p_allocated_array = 0 ∷ 0 ∷ 0 ∷ 0 ∷ [];
}

small-IsWellFormed : IsWellFormed small
small-IsWellFormed = record {
  valid = refl;
  iterator_in = omega arith;
  used_in = omega arith;
  bounded = omega arith;
  growing = omega arith;
  backed = refl;
}

create_new_dynamic_array-IsWellFormed_example :
    IsWellFormed small
    × (elements small ≡ [])
    × (small.nb_allocated ≡ 1)
    × (small.max_allocatable ≡ 2)
unfolding create_new_dynamic_array grow_dynarray
create_new_dynamic_array-IsWellFormed_example =
    create_new_dynamic_array-IsWellFormed clearing true 72 4 2 2 1 false small clearing-Keeps refl

add_new_element-cases_example :
    (r : ℤ × DynArray) × (add_new_element clearing (some (codes "abcd")) (some small)
      ≡ (r.0, some r.1))
    × (Adds (codes "abcd") small r
        ⊎ (Fails clearing small.growth_increment small r × (small.ctr_used ≡ small.nb_allocated)))
add_new_element-cases_example =
    add_new_element-cases clearing (codes "abcd") small clearing-Keeps small-IsWellFormed refl

-- The array with one element, which is full though its maximum is two.
abbrev full_array : DynArray
full_array = record small { ctr_used = 1; p_allocated_array = codes "abcd" }

full_array-IsWellFormed : IsWellFormed full_array
full_array-IsWellFormed = record {
  valid = refl;
  iterator_in = omega arith;
  used_in = omega arith;
  bounded = omega arith;
  growing = omega arith;
  backed = refl;
}

second_refused :
    add_new_element clearing (some (codes "efgh")) (some full_array)
    ≡ (err_max_alloc, some full_array)
unfolding add_new_element add_valid grow_dynarray
second_refused = refl

get_first_elem-order_example : collect 2 (get_first_elem (some full_array)) ≡ codes "abcd" ∷ []
get_first_elem-order_example = get_first_elem-order full_array full_array-IsWellFormed

free-IsRefused_example :
    ((d : DynArray) × (empty_dynarray (some full_array) ≡ some (pos 0, some d))
      × IsWellFormed d
      × (elements d ≡ []))
    × ((d : DynArray) × (free (some full_array) ≡ some (pos 0, some d)) × IsRefused d)
free-IsRefused_example = free-IsRefused full_array full_array-IsWellFormed refl
