-- ===== src/DynArray/Ops.antt =====
-- The functions of src/dynarray/dynarray.c on an array.
use xmltp.Prelude.{
  ℕ, ◌+◌, ◌-◌, ◌*◌, ◌||◌, not, Option, none, some, ℤ, pos, negsuc, neg, eq_ℤ, leb, ltb,
  if◌then◌else◌, take, [],
}
use xmltp.Bytes.{Bytes}
use xmltp.DynArray.{
  DynArray, dyn_array_obj_signature, err_null_arg, err_null_obj_ptr, err_invalid_signature, memcpy,
  Realloc, grow_dynarray,
}

-- A function on a pointer whose signature is checked first.
abbrev pub checked : (DynArray → ℤ × DynArray) → Option DynArray → ℤ × Option DynArray
checked go_on none = (err_null_obj_ptr, none)
checked go_on (some d) =
    if eq_ℤ d.signature dyn_array_obj_signature
    then ((go_on d).0, some (go_on d).1)
    else (err_invalid_signature, some d)

-- The copy of the element behind the last one.
abbrev pub store : Bytes → DynArray → ℤ × DynArray
store elem d = (
  pos 0,
  record d {
    p_allocated_array =
        memcpy d.p_allocated_array (d.ctr_used * d.sizeof_element) (take d.sizeof_element elem);
    ctr_used = d.ctr_used + 1;
  },
)

abbrev pub if_grown : (DynArray → ℤ × DynArray) → ℤ × DynArray → ℤ × DynArray
if_grown go_on (rc, d) = if eq_ℤ rc (pos 0) then go_on d else (rc, d)

-- `dynarray_add_new_element` on a valid array.
unfoldable pub add_valid : Realloc → Option Bytes → DynArray → ℤ × DynArray
add_valid realloc none d = (err_null_arg, d)
add_valid realloc (some elem) d =
    if leb d.nb_allocated d.ctr_used
    then if_grown (store elem) (grow_dynarray realloc d.growth_increment d)
    else store elem d

-- `dynarray_add_new_element`
unfoldable pub add_new_element : Realloc → Option Bytes → Option DynArray → ℤ × Option DynArray
add_new_element realloc p_elem = checked (add_valid realloc p_elem)

-- `dynarray_get_nb_elem_stored`
abbrev pub get_nb_elem_stored : Option DynArray → ℤ
get_nb_elem_stored none = neg 1
get_nb_elem_stored (some d) =
    if eq_ℤ d.signature dyn_array_obj_signature then pos d.ctr_used else neg 1

-- `dynarray_get_sizeof_element`: the code, and `*p_elem_len` where it is set.
abbrev pub get_sizeof_element : Option DynArray → ℤ × Option ℕ
get_sizeof_element none = (err_null_obj_ptr, none)
get_sizeof_element (some d) =
    if eq_ℤ d.signature dyn_array_obj_signature
    then (pos 0, some d.sizeof_element)
    else (err_invalid_signature, none)

-- `dynarray_get_next_elem` on a valid array.
unfoldable pub next_valid : DynArray → Option ℕ × DynArray
next_valid d = if leb d.ctr_used d.iterator_current_i then (none, d) else (
  some (d.iterator_current_i * d.sizeof_element),
  record d { iterator_current_i = d.iterator_current_i + 1 },
)

abbrev pub with_pointer :
    (DynArray → Option ℕ × DynArray) → Option DynArray → Option ℕ × Option DynArray
with_pointer go_on none = (none, none)
with_pointer go_on (some d) =
    if eq_ℤ d.signature dyn_array_obj_signature
    then ((go_on d).0, some (go_on d).1)
    else (none, some d)

-- `dynarray_get_next_elem`
unfoldable pub get_next_elem : Option DynArray → Option ℕ × Option DynArray
get_next_elem = with_pointer next_valid

-- `dynarray_get_first_elem`
unfoldable pub get_first_elem : Option DynArray → Option ℕ × Option DynArray
get_first_elem = with_pointer (λ d. next_valid (record d { iterator_current_i = 0 }))

-- `dynarray_get_nth_elem` on a valid array.
unfoldable pub nth_valid : ℤ → DynArray → Option ℕ
nth_valid (negsuc n) d = none
nth_valid (pos i) d = if leb d.ctr_used i then none else some (i * d.sizeof_element)

-- `dynarray_get_nth_elem`
unfoldable pub get_nth_elem : ℤ → Option DynArray → Option ℕ
get_nth_elem i none = none
get_nth_elem i (some d) = if eq_ℤ d.signature dyn_array_obj_signature then nth_valid i d else none

-- `dynarray_get_current_elem`
unfoldable pub get_current_elem : Option DynArray → Option ℕ
get_current_elem none = none
get_current_elem (some d) =
    if not (eq_ℤ d.signature dyn_array_obj_signature)
    then none
    else if ltb d.ctr_used d.iterator_current_i || ltb d.iterator_current_i 1
    then none
    else some ((d.iterator_current_i - 1) * d.sizeof_element)

-- `dynarray_get_value_of_iterator`
abbrev pub get_value_of_iterator : Option DynArray → ℤ
get_value_of_iterator none = neg 1
get_value_of_iterator (some d) =
    if eq_ℤ d.signature dyn_array_obj_signature then pos d.iterator_current_i else neg 1

-- A function that frees elements which are arrays.
abbrev pub no_children : (DynArray → ℤ × DynArray) → Option DynArray → Option (ℤ × Option DynArray)
no_children go_on none = some (err_null_obj_ptr, none)
no_children go_on (some d) =
    if not (eq_ℤ d.signature dyn_array_obj_signature)
    then some (err_invalid_signature, some d)
    else if d.b_elems_are_dynarray
    then none
    else some ((go_on d).0, some (go_on d).1)

-- `dynarray_empty_dynarray`
unfoldable pub empty_dynarray : Option DynArray → Option (ℤ × Option DynArray)
empty_dynarray = no_children (λ d. (pos 0, record d { ctr_used = 0; iterator_current_i = 0 }))

-- `dynarray_free`, which frees the memory of the array and not the array itself. The pointer that
-- the source leaves behind leads to no memory.
unfoldable pub free : Option DynArray → Option (ℤ × Option DynArray)
free = no_children (λ d.
    (pos 0, record d { signature = neg 1; nb_allocated = 0; ctr_used = 0; p_allocated_array = [] }))
