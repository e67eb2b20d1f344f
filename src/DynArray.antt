-- ===== src/DynArray.antt =====
-- src/dynarray/dynarray.c: arrays that grow up to a limit.
-- The memory of an array is the list of its bytes, and a pointer into it is an offset. `realloc` is
-- the C library's, with NULL as `none`: `mem_realloc` adds only a count for the debug trace. The
-- text of the last error, which only diagnostics read, is left out, and so are arrays whose elements
-- are arrays: their functions return `none`.
pub mod Ops
pub mod Find
pub mod Elems
pub mod Laws
pub mod Reads
mod Tests
use xmltp.Prelude.{
  ℕ, zero, suc, ◌+◌, ◌*◌, Bool, true, false, ◌&&◌, ◌||◌, not, Option, none, some, List, [], ◌∷◌,
  ◌++◌, ℤ, pos, negsuc, neg, eq_ℤ, leb, ltb, ◌==◌, if◌then◌else◌, length, take, drop,
}
use xmltp.Bytes.{Bytes}

-- DYN_ARRAY_OBJ_T
pub record DynArray : Type 0 where
  pub signature : ℤ
  pub b_elems_are_dynarray : Bool
  pub sizeof_element : ℕ
  pub max_allocatable : ℕ
  pub growth_increment : ℕ
  pub nb_allocated : ℕ
  pub ctr_used : ℕ
  pub iterator_current_i : ℕ
  pub p_allocated_array : Bytes

abbrev pub dyn_array_obj_signature : ℤ
dyn_array_obj_signature = pos 0x01ff0f01

abbrev pub err_max_alloc : ℤ
err_max_alloc = neg 3

abbrev pub err_out_of_memory : ℤ
err_out_of_memory = neg 9

abbrev pub err_null_arg : ℤ
err_null_arg = neg 20

abbrev pub err_null_obj_ptr : ℤ
err_null_obj_ptr = neg 21

abbrev pub err_invalid_signature : ℤ
err_invalid_signature = neg 22

-- `sf_validate_signature`
abbrev pub validate_signature : Option DynArray → ℤ
validate_signature none = err_null_obj_ptr
validate_signature (some d) =
    if eq_ℤ d.signature dyn_array_obj_signature then pos 0 else err_invalid_signature

-- The memory after `memcpy`.
abbrev pub memcpy : Bytes → ℕ → Bytes → Bytes
memcpy memory at bytes = (take at memory ++ bytes) ++ drop (at + length bytes) memory

abbrev pub Realloc : Type 0
Realloc = Bytes → ℕ → Option Bytes

-- `sf_grow_dynarray` where the signature is valid and there is room below the limit.
abbrev pub grown : ℕ → DynArray → Option Bytes → ℤ × DynArray
grown n d none = (err_out_of_memory, d)
grown n d (some buffer) =
    (pos 0, record d { nb_allocated = d.nb_allocated + n; p_allocated_array = buffer })

-- `sf_grow_dynarray`
pub grow_dynarray : Realloc → ℕ → DynArray → ℤ × DynArray
grow_dynarray realloc n d =
    if not (eq_ℤ d.signature dyn_array_obj_signature)
    then (err_invalid_signature, d)
    else if leb (d.nb_allocated + n) d.max_allocatable
    then grown n d (realloc d.p_allocated_array ((d.nb_allocated + n) * d.sizeof_element))
    else (err_max_alloc, d)

-- The tests at the head of `dynarray_create_new_dynamic_array`; a negative argument fails them as 0
-- does. `sizeof_struct` is sizeof(DYN_ARRAY_OBJ_T).
abbrev pub arguments_ok : ℕ → ℕ → ℕ → ℕ → ℕ → Bool → Bool
arguments_ok sizeof_struct sizeof_element max_allocatable growth_increment initial_size b_elems =
    leb 4 sizeof_element
    && (leb 2 max_allocatable
        && (leb max_allocatable 1000000
            && (leb 1 growth_increment
                && (leb growth_increment 1000
                    && (leb 1 initial_size
                        && (leb initial_size 1000
                            && (not b_elems || (sizeof_element == sizeof_struct))))))))

abbrev pub if_grown_new : ℤ × DynArray → Option DynArray
if_grown_new (rc, d) = if eq_ℤ rc (pos 0) then some d else none

-- The fields of the new struct before the first growth.
abbrev pub initialised : ℕ → ℕ → ℕ → Bool → DynArray
initialised sizeof_element max_allocatable growth_increment b_elems = record {
  signature = dyn_array_obj_signature;
  b_elems_are_dynarray = b_elems;
  sizeof_element = sizeof_element;
  max_allocatable = max_allocatable;
  growth_increment = growth_increment;
  nb_allocated = 0;
  ctr_used = 0;
  iterator_current_i = 0;
  p_allocated_array = [];
}

-- `dynarray_create_new_dynamic_array`; `found` tells whether `mem_calloc` finds memory.
pub create_new_dynamic_array : Realloc → Bool → ℕ → ℕ → ℕ → ℕ → ℕ → Bool → Option DynArray
create_new_dynamic_array realloc found sizeof_struct sizeof_element max_allocatable growth_increment
      initial_size b_elems =
    if arguments_ok sizeof_struct sizeof_element max_allocatable growth_increment initial_size
        b_elems
      && found
    then if_grown_new (
        grow_dynarray realloc initial_size
          (initialised sizeof_element max_allocatable growth_increment b_elems))
    else none
