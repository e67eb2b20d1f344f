-- ===== src/DynArray/Find.antt =====
-- `dynarray_bsearch` and `dynarray_qsort` of src/dynarray/dynarray.c. The functions of the C library
-- that they call are arguments.
use xmltp.Prelude.{
  ℕ, ◌+◌, ◌-◌, ◌/◌, Bool, Option, none, some, ℤ, pos, eq_ℤ, leb, ltb, ◌==◌, if◌then◌else◌,
}
use xmltp.Bytes.{Bytes}
use xmltp.DynArray.{DynArray, dyn_array_obj_signature, err_null_obj_ptr, err_invalid_signature}
use xmltp.DynArray.Ops.{checked}

-- What the C library's `bsearch` does with a key and a comparison in a memory, with the count of its
-- elements and their size: the offset of the element that it finds, and of the last one that it
-- compared.
abbrev pub Bsearch : Type 0
Bsearch = Bytes → ℕ → ℕ → Option ℕ × ℕ

-- `*found_value`, `*before_value` and `*after_value`
pub record Neighbours : Type 0 where
  pub found_value : Option ℕ
  pub before_value : Option ℕ
  pub after_value : Option ℕ

-- The element before the one at an offset, with the index of the last one that was compared.
abbrev pub value_before : DynArray → ℕ → ℕ → Option ℕ
value_before d ind offset = if ltb 0 ind then some (offset - d.sizeof_element) else none

abbrev pub value_after : DynArray → ℕ → ℕ → Option ℕ
value_after d ind offset =
    if ltb ind (d.ctr_used - 1) then some (offset + d.sizeof_element) else none

-- The search after `bsearch`; `is_less` tells whether the key is less than the element at an offset.
abbrev pub neighbours : (ℕ → Bool) → DynArray → ℕ → Option ℕ × ℕ → Neighbours
neighbours is_less d ind (some found, last_elem_compare) = record {
  found_value = some found;
  before_value = value_before d ind found;
  after_value = value_after d ind found;
}
neighbours is_less d ind (none, last_elem_compare) =
    if is_less last_elem_compare
    then record {
      found_value = none;
      before_value = value_before d ind last_elem_compare;
      after_value = some last_elem_compare;
    }
    else record {
      found_value = none;
      before_value = some last_elem_compare;
      after_value = value_after d ind last_elem_compare;
    }

abbrev pub search_valid : Bsearch → (ℕ → Bool) → DynArray → Neighbours
search_valid bytes_search is_less d =
    if d.ctr_used == 0
    then record { found_value = none; before_value = none; after_value = none }
    else let r = bytes_search d.p_allocated_array d.ctr_used d.sizeof_element in
      neighbours is_less d (r.1 / d.sizeof_element) r

-- `dynarray_bsearch`: the code, and the three values where they are set.
abbrev pub bsearch : Bsearch → (ℕ → Bool) → Option DynArray → ℤ × Option Neighbours
bsearch bytes_search is_less none = (err_null_obj_ptr, none)
bsearch bytes_search is_less (some d) =
    if eq_ℤ d.signature dyn_array_obj_signature
    then (pos 0, some (search_valid bytes_search is_less d))
    else (err_invalid_signature, none)

-- `dynarray_qsort`; `sort` is the C library's `qsort` with a comparison.
abbrev pub qsort : (Bytes → ℕ → ℕ → Bytes) → Option DynArray → ℤ × Option DynArray
qsort sort = checked (λ d. if leb d.ctr_used 1 then (pos 0, d) else (
  pos 0,
  record d { p_allocated_array = sort d.p_allocated_array d.ctr_used d.sizeof_element },
))
