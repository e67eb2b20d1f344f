-- ===== src/IntStrTab.antt =====
-- src/log_fn/intstrtb.c: tables of numbers and their strings.
-- A table is the list of its entries, and a pointer to one is an option. The size that the callers
-- pass is in bytes. The outer option of a result is `none` where the code reads behind the table or
-- through a NULL string.
pub mod Search
mod Tests
use xmltp.Prelude.{
  ℕ, zero, suc, ◌/◌, Bool, true, false, Option, none, some, List, [], ◌∷◌, ℤ, pos, neg, eq_ℤ, ltb_ℤ,
  ◌==◌, if◌then◌else◌, get_or,
}
use xmltp.Bytes.{Bytes, strcmp_eq}

-- `struct int_str_tab_entry`
pub record Entry : Type 0 where
  pub num : ℤ
  pub p_string : Option Bytes

-- Its size, and the least `int`, where pointers have 8 bytes and an `int` has 4.
abbrev pub sizeof_entry : ℕ
sizeof_entry = 16

abbrev pub int_min : ℤ
int_min = neg 2147483648

abbrev pub string_table_is_ok : ℤ
string_table_is_ok = pos 0

abbrev pub null_string_found : ℤ
null_string_found = neg 5

abbrev pub numbers_not_sorted : ℤ
numbers_not_sorted = neg 6

abbrev pub string_not_found : ℤ
string_not_found = int_min

-- The loop of `istb_string_for_num`, with the entries left.
pub string_loop : ℕ → List Entry → ℤ → Option (Option Bytes)
string_loop zero es n = some none
string_loop (suc left) [] n = none
string_loop (suc left) (e ∷ es) n = elim (eq_ℤ e.num n) [
  | true ↦ some e.p_string
  | false ↦ string_loop left es n
]

-- `istb_string_for_num`
pub string_for_num : Option (List Entry) → ℕ → ℤ → Option (Option Bytes)
string_for_num none sizeof_table n = some none
string_for_num (some tab) sizeof_table n = string_loop (sizeof_table / sizeof_entry) tab n

-- The tests in the loop of `istb_num_for_string_ext`.
abbrev pub same_string : Bool → Bytes → Bytes → Bool
same_string true p s = get_or p 0 0 == get_or s 0 0
same_string false p s = strcmp_eq p s

-- The loop of `istb_num_for_string_ext`, with the entries left.
pub num_loop : ℕ → List Entry → Bytes → Bool → Option ℤ
num_loop zero es s only_first_byte = some string_not_found
num_loop (suc left) [] s only_first_byte = none
num_loop (suc left) (e ∷ es) s only_first_byte = elim e.p_string [
  | none ↦ none
  | some p ↦ elim (same_string only_first_byte p s) [
    | true ↦ some e.num
    | false ↦ num_loop left es s only_first_byte
  ]
]

-- `istb_num_for_string_ext`
pub num_for_string_ext : Option (List Entry) → ℕ → Bytes → Bool → Option ℤ
num_for_string_ext none sizeof_table s only_first_byte = some string_not_found
num_for_string_ext (some tab) sizeof_table s only_first_byte =
    num_loop (sizeof_table / sizeof_entry) tab s only_first_byte

-- `istb_num_for_string`
pub num_for_string : Option (List Entry) → ℕ → Bytes → Option ℤ
num_for_string p sizeof_table s = num_for_string_ext p sizeof_table s false

-- `istb_num_for_string_first_byte`
pub num_for_string_first_byte : Option (List Entry) → ℕ → Bytes → Option ℤ
num_for_string_first_byte p sizeof_table s = num_for_string_ext p sizeof_table s true

-- The loop of `istb_check_int_strings_table`, with the entries left. The source never assigns
-- `prev_num` after its declaration.
pub check_loop : ℕ → List Entry → ℤ → Option ℤ
check_loop zero es prev_num = some string_table_is_ok
check_loop (suc left) [] prev_num = none
check_loop (suc left) (e ∷ es) prev_num = elim (ltb_ℤ e.num prev_num) [
  | true ↦ some numbers_not_sorted
  | false ↦ elim e.p_string [ none ↦ some null_string_found | some _ ↦ check_loop left es prev_num ]
]

-- What the end of `istb_check_int_strings_table` leaves in `s_p_last_table_checked`.
abbrev pub remember_table : List Entry → Option ℤ → Option (ℤ × Option (List Entry))
remember_table tab none = none
remember_table tab (some rc) = some (rc, if eq_ℤ rc string_table_is_ok then some tab else none)

-- `istb_check_int_strings_table`: the code, and `s_p_last_table_checked`.
pub check_int_strings_table : Option (List Entry) → ℕ → Option (ℤ × Option (List Entry))
check_int_strings_table none sizeof_table = some (string_not_found, none)
check_int_strings_table (some tab) sizeof_table =
    remember_table tab (check_loop (sizeof_table / sizeof_entry) tab int_min)
