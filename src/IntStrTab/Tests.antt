-- ===== src/IntStrTab/Tests.antt =====
-- Runs of the searches on tables, and their theorems at concrete ones.
use xmltp.Prelude.{◌≡◌, refl, List, [], ◌∷◌, ◌*◌, some, pos, length}
use xmltp.Bytes.{codes, strcmp_eq}
use xmltp.IntStrTab.{
  Entry, string_loop, string_for_num, num_loop, num_for_string_ext, num_for_string,
  num_for_string_first_byte, check_int_strings_table, sizeof_entry, string_table_is_ok,
}
use xmltp.IntStrTab.Search.{
  Distinct, num_for_string-string_for_num, check_int_strings_table-has_null,
}

abbrev levels : List Entry
levels =
    record { num = pos 2; p_string = some (codes "warn") }
    ∷ record { num = pos 1; p_string = some (codes "error") }
    ∷ []

by_first_byte : num_for_string_first_byte (some levels) 32 (codes "east") ≡ some (pos 1)
unfolding num_for_string_first_byte num_for_string_ext num_loop
by_first_byte = refl

levels-Distinct : Distinct levels
unfolding strcmp_eq
levels-Distinct = (
  codes "warn",
  refl,
  ((λ s e. (let q : s ≡ codes "error" = cc in rw q refl)), tt),
  (codes "error", refl, tt, tt),
)

num_for_string-string_for_num_example :
    num_for_string (some levels) 32 (codes "error") ≡ some (pos 1)
unfolding string_for_num string_loop
num_for_string-string_for_num_example =
    num_for_string-string_for_num levels 32 (pos 1) (codes "error") levels-Distinct refl

-- The numbers of this table are not sorted.
check_int_strings_table-has_null_example :
    check_int_strings_table (some levels) (length levels * sizeof_entry)
    ≡ some (string_table_is_ok, some levels)
check_int_strings_table-has_null_example =
    check_int_strings_table-has_null levels (refl, (refl, tt))
