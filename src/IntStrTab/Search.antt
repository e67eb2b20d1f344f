-- ===== src/IntStrTab/Search.antt =====
-- The searches and the check of src/log_fn/intstrtb.c on whole tables.
use xmltp.Prelude.{
  ℕ, zero, suc, ◌*◌, ◌/◌, ◌≡◌, refl, sym, ap, ◌∙◌, Bool, true, false, inl, inr, Bool-cases,
  Option-cases, none, some, List, [], ◌∷◌, ℤ, eq_ℤ, eq_ℤ_iff, ltb_ℤ, if◌then◌else◌, length, All,
  arith,
}
use xmltp.Bytes.{Bytes, strcmp_eq, strcmp_eq_refl}
use xmltp.IntStrTab.{
  Entry, sizeof_entry, int_min, string_table_is_ok, null_string_found, string_loop, string_for_num,
  num_loop, num_for_string_ext, num_for_string, check_loop, check_int_strings_table,
}

-- Another string than `p` stands in the entry, or NULL.
abbrev pub Differs : Bytes → Entry → Type 0
Differs p e = (s : Bytes) → e.p_string ≡ some s → strcmp_eq p s ≡ false

-- No string is NULL, and no two are the same.
abbrev pub Distinct : List Entry → Type 0
Distinct [] = Unit
Distinct (e ∷ es) = (p : Bytes) × (e.p_string ≡ some p) × All (Differs p) es × Distinct es

div_lem : (n : ℕ) → (n * sizeof_entry) / sizeof_entry ≡ n
div_lem n = omega arith

string_loop-here :
    (left : ℕ) (e : Entry) (es : List Entry) (n : ℤ) (s : Bytes)
    → eq_ℤ e.num n ≡ true
    → string_loop (suc left) (e ∷ es) n ≡ some (some s)
    → e.p_string ≡ some s
unfolding string_loop
string_loop-here left e es n s same h =
    let opened : string_loop (suc left) (e ∷ es) n ≡ some e.p_string =
      rw (same, string_loop) refl in
    cc

string_loop-there :
    (left : ℕ) (e : Entry) (es : List Entry) (n : ℤ)
    → eq_ℤ e.num n ≡ false
    → string_loop (suc left) (e ∷ es) n ≡ string_loop left es n
unfolding string_loop
string_loop-there left e es n other = rw (other, string_loop) refl

string_loop-Differs :
    (left : ℕ) (es : List Entry) (n : ℤ) (p s : Bytes)
    → All (Differs p) es
    → string_loop left es n ≡ some (some s)
    → strcmp_eq p s ≡ false
unfolding string_loop
string_loop-Differs zero es n p s d h = absurd (ground arith)
string_loop-Differs (suc left) [] n p s d h = absurd (ground arith)
string_loop-Differs (suc left) (e ∷ es) n p s d h = elim (Bool-cases (eq_ℤ e.num n)) [
  | inl same ↦ d.0 s (string_loop-here left e es n s same h)
  | inr other ↦
      string_loop-Differs left es n p s d.1 (sym (string_loop-there left e es n other) ∙ h)
]

num_loop-string_loop :
    (left : ℕ) (es : List Entry) (n : ℤ) (s : Bytes)
    → Distinct es
    → string_loop left es n ≡ some (some s)
    → num_loop left es s false ≡ some n
unfolding string_loop num_loop
num_loop-string_loop zero es n s d h = absurd (ground arith)
num_loop-string_loop (suc left) [] n s d h = absurd (ground arith)
num_loop-string_loop (suc left) (e ∷ es) n s (p, at, differ, d) h =
    elim (Bool-cases (eq_ℤ e.num n)) [
      | inl same ↦
          rw (string_loop-here left e es n s same h, strcmp_eq_refl s)
            (ap some ((eq_ℤ_iff e.num n).0 same))
      | inr other ↦
          let h' = sym (string_loop-there left e es n other) ∙ h in
          rw (at, string_loop-Differs left es n p s differ h')
            (num_loop-string_loop left es n s d h')
    ]

-- In a table with no NULL string and no two equal ones, `istb_num_for_string` finds the number
-- again whose string `istb_string_for_num` returned.
pub num_for_string-string_for_num :
    (tab : List Entry) (sizeof_table : ℕ) (n : ℤ) (s : Bytes)
    → Distinct tab
    → string_for_num (some tab) sizeof_table n ≡ some (some s)
    → num_for_string (some tab) sizeof_table s ≡ some n
unfolding string_for_num num_for_string num_for_string_ext
num_for_string-string_for_num tab sizeof_table n s =
    num_loop-string_loop (sizeof_table / sizeof_entry) tab n s

-- Some string of the table is NULL.
abbrev pub has_null : List Entry → Bool
has_null [] = false
has_null (e ∷ es) = elim e.p_string [ none ↦ true | some _ ↦ has_null es ]

abbrev pub IsInt : Entry → Type 0
IsInt e = ltb_ℤ e.num int_min ≡ false

check_loop-has_null :
    (es : List Entry)
    → All IsInt es
    → check_loop (length es) es int_min
      ≡ some (if has_null es then null_string_found else string_table_is_ok)
unfolding check_loop
check_loop-has_null [] h = refl
check_loop-has_null (e ∷ es) h = elim (Option-cases e.p_string) [
  | inl null ↦ rw (h.0, null, check_loop) refl
  | inr (p, at) ↦ rw (h.0, at, check_loop) (check_loop-has_null es h.1)
]

-- `istb_check_int_strings_table`, on a whole table of `int`s: it finds nothing but NULL strings. A
-- table whose numbers are not sorted passes, and is noted as checked, as one that is sorted.
pub check_int_strings_table-has_null :
    (tab : List Entry)
    → All IsInt tab
    → check_int_strings_table (some tab) (length tab * sizeof_entry)
      ≡ some (if has_null tab then (null_string_found, none) else (string_table_is_ok, some tab))
unfolding check_int_strings_table
check_int_strings_table-has_null tab h =
    rw (div_lem (length tab), check_loop-has_null tab h)
      (elim (Bool-cases (has_null tab)) [ inl e ↦ rw e refl | inr e ↦ rw e refl ])
