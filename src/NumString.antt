-- ===== src/NumString.antt =====
-- src/dulib/check_num_string.c: the automata that validate the text of a number.
pub mod Spec
pub mod Columns
pub mod Accepts
mod Tests
use xmltp.Prelude.{
  ℕ, zero, suc, Option, none, some, List, [], ◌∷◌, ℤ, pos, negsuc, neg, get_elem?, get_or,
}
use xmltp.Bytes.{Bytes}

-- The column of each ASCII character in the automata.
abbrev pub float_string_ascii_column : List ℕ
float_string_ascii_column =
    5 ∷ 6 ∷ 6 ∷ 6 ∷ 6 ∷ 6 ∷ 6 ∷ 6 ∷ 6 ∷ 6 ∷ 6 ∷ 6 ∷ 6 ∷ 6 ∷ 6 ∷ 6 ∷ 6 ∷ 6 ∷ 6 ∷ 6 ∷ 6 ∷ 6 ∷ 6 ∷ 6
    ∷ 6 ∷ 6 ∷ 6 ∷ 6 ∷ 6 ∷ 6 ∷ 6 ∷ 6 ∷ 0 ∷ 6 ∷ 6 ∷ 6 ∷ 6 ∷ 6 ∷ 6 ∷ 6 ∷ 6 ∷ 6 ∷ 6 ∷ 2 ∷ 6 ∷ 3 ∷ 4 ∷ 6
    ∷ 1 ∷ 1 ∷ 1 ∷ 1 ∷ 1 ∷ 1 ∷ 1 ∷ 1 ∷ 1 ∷ 1 ∷ 6 ∷ 6 ∷ 6 ∷ 6 ∷ 6 ∷ 6 ∷ 6 ∷ 6 ∷ 6 ∷ 6 ∷ 6 ∷ 6 ∷ 6 ∷ 6
    ∷ 6 ∷ 6 ∷ 6 ∷ 6 ∷ 6 ∷ 6 ∷ 6 ∷ 6 ∷ 6 ∷ 6 ∷ 6 ∷ 6 ∷ 6 ∷ 6 ∷ 6 ∷ 6 ∷ 6 ∷ 6 ∷ 6 ∷ 6 ∷ 6 ∷ 6 ∷ 6 ∷ 6
    ∷ 6 ∷ 6 ∷ 6 ∷ 6 ∷ 6 ∷ 6 ∷ 6 ∷ 6 ∷ 6 ∷ 6 ∷ 6 ∷ 6 ∷ 6 ∷ 6 ∷ 6 ∷ 6 ∷ 6 ∷ 6 ∷ 6 ∷ 6 ∷ 6 ∷ 6 ∷ 6 ∷ 6
    ∷ 6 ∷ 6 ∷ 6 ∷ 6 ∷ 6 ∷ 6 ∷ 6 ∷ 6 ∷ []

-- A row for each state and a column for each kind of character: SPACE, DIGIT, +, -, ., NUL, any
-- other. The arrays are of 20 by 20; what the initialisers leave out is 0.
abbrev pub float_string_automaton : List (List ℤ)
float_string_automaton =
    (pos 0 ∷ pos 4 ∷ pos 1 ∷ pos 1 ∷ pos 2 ∷ neg 1 ∷ neg 1 ∷ [])
    ∷ (neg 1 ∷ pos 4 ∷ neg 1 ∷ neg 1 ∷ pos 2 ∷ neg 1 ∷ neg 1 ∷ [])
    ∷ (pos 5 ∷ pos 3 ∷ neg 1 ∷ neg 1 ∷ neg 1 ∷ neg 2 ∷ neg 1 ∷ [])
    ∷ (pos 5 ∷ pos 3 ∷ neg 1 ∷ neg 1 ∷ neg 1 ∷ neg 2 ∷ neg 1 ∷ [])
    ∷ (pos 5 ∷ pos 4 ∷ neg 1 ∷ neg 1 ∷ pos 2 ∷ neg 2 ∷ neg 1 ∷ [])
    ∷ (pos 5 ∷ neg 1 ∷ neg 1 ∷ neg 1 ∷ neg 1 ∷ neg 2 ∷ neg 1 ∷ [])
    ∷ []

abbrev pub int_string_automaton : List (List ℤ)
int_string_automaton =
    (pos 0 ∷ pos 4 ∷ pos 1 ∷ pos 1 ∷ neg 1 ∷ neg 1 ∷ neg 1 ∷ [])
    ∷ (neg 1 ∷ pos 4 ∷ neg 1 ∷ neg 1 ∷ neg 1 ∷ neg 1 ∷ neg 1 ∷ [])
    ∷ (neg 1 ∷ pos 3 ∷ neg 1 ∷ neg 1 ∷ neg 1 ∷ neg 1 ∷ neg 1 ∷ [])
    ∷ (pos 5 ∷ pos 3 ∷ neg 1 ∷ neg 1 ∷ neg 1 ∷ neg 2 ∷ neg 1 ∷ [])
    ∷ (pos 5 ∷ pos 4 ∷ neg 1 ∷ neg 1 ∷ neg 1 ∷ neg 2 ∷ neg 1 ∷ [])
    ∷ (pos 5 ∷ neg 1 ∷ neg 1 ∷ neg 1 ∷ neg 1 ∷ neg 2 ∷ neg 1 ∷ [])
    ∷ []

-- `automaton[niveau][column]`
abbrev pub entry : List (List ℤ) → ℕ → ℕ → ℤ
entry automaton niveau column = get_or (get_or automaton niveau []) column (pos 0)

-- What `cns_check_string` does with an entry; `again` is its call on the rest of the string.
abbrev pub follow : (ℕ → Option ℤ) → ℤ → Option ℤ
follow again (negsuc i) = some (negsuc i)
follow again (pos i) = again i

-- `cns_check_string` on the bytes of the array; `none` is a read outside an array, of the string
-- or of `tbl`, which has no column for a byte above 127.
unfoldable pub check_string : List ℕ → List (List ℤ) → ℕ → Bytes → Option ℤ
check_string tbl automaton niveau [] = none
check_string tbl automaton niveau (c ∷ chaine) = elim (get_elem? tbl c) [
  | none ↦ none
  | some column ↦ follow (λ i. check_string tbl automaton i chaine) (entry automaton niveau column)
]

-- `cns_check_float_string`
unfoldable pub check_float_string : Bytes → Option ℤ
check_float_string chaine = check_string float_string_ascii_column float_string_automaton 0 chaine

-- `cns_check_int_string`
unfoldable pub check_int_string : Bytes → Option ℤ
check_int_string chaine = check_string float_string_ascii_column int_string_automaton 0 chaine
