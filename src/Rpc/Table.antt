-- ===== src/Rpc/Table.antt =====
-- src/ct10api/ct10rpc_parse.c: the column of each character, and the automaton.
use xmltp.Prelude.{ℕ, List, [], ◌∷◌, ℤ, pos, neg, get_or}

abbrev pub ascii_value_column_in_auto : List ℕ
ascii_value_column_in_auto =
    9 ∷ 10 ∷ 10 ∷ 10 ∷ 10 ∷ 10 ∷ 10 ∷ 10 ∷ 10 ∷ 5 ∷ 5 ∷ 10 ∷ 10 ∷ 5 ∷ 10 ∷ 10 ∷ 10 ∷ 10 ∷ 10 ∷ 10
    ∷ 10 ∷ 10 ∷ 10 ∷ 10 ∷ 10 ∷ 10 ∷ 10 ∷ 10 ∷ 10 ∷ 10 ∷ 10 ∷ 10 ∷ 5 ∷ 10 ∷ 7 ∷ 10 ∷ 10 ∷ 10 ∷ 10
    ∷ 10 ∷ 10 ∷ 10 ∷ 10 ∷ 2 ∷ 8 ∷ 2 ∷ 3 ∷ 10 ∷ 1 ∷ 1 ∷ 1 ∷ 1 ∷ 1 ∷ 1 ∷ 1 ∷ 1 ∷ 1 ∷ 1 ∷ 10 ∷ 10 ∷ 10
    ∷ 6 ∷ 10 ∷ 10 ∷ 4 ∷ 0 ∷ 0 ∷ 0 ∷ 0 ∷ 0 ∷ 0 ∷ 0 ∷ 0 ∷ 0 ∷ 0 ∷ 0 ∷ 0 ∷ 0 ∷ 0 ∷ 0 ∷ 0 ∷ 0 ∷ 0 ∷ 0
    ∷ 0 ∷ 0 ∷ 0 ∷ 0 ∷ 0 ∷ 0 ∷ 0 ∷ 10 ∷ 10 ∷ 10 ∷ 10 ∷ 0 ∷ 10 ∷ 0 ∷ 0 ∷ 0 ∷ 0 ∷ 0 ∷ 0 ∷ 0 ∷ 0 ∷ 0 ∷ 0
    ∷ 0 ∷ 0 ∷ 0 ∷ 0 ∷ 0 ∷ 0 ∷ 0 ∷ 0 ∷ 0 ∷ 0 ∷ 0 ∷ 0 ∷ 0 ∷ 0 ∷ 0 ∷ 0 ∷ 11 ∷ 10 ∷ 12 ∷ 10 ∷ 10 ∷ 10
    ∷ 10 ∷ 10 ∷ 10 ∷ 10 ∷ 10 ∷ 10 ∷ 10 ∷ 10 ∷ 10 ∷ 10 ∷ 10 ∷ 10 ∷ 10 ∷ 10 ∷ 10 ∷ 10 ∷ 10 ∷ 10 ∷ 10
    ∷ 10 ∷ 10 ∷ 10 ∷ 10 ∷ 10 ∷ 10 ∷ 10 ∷ 10 ∷ 10 ∷ 10 ∷ 10 ∷ 10 ∷ 10 ∷ 10 ∷ 10 ∷ 10 ∷ 10 ∷ 10 ∷ 10
    ∷ 10 ∷ 10 ∷ 10 ∷ 10 ∷ 10 ∷ 10 ∷ 10 ∷ 10 ∷ 10 ∷ 10 ∷ 10 ∷ 10 ∷ 10 ∷ 10 ∷ 10 ∷ 10 ∷ 10 ∷ 10 ∷ 10
    ∷ 10 ∷ 10 ∷ 10 ∷ 10 ∷ 10 ∷ 10 ∷ 10 ∷ 10 ∷ 10 ∷ 10 ∷ 10 ∷ 10 ∷ 10 ∷ 10 ∷ 10 ∷ 10 ∷ 10 ∷ 10 ∷ 10
    ∷ 10 ∷ 10 ∷ 10 ∷ 10 ∷ 10 ∷ 10 ∷ 10 ∷ 10 ∷ 10 ∷ 10 ∷ 10 ∷ 10 ∷ 10 ∷ 10 ∷ 10 ∷ 10 ∷ 10 ∷ 10 ∷ 10
    ∷ 10 ∷ 10 ∷ 10 ∷ 10 ∷ 10 ∷ 10 ∷ 10 ∷ 10 ∷ 10 ∷ 10 ∷ 10 ∷ 10 ∷ 10 ∷ 10 ∷ 10 ∷ 10 ∷ 10 ∷ 10 ∷ 10
    ∷ 10 ∷ 10 ∷ 10 ∷ 10 ∷ 10 ∷ 10 ∷ 10 ∷ 10 ∷ 10 ∷ 10 ∷ 10 ∷ 10 ∷ 10 ∷ []

-- A row for each level and a column for each kind of character: a letter, a digit, a sign, `.`, `@`,
-- white space, `=`, `"`, `,`, NUL, any other, `{`, `}`. An entry has the next level and the function.
abbrev pub rpc_automaton : List (List (ℤ × ℕ))
rpc_automaton =
    ((pos 1, 100)
      ∷ (pos 1, 100)
      ∷ (neg 1, 0)
      ∷ (neg 1, 0)
      ∷ (neg 1, 0)
      ∷ (pos 0, 0)
      ∷ (neg 1, 0)
      ∷ (neg 1, 0)
      ∷ (neg 1, 0)
      ∷ (neg 1, 0)
      ∷ (neg 1, 0)
      ∷ (neg 1, 0)
      ∷ (neg 1, 0)
      ∷ [])
    ∷ ((pos 1, 100)
        ∷ (pos 1, 100)
        ∷ (neg 1, 0)
        ∷ (pos 1, 100)
        ∷ (neg 1, 0)
        ∷ (pos 3, 116)
        ∷ (neg 1, 0)
        ∷ (neg 1, 0)
        ∷ (neg 1, 0)
        ∷ (neg 999, 116)
        ∷ (neg 1, 0)
        ∷ (neg 1, 0)
        ∷ (neg 1, 0)
        ∷ [])
    ∷ ((pos 1, 0)
        ∷ (pos 1, 0)
        ∷ (neg 1, 0)
        ∷ (neg 1, 0)
        ∷ (neg 1, 0)
        ∷ (neg 1, 0)
        ∷ (neg 1, 0)
        ∷ (neg 1, 0)
        ∷ (neg 1, 0)
        ∷ (neg 1, 0)
        ∷ (neg 1, 0)
        ∷ (neg 1, 0)
        ∷ (neg 1, 0)
        ∷ [])
    ∷ ((pos 8, 103)
        ∷ (pos 8, 103)
        ∷ (pos 8, 103)
        ∷ (pos 8, 103)
        ∷ (pos 5, 101)
        ∷ (pos 3, 0)
        ∷ (neg 2, 0)
        ∷ (pos 9, 108)
        ∷ (neg 2, 0)
        ∷ (neg 999, 0)
        ∷ (neg 2, 0)
        ∷ (pos 13, 117)
        ∷ (neg 1, 0)
        ∷ [])
    ∷ ((pos 5, 101)
        ∷ (pos 5, 101)
        ∷ (neg 2, 0)
        ∷ (neg 2, 0)
        ∷ (neg 2, 0)
        ∷ (neg 2, 0)
        ∷ (neg 2, 0)
        ∷ (neg 2, 0)
        ∷ (neg 2, 0)
        ∷ (neg 2, 0)
        ∷ (neg 2, 0)
        ∷ (neg 1, 0)
        ∷ (neg 1, 0)
        ∷ [])
    ∷ ((pos 5, 102)
        ∷ (pos 5, 102)
        ∷ (neg 2, 0)
        ∷ (neg 2, 0)
        ∷ (neg 2, 0)
        ∷ (pos 6, 105)
        ∷ (pos 7, 105)
        ∷ (neg 2, 0)
        ∷ (neg 2, 0)
        ∷ (neg 2, 0)
        ∷ (neg 2, 0)
        ∷ (neg 1, 0)
        ∷ (neg 1, 0)
        ∷ [])
    ∷ ((neg 2, 0)
        ∷ (neg 2, 0)
        ∷ (neg 2, 0)
        ∷ (neg 2, 0)
        ∷ (neg 2, 0)
        ∷ (pos 6, 0)
        ∷ (pos 7, 0)
        ∷ (neg 2, 0)
        ∷ (neg 2, 0)
        ∷ (neg 2, 0)
        ∷ (neg 2, 0)
        ∷ (neg 1, 0)
        ∷ (neg 1, 0)
        ∷ [])
    ∷ ((pos 8, 103)
        ∷ (pos 8, 103)
        ∷ (pos 8, 103)
        ∷ (pos 8, 103)
        ∷ (neg 2, 0)
        ∷ (pos 7, 0)
        ∷ (neg 2, 0)
        ∷ (pos 9, 108)
        ∷ (neg 2, 0)
        ∷ (neg 2, 0)
        ∷ (pos 8, 103)
        ∷ (pos 13, 117)
        ∷ (pos 8, 103)
        ∷ [])
    ∷ ((pos 8, 104)
        ∷ (pos 8, 104)
        ∷ (pos 8, 104)
        ∷ (pos 8, 104)
        ∷ (pos 8, 104)
        ∷ (pos 10, 106)
        ∷ (pos 8, 104)
        ∷ (pos 8, 104)
        ∷ (pos 3, 111)
        ∷ (neg 999, 111)
        ∷ (pos 8, 104)
        ∷ (pos 8, 104)
        ∷ (pos 8, 104)
        ∷ [])
    ∷ ((pos 9, 107)
        ∷ (pos 9, 107)
        ∷ (pos 9, 107)
        ∷ (pos 9, 107)
        ∷ (pos 9, 107)
        ∷ (pos 9, 107)
        ∷ (pos 9, 107)
        ∷ (pos 10, 109)
        ∷ (pos 9, 107)
        ∷ (neg 2, 0)
        ∷ (pos 9, 107)
        ∷ (pos 9, 107)
        ∷ (pos 9, 107)
        ∷ [])
    ∷ ((pos 11, 112)
        ∷ (neg 2, 0)
        ∷ (neg 2, 0)
        ∷ (neg 2, 0)
        ∷ (neg 2, 0)
        ∷ (pos 10, 0)
        ∷ (neg 2, 0)
        ∷ (neg 2, 0)
        ∷ (pos 3, 110)
        ∷ (neg 999, 110)
        ∷ (neg 2, 0)
        ∷ (neg 1, 0)
        ∷ (neg 1, 0)
        ∷ [])
    ∷ ((pos 11, 113)
        ∷ (neg 2, 0)
        ∷ (neg 2, 0)
        ∷ (neg 2, 0)
        ∷ (neg 2, 0)
        ∷ (pos 12, 114)
        ∷ (neg 2, 0)
        ∷ (neg 2, 0)
        ∷ (pos 3, 115)
        ∷ (neg 999, 115)
        ∷ (neg 2, 0)
        ∷ (neg 1, 0)
        ∷ (neg 1, 0)
        ∷ [])
    ∷ ((neg 2, 0)
        ∷ (neg 2, 0)
        ∷ (neg 2, 0)
        ∷ (neg 2, 0)
        ∷ (neg 2, 0)
        ∷ (pos 12, 0)
        ∷ (neg 2, 0)
        ∷ (neg 2, 0)
        ∷ (pos 3, 110)
        ∷ (neg 999, 110)
        ∷ (neg 2, 0)
        ∷ (neg 1, 0)
        ∷ (neg 1, 0)
        ∷ [])
    ∷ ((pos 13, 107)
        ∷ (pos 13, 107)
        ∷ (pos 13, 107)
        ∷ (pos 13, 107)
        ∷ (pos 13, 107)
        ∷ (pos 13, 107)
        ∷ (pos 13, 107)
        ∷ (pos 13, 107)
        ∷ (pos 13, 107)
        ∷ (neg 2, 0)
        ∷ (pos 13, 107)
        ∷ (pos 13, 107)
        ∷ (pos 10, 109)
        ∷ [])
    ∷ []

-- `rpc_automaton[l][column]`
abbrev pub automaton_entry : ℕ → ℕ → ℤ × ℕ
automaton_entry l column = get_or (get_or rpc_automaton l []) column (pos 0, 0)
