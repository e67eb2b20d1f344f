-- ===== src/NumString/Accepts.antt =====
-- The automata of src/dulib/check_num_string.c against the description in Spec.
use xmltp.Prelude.{
  ℕ, ◌<◌, ◌≡◌, ◌≢◌, refl, Bool, Option, List, [], ◌∷◌, ◌++◌, ℤ, pos, neg, All, get_or,
}
use xmltp.Bytes.{Bytes}
use xmltp.NumString.{
  float_string_ascii_column, float_string_automaton, int_string_automaton, entry, follow,
  check_string, check_float_string, check_int_string,
}
use xmltp.NumString.Spec.{
  all_blank, skip_digits, is_fraction, is_unsigned_float, is_unsigned_int, is_float, is_int,
  verdict,
}
use xmltp.NumString.Columns.{
  Facts, a_blank, a_digit, a_plus, a_minus, a_dot, another, kind_of, column-table,
}

-- Each byte is an ASCII character, and none is NUL.
abbrev pub Ascii : Bytes → Type 0
Ascii = All (λ c. (c < 128) × (c ≢ 0))

-- A run of an automaton from a state, on a string with its NUL.
abbrev run : List (List ℤ) → ℕ → Bytes → Option ℤ
run a q s = check_string float_string_ascii_column a q (s ++ 0 ∷ [])

run-step :
    (a : List (List ℤ)) (q c k : ℕ) (s : Bytes) {b d g p : Bool}
    → c < 128
    → Facts c k b d g p
    → run a q (c ∷ s) ≡ follow (λ i. run a i s) (entry a q k)
unfolding check_string
run-step a q c k s l f = rw (column-table c l, f.column_is) refl

-- The rows of the states behind the number, and in its last digits.
abbrev blanks_row : List ℤ
blanks_row = pos 5 ∷ neg 1 ∷ neg 1 ∷ neg 1 ∷ neg 1 ∷ neg 2 ∷ neg 1 ∷ []

abbrev digits_row : ℕ → List ℤ
digits_row q = pos 5 ∷ pos q ∷ neg 1 ∷ neg 1 ∷ neg 1 ∷ neg 2 ∷ neg 1 ∷ []

module _ (a : List (List ℤ)) (blanks_at : get_or a 5 [] ≡ blanks_row) where
  run-blanks : (s : Bytes) → Ascii s → run a 5 s ≡ verdict (all_blank s)
  unfolding check_string
  run-blanks [] h = rw blanks_at refl
  run-blanks (c ∷ s) ((l, z), h) = elim (kind_of c z) [
    | a_blank f ↦ rw (run-step a 5 c 0 s l f, blanks_at, f.is_blank_is) (run-blanks s h)
    | a_digit f ↦ rw (run-step a 5 c 1 s l f, blanks_at, f.is_blank_is) refl
    | a_plus f ↦ rw (run-step a 5 c 2 s l f, blanks_at, f.is_blank_is) refl
    | a_minus f ↦ rw (run-step a 5 c 3 s l f, blanks_at, f.is_blank_is) refl
    | a_dot f ↦ rw (run-step a 5 c 4 s l f, blanks_at, f.is_blank_is) refl
    | another f ↦ rw (run-step a 5 c 6 s l f, blanks_at, f.is_blank_is) refl
  ]

  module _ (q' : ℕ) (digits_at : get_or a q' [] ≡ digits_row q') where
    run-digits :
        (q : ℕ) (s : Bytes)
        → get_or a q [] ≡ digits_row q'
        → Ascii s
        → run a q s ≡ verdict (all_blank (skip_digits s))
    unfolding check_string
    run-digits q [] r h = rw r refl
    run-digits q (c ∷ s) r ((l, z), h) = elim (kind_of c z) [
      | a_blank f ↦ rw (run-step a q c 0 s l f, r, f.is_digit_is, f.is_blank_is) (run-blanks s h)
      | a_digit f ↦ rw (run-step a q c 1 s l f, r, f.is_digit_is) (run-digits q' s digits_at h)
      | a_plus f ↦ rw (run-step a q c 2 s l f, r, f.is_digit_is, f.is_blank_is) refl
      | a_minus f ↦ rw (run-step a q c 3 s l f, r, f.is_digit_is, f.is_blank_is) refl
      | a_dot f ↦ rw (run-step a q c 4 s l f, r, f.is_digit_is, f.is_blank_is) refl
      | another f ↦ rw (run-step a q c 6 s l f, r, f.is_digit_is, f.is_blank_is) refl
    ]

float_blanks : (s : Bytes) → Ascii s → run float_string_automaton 5 s ≡ verdict (all_blank s)
float_blanks = run-blanks float_string_automaton refl

float_decimals :
    (s : Bytes) → Ascii s → run float_string_automaton 2 s ≡ verdict (all_blank (skip_digits s))
float_decimals s h = run-digits float_string_automaton refl 3 refl 2 s refl h

float_whole :
    (s : Bytes) → Ascii s → run float_string_automaton 4 s ≡ verdict (is_fraction (skip_digits s))
unfolding check_string
float_whole [] h = refl
float_whole (c ∷ s) ((l, z), h) = elim (kind_of c z) [
  | a_blank f ↦
      rw (run-step float_string_automaton 4 c 0 s l f, f.is_digit_is, f.is_dot_is, f.is_blank_is)
        (float_blanks s h)
  | a_digit f ↦ rw (run-step float_string_automaton 4 c 1 s l f, f.is_digit_is) (float_whole s h)
  | a_plus f ↦
      rw (run-step float_string_automaton 4 c 2 s l f, f.is_digit_is, f.is_dot_is, f.is_blank_is)
        refl
  | a_minus f ↦
      rw (run-step float_string_automaton 4 c 3 s l f, f.is_digit_is, f.is_dot_is, f.is_blank_is)
        refl
  | a_dot f ↦
      rw (run-step float_string_automaton 4 c 4 s l f, f.is_digit_is, f.is_dot_is)
        (float_decimals s h)
  | another f ↦
      rw (run-step float_string_automaton 4 c 6 s l f, f.is_digit_is, f.is_dot_is, f.is_blank_is)
        refl
]

float_unsigned :
    (s : Bytes) → Ascii s → run float_string_automaton 1 s ≡ verdict (is_unsigned_float s)
unfolding check_string
float_unsigned [] h = refl
float_unsigned (c ∷ s) ((l, z), h) = elim (kind_of c z) [
  | a_blank f ↦ rw (run-step float_string_automaton 1 c 0 s l f, f.is_digit_is, f.is_dot_is) refl
  | a_digit f ↦ rw (run-step float_string_automaton 1 c 1 s l f, f.is_digit_is) (float_whole s h)
  | a_plus f ↦ rw (run-step float_string_automaton 1 c 2 s l f, f.is_digit_is, f.is_dot_is) refl
  | a_minus f ↦ rw (run-step float_string_automaton 1 c 3 s l f, f.is_digit_is, f.is_dot_is) refl
  | a_dot f ↦
      rw (run-step float_string_automaton 1 c 4 s l f, f.is_digit_is, f.is_dot_is)
        (float_decimals s h)
  | another f ↦ rw (run-step float_string_automaton 1 c 6 s l f, f.is_digit_is, f.is_dot_is) refl
]

float_text : (s : Bytes) → Ascii s → run float_string_automaton 0 s ≡ verdict (is_float s)
unfolding check_string
float_text [] h = refl
float_text (c ∷ s) ((l, z), h) = elim (kind_of c z) [
  | a_blank f ↦ rw (run-step float_string_automaton 0 c 0 s l f, f.is_blank_is) (float_text s h)
  | a_digit f ↦
      rw (run-step float_string_automaton 0 c 1 s l f, f.is_blank_is, f.is_sign_is, f.is_digit_is)
        (float_whole s h)
  | a_plus f ↦
      rw (run-step float_string_automaton 0 c 2 s l f, f.is_blank_is, f.is_sign_is)
        (float_unsigned s h)
  | a_minus f ↦
      rw (run-step float_string_automaton 0 c 3 s l f, f.is_blank_is, f.is_sign_is)
        (float_unsigned s h)
  | a_dot f ↦
      rw
        (
          run-step float_string_automaton 0 c 4 s l f,
          f.is_blank_is,
          f.is_sign_is,
          f.is_digit_is,
          f.is_dot_is,
        )
        (float_decimals s h)
  | another f ↦
      rw
        (
          run-step float_string_automaton 0 c 6 s l f,
          f.is_blank_is,
          f.is_sign_is,
          f.is_digit_is,
          f.is_dot_is,
        )
        refl
]

int_whole :
    (s : Bytes) → Ascii s → run int_string_automaton 4 s ≡ verdict (all_blank (skip_digits s))
int_whole s h = run-digits int_string_automaton refl 4 refl 4 s refl h

int_unsigned : (s : Bytes) → Ascii s → run int_string_automaton 1 s ≡ verdict (is_unsigned_int s)
unfolding check_string
int_unsigned [] h = refl
int_unsigned (c ∷ s) ((l, z), h) = elim (kind_of c z) [
  | a_blank f ↦ rw (run-step int_string_automaton 1 c 0 s l f, f.is_digit_is) refl
  | a_digit f ↦ rw (run-step int_string_automaton 1 c 1 s l f, f.is_digit_is) (int_whole s h)
  | a_plus f ↦ rw (run-step int_string_automaton 1 c 2 s l f, f.is_digit_is) refl
  | a_minus f ↦ rw (run-step int_string_automaton 1 c 3 s l f, f.is_digit_is) refl
  | a_dot f ↦ rw (run-step int_string_automaton 1 c 4 s l f, f.is_digit_is) refl
  | another f ↦ rw (run-step int_string_automaton 1 c 6 s l f, f.is_digit_is) refl
]

int_text : (s : Bytes) → Ascii s → run int_string_automaton 0 s ≡ verdict (is_int s)
unfolding check_string
int_text [] h = refl
int_text (c ∷ s) ((l, z), h) = elim (kind_of c z) [
  | a_blank f ↦ rw (run-step int_string_automaton 0 c 0 s l f, f.is_blank_is) (int_text s h)
  | a_digit f ↦
      rw (run-step int_string_automaton 0 c 1 s l f, f.is_blank_is, f.is_sign_is, f.is_digit_is)
        (int_whole s h)
  | a_plus f ↦
      rw (run-step int_string_automaton 0 c 2 s l f, f.is_blank_is, f.is_sign_is) (int_unsigned s h)
  | a_minus f ↦
      rw (run-step int_string_automaton 0 c 3 s l f, f.is_blank_is, f.is_sign_is) (int_unsigned s h)
  | a_dot f ↦
      rw (run-step int_string_automaton 0 c 4 s l f, f.is_blank_is, f.is_sign_is, f.is_digit_is)
        refl
  | another f ↦
      rw (run-step int_string_automaton 0 c 6 s l f, f.is_blank_is, f.is_sign_is, f.is_digit_is)
        refl
]

-- `cns_check_float_string`, on a string of ASCII characters: it returns, with -2 for blanks, a sign
-- or none, then digits with a point among, before or behind them or with none, or a point without
-- digits, and blanks, and with -1 for any other string.
pub check_float_string-verdict :
    (s : Bytes) → Ascii s → check_float_string (s ++ 0 ∷ []) ≡ verdict (is_float s)
unfolding check_float_string
check_float_string-verdict = float_text

-- `cns_check_int_string`, on a string of ASCII characters: it returns, with -2 for blanks, a sign
-- or none, at least one digit, and blanks, and with -1 for any other string.
pub check_int_string-verdict :
    (s : Bytes) → Ascii s → check_int_string (s ++ 0 ∷ []) ≡ verdict (is_int s)
unfolding check_int_string
check_int_string-verdict = int_text
