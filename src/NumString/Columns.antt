-- ===== src/NumString/Columns.antt =====
-- The column table of src/dulib/check_num_string.c, as the kinds of characters.
use xmltp.Prelude.{
  ℕ, zero, suc, ◌+◌, ◌<◌, ◌≡◌, ◌≢◌, refl, ap, ◌∙◌, Bool, true, false, some, List, [], ◌∷◌, arith,
  ◌==◌, if◌then◌else◌, Bool-cases, eq_cases, inl, inr, get_elem?,
}
use xmltp.NumString.{float_string_ascii_column}
use xmltp.NumString.Spec.{is_blank, is_digit, is_sign, is_dot}

abbrev column_of : ℕ → ℕ
column_of c =
    if c == 0
    then 5
    else if is_blank c
    then 0
    else if is_digit c
    then 1
    else if c == b'+'
    then 2
    else if c == b'-'
    then 3
    else if is_dot c
    then 4
    else 6

abbrev tabulate : (ℕ → ℕ) → ℕ → ℕ → List ℕ
tabulate f from zero = []
tabulate f from (suc n) = f from ∷ tabulate f (suc from) n

get_elem?-tabulate :
    (f : ℕ → ℕ) (from n i : ℕ) → i < n → get_elem? (tabulate f from n) i ≡ some (f (from + i))
get_elem?-tabulate f from zero i l = absurd (omega arith)
get_elem?-tabulate f from (suc n) zero l = ap (λ k. some (f k)) (omega arith)
get_elem?-tabulate f from (suc n) (suc i) l =
    get_elem?-tabulate f (suc from) n i (omega arith) ∙ ap (λ k. some (f k)) (omega arith)

zero_add : (n : ℕ) → 0 + n ≡ n
zero_add n = omega arith

pub column-table : (c : ℕ) → c < 128 → get_elem? float_string_ascii_column c ≡ some (column_of c)
column-table c l =
    get_elem?-tabulate column_of 0 128 c l ∙ ap (λ k. some (column_of k)) (zero_add c)

-- The column of an ASCII character, and the answers of the tests on it.
pub record Facts (c column : ℕ) (blank digit sign dot : Bool) : Type 0 where
  pub column_is : column_of c ≡ column
  pub is_blank_is : is_blank c ≡ blank
  pub is_digit_is : is_digit c ≡ digit
  pub is_sign_is : is_sign c ≡ sign
  pub is_dot_is : is_dot c ≡ dot

-- The kinds of characters that the automata tell apart, NUL aside.
pub data Kind (c : ℕ) : Type 0 where
  a_blank : Facts c 0 true false false false → Kind c
  a_digit : Facts c 1 false true false false → Kind c
  a_plus : Facts c 2 false false true false → Kind c
  a_minus : Facts c 3 false false true false → Kind c
  a_dot : Facts c 4 false false false true → Kind c
  another : Facts c 6 false false false false → Kind c

fact :
    (c k : ℕ) (b d s p : Bool)
    → column_of c ≡ k
    → is_blank c ≡ b
    → is_digit c ≡ d
    → is_sign c ≡ s
    → is_dot c ≡ p
    → Facts c k b d s p
fact c k b d s p ck cb cd cs cp = record {
  column_is = ck;
  is_blank_is = cb;
  is_digit_is = cd;
  is_sign_is = cs;
  is_dot_is = cp;
}

kind_blank-Facts : (c : ℕ) → c ≡ b' ' → Facts c 0 true false false false
kind_blank-Facts c e = rw e (fact b' ' 0 true false false false refl refl refl refl refl)

kind_plus-Facts : (c : ℕ) → c ≡ b'+' → Facts c 2 false false true false
kind_plus-Facts c e = rw e (fact b'+' 2 false false true false refl refl refl refl refl)

kind_minus-Facts : (c : ℕ) → c ≡ b'-' → Facts c 3 false false true false
kind_minus-Facts c e = rw e (fact b'-' 3 false false true false refl refl refl refl refl)

kind_dot-Facts : (c : ℕ) → c ≡ b'.' → Facts c 4 false false false true
kind_dot-Facts c e = rw e (fact b'.' 4 false false false true refl refl refl refl refl)

kind_digit-Facts : (c : ℕ) → is_digit c ≡ true → Facts c 1 false true false false
kind_digit-Facts c d =
    fact c 1 false true false false (ground arith) (ground arith) d (ground arith) (ground arith)

kind_other-Facts :
    (c : ℕ)
    → c ≢ 0
    → c ≢ b' '
    → is_digit c ≡ false
    → c ≢ b'+'
    → c ≢ b'-'
    → c ≢ b'.'
    → Facts c 6 false false false false
kind_other-Facts c z b d p m t =
    fact c 6 false false false false (ground arith) (ground arith) d (ground arith) (ground arith)

pub kind_of : (c : ℕ) → c ≢ 0 → Kind c
kind_of c z = elim (eq_cases c b' ') [
  | inl e ↦ a_blank (kind_blank-Facts c e)
  | inr b ↦ elim (eq_cases c b'+') [
    | inl e ↦ a_plus (kind_plus-Facts c e)
    | inr p ↦ elim (eq_cases c b'-') [
      | inl e ↦ a_minus (kind_minus-Facts c e)
      | inr m ↦ elim (eq_cases c b'.') [
        | inl e ↦ a_dot (kind_dot-Facts c e)
        | inr t ↦ elim (Bool-cases (is_digit c)) [
          | inl d ↦ a_digit (kind_digit-Facts c d)
          | inr d ↦ another (kind_other-Facts c z b d p m t)
        ]
      ]
    ]
  ]
]
