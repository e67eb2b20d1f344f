-- ===== src/Rpc/Classes.antt =====
-- The columns of src/ct10api/ct10rpc_parse.c as the kinds of characters that its comment names.
use xmltp.Prelude.{
  ℕ, zero, suc, ◌+◌, ◌≤◌, ◌<◌, ◌≡◌, refl, ap, ◌∙◌, Bool, true, false, ◌&&◌, ◌||◌, some, List, [],
  ◌∷◌, arith, ◌==◌, leb, if◌then◌else◌, get_elem?, pos,
}
use xmltp.Rpc.Table.{ascii_value_column_in_auto, automaton_entry}
use xmltp.Rpc.Steps.{In, Stays}

pub data Class : Type 0 where
  letter digit sign dot at blank equal quote comma nul other opening closing : Class

abbrev pub column : Class → ℕ
column letter = 0
column digit = 1
column sign = 2
column dot = 3
column at = 4
column blank = 5
column equal = 6
column quote = 7
column comma = 8
column nul = 9
column other = 10
column opening = 11
column closing = 12

abbrev pub is_between : ℕ → ℕ → ℕ → Bool
is_between a b c = leb a c && leb c b

-- `_` counts as a letter.
unfoldable pub class_of : ℕ → Class
class_of c =
    if is_between b'A' b'Z' c || is_between b'a' b'z' c || c == b'_'
    then letter
    else if is_between b'0' b'9' c
    then digit
    else if c == b'+' || c == b'-'
    then sign
    else if c == b'.'
    then dot
    else if c == b'@'
    then at
    else if c == b' ' || c == b'\t' || c == b'\n' || c == b'\r'
    then blank
    else if c == b'='
    then equal
    else if c == b'"'
    then quote
    else if c == b','
    then comma
    else if c == 0
    then nul
    else if c == b'{'
    then opening
    else if c == b'}'
    then closing
    else other

tabulate : ℕ → ℕ → List ℕ
tabulate from zero = []
tabulate from (suc n) = column (class_of from) ∷ tabulate (suc from) n

get_elem?-tabulate :
    (from n i : ℕ) → i < n → get_elem? (tabulate from n) i ≡ some (column (class_of (from + i)))
unfolding tabulate
get_elem?-tabulate from zero i l = absurd (omega arith)
get_elem?-tabulate from (suc n) zero l = ap (λ k. some (column (class_of k))) (omega arith)
get_elem?-tabulate from (suc n) (suc i) l =
    get_elem?-tabulate (suc from) n i (omega arith)
    ∙ ap (λ k. some (column (class_of k))) (omega arith)

table-tabulate : ascii_value_column_in_auto ≡ tabulate 0 256
unfolding tabulate class_of
table-tabulate = refl

-- The table has the column of every byte.
pub class_of-In : (c : ℕ) → c < 256 → In (column (class_of c)) c
class_of-In c l =
    ap (λ (t : List ℕ). get_elem? t c) table-tabulate
    ∙ get_elem?-tabulate 0 256 c l
    ∙ ap (λ k. some (column (class_of k))) (omega arith)

pub column-le : (k : Class) → column k ≤ 13
column-le letter = omega arith
column-le digit = omega arith
column-le sign = omega arith
column-le dot = omega arith
column-le at = omega arith
column-le blank = omega arith
column-le equal = omega arith
column-le quote = omega arith
column-le comma = omega arith
column-le nul = omega arith
column-le other = omega arith
column-le opening = omega arith
column-le closing = omega arith

-- The characters of the name of a procedure.
abbrev pub is_name : Class → Bool
is_name letter = true
is_name digit = true
is_name dot = true
is_name _ = false

-- The characters of the name of a parameter.
abbrev pub is_label : Class → Bool
is_label letter = true
is_label digit = true
is_label _ = false

-- The characters of a value without quotes, behind the first one.
abbrev pub is_plain : Class → Bool
is_plain blank = false
is_plain comma = false
is_plain nul = false
is_plain _ = true

-- Its first character; behind `=` it may be of another kind.
abbrev pub is_first : Bool → Class → Bool
is_first _ letter = true
is_first _ digit = true
is_first _ sign = true
is_first _ dot = true
is_first labelled other = labelled
is_first labelled closing = labelled
is_first _ _ = false

abbrev pub is_quoted : Class → Bool
is_quoted quote = false
is_quoted nul = false
is_quoted _ = true

abbrev pub is_braced : Class → Bool
is_braced closing = false
is_braced nul = false
is_braced _ = true

abbrev pub Is : (Class → Bool) → ℕ → Type 0
Is p c = (c < 256) × (p (class_of c) ≡ true)

abbrev pub Byte : Class → ℕ → Type 0
Byte k c = (c < 256) × (class_of c ≡ k)

module _ (l f : ℕ) (p : Class → Bool)
    (row : (k : Class) → p k ≡ true → automaton_entry l (column k) ≡ (pos l, f)) where
  pub Is-Stays : (c : ℕ) → Is p c → Stays l f c
  Is-Stays c (small, h) =
      (column (class_of c), class_of-In c small, column-le (class_of c), row (class_of c) h)

pub name_row : (k : Class) → is_name k ≡ true → automaton_entry 1 (column k) ≡ (pos 1, 100)
name_row letter h = refl
name_row digit h = refl
name_row dot h = refl
name_row _ h = cc

pub label_row : (k : Class) → is_label k ≡ true → automaton_entry 5 (column k) ≡ (pos 5, 102)
label_row letter h = refl
label_row digit h = refl
label_row _ h = cc

pub plain_row : (k : Class) → is_plain k ≡ true → automaton_entry 8 (column k) ≡ (pos 8, 104)
plain_row blank h = cc
plain_row comma h = cc
plain_row nul h = cc
plain_row _ h = refl

pub first_row : (k : Class) → is_first false k ≡ true → automaton_entry 3 (column k) ≡ (pos 8, 103)
first_row letter h = refl
first_row digit h = refl
first_row sign h = refl
first_row dot h = refl
first_row _ h = cc

pub labelled_row :
    (k : Class) → is_first true k ≡ true → automaton_entry 7 (column k) ≡ (pos 8, 103)
labelled_row letter h = refl
labelled_row digit h = refl
labelled_row sign h = refl
labelled_row dot h = refl
labelled_row other h = refl
labelled_row closing h = refl
labelled_row _ h = cc

pub quoted_row : (k : Class) → is_quoted k ≡ true → automaton_entry 9 (column k) ≡ (pos 9, 107)
quoted_row quote h = cc
quoted_row nul h = cc
quoted_row _ h = refl

pub braced_row : (k : Class) → is_braced k ≡ true → automaton_entry 13 (column k) ≡ (pos 13, 107)
braced_row closing h = cc
braced_row nul h = cc
braced_row _ h = refl
