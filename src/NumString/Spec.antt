-- ===== src/NumString/Spec.antt =====
-- The texts of numbers that the automata of src/dulib/check_num_string.c are meant to take.
use xmltp.Prelude.{
  ℕ, Bool, true, false, ◌&&◌, ◌||◌, [], ◌∷◌, ◌==◌, leb, if◌then◌else◌, ℤ, neg, Option, some,
}
use xmltp.Bytes.{Bytes}

abbrev pub is_blank : ℕ → Bool
is_blank c = c == b' '

abbrev pub is_digit : ℕ → Bool
is_digit c = leb b'0' c && leb c b'9'

abbrev pub is_sign : ℕ → Bool
is_sign c = c == b'+' || c == b'-'

abbrev pub is_dot : ℕ → Bool
is_dot c = c == b'.'

abbrev pub all_blank : Bytes → Bool
all_blank [] = true
all_blank (c ∷ s) = is_blank c && all_blank s

abbrev pub skip_blanks : Bytes → Bytes
skip_blanks [] = []
skip_blanks (c ∷ s) = let rest = skip_blanks s in if is_blank c then rest else c ∷ s

abbrev pub skip_digits : Bytes → Bytes
skip_digits [] = []
skip_digits (c ∷ s) = let rest = skip_digits s in if is_digit c then rest else c ∷ s

abbrev pub skip_sign : Bytes → Bytes
skip_sign [] = []
skip_sign (c ∷ s) = if is_sign c then s else c ∷ s

-- What may follow the digits before the point: a point with digits or none, then blanks.
abbrev pub is_fraction : Bytes → Bool
is_fraction [] = true
is_fraction (c ∷ s) = if is_dot c then all_blank (skip_digits s) else all_blank (c ∷ s)

-- Digits and then a fraction, or a point with digits or none, then blanks.
abbrev pub is_unsigned_float : Bytes → Bool
is_unsigned_float [] = false
is_unsigned_float (c ∷ s) =
    if is_digit c
    then is_fraction (skip_digits s)
    else if is_dot c
    then all_blank (skip_digits s)
    else false

-- At least one digit, then blanks.
abbrev pub is_unsigned_int : Bytes → Bool
is_unsigned_int [] = false
is_unsigned_int (c ∷ s) = if is_digit c then all_blank (skip_digits s) else false

-- Blanks, a sign or none, then the number.
abbrev pub is_float : Bytes → Bool
is_float s = is_unsigned_float (skip_sign (skip_blanks s))

abbrev pub is_int : Bytes → Bool
is_int s = is_unsigned_int (skip_sign (skip_blanks s))

-- The codes that the automata return: -2 for a number, -1 for any other text.
abbrev pub verdict : Bool → Option ℤ
verdict ok = some (if ok then neg 2 else neg 1)
