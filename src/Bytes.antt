-- ===== src/Bytes.antt =====
-- C character arrays as lists of byte values, and the string functions of the C library that the
-- source calls on them. A string ends at its first NUL, or at the end of the list.
use xmltp.Prelude.{
  ℕ, zero, suc, ◌+◌, ◌≤◌, ◌<◌, ◌≡◌, ◌≢◌, refl, inl, inr, Bool, true, false, Bool-cases,
  Option-cases, drop, Option, none, some, List, [], ◌∷◌, ◌++◌, arith, ◌==◌, if◌then◌else◌, length,
  All, ◌/◌, ◌%◌, ltb, ℤ, pos, negsuc,
}
use Prim.Native.Char.{code}
use Prim.Native.String.{String}

abbrev pub Bytes : Type 0
Bytes = List ℕ

-- The bytes of an ASCII literal.
abbrev pub codes : String → Bytes
codes String.[] = []
codes (String.◌∷◌ c s) = code c ∷ codes s

-- The bytes before the first NUL.
unfoldable pub c_string : Bytes → Bytes
c_string [] = []
c_string (c ∷ cs) = if c == 0 then [] else c ∷ c_string cs

abbrev pub strlen : Bytes → ℕ
strlen s = length (c_string s)

-- The offset of the first `b`, if one stands before the end of the string.
unfoldable pub strchr : Bytes → ℕ → Option ℕ
strchr [] b = none
strchr (c ∷ cs) b =
    if c == b
    then some 0
    else if c == 0
    then none
    else elim (strchr cs b) [ none ↦ none | some i ↦ some (suc i) ]

-- `strncmp(a, b, n) == 0`
unfoldable pub strncmp_eq : Bytes → Bytes → ℕ → Bool
strncmp_eq a b zero = true
strncmp_eq [] [] (suc n) = true
strncmp_eq [] (b ∷ bs) (suc n) = b == 0
strncmp_eq (a ∷ as') [] (suc n) = a == 0
strncmp_eq (a ∷ as') (b ∷ bs) (suc n) =
    if a == b then (if a == 0 then true else strncmp_eq as' bs n) else false

-- No byte is NUL.
abbrev pub NoNul : Bytes → Type 0
NoNul = All (λ c. c ≢ 0)

pub c_string-NoNul : (s rest : Bytes) → NoNul s → c_string (s ++ 0 ∷ rest) ≡ s
unfolding c_string
c_string-NoNul [] rest h = refl
c_string-NoNul (c ∷ s) rest h = ground (arith, c_string-NoNul s rest h.1)

pub c_string_whole : (s : Bytes) → NoNul s → c_string s ≡ s
unfolding c_string
c_string_whole [] h = refl
c_string_whole (c ∷ s) h = ground (arith, c_string_whole s h.1)

pub c_string-cons : (c : ℕ) (s : Bytes) → c ≢ 0 → c_string (c ∷ s) ≡ c ∷ c_string s
unfolding c_string
c_string-cons c s h = ground arith

pub strchr-cons_none : (s : Bytes) (b c : ℕ) → c ≢ b → strchr s b ≡ none → strchr (c ∷ s) b ≡ none
unfolding strchr
strchr-cons_none s b c h e = ground arith

pub strchr-cons_some :
    (s : Bytes) (b c i : ℕ) → c ≢ b → c ≢ 0 → strchr s b ≡ some i → strchr (c ∷ s) b ≡ some (suc i)
unfolding strchr
strchr-cons_some s b c i h z e = ground arith

pub strchr-head : (s : Bytes) (b : ℕ) → strchr (b ∷ s) b ≡ some 0
unfolding strchr
strchr-head s b = ground arith

pub strlen-drop : (n : ℕ) (s : Bytes) → n ≤ strlen s → strlen (drop n s) + n ≡ strlen s
unfolding c_string
strlen-drop zero s h = omega arith
strlen-drop (suc n) [] h = absurd (omega arith)
strlen-drop (suc n) (c ∷ s) h = elim (Bool-cases (c == 0)) [
  | inl e ↦ absurd (ground arith)
  | inr e ↦ ground (arith, strlen-drop n s)
]

pub strncmp_eq-le-strlen :
    (a b : Bytes) (n : ℕ) → NoNul b → n ≤ length b → strncmp_eq a b n ≡ true → n ≤ strlen a
unfolding strncmp_eq c_string
strncmp_eq-le-strlen a b zero z l h = omega arith
strncmp_eq-le-strlen a [] (suc n) z l h = absurd (omega arith)
strncmp_eq-le-strlen [] (b ∷ bs) (suc n) z l h = ground arith
strncmp_eq-le-strlen (a ∷ as') (b ∷ bs) (suc n) z l h =
    ground (arith, strncmp_eq-le-strlen as' bs n z.1)

pub strchr-found :
    (s : Bytes) (b i : ℕ)
    → b ≢ 0
    → strchr s b ≡ some i
    → (drop i s ≡ b ∷ drop (suc i) s) × (i < strlen s)
unfolding strchr c_string
strchr-found [] b i z h = cc
strchr-found (c ∷ s) b zero z h = elim (Option-cases (strchr s b)) [
  | inl e ↦ ground arith
  | inr (j, e) ↦ ground arith
]
strchr-found (c ∷ s) b (suc i) z h = elim (Option-cases (strchr s b)) [
  | inl e ↦ ground arith
  | inr (j, e) ↦ ground (arith, strchr-found s b i z)
]

pub strchr-nul : (s : Bytes) (b : ℕ) → b ≢ 0 → strchr (0 ∷ s) b ≡ none
unfolding strchr
strchr-nul s b h = ground arith

pub c_string-nul : (s : Bytes) → c_string (0 ∷ s) ≡ []
unfolding c_string
c_string-nul s = refl

-- The decimal digits of a number, with one round of fuel for each digit.
pub digits : ℕ → ℕ → Bytes
digits zero n = []
digits (suc fuel) n =
    let higher = digits fuel (n / 10) in
    if ltb n 10 then (b'0' + n) ∷ [] else higher ++ (b'0' + n % 10) ∷ []

-- `sprintf(buff, "%d", n)`; an `int` has ten digits at most.
unfoldable pub decimal : ℤ → Bytes
unfolding digits
decimal (pos n) = digits 20 n
decimal (negsuc n) = b'-' ∷ digits 20 (n + 1)

pub strncmp_eq-append :
    (a a' b : Bytes) (n : ℕ) → n ≤ length a → strncmp_eq (a ++ a') b n ≡ strncmp_eq a b n
unfolding strncmp_eq
strncmp_eq-append a a' b zero h = refl
strncmp_eq-append [] a' b (suc n) h = absurd (omega arith)
strncmp_eq-append (c ∷ a) a' [] (suc n) h = refl
strncmp_eq-append (c ∷ a) a' (b ∷ bs) (suc n) h = ground (arith, strncmp_eq-append a a' bs n)

-- `strcmp(a, b) == 0`
unfoldable pub strcmp_eq : Bytes → Bytes → Bool
strcmp_eq [] [] = true
strcmp_eq [] (b ∷ bs) = b == 0
strcmp_eq (a ∷ as') [] = a == 0
strcmp_eq (a ∷ as') (b ∷ bs) = if a == b then (if a == 0 then true else strcmp_eq as' bs) else false

pub strcmp_eq_refl : (a : Bytes) → strcmp_eq a a ≡ true
unfolding strcmp_eq
strcmp_eq_refl [] = refl
strcmp_eq_refl (c ∷ a) = ground (arith, strcmp_eq_refl a)
