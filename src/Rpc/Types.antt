-- ===== src/Rpc/Types.antt =====
-- The arrays that `ct10strncpy` fills, and the data types that `ct10rpc_process_1_full_parm` finds.
use xmltp.Prelude.{
  ℕ, zero, suc, ◌-◌, ◌<◌, ◌≡◌, refl, sym, ap, ◌∙◌, Bool, true, false, Bool-cases, inl, inr, Option,
  some, [], ◌∷◌, ◌++◌, arith, if◌then◌else◌, length, set, take, replicate, pos, neg,
}
use xmltp.Bytes.{Bytes, codes, strcmp_eq}
use xmltp.NumString.Spec.{is_int, is_float, verdict}
use xmltp.NumString.Accepts.{Ascii, check_int_string-verdict, check_float_string-verdict}
use xmltp.Rpc.State.{
  Datatype, cs_int_type, cs_float_type, cs_char_type, Parm, new_parm, ct10strncpy,
}
use xmltp.Rpc.Parm.{number_type, int_or, float_or_char, with_type, check_null, find_type}
use xmltp.Rpc.Spec.{Quoting, plain, quoted, braced}
use xmltp.Rpc.Expected.{plain_type, type_of, field, quote_number}

-- A text and NULs behind it.
abbrev pad : Bytes → ℕ → Bytes
pad t n = t ++ replicate (n - length t) 0

pad-cons : (c : ℕ) (t : Bytes) (n : ℕ) → pad (c ∷ t) (suc n) ≡ c ∷ pad t n
pad-cons c t n = ap (λ k. c ∷ (t ++ replicate k 0)) (omega arith)

set-replicate : (n i : ℕ) → set {A = ℕ} (replicate n 0) i 0 ≡ replicate n 0
set-replicate zero i = refl
set-replicate (suc n) zero = refl
set-replicate (suc n) (suc i) = ap (◌∷◌ 0) (set-replicate n i)

set-pad :
    (src : Bytes) (len : ℕ)
    → set (pad (take (suc len) src) (suc len)) len 0 ≡ pad (take len src) (suc len)
set-pad [] zero = refl
set-pad [] (suc len) = set-replicate (suc (suc len) - 0) (suc len)
set-pad (c ∷ src) zero = refl
set-pad (c ∷ src) (suc len) =
    ap (λ t. set t (suc len) 0) (pad-cons c (take (suc len) src) (suc len))
    ∙ ap (◌∷◌ c) (set-pad src len)
    ∙ sym (pad-cons c (take len src) (suc len))

pub ct10strncpy-field : (src : Bytes) (n : ℕ) → 0 < n → ct10strncpy src n ≡ some (field src n)
ct10strncpy-field src zero h = absurd (omega arith)
ct10strncpy-field src (suc len) h =
    ap some (set-pad src len ∙ ap (λ k. pad (take k src) (suc len)) (omega arith))

kind_by_verdict :
    (i f : Bool)
    → int_or (float_or_char (verdict f)) (verdict i)
      ≡ some (if i then cs_int_type else if f then cs_float_type else cs_char_type)
kind_by_verdict true f = refl
kind_by_verdict false true = refl
kind_by_verdict false false = refl

-- The type of a value without quotes is the integer's where it is the text of an integer, the
-- float's where it is the text of another number, and else that of a string of characters; for a
-- value of ASCII characters.
pub number_type-kinds :
    (val : Bytes)
    → Ascii val
    → number_type val
      ≡ some
          (if is_int val then cs_int_type else if is_float val then cs_float_type else cs_char_type)
number_type-kinds val h =
    rw (check_int_string-verdict val h, check_float_string-verdict val h)
      (kind_by_verdict (is_int val) (is_float val))

-- What a parameter has once its type is known.
abbrev pub typed : Bool × Datatype → Parm
typed (null, t) = record new_parm { null_ind = if null then neg 1 else pos 0; datatype = some t }

number_typed :
    (i f : Bool)
    → Path
        (Option Parm)
        (with_type new_parm
          (some (if i then cs_int_type else if f then cs_float_type else cs_char_type)))
        (some (
          typed (
            if i
            then (false, cs_int_type)
            else if f
            then (false, cs_float_type)
            else (false, cs_char_type))))
number_typed true f = refl
number_typed false true = refl
number_typed false false = refl

find_type-plain :
    (val : Bytes)
    → Ascii val
    → find_type val 0 (check_null val 0 new_parm) ≡ some (typed (plain_type val))
find_type-plain val h = elim (Bool-cases (strcmp_eq val (codes "NULL"))) [
  | inl e ↦ rw e refl
  | inr e ↦ elim (Bool-cases (strcmp_eq val (codes "NULL_C"))) [
    | inl e1 ↦ rw (e, e1) refl
    | inr e1 ↦ elim (Bool-cases (strcmp_eq val (codes "NULL_I"))) [
      | inl e2 ↦ rw (e, e1, e2) refl
      | inr e2 ↦ elim (Bool-cases (strcmp_eq val (codes "NULL_F"))) [
        | inl e3 ↦ rw (e, e1, e2, e3) refl
        | inr e3 ↦ elim (Bool-cases (strcmp_eq val (codes "NULL_D"))) [
          | inl e4 ↦ rw (e, e1, e2, e3, e4) refl
          | inr e4 ↦
              rw (e, e1, e2, e3, e4, number_type-kinds val h)
                (number_typed (is_int val) (is_float val))
        ]
      ]
    ]
  ]
]

-- The condition on a text that the type is read from.
abbrev pub IsRead : Quoting → Bytes → Type 0
IsRead plain text = Ascii text
IsRead quoted text = Unit {0}
IsRead braced text = Unit {0}

pub find_type-kinds :
    (q : Quoting) (val : Bytes)
    → IsRead q val
    → find_type val (quote_number q) (check_null val (quote_number q) new_parm)
      ≡ some (typed (type_of q val))
find_type-kinds plain val h = find_type-plain val h
find_type-kinds quoted val h = elim (Bool-cases (strcmp_eq val (codes "NULL"))) [
  | inl e ↦ rw e refl
  | inr e ↦ rw e refl
]
find_type-kinds braced val h = elim (Bool-cases (strcmp_eq val (codes "NULL"))) [
  | inl e ↦ rw e refl
  | inr e ↦ rw e refl
]
