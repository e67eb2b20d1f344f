-- ===== src/Encoder.antt =====
-- src/xmltp/xmltp_encoder.c: the escaping of the markup delimiters in values.
-- A string is the byte list of its array, NUL included. `cnv_buf` is the list of the bytes that
-- were written to it, from its start.
pub mod Spec
pub mod Encode
pub mod Decode
mod Tests
use xmltp.Prelude.{
  ℕ, zero, suc, ◌+◌, ◌-◌, Bool, true, false, ◌||◌, Option, none, some, List, [], ◌∷◌, ◌++◌, ◌==◌,
  leb, if◌then◌else◌, length, take, drop, set,
}
use xmltp.Bytes.{Bytes, codes, c_string, strlen, strchr, strncmp_eq}

abbrev pub escape_1 : Bytes
escape_1 = codes "&gt;"

abbrev pub escape_2 : Bytes
escape_2 = codes "&lt;"

abbrev pub escape_3 : Bytes
escape_3 = codes "&amp;"

abbrev pub escape_4 : Bytes
escape_4 = codes "&apos;"

abbrev pub escape_5 : Bytes
escape_5 = codes "&quot;"

abbrev pub max_string_size : ℕ
max_string_size = 255

-- The test of the `if` in the scan.
abbrev pub is_delimiter : ℕ → Bool
is_delimiter c = c == b'>' || c == b'<' || c == b'&' || c == b'\'' || c == b'"'

-- The `switch`; `none` is its default branch, which returns 2.
abbrev pub escape_of : ℕ → Option Bytes
escape_of c =
    if c == b'>'
    then some escape_1
    else if c == b'<'
    then some escape_2
    else if c == b'&'
    then some escape_3
    else if c == b'\''
    then some escape_4
    else if c == b'"'
    then some escape_5
    else none

-- The bytes of `str` from `from` up to `to`, which `memcpy` moves.
abbrev pub slice : Bytes → ℕ → ℕ → Bytes
slice str from to = take (to - from) (drop from str)

-- The `for` loop at `to`; the first argument counts the rounds left, `slen - to`. The result is
-- `from`, `to` and what stands in `cnv_buf`, or `none` at `return 2`.
pub scan : ℕ → Bytes → ℕ → ℕ → Bytes → Option (ℕ × ℕ × Bytes)
scan zero str from to out = some (from, to, out)
scan (suc left) str from to out = elim (drop to str) [
  | [] ↦ scan left str from (suc to) out
  | c ∷ _ ↦ elim (is_delimiter c) [
    | false ↦ scan left str from (suc to) out
    | true ↦ elim (escape_of c) [
      | none ↦ none
      | some e ↦ scan left str (suc to) (suc to) ((out ++ slice str from to) ++ e)
    ]
  ]
]

-- What follows the loop: the rest of the string goes with its NUL, and one more NUL is written.
pub finish_encode : Bytes → Option (ℕ × ℕ × Bytes) → ℕ × Bytes
finish_encode str none = (2, [])
finish_encode str (some (from, to, out)) =
    if from == 0
    then (0, out)
    else (1, (if leb from to then out ++ slice str from (to + 1) else out) ++ 0 ∷ [])

-- The `if` on MAX_STRING_SIZE.
pub cut_at_max : Bytes → Bytes
cut_at_max str = if strlen str == max_string_size then set str max_string_size 0 else str

-- `xmltp_encode`: the return code and the bytes written to `cnv_buf`.
pub encode : Bytes → ℕ × Bytes
encode str =
    if strlen str == 0
    then (0, [])
    else finish_encode (cut_at_max str) (scan (strlen str) (cut_at_max str) 0 0 [])

-- The `if` chain on the text at `&`: the byte put out, and how far the input moves.
pub restore : Bytes → ℕ × ℕ
restore p_search =
    if strncmp_eq p_search escape_1 4
    then (b'>', 4)
    else if strncmp_eq p_search escape_2 4
    then (b'<', 4)
    else if strncmp_eq p_search escape_3 5
    then (b'&', 5)
    else if strncmp_eq p_search escape_4 6
    then (b'\'', 6)
    else if strncmp_eq p_search escape_5 6
    then (b'"', 6)
    else (b'&', 1)

-- The text at `p_in`, what stands before `p_out`, and `p_in - str`.
pub record Cursor : Type 0 where
  pub p_in : Bytes
  pub out : Bytes
  pub moved : ℕ

-- One round of the `while`, at the offset that `strchr` found.
pub replace : Cursor → ℕ → Cursor
replace p sz =
    let p_search = drop sz p.p_in in
    let (c, n) = restore p_search in
    record {
      p_in = drop n p_search;
      out = (p.out ++ take sz p.p_in) ++ c ∷ [];
      moved = p.moved + sz + n;
    }

-- The `while` loop, with fuel; `none` means that the fuel ran out.
pub unescape_loop : ℕ → Cursor → Option Cursor
unescape_loop zero p = none
unescape_loop (suc fuel) p = elim (strchr p.p_in b'&') [
  | none ↦ some p
  | some sz ↦ unescape_loop fuel (replace p sz)
]

-- What follows the loop; the pointer test is on `p_in - str`.
pub finish_decode : Cursor → ℕ × Bytes
finish_decode p = if p.moved == 0 then (0, p.out) else (1, (p.out ++ c_string p.p_in) ++ 0 ∷ [])

-- `xmltp_decode`, with one more round than the string has bytes.
pub decode : Bytes → Option (ℕ × Bytes)
decode str = elim (unescape_loop (suc (strlen str)) (record { p_in = str; out = []; moved = 0 })) [
  | none ↦ none
  | some p ↦ some (finish_decode p)
]
