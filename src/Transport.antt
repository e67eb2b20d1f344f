-- ===== src/Transport.antt =====
-- A value's way from src/xmltp/xmltp_encoder.c through an element to src/xmltp/xmltp_lex.c and
-- back through the decoder.
pub mod Stream
pub mod Delivery
mod Tests
use xmltp.Prelude.{
  ℕ, suc, ◌+◌, ◌<◌, ◌≡◌, ◌≢◌, ◌⊎◌, refl, sym, ap, ◌∙◌, Bool, true, false, not, ◌&&◌, inl, inr,
  Option, some, List, [], ◌∷◌, ◌++◌, append_assoc, arith, ℤ, pos, ◌==◌, if◌then◌else◌, Bool-cases,
  length, take-all, All, All-append,
}
use xmltp.Bytes.{Bytes, c_string, NoNul, c_string-NoNul, c_string_whole}
use xmltp.Encoder.{encode, decode}
use xmltp.Encoder.Spec.{needs_escape, escape_byte, escape, any_escape, escape_plain}
use xmltp.Encoder.Encode.{encode_lem}
use xmltp.Encoder.Decode.{chosen, decode_escaped, NoNul-escape}
use xmltp.Tags.{Element, end_tag_name}
use xmltp.Keywords.Search.{kind_of}
use xmltp.Ctx.{Context, max_one_string, ValueBuffer, buffer_for, read_buffer, copy_string}
use xmltp.Ctx.Input.{IsValid, pending}
use xmltp.Lexer.{SemanticValue, Lexed, yylex}
use xmltp.Lexer.Loops.{NoDelimiter}
use xmltp.Lexer.Element.{element_bytes, LexesElement, yylex-LexesElement, yylex_value}
use xmltp.Lexer.Value.{GetsValue}

-- The last byte, or the one before a text that is empty.
abbrev pub last_byte : ℕ → Bytes → ℕ
last_byte prev [] = prev
last_byte prev (b ∷ text) = last_byte b text

NoDelimiter-plain :
    (prev : ℕ) (text : Bytes)
    → All (λ b. b ≢ b'<') text
    → last_byte prev text ≢ b'\\'
    → NoDelimiter prev text
NoDelimiter-plain prev [] a h = h
NoDelimiter-plain prev (b ∷ text) a h = (ground (arith, a.0), NoDelimiter-plain b text a.1 h)

last_byte-append :
    (prev : ℕ) (xs ys : Bytes) → last_byte prev (xs ++ ys) ≡ last_byte (last_byte prev xs) ys
last_byte-append prev [] ys = refl
last_byte-append prev (x ∷ xs) ys = last_byte-append x xs ys

last_byte-escape_byte :
    (prev c : ℕ) → (last_byte prev (escape_byte c) ≡ c) ⊎ (last_byte prev (escape_byte c) ≢ b'\\')
last_byte-escape_byte prev c = ground arith

no_lt-escape_byte : (c : ℕ) → All (λ b. b ≢ b'<') (escape_byte c)
no_lt-escape_byte c = ground arith

no_lt-escape : (s : Bytes) → All (λ b. b ≢ b'<') (escape s)
no_lt-escape [] = tt
no_lt-escape (c ∷ s) =
    All-append (λ b. b ≢ b'<') (escape_byte c) (escape s) (no_lt-escape_byte c) (no_lt-escape s)

last_byte-escape :
    (prev prev' : ℕ) (s : Bytes)
    → last_byte prev' s ≢ b'\\'
    → (prev ≡ prev') ⊎ (prev ≢ b'\\')
    → last_byte prev (escape s) ≢ b'\\'
last_byte-escape prev prev' [] h (inl e) = rw e h
last_byte-escape prev prev' [] h (inr n) = n
last_byte-escape prev prev' (c ∷ s) h n =
    rw (last_byte-append prev (escape_byte c) (escape s))
      (last_byte-escape (last_byte prev (escape_byte c)) c s h (last_byte-escape_byte prev c))

NoDelimiter-escape : (s : Bytes) → last_byte 0 s ≢ b'\\' → NoDelimiter 0 (escape s)
NoDelimiter-escape s h =
    NoDelimiter-plain 0 (escape s) (no_lt-escape s) (last_byte-escape 0 0 s h (inl refl))

-- What the writer puts between the tags: the string that it goes on with after `xmltp_encode`.
abbrev pub written : Bytes → Bytes
written s = c_string (chosen (s ++ 0 ∷ []) (encode (s ++ 0 ∷ [])))

written-escape : (s : Bytes) → NoNul s → written s ≡ escape s
written-escape s z = elim (Bool-cases (any_escape s)) [
  | inl esc ↦ rw (encode_lem s z, esc) (c_string-NoNul (escape s) (0 ∷ []) (NoNul-escape s z))
  | inr plain ↦ rw (encode_lem s z, plain) (c_string-NoNul s [] z ∙ sym (escape_plain s plain))
]

copy_string-written :
    (s : Bytes) → NoNul s → length (escape s) < max_one_string → copy_string (written s) ≡ escape s
copy_string-written s z l =
    rw (written-escape s z, c_string_whole (escape s) (NoNul-escape s z))
      (take-all max_one_string (escape s) (omega arith))

-- A value that the writer encodes and puts between the tags of an element, with no NUL in it, with
-- no backslash at its end, and of less than MAX_ONE_STRING bytes when it is escaped: three calls
-- of `yylex` take the element from the stream, and `xmltp_decode` on the lexer's buffer returns,
-- and gives the callers the value that was written.
pub decode-yylex-encode :
    (fuel : ℕ) (lval : SemanticValue) (c : Context) (e : Element) (b : ValueBuffer)
    (value rest : Bytes)
    → IsValid c
    → c.lexer.b_value_follows ≡ pos 0
    → buffer_for (kind_of e) ≡ some b
    → pending c.input ≡ element_bytes e (written value) rest
    → NoNul value
    → last_byte 0 value ≢ b'\\'
    → length (escape value) < max_one_string
    → length (escape value) + 20 < fuel
    → (l : LexesElement fuel lval c e b (written value) rest) × (r : ℕ × Bytes) × (decode
          (read_buffer l.last.lexer b ++ 0 ∷ [])
        ≡ some r)
      × (c_string (chosen (read_buffer l.last.lexer b ++ 0 ∷ []) r) ≡ value)
decode-yylex-encode fuel lval c e b value rest v idle kind p z end short f =
    let w = written-escape value z in
    let l =
      yylex-LexesElement fuel lval c e b (written value) rest v idle kind p
        (rw w (NoDelimiter-escape value end)) (rw w short) (rw w f) in
    let held : read_buffer l.last.lexer b ≡ escape value =
      l.value_is ∙ copy_string-written value z short in
    let (r, d, t) = decode_escaped value z in (l, r, rw held d, rw held t)

NoDelimiter-backslash :
    (w more : Bytes) (prev : ℕ)
    → All (λ b. b ≢ b'<') w
    → All (λ b. b ≢ b'<') more
    → last_byte b'<' more ≢ b'\\'
    → NoDelimiter prev (w ++ b'\\' ∷ b'<' ∷ more)
NoDelimiter-backslash [] more prev a m h = (refl, (refl, NoDelimiter-plain b'<' more m h))
NoDelimiter-backslash (b ∷ w) more prev a m h =
    (ground (arith, a.0), NoDelimiter-backslash w more b a.1 m h)

-- A value with a backslash at its end is not read back: the `<` of its end tag does not end it.
-- The lexer takes the end tag, its `>`, and all up to the next `<` for a part of the value.
pub yylex_backslash :
    (fuel : ℕ) (lval : SemanticValue) (c : Context) (b : ValueBuffer) (w more rest : Bytes)
    → IsValid c
    → buffer_for c.lexer.b_value_follows ≡ some b
    → pending c.input ≡ (w ++ b'\\' ∷ b'<' ∷ more) ++ b'<' ∷ rest
    → All (λ a. a ≢ b'<') w
    → All (λ a. a ≢ b'<') more
    → last_byte b'<' more ≢ b'\\'
    → length (w ++ b'\\' ∷ b'<' ∷ more) < max_one_string
    → length (w ++ b'\\' ∷ b'<' ∷ more) < fuel
    → GetsValue c b (w ++ b'\\' ∷ b'<' ∷ more) rest (yylex fuel lval (some c))
yylex_backslash fuel lval c b w more rest v kind p a m h l f =
    yylex_value (w ++ b'\\' ∷ b'<' ∷ more) rest fuel lval c b v kind p
      (NoDelimiter-backslash w more 0 a m h) l f
