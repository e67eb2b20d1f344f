-- ===== src/Encoder/Spec.antt =====
-- The escaping as a map from bytes to their escapes, independent of the buffers of the source.
use xmltp.Prelude.{
  ℕ, ◌*◌, ◌≤◌, ◌≡◌, refl, Bool, false, ◌||◌, [], ◌∷◌, ◌++◌, arith, ◌==◌, if◌then◌else◌, length,
  length-append,
}
use xmltp.Bytes.{Bytes, codes}

abbrev pub needs_escape : ℕ → Bool
needs_escape c = c == b'>' || c == b'<' || c == b'&' || c == b'\'' || c == b'"'

abbrev pub escape_byte : ℕ → Bytes
escape_byte c =
    if c == b'>'
    then codes "&gt;"
    else if c == b'<'
    then codes "&lt;"
    else if c == b'&'
    then codes "&amp;"
    else if c == b'\''
    then codes "&apos;"
    else if c == b'"'
    then codes "&quot;"
    else c ∷ []

abbrev pub escape : Bytes → Bytes
escape [] = []
escape (c ∷ s) = escape_byte c ++ escape s

abbrev pub any_escape : Bytes → Bool
any_escape [] = false
any_escape (c ∷ s) = needs_escape c || any_escape s

pub length-escape_byte : (c : ℕ) → length (escape_byte c) ≤ 6
length-escape_byte c = ground arith

pub length-escape : (s : Bytes) → length (escape s) ≤ 6 * length s
length-escape [] = omega arith
length-escape (c ∷ s) =
    omega (arith, length-escape s, length-escape_byte c, length-append (escape_byte c) (escape s))

pub escape_plain : (s : Bytes) → any_escape s ≡ false → escape s ≡ s
escape_plain [] h = refl
escape_plain (c ∷ s) h = ground (arith, escape_plain s)
