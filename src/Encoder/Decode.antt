-- ===== src/Encoder/Decode.antt =====
-- `xmltp_decode` of src/xmltp/xmltp_encoder.c on any string, and on an escaped one.
use xmltp.Prelude.{
  ℕ, zero, suc, ◌≤◌, ◌<◌, ◌≡◌, ◌≢◌, refl, sym, ap, ◌∙◌, true, false, Option, none, some, ◌⊎◌, inl,
  inr, [], ◌∷◌, ◌++◌, append-nil, append_assoc, arith, ◌==◌, if◌then◌else◌, Bool-cases,
  Option-cases, length, length-append, take, drop, drop-append, All-append,
}
use xmltp.Bytes.{
  Bytes, c_string, strlen, strchr, strncmp_eq, NoNul, c_string-NoNul, c_string-cons,
  strchr-cons_none, strchr-cons_some, strchr-head, strlen-drop, strncmp_eq-le-strlen, strchr-found,
  strchr-nul, c_string-nul,
}
use xmltp.Encoder.{
  escape_1, escape_2, escape_3, escape_4, escape_5, restore, replace, unescape_loop, finish_decode,
  Cursor, encode, decode,
}
use xmltp.Encoder.Spec.{needs_escape, escape_byte, escape, any_escape, escape_plain}
use xmltp.Encoder.Encode.{encode_lem}

-- A cursor as the text that it will end with: what is out, then what is not read.
abbrev text : Option Cursor → Option Bytes
text none = none
text (some p) = some (p.out ++ c_string p.p_in)

abbrev at : Bytes → Bytes → ℕ → Cursor
at i o n = record { p_in = i; out = o; moved = n }

-- What `restore` skips lies in the string, and is not empty.
restore-fits :
    (r : Bytes) → ((restore (b'&' ∷ r)).1 ≤ strlen (b'&' ∷ r)) × (0 < (restore (b'&' ∷ r)).1)
unfolding restore
restore-fits r = ground (
  arith,
  c_string-cons b'&' r (omega arith),
  strncmp_eq-le-strlen (b'&' ∷ r) escape_1 4 (omega arith) (omega arith),
  strncmp_eq-le-strlen (b'&' ∷ r) escape_2 4 (omega arith) (omega arith),
  strncmp_eq-le-strlen (b'&' ∷ r) escape_3 5 (omega arith) (omega arith),
  strncmp_eq-le-strlen (b'&' ∷ r) escape_4 6 (omega arith) (omega arith),
  strncmp_eq-le-strlen (b'&' ∷ r) escape_5 6 (omega arith) (omega arith),
)

-- A round leaves a shorter text, and moves the input on.
replace-shorter :
    (p : Cursor) (i : ℕ)
    → strchr p.p_in b'&' ≡ some i
    → (strlen (replace p i).p_in < strlen p.p_in) × (p.moved < (replace p i).moved)
unfolding replace
replace-shorter p i h =
    let f = strchr-found p.p_in b'&' i (omega arith) h in
    let fits = restore-fits (drop (suc i) p.p_in) in
    let fits' : ((restore (drop i p.p_in)).1 ≤ strlen (drop i p.p_in))
        × (0 < (restore (drop i p.p_in)).1) =
      rw f.0 fits in
    omega (
      arith,
      strlen-drop i p.p_in (omega arith),
      strlen-drop (restore (drop i p.p_in)).1 (drop i p.p_in) fits'.0,
    )

loop_none :
    (fuel : ℕ) (p : Cursor) → strchr p.p_in b'&' ≡ none → unescape_loop (suc fuel) p ≡ some p
unfolding unescape_loop
loop_none fuel p e = rw (e, unescape_loop)

loop_some :
    (fuel : ℕ) (p : Cursor) (i : ℕ)
    → strchr p.p_in b'&' ≡ some i
    → unescape_loop (suc fuel) p ≡ unescape_loop fuel (replace p i)
unfolding unescape_loop
loop_some fuel p i e = rw (e, unescape_loop)

-- Enough fuel: one round for each byte, and one more.
unescape_loop_total :
    (fuel : ℕ) (p : Cursor)
    → strlen p.p_in < fuel
    → (q : Cursor) × (unescape_loop fuel p ≡ some q) × (p.moved ≤ q.moved)
unescape_loop_total zero p h = absurd (omega arith)
unescape_loop_total (suc fuel) p h = elim (Option-cases (strchr p.p_in b'&')) [
  | inl e ↦ (p, loop_none fuel p e, omega arith)
  | inr (i, e) ↦
      let sh = replace-shorter p i e in
      let (q, r, m) = unescape_loop_total fuel (replace p i) (omega arith) in
      (q, loop_some fuel p i e ∙ r, omega arith)
]

-- The loop of `xmltp_decode` ends on every string, whatever follows its `&`: the fuel suffices.
pub decode_total : (str : Bytes) → (r : ℕ × Bytes) × (decode str ≡ some r)
unfolding decode
decode_total str =
    let (q, r, m) = unescape_loop_total (suc (strlen str)) (at str [] 0) (omega arith) in
    (finish_decode q, rw (r, decode))

-- The text does not depend on the count of bytes moved.
text_moved :
    (fuel : ℕ) (i o : Bytes) (m n : ℕ)
    → text (unescape_loop fuel (at i o m)) ≡ text (unescape_loop fuel (at i o n))
unfolding replace unescape_loop
text_moved zero i o m n = refl
text_moved (suc fuel) i o m n = elim (Option-cases (strchr i b'&')) [
  | inl e ↦ rw (loop_none fuel (at i o m) e, loop_none fuel (at i o n) e)
  | inr (j, e) ↦
      rw (loop_some fuel (at i o m) j e, loop_some fuel (at i o n) j e) (text_moved fuel _ _ _ _)
]

-- A byte that is no `&` is moved as it is.
text_plain :
    (fuel c : ℕ) (i o : Bytes) (m : ℕ)
    → c ≢ b'&'
    → c ≢ 0
    → text (unescape_loop (suc fuel) (at (c ∷ i) o m))
      ≡ text (unescape_loop (suc fuel) (at i (o ++ c ∷ []) m))
unfolding replace
text_plain fuel c i o m h z = elim (Option-cases (strchr i b'&')) [
  | inl e ↦
      let e' : strchr (c ∷ i) b'&' ≡ none = strchr-cons_none i b'&' c h e in
      rw (loop_none fuel (at (c ∷ i) o m) e', loop_none fuel (at i (o ++ c ∷ []) m) e)
        (rw (c_string-cons c i z) (ap some (sym (append_assoc o (c ∷ []) (c_string i)))))
  | inr (j, e) ↦
      let e' : strchr (c ∷ i) b'&' ≡ some (suc j) = strchr-cons_some i b'&' c j h z e in
      rw (loop_some fuel (at (c ∷ i) o m) (suc j) e', loop_some fuel (at i (o ++ c ∷ []) m) j e)
        (rw (append_assoc o (c ∷ []) (take j i)) (text_moved fuel _ _ _ _))
]

escape-cases :
    (c : ℕ)
    → needs_escape c ≡ true
    → (c ≡ b'>') ⊎ (c ≡ b'<') ⊎ (c ≡ b'&') ⊎ (c ≡ b'\'') ⊎ (c ≡ b'"')
escape-cases c h = ground arith

restore-escape_byte :
    (c : ℕ) (i : Bytes)
    → needs_escape c ≡ true
    → restore (escape_byte c ++ i) ≡ (c, length (escape_byte c))
unfolding restore strncmp_eq
restore-escape_byte c i h = elim (escape-cases c h) [
  | inl e ↦ rw e
  | inr (inl e) ↦ rw e
  | inr (inr (inl e)) ↦ rw e
  | inr (inr (inr (inl e))) ↦ rw e
  | inr (inr (inr (inr e))) ↦ rw e
]

strchr-escape_byte :
    (c : ℕ) (i : Bytes) → needs_escape c ≡ true → strchr (escape_byte c ++ i) b'&' ≡ some 0
strchr-escape_byte c i h = ground (arith, strchr-head (drop 1 (escape_byte c ++ i)) b'&')

-- An escape is put out as the byte that it stands for.
text_escape :
    (fuel c : ℕ) (i o : Bytes) (m : ℕ)
    → needs_escape c ≡ true
    → text (unescape_loop (suc fuel) (at (escape_byte c ++ i) o m))
      ≡ text (unescape_loop fuel (at i (o ++ c ∷ []) m))
unfolding replace
text_escape fuel c i o m h =
    rw (loop_some fuel (at (escape_byte c ++ i) o m) 0 (strchr-escape_byte c i h)) (
      rw (restore-escape_byte c i h, append-nil, drop-append (escape_byte c) i)
        (text_moved fuel _ _ _ _))

length_cons : (c : ℕ) (s : Bytes) → length (escape s) < length (escape (c ∷ s))
length_cons c s = ground (arith, length-append (escape_byte c) (escape s))

-- The loop reads an escaped text back.
text-escape :
    (s rest : Bytes) (fuel : ℕ) (o : Bytes) (m : ℕ)
    → NoNul s
    → length (escape s) < fuel
    → text (unescape_loop fuel (at (escape s ++ 0 ∷ rest) o m)) ≡ some (o ++ s)
text-escape s rest zero o m z h = absurd (omega arith)
text-escape [] rest (suc fuel) o m z h =
    rw (loop_none fuel (at (0 ∷ rest) o m) (strchr-nul rest b'&' (omega arith))) (rw c_string-nul)
text-escape (c ∷ s) rest (suc fuel) o m z h = elim (Bool-cases (needs_escape c)) [
  | inl esc ↦
      let l = length_cons c s in
      rw append_assoc (
        text_escape fuel c (escape s ++ 0 ∷ rest) o m esc
        ∙ text-escape s rest fuel (o ++ c ∷ []) m z.1 (omega (arith, l))
        ∙ ap some (append_assoc o (c ∷ []) s))
  | inr plain ↦
      let l = length_cons c s in
      let e : escape_byte c ≡ c ∷ [] = ground arith in
      rw e (
        text_plain fuel c (escape s ++ 0 ∷ rest) o m (ground arith) z.0
        ∙ text-escape s rest (suc fuel) (o ++ c ∷ []) m z.1 (omega (arith, l))
        ∙ ap some (append_assoc o (c ∷ []) s))
]

strchr-escape :
    (s rest : Bytes)
    → NoNul s
    → any_escape s ≡ true
    → (i : ℕ) × (strchr (escape s ++ rest) b'&' ≡ some i)
strchr-escape [] rest z h = cc
strchr-escape (c ∷ s) rest z h = elim (Bool-cases (needs_escape c)) [
  | inl esc ↦ (0, rw append_assoc (strchr-escape_byte c (escape s ++ rest) esc))
  | inr plain ↦
      let e : escape_byte c ≡ c ∷ [] = ground arith in
      let (i, k) = strchr-escape s rest z.1 (ground arith) in
      (suc i, rw e (strchr-cons_some (escape s ++ rest) b'&' c i (ground arith) z.0 k))
]

NoNul-escape_byte : (c : ℕ) → c ≢ 0 → NoNul (escape_byte c)
NoNul-escape_byte c h = elim (Bool-cases (needs_escape c)) [
  | inl esc ↦ elim (escape-cases c esc) [
    | inl e ↦ rw e (omega arith)
    | inr (inl e) ↦ rw e (omega arith)
    | inr (inr (inl e)) ↦ rw e (omega arith)
    | inr (inr (inr (inl e))) ↦ rw e (omega arith)
    | inr (inr (inr (inr e))) ↦ rw e (omega arith)
  ]
  | inr plain ↦ let e : escape_byte c ≡ c ∷ [] = ground arith in rw e (h, tt)
]

pub NoNul-escape : (s : Bytes) → NoNul s → NoNul (escape s)
NoNul-escape [] h = tt
NoNul-escape (c ∷ s) h =
    All-append (λ b. b ≢ 0) (escape_byte c) (escape s) (NoNul-escape_byte c h.0)
      (NoNul-escape s h.1)

-- A first `&` means that the input moves.
loop_moves :
    (fuel : ℕ) (p : Cursor) (i : ℕ)
    → strchr p.p_in b'&' ≡ some i
    → strlen p.p_in < suc fuel
    → (q : Cursor) × (unescape_loop (suc fuel) p ≡ some q) × (p.moved < q.moved)
loop_moves fuel p i e h =
    let sh = replace-shorter p i e in
    let (q, r, m) = unescape_loop_total fuel (replace p i) (omega arith) in
    (q, loop_some fuel p i e ∙ r, omega arith)

decode-escape :
    (s rest : Bytes)
    → NoNul s
    → any_escape s ≡ true
    → decode (escape s ++ 0 ∷ rest) ≡ some (1, s ++ 0 ∷ [])
unfolding decode finish_decode
decode-escape s rest z h =
    let str : Bytes = escape s ++ 0 ∷ rest in
    let len : strlen str ≡ length (escape s) =
      ap length (c_string-NoNul (escape s) rest (NoNul-escape s z)) in
    let (i, f) = strchr-escape s (0 ∷ rest) z h in
    let (q, r, m) = loop_moves (strlen str) (at str [] 0) i f (omega arith) in
    let t : some (q.out ++ c_string q.p_in) ≡ some s =
      ap text (sym r) ∙ text-escape s rest (suc (strlen str)) [] 0 z (omega (arith, len)) in
    let n : q.moved ≢ 0 = omega arith in rw (r, decode) (ground arith)

strchr-plain : (s rest : Bytes) → any_escape s ≡ false → strchr (s ++ 0 ∷ rest) b'&' ≡ none
strchr-plain [] rest h = strchr-nul rest b'&' (omega arith)
strchr-plain (c ∷ s) rest h =
    strchr-cons_none (s ++ 0 ∷ rest) b'&' c (ground arith) (strchr-plain s rest (ground arith))

decode-plain : (s rest : Bytes) → any_escape s ≡ false → decode (s ++ 0 ∷ rest) ≡ some (0, [])
unfolding decode finish_decode
decode-plain s rest h =
    let str : Bytes = s ++ 0 ∷ rest in
    let e = loop_none (strlen str) (at str [] 0) (strchr-plain s rest h) in rw (e, decode)

-- The string that the callers of `xmltp_encode` and `xmltp_decode` go on with: the buffer after
-- code 1, and the string itself after code 0.
abbrev pub chosen : Bytes → ℕ × Bytes → Bytes
chosen str (rc, buf) = if rc == 0 then str else buf

-- `xmltp_decode` on the outcome of `xmltp_encode`: it returns, with the code of `xmltp_encode`,
-- and what the callers go on with is the string that was encoded.
pub decode-encode :
    (s : Bytes)
    → NoNul s
    → let e = encode (s ++ 0 ∷ []) in
      let sent = chosen (s ++ 0 ∷ []) e in
      (r : ℕ × Bytes) × (decode sent ≡ some r) × (r.0 ≡ e.0) × (c_string (chosen sent r) ≡ s)
decode-encode s z = elim (Bool-cases (any_escape s)) [
  | inl esc ↦
      rw (encode_lem s z, esc)
        ((1, s ++ 0 ∷ []), decode-escape s (0 ∷ []) z esc, refl, c_string-NoNul s [] z)
  | inr plain ↦
      rw (encode_lem s z, plain) ((0, []), decode-plain s [] plain, refl, c_string-NoNul s [] z)
]

-- The decoder on an escaped text, whether or not there is an escape in it.
pub decode_escaped :
    (s : Bytes)
    → NoNul s
    → let sent = escape s ++ 0 ∷ [] in
      (r : ℕ × Bytes) × (decode sent ≡ some r) × (c_string (chosen sent r) ≡ s)
decode_escaped s z = elim (Bool-cases (any_escape s)) [
  | inl esc ↦ ((1, s ++ 0 ∷ []), decode-escape s [] z esc, c_string-NoNul s [] z)
  | inr plain ↦ rw (escape_plain s plain) ((0, []), decode-plain s [] plain, c_string-NoNul s [] z)
]
