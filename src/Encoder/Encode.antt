-- ===== src/Encoder/Encode.antt =====
-- `xmltp_encode` of src/xmltp/xmltp_encoder.c against the escaping of Spec.
use xmltp.Prelude.{
  ℕ, zero, suc, ◌+◌, ◌-◌, ◌*◌, ◌≤◌, ◌<◌, ◌≡◌, ◌≢◌, refl, sym, ap, ◌∙◌, true, false, Option, some,
  ◌⊎◌, inl, inr, [], ◌∷◌, ◌++◌, append-nil, append_assoc, arith, ◌==◌, if◌then◌else◌, Bool-cases,
  length, length-append, take, drop, set, replicate,
}
use xmltp.Bytes.{Bytes, NoNul, c_string-NoNul}
use xmltp.Encoder.{is_delimiter, escape_of, slice, scan, finish_encode, cut_at_max, encode}
use xmltp.Encoder.Spec.{escape_byte, escape, any_escape, length-escape}

drop-nil : (n : ℕ) → drop {A = ℕ} n [] ≡ []
drop-nil zero = refl
drop-nil (suc n) = refl

drop-drop : (n k : ℕ) (xs : Bytes) → drop k (drop n xs) ≡ drop (n + k) xs
drop-drop zero k xs = ap (λ m. drop m xs) (omega arith)
drop-drop (suc n) zero [] = sym (drop-nil (suc n + 0))
drop-drop (suc n) (suc k) [] = sym (drop-nil (suc n + suc k))
drop-drop (suc n) (suc k) (x ∷ xs) =
    let e : suc n + suc k ≡ suc (n + suc k) = omega arith in
    drop-drop n (suc k) xs ∙ ap (λ m. drop m (x ∷ xs)) (sym e)
drop-drop (suc n) zero (x ∷ xs) =
    let e : suc n + 0 ≡ suc (n + 0) = omega arith in
    drop-drop n zero xs ∙ ap (λ m. drop m (x ∷ xs)) (sym e)

take-suc :
    (k : ℕ) (xs r : Bytes) (c : ℕ) → drop k xs ≡ c ∷ r → take (suc k) xs ≡ take k xs ++ c ∷ []
take-suc zero [] r c h = cc
take-suc zero (x ∷ xs) r c h = cc
take-suc (suc k) [] r c h = cc
take-suc (suc k) (x ∷ xs) r c h = ap (◌∷◌ x) (take-suc k xs r c h)

slice-suc :
    (str r : Bytes) (from to c : ℕ)
    → from ≤ to
    → drop to str ≡ c ∷ r
    → slice str from (suc to) ≡ slice str from to ++ c ∷ []
slice-suc str r from to c le h =
    let e : suc to - from ≡ suc (to - from) = omega arith in
    let d : drop (to - from) (drop from str) ≡ c ∷ r =
      drop-drop from (to - from) str ∙ ap (λ m. drop m str) (omega arith) ∙ h in
    ap (λ m. take m (drop from str)) e ∙ take-suc (to - from) (drop from str) r c d

drop-suc : (k : ℕ) (xs r : Bytes) (c : ℕ) → drop k xs ≡ c ∷ r → drop (suc k) xs ≡ r
drop-suc zero [] r c h = cc
drop-suc zero (x ∷ xs) r c h = cc
drop-suc (suc k) [] r c h = cc
drop-suc (suc k) (x ∷ xs) r c h = drop-suc k xs r c h

slice_self : (str : Bytes) (n : ℕ) → slice str n n ≡ []
slice_self str n = let e : n - n ≡ 0 = omega arith in ap (λ m. take m (drop n str)) e

escape_of-some : (c : ℕ) → is_delimiter c ≡ true → escape_of c ≡ some (escape_byte c)
escape_of-some c h = ground arith

escape_byte_plain : (c : ℕ) → is_delimiter c ≡ false → escape_byte c ≡ c ∷ []
escape_byte_plain c h = ground arith

-- What the scan knows at its end, from a state in which `pre` has been accounted for.
record Scanned (str rest pre : Bytes) (from to : ℕ) (out : Bytes) (r : Option (ℕ × ℕ × Bytes))
    : Type 0 where
  from' : ℕ
  to' : ℕ
  out' : Bytes
  result : r ≡ some (from', to', out')
  ordered : from' ≤ to'
  at_nul : drop to' str ≡ 0 ∷ []
  text : out' ++ slice str from' to' ≡ pre ++ escape rest
  unchanged : any_escape rest ≡ false → (from' ≡ from) × (out' ≡ out)
  moved : any_escape rest ≡ true ⊎ from ≢ 0 → from' ≢ 0

module _ (left : ℕ) (str : Bytes) (from to : ℕ) (out : Bytes) (c : ℕ) (r : Bytes) where
  scan_plain :
      drop to str ≡ c ∷ r
      → is_delimiter c ≡ false
      → scan (suc left) str from to out ≡ scan left str from (suc to) out
  unfolding scan
  scan_plain d h = ground arith

  scan_escape :
      drop to str ≡ c ∷ r
      → is_delimiter c ≡ true
      → scan (suc left) str from to out
        ≡ scan left str (suc to) (suc to) ((out ++ slice str from to) ++ escape_byte c)
  unfolding scan
  scan_escape d h = ground (arith, escape_of-some c h)

scan-Scanned :
    (rest str pre : Bytes) (from to : ℕ) (out : Bytes)
    → from ≤ to
    → drop to str ≡ rest ++ 0 ∷ []
    → out ++ slice str from to ≡ pre
    → Scanned str rest pre from to out (scan (length rest) str from to out)
unfolding scan
scan-Scanned [] str pre from to out le d e = record {
  from' = from;
  to' = to;
  out' = out;
  result = refl;
  ordered = le;
  at_nul = d;
  text = e ∙ sym (append-nil pre);
  unchanged = λ h. (refl, refl);
  moved = λ h. ground arith;
}
scan-Scanned (c ∷ rest) str pre from to out le d e = elim (Bool-cases (is_delimiter c)) [
  | inl esc ↦
      let t : (out ++ slice str from to) ++ escape_byte c ++ slice str (suc to) (suc to)
          ≡ pre ++ escape_byte c =
        rw (slice_self str (suc to), append-nil, e) in
      let s =
        scan-Scanned rest str (pre ++ escape_byte c) (suc to) (suc to)
          ((out ++ slice str from to) ++ escape_byte c) (omega arith)
          (drop-suc to str (rest ++ 0 ∷ []) c d) t in
      record {
        from' = s.from';
        to' = s.to';
        out' = s.out';
        result = scan_escape (length rest) str from to out c (rest ++ 0 ∷ []) d esc ∙ s.result;
        ordered = s.ordered;
        at_nul = s.at_nul;
        text = s.text ∙ append_assoc pre (escape_byte c) (escape rest);
        unchanged = λ h. absurd (ground arith);
        moved = λ h. s.moved (inr (ground arith));
      }
  | inr plain ↦
      let t : out ++ slice str from (suc to) ≡ pre ++ c ∷ [] =
        rw (slice-suc str (rest ++ 0 ∷ []) from to c le d)
          (sym (append_assoc out (slice str from to) (c ∷ [])) ∙ ap (λ x. x ++ c ∷ []) e) in
      let s =
        scan-Scanned rest str (pre ++ c ∷ []) from (suc to) out (omega arith)
          (drop-suc to str (rest ++ 0 ∷ []) c d) t in
      record {
        from' = s.from';
        to' = s.to';
        out' = s.out';
        result = scan_plain (length rest) str from to out c (rest ++ 0 ∷ []) d plain ∙ s.result;
        ordered = s.ordered;
        at_nul = s.at_nul;
        text =
            s.text
            ∙ append_assoc pre (c ∷ []) (escape rest)
            ∙ ap (λ x. pre ++ (x ++ escape rest)) (sym (escape_byte_plain c plain));
        unchanged = λ h. s.unchanged (ground arith);
        moved = λ h. s.moved (ground arith);
      }
]

set-last : (s : Bytes) (x : ℕ) → set (s ++ x ∷ []) (length s) x ≡ s ++ x ∷ []
set-last [] x = refl
set-last (c ∷ s) x = ap (◌∷◌ c) (set-last s x)

-- The cut writes a NUL over the NUL.
cut_at_max_self : (s : Bytes) → NoNul s → cut_at_max (s ++ 0 ∷ []) ≡ s ++ 0 ∷ []
unfolding cut_at_max
cut_at_max_self s h = elim (Bool-cases (length s == 255)) [
  | inl e ↦
      rw (c_string-NoNul s [] h, e)
        (let l : length s ≡ 255 = ground arith in rw l at (set-last s 0))
  | inr e ↦ rw (c_string-NoNul s [] h, e)
]

any_escape-nil : (s : Bytes) → length s ≡ 0 → any_escape s ≡ false
any_escape-nil [] h = refl
any_escape-nil (c ∷ s) h = absurd (omega arith)

finish-Scanned :
    (s : Bytes) (r : Option (ℕ × ℕ × Bytes))
    → Scanned (s ++ 0 ∷ []) s [] 0 0 [] r
    → finish_encode (s ++ 0 ∷ []) r
      ≡ (if any_escape s then (1, escape s ++ 0 ∷ 0 ∷ []) else (0, []))
unfolding finish_encode
finish-Scanned s r d = elim (Bool-cases (any_escape s)) [
  | inl yes' ↦
      rw (d.result, yes')
        (let n : d.from' ≢ 0 = d.moved (inl yes') in
          let k : d.to' + 1 ≡ suc d.to' = omega arith in
          let e : d.out' ++ slice (s ++ 0 ∷ []) d.from' (d.to' + 1) ≡ escape s ++ 0 ∷ [] =
            rw (k, slice-suc (s ++ 0 ∷ []) [] d.from' d.to' 0 d.ordered d.at_nul)
              (sym (append_assoc d.out' (slice (s ++ 0 ∷ []) d.from' d.to') (0 ∷ []))
                ∙ ap (λ x. x ++ 0 ∷ []) d.text) in
          ground (arith, d.ordered, e, append_assoc (escape s) (0 ∷ []) (0 ∷ [])))
  | inr no' ↦ rw (d.result, no') (ground (arith, d.unchanged no'))
]

-- On a string with no inner NUL: with nothing to escape the code is 0 and nothing is written;
-- otherwise the code is 1 and the buffer gets the escaped text and two NULs. The code 2 is never
-- returned.
pub encode_lem :
    (s : Bytes)
    → NoNul s
    → encode (s ++ 0 ∷ []) ≡ (if any_escape s then (1, escape s ++ 0 ∷ 0 ∷ []) else (0, []))
unfolding encode
encode_lem s h = elim (Bool-cases (length s == 0)) [
  | inl e ↦ rw (c_string-NoNul s [] h, e, any_escape-nil s (ground arith))
  | inr e ↦
      rw (c_string-NoNul s [] h, e, cut_at_max_self s h)
        (finish-Scanned s _ (scan-Scanned s (s ++ 0 ∷ []) [] 0 0 [] (omega arith) refl refl))
]

-- `xmltp_encode` writes at most 6 bytes for each byte of the string, and two NULs.
encode_bound : (s : Bytes) → NoNul s → length (encode (s ++ 0 ∷ [])).1 ≤ 6 * length s + 2
encode_bound s h =
    ground (arith, encode_lem s h, length-escape s, length-append (escape s) (0 ∷ 0 ∷ []))

any_escape-quotes : (n : ℕ) → any_escape (replicate (suc n) b'"') ≡ true
any_escape-quotes n = refl

length-escape-quotes : (n : ℕ) → length (escape (replicate n b'"')) ≡ 6 * n
length-escape-quotes zero = refl
length-escape-quotes (suc n) = omega (arith, length-escape-quotes n)

NoNul-quotes : (n : ℕ) → NoNul (replicate n b'"')
NoNul-quotes zero = tt
NoNul-quotes (suc n) = (omega arith, NoNul-quotes n)

-- The bound is reached by every string of quotes, for which `xmltp_encode` writes more than the
-- 4 bytes for each byte that its comment promises, its NULs included.
pub encode_quotes :
    (n : ℕ)
    → 0 < n
    → (length (encode (replicate n b'"' ++ 0 ∷ [])).1 ≡ 6 * n + 2)
      × (4 * n + 1 < length (encode (replicate n b'"' ++ 0 ∷ [])).1)
encode_quotes zero h = absurd (omega arith)
encode_quotes (suc n) h =
    let s : Bytes = replicate (suc n) b'"' in
    let e : encode (s ++ 0 ∷ []) ≡ (1, escape s ++ 0 ∷ 0 ∷ []) =
      encode_lem s (NoNul-quotes (suc n)) in
    let l : length (encode (s ++ 0 ∷ [])).1 ≡ 6 * suc n + 2 =
      ap (λ r. length r.1) e
      ∙ length-append (escape s) (0 ∷ 0 ∷ [])
      ∙ ap (λ k. k + 2) (length-escape-quotes (suc n)) in
    (l, omega (arith, l))
