-- ===== src/Rpc/Buffers.antt =====
-- The working buffers of src/ct10api/ct10rpc_parse.c: what the writes of a word leave in them.
use mathlib.Core.List.{map}
use xmltp.Prelude.{
  ℕ, zero, suc, ◌+◌, ◌≤◌, ◌<◌, ◌≡◌, refl, sym, ap, ◌∙◌, List, [], ◌∷◌, ◌++◌, append_assoc, arith,
  length, set, drop, length-set, length-append, length-drop,
}
use xmltp.Bytes.{Bytes, NoNul, c_string, c_string-NoNul, strcmp_eq}
use xmltp.Rpc.Steps.{write}

module _ {A : Type 0} where
  pub length-write : (w buf : List A) (i : ℕ) → length (write buf i w) ≡ length buf
  length-write [] buf i = refl
  length-write (c ∷ w) buf i = length-write w (set buf i c) (i + 1) ∙ length-set buf i c

  pub set-append :
      (p b : List A) (c : A) (i : ℕ)
      → i ≡ length p
      → 0 < length b
      → set (p ++ b) i c ≡ p ++ c ∷ drop 1 b
  set-append [] [] c i e h = absurd (omega arith)
  set-append [] (x ∷ b) c i e h = rw e refl
  set-append (x ∷ p) b c zero e h = absurd (omega arith)
  set-append (x ∷ p) b c (suc i) e h = ap (◌∷◌ x) (set-append p b c i (omega arith) h)

  drop-drop : (b : List A) (n : ℕ) → drop n (drop 1 b) ≡ drop (suc n) b
  drop-drop [] zero = refl
  drop-drop [] (suc n) = refl
  drop-drop (x ∷ b) n = refl

  pub write-append :
      (w p b : List A) (i : ℕ)
      → i ≡ length p
      → length w ≤ length b
      → write (p ++ b) i w ≡ p ++ (w ++ drop (length w) b)
  write-append [] p b i e h = refl
  write-append (c ∷ w) p b i e h =
      ap (λ t. write t (i + 1) w) (set-append p b c i e (omega arith))
      ∙ ap (λ t. write t (i + 1) w) (sym (append_assoc p (c ∷ []) (drop 1 b)))
      ∙ write-append w (p ++ c ∷ []) (drop 1 b) (i + 1) (omega (arith, length-append p (c ∷ [])))
          (omega (arith, length-drop 1 b))
      ∙ append_assoc p (c ∷ []) (w ++ drop (length w) (drop 1 b))
      ∙ ap (λ t. p ++ c ∷ (w ++ t)) (drop-drop b (length w))

-- A word from the start of a buffer, with a NUL behind it.
pub write_shape :
    (w buf : Bytes) (i : ℕ)
    → i ≡ length w
    → length w < length buf
    → (rest : Bytes) × (set (write buf 0 w) i 0 ≡ w ++ 0 ∷ rest)
write_shape w buf i e h = (
  drop 1 (drop (length w) buf),
  ap (λ t. set t i 0) (write-append w [] buf 0 refl (omega arith))
      ∙ set-append w (drop (length w) buf) 0 i e (omega (arith, length-drop (length w) buf)),
)

-- A text with a NUL behind it compares as the text does.
pub strcmp_eq-nul : (w rest lit : Bytes) → strcmp_eq (w ++ 0 ∷ rest) lit ≡ strcmp_eq w lit
unfolding strcmp_eq
strcmp_eq-nul [] rest [] = refl
strcmp_eq-nul [] rest (b ∷ lit) = ground arith
strcmp_eq-nul (c ∷ w) rest [] = refl
strcmp_eq-nul (c ∷ w) rest (b ∷ lit) = ground (arith, strcmp_eq-nul w rest lit)

-- A word from the start of a buffer, as the C string that it is.
pub c_string-write :
    (w buf : Bytes) (i : ℕ)
    → NoNul w
    → i ≡ length w
    → length w < length buf
    → c_string (set (write buf 0 w) i 0) ≡ w
c_string-write w buf i z e h =
    let (rest, shape) = write_shape w buf i e h in rw shape (c_string-NoNul w rest z)

-- A first NUL empties the string.
pub c_string-cleared : (buf : Bytes) → c_string (set buf 0 0) ≡ []
unfolding c_string
c_string-cleared [] = refl
c_string-cleared (c ∷ buf) = refl

pub length-map : (t : ℕ → ℕ) (w : Bytes) → length (map t w) ≡ length w
length-map t [] = refl
length-map t (c ∷ w) = ap suc (length-map t w)
