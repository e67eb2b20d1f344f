-- ===== src/Rpc/Outputs.antt =====
-- The rounds of the automaton of src/ct10api/ct10rpc_parse.c over the word that makes a parameter an
-- output.
use xmltp.Prelude.{
  ℕ, ◌+◌, ◌≤◌, ◌<◌, ◌≡◌, refl, ap, ◌∙◌, false, ◌⊎◌, inl, inr, some, [], ◌∷◌, ◌++◌, arith, lt→ltb,
  length, set, All, length-set,
}
use mathlib.Core.List.{map}
use xmltp.Bytes.{Bytes, codes, strcmp_eq, strcmp_eq_refl}
use xmltp.Rpc.State.{Sybase, Rpc, rpc_syntax_continue, toupper, process_end_output_ind}
use xmltp.Rpc.Parse.{parse_via_automaton, process_1_rpc_char}
use xmltp.Rpc.Steps.{Stays, write, round, run-word}
use xmltp.Rpc.Classes.{letter, Byte, blank}
use xmltp.Rpc.Buffers.{length-write, write_shape, strcmp_eq-nul, length-map}
use xmltp.Rpc.Spec.{IsBlank, OutputWord, IsOutput, print_output}
use xmltp.Rpc.Place.{place}
use xmltp.Rpc.Words.{Byte-In, run-blanks}
use xmltp.Rpc.Ends.{End, end_byte, at_11-Ends, closing, end_round, end-at_12}

out_not_output : strcmp_eq (codes "OUT") (codes "OUTPUT") ≡ false
unfolding strcmp_eq
out_not_output = refl

module _ (syb : Sybase) (s : Rpc) (cur q : ℕ) (nm v : Bytes) where
  output_letter :
      (c i : ℕ) (buf : Bytes)
      → i < length buf
      → process_1_rpc_char syb 113 c (place s cur q nm v buf 0 i)
        ≡ some (rpc_syntax_continue, place s cur q nm v (set buf i (toupper c)) 0 (i + 1))
  unfolding process_1_rpc_char
  output_letter c i buf h = rw (lt→ltb i (length buf) h) refl

  output_first :
      (c d : ℕ) (buf : Bytes)
      → 0 < length buf
      → process_1_rpc_char syb 112 c (place s cur q nm v buf 0 d)
        ≡ some (rpc_syntax_continue, place s cur q nm v (set buf 0 (toupper c)) 0 1)
  unfolding process_1_rpc_char
  output_first c d buf h = rw (lt→ltb 0 (length buf) h) refl

  letters-Stay : (w : Bytes) → All (Byte letter) w → All (Stays 11 113) w
  letters-Stay [] h = tt
  letters-Stay (c ∷ w) (b, h) = ((0, Byte-In letter c b, omega arith, refl), letters-Stay w h)

  -- The letters of an output indicator.
  run-letters :
      (c d : ℕ) (w po rest : Bytes)
      → All (Byte letter) (c ∷ w)
      → d ≤ 1024
      → length po ≡ 1024
      → length (c ∷ w) < 1024
      → parse_via_automaton syb (c ∷ (w ++ rest)) 10 (place s cur q nm v po 0 d)
        ≡ parse_via_automaton syb rest 11
            (place s cur q nm v (write po 0 (map toupper (c ∷ w))) 0 (1 + length w))
  run-letters c d w po rest (b, h) small size fits =
      round syb 10 11 0 112 c _ _ (w ++ rest) small (Byte-In letter c b) (omega arith) refl
        (output_first c d po (omega arith))
      ∙ run-word syb 11 113 toupper (λ j p. place s cur q nm v p 0 j) (λ j p. refl) output_letter w
          1 (set po 0 (toupper c)) rest (omega (arith, length-set po 0 (toupper c)))
          (omega (arith, length-set po 0 (toupper c))) (letters-Stay w h)

  -- The words that `ct10rpc_process_end_ouput_ind` takes.
  abbrev IsOut : Bytes → Type 0
  IsOut upper = (upper ≡ codes "OUT") ⊎ (upper ≡ codes "OUTPUT")

  out_ended :
      (buf upper r : Bytes) (i : ℕ)
      → i < length buf
      → set buf i 0 ≡ upper ++ 0 ∷ r
      → IsOut upper
      → process_end_output_ind (place s cur q nm v buf 0 i)
        ≡ some (rpc_syntax_continue, place s cur q nm v (set buf i 0) 1 i)
  out_ended buf upper r i h shape (inl w) =
      rw
        (
          lt→ltb i (length buf) h,
          shape,
          strcmp_eq-nul upper r (codes "OUTPUT"),
          strcmp_eq-nul upper r (codes "OUT"),
          w,
          out_not_output,
          strcmp_eq_refl (codes "OUT"),
        )
        refl
  out_ended buf upper r i h shape (inr w) =
      rw
        (
          lt→ltb i (length buf) h,
          shape,
          strcmp_eq-nul upper r (codes "OUTPUT"),
          w,
          strcmp_eq_refl (codes "OUTPUT"),
        )
        refl

  -- From the end of the word to the end of the parameter.
  run-behind :
      (e : End) (b rest buf upper r : Bytes) (i : ℕ)
      → IsBlank b
      → i < length buf
      → length buf ≤ 1024
      → set buf i 0 ≡ upper ++ 0 ∷ r
      → IsOut upper
      → parse_via_automaton syb (b ++ end_byte e ∷ rest) 11 (place s cur q nm v buf 0 i)
        ≡ closing syb e rest (place s cur q nm v (set buf i 0) 1 i)
  unfolding process_1_rpc_char
  run-behind e [] rest buf upper r i h fits small shape out =
      end_round syb 11 115 e (place s cur q nm v buf 0 i) (place s cur q nm v (set buf i 0) 1 i)
        rest at_11-Ends (omega arith) (rw (out_ended buf upper r i fits shape out) refl)
  run-behind e (c ∷ b) rest buf upper r i (x, h) fits small shape out =
      round syb 11 12 5 114 c (place s cur q nm v buf 0 i) (place s cur q nm v (set buf i 0) 1 i)
        (b ++ end_byte e ∷ rest) (omega arith) (Byte-In blank c x) (omega arith) refl
        (out_ended buf upper r i fits shape out)
      ∙ run-blanks syb 12 _ b (end_byte e ∷ rest) refl (omega arith) h
      ∙ end-at_12 syb e (place s cur q nm v (set buf i 0) 1 i) rest (omega arith)

  out_length : (w : Bytes) → IsOut (map toupper w) → (0 < length w) × (length w ≤ 6)
  out_length w (inl e) = omega (arith, ap length e, length-map toupper w)
  out_length w (inr e) = omega (arith, ap length e, length-map toupper w)

  -- An output indicator with the white space behind it.
  pub run-output :
      (e : End) (o : OutputWord) (d : ℕ) (po rest : Bytes)
      → IsOutput (some o)
      → d ≤ 1024
      → length po ≡ 1024
      → (po' : Bytes) × (d' : ℕ) × (length po' ≡ 1024)
        × (d' ≤ 1024)
        × (parse_via_automaton syb
              (print_output (some o) (end_byte e ∷ rest))
              10
              (place s cur q nm v po 0 d)
            ≡ closing syb e rest (place s cur q nm v po' 1 d'))
  run-output e o d po rest h small size = outcome o.word o.behind h
    where
      outcome :
          (w b : Bytes)
          → All (Byte letter) w
            × ((map toupper w ≡ codes "OUT") ⊎ (map toupper w ≡ codes "OUTPUT"))
            × IsBlank b
          → (po' : Bytes) × (d' : ℕ) × (length po' ≡ 1024)
            × (d' ≤ 1024)
            × (parse_via_automaton syb
                  (w ++ (b ++ end_byte e ∷ rest))
                  10
                  (place s cur q nm v po 0 d)
                ≡ closing syb e rest (place s cur q nm v po' 1 d'))
      outcome [] b (_, out, _) = absurd (omega (arith, out_length [] out))
      outcome (c ∷ w) b (letters, out, blanks) = (
        set (write po 0 (map toupper (c ∷ w))) (1 + length w) 0,
        1 + length w,
        omega (
          arith,
          length-set (write po 0 (map toupper (c ∷ w))) (1 + length w) 0,
          length-write (map toupper (c ∷ w)) po 0,
        ),
        omega (arith, out_length (c ∷ w) out),
        run-letters c d w po (b ++ end_byte e ∷ rest) letters small size
              (omega (arith, out_length (c ∷ w) out))
            ∙ (let (r, shape) =
                  write_shape (map toupper (c ∷ w)) po (1 + length w)
                    (omega (arith, length-map toupper w))
                    (omega (arith, length-map toupper w, out_length (c ∷ w) out)) in
                run-behind e b rest (write po 0 (map toupper (c ∷ w))) (map toupper (c ∷ w)) r
                  (1 + length w) blanks
                  (omega (arith, length-write (map toupper (c ∷ w)) po 0, out_length (c ∷ w) out))
                  (omega (arith, length-write (map toupper (c ∷ w)) po 0)) shape out),
      )
