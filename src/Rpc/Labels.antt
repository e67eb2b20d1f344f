-- ===== src/Rpc/Labels.antt =====
-- A parameter with its label, through the automaton of src/ct10api/ct10rpc_parse.c.
use xmltp.Prelude.{
  ℕ, ◌+◌, ◌≤◌, ◌≡◌, refl, true, false, Option, none, some, [], ◌∷◌, ◌++◌, arith, length, set,
  length-set,
}
use xmltp.Bytes.{Bytes, c_string}
use xmltp.Rpc.State.{Sybase, Rpc, check_first_parm}
use xmltp.Rpc.Parse.{parse_via_automaton}
use xmltp.Rpc.Steps.{write}
use xmltp.Rpc.Classes.{is_label}
use xmltp.Rpc.Buffers.{length-write, c_string-write}
use xmltp.Rpc.Spec.{
  Label, Arg, print_label, print_value, print_output, print_arg, IsLabel, is_labelled, IsValue,
  IsArg,
}
use xmltp.Rpc.Expected.{name_of, has_output, quote_number}
use xmltp.Rpc.Describe.{output_number}
use xmltp.Rpc.Place.{place}
use xmltp.Rpc.Words.{Is-NoNul, run-blanks, run-label}
use xmltp.Rpc.Ends.{End, end_byte}
use xmltp.Rpc.Args.{Sized, Closed, Closed-before, value-Closed}

module _ (syb : Sybase) (s : Rpc) (cur : ℕ) (e : End) (rest : Bytes) where
  -- A parameter, from level 3.
  pub arg-Closed :
      (t : Rpc) (a : Arg) (q0 d : ℕ) (nm v po : Bytes)
      → check_first_parm t ≡ place s cur q0 nm v po 0 d
      → t.dest_ind ≤ 1024
      → Sized nm v po d
      → c_string nm ≡ []
      → IsArg a
      → Closed syb s cur e rest
          (name_of a.label)
          a.text
          (quote_number a.quoting)
          (output_number syb (has_output a.output))
          (parse_via_automaton syb (print_arg a (end_byte e ∷ rest)) 3 t)
  arg-Closed t a q0 d nm v po opens small b clear h =
      Closed-before syb s cur e rest (run-blanks syb 3 t a.before _ refl small h.before_blank)
        (labelled a.label h.label_lem h.value_lem)
    where
      labelled :
          (l : Option Label)
          → IsLabel l
          → IsValue (is_labelled l) a.quoting a.text
          → Closed syb s cur e rest
              (name_of l)
              a.text
              (quote_number a.quoting)
              (output_number syb (has_output a.output))
              (parse_via_automaton syb
                (print_label l (
                  print_value a.quoting a.text
                    (a.behind ++ print_output a.output (end_byte e ∷ rest))))
                3
                t)
      labelled none hl hv = rw clear at (
          value-Closed syb s cur e rest t q0 d nm v po opens small b false a.quoting a.text a.behind
            a.output hv h.text_fits h.behind_blank h.output_lem h.apart)
      labelled (some l) hl hv =
          let nm' = set (write nm 0 (b'@' ∷ l.word)) (1 + length l.word) 0 in
          rw
            (c_string-write (b'@' ∷ l.word) nm (1 + length l.word)
              (omega arith, Is-NoNul is_label l.word refl hl.0) (omega arith)
              (omega (arith, hl.1, b.nm_size)))
            at
            (Closed-before syb s cur e rest
              (run-label syb s cur q0 v po 0 t l nm _ d opens small b.nm_size hl)
              (value-Closed syb s cur e rest (place s cur q0 nm' v po 0 (1 + length l.word)) q0
                (1 + length l.word) nm' v po refl (omega (arith, hl.1))
                (record {
                  nm_size = omega (
                    arith,
                    length-set (write nm 0 (b'@' ∷ l.word)) (1 + length l.word) 0,
                    length-write (b'@' ∷ l.word) nm 0,
                    b.nm_size,
                  );
                  v_size = b.v_size;
                  po_size = b.po_size;
                  small = omega (arith, hl.1);
                })
                true a.quoting a.text a.behind a.output hv h.text_fits h.behind_blank h.output_lem
                h.apart))
