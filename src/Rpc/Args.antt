-- ===== src/Rpc/Args.antt =====
-- A whole parameter of a call, through the automaton of src/ct10api/ct10rpc_parse.c.
use xmltp.Prelude.{
  inl, ℕ, ◌+◌, ◌≤◌, ◌<◌, ◌≡◌, refl, ◌∙◌, Bool, true, false, Option, none, some, [], ◌∷◌, ◌++◌,
  arith, length, set, All, ℤ, length-set,
}
use xmltp.Bytes.{Bytes, NoNul, c_string}
use xmltp.Rpc.State.{Sybase, Rpc, check_first_parm}
use xmltp.Rpc.Parse.{parse_via_automaton}
use xmltp.Rpc.Steps.{write, round}
use xmltp.Rpc.Classes.{Class, Is, is_plain, is_first, is_quoted, is_braced, blank, nul}
use xmltp.Rpc.Buffers.{length-write, c_string-write}
use xmltp.Rpc.Spec.{
  Quoting, plain, quoted, braced, OutputWord, print_value, print_output, IsBlank, IsAscii, IsValue,
  IsOutput, IsApart,
}
use xmltp.Rpc.Expected.{has_output, quote_number}
use xmltp.Rpc.Describe.{output_number}
use xmltp.Rpc.Place.{place}
use xmltp.Rpc.Words.{Byte-In, Is-ne_nul, Is-NoNul, run-blanks}
use xmltp.Rpc.Values.{value_level, value_end, run-plain, run-quoted, run-braced}
use xmltp.Rpc.Ends.{End, end_byte, closing, end-at_8, end-at_10}
use xmltp.Rpc.Outputs.{run-output}

Ascii-Is : (p : Class → Bool) (c : ℕ) → IsAscii p c → Is p c
Ascii-Is p c (l, h) = (omega arith, h)

All-Ascii-Is : (p : Class → Bool) (w : Bytes) → All (IsAscii p) w → All (Is p) w
All-Ascii-Is p [] h = tt
All-Ascii-Is p (c ∷ w) (x, h) = (Ascii-Is p c x, All-Ascii-Is p w h)

pub first_nul : (labelled : Bool) → is_first labelled nul ≡ false
first_nul true = refl
first_nul false = refl

-- The buffers as they are between two functions.
pub record Sized (nm v po : Bytes) (d : ℕ) : Type 0 where
  pub nm_size : length nm ≡ 1024
  pub v_size : length v ≡ 1024
  pub po_size : length po ≡ 1024
  pub small : d ≤ 1024

module _ (syb : Sybase) (s : Rpc) (cur : ℕ) (e : End) (rest : Bytes) where
  -- The run comes to the end of a parameter with the name, the text, the quoting and the direction
  -- in its variables.
  pub record Closed (name text : Bytes) (q o : ℕ) (run : Option (ℤ × Rpc)) : Type 0 where
    pub nm : Bytes
    pub v : Bytes
    pub po : Bytes
    pub d : ℕ
    pub sized : Sized nm v po d
    pub nm_is : c_string nm ≡ name
    pub v_is : c_string v ≡ text
    pub runs : run ≡ closing syb e rest (place s cur q nm v po o d)

  pub Closed-before :
      {name text : Bytes} {q o : ℕ} {run run' : Option (ℤ × Rpc)}
      → run' ≡ run
      → Closed name text q o run
      → Closed name text q o run'
  Closed-before h c = record {
    nm = c.nm;
    v = c.v;
    po = c.po;
    d = c.d;
    sized = c.sized;
    nm_is = c.nm_is;
    v_is = c.v_is;
    runs = h ∙ c.runs;
  }

  -- Behind a value that has ended.
  output-Closed :
      (out : Option OutputWord) (q d : ℕ) (nm v po : Bytes)
      → IsOutput out
      → Sized nm v po d
      → Closed (c_string nm) (c_string v) q (output_number syb (has_output out)) (
          parse_via_automaton syb
            (print_output out (end_byte e ∷ rest))
            10
            (place s cur q nm v po 0 d))
  output-Closed none q d nm v po h b = record {
    nm = nm;
    v = v;
    po = po;
    d = d;
    sized = b;
    nm_is = refl;
    v_is = refl;
    runs = end-at_10 syb e (place s cur q nm v po 0 d) rest b.small;
  }
  output-Closed (some out) q d nm v po h b =
      let (po', d', size', small', runs) =
        run-output syb s cur q nm v e out d po rest h b.small b.po_size in
      record {
        nm = nm;
        v = v;
        po = po';
        d = d';
        sized = record { nm_size = b.nm_size; v_size = b.v_size; po_size = size'; small = small' };
        nm_is = refl;
        v_is = refl;
        runs = runs;
      }

  -- White space behind a value that has ended, and what follows it.
  behind-Closed :
      (behind : Bytes) (out : Option OutputWord) (q d : ℕ) (nm v po : Bytes)
      → IsBlank behind
      → IsOutput out
      → Sized nm v po d
      → Closed (c_string nm) (c_string v) q (output_number syb (has_output out)) (
          parse_via_automaton syb
            (behind ++ print_output out (end_byte e ∷ rest))
            10
            (place s cur q nm v po 0 d))
  behind-Closed behind out q d nm v po hb h b =
      Closed-before
        (run-blanks syb 10 _ behind (print_output out (end_byte e ∷ rest)) refl b.small hb)
        (output-Closed out q d nm v po h b)

  -- The buffer of a value that was written and ended.
  value_ended :
      (nm v po w : Bytes) (i d : ℕ)
      → Sized nm v po d
      → length w < 1024
      → i ≡ length w
      → Sized nm (set (write v 0 w) i 0) po (i + 1)
  value_ended nm v po w i d b fits e = record {
    nm_size = b.nm_size;
    v_size = omega (arith, length-set (write v 0 w) i 0, length-write w v 0, b.v_size);
    po_size = b.po_size;
    small = omega arith;
  }

  module _ (t : Rpc) (q0 d : ℕ) (nm v po : Bytes)
      (opens : check_first_parm t ≡ place s cur q0 nm v po 0 d) (small : t.dest_ind ≤ 1024)
      (b : Sized nm v po d) where
    text-Closed :
        (w behind : Bytes) (out : Option OutputWord) (q i : ℕ) {run : Option (ℤ × Rpc)}
        → NoNul w
        → length w < 1024
        → i ≡ length w
        → IsBlank behind
        → IsOutput out
        → run
          ≡ parse_via_automaton syb
              (behind ++ print_output out (end_byte e ∷ rest))
              10
              (place s cur q nm (set (write v 0 w) i 0) po 0 (i + 1))
        → Closed (c_string nm) w q (output_number syb (has_output out)) run
    text-Closed w behind out q i z fits ei hb ho h =
        rw (c_string-write w v i z ei (omega (arith, b.v_size))) at (
          Closed-before h (
            behind-Closed behind out q (i + 1) nm (set (write v 0 w) i 0) po hb ho
              (value_ended nm v po w i d b fits ei)))

    plain-Closed :
        (labelled : Bool) (c : ℕ) (w behind : Bytes) (out : Option OutputWord)
        → Is (is_first labelled) c
        → All (Is is_plain) w
        → NoNul (c ∷ w)
        → length (c ∷ w) < 1024
        → IsBlank behind
        → IsOutput out
        → IsApart plain behind out
        → Closed (c_string nm) (c ∷ w) 0 (output_number syb (has_output out)) (
            parse_via_automaton syb
              (c ∷ (w ++ (behind ++ print_output out (end_byte e ∷ rest))))
              (value_level labelled)
              t)
    plain-Closed labelled c w [] (some out) hc hw z fits hb ho apart = absurd apart
    plain-Closed labelled c w [] none hc hw z fits hb ho apart = record {
      nm = nm;
      v = set (write v 0 (c ∷ w)) (1 + length w) 0;
      po = po;
      d = 1 + length w + 1;
      sized = value_ended nm v po (c ∷ w) (1 + length w) d b fits (omega arith);
      nm_is = refl;
      v_is = c_string-write (c ∷ w) v (1 + length w) z (omega arith) (omega (arith, b.v_size));
      runs =
          run-plain syb t s cur q0 nm v po 0 d opens small b.v_size labelled c w (end_byte e ∷ rest)
            hc hw fits
          ∙ end-at_8 syb s cur 0 nm e (write v 0 (c ∷ w)) po rest 0 (1 + length w)
              (omega (arith, length-write (c ∷ w) v 0, b.v_size))
              (omega (arith, length-write (c ∷ w) v 0, b.v_size));
    }
    plain-Closed labelled c w (x ∷ behind) out hc hw z fits (hx, hb) ho apart =
        text-Closed (c ∷ w) behind out 0 (1 + length w) z fits (omega arith) hb ho (
          run-plain syb t s cur q0 nm v po 0 d opens small b.v_size labelled c w _ hc hw fits
          ∙ round syb 8 10 5 106 x _ _ (behind ++ print_output out (end_byte e ∷ rest))
              (omega arith) (Byte-In blank x hx) (omega arith) refl
              (value_end syb s cur 0 nm po 0 106 x (1 + length w) (write v 0 (c ∷ w)) (inl refl)
                (omega (arith, length-write (c ∷ w) v 0, b.v_size))))

    pub value-Closed :
        (labelled : Bool) (quoting : Quoting) (text behind : Bytes) (out : Option OutputWord)
        → IsValue labelled quoting text
        → length text < 1024
        → IsBlank behind
        → IsOutput out
        → IsApart quoting behind out
        → Closed (c_string nm) text (quote_number quoting) (output_number syb (has_output out)) (
            parse_via_automaton syb
              (print_value quoting text (behind ++ print_output out (end_byte e ∷ rest)))
              (value_level labelled)
              t)
    value-Closed labelled quoted text behind out h fits hb ho apart =
        text-Closed text behind out 1 (0 + length text) (Is-NoNul is_quoted text refl h) fits
          (omega arith) hb ho
          (run-quoted syb t s cur q0 nm v po 0 d opens small b.v_size labelled text _ h fits)
    value-Closed labelled braced text behind out h fits hb ho apart =
        text-Closed text behind out 2 (0 + length text) (Is-NoNul is_braced text refl h) fits
          (omega arith) hb ho
          (run-braced syb t s cur q0 nm v po 0 d opens small b.v_size labelled text _ h fits)
    value-Closed labelled plain [] behind out h fits hb ho apart = absurd h
    value-Closed labelled plain (c ∷ w) behind out (hc, hw) fits hb ho apart =
        plain-Closed labelled c w behind out (Ascii-Is (is_first labelled) c hc)
          (All-Ascii-Is is_plain w hw)
          (
            Is-ne_nul (is_first labelled) c (first_nul labelled) hc.1,
            Is-NoNul is_plain w refl (All-Ascii-Is is_plain w hw),
          )
          fits hb ho apart
