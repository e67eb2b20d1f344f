-- ===== src/Rpc/Values.antt =====
-- The rounds of the automaton of src/ct10api/ct10rpc_parse.c over a value and what follows it.
use xmltp.Prelude.{
  ◌⊎◌, inl, inr, if◌then◌else◌, ℕ, ◌+◌, ◌≤◌, ◌<◌, ◌≡◌, refl, ap, ◌∙◌, Bool, true, false, some, ◌∷◌,
  ◌++◌, arith, lt→ltb, length, set, All, pos, length-set,
}
use mathlib.Core.List.{map-id}
use xmltp.Bytes.{Bytes}
use xmltp.Rpc.Table.{automaton_entry}
use xmltp.Rpc.State.{Sybase, Rpc, rpc_syntax_continue, check_first_parm}
use xmltp.Rpc.Parse.{parse_via_automaton, process_1_rpc_char}
use xmltp.Rpc.Steps.{write, round, run-word}
use xmltp.Rpc.Classes.{
  Class, column, class_of, class_of-In, column-le, Is, is_plain, is_first, is_quoted, is_braced,
  plain_row, quoted_row, braced_row, first_row, labelled_row,
}
use xmltp.Rpc.Buffers.{length-write}
use xmltp.Rpc.Place.{place}
use xmltp.Rpc.Words.{Is-Stay}

-- The level in which a value starts: behind its label or without one.
abbrev pub value_level : Bool → ℕ
value_level labelled = if labelled then 7 else 3

first_entry :
    (labelled : Bool) (k : Class)
    → is_first labelled k ≡ true
    → automaton_entry (value_level labelled) (column k) ≡ (pos 8, 103)
first_entry true k h = labelled_row k h
first_entry false k h = first_row k h

quote_entry : (labelled : Bool) → automaton_entry (value_level labelled) 7 ≡ (pos 9, 108)
quote_entry true = refl
quote_entry false = refl

brace_entry : (labelled : Bool) → automaton_entry (value_level labelled) 11 ≡ (pos 13, 117)
brace_entry true = refl
brace_entry false = refl

module _ (syb : Sybase) (s : Rpc) (cur q : ℕ) (nm po : Bytes) (o : ℕ) where
  value_letter :
      (f c i : ℕ) (buf : Bytes)
      → (f ≡ 104) ⊎ (f ≡ 107)
      → i < length buf
      → process_1_rpc_char syb f c (place s cur q nm buf po o i)
        ≡ some (rpc_syntax_continue, place s cur q nm (set buf i c) po o (i + 1))
  unfolding process_1_rpc_char
  value_letter f c i buf (inl e) h = rw (e, lt→ltb i (length buf) h) refl
  value_letter f c i buf (inr e) h = rw (e, lt→ltb i (length buf) h) refl

  pub value_end :
      (f c i : ℕ) (buf : Bytes)
      → (f ≡ 106) ⊎ (f ≡ 109)
      → i < length buf
      → process_1_rpc_char syb f c (place s cur q nm buf po o i)
        ≡ some (rpc_syntax_continue, place s cur q nm (set buf i 0) po o (i + 1))
  unfolding process_1_rpc_char
  value_end f c i buf (inl e) h = rw (e, lt→ltb i (length buf) h) refl
  value_end f c i buf (inr e) h = rw (e, lt→ltb i (length buf) h) refl

  value_word :
      (l f : ℕ) (p : Class → Bool) (w : Bytes) (i : ℕ) (buf rest : Bytes)
      → (f ≡ 104) ⊎ (f ≡ 107)
      → ((k : Class) → p k ≡ true → automaton_entry l (column k) ≡ (pos l, f))
      → i + length w ≤ length buf
      → length buf ≤ 1024
      → All (Is p) w
      → parse_via_automaton syb (w ++ rest) l (place s cur q nm buf po o i)
        ≡ parse_via_automaton syb rest l (place s cur q nm (write buf i w) po o (i + length w))
  value_word l f p w i buf rest is row fits small h =
      run-word syb l f (λ c. c) (λ j b. place s cur q nm b po o j) (λ j b. refl)
        (λ c j b. value_letter f c j b is) w i buf rest fits small (Is-Stay l f p w row h)
      ∙ ap
          (λ t.
            parse_via_automaton syb rest l (place s cur q nm (write buf i t) po o (i + length w)))
          (map-id w)

module _ (syb : Sybase) (t s : Rpc) (cur q : ℕ) (nm v po : Bytes) (o d : ℕ)
    (opens : check_first_parm t ≡ place s cur q nm v po o d) (small : t.dest_ind ≤ 1024)
    (size : length v ≡ 1024) where
  first_letter :
      (c : ℕ)
      → process_1_rpc_char syb 103 c t
        ≡ some (rpc_syntax_continue, place s cur 0 nm (set v 0 c) po o 1)
  unfolding process_1_rpc_char
  first_letter c = rw (opens, lt→ltb 0 (length v) (omega arith)) refl

  first_quote :
      (c : ℕ)
      → process_1_rpc_char syb 108 c t ≡ some (rpc_syntax_continue, place s cur 1 nm v po o 0)
  unfolding process_1_rpc_char
  first_quote c = rw opens refl

  first_brace :
      (c : ℕ)
      → process_1_rpc_char syb 117 c t ≡ some (rpc_syntax_continue, place s cur 2 nm v po o 0)
  unfolding process_1_rpc_char
  first_brace c = rw opens refl

  -- A value without quotes, up to what ends it.
  pub run-plain :
      (labelled : Bool) (c : ℕ) (w rest : Bytes)
      → Is (is_first labelled) c
      → All (Is is_plain) w
      → length (c ∷ w) < 1024
      → parse_via_automaton syb (c ∷ (w ++ rest)) (value_level labelled) t
        ≡ parse_via_automaton syb rest 8 (place s cur 0 nm (write v 0 (c ∷ w)) po o (1 + length w))
  run-plain labelled c w rest (b, h) hs fits =
      round syb (value_level labelled) 8 (column (class_of c)) 103 c t _ (w ++ rest) small
        (class_of-In c b) (column-le (class_of c)) (first_entry labelled (class_of c) h)
        (first_letter c)
      ∙ value_word syb s cur 0 nm po o 8 104 is_plain w 1 (set v 0 c) rest (inl refl) plain_row
          (omega (arith, length-set v 0 c)) (omega (arith, length-set v 0 c)) hs

  -- A value in quotes or braces, with what closes it.
  pub run-quoted :
      (labelled : Bool) (w rest : Bytes)
      → All (Is is_quoted) w
      → length w < 1024
      → parse_via_automaton syb (b'"' ∷ (w ++ b'"' ∷ rest)) (value_level labelled) t
        ≡ parse_via_automaton syb rest 10
            (place s cur 1 nm (set (write v 0 w) (0 + length w) 0) po o (0 + length w + 1))
  run-quoted labelled w rest hs fits =
      round syb (value_level labelled) 9 7 108 b'"' t _ _ small refl (omega arith)
        (quote_entry labelled) (first_quote b'"')
      ∙ value_word syb s cur 1 nm po o 9 107 is_quoted w 0 v _ (inr refl) quoted_row (omega arith)
          (omega arith) hs
      ∙ round syb 9 10 7 109 b'"' _ _ rest (omega arith) refl (omega arith) refl (
          value_end syb s cur 1 nm po o 109 b'"' (0 + length w) (write v 0 w) (inr refl)
            (omega (arith, length-write w v 0)))

  pub run-braced :
      (labelled : Bool) (w rest : Bytes)
      → All (Is is_braced) w
      → length w < 1024
      → parse_via_automaton syb (b'{' ∷ (w ++ b'}' ∷ rest)) (value_level labelled) t
        ≡ parse_via_automaton syb rest 10
            (place s cur 2 nm (set (write v 0 w) (0 + length w) 0) po o (0 + length w + 1))
  run-braced labelled w rest hs fits =
      round syb (value_level labelled) 13 11 117 b'{' t _ _ small refl (omega arith)
        (brace_entry labelled) (first_brace b'{')
      ∙ value_word syb s cur 2 nm po o 13 107 is_braced w 0 v _ (inr refl) braced_row (omega arith)
          (omega arith) hs
      ∙ round syb 13 10 12 109 b'}' _ _ rest (omega arith) refl (omega arith) refl (
          value_end syb s cur 2 nm po o 109 b'}' (0 + length w) (write v 0 w) (inr refl)
            (omega (arith, length-write w v 0)))
