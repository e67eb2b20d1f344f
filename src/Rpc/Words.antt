-- ===== src/Rpc/Words.antt =====
-- Rounds of the automaton of src/ct10api/ct10rpc_parse.c over the parts of a call.
use xmltp.Prelude.{
  ℕ, ◌+◌, ◌≤◌, ◌<◌, ◌≡◌, ◌≢◌, refl, sym, ap, ◌∙◌, Bool, true, false, some, [], ◌∷◌, ◌++◌, arith,
  lt→ltb, length, set, All, pos, length-set,
}
use mathlib.Core.List.{map-id}
use xmltp.Bytes.{Bytes, NoNul}
use xmltp.Rpc.Table.{automaton_entry}
use xmltp.Rpc.State.{Sybase, Rpc, rpc_syntax_continue, check_first_parm}
use xmltp.Rpc.Parse.{parse_via_automaton, process_1_rpc_char}
use xmltp.Rpc.Steps.{In, Stays, write, round, run-word}
use xmltp.Rpc.Classes.{
  Class, column, class_of, class_of-In, Is, Byte, Is-Stays, blank, is_label, label_row, nul,
}
use xmltp.Rpc.Buffers.{length-write}
use xmltp.Rpc.Spec.{IsBlank, Label, IsLabel, print_label}
use xmltp.Rpc.Place.{place}

pub Byte-In : (k : Class) (c : ℕ) → Byte k c → In (column k) c
Byte-In k c (small, e) = rw e at (class_of-In c small)

true-ne-false : true ≡ false → ⊥
true-ne-false e = absurd cc

-- A kind without NUL.
pub Is-ne_nul : (p : Class → Bool) (c : ℕ) → p nul ≡ false → p (class_of c) ≡ true → c ≢ 0
unfolding class_of
Is-ne_nul p c n h e = let k : p nul ≡ true = rw e at h in true-ne-false (sym k ∙ n)

pub Is-NoNul : (p : Class → Bool) (w : Bytes) → p nul ≡ false → All (Is p) w → NoNul w
Is-NoNul p [] n h = tt
Is-NoNul p (c ∷ w) n ((_, e), h) = (Is-ne_nul p c n e, Is-NoNul p w n h)

pub Is-Stay :
    (l f : ℕ) (p : Class → Bool) (w : Bytes)
    → ((k : Class) → p k ≡ true → automaton_entry l (column k) ≡ (pos l, f))
    → All (Is p) w
    → All (Stays l f) w
Is-Stay l f p [] row h = tt
Is-Stay l f p (c ∷ w) row (x, h) = (Is-Stays l f p row c x, Is-Stay l f p w row h)

module _ (syb : Sybase) where
  -- A character that is skipped.
  pub skip_char :
      (l l' k c : ℕ) (s : Rpc) (rest : Bytes)
      → s.dest_ind ≤ 1024
      → In k c
      → k ≤ 13
      → automaton_entry l k ≡ (pos l', 0)
      → parse_via_automaton syb (c ∷ rest) l s ≡ parse_via_automaton syb rest l' s
  unfolding process_1_rpc_char
  skip_char l l' k c s rest small at h e = round syb l l' k 0 c s s rest small at h e refl

  -- White space on which the level stays.
  pub run-blanks :
      (l : ℕ) (s : Rpc) (w rest : Bytes)
      → automaton_entry l 5 ≡ (pos l, 0)
      → s.dest_ind ≤ 1024
      → IsBlank w
      → parse_via_automaton syb (w ++ rest) l s ≡ parse_via_automaton syb rest l s
  run-blanks l s [] rest e small h = refl
  run-blanks l s (c ∷ w) rest e small (b, h) =
      skip_char l l 5 c s (w ++ rest) small (Byte-In blank c b) (omega arith) e
      ∙ run-blanks l s w rest e small h

  module _ (s : Rpc) (cur q : ℕ) (v po : Bytes) (o : ℕ) where
    -- Level 5: the letters of a name behind its `@`.
    label_letter :
        (c i : ℕ) (buf : Bytes)
        → i < length buf
        → process_1_rpc_char syb 102 c (place s cur q buf v po o i)
          ≡ some (rpc_syntax_continue, place s cur q (set buf i c) v po o (i + 1))
    unfolding process_1_rpc_char
    label_letter c i buf h = rw (lt→ltb i (length buf) h) refl

    label_word :
        (w : Bytes) (i : ℕ) (buf rest : Bytes)
        → i + length w ≤ length buf
        → length buf ≤ 1024
        → All (Is is_label) w
        → parse_via_automaton syb (w ++ rest) 5 (place s cur q buf v po o i)
          ≡ parse_via_automaton syb rest 5 (place s cur q (write buf i w) v po o (i + length w))
    label_word w i buf rest fits small h =
        run-word syb 5 102 (λ c. c) (λ j b. place s cur q b v po o j) (λ j b. refl) label_letter w i
          buf rest fits small (Is-Stay 5 102 is_label w label_row h)
        ∙ ap
            (λ t.
              parse_via_automaton syb rest 5 (place s cur q (write buf i t) v po o (i + length w)))
            (map-id w)

    -- Functions 101 and 105.
    label_start :
        (t : Rpc) (nm : Bytes) (d : ℕ)
        → check_first_parm t ≡ place s cur q nm v po o d
        → 0 < length nm
        → process_1_rpc_char syb 101 b'@' t
          ≡ some (rpc_syntax_continue, place s cur q (set nm 0 b'@') v po o 1)
    unfolding process_1_rpc_char
    label_start t nm d opens h = rw (opens, lt→ltb 0 (length nm) h) refl

    label_end :
        (c i : ℕ) (buf : Bytes)
        → i < length buf
        → process_1_rpc_char syb 105 c (place s cur q buf v po o i)
          ≡ some (rpc_syntax_continue, place s cur q (set buf i 0) v po o i)
    unfolding process_1_rpc_char
    label_end c i buf h = rw (lt→ltb i (length buf) h) refl

    -- From the end of a name over the `=` to the value.
    run-equal :
        (b rest : Bytes) (i : ℕ) (buf : Bytes)
        → IsBlank b
        → i < length buf
        → length buf ≤ 1024
        → parse_via_automaton syb (b ++ b'=' ∷ rest) 5 (place s cur q buf v po o i)
          ≡ parse_via_automaton syb rest 7 (place s cur q (set buf i 0) v po o i)
    run-equal [] rest i buf h fits small =
        round syb 5 7 6 105 b'=' _ _ rest (omega arith) refl (omega arith) refl
          (label_end b'=' i buf fits)
    run-equal (c ∷ b) rest i buf (x, h) fits small =
        round syb 5 6 5 105 c _ _ (b ++ b'=' ∷ rest) (omega arith) (Byte-In blank c x) (omega arith)
          refl (label_end c i buf fits)
        ∙ run-blanks 6 _ b (b'=' ∷ rest) refl (omega arith) h
        ∙ skip_char 6 7 6 b'=' _ rest (omega arith) refl (omega arith) refl

    -- A label, from level 3 to the value.
    pub run-label :
        (t : Rpc) (l : Label) (nm rest : Bytes) (d : ℕ)
        → check_first_parm t ≡ place s cur q nm v po o d
        → t.dest_ind ≤ 1024
        → length nm ≡ 1024
        → IsLabel (some l)
        → parse_via_automaton syb (print_label (some l) rest) 3 t
          ≡ parse_via_automaton syb rest 7 (
              place s cur q
                (set (write nm 0 (b'@' ∷ l.word)) (1 + length l.word) 0)
                v
                po
                o
                (1 + length l.word))
    run-label t l nm rest d opens small size (letters, fits, before, after) =
        round syb 3 5 4 101 b'@' t _ _ small refl (omega arith) refl
          (label_start t nm d opens (omega arith))
        ∙ label_word l.word 1 (set nm 0 b'@') _ (omega (arith, length-set nm 0 b'@'))
            (omega (arith, length-set nm 0 b'@')) letters
        ∙ run-equal l.before_equal _ (1 + length l.word) _ before
            (omega (arith, length-set nm 0 b'@', length-write l.word (set nm 0 b'@') 1))
            (omega (arith, length-set nm 0 b'@', length-write l.word (set nm 0 b'@') 1))
        ∙ run-blanks 7 _ l.after_equal rest refl (omega arith) after
