-- ===== src/Rpc/RoundTrip.antt =====
-- `ct10rpc_parse` of the text of a call.
use xmltp.Prelude.{
  ℕ, ◌+◌, ◌≤◌, ◌<◌, ◌≡◌, refl, ap, ◌∙◌, true, Option, none, some, List, [], ◌∷◌, ◌++◌, arith,
  lt→ltb, length, set, All, ℤ, pos, neg, length-set,
}
use mathlib.Core.List.{map, map-id}
use xmltp.Bytes.{Bytes, c_string}
use xmltp.Rpc.Table.{automaton_entry}
use xmltp.Rpc.State.{Sybase, Parm, Rpc, rpc_syntax_continue}
use xmltp.Rpc.Parse.{parse_via_automaton, process_1_rpc_char, initialise}
use xmltp.Rpc.Steps.{ltb_not, write, step, round, run-word}
use xmltp.Rpc.Classes.{
  Class, column, class_of, class_of-In, column-le, Is, Byte, blank, is_label, is_name, name_row,
}
use xmltp.Rpc.Buffers.{length-write, c_string-write, c_string-cleared}
use xmltp.Rpc.Spec.{Arg, print_args, IsBlank, IsArg, RpcCall, print_parms, print_call, IsRpcCall}
use xmltp.Rpc.Expected.{IsSybase, Makes}
use xmltp.Rpc.Words.{Byte-In, Is-ne_nul, Is-NoNul, Is-Stay, run-blanks}
use xmltp.Rpc.Runs.{args-Parsed}

label_start_row : (k : Class) → is_label k ≡ true → automaton_entry 0 (column k) ≡ (pos 1, 100)
label_start_row Class.letter h = refl
label_start_row Class.digit h = refl
label_start_row _ h = cc

module _ (syb : Sybase) (s : Rpc) where
  abbrev naming : ℕ → Bytes → Rpc
  naming i buf = record s { p_rpc_name = buf; dest_ind = i }

  name_letter :
      (c i : ℕ) (buf : Bytes)
      → i < length buf
      → process_1_rpc_char syb 100 c (naming i buf)
        ≡ some (rpc_syntax_continue, naming (i + 1) (set buf i c))
  unfolding process_1_rpc_char
  name_letter c i buf h = rw (lt→ltb i (length buf) h) refl

  name_end :
      (c i : ℕ) (buf : Bytes)
      → i < length buf
      → process_1_rpc_char syb 116 c (naming i buf)
        ≡ some (rpc_syntax_continue, naming i (set buf i 0))
  unfolding process_1_rpc_char
  name_end c i buf h = rw (lt→ltb i (length buf) h) refl

  -- White space and the letters of the name, from level 0.
  run-name :
      (lead name : Bytes) (c : ℕ) (buf rest : Bytes)
      → IsBlank lead
      → Is is_label c
      → All (Is is_name) name
      → length buf ≡ 1024
      → length (c ∷ name) ≤ 1024
      → parse_via_automaton syb (lead ++ c ∷ (name ++ rest)) 0 (naming 0 buf)
        ≡ parse_via_automaton syb rest 1 (naming (1 + length name) (write buf 0 (c ∷ name)))
  run-name lead name c buf rest hl (b, hc) hn size fits =
      run-blanks syb 0 (naming 0 buf) lead (c ∷ (name ++ rest)) refl (omega arith) hl
      ∙ round syb 0 1 (column (class_of c)) 100 c (naming 0 buf) (naming (0 + 1) (set buf 0 c))
          (name ++ rest) (omega arith) (class_of-In c b) (column-le (class_of c))
          (label_start_row (class_of c) hc) (name_letter c 0 buf (omega arith))
      ∙ run-word syb 1 100 (λ x. x) naming (λ j x. refl) name_letter name 1 (set buf 0 c) rest
          (omega (arith, length-set buf 0 c)) (omega (arith, length-set buf 0 c))
          (Is-Stay 1 100 is_name name name_row hn)
      ∙ ap
          (λ t. parse_via_automaton syb rest 1 (naming (1 + length name) (write (set buf 0 c) 1 t)))
          (map-id name)

-- The variables between two calls: the sizes of the buffers, and memory that is found.
pub record IsIdle (s : Rpc) : Type 0 where
  pub rpc_name_size : length s.p_rpc_name ≡ 1024
  pub parm_name_size : length s.p_parm_name ≡ 1024
  pub parm_val_size : length s.p_parm_val ≡ 1024
  pub output_ind_size : length s.p_output_ind ≡ 1024
  pub memory : s.grants ≡ []

-- What `ct10rpc_parse_via_automaton` returns for a call.
-- A name whose first 1,024 letters fill its buffer is written on behind it, since the test at the
-- head of the loop lets an index of 1,024 pass; for the letters that a name may have.
pub name_overflow :
    (syb : Sybase) (s : Rpc) (tbl : List (Option Parm)) (lead name : Bytes) (c x : ℕ) (rest : Bytes)
    → length s.p_rpc_name ≡ 1024
    → IsBlank lead
    → Is is_label c
    → All (Is is_name) name
    → Is is_name x
    → length (c ∷ name) ≡ 1024
    → parse_via_automaton syb (lead ++ c ∷ (name ++ x ∷ rest)) 0 (initialise syb tbl (length tbl) s)
      ≡ none
unfolding process_1_rpc_char
name_overflow syb s tbl lead name c x rest size hl hc hn (hb, hx) full =
    let begun = initialise syb tbl (length tbl) s in
    let buf = write (set s.p_rpc_name 0 0) 0 (c ∷ name) in
    run-name syb begun lead name c (set s.p_rpc_name 0 0) (x ∷ rest) hl hc hn
      (length-set s.p_rpc_name 0 0 ∙ size) (omega arith)
    ∙ step syb 1 (column (class_of x)) 100 x (pos 1) (naming syb begun (1 + length name) buf) rest
        (omega arith) (class_of-In x hb) (column-le (class_of x)) (name_row (class_of x) hx)
    ∙ rw
        (ltb_not (1 + length name) (length buf) (
          omega
            (arith, length-write (c ∷ name) (set s.p_rpc_name 0 0) 0, length-set s.p_rpc_name 0 0)))
        refl

pub record CallParsed (tbl : List (Option Parm)) (blocks : ℕ) (name : Bytes) (ps : List Parm)
    (run : Option (ℤ × Rpc)) : Type 0 where
  pub final : Rpc
  pub runs : run ≡ some (neg 999, final)
  pub table : final.parm_tbl ≡ write tbl 0 (map some ps)
  pub count : final.current_parm ≡ length ps
  pub name_is : c_string final.p_rpc_name ≡ name
  pub blocks_are : final.nb_blocks ≡ blocks + (length ps + length ps)

module _ (syb : Sybase) (room : IsSybase syb) (s : Rpc) (idle : IsIdle s)
    (tbl : List (Option Parm)) where
  abbrev begun : Rpc
  begun = initialise syb tbl (length tbl) s

  parms-CallParsed :
      (gap i : ℕ) (args : List Arg) (ps : List Parm) (buf name : Bytes)
      → Byte blank gap
      → All IsArg args
      → Makes syb args ps
      → length args ≤ length tbl
      → length buf ≡ 1024
      → i < 1024
      → c_string (set buf i 0) ≡ name
      → CallParsed tbl s.nb_blocks name ps
          (parse_via_automaton syb (print_parms gap args) 1 (naming syb begun i buf))
  parms-CallParsed gap i [] (p ∷ ps) buf name hg h m fits size small e = absurd m
  parms-CallParsed gap i (a ∷ args) [] buf name hg h m fits size small e = absurd m
  parms-CallParsed gap i [] [] buf name hg h m fits size small e = record {
    final = naming syb begun i (set buf i 0);
    runs =
        step syb 1 9 116 0 (neg 999) (naming syb begun i buf) [] (omega arith) refl (omega arith)
          refl
        ∙ (rw (name_end syb begun 0 i buf (omega arith)) refl);
    table = refl;
    count = refl;
    name_is = e;
    blocks_are = omega arith;
  }
  parms-CallParsed gap i (a ∷ args) (p ∷ ps) buf name hg h m fits size small e =
      let t = naming syb begun i (set buf i 0) in
      let r =
        args-Parsed syb room args a p ps t t 1 t.quote_ind i t.p_parm_name t.p_parm_val
          t.p_output_ind
          (ap (λ g. record t { current_parm = 1; first_parm_ind = 0; grants = g }) idle.memory)
          (omega arith)
          (record {
            nm_size = length-set s.p_parm_name 0 0 ∙ idle.parm_name_size;
            v_size = length-set s.p_parm_val 0 0 ∙ idle.parm_val_size;
            po_size = length-set s.p_output_ind 0 0 ∙ idle.output_ind_size;
            small = omega arith;
          })
          (c_string-cleared s.p_parm_name) (omega arith) (omega arith) refl h m in
      record {
        final = r.final;
        runs =
            round syb 1 3 5 116 gap (naming syb begun i buf) t (print_args a args) (omega arith)
              (Byte-In blank gap hg) (omega arith) refl (name_end syb begun gap i buf (omega arith))
            ∙ r.runs;
        table = r.table;
        count = omega (arith, r.count);
        name_is = ap c_string r.name_kept ∙ e;
        blocks_are = r.blocks_are;
      }

  pub call-CallParsed :
      (c : RpcCall) (ps : List Parm)
      → IsRpcCall c
      → Makes syb c.args ps
      → length c.args ≤ length tbl
      → CallParsed tbl s.nb_blocks
          (c.first ∷ c.name)
          ps
          (parse_via_automaton syb (print_call c) 0 begun)
  call-CallParsed c ps h m fits =
      let n =
        parms-CallParsed c.gap (1 + length c.name) c.args ps
          (write (set s.p_rpc_name 0 0) 0 (c.first ∷ c.name)) (c.first ∷ c.name) h.gap_blank
          h.args_lem m fits
          (length-write (c.first ∷ c.name) (set s.p_rpc_name 0 0) 0
            ∙ length-set s.p_rpc_name 0 0
            ∙ idle.rpc_name_size)
          (omega (arith, h.name_fits))
          (c_string-write (c.first ∷ c.name) (set s.p_rpc_name 0 0) (1 + length c.name)
            (Is-ne_nul is_label c.first refl h.first_lem.1, Is-NoNul is_name c.name refl h.name_lem)
            (omega arith)
            (omega (arith, h.name_fits, length-set s.p_rpc_name 0 0, idle.rpc_name_size))) in
      record {
        final = n.final;
        runs =
            run-name syb begun c.lead c.name c.first (set s.p_rpc_name 0 0)
              (print_parms c.gap c.args) h.lead_blank h.first_lem h.name_lem
              (length-set s.p_rpc_name 0 0 ∙ idle.rpc_name_size) (omega (arith, h.name_fits))
            ∙ n.runs;
        table = n.table;
        count = n.count;
        name_is = n.name_is;
        blocks_are = n.blocks_are;
      }
