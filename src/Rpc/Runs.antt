-- ===== src/Rpc/Runs.antt =====
-- The parameters of a call, through the automaton of src/ct10api/ct10rpc_parse.c.
use xmltp.Prelude.{
  ℕ, ◌+◌, ◌-◌, ◌≤◌, ◌<◌, ◌≡◌, ◌≢◌, refl, sym, ap, ◌∙◌, Bool, false, Option, some, List, [], ◌∷◌,
  arith, leb, length, set, All, ℤ, neg, length-set,
}
use mathlib.Core.List.{map}
use xmltp.Bytes.{Bytes, c_string}
use xmltp.NumString.Accepts.{Ascii}
use xmltp.Rpc.State.{Sybase, Parm, Rpc, check_first_parm, rpc_syntax_continue}
use xmltp.Rpc.Parm.{process_1_full_parm}
use xmltp.Rpc.Parse.{parse_via_automaton}
use xmltp.Rpc.Steps.{write}
use xmltp.Rpc.Classes.{Class, nul, is_plain, is_first}
use xmltp.Rpc.Buffers.{c_string-cleared}
use xmltp.Rpc.Spec.{
  Quoting, plain, quoted, braced, Arg, print_args, IsAscii, IsValue, is_labelled, IsArg,
}
use xmltp.Rpc.Expected.{parm_of, type_of, name_of, has_output, quote_number, IsSybase, Makes}
use xmltp.Rpc.Types.{IsRead, find_type-kinds}
use xmltp.Rpc.Describe.{output_number}
use xmltp.Rpc.Place.{place, with_parm, typed_parm}
use xmltp.Rpc.Words.{Is-ne_nul}
use xmltp.Rpc.Ends.{End, at_comma, at_nul}
use xmltp.Rpc.Args.{Sized, Closed, first_nul}
use xmltp.Rpc.Labels.{arg-Closed}

Ascii-chars : (p : Class → Bool) (w : Bytes) → p nul ≡ false → All (IsAscii p) w → Ascii w
Ascii-chars p [] n h = tt
Ascii-chars p (c ∷ w) n ((l, k), h) = ((l, Is-ne_nul p c n k), Ascii-chars p w n h)

IsValue-IsRead :
    (labelled : Bool) (q : Quoting) (text : Bytes) → IsValue labelled q text → IsRead q text
IsValue-IsRead labelled plain [] h = absurd h
IsValue-IsRead labelled plain (c ∷ w) ((l, k), h) =
    ((l, Is-ne_nul (is_first labelled) c (first_nul labelled) k), Ascii-chars is_plain w refl h)
IsValue-IsRead labelled quoted text h = tt
IsValue-IsRead labelled braced text h = tt

module _ (syb : Sybase) (room : IsSybase syb) where
  -- What the end of a parameter makes of it.
  made :
      (s : Rpc) (cur : ℕ) (e : End) (rest : Bytes) (a : Arg) (p : Parm) (run : Option (ℤ × Rpc))
      → (c : Closed syb s cur e rest
          (name_of a.label)
          a.text
          (quote_number a.quoting)
          (output_number syb (has_output a.output))
          run)
      → IsArg a
      → cur ≢ 0
      → cur - 1 < length s.parm_tbl
      → parm_of syb a ≡ some p
      → process_1_full_parm syb (
          place s cur
            (quote_number a.quoting)
            c.nm
            c.v
            c.po
            (output_number syb (has_output a.output))
            c.d)
        ≡ some (
          rpc_syntax_continue,
          place
              (with_parm s cur p)
              cur
              (quote_number a.quoting)
              (set c.nm 0 0)
              (set c.v 0 0)
              (set c.po 0 0)
              0
              c.d,
        )
  made s cur e rest a p run c h ne fits makes =
      typed_parm syb room s cur (quote_number a.quoting) c.nm c.v c.po c.d (has_output a.output)
        (type_of a.quoting a.text) a.text (name_of a.label) ne fits c.v_is c.nm_is
        (find_type-kinds a.quoting a.text
          (IsValue-IsRead (is_labelled a.label) a.quoting a.text h.value_lem))
        makes

  -- A run that ends well, with the parameters at their places in the table.
  pub record Parsed (s : Rpc) (cur : ℕ) (ps : List Parm) (run : Option (ℤ × Rpc)) : Type 0 where
    pub final : Rpc
    pub runs : run ≡ some (neg 999, final)
    pub table : final.parm_tbl ≡ write s.parm_tbl (cur - 1) (map some ps)
    pub count : final.current_parm + 1 ≡ cur + length ps
    pub name_kept : final.p_rpc_name ≡ s.p_rpc_name
    pub blocks_are : final.nb_blocks ≡ s.nb_blocks + (length ps + length ps)

  leb_not : (a b : ℕ) → b < a → leb a b ≡ false
  leb_not a b h = ground arith

  pub args-Parsed :
      (args : List Arg) (a : Arg) (p : Parm) (ps : List Parm) (t s : Rpc) (cur q d : ℕ)
      (nm v po : Bytes)
      → check_first_parm t ≡ place s cur q nm v po 0 d
      → t.dest_ind ≤ 1024
      → Sized nm v po d
      → c_string nm ≡ []
      → cur ≢ 0
      → cur + length args ≤ length s.parm_tbl
      → s.parm_tbl_size ≡ length s.parm_tbl
      → All IsArg (a ∷ args)
      → Makes syb (a ∷ args) (p ∷ ps)
      → Parsed s cur (p ∷ ps) (parse_via_automaton syb (print_args a args) 3 t)
  args-Parsed [] a p [] t s cur q d nm v po opens small b clear ne fits size (h, _) (m, _) =
      let c = arg-Closed syb s cur at_nul [] t a q d nm v po opens small b clear h in
      record {
        final =
            place (with_parm s cur p) cur (quote_number a.quoting) (set c.nm 0 0) (set c.v 0 0)
              (set c.po 0 0) 0 c.d;
        runs = c.runs ∙ (rw (made s cur at_nul [] a p _ c h ne (omega arith) m) refl);
        table = refl;
        count = refl;
        name_kept = refl;
        blocks_are = omega arith;
      }
  args-Parsed [] a p (p' ∷ ps) t s cur q d nm v po opens small b clear ne fits size h (_, m) =
      absurd m
  args-Parsed (a' ∷ args) a p [] t s cur q d nm v po opens small b clear ne fits size h (_, m) =
      absurd m
  args-Parsed (a' ∷ args) a p (p' ∷ ps) t s cur q d nm v po opens small b clear ne fits size (h, hs)
        (m, ms) =
      let c =
        arg-Closed syb s cur at_comma (print_args a' args) t a q d nm v po opens small b clear h in
      let next =
        args-Parsed args a' p' ps
          (place (with_parm s cur p) (cur + 1) (quote_number a.quoting) (set c.nm 0 0) (set c.v 0 0)
            (set c.po 0 0) 0 c.d)
          (with_parm s cur p) (cur + 1) (quote_number a.quoting) c.d (set c.nm 0 0) (set c.v 0 0)
          (set c.po 0 0) refl c.sized.small
          (record {
            nm_size = length-set c.nm 0 0 ∙ c.sized.nm_size;
            v_size = length-set c.v 0 0 ∙ c.sized.v_size;
            po_size = length-set c.po 0 0 ∙ c.sized.po_size;
            small = c.sized.small;
          })
          (c_string-cleared c.nm) (omega arith)
          (omega (arith, length-set s.parm_tbl (cur - 1) (some p)))
          (size ∙ sym (length-set s.parm_tbl (cur - 1) (some p))) hs ms in
      record {
        final = next.final;
        runs =
            c.runs
            ∙ (rw
                (
                  made s cur at_comma (print_args a' args) a p _ c h ne (omega arith) m,
                  leb_not s.parm_tbl_size cur (omega (arith, size)),
                )
                refl)
            ∙ next.runs;
        table =
            next.table
            ∙ ap (λ (j : ℕ). write (set s.parm_tbl (cur - 1) (some p)) j (map some (p' ∷ ps)))
                (omega arith);
        count = omega (arith, next.count);
        name_kept = next.name_kept;
        blocks_are = omega (arith, next.blocks_are);
      }
