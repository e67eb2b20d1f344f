-- ===== src/Rpc/Blocks.antt =====
-- `ct10rpc_free` of src/ct10api/ct10rpc_parse.c on what `ct10rpc_parse` has allocated.
use xmltp.Prelude.{
  ℕ, ◌+◌, ◌≡◌, refl, sym, ap, ap₂, ◌∙◌, Bool, Option, none, some, List, [], ◌∷◌, ◌++◌, arith,
  length, set, drop, replicate,
}
use mathlib.Core.List.{map}
use xmltp.Bytes.{Bytes}
use xmltp.Rpc.State.{Datatype, Format, Sybase, Parm}
use xmltp.Rpc.Parse.{RpcAnswer}
use xmltp.Rpc.Free.{Block, value, structure, free_loop, rpc_free}
use xmltp.Rpc.Spec.{Arg}
use xmltp.Rpc.Expected.{assemble, Makes, field}
use xmltp.Rpc.Call.{Gives}

value_in : Option Parm → Option Bytes
value_in none = none
value_in (some p) = p.p_val

assemble-value :
    (syb : Sybase) (name : Bytes) (output null : Bool) (t : Datatype) (len size : ℕ)
    (v : Option (Bytes × Format)) (p : Parm)
    → assemble syb name output (null, t) (len, size) v ≡ some p
    → (bytes : Bytes) × (p.p_val ≡ some bytes)
unfolding value_in
assemble-value syb name output null t len size none p e = cc
assemble-value syb name output null t len size (some (bytes, format)) p e =
    (bytes, ap value_in (sym e))

-- Each structure of a call has the buffer of its value.
Makes-values :
    (syb : Sybase) (args : List Arg) (ps : List Parm)
    → Makes syb args ps
    → (vals : List Bytes) × (map (λ (p : Parm). p.p_val) ps ≡ map some vals)
Makes-values syb [] [] h = ([], refl)
Makes-values syb [] (p ∷ ps) h = absurd h
Makes-values syb (a ∷ args) [] h = absurd h
Makes-values syb (a ∷ args) (p ∷ ps) (e, h) =
    let (v, q) = assemble-value syb _ _ _ _ _ _ _ p e in
    let (vs, qs) = Makes-values syb args ps h in (v ∷ vs, ap₂ ◌∷◌ q qs)

-- The blocks of structures with the buffers of their values.
abbrev pub blocks : List Bytes → List Parm → List Block
blocks (v ∷ vals) (p ∷ ps) = value v ∷ structure p ∷ blocks vals ps
blocks _ _ = []

length-blocks :
    (vals : List Bytes) (ps : List Parm)
    → map (λ (p : Parm). p.p_val) ps ≡ map some vals
    → length (blocks vals ps) ≡ length ps + length ps
length-blocks [] [] e = refl
length-blocks (v ∷ vals) [] e = cc
length-blocks [] (p ∷ ps) e = cc
length-blocks (v ∷ vals) (p ∷ ps) e =
    let tail : map (λ (q : Parm). q.p_val) ps ≡ map some vals = cc in
    omega (arith, length-blocks vals ps tail)

-- The blocks at the front of a table are freed.
free_loop-map-some :
    (vals : List Bytes) (ps : List Parm) (rest : List (Option Parm))
    → map (λ (p : Parm). p.p_val) ps ≡ map some vals
    → free_loop (length ps) (map some ps ++ rest)
      ≡ some (blocks vals ps, replicate (length ps) none ++ rest)
unfolding free_loop
free_loop-map-some [] [] rest e = refl
free_loop-map-some (v ∷ vals) [] rest e = cc
free_loop-map-some [] (p ∷ ps) rest e = cc
free_loop-map-some (v ∷ vals) (p ∷ ps) rest e =
    let head : p.p_val ≡ some v = cc in
    let tail : map (λ (q : Parm). q.p_val) ps ≡ map some vals = cc in
    rw (free_loop-map-some vals ps rest tail, head) refl

-- `ct10rpc_free` on what `ct10rpc_parse` gave back for a call: there is a buffer of a value for each
-- structure, and it frees for each parameter this buffer and then the structure, each once and
-- nothing else, which are as many blocks as calloc has given in the parse, leaves NULL in their
-- places and the rest of the table as it was, empties the name, and sets the count to 0.
pub rpc_free-Gives :
    (syb : Sybase) (args : List Arg) (a : RpcAnswer) (rpc_name name : Bytes) (size before : ℕ)
    (tbl : List (Option Parm)) (ps : List Parm)
    → Makes syb args ps
    → Gives a rpc_name name size before tbl ps
    → (vals : List Bytes) × (map (λ (p : Parm). p.p_val) ps ≡ map some vals)
      × (a.rpc.nb_blocks ≡ before + length (blocks vals ps))
      × (rpc_free a.rpc_name a.rpc.parm_tbl a.nb_parm
          ≡ some (record {
            freed = blocks vals ps;
            rpc_name = set (field name size ++ drop size rpc_name) 0 0;
            t_parm = replicate (length ps) none ++ drop (length ps) tbl;
            nb_parm = 0;
          }))
unfolding rpc_free
rpc_free-Gives syb args a rpc_name name size before tbl ps hm h =
    let (vals, e) = Makes-values syb args ps hm in
    (
      vals,
      e,
      omega (arith, h.blocks_are, length-blocks vals ps e),
      ap (λ (n : ℕ). rpc_free a.rpc_name a.rpc.parm_tbl n) h.nb_is
          ∙ ap (λ (t : List (Option Parm)). rpc_free a.rpc_name t (length ps)) h.table_is
          ∙ ap (λ (n : Bytes). rpc_free n (map some ps ++ drop (length ps) tbl) (length ps))
              h.name_is
          ∙ rw (free_loop-map-some vals ps (drop (length ps) tbl) e) refl,
    )
