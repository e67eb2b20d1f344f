-- ===== src/Rpc/Place.antt =====
-- The variables of src/ct10api/ct10rpc_parse.c inside a parameter, and the structure that
-- `ct10rpc_process_1_full_parm` makes from them.
use xmltp.Prelude.{
  ℕ, suc, ◌-◌, ◌<◌, ◌≡◌, ◌≢◌, refl, Bool, false, some, [], arith, ◌==◌, lt→ltb, length, set,
}
use xmltp.Bytes.{Bytes, c_string}
use xmltp.Rpc.State.{Datatype, Sybase, Parm, new_parm, Rpc, rpc_syntax_continue}
use xmltp.Rpc.Parm.{find_type, check_null, process_1_full_parm}
use xmltp.Rpc.Expected.{IsSybase, parm_with}
use xmltp.Rpc.Types.{typed}
use xmltp.Rpc.Describe.{set_size-sizes, output_number, described}

abbrev pub place : Rpc → (cur q : ℕ) → (nm v po : Bytes) → (o d : ℕ) → Rpc
place s cur q nm v po o d = record s {
  current_parm = cur;
  first_parm_ind = 0;
  quote_ind = q;
  p_parm_name = nm;
  p_parm_val = v;
  p_output_ind = po;
  output_ind = o;
  dest_ind = d;
  grants = [];
}

-- The table with a parameter at the place before `cur`, for which calloc has given two blocks.
abbrev pub with_parm : Rpc → ℕ → Parm → Rpc
with_parm s cur p = record s {
  parm_tbl = set s.parm_tbl (cur - 1) (some p);
  nb_blocks = suc (suc s.nb_blocks);
}

pub ==_false : (a : ℕ) → a ≢ 0 → (a == 0) ≡ false
==_false a h = ground arith

module _ (syb : Sybase) (room : IsSybase syb) where
  pub typed_parm :
      (s : Rpc) (cur q : ℕ) (nm v po : Bytes) (d : ℕ) (output : Bool) (k : Bool × Datatype)
      (text name : Bytes) {p : Parm}
      → cur ≢ 0
      → cur - 1 < length s.parm_tbl
      → c_string v ≡ text
      → c_string nm ≡ name
      → find_type text q (check_null text q new_parm) ≡ some (typed k)
      → parm_with syb name output text k ≡ some p
      → process_1_full_parm syb (place s cur q nm v po (output_number syb output) d)
        ≡ some (
          rpc_syntax_continue,
          place (with_parm s cur p) cur q (set nm 0 0) (set v 0 0) (set po 0 0) 0 d,
        )
  unfolding process_1_full_parm
  typed_parm s cur q nm v po d output (null, t) text name ne fits ev en kind made =
      rw
        (
          ==_false cur ne,
          lt→ltb (cur - 1) (length s.parm_tbl) fits,
          ev,
          en,
          kind,
          set_size-sizes syb null t text,
          described syb room name text null t output made,
        )
        refl
