-- ===== src/Rpc/Describe.antt =====
-- `ct10rpc_process_1_full_parm` against the description in Spec.
use xmltp.Prelude.{
  ℕ, ◌+◌, ◌<◌, ◌≡◌, refl, ap, Bool, true, false, Option, none, some, [], ◌∷◌, arith, ◌==◌,
  if◌then◌else◌, length, replicate,
}
use xmltp.Bytes.{Bytes, codes}
use xmltp.Rpc.State.{
  Datatype, cs_int_type, cs_float_type, cs_char_type, cs_datetime_type, Sybase, Parm, ct10strncpy,
  rpc_syntax_continue,
}
use xmltp.Rpc.Parm.{char_len, char_maxlength, set_size, with_name, describe, converted, with_status}
use xmltp.Rpc.Expected.{
  content, field, HasRoom, IsSybase, char_size, sizes_of, parm_with, assemble, as_unused,
}
use xmltp.Rpc.Types.{ct10strncpy-field, typed}

-- The sizes with the type.
abbrev pub sized : Bool × Datatype → ℕ × ℕ → Parm
sized k (len, maxlength) = record (typed k) { len = len; maxlength = maxlength }

char_len-content : (val : Bytes) → char_len val ≡ length (content val)
char_len-content [] = refl
char_len-content (c ∷ val) = ground arith

module _ (syb : Sybase) where
  char_maxlength-size :
      (m : Option ℕ) (val : Bytes) → char_maxlength m (char_len val) ≡ char_size syb m val
  char_maxlength-size none val = ap (λ k. k + 1) (char_len-content val)
  char_maxlength-size (some m) val = refl

  pub set_size-sizes :
      (null : Bool) (t : Datatype) (val : Bytes)
      → set_size syb val (typed (null, t)) (some t) ≡ some (sized (null, t) (sizes_of syb t val))
  set_size-sizes null cs_int_type val = refl
  set_size-sizes null cs_float_type val = refl
  set_size-sizes null cs_datetime_type val = refl
  set_size-sizes null cs_char_type val =
      rw (char_maxlength-size syb.max_char val, char_len-content val) refl

  pub char_size-positive : (m : Option ℕ) (val : Bytes) → HasRoom syb m → 0 < char_size syb m val
  char_size-positive none val h = omega arith
  char_size-positive (some m) val h = omega arith

  pub char_text : (val : Bytes) → (if length val == 0 then codes " " else val) ≡ content val
  char_text [] = refl
  char_text (c ∷ val) = ground arith

  -- What the buffer is filled from, before the value is copied.
  abbrev pub named : Bytes → Bytes → Bool × Datatype → Option Parm
  named name val (null, t) =
      with_name syb name
        (record (sized (null, t) (sizes_of syb t val)) {
          p_val = some (replicate (sizes_of syb t val).1 0);
        })
        (ct10strncpy name syb.max_name)

  abbrev pub output_number : Bool → ℕ
  output_number output = if output then 1 else 0

  module _ (room : IsSybase syb) (name val : Bytes) {p : Parm} where
    described-null :
        (output : Bool) (t : Datatype)
        → parm_with syb name output val (true, t) ≡ some p
        → describe syb val (output_number output) (named name val (true, t))
          ≡ some (rpc_syntax_continue, p)
    described-null true t h = rw (ct10strncpy-field name syb.max_name room.0) cc
    described-null false t h = rw (ct10strncpy-field name syb.max_name room.0) cc

    described-char :
        (output : Bool)
        → parm_with syb name output val (false, cs_char_type) ≡ some p
        → describe syb val (output_number output) (named name val (false, cs_char_type))
          ≡ some (rpc_syntax_continue, p)
    described-char true h =
        rw
          (
            ct10strncpy-field name syb.max_name room.0,
            char_text val,
            ct10strncpy-field (content val) (char_size syb syb.max_char val)
                (char_size-positive syb.max_char val room.1),
          )
          cc
    described-char false h =
        rw
          (
            ct10strncpy-field name syb.max_name room.0,
            char_text val,
            ct10strncpy-field (content val) (char_size syb syb.max_char val)
                (char_size-positive syb.max_char val room.1),
          )
          cc

    converted-assembled :
        (t : Datatype) (len size : ℕ) (output : Bool) (c : Option Bytes)
        → assemble syb name output (false, t) (len, size) (as_unused syb c) ≡ some p
        → some (
            converted syb
              (with_status syb (output_number output) (record (sized (false, t) (len, size)) {
                p_val = some (replicate size 0);
                name = field name syb.max_name;
                is_nullterm = if length name == 0 then false else true;
              }))
              c)
          ≡ some (rpc_syntax_continue, p)
    converted-assembled t len size output none h = cc
    converted-assembled t len size true (some b) h = cc
    converted-assembled t len size false (some b) h = cc

    pub described :
        (null : Bool) (t : Datatype) (output : Bool)
        → parm_with syb name output val (null, t) ≡ some p
        → describe syb val (output_number output) (named name val (null, t))
          ≡ some (rpc_syntax_continue, p)
    described true t output h = described-null output t h
    described false cs_char_type output h = described-char output h
    described false cs_int_type output h =
        rw (ct10strncpy-field name syb.max_name room.0)
          (converted-assembled cs_int_type 4 4 output (syb.cs_convert val cs_int_type 4) h)
    described false cs_float_type output h =
        rw (ct10strncpy-field name syb.max_name room.0)
          (converted-assembled cs_float_type 8 8 output (syb.cs_convert val cs_float_type 8) h)
    described false cs_datetime_type output h = rw (ct10strncpy-field name syb.max_name room.0) (
        converted-assembled cs_datetime_type 24 24 output (syb.cs_convert val cs_datetime_type 24)
          h)
