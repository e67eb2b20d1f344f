-- ===== src/Rpc/State.antt =====
-- The static variables of src/ct10api/ct10rpc_parse.c, the structures that it fills, and the
-- functions that process one character. Sybase's constants and its function cs_convert, which the
-- repository does not hold, are the record `Sybase`.
use xmltp.Prelude.{
  ℕ, zero, suc, ◌+◌, ◌-◌, Bool, false, Option, none, some, List, [], ◌++◌, ◌==◌, leb, ltb,
  if◌then◌else◌, length, set, take, replicate, ℤ, pos, neg,
}
use xmltp.Bytes.{Bytes, codes, strcmp_eq}

abbrev pub rpc_maxsize : ℕ
rpc_maxsize = 1024

abbrev pub rpc_syntax_ok : ℤ
rpc_syntax_ok = neg 999

abbrev pub rpc_syntax_error_rpc : ℤ
rpc_syntax_error_rpc = neg 1

abbrev pub rpc_syntax_error_parm : ℤ
rpc_syntax_error_parm = neg 2

abbrev pub rpc_syntax_fail : ℤ
rpc_syntax_fail = neg 10

abbrev pub rpc_syntax_continue : ℤ
rpc_syntax_continue = pos 0

pub data Datatype : Type 0 where
  cs_int_type cs_float_type cs_char_type cs_datetime_type : Datatype

-- The values of `fmt.namelen` and `fmt.format`; `unset` is what calloc leaves there.
pub data Format : Type 0 where
  unset cs_fmt_unused cs_fmt_nullterm : Format

pub data Status : Type 0 where
  no_status cs_inputvalue cs_return : Status

pub record Sybase : Type 0 where
  -- CS_MAX_NAME
  pub max_name : ℕ
  -- CS_MAX_CHAR, where CS_VERSION_120 is defined
  pub max_char : Option ℕ
  -- The bytes that cs_convert makes of a text for a type in a buffer of a size, or CS_FAIL.
  pub cs_convert : Bytes → Datatype → ℕ → Option Bytes

-- CT10_DATA_XDEF_T, with the fields of its CS_DATAFMT
pub record Parm : Type 0 where
  pub count : ℕ
  pub null_ind : ℤ
  pub datatype : Option Datatype
  pub len : ℕ
  pub maxlength : ℕ
  pub p_val : Option Bytes
  pub name : Bytes
  pub is_nullterm : Bool
  pub status : Status
  pub format : Format

-- `calloc(1, sizeof(CT10_DATA_XDEF_T))` with the first two assignments behind it.
abbrev pub new_parm : Parm
new_parm = record {
  count = 1;
  null_ind = pos 0;
  datatype = none;
  len = 0;
  maxlength = 0;
  p_val = none;
  name = [];
  is_nullterm = false;
  status = no_status;
  format = unset;
}

-- The static variables; `grants` is what the next calls of calloc answer, and behind the last one
-- memory is found; `nb_blocks` counts the blocks that calloc has given.
pub record Rpc : Type 0 where
  pub parm_tbl : List (Option Parm)
  pub parm_tbl_size : ℕ
  pub current_parm : ℕ
  pub first_parm_ind : ℕ
  pub quote_ind : ℕ
  pub p_rpc_name : Bytes
  pub p_parm_name : Bytes
  pub p_parm_val : Bytes
  pub p_output_ind : Bytes
  pub dest_ind : ℕ
  pub output_ind : ℕ
  pub grants : List Bool
  pub nb_blocks : ℕ

-- `buf[i] = c`
abbrev pub put_char : Bytes → ℕ → ℕ → Option Bytes
put_char buf i c = if ltb i (length buf) then some (set buf i c) else none

abbrev pub with_rpc_name : Rpc → Option Bytes → Option Rpc
with_rpc_name s none = none
with_rpc_name s (some buf) = some (record s { p_rpc_name = buf })

abbrev pub with_parm_name : Rpc → Option Bytes → Option Rpc
with_parm_name s none = none
with_parm_name s (some buf) = some (record s { p_parm_name = buf })

abbrev pub with_parm_val : Rpc → Option Bytes → Option Rpc
with_parm_val s none = none
with_parm_val s (some buf) = some (record s { p_parm_val = buf })

abbrev pub with_output_ind : Rpc → Option Bytes → Option Rpc
with_output_ind s none = none
with_output_ind s (some buf) = some (record s { p_output_ind = buf })

-- `dest_ind++`, which every write that has one does behind it.
abbrev pub advance : Option Rpc → Option Rpc
advance none = none
advance (some s) = some (record s { dest_ind = s.dest_ind + 1 })

abbrev pub process_rpc_name_char : ℕ → Rpc → Option Rpc
process_rpc_name_char c s = advance (with_rpc_name s (put_char s.p_rpc_name s.dest_ind c))

abbrev pub process_end_rpc_name : Rpc → Option Rpc
process_end_rpc_name s = with_rpc_name s (put_char s.p_rpc_name s.dest_ind 0)

abbrev pub check_first_parm : Rpc → Rpc
check_first_parm s =
    if s.first_parm_ind == 1 then record s { current_parm = 1; first_parm_ind = 0 } else s

abbrev pub process_next_parm_name_letter : ℕ → Rpc → Option Rpc
process_next_parm_name_letter c s = advance (with_parm_name s (put_char s.p_parm_name s.dest_ind c))

abbrev pub process_first_parm_name_letter : ℕ → Rpc → Option Rpc
process_first_parm_name_letter c s =
    process_next_parm_name_letter c (record (check_first_parm s) { dest_ind = 0 })

abbrev pub process_end_parm_name : Rpc → Option Rpc
process_end_parm_name s = with_parm_name s (put_char s.p_parm_name s.dest_ind 0)

abbrev pub process_next_value_letter : ℕ → Rpc → Option Rpc
process_next_value_letter c s = advance (with_parm_val s (put_char s.p_parm_val s.dest_ind c))

abbrev pub process_first_value_letter : ℕ → Rpc → Option Rpc
process_first_value_letter c s =
    process_next_value_letter c (record (check_first_parm s) { quote_ind = 0; dest_ind = 0 })

abbrev pub process_first_quote : Rpc → Rpc
process_first_quote s = record (check_first_parm s) { quote_ind = 1; dest_ind = 0 }

abbrev pub process_first_date_quote : Rpc → Rpc
process_first_date_quote s = record (check_first_parm s) { quote_ind = 2; dest_ind = 0 }

abbrev pub process_end_value : Rpc → Option Rpc
process_end_value s = advance (with_parm_val s (put_char s.p_parm_val s.dest_ind 0))

abbrev pub process_next_output_ind : ℕ → Rpc → Option Rpc
process_next_output_ind c s = advance (with_output_ind s (put_char s.p_output_ind s.dest_ind c))

abbrev pub process_first_output_ind : ℕ → Rpc → Option Rpc
process_first_output_ind c s = process_next_output_ind c (record s { dest_ind = 0 })

-- The comparison of the output indicator.
abbrev pub check_output_ind : Rpc → ℤ × Rpc
check_output_ind s =
    if strcmp_eq s.p_output_ind (codes "OUTPUT")
    then (rpc_syntax_continue, record s { output_ind = 1 })
    else if strcmp_eq s.p_output_ind (codes "OUT")
    then (rpc_syntax_continue, record s { output_ind = 1 })
    else (rpc_syntax_error_parm, s)

abbrev pub checked_indicator : Option Rpc → Option (ℤ × Rpc)
checked_indicator none = none
checked_indicator (some s) = some (check_output_ind s)

abbrev pub process_end_output_ind : Rpc → Option (ℤ × Rpc)
process_end_output_ind s =
    checked_indicator (with_output_ind s (put_char s.p_output_ind s.dest_ind 0))

-- `toupper`
abbrev pub toupper : ℕ → ℕ
toupper c = if leb b'a' c then (if leb c b'z' then c - 32 else c) else c

-- What `strncpy(dest, src, n)` writes.
abbrev pub strncpy_bytes : Bytes → ℕ → Bytes
strncpy_bytes src n = let t = take n src in t ++ replicate (n - length t) 0

-- src/ct10api/ct10str.c: the `len` bytes that `ct10strncpy` writes for a C string, the last one a NUL; none where
-- there is no byte to write it to.
abbrev pub ct10strncpy : Bytes → ℕ → Option Bytes
ct10strncpy src zero = none
ct10strncpy src (suc len) = some (set (strncpy_bytes src (suc len)) len 0)
