-- ===== src/Rpc/Parm.antt =====
-- `ct10rpc_process_1_full_parm`: the structure of one parameter. What the C strings in the buffers
-- of the value and of the name are, is read once.
use xmltp.Prelude.{
  ℕ, suc, ◌+◌, ◌-◌, Bool, true, false, Option, none, some, List, [], ◌∷◌, ◌++◌, ◌==◌, ltb,
  if◌then◌else◌, length, replicate, set, ℤ, pos, neg, eq_ℤ,
}
use xmltp.Bytes.{Bytes, codes, c_string, strcmp_eq}
use xmltp.NumString.{check_int_string, check_float_string}
use xmltp.Rpc.State.{
  Datatype, cs_int_type, cs_float_type, cs_char_type, cs_datetime_type, cs_fmt_unused,
  cs_fmt_nullterm, cs_inputvalue, cs_return, Sybase, Parm, new_parm, Rpc, ct10strncpy,
  rpc_syntax_fail, rpc_syntax_continue,
}

abbrev pub granted : List Bool → Bool
granted [] = true
granted (b ∷ _) = b

abbrev pub later : List Bool → List Bool
later [] = []
later (_ ∷ bs) = bs

-- The answer of the next call of calloc.
abbrev pub calloc : Rpc → Bool × Rpc
calloc s = (
  granted s.grants,
  record s {
    grants = later s.grants;
    nb_blocks = if granted s.grants then suc s.nb_blocks else s.nb_blocks;
  },
)

-- The type of `RPC_NULL_DEFAULT`.
abbrev pub default_null_type : ℕ → Option Datatype
default_null_type quote =
    if quote == 0
    then some cs_int_type
    else if quote == 1
    then some cs_char_type
    else if quote == 2
    then some cs_datetime_type
    else none

-- The type that an unquoted null text stands for.
abbrev pub typed_null : Bytes → Option Datatype
typed_null val =
    if strcmp_eq val (codes "NULL_C")
    then some cs_char_type
    else if strcmp_eq val (codes "NULL_I")
    then some cs_int_type
    else if strcmp_eq val (codes "NULL_F")
    then some cs_float_type
    else if strcmp_eq val (codes "NULL_D")
    then some cs_datetime_type
    else none

abbrev pub mark_null : Parm → Option Datatype → Parm
mark_null p none = p
mark_null p (some t) = record p { null_ind = neg 1; datatype = some t }

-- Checking for a null value.
abbrev pub check_null : Bytes → ℕ → Parm → Parm
check_null val quote p =
    if strcmp_eq val (codes "NULL")
    then record p { null_ind = neg 1; datatype = default_null_type quote }
    else if quote == 0
    then mark_null p (typed_null val)
    else p

-- `CNS_VALID`
abbrev pub cns_valid : ℤ
cns_valid = neg 2

abbrev pub float_or_char : Option ℤ → Option Datatype
float_or_char none = none
float_or_char (some rc) = some (if eq_ℤ rc cns_valid then cs_float_type else cs_char_type)

abbrev pub int_or : Option Datatype → Option ℤ → Option Datatype
int_or other none = none
int_or other (some rc) = if eq_ℤ rc cns_valid then some cs_int_type else other

-- The type of a value without quotes; the string's NUL stands behind it.
abbrev pub number_type : Bytes → Option Datatype
number_type val =
    int_or (float_or_char (check_float_string (val ++ 0 ∷ []))) (check_int_string (val ++ 0 ∷ []))

abbrev pub value_type : Bytes → ℕ → Option Datatype
value_type val quote =
    if quote == 1
    then some cs_char_type
    else if quote == 2
    then some cs_datetime_type
    else number_type val

abbrev pub with_type : Parm → Option Datatype → Option Parm
with_type p none = none
with_type p (some t) = some (record p { datatype = some t })

-- The data type of a value that is not null.
abbrev pub find_type : Bytes → ℕ → Parm → Option Parm
find_type val quote p =
    if eq_ℤ p.null_ind (pos 0) then with_type p (value_type val quote) else some p

-- The length of a string of characters, and the size of the buffer for it.
abbrev pub char_len : Bytes → ℕ
char_len val = if length val == 0 then 1 else length val

abbrev pub char_maxlength : Option ℕ → ℕ → ℕ
char_maxlength none len = len + 1
char_maxlength (some max_char) len = max_char - 1

module _ (syb : Sybase) where
  -- The sizes, by the data type; `none` is the default branch.
  abbrev pub set_size : Bytes → Parm → Option Datatype → Option Parm
  set_size val p (some cs_int_type) = some (record p { len = 4; maxlength = 4 })
  set_size val p (some cs_float_type) = some (record p { len = 8; maxlength = 8 })
  set_size val p (some cs_char_type) =
      some (record p { len = char_len val; maxlength = char_maxlength syb.max_char (char_len val) })
  set_size val p (some cs_datetime_type) = some (record p { len = 24; maxlength = 24 })
  set_size val p none = none

  abbrev pub with_name : Bytes → Parm → Option Bytes → Option Parm
  with_name name p none = none
  with_name name p (some copy) =
      some (record p { name = copy; is_nullterm = if length (name) == 0 then false else true })

  abbrev pub copied : Parm → Option Bytes → Option (ℤ × Parm)
  copied p none = none
  copied p (some bytes) =
      some (rpc_syntax_continue, record p { p_val = some bytes; format = cs_fmt_nullterm })

  abbrev pub converted : Parm → Option Bytes → ℤ × Parm
  converted p none = (rpc_syntax_fail, p)
  converted p (some bytes) =
      (rpc_syntax_continue, record p { p_val = some bytes; format = cs_fmt_unused })

  -- Copying the value to its buffer.
  abbrev pub copy_typed : Bytes → Parm → Option Datatype → Option (ℤ × Parm)
  copy_typed val p (some cs_char_type) =
      copied p (ct10strncpy (if length val == 0 then codes " " else val) p.maxlength)
  copy_typed val p (some t) = some (converted p (syb.cs_convert val t p.maxlength))
  copy_typed val p none = some (rpc_syntax_continue, p)

  abbrev pub copy_value : Bytes → Parm → Option (ℤ × Parm)
  copy_value val p =
      if eq_ℤ p.null_ind (neg 1) then some (rpc_syntax_continue, p) else copy_typed val p p.datatype

  -- `parm_tbl[i] = p`
  abbrev pub put_parm : ℕ → Rpc → Parm → Rpc
  put_parm i s p = record s { parm_tbl = set s.parm_tbl i (some p) }

  -- Getting ready for the next parameter.
  abbrev pub clear : Rpc → Rpc
  clear s = record s {
    output_ind = 0;
    p_parm_name = set s.p_parm_name 0 0;
    p_parm_val = set s.p_parm_val 0 0;
    p_output_ind = set s.p_output_ind 0 0;
  }

  abbrev pub end_parm : ℕ → Rpc → Option (ℤ × Parm) → Option (ℤ × Rpc)
  end_parm i s none = none
  end_parm i s (some (rc, p)) =
      some (rc, if eq_ℤ rc rpc_syntax_continue then clear (put_parm i s p) else put_parm i s p)

  abbrev pub with_status : ℕ → Parm → Parm
  with_status output_ind p = record p {
    status = if output_ind == 0 then cs_inputvalue else cs_return;
  }

  -- The name, the direction and the value of a parameter with its buffer.
  abbrev pub describe : Bytes → ℕ → Option Parm → Option (ℤ × Parm)
  describe val output_ind none = none
  describe val output_ind (some p) = copy_value val (with_status output_ind p)

  module _ (i : ℕ) (val name : Bytes) where
    -- The second calloc, for the value, and what follows it.
    abbrev pub fill_parm : Parm → Bool × Rpc → Option (ℤ × Rpc)
    fill_parm p (false, s) = some (rpc_syntax_fail, put_parm i s p)
    fill_parm p (true, s) = end_parm i s (
        describe val s.output_ind (
          with_name name (record p { p_val = some (replicate p.maxlength 0) })
            (ct10strncpy name syb.max_name)))

    abbrev pub size_parm : Rpc → Parm → Option Parm → Option (ℤ × Rpc)
    size_parm s p none = some (rpc_syntax_fail, put_parm i s p)
    size_parm s p (some q) = fill_parm q (calloc s)

    abbrev pub type_parm : Rpc → Option Parm → Option (ℤ × Rpc)
    type_parm s none = none
    type_parm s (some p) = size_parm s p (set_size val p p.datatype)

    -- The first calloc, for the structure.
    abbrev pub make_parm : Bool × Rpc → Option (ℤ × Rpc)
    make_parm (false, s) = some (rpc_syntax_fail, record s { parm_tbl = set s.parm_tbl i none })
    make_parm (true, s) =
        type_parm s (find_type val s.quote_ind (check_null val s.quote_ind new_parm))

  -- `ct10rpc_process_1_full_parm`; the slot is `parm_tbl[current_parm-1]`.
  unfoldable pub process_1_full_parm : Rpc → Option (ℤ × Rpc)
  process_1_full_parm s =
      if s.current_parm == 0
      then none
      else if ltb (s.current_parm - 1) (length s.parm_tbl)
      then make_parm (s.current_parm - 1) (c_string s.p_parm_val) (c_string s.p_parm_name)
          (calloc s)
      else none
