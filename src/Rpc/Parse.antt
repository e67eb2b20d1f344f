-- ===== src/Rpc/Parse.antt =====
-- The functions of src/ct10api/ct10rpc_parse.c that drive the automaton.
use xmltp.Prelude.{
  ℕ, suc, ◌+◌, Bool, true, Option, none, some, List, [], ◌∷◌, ◌++◌, ◌==◌, leb, ltb, if◌then◌else◌,
  length, set, drop, get_elem?, ℤ, pos, negsuc, eq_ℤ,
}
use xmltp.Bytes.{Bytes, c_string}
use xmltp.Rpc.Table.{ascii_value_column_in_auto, automaton_entry}
use xmltp.Rpc.State.{
  Sybase, Parm, Rpc, rpc_maxsize, rpc_syntax_ok, rpc_syntax_fail, rpc_syntax_continue,
  process_rpc_name_char, process_end_rpc_name, process_first_parm_name_letter,
  process_next_parm_name_letter, process_end_parm_name, process_first_value_letter,
  process_next_value_letter, process_first_quote, process_first_date_quote, process_end_value,
  process_first_output_ind, process_next_output_ind, process_end_output_ind, toupper, strncpy_bytes,
  ct10strncpy,
}
use xmltp.Rpc.Parm.{process_1_full_parm}

-- What `ct10rpc_get_ready_for_next_parm` does behind its call.
abbrev pub count_parm : ℕ → ℤ × Rpc → ℤ × Rpc
count_parm c (rc, s) =
    if c == b','
    then (if leb s.parm_tbl_size s.current_parm
        then (rpc_syntax_fail, s)
        else (rc, record s { current_parm = s.current_parm + 1 }))
    else (rc, s)

abbrev pub counted : ℕ → Option (ℤ × Rpc) → Option (ℤ × Rpc)
counted c none = none
counted c (some r) = some (count_parm c r)

-- `rc` is `RPC_SYNTAX_CONTINUE`.
abbrev pub go_on : Option Rpc → Option (ℤ × Rpc)
go_on none = none
go_on (some s) = some (rpc_syntax_continue, s)

module _ (syb : Sybase) where
  abbrev pub get_ready_for_next_parm : ℕ → Rpc → Option (ℤ × Rpc)
  get_ready_for_next_parm c s = counted c (process_1_full_parm syb s)

  -- Functions 111 and 115.
  abbrev pub value_then_ready : ℕ → Option Rpc → Option (ℤ × Rpc)
  value_then_ready c none = none
  value_then_ready c (some s) = get_ready_for_next_parm c s

  abbrev pub output_then_ready : ℕ → Option (ℤ × Rpc) → Option (ℤ × Rpc)
  output_then_ready c none = none
  output_then_ready c (some (rc, s)) =
      if eq_ℤ rc rpc_syntax_continue then get_ready_for_next_parm c s else some (rc, s)

  -- `ct10rpc_process_1_rpc_char`: the functions in the order of their numbers.
  unfoldable pub process_1_rpc_char : ℕ → ℕ → Rpc → Option (ℤ × Rpc)
  process_1_rpc_char func c s =
      if func == 0
      then some (rpc_syntax_continue, s)
      else if func == 100
      then go_on (process_rpc_name_char c s)
      else if func == 101
      then go_on (process_first_parm_name_letter c s)
      else if func == 102
      then go_on (process_next_parm_name_letter c s)
      else if func == 105
      then go_on (process_end_parm_name s)
      else if func == 103
      then go_on (process_first_value_letter c s)
      else if func == 104
      then go_on (process_next_value_letter c s)
      else if func == 107
      then go_on (process_next_value_letter c s)
      else if func == 106
      then go_on (process_end_value s)
      else if func == 109
      then go_on (process_end_value s)
      else if func == 108
      then some (rpc_syntax_continue, process_first_quote s)
      else if func == 110
      then get_ready_for_next_parm c s
      else if func == 111
      then value_then_ready c (process_end_value s)
      else if func == 112
      then go_on (process_first_output_ind (toupper c) s)
      else if func == 113
      then go_on (process_next_output_ind (toupper c) s)
      else if func == 114
      then process_end_output_ind s
      else if func == 115
      then output_then_ready c (process_end_output_ind s)
      else if func == 116
      then go_on (process_end_rpc_name s)
      else if func == 117
      then some (rpc_syntax_continue, process_first_date_quote s)
      else some (rpc_syntax_fail, s)

  -- The end of a round: the code of the function, then the level. `again` is the loop from a level.
  abbrev pub next_level : (ℕ → Rpc → Option (ℤ × Rpc)) → Rpc → ℤ → Option (ℤ × Rpc)
  next_level again s (negsuc l) = some (negsuc l, s)
  next_level again s (pos l) = again l s

  abbrev pub after_char : (ℕ → Rpc → Option (ℤ × Rpc)) → ℤ → Option (ℤ × Rpc) → Option (ℤ × Rpc)
  after_char again l none = none
  after_char again l (some (rc, s)) =
      if eq_ℤ rc rpc_syntax_continue then next_level again s l else some (rpc_syntax_fail, s)

  -- `RPC_NB_COLUMN_AUTOMATON`
  abbrev pub nb_column : ℕ
  nb_column = 13

  abbrev pub in_column : (ℕ → Rpc → Option (ℤ × Rpc)) → ℕ → ℕ → Rpc → Option ℕ → Option (ℤ × Rpc)
  in_column again l c s none = none
  in_column again l c s (some column) =
      if ltb nb_column column
      then some (rpc_syntax_fail, s)
      else after_char again (automaton_entry l column).0
          (process_1_rpc_char (automaton_entry l column).1 c s)

  -- `ct10rpc_parse_via_automaton`, from level `l`.
  unfoldable pub parse_via_automaton : Bytes → ℕ → Rpc → Option (ℤ × Rpc)
  parse_via_automaton [] l s = none
  parse_via_automaton (c ∷ chaine) l s =
      if ltb rpc_maxsize s.dest_ind
      then some (rpc_syntax_fail, s)
      else in_column (λ k t. parse_via_automaton chaine k t) l c s
          (get_elem? ascii_value_column_in_auto c)

  -- The initialisations.
  abbrev pub initialise : List (Option Parm) → ℕ → Rpc → Rpc
  initialise t_parm t_parm_size s = record s {
    parm_tbl = t_parm;
    parm_tbl_size = t_parm_size;
    current_parm = 0;
    first_parm_ind = 1;
    output_ind = 0;
    dest_ind = 0;
    p_rpc_name = set s.p_rpc_name 0 0;
    p_parm_name = set s.p_parm_name 0 0;
    p_parm_val = set s.p_parm_val 0 0;
    p_output_ind = set s.p_output_ind 0 0;
  }

-- What `ct10rpc_parse` gives to its caller: its code, `rpc_name`, `nb_parm` and the variables.
pub record RpcAnswer : Type 0 where
  pub rc : ℤ
  pub rpc_name : Bytes
  pub nb_parm : ℕ
  pub rpc : Rpc

-- A copy of `n` bytes to the front of an array.
abbrev pub write_front : Bytes → Option Bytes → Option Bytes
write_front dest none = none
write_front dest (some copy) =
    if leb (length copy) (length dest) then some (copy ++ drop (length copy) dest) else none

abbrev pub answer_ok : Rpc → Option Bytes → Option RpcAnswer
answer_ok s none = none
answer_ok s (some name) =
    some (record { rc = rpc_syntax_ok; rpc_name = name; nb_parm = s.current_parm; rpc = s })

-- The end of `ct10rpc_parse`.
abbrev pub give_answer : Bytes → ℕ → Option (ℤ × Rpc) → Option RpcAnswer
give_answer rpc_name size none = none
give_answer rpc_name size (some (rc, s)) =
    if eq_ℤ rc rpc_syntax_ok
    then answer_ok s (write_front rpc_name (ct10strncpy (c_string s.p_rpc_name) size))
    else some (record { rc = rc; rpc_name = rpc_name; nb_parm = 0; rpc = s })

-- The arguments that may be NULL; a size is an `int`.
pub record Arguments : Type 0 where
  pub has_context : Bool
  pub chaine_rpc : Option Bytes
  pub rpc_name : Option Bytes
  pub rpc_name_size : ℤ
  pub t_parm : Option (List (Option Parm))
  pub t_parm_size : ℤ

module _ (syb : Sybase) where
  abbrev pub refuse_arguments : Bytes → Rpc → Option RpcAnswer
  refuse_arguments rpc_name s =
      some (record { rc = rpc_syntax_fail; rpc_name = rpc_name; nb_parm = 0; rpc = s })

  -- What follows the initialisation of `rpc_name`: the test of the arguments, and the parser.
  abbrev pub parse_checked :
      Bytes → Bool → Option Bytes → ℕ → Option (List (Option Parm)) → ℤ → Rpc → Option RpcAnswer
  parse_checked rpc_name true (some chaine) (suc size) (some t_parm) (pos (suc n)) s =
      give_answer rpc_name (suc size)
        (parse_via_automaton syb chaine 0 (initialise syb t_parm (suc n) s))
  parse_checked rpc_name _ _ _ _ _ s = refuse_arguments rpc_name s

  abbrev pub parse_named : Arguments → ℕ → Rpc → Option Bytes → Option RpcAnswer
  parse_named a size s none = none
  parse_named a size s (some rpc_name) =
      parse_checked rpc_name a.has_context a.chaine_rpc size a.t_parm a.t_parm_size s

  -- `strncpy(rpc_name, "", rpc_name_size)` stands before the test of its arguments: it writes
  -- through a NULL pointer, or as many bytes as a negative size is without its sign.
  abbrev pub parse_into : Arguments → ℤ → Rpc → Option Bytes → Option RpcAnswer
  parse_into a (negsuc _) s _ = none
  parse_into a (pos size) s none = if size == 0 then refuse_arguments [] s else none
  parse_into a (pos size) s (some rpc_name) =
      parse_named a size s (write_front rpc_name (some (strncpy_bytes [] size)))

  -- `ct10rpc_parse`
  unfoldable pub parse : Arguments → Rpc → Option RpcAnswer
  parse a s = parse_into a a.rpc_name_size s a.rpc_name
