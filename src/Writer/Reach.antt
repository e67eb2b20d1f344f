-- ===== src/Writer/Reach.antt =====
-- What the calls of src/xmltp/xmltp_writer.c do to the output, in whatever order they are made: a
-- sequence of writes, of values and of flushes.
use xmltp.Prelude.{
  ℕ, ◌≡◌, false, not, ◌&&◌, Bool-cases, Option-cases, inl, inr, Option, none, some, [], ◌∷◌, ◌++◌,
  ℤ, pos, eq_ℤ,
}
use xmltp.Bytes.{Bytes}
use xmltp.Writer.{Writer, Output, put, put_value, flush_send_buffer}
use xmltp.Writer.Parts.{
  begin_xml_response, begin_results_list, end_previous_result_set, end_rows, end_output_params,
  write_nb_rows, sql_varchar, if_put,
}
use xmltp.Writer.Phase.{
  Call, begin_result_set, column_name, column_value, end_colum_values, begin_output_params,
  param_value, end_param_values, begin_msg, write_msg, end_msg, end_response, begin_proc_call,
  end_proc_call, reset,
}
use xmltp.Writer.Response
use xmltp.Writer.Calls.{do_call}

-- `Writes sd o o'`: from `o` the output gets to `o'`.
pub data Writes (sd : ℤ) (o : Output) : Output → Type 0 where
  nothing : Writes sd o o
  put_next : {o' : Output} → Writes sd o o' → (s : Bytes) → Writes sd o (put sd s o')
  value_next :
      {o' o'' : Output}
      → Writes sd o o'
      → (v : Bytes) → put_value sd v o' ≡ some o''
      → Writes sd o o''
  flush_next : {o' : Output} → Writes sd o o' → Writes sd o (flush_send_buffer sd o').1

begin_xml_response-Writes :
    (sd : ℤ) (o : Output) (w : Writer)
    → Writes sd o w.out
    → Writes sd o (begin_xml_response sd w).out
unfolding begin_xml_response
begin_xml_response-Writes sd o w h = elim (Bool-cases w.flags.header_done) [
  | inl e ↦ rw e h
  | inr e ↦ rw e (put_next (put_next (put_next h _) _) _)
]

begin_results_list-Writes :
    (sd : ℤ) (o : Output) (w : Writer)
    → Writes sd o w.out
    → Writes sd o (begin_results_list sd w).out
unfolding begin_results_list
begin_results_list-Writes sd o w h = elim (Bool-cases w.flags.results_sets_started) [
  | inl e ↦ rw e h
  | inr e ↦ rw e (put_next (put_next h _) _)
]

write_nb_rows-Writes :
    (sd : ℤ) (o o' : Output) (nb_rows : ℤ)
    → Writes sd o o'
    → Writes sd o (write_nb_rows sd nb_rows o')
write_nb_rows-Writes sd o o' nb_rows h = search put_next depth 20

end_previous_result_set-Writes :
    (sd nb_rows : ℤ) (o : Output) (w : Writer)
    → Writes sd o w.out
    → Writes sd o (end_previous_result_set sd nb_rows w).out
unfolding end_previous_result_set
end_previous_result_set-Writes sd nb_rows o w h = elim (Bool-cases w.flags.rows_started) [
  | inl e ↦ rw e (search put_next depth 20)
  | inr e ↦ rw e (search put_next depth 20)
]

end_rows-Writes :
    (sd nb_rows : ℤ) (o : Output) (w : Writer)
    → Writes sd o w.out
    → Writes sd o (end_rows sd nb_rows w).out
unfolding end_rows
end_rows-Writes sd nb_rows o w h = elim (Bool-cases w.flags.results_sets_started) [
  | inl e ↦ rw e (
      put_next
        (put_next
          (end_previous_result_set-Writes sd nb_rows o
            (record w { flags = record (w.flags) { results_sets_started = false } }) h)
          _)
        _)
  | inr e ↦ rw e h
]

end_output_params-Writes :
    (sd : ℤ) (o : Output) (w : Writer)
    → Writes sd o w.out
    → Writes sd o (end_output_params sd w).out
unfolding end_output_params
end_output_params-Writes sd o w h = elim (Bool-cases w.flags.output_params_started) [
  | inl e ↦ rw e (search put_next depth 20)
  | inr e ↦ rw e h
]

end_other_result_set-Writes :
    (sd n nb_rows : ℤ) (o : Output) (w : Writer)
    → Writes sd o w.out
    → Writes sd o (Response.end_other_result_set sd n nb_rows w).out
unfolding Response.end_other_result_set
end_other_result_set-Writes sd n nb_rows o w h =
    elim (Bool-cases (w.flags.results_sets_started && not (eq_ℤ w.flags.prev_result_set_no n))) [
      | inl e ↦ rw e (end_previous_result_set-Writes sd nb_rows o w h)
      | inr e ↦ rw e h
    ]

write_size-Writes :
    (sd datatype opt_size : ℤ) (o o' : Output)
    → Writes sd o o'
    → Writes sd o (Response.write_size sd datatype opt_size o')
unfolding Response.write_size
write_size-Writes sd datatype opt_size o o' h = elim (Bool-cases (eq_ℤ datatype sql_varchar)) [
  | inl e ↦ rw e (search put_next depth 20)
  | inr e ↦ rw e h
]

begin_rows-Writes :
    (sd : ℤ) (o : Output) (w : Writer)
    → Writes sd o w.out
    → Writes sd o (Response.begin_rows sd w).out
unfolding Response.begin_rows
begin_rows-Writes sd o w h = elim (Bool-cases w.flags.rows_started) [
  | inl e ↦ rw e h
  | inr e ↦ rw e (search put_next depth 20)
]

begin_row-Writes :
    (sd : ℤ) (o : Output) (w : Writer)
    → Writes sd o w.out
    → Writes sd o (Response.begin_row sd w).out
unfolding Response.begin_row
begin_row-Writes sd o w h = elim (Bool-cases w.flags.within_one_row) [
  | inl e ↦ rw e h
  | inr e ↦ rw e (search put_next depth 20)
]

begin_params-Writes :
    (sd : ℤ) (o : Output) (w : Writer)
    → Writes sd o w.out
    → Writes sd o (Response.begin_params sd w).out
unfolding Response.begin_params
begin_params-Writes sd o w h = elim (Bool-cases w.flags.output_params_started) [
  | inl e ↦ rw e h
  | inr e ↦ rw e (search put_next depth 20)
]

-- What begins `begin_msg` and `end_response`.
closed-Writes :
    (sd nb_rows : ℤ) (w : Writer)
    → Writes sd w.out (end_output_params sd (end_rows sd nb_rows (begin_xml_response sd w))).out
closed-Writes sd nb_rows w =
    end_output_params-Writes sd w.out _
      (end_rows-Writes sd nb_rows w.out _ (begin_xml_response-Writes sd w.out w nothing))

abbrev pub WritesTo : ℤ → Output → Option (ℤ × Writer) → Type 0
WritesTo sd o none = Unit
WritesTo sd o (some (code, w)) = Writes sd o w.out

if_put-WritesTo :
    (sd : ℤ) (o o' : Output) (v : Bytes) (go_on : Output → ℤ × Writer)
    → Writes sd o o'
    → ((o'' : Output) → Writes sd o o'' → Writes sd o (go_on o'').1.out)
    → WritesTo sd o (if_put go_on (put_value sd v o'))
if_put-WritesTo sd o o' v go_on h k = elim (Option-cases (put_value sd v o')) [
  | inl e ↦ rw e tt
  | inr (o'', e) ↦ rw e (k o'' (value_next h v e))
]

column_value-WritesTo :
    (fd : ℕ) (datatype null_ind : ℤ) (strval : Bytes) (w : Writer)
    → WritesTo (pos fd) w.out (do_call fd (column_value datatype null_ind strval) w)
unfolding Response.column_value Response.write_column_value
column_value-WritesTo fd datatype null_ind strval w =
    let w' = Response.begin_row (pos fd) (Response.begin_rows (pos fd) w) in
    let h = begin_row-Writes (pos fd) w.out _ (begin_rows-Writes (pos fd) w.out w nothing) in
    if_put-WritesTo (pos fd) w.out _ (strval ++ 0 ∷ []) _ (put_next (put_next h _) _)
      (λ o'' k. search put_next depth 20)

param_value-WritesTo :
    (fd : ℕ) (p_name : Bytes) (datatype opt_size is_output null_ind : ℤ) (strval : Bytes)
    (w : Writer)
    → WritesTo
        (pos fd)
        w.out
        (do_call fd (param_value p_name datatype opt_size is_output null_ind strval) w)
unfolding Response.param_value
param_value-WritesTo fd p_name datatype opt_size is_output null_ind strval w =
    if_put-WritesTo (pos fd) w.out _ (strval ++ 0 ∷ []) _
      (put_next (put_next (put_next (put_next (put_next (put_next nothing _) _) _) _) _) _)
      (λ o'' k.
        put_next
          (write_size-Writes (pos fd) datatype opt_size w.out _
            (put_next (put_next (put_next (put_next k _) _) _) _))
          _)

write_msg-WritesTo :
    (fd : ℕ) (msg_num : ℤ) (msg_text : Bytes) (w : Writer)
    → WritesTo (pos fd) w.out (do_call fd (write_msg msg_num msg_text) w)
unfolding Response.write_msg
write_msg-WritesTo fd msg_num msg_text w =
    if_put-WritesTo (pos fd) w.out _ (msg_text ++ 0 ∷ []) _
      (put_next (put_next (put_next (put_next (put_next (put_next nothing _) _) _) _) _) _)
      (λ o'' k. put_next (put_next k _) _)

-- Every call only writes, and flushes.
pub do_call-WritesTo : (fd : ℕ) (c : Call) (w : Writer) → WritesTo (pos fd) w.out (do_call fd c w)
unfolding Response.begin_result_set Response.column_name Response.end_colum_values
    Response.begin_output_params Response.begin_msg Response.end_msg Response.end_response
    Response.begin_proc_call Response.end_proc_call
do_call-WritesTo fd (begin_result_set n nb_rows) w =
    let h = begin_results_list-Writes (pos fd) w.out _ (
      end_other_result_set-Writes (pos fd) n nb_rows w.out _
        (begin_xml_response-Writes (pos fd) w.out w nothing)) in
    put_next (put_next (put_next (put_next h _) _) _) _
do_call-WritesTo fd (column_name col_name datatype opt_size) w =
    put_next
      (write_size-Writes (pos fd) datatype opt_size w.out _ (search (put_next, nothing) depth 20)) _
do_call-WritesTo fd (column_value datatype null_ind strval) w =
    column_value-WritesTo fd datatype null_ind strval w
do_call-WritesTo fd end_colum_values w = put_next (put_next nothing _) _
do_call-WritesTo fd (begin_output_params nb_rows) w =
    begin_params-Writes (pos fd) w.out _ (
      end_rows-Writes (pos fd) nb_rows w.out _ (begin_xml_response-Writes (pos fd) w.out w nothing))
do_call-WritesTo fd (param_value p_name datatype opt_size is_output null_ind strval) w =
    param_value-WritesTo fd p_name datatype opt_size is_output null_ind strval w
do_call-WritesTo fd end_param_values w = nothing
do_call-WritesTo fd (begin_msg nb_rows) w =
    put_next (put_next (closed-Writes (pos fd) nb_rows w) _) _
do_call-WritesTo fd (write_msg msg_num msg_text) w = write_msg-WritesTo fd msg_num msg_text w
do_call-WritesTo fd end_msg w = put_next (put_next nothing _) _
do_call-WritesTo fd (end_response return_status rc nb_rows) w =
    let h = closed-Writes (pos fd) nb_rows w in flush_next (search put_next depth 20)
do_call-WritesTo fd (begin_proc_call proc_name) w = search (put_next, nothing) depth 20
do_call-WritesTo fd end_proc_call w = flush_next (search (put_next, nothing) depth 20)
do_call-WritesTo fd reset w = nothing
