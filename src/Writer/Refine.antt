-- ===== src/Writer/Refine.antt =====
-- Each call of src/xmltp/xmltp_writer.c in each phase of the protocol.
use mathlib.Core.Path.{subst}
use xmltp.Prelude.{ℕ, ◌≡◌, refl, sym, ap, Bool-cases, inl, inr, some, List, [], ℤ, eq_ℤ}
use xmltp.Bytes.{Bytes}
use xmltp.Writer.{Writer, Flags, Output, fresh_flags}
use xmltp.Writer.Parts.{
  begin_xml_response, begin_results_list, end_previous_result_set, end_rows, end_output_params,
  sql_varchar,
}
use xmltp.Writer.Ready.{IsReady}
use xmltp.Writer.Items.{Item}
use xmltp.Writer.Phase.{
  Phase, before, columns, between_rows, in_row, params, call_params, messages, after_messages,
  ended, Call, begin_result_set, column_name, column_value, end_colum_values, begin_output_params,
  param_value, end_param_values, begin_msg, write_msg, end_msg, end_response, begin_proc_call,
  end_proc_call, reset, step,
}
use xmltp.Writer.Calls.{do_call, IsCall, flags_in, InPhase, Does, Refines, plain, flushing}
use xmltp.Writer.Values.{at, column_value-Refines, param_value-Refines, write_msg-Refines}
use xmltp.Writer.Response
use xmltp.Writer.Response.{as_flag, attr_text}

begin_result_set-Refines :
    (fd : ℕ) (p : Phase) (n nb_rows : ℤ) (f : Flags) (o : Output)
    → IsReady o
    → Refines o
        (step p (begin_result_set n nb_rows))
        (do_call fd (begin_result_set n nb_rows) (at p f o))
unfolding Response.begin_result_set Response.end_other_result_set begin_xml_response
    begin_results_list end_previous_result_set
begin_result_set-Refines fd before n nb_rows f o h = plain fd (columns n) f _ o _ h refl tt
begin_result_set-Refines fd (columns m) n nb_rows f o h = elim (Bool-cases (eq_ℤ m n)) [
  | inl e ↦ rw e tt
  | inr e ↦ rw e (plain fd (columns n) f _ o _ h refl tt)
]
begin_result_set-Refines fd (between_rows m) n nb_rows f o h = elim (Bool-cases (eq_ℤ m n)) [
  | inl e ↦ rw e tt
  | inr e ↦ rw e (plain fd (columns n) (flags_in (between_rows m) f) _ o _ h refl tt)
]
begin_result_set-Refines _ _ _ _ _ _ _ = tt

column_name-Refines :
    (fd : ℕ) (p : Phase) (col_name : Bytes) (datatype opt_size : ℤ) (f : Flags) (o : Output)
    → IsReady o
    → Refines o
        (step p (column_name col_name datatype opt_size))
        (do_call fd (column_name col_name datatype opt_size) (at p f o))
unfolding Response.column_name Response.write_size
column_name-Refines fd (columns n) col_name datatype opt_size f o h =
    elim (Bool-cases (eq_ℤ datatype sql_varchar)) [
      | inl e ↦ rw e (plain fd (columns n) f _ o _ h refl tt)
      | inr e ↦ rw e (plain fd (columns n) f _ o _ h refl tt)
    ]
column_name-Refines _ _ _ _ _ _ _ _ = tt

end_colum_values-Refines :
    (fd : ℕ) (p : Phase) (f : Flags) (o : Output)
    → IsReady o
    → Refines o (step p end_colum_values) (do_call fd end_colum_values (at p f o))
unfolding Response.end_colum_values
end_colum_values-Refines fd (in_row n) f o h = plain fd (between_rows n) f _ o _ h refl tt
end_colum_values-Refines _ _ _ _ _ = tt

begin_output_params-Refines :
    (fd : ℕ) (p : Phase) (nb_rows : ℤ) (f : Flags) (o : Output)
    → IsReady o
    → Refines o
        (step p (begin_output_params nb_rows))
        (do_call fd (begin_output_params nb_rows) (at p f o))
unfolding Response.begin_output_params Response.begin_params begin_xml_response end_rows
    end_previous_result_set
begin_output_params-Refines fd before nb_rows f o h = plain fd params f _ o _ h refl tt
begin_output_params-Refines fd (columns n) nb_rows f o h =
    plain fd params (flags_in (columns n) f) _ o _ h refl tt
begin_output_params-Refines fd (between_rows n) nb_rows f o h =
    plain fd params (flags_in (between_rows n) f) _ o _ h refl tt
begin_output_params-Refines fd params nb_rows f o h = plain fd params f _ o _ h refl tt
begin_output_params-Refines _ _ _ _ _ _ = tt

begin_msg-Refines :
    (fd : ℕ) (p : Phase) (nb_rows : ℤ) (f : Flags) (o : Output)
    → IsReady o
    → Refines o (step p (begin_msg nb_rows)) (do_call fd (begin_msg nb_rows) (at p f o))
unfolding Response.begin_msg begin_xml_response end_rows end_previous_result_set end_output_params
begin_msg-Refines fd before nb_rows f o h = plain fd messages (flags_in before f) _ o _ h refl tt
begin_msg-Refines fd (columns n) nb_rows f o h =
    plain fd messages (flags_in (columns n) f) _ o _ h refl tt
begin_msg-Refines fd (between_rows n) nb_rows f o h =
    plain fd messages (flags_in (between_rows n) f) _ o _ h refl tt
begin_msg-Refines fd params nb_rows f o h = plain fd messages (flags_in params f) _ o _ h refl tt
begin_msg-Refines _ _ _ _ _ _ = tt

end_msg-Refines :
    (fd : ℕ) (p : Phase) (f : Flags) (o : Output)
    → IsReady o
    → Refines o (step p end_msg) (do_call fd end_msg (at p f o))
unfolding Response.end_msg
end_msg-Refines fd messages f o h = plain fd after_messages f _ o _ h refl tt
end_msg-Refines _ _ _ _ _ = tt

end_param_values-Refines :
    (fd : ℕ) (p : Phase) (f : Flags) (o : Output)
    → IsReady o
    → Refines o (step p end_param_values) (do_call fd end_param_values (at p f o))
end_param_values-Refines fd params f o h = plain fd params f [] o _ h refl tt
end_param_values-Refines fd call_params f o h = plain fd call_params f [] o _ h refl tt
end_param_values-Refines _ _ _ _ _ = tt

begin_proc_call-Refines :
    (fd : ℕ) (p : Phase) (proc_name : Bytes) (f : Flags) (o : Output)
    → IsReady o
    → Refines o
        (step p (begin_proc_call proc_name))
        (do_call fd (begin_proc_call proc_name) (at p f o))
unfolding Response.begin_proc_call
begin_proc_call-Refines fd before proc_name f o h = plain fd call_params f _ o _ h refl tt
begin_proc_call-Refines _ _ _ _ _ _ = tt

reset-Refines :
    (fd : ℕ) (p : Phase) (f : Flags) (o : Output)
    → IsReady o
    → Refines o (step p reset) (do_call fd reset (at p f o))
reset-Refines fd before f o h = plain fd before fresh_flags [] o _ h refl tt
reset-Refines fd ended f o h = plain fd before fresh_flags [] o _ h refl tt
reset-Refines _ _ _ _ _ = tt

end_response-Refines :
    (fd : ℕ) (p : Phase) (return_status rc nb_rows : ℤ) (f : Flags) (o : Output)
    → IsReady o
    → Refines o
        (step p (end_response return_status rc nb_rows))
        (do_call fd (end_response return_status rc nb_rows) (at p f o))
unfolding Response.end_response begin_xml_response end_rows end_previous_result_set
    end_output_params
end_response-Refines fd before return_status rc nb_rows f o h =
    flushing fd _ _ o _ _ h (λ e. e) refl
end_response-Refines fd (columns n) return_status rc nb_rows f o h =
    flushing fd _ _ o _ _ h (λ e. e) refl
end_response-Refines fd (between_rows n) return_status rc nb_rows f o h =
    flushing fd _ _ o _ _ h (λ e. e) refl
end_response-Refines fd params return_status rc nb_rows f o h =
    flushing fd _ _ o _ _ h (λ e. e) refl
end_response-Refines fd after_messages return_status rc nb_rows f o h =
    flushing fd _ _ o _ _ h (λ e. e) refl
end_response-Refines _ _ _ _ _ _ _ _ = tt

end_proc_call-Refines :
    (fd : ℕ) (p : Phase) (f : Flags) (o : Output)
    → IsReady o
    → Refines o (step p end_proc_call) (do_call fd end_proc_call (at p f o))
unfolding Response.end_proc_call
end_proc_call-Refines fd call_params f o h = flushing fd _ _ o _ _ h (λ _. refl) refl
end_proc_call-Refines _ _ _ _ _ = tt

call_at-Refines :
    (fd : ℕ) (p : Phase) (c : Call) (f : Flags) (o : Output)
    → IsReady o
    → IsCall c
    → Refines o (step p c) (do_call fd c (at p f o))
call_at-Refines fd p (begin_result_set n nb_rows) f o h z =
    begin_result_set-Refines fd p n nb_rows f o h
call_at-Refines fd p (column_name col_name datatype opt_size) f o h z =
    column_name-Refines fd p col_name datatype opt_size f o h
call_at-Refines fd p (column_value datatype null_ind strval) f o h z =
    column_value-Refines fd p datatype null_ind strval f o h z
call_at-Refines fd p end_colum_values f o h z = end_colum_values-Refines fd p f o h
call_at-Refines fd p (begin_output_params nb_rows) f o h z =
    begin_output_params-Refines fd p nb_rows f o h
call_at-Refines fd p (param_value p_name datatype opt_size is_output null_ind strval) f o h z =
    param_value-Refines fd p p_name datatype opt_size is_output null_ind strval f o h z
call_at-Refines fd p end_param_values f o h z = end_param_values-Refines fd p f o h
call_at-Refines fd p (begin_msg nb_rows) f o h z = begin_msg-Refines fd p nb_rows f o h
call_at-Refines fd p (write_msg msg_num msg_text) f o h z =
    write_msg-Refines fd p msg_num msg_text f o h z
call_at-Refines fd p end_msg f o h z = end_msg-Refines fd p f o h
call_at-Refines fd p (end_response return_status rc nb_rows) f o h z =
    end_response-Refines fd p return_status rc nb_rows f o h
call_at-Refines fd p (begin_proc_call proc_name) f o h z =
    begin_proc_call-Refines fd p proc_name f o h
call_at-Refines fd p end_proc_call f o h z = end_proc_call-Refines fd p f o h
call_at-Refines fd p reset f o h z = reset-Refines fd p f o h

-- A call of the writer that the protocol allows in its phase: whatever the operating system
-- answers, it returns, the flags are those of the next phase, the buffer is empty at the end of a
-- response or a call, and unless a send has failed, by then or before, the code is 0 and the bytes
-- sent and buffered are those before and then exactly the markup of the specification.
pub do_call-Refines :
    (fd : ℕ) (p q : Phase) (c : Call) (items : List Item) (w : Writer)
    → IsReady w.out
    → InPhase p w
    → IsCall c
    → step p c ≡ some (q, items)
    → Does q items w.out (do_call fd c w)
do_call-Refines fd p q c items w h i z e =
    let w' : Writer = record { flags = flags_in p i.base; out = w.out } in
    let same : w' ≡ w = ap (λ f. record { flags = f; out = w.out }) (sym i.flags_are) in
    subst (λ r. Refines w.out r (do_call fd c w)) e
      (subst (λ v. Refines w.out (step p c) (do_call fd c v)) same
        (call_at-Refines fd p c i.base w.out h z))
