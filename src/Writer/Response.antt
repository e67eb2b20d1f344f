-- ===== src/Writer/Response.antt =====
-- The calls of src/xmltp/xmltp_writer.c that write a response or a call. `sd` is the socket that
-- `xmltp_ctx_get_socket` returns for the context.
use xmltp.Prelude.{
  ◌+◌, true, false, not, ◌&&◌, Option, none, ◌++◌, ℤ, pos, negsuc, eq_ℤ, is_neg, take,
  if◌then◌else◌,
}
use xmltp.SockObj.{SockObj}
use xmltp.Bytes.{c_string, Bytes, decimal}
use xmltp.Tags.{
  attr, col, colnames, int, isnull, msg, msglist, name, outparams, param, proc, proccall, response,
  resultset, returnstatus, row, rows, str, sz, tag_xmlversion_and_encoding, tag_eot,
}
use xmltp.Writer.{
  Writer, Output, fresh_flags, put, make_readable, write_tag, put_value, flush_send_buffer,
}
use xmltp.Writer.Parts.{
  open_tag, close_tag, write_number, sql_varchar, data_element, with_socket, with_socket_or_none,
  begin_xml_response, begin_results_list, end_previous_result_set, end_rows, end_output_params,
  if_put,
}

-- `xmltp_writer_reset`
abbrev pub reset : Writer → ℤ × Writer
reset w = (pos 0, record w { flags = fresh_flags })

-- `xmltp_writer_note_error`
abbrev pub note_error : Bytes → Writer → ℤ × Writer
note_error errmsg w = (
  pos 0,
  record w {
    flags = record (w.flags) {
      ctr_errors = w.flags.ctr_errors + 1;
      note_errmsg = take 500 (c_string errmsg);
    };
  },
)

-- `xmltp_writer_set_sock_obj` and `xmltp_writer_drop_sock_obj`
abbrev pub set_sock_obj : Option SockObj → Writer → Writer
set_sock_obj s w = record w { out = record (w.out) { p_sock_obj = s } }

abbrev pub drop_sock_obj : Writer → Writer
drop_sock_obj = set_sock_obj none

-- The `if` of `xmltp_writer_begin_result_set`.
unfoldable pub end_other_result_set : ℤ → ℤ → ℤ → Writer → Writer
end_other_result_set sd result_set_no nb_rows w =
    if w.flags.results_sets_started && not (eq_ℤ w.flags.prev_result_set_no result_set_no)
    then end_previous_result_set sd nb_rows w
    else w

abbrev open_result_set : ℤ → ℤ → Writer → Writer
open_result_set sd result_set_no w = record {
  flags = record (w.flags) { prev_result_set_no = result_set_no };
  out =
      open_tag sd colnames (make_readable sd 4 (open_tag sd resultset (make_readable sd 3 w.out)));
}

-- `xmltp_writer_begin_result_set`
unfoldable pub begin_result_set : ℤ → ℤ → ℤ → Writer → ℤ × Writer
begin_result_set sd result_set_no nb_rows w = with_socket sd w (
  pos 0,
  open_result_set sd result_set_no (
      begin_results_list sd
        (end_other_result_set sd result_set_no nb_rows (begin_xml_response sd w))),
)

-- The optional size of a column or a parameter.
unfoldable pub write_size : ℤ → ℤ → ℤ → Output → Output
write_size sd datatype opt_size o =
    if eq_ℤ datatype sql_varchar then write_number sd sz opt_size o else o

-- `xmltp_writer_column_name`
unfoldable pub column_name : ℤ → Bytes → ℤ → ℤ → Writer → ℤ × Writer
column_name sd col_name datatype opt_size w = with_socket sd w (
  pos 0,
  record w {
    out = close_tag sd col (
        write_size sd datatype opt_size (
          write_number sd int datatype (
            close_tag sd name
              (put sd col_name (open_tag sd name (open_tag sd col (make_readable sd 5 w.out)))))));
  },
)

-- The two tests at the head of `xmltp_writer_column_value`.
unfoldable pub begin_rows : ℤ → Writer → Writer
begin_rows sd w = if w.flags.rows_started then w else record {
  flags = record (w.flags) { rows_started = true; within_one_row = false };
  out = open_tag sd rows (make_readable sd 4 (close_tag sd colnames (make_readable sd 4 w.out)));
}

unfoldable pub begin_row : ℤ → Writer → Writer
begin_row sd w = if w.flags.within_one_row then w else record {
  flags = record (w.flags) { within_one_row = true };
  out = open_tag sd row (make_readable sd 5 w.out);
}

-- `null_ind != 0`
abbrev pub as_flag : ℤ → ℤ
as_flag n = if eq_ℤ n (pos 0) then pos 0 else pos 1

-- `xmltp_writer_column_value` from `sf_make_readable(sd, 6)` on.
unfoldable pub write_column_value : ℤ → ℤ → ℤ → Bytes → Writer → Option (ℤ × Writer)
write_column_value sd datatype null_ind strval w =
    let e = data_element datatype in
    if_put
      (λ o.
        (pos 0, record w { out = write_number sd isnull (as_flag null_ind) (close_tag sd e o) }))
      (put_value sd strval (open_tag sd e (make_readable sd 6 w.out)))

-- `xmltp_writer_column_value`
unfoldable pub column_value : ℤ → ℤ → ℤ → Bytes → Writer → Option (ℤ × Writer)
column_value sd datatype null_ind strval w =
    with_socket_or_none sd w
      (write_column_value sd datatype null_ind strval (begin_row sd (begin_rows sd w)))

-- `xmltp_writer_end_colum_values`
unfoldable pub end_colum_values : ℤ → Writer → ℤ × Writer
end_colum_values sd w = with_socket sd w (
  pos 0,
  record {
    flags = record (w.flags) { within_one_row = false };
    out = close_tag sd row (make_readable sd 5 w.out);
  },
)

-- The `if` of `xmltp_writer_begin_output_params`.
unfoldable pub begin_params : ℤ → Writer → Writer
begin_params sd w = if w.flags.output_params_started then w else record {
  flags = record (w.flags) { output_params_started = true };
  out = open_tag sd outparams (make_readable sd 2 w.out);
}

-- `xmltp_writer_begin_output_params`; it does not read its `result_set_no`.
unfoldable pub begin_output_params : ℤ → ℤ → Writer → ℤ × Writer
begin_output_params sd nb_rows w =
    with_socket sd w (pos 0, begin_params sd (end_rows sd nb_rows (begin_xml_response sd w)))

-- `xmltp_writer_param_name`
abbrev pub param_name : Writer → ℤ × Writer
param_name w = (pos 0, w)

-- `sprintf(buff, "%d%d%d", …)`
abbrev pub attr_text : ℤ → ℤ → ℤ → Bytes
attr_text null_ind is_output datatype =
    decimal (as_flag null_ind) ++ (decimal (as_flag is_output) ++ decimal datatype)

-- `xmltp_writer_param_value`
unfoldable pub param_value : ℤ → Bytes → ℤ → ℤ → ℤ → ℤ → Bytes → Writer → Option (ℤ × Writer)
param_value sd p_name datatype opt_size is_output null_ind strval w =
    let e = data_element datatype in
    let o = open_tag sd e (
      close_tag sd name
        (put sd p_name (open_tag sd name (open_tag sd param (make_readable sd 3 w.out))))) in
    with_socket_or_none sd w (
      if_put
        (λ o'. (
          pos 0,
          record w {
            out = close_tag sd param (
                write_size sd datatype opt_size (
                  close_tag sd attr (
                    put sd (attr_text null_ind is_output datatype)
                      (open_tag sd attr (close_tag sd e o')))));
          },
        ))
        (put_value sd strval o))

-- `xmltp_writer_end_param_values`
abbrev pub end_param_values : ℤ → Writer → ℤ × Writer
end_param_values sd w = with_socket sd w (pos 0, w)

-- `xmltp_writer_begin_msg`
unfoldable pub begin_msg : ℤ → ℤ → Writer → ℤ × Writer
begin_msg sd nb_rows w =
    let w' = end_output_params sd (end_rows sd nb_rows (begin_xml_response sd w)) in
    with_socket sd w (pos 0, record w' { out = open_tag sd msglist (make_readable sd 2 w'.out) })

-- `xmltp_writer_msg`
unfoldable pub write_msg : ℤ → ℤ → Bytes → Writer → Option (ℤ × Writer)
write_msg sd msg_num msg_text w =
    let o =
      open_tag sd str (write_number sd int msg_num (open_tag sd msg (make_readable sd 3 w.out))) in
    with_socket_or_none sd w (
      if_put (λ o'. (pos 0, record w { out = close_tag sd msg (close_tag sd str o') }))
        (put_value sd msg_text o))

-- `xmltp_writer_end_msg`
unfoldable pub end_msg : ℤ → Writer → ℤ × Writer
end_msg sd w =
    with_socket sd w (pos 0, record w { out = close_tag sd msglist (make_readable sd 2 w.out) })

-- `-1500 + rc` for a negative `rc`.
abbrev sub_1500 : ℤ → ℤ
sub_1500 (pos n) = pos n
sub_1500 (negsuc n) = negsuc (n + 1500)

-- The return status that is written.
unfoldable pub final_status : ℤ → ℤ → ℤ
final_status return_status rc =
    if not (is_neg return_status) && is_neg rc then sub_1500 rc else return_status

abbrev flush : ℤ → Writer → ℤ × Writer
flush sd w = let (rc, o) = flush_send_buffer sd w.out in (rc, record w { out = o })

abbrev end_of_response : ℤ → ℤ → Output → Output
end_of_response sd status o = write_tag sd tag_eot (
    make_readable sd 1 (
      close_tag sd response (
        make_readable sd 1 (
          close_tag sd returnstatus
            (write_number sd int status (open_tag sd returnstatus (make_readable sd 2 o)))))))

-- `xmltp_writer_end_response`
unfoldable pub end_response : ℤ → ℤ → ℤ → ℤ → Writer → ℤ × Writer
end_response sd return_status rc nb_rows w =
    let w' = end_output_params sd (end_rows sd nb_rows (begin_xml_response sd w)) in
    with_socket sd w
      (flush sd (record w' { out = end_of_response sd (final_status return_status rc) w'.out }))

-- `xmltp_writer_begin_proc_call`
unfoldable pub begin_proc_call : ℤ → Bytes → Writer → ℤ × Writer
begin_proc_call sd proc_name w = with_socket sd w (
  pos 0,
  record w {
    out = close_tag sd proc (
        put sd proc_name (
          open_tag sd proc (
            make_readable sd 2 (
              open_tag sd proccall
                (make_readable sd 1 (write_tag sd tag_xmlversion_and_encoding w.out))))));
  },
)

-- `xmltp_writer_end_proc_call`, which returns 0 also where the flush fails.
unfoldable pub end_proc_call : ℤ → Writer → ℤ × Writer
end_proc_call sd w =
    let o =
      write_tag sd tag_eot
        (make_readable sd 1 (close_tag sd proccall (make_readable sd 1 w.out))) in
    with_socket sd w (pos 0, record w { out = (flush_send_buffer sd o).1 })
