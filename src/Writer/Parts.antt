-- ===== src/Writer/Parts.antt =====
-- The static functions of src/xmltp/xmltp_writer.c that begin and end the parts of a response.
use xmltp.Prelude.{true, false, Option, none, some, ℤ, pos, neg, eq_ℤ, is_neg, if◌then◌else◌}
use xmltp.Bytes.{decimal}
use xmltp.Tags.{
  Element, colnames, date, int, num, outparams, response, resultset, resultsetslist, rows, str,
  nbrows, tag_name, end_tag_name, tag_xmlversion_and_encoding,
}
use xmltp.Writer.{Writer, Output, put, make_readable, write_tag}

abbrev pub open_tag : ℤ → Element → Output → Output
open_tag sd e = write_tag sd (tag_name e)

abbrev pub close_tag : ℤ → Element → Output → Output
close_tag sd e = write_tag sd (end_tag_name e)

-- `sprintf(buff, "%d", n)` and its write, between the tags of an element.
abbrev pub write_number : ℤ → Element → ℤ → Output → Output
write_number sd e n o = close_tag sd e (put sd (decimal n) (open_tag sd e o))

-- The constants of src/xmltp/javaSQLtypes.h that are tested.
abbrev pub sql_varchar : ℤ
sql_varchar = pos 12

-- `sf_get_data_tag_for_datatype`, and `sf_get_data_end_tag_for_datatype`: the element whose tag or
-- end tag they return.
abbrev pub data_element : ℤ → Element
data_element datatype =
    if eq_ℤ datatype (pos 5)
    then int
    else if eq_ℤ datatype (pos 4)
    then int
    else if eq_ℤ datatype (pos 2)
    then int
    else if eq_ℤ datatype (pos 93)
    then date
    else if eq_ℤ datatype (pos 6)
    then num
    else str

-- A call on a context whose socket is not there returns -2.
abbrev pub with_socket : ℤ → Writer → ℤ × Writer → ℤ × Writer
with_socket sd w r = if is_neg sd then (neg 2, w) else r

abbrev pub with_socket_or_none : ℤ → Writer → Option (ℤ × Writer) → Option (ℤ × Writer)
with_socket_or_none sd w r = if is_neg sd then some (neg 2, w) else r

-- `sf_begin_xml_response_if_not_done`
unfoldable pub begin_xml_response : ℤ → Writer → Writer
begin_xml_response sd w = if w.flags.header_done then w else record {
  flags = record (w.flags) { header_done = true };
  out = open_tag sd response (make_readable sd 1 (write_tag sd tag_xmlversion_and_encoding w.out));
}

-- `sf_begin_resultSetsList_if_not_done`
unfoldable pub begin_results_list : ℤ → Writer → Writer
begin_results_list sd w = if w.flags.results_sets_started then w else record {
  flags = record (w.flags) { results_sets_started = true };
  out = open_tag sd resultsetslist (make_readable sd 2 w.out);
}

-- `sf_write_nb_rows`
abbrev pub write_nb_rows : ℤ → ℤ → Output → Output
write_nb_rows sd nb_rows o =
    close_tag sd nbrows (write_number sd int nb_rows (open_tag sd nbrows (make_readable sd 4 o)))

-- `sf_end_previous_result_set`
unfoldable pub end_previous_result_set : ℤ → ℤ → Writer → Writer
end_previous_result_set sd nb_rows w =
    let o =
      if w.flags.rows_started
      then write_nb_rows sd nb_rows (close_tag sd rows (make_readable sd 4 w.out))
      else write_nb_rows sd (pos 0) (
          close_tag sd rows
            (open_tag sd rows (close_tag sd colnames (make_readable sd 4 w.out)))) in
    record {
      flags = record (w.flags) { rows_started = false };
      out = close_tag sd resultset (make_readable sd 3 o);
    }

abbrev pub end_results_list : ℤ → Writer → Writer
end_results_list sd w = record w { out = close_tag sd resultsetslist (make_readable sd 2 w.out) }

-- `sf_end_rows_if_started`
unfoldable pub end_rows : ℤ → ℤ → Writer → Writer
end_rows sd nb_rows w =
    if w.flags.results_sets_started
    then end_results_list sd (
        end_previous_result_set sd nb_rows
          (record w { flags = record (w.flags) { results_sets_started = false } }))
    else w

-- `sf_end_output_params_if_started`
unfoldable pub end_output_params : ℤ → Writer → Writer
end_output_params sd w =
    if w.flags.output_params_started
    then record {
      flags = record (w.flags) { output_params_started = false };
      out = close_tag sd outparams (make_readable sd 2 w.out);
    }
    else w

-- What follows the write of a value.
abbrev pub if_put : (Output → ℤ × Writer) → Option Output → Option (ℤ × Writer)
if_put go_on none = none
if_put go_on (some o) = some (go_on o)
