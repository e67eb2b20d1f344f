-- ===== src/Writer/Phase.antt =====
-- The order in which the calls of src/xmltp/xmltp_writer.c are meant to be made, and the items of
-- markup that each of them adds to a response or a call: a specification without flags and buffers.
use xmltp.Prelude.{
  ℕ, ◌+◌, Bool, Option, none, some, List, [], ◌∷◌, ◌++◌, ℤ, pos, eq_ℤ, leb, if◌then◌else◌, length,
}
use xmltp.Bytes.{Bytes, decimal, strcmp_eq}
use xmltp.Tags.{
  Element, attr, col, colnames, int, isnull, msg, msglist, name, outparams, param, proc, proccall,
  response, resultset, resultsetslist, returnstatus, row, rows, str, nbrows, sz, tag_name,
}
use xmltp.Encoder.Spec.{escape}
use xmltp.Writer.{white_text, esc_buf_size}
use xmltp.Writer.Parts.{data_element, sql_varchar}
use xmltp.Writer.Response.{as_flag, attr_text, final_status}
use xmltp.Writer.Items.{Item, opening, closing, header, end_mark, text}

-- How far a response or a call is. The number is the one of the result set that is open.
pub data Phase : Type 0 where
  before params call_params messages after_messages ended : Phase
  columns between_rows in_row : ℤ → Phase

-- The calls of the writer with their arguments. A value is a string without its NUL.
pub data Call : Type 0 where
  begin_result_set : (result_set_no nb_rows : ℤ) → Call
  column_name : (col_name : Bytes) → (datatype opt_size : ℤ) → Call
  column_value : (datatype null_ind : ℤ) → (strval : Bytes) → Call
  end_colum_values end_param_values end_msg end_proc_call reset : Call
  begin_output_params : (nb_rows : ℤ) → Call
  param_value :
      (p_name : Bytes) (datatype opt_size is_output null_ind : ℤ) → (strval : Bytes) → Call
  begin_msg : (nb_rows : ℤ) → Call
  write_msg : (msg_num : ℤ) → (msg_text : Bytes) → Call
  end_response : (return_status rc nb_rows : ℤ) → Call
  begin_proc_call : (proc_name : Bytes) → Call

-- The elements that are open, the innermost first.
abbrev pub open_elements : Phase → List Element
open_elements before = []
open_elements (columns _) = colnames ∷ resultset ∷ resultsetslist ∷ response ∷ []
open_elements (between_rows _) = rows ∷ resultset ∷ resultsetslist ∷ response ∷ []
open_elements (in_row _) = row ∷ rows ∷ resultset ∷ resultsetslist ∷ response ∷ []
open_elements params = outparams ∷ response ∷ []
open_elements call_params = proccall ∷ []
open_elements messages = msglist ∷ response ∷ []
open_elements after_messages = response ∷ []
open_elements ended = []

abbrev pub white : ℕ → Item
white level = text (white_text level)

abbrev pub number : Element → ℤ → List Item → List Item
number e n rest = opening e ∷ text (decimal n) ∷ closing e ∷ rest

abbrev pub start_of_response : List Item → List Item
start_of_response rest = header ∷ white 1 ∷ opening response ∷ rest

abbrev pub count_of_rows : ℤ → List Item → List Item
count_of_rows nb_rows rest =
    white 4
    ∷ opening nbrows
    ∷ number int nb_rows (closing nbrows ∷ white 3 ∷ closing resultset ∷ rest)

-- The end of a result set that has rows, and of one that has none.
abbrev pub end_with_rows : ℤ → List Item → List Item
end_with_rows nb_rows rest = white 4 ∷ closing rows ∷ count_of_rows nb_rows rest

abbrev pub end_without_rows : List Item → List Item
end_without_rows rest =
    white 4 ∷ closing colnames ∷ opening rows ∷ closing rows ∷ count_of_rows (pos 0) rest

abbrev pub end_of_list : List Item → List Item
end_of_list rest = white 2 ∷ closing resultsetslist ∷ rest

abbrev pub start_of_set : List Item
start_of_set = white 3 ∷ opening resultset ∷ white 4 ∷ opening colnames ∷ []

abbrev pub size_of : ℤ → ℤ → List Item → List Item
size_of datatype opt_size rest = if eq_ℤ datatype sql_varchar then number sz opt_size rest else rest

abbrev pub in_a_set : List Element
in_a_set = resultset ∷ resultsetslist ∷ response ∷ []

-- An element with a value, as it is written by `xmltp_writer_column_value`.
abbrev pub cell : ℤ → ℤ → Bytes → List Item
cell datatype null_ind strval =
    let e = data_element datatype in
    white 6 ∷ opening e ∷ text (escape strval) ∷ closing e ∷ number isnull (as_flag null_ind) []

abbrev pub param_items : Bytes → ℤ → ℤ → ℤ → ℤ → Bytes → List Item
param_items p_name datatype opt_size is_output null_ind strval =
    let e = data_element datatype in
    white 3
    ∷ opening param
    ∷ opening name
    ∷ text p_name
    ∷ closing name
    ∷ opening e
    ∷ text (escape strval)
    ∷ closing e
    ∷ opening attr
    ∷ text (attr_text null_ind is_output datatype)
    ∷ closing attr
    ∷ size_of datatype opt_size (closing param ∷ [])

abbrev pub Outcome : Type 0
Outcome = Option (Phase × List Item)

-- What a result set, or the parameters, or nothing, needs before what follows it in a response.
abbrev pub closing_items : ℤ → Phase → List Item → Option (List Item)
closing_items nb_rows before rest = some (start_of_response rest)
closing_items nb_rows (columns _) rest = some (end_without_rows (end_of_list rest))
closing_items nb_rows (between_rows _) rest = some (end_with_rows nb_rows (end_of_list rest))
closing_items nb_rows params rest = some (white 2 ∷ closing outparams ∷ rest)
closing_items nb_rows after_messages rest = some rest
closing_items _ _ _ = none

abbrev pub into : Phase → Option (List Item) → Outcome
into p none = none
into p (some items) = some (p, items)

-- A value must leave room for two NULs in the buffer for its escapes.
abbrev pub if_fits : Bytes → Outcome → Outcome
if_fits strval outcome = if leb (length (escape strval) + 2) esc_buf_size then outcome else none

abbrev pub step_result_set : ℤ → ℤ → Phase → Outcome
step_result_set n nb_rows before =
    some (columns n, start_of_response (white 2 ∷ opening resultsetslist ∷ start_of_set))
step_result_set n nb_rows (columns m) =
    if eq_ℤ m n then none else some (columns n, end_without_rows start_of_set)
step_result_set n nb_rows (between_rows m) =
    if eq_ℤ m n then none else some (columns n, end_with_rows nb_rows start_of_set)
step_result_set _ _ _ = none

abbrev pub step_column_name : Bytes → ℤ → ℤ → Phase → Outcome
step_column_name col_name datatype opt_size (columns n) = some (
  columns n,
  white 5
      ∷ opening col
      ∷ opening name
      ∷ text col_name
      ∷ closing name
      ∷ number int datatype (size_of datatype opt_size (closing col ∷ [])),
)
step_column_name _ _ _ _ = none

abbrev pub step_column_value : List Item → Phase → Outcome
step_column_value items (columns n) =
    some (
      in_row n,
      white 4 ∷ closing colnames ∷ white 4 ∷ opening rows ∷ white 5 ∷ opening row ∷ items,
    )
step_column_value items (between_rows n) = some (in_row n, white 5 ∷ opening row ∷ items)
step_column_value items (in_row n) = some (in_row n, items)
step_column_value _ _ = none

abbrev pub step_end_row : Phase → Outcome
step_end_row (in_row n) = some (between_rows n, white 5 ∷ closing row ∷ [])
step_end_row _ = none

abbrev pub step_begin_params : ℤ → Phase → Outcome
step_begin_params nb_rows params = some (params, [])
step_begin_params nb_rows after_messages = none
step_begin_params nb_rows p =
    into params (closing_items nb_rows p (white 2 ∷ opening outparams ∷ []))

abbrev pub step_param : List Item → Phase → Outcome
step_param items params = some (params, items)
step_param items call_params = some (call_params, items)
step_param _ _ = none

abbrev pub step_begin_msg : ℤ → Phase → Outcome
step_begin_msg nb_rows after_messages = none
step_begin_msg nb_rows p = into messages (closing_items nb_rows p (white 2 ∷ opening msglist ∷ []))

abbrev pub step_msg : ℤ → Bytes → Phase → Outcome
step_msg msg_num msg_text messages = some (
  messages,
  white 3
      ∷ opening msg
      ∷ number int msg_num (opening str ∷ text (escape msg_text) ∷ closing str ∷ closing msg ∷ []),
)
step_msg _ _ _ = none

abbrev pub step_end_msg : Phase → Outcome
step_end_msg messages = some (after_messages, white 2 ∷ closing msglist ∷ [])
step_end_msg _ = none

abbrev pub step_end_response : ℤ → ℤ → ℤ → Phase → Outcome
step_end_response return_status rc nb_rows p = into ended (
    closing_items nb_rows p (
      white 2
      ∷ opening returnstatus
      ∷ number int (final_status return_status rc)
          (closing returnstatus ∷ white 1 ∷ closing response ∷ white 1 ∷ end_mark ∷ [])))

abbrev pub step_begin_call : Bytes → Phase → Outcome
step_begin_call proc_name before = some (
  call_params,
  header ∷ white 1 ∷ opening proccall ∷ white 2 ∷ opening proc ∷ text proc_name ∷ closing proc ∷ [],
)
step_begin_call _ _ = none

abbrev pub step_end_call : Phase → Outcome
step_end_call call_params = some (ended, white 1 ∷ closing proccall ∷ white 1 ∷ end_mark ∷ [])
step_end_call _ = none

abbrev pub step_reset : Phase → Outcome
step_reset ended = some (before, [])
step_reset before = some (before, [])
step_reset _ = none

-- `none` where the call is out of order, or its value too long.
abbrev pub step : Phase → Call → Outcome
step p (begin_result_set n nb_rows) = step_result_set n nb_rows p
step p (column_name col_name datatype opt_size) = step_column_name col_name datatype opt_size p
step p (column_value datatype null_ind strval) =
    if_fits strval (step_column_value (cell datatype null_ind strval) p)
step p end_colum_values = step_end_row p
step p (begin_output_params nb_rows) = step_begin_params nb_rows p
step p (param_value p_name datatype opt_size is_output null_ind strval) =
    if_fits strval (step_param (param_items p_name datatype opt_size is_output null_ind strval) p)
step p end_param_values = step_param [] p
step p (begin_msg nb_rows) = step_begin_msg nb_rows p
step p (write_msg msg_num msg_text) = if_fits msg_text (step_msg msg_num msg_text p)
step p end_msg = step_end_msg p
step p (end_response return_status rc nb_rows) = step_end_response return_status rc nb_rows p
step p (begin_proc_call proc_name) = step_begin_call proc_name p
step p end_proc_call = step_end_call p
step p reset = step_reset p

-- The calls in this order.
abbrev pub after : List Item → Outcome → Outcome
after items none = none
after items (some (p, more)) = some (p, items ++ more)

abbrev pub then_run : (Phase → Outcome) → Outcome → Outcome
then_run go_on none = none
then_run go_on (some (p, items)) = after items (go_on p)

abbrev pub steps : Phase → List Call → Outcome
steps p [] = some (p, [])
steps p (c ∷ calls) = then_run (λ q. steps q calls) (step p c)

abbrev pub same_element : Element → Element → Bool
same_element a b = strcmp_eq (tag_name a) (tag_name b)

-- The elements that are open after some items, `none` where an end tag does not match.
abbrev pub close_innermost : Element → List Element → Option (List Element)
close_innermost e [] = none
close_innermost e (f ∷ stack) = if same_element e f then some stack else none

abbrev pub nested : List Element → List Item → Option (List Element)
nested stack [] = some stack
nested stack (opening e ∷ items) = nested (e ∷ stack) items
nested stack (closing e ∷ items) = elim (close_innermost e stack) [
  | none ↦ none
  | some stack' ↦ nested stack' items
]
nested stack (_ ∷ items) = nested stack items
