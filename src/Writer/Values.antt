-- ===== src/Writer/Values.antt =====
-- The calls of src/xmltp/xmltp_writer.c that write a value, in each phase of the protocol.
use xmltp.Prelude.{
  ℕ, ◌+◌, ◌≡◌, refl, true, Bool-cases, inl, inr, Option, List, [], ◌∷◌, ℤ, eq_ℤ, leb, length,
}
use xmltp.Bytes.{Bytes, NoNul}
use xmltp.Encoder.Spec.{escape}
use xmltp.Writer.{Writer, Flags, Output, esc_buf_size}
use xmltp.Writer.Parts.{sql_varchar, data_element}
use xmltp.Writer.Ready.{IsReady}
use xmltp.Writer.Items.{Item, opening, closing, text}
use xmltp.Writer.Phase.{
  Phase, columns, between_rows, in_row, params, call_params, messages, column_value, param_value,
  write_msg, Outcome, if_fits, cell, param_items, step, step_column_value, step_param, step_msg,
  white, number,
}
use xmltp.Writer.Calls.{do_call, flags_in, Does, OutputIn, Refines, valued}
use xmltp.Writer.Response
use xmltp.Writer.Response.{as_flag, attr_text}
use xmltp.Tags.{attr, colnames, isnull, int, msg, name, param, row, rows, str, sz}

abbrev pub at : Phase → Flags → Output → Writer
at p f o = record { flags = flags_in p f; out = o }

column_value_fits-Refines :
    (fd : ℕ) (p : Phase) (datatype null_ind : ℤ) (strval : Bytes) (f : Flags) (o : Output)
    → IsReady o
    → NoNul strval
    → leb (length (escape strval) + 2) esc_buf_size ≡ true
    → Refines o
        (step_column_value (cell datatype null_ind strval) p)
        (do_call fd (column_value datatype null_ind strval) (at p f o))
unfolding Response.column_value Response.write_column_value Response.begin_row Response.begin_rows
column_value_fits-Refines fd (columns n) datatype null_ind strval f o h z l =
    let e = data_element datatype in
    valued fd (in_row n) f
      (white 4
        ∷ closing colnames
        ∷ white 4
        ∷ opening rows
        ∷ white 5
        ∷ opening row
        ∷ white 6
        ∷ opening e
        ∷ [])
      (closing e ∷ number isnull (as_flag null_ind) []) strval o _ h z l refl (λ _. tt)
column_value_fits-Refines fd (between_rows n) datatype null_ind strval f o h z l =
    let e = data_element datatype in
    valued fd (in_row n) f (white 5 ∷ opening row ∷ white 6 ∷ opening e ∷ [])
      (closing e ∷ number isnull (as_flag null_ind) []) strval o _ h z l refl (λ _. tt)
column_value_fits-Refines fd (in_row n) datatype null_ind strval f o h z l =
    let e = data_element datatype in
    valued fd (in_row n) f (white 6 ∷ opening e ∷ [])
      (closing e ∷ number isnull (as_flag null_ind) []) strval o _ h z l refl (λ _. tt)
column_value_fits-Refines _ _ _ _ _ _ _ _ _ _ = tt

-- In both phases with parameters.
param_value-Does :
    (fd : ℕ) (p : Phase) (p_name : Bytes) (datatype opt_size is_output null_ind : ℤ)
    (strval : Bytes) (f : Flags) (o : Output)
    → IsReady o
    → NoNul strval
    → leb (length (escape strval) + 2) esc_buf_size ≡ true
    → ((o' : Output) → OutputIn p o')
    → Does p
        (param_items p_name datatype opt_size is_output null_ind strval)
        o
        (do_call fd (param_value p_name datatype opt_size is_output null_ind strval) (at p f o))
unfolding Response.param_value Response.write_size
param_value-Does fd p p_name datatype opt_size is_output null_ind strval f o h z l out =
    let e = data_element datatype in
    let first : List Item =
      white 3 ∷ opening param ∷ opening name ∷ text p_name ∷ closing name ∷ opening e ∷ [] in
    let last : List Item → List Item = λ size.
      closing e
      ∷ opening attr
      ∷ text (attr_text null_ind is_output datatype)
      ∷ closing attr
      ∷ size in
    elim (Bool-cases (eq_ℤ datatype sql_varchar)) [
      | inl q ↦ rw q (
          valued fd p f first (last (number sz opt_size (closing param ∷ []))) strval o _ h z l refl
            out)
      | inr q ↦ rw q (valued fd p f first (last (closing param ∷ [])) strval o _ h z l refl out)
    ]

param_value_fits-Refines :
    (fd : ℕ) (p : Phase) (p_name : Bytes) (datatype opt_size is_output null_ind : ℤ)
    (strval : Bytes) (f : Flags) (o : Output)
    → IsReady o
    → NoNul strval
    → leb (length (escape strval) + 2) esc_buf_size ≡ true
    → Refines o
        (step_param (param_items p_name datatype opt_size is_output null_ind strval) p)
        (do_call fd (param_value p_name datatype opt_size is_output null_ind strval) (at p f o))
param_value_fits-Refines fd params p_name datatype opt_size is_output null_ind strval f o h z l =
    param_value-Does fd params p_name datatype opt_size is_output null_ind strval f o h z l
      (λ _. tt)
param_value_fits-Refines fd call_params p_name datatype opt_size is_output null_ind strval f o h z
      l =
    param_value-Does fd call_params p_name datatype opt_size is_output null_ind strval f o h z l
      (λ _. tt)
param_value_fits-Refines _ _ _ _ _ _ _ _ _ _ _ _ _ = tt

write_msg_fits-Refines :
    (fd : ℕ) (p : Phase) (msg_num : ℤ) (msg_text : Bytes) (f : Flags) (o : Output)
    → IsReady o
    → NoNul msg_text
    → leb (length (escape msg_text) + 2) esc_buf_size ≡ true
    → Refines o (step_msg msg_num msg_text p) (do_call fd (write_msg msg_num msg_text) (at p f o))
unfolding Response.write_msg
write_msg_fits-Refines fd messages msg_num msg_text f o h z l =
    valued fd messages f (white 3 ∷ opening msg ∷ number int msg_num (opening str ∷ []))
      (closing str ∷ closing msg ∷ []) msg_text o _ h z l refl (λ _. tt)
write_msg_fits-Refines _ _ _ _ _ _ _ _ _ = tt

-- The calls are refused by the specification where the value is too long.
if_fits-Refines :
    (v : Bytes) (o : Output) (r : Outcome) (result : Option (ℤ × Writer))
    → (leb (length (escape v) + 2) esc_buf_size ≡ true → Refines o r result)
    → Refines o (if_fits v r) result
if_fits-Refines v o r result h = elim (Bool-cases (leb (length (escape v) + 2) esc_buf_size)) [
  | inl e ↦ rw e (h e)
  | inr e ↦ rw e tt
]

pub column_value-Refines :
    (fd : ℕ) (p : Phase) (datatype null_ind : ℤ) (strval : Bytes) (f : Flags) (o : Output)
    → IsReady o
    → NoNul strval
    → Refines o
        (step p (column_value datatype null_ind strval))
        (do_call fd (column_value datatype null_ind strval) (at p f o))
column_value-Refines fd p datatype null_ind strval f o h z =
    if_fits-Refines strval o (step_column_value (cell datatype null_ind strval) p) _
      (column_value_fits-Refines fd p datatype null_ind strval f o h z)

pub param_value-Refines :
    (fd : ℕ) (p : Phase) (p_name : Bytes) (datatype opt_size is_output null_ind : ℤ)
    (strval : Bytes) (f : Flags) (o : Output)
    → IsReady o
    → NoNul strval
    → Refines o
        (step p (param_value p_name datatype opt_size is_output null_ind strval))
        (do_call fd (param_value p_name datatype opt_size is_output null_ind strval) (at p f o))
param_value-Refines fd p p_name datatype opt_size is_output null_ind strval f o h z =
    let items = param_items p_name datatype opt_size is_output null_ind strval in
    if_fits-Refines strval o (step_param items p) _
      (param_value_fits-Refines fd p p_name datatype opt_size is_output null_ind strval f o h z)

pub write_msg-Refines :
    (fd : ℕ) (p : Phase) (msg_num : ℤ) (msg_text : Bytes) (f : Flags) (o : Output)
    → IsReady o
    → NoNul msg_text
    → Refines o
        (step p (write_msg msg_num msg_text))
        (do_call fd (write_msg msg_num msg_text) (at p f o))
write_msg-Refines fd p msg_num msg_text f o h z =
    if_fits-Refines msg_text o (step_msg msg_num msg_text p) _
      (write_msg_fits-Refines fd p msg_num msg_text f o h z)
