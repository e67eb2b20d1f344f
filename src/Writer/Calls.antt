-- ===== src/Writer/Calls.antt =====
-- The calls of src/xmltp/xmltp_writer.c against the protocol: each does what `step` says.
use mathlib.Core.Path.{subst}
use xmltp.Prelude.{
  ℕ, ◌+◌, ◌≡◌, refl, sym, ap, ◌∙◌, true, false, Bool-cases, inl, inr, Option, none, some, List, [],
  ◌∷◌, ◌++◌, ℤ, pos, leb, ltb, length-append, append_assoc, arith, length,
}
use xmltp.Bytes.{Bytes, NoNul, c_string, c_string-NoNul, c_string_whole}
use xmltp.Encoder.{encode}
use xmltp.Encoder.Spec.{escape, any_escape, escape_plain}
use xmltp.Encoder.Decode.{NoNul-escape}
use xmltp.Encoder.Encode.{encode_lem}
use xmltp.Writer.{Writer, Flags, Output, esc_buf_size, put, put_value, flush_send_buffer}
use xmltp.Writer.Ready.{IsReady, Extends, Extends-trans, flush_send_buffer-Flushes}
use xmltp.Writer.Parts.{if_put}
use xmltp.Writer.Buffer.{put-Extends, stream_empty}
use xmltp.Writer.Items.{Item, text, render, render-append, puts, puts-Extends}
use xmltp.Writer.Phase.{
  Phase, columns, between_rows, in_row, params, messages, after_messages, ended, Call,
  begin_result_set, column_name, column_value, end_colum_values, begin_output_params, param_value,
  end_param_values, begin_msg, write_msg, end_msg, end_response, begin_proc_call, end_proc_call,
  reset, Outcome,
}
use xmltp.Writer.Response

-- A call of the writer on the socket `fd`.
abbrev pub do_call : ℕ → Call → Writer → Option (ℤ × Writer)
do_call fd (begin_result_set n nb_rows) w = some (Response.begin_result_set (pos fd) n nb_rows w)
do_call fd (column_name col_name datatype opt_size) w =
    some (Response.column_name (pos fd) col_name datatype opt_size w)
do_call fd (column_value datatype null_ind strval) w =
    Response.column_value (pos fd) datatype null_ind (strval ++ 0 ∷ []) w
do_call fd end_colum_values w = some (Response.end_colum_values (pos fd) w)
do_call fd (begin_output_params nb_rows) w = some (Response.begin_output_params (pos fd) nb_rows w)
do_call fd (param_value p_name datatype opt_size is_output null_ind strval) w =
    Response.param_value (pos fd) p_name datatype opt_size is_output null_ind (strval ++ 0 ∷ []) w
do_call fd end_param_values w = some (Response.end_param_values (pos fd) w)
do_call fd (begin_msg nb_rows) w = some (Response.begin_msg (pos fd) nb_rows w)
do_call fd (write_msg msg_num msg_text) w =
    Response.write_msg (pos fd) msg_num (msg_text ++ 0 ∷ []) w
do_call fd end_msg w = some (Response.end_msg (pos fd) w)
do_call fd (end_response return_status rc nb_rows) w =
    some (Response.end_response (pos fd) return_status rc nb_rows w)
do_call fd (begin_proc_call proc_name) w = some (Response.begin_proc_call (pos fd) proc_name w)
do_call fd end_proc_call w = some (Response.end_proc_call (pos fd) w)
do_call fd reset w = some (Response.reset w)

-- The values have no inner NUL.
abbrev pub IsCall : Call → Type 0
IsCall (column_value _ _ strval) = NoNul strval
IsCall (param_value _ _ _ _ _ strval) = NoNul strval
IsCall (write_msg _ msg_text) = NoNul msg_text
IsCall _ = Unit

-- The static variables in a phase; what the phase does not determine is taken from `f`.
abbrev pub flags_in : Phase → Flags → Flags
flags_in (columns n) f = record f {
  header_done = true;
  results_sets_started = true;
  rows_started = false;
  output_params_started = false;
  prev_result_set_no = n;
}
flags_in (between_rows n) f = record f {
  header_done = true;
  results_sets_started = true;
  rows_started = true;
  within_one_row = false;
  output_params_started = false;
  prev_result_set_no = n;
}
flags_in (in_row n) f = record f {
  header_done = true;
  results_sets_started = true;
  rows_started = true;
  within_one_row = true;
  output_params_started = false;
  prev_result_set_no = n;
}
flags_in params f = record f {
  header_done = true;
  results_sets_started = false;
  rows_started = false;
  output_params_started = true;
}
flags_in messages f = record f {
  header_done = true;
  results_sets_started = false;
  rows_started = false;
  output_params_started = false;
}
flags_in after_messages f = record f {
  header_done = true;
  results_sets_started = false;
  rows_started = false;
  output_params_started = false;
}
flags_in ended f = f
flags_in _ f = record f {
  header_done = false;
  results_sets_started = false;
  rows_started = false;
  output_params_started = false;
}

-- What the phase says of the buffer: it is empty at the end.
abbrev pub OutputIn : Phase → Output → Type 0
OutputIn ended o = o.n_bytes_in_buff ≡ 0
OutputIn _ _ = Unit

pub record InPhase (p : Phase) (w : Writer) : Type 0 where
  pub base : Flags
  pub flags_are : w.flags ≡ flags_in p base
  pub output_in : OutputIn p w.out

-- What a call does: it returns, with the code 0 unless a send failed, in the next phase, and
-- the stream has its markup more unless a send failed.
pub record Does (p : Phase) (items : List Item) (o : Output) (r : Option (ℤ × Writer))
    : Type 0 where
  pub code : ℤ
  pub w : Writer
  pub returned : r ≡ some (code, w)
  pub no_error : w.out.ctr_socket_write_errors ≡ 0 → code ≡ pos 0
  pub in_phase : InPhase p w
  pub extends : Extends o w.out (render items)

abbrev pub Refines : Output → Outcome → Option (ℤ × Writer) → Type 0
Refines o none r = Unit
Refines o (some (p, items)) r = Does p items o r

-- A call that writes these items and returns 0.
pub plain :
    (fd : ℕ) (p : Phase) (f : Flags) (items : List Item) (o : Output) (r : Option (ℤ × Writer))
    → IsReady o
    → r ≡ some (pos 0, record { flags = flags_in p f; out = puts (pos fd) items o })
    → OutputIn p (puts (pos fd) items o)
    → Does p items o r
plain fd p f items o r h e out = record {
  code = pos 0;
  w = record { flags = flags_in p f; out = puts (pos fd) items o };
  returned = e;
  no_error = λ z. refl;
  in_phase = record { base = f; flags_are = refl; output_in = out };
  extends = puts-Extends (pos fd) items o h;
}

put_escaped-Extends :
    (sd : ℤ) (str s : Bytes) (o : Output)
    → IsReady o
    → c_string str ≡ s
    → (esc : Bytes) → Extends o (put sd str (record o { esc_buf = esc })) s
put_escaped-Extends sd str s o h e esc =
    let o' = record o { esc_buf = esc } in
    let x = put-Extends sd str o' (record { fits = h.fits; whole = h.whole; usable = h.usable }) in
    subst (Extends o (put sd str o')) e (record { ready = x.ready; delivered = x.delivered })

-- A value that fits `s_esc_buf` is written with its escapes.
put_value-Extends :
    (sd : ℤ) (v : Bytes) (o : Output)
    → NoNul v
    → leb (length (escape v) + 2) esc_buf_size ≡ true
    → IsReady o
    → (o' : Output) × (put_value sd (v ++ 0 ∷ []) o ≡ some o') × Extends o o' (escape v)
unfolding put_value
put_value-Extends sd v o z l h = elim (Bool-cases (any_escape v)) [
  | inl q ↦
      let n : ltb esc_buf_size (length (escape v ++ 0 ∷ 0 ∷ [])) ≡ false =
        ground (arith, length-append (escape v) (0 ∷ 0 ∷ [])) in
      let e : encode (v ++ 0 ∷ []) ≡ (1, escape v ++ 0 ∷ 0 ∷ []) = encode_lem v z ∙ rw q refl in
      rw (e, n)
        (
          _,
          refl,
          put_escaped-Extends sd _ (escape v) o h
              (ap c_string (append_assoc (escape v) (0 ∷ 0 ∷ []) _)
                ∙ c_string-NoNul (escape v) _ (NoNul-escape v z))
              _,
        )
  | inr q ↦
      let e : encode (v ++ 0 ∷ []) ≡ (0, []) = encode_lem v z ∙ rw q refl in
      rw e (
        _,
        refl,
        put_escaped-Extends sd (v ++ 0 ∷ []) (escape v) o h
            (c_string-NoNul v [] z ∙ sym (escape_plain v q)) _,
      )
]

-- A call that writes items, then a value, then items.
pub valued :
    (fd : ℕ) (p : Phase) (f : Flags) (first last : List Item) (v : Bytes) (o : Output)
    (r : Option (ℤ × Writer))
    → IsReady o
    → NoNul v
    → leb (length (escape v) + 2) esc_buf_size ≡ true
    → r
      ≡ if_put
          (λ o'. (pos 0, record { flags = flags_in p f; out = puts (pos fd) last o' }))
          (put_value (pos fd) (v ++ 0 ∷ []) (puts (pos fd) first o))
    → ((o' : Output) → OutputIn p o')
    → Does p (first ++ text (escape v) ∷ last) o r
valued fd p f first last v o r h z l e out =
    let x = puts-Extends (pos fd) first o h in
    let (o', put_it, y) = put_value-Extends (pos fd) v (puts (pos fd) first o) z l x.ready in
    let y' = subst (Extends _ o') (sym (c_string_whole (escape v) (NoNul-escape v z))) y in
    let t = puts-Extends (pos fd) last o' y.ready in
    record {
      code = pos 0;
      w = record { flags = flags_in p f; out = puts (pos fd) last o' };
      returned = e ∙ ap (if_put _) put_it;
      no_error = λ _. refl;
      in_phase = record { base = f; flags_are = refl; output_in = out _ };
      extends =
          subst (Extends o (puts (pos fd) last o'))
            (sym (render-append first (text (escape v) ∷ last)))
            (Extends-trans o _ _ (render first) (render (text (escape v) ∷ last)) x
              (Extends-trans _ o' _ (c_string (escape v)) (render last) y' t));
    }

-- A call that writes items and then flushes the buffer; `code` is what it makes of the code of the
-- flush.
pub flushing :
    (fd : ℕ) (f : Flags) (items : List Item) (o : Output) (code : ℤ) (r : Option (ℤ × Writer))
    → IsReady o
    → let flushed = flush_send_buffer (pos fd) (puts (pos fd) items o) in
      (flushed.0 ≡ pos 0 → code ≡ pos 0)
      → r ≡ some (code, record { flags = f; out = flushed.1 })
      → Does ended items o r
flushing fd f items o code r h c e =
    let o' = puts (pos fd) items o in
    let x = puts-Extends (pos fd) items o h in
    let y = flush_send_buffer-Flushes (pos fd) o' x.ready in
    let flushed = flush_send_buffer (pos fd) o' in
    record {
      code = code;
      w = record { flags = f; out = flushed.1 };
      returned = e;
      no_error = λ z. c (y.sent z).2;
      in_phase = record { base = f; flags_are = refl; output_in = y.empty };
      extends = record {
        ready = y.ready;
        delivered = λ z.
            let (z', on_wire, _) = y.sent z in
            let (z'', s) = x.delivered z' in (z'', stream_empty flushed.1 y.empty ∙ on_wire ∙ s);
      };
    }
